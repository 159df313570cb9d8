-- ===== src/IndexList/Combine.antt =====
-- What `combine` and `union` hold.
use kassandra_service.Common.{
  ℕ, ◌≤◌, ◌≡◌, ◌≢◌, inl, inr, refl, ◌∙◌, true, ◌&&◌, ◌||◌, [], ◌∷◌, ◌++◌, ltb, if◌then◌else◌, min,
  arith, All, Bool-cases,
}
use kassandra_service.Index.{Index, cmp}
use kassandra_service.IndexList.{
  IndexList, is_eq, sort, dedup_from, dedup, union, last_height, keep_common, contains, combine,
}
use kassandra_service.IndexList.Members.{
  Le, Lt, IsSorted, IsStrict, mem, same, max_height, sort-IsSorted, mem-sort, mem-append,
  mem-retain, max_height-sort, mem_bound, last_height-max,
}
use kassandra_service.IndexList.Lookup.{contains-mem}

-- The last height of a sorted list that is not empty is its greatest.
last_height-sort : (l : IndexList) → last_height 0 (sort l) ≡ max_height l
last_height-sort l =
    omega (
      arith,
      last_height-max 0 (sort l) (sort-IsSorted l) (all_heights (sort l)),
      max_height-sort l,
    )
  where
    all_heights : (l : IndexList) → All (λ x. 0 ≤ x.height) l
    all_heights [] = tt
    all_heights (x ∷ l) = (omega arith, all_heights l)

mem-keep_common :
    (h : ℕ) (a b : IndexList) (k : Index)
    → mem k (keep_common h (sort a) (sort b)) ≡ mem k a && (ltb h k.height || mem k b)
unfolding keep_common
mem-keep_common h a b k = ground (
  arith,
  mem-retain (λ ix. if ltb h ix.height then true else contains (sort b) ix) k (sort a),
  contains-mem (sort b) k (sort-IsSorted b),
  mem-sort k a,
  mem-sort k b,
)

-- Of two lists that are not empty, `combine` holds the indices of both, and those of either above
-- the smaller of the two greatest heights.
pub mem-combine :
    (self other : IndexList) (k : Index)
    → self ≢ []
    → other ≢ []
    → mem k (combine self other)
      ≡ (mem k self && mem k other)
        || (ltb (min (max_height self) (max_height other)) k.height && (mem k self || mem k other))
unfolding combine
mem-combine [] other k p q = absurd (p refl)
mem-combine (x ∷ xs) [] k p q = absurd (q refl)
mem-combine (x ∷ xs) (y ∷ ys) k p q = ground (
  arith,
  last_height-sort (x ∷ xs),
  last_height-sort (y ∷ ys),
  mem-keep_common (max_height (x ∷ xs)) (y ∷ ys) (x ∷ xs) k,
  mem-keep_common (max_height (y ∷ ys)) (x ∷ xs) (y ∷ ys) k,
  mem_bound k (x ∷ xs),
  mem_bound k (y ∷ ys),
)

-- The order in which two lists are combined does not matter to what the result holds.
pub mem-combine_comm : (a b : IndexList) (k : Index) → mem k (combine a b) ≡ mem k (combine b a)
mem-combine_comm [] [] k = refl
mem-combine_comm [] (y ∷ ys) k = unfold combine in refl
mem-combine_comm (x ∷ xs) [] k = unfold combine in refl
mem-combine_comm (x ∷ xs) (y ∷ ys) k = ground (
  arith,
  mem-combine (x ∷ xs) (y ∷ ys) k (λ e. cc) (λ e. cc),
  mem-combine (y ∷ ys) (x ∷ xs) k (λ e. cc) (λ e. cc),
)

mem-dedup_from : (k x : Index) (l : IndexList) → mem k (dedup_from x l) ≡ same k x || mem k l
unfolding dedup_from mem
mem-dedup_from k x [] = refl
mem-dedup_from k x (y ∷ l) = ground (arith, mem-dedup_from k x l, mem-dedup_from k y l)

dedup_from-All : (z x : Index) (l : IndexList) → Lt z x → All (Lt z) l → All (Lt z) (dedup_from x l)
unfolding dedup_from
dedup_from-All z x [] h a = (h, tt)
dedup_from-All z x (y ∷ l) h a =
    ground (arith, dedup_from-All z x l h a.1, dedup_from-All z y l a.0 a.1)

Lt-All : (x y : Index) (l : IndexList) → Lt x y → All (Le y) l → All (Lt x) l
Lt-All x y [] h a = tt
Lt-All x y (z ∷ l) h a = (ground (arith, a.0), Lt-All x y l h a.1)

-- Past equal neighbours a sorted list is strictly sorted.
dedup_from-IsStrict :
    (x : Index) (l : IndexList) → All (Le x) l → IsSorted l → IsStrict (dedup_from x l)
unfolding dedup_from
dedup_from-IsStrict x [] a s = (tt, tt)
dedup_from-IsStrict x (y ∷ l) a s = elim (Bool-cases (is_eq (cmp x y))) [
  | inl e ↦ rw e (dedup_from-IsStrict x l a.1 s.1)
  | inr e ↦
      let lt : Lt x y = ground (arith, a.0) in
      rw e (dedup_from-All x y l lt (Lt-All x y l lt s.0), dedup_from-IsStrict y l s.0 s.1)
]

dedup-IsStrict : (l : IndexList) → IsSorted l → IsStrict (dedup l)
unfolding dedup
dedup-IsStrict [] s = tt
dedup-IsStrict (x ∷ l) s = dedup_from-IsStrict x l s.0 s.1

mem-dedup : (k : Index) (l : IndexList) → mem k (dedup l) ≡ mem k l
unfolding dedup mem
mem-dedup k [] = refl
mem-dedup k (x ∷ l) = mem-dedup_from k x l

-- `union` holds the indices of either list, in order and each of them once.
pub union-mem :
    (self other : IndexList)
    → IsStrict (union self other)
      × ((k : Index) → mem k (union self other) ≡ mem k self || mem k other)
unfolding union
union-mem self other = (
  dedup-IsStrict _ (sort-IsSorted (self ++ other)),
  λ k. mem-dedup k (sort (self ++ other)) ∙ mem-sort k (self ++ other) ∙ mem-append k self other,
)
