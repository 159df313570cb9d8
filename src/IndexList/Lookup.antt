-- ===== src/IndexList/Lookup.antt =====
-- `contains` and `contains_height` on a sorted list decide membership.
use kassandra_service.Common.{
  ℕ, zero, suc, ◌≤◌, ◌≡◌, inl, inr, refl, Bool, true, [], ◌∷◌, some, ◌==◌, get_elem?, arith, All,
  compare, Ordering, Bool-cases,
}
use kassandra_service.Index.{Index, cmp}
use kassandra_service.IndexList.{IndexList, contains, contains_height}
use kassandra_service.IndexList.Members.{Le, IsSorted, mem, same, has_height}
use kassandra_service.IndexList.Search.{
  At, IsMonotone, get_elem?-lt, get_elem?-some, binary_search_by_iff,
}

All-at : (x y : Index) (l : IndexList) (j : ℕ) → All (Le x) l → get_elem? l j ≡ some y → Le x y
All-at x y [] j a e = cc
All-at x y (z ∷ l) zero a e = ground (arith, a.0)
All-at x y (z ∷ l) (suc j) a e = All-at x y l j a.1 e

-- Elements of a sorted list stand in order.
sorted_at :
    (l : IndexList) (i j : ℕ) (x y : Index)
    → IsSorted l
    → i ≤ j
    → get_elem? l i ≡ some x
    → get_elem? l j ≡ some y
    → Le x y
sorted_at [] i j x y s h e e' = cc
sorted_at (z ∷ l) zero zero x y s h e e' = ground arith
sorted_at (z ∷ l) zero (suc j) x y (a, s) h e e' = ground (arith, All-at z y l j a e')
sorted_at (z ∷ l) (suc i) zero x y s h e e' = absurd (omega arith)
sorted_at (z ∷ l) (suc i) (suc j) x y (a, s) h e e' = sorted_at l i j x y s (omega arith) e e'

module _ (f : Index → Ordering) (l : IndexList) (s : IsSorted l) where
  -- A comparison that agrees with the order is monotone along a sorted list.
  monotone :
      ((x y : Index) → Le x y → f y ≡ Ordering.lt → f x ≡ Ordering.lt)
      → ((x y : Index) → Le x y → f x ≡ Ordering.gt → f y ≡ Ordering.gt)
      → IsMonotone f l
  monotone down up = record {
    below = λ i j h (y, e, p).
        let (x, e') = get_elem?-lt l i (omega (arith, get_elem?-some l j y e)) in
        (x, e', down x y (sorted_at l i j x y s h e' e) p);
    above = λ i j h k (x, e, p).
        let (y, e') = get_elem?-lt l j k in (y, e', up x y (sorted_at l i j x y s h e e') p);
  }

Bool-ext : (a b : Bool) → (a ≡ true → b ≡ true) → (b ≡ true → a ≡ true) → a ≡ b
Bool-ext a b f g = ground arith

At-mem : (k : Index) (l : IndexList) (i : ℕ) → At (λ ix. cmp ix k) l i Ordering.eq → mem k l ≡ true
unfolding mem
At-mem k [] i (x, e, p) = cc
At-mem k (y ∷ l) zero (x, e, p) = ground arith
At-mem k (y ∷ l) (suc i) (x, e, p) = ground (arith, At-mem k l i (x, e, p))

mem-At :
    (k : Index) (l : IndexList) → mem k l ≡ true → (i : ℕ) × At (λ ix. cmp ix k) l i Ordering.eq
unfolding mem
mem-At k [] h = cc
mem-At k (y ∷ l) h = elim (Bool-cases (same k y)) [
  | inl e ↦ (0, (y, refl, ground arith))
  | inr e ↦ let (i, a) = mem-At k l (rw e at h) in (suc i, a)
]

At-has_height :
    (h : ℕ) (l : IndexList) (i : ℕ)
    → At (λ ix. compare ix.height h) l i Ordering.eq
    → has_height h l ≡ true
At-has_height h [] i (x, e, p) = cc
At-has_height h (y ∷ l) zero (x, e, p) = ground arith
At-has_height h (y ∷ l) (suc i) (x, e, p) = ground (arith, At-has_height h l i (x, e, p))

has_height-At :
    (h : ℕ) (l : IndexList)
    → has_height h l ≡ true
    → (i : ℕ) × At (λ ix. compare ix.height h) l i Ordering.eq
has_height-At h [] e = cc
has_height-At h (y ∷ l) e = elim (Bool-cases (h == y.height)) [
  | inl q ↦ (0, (y, refl, ground arith))
  | inr q ↦ let (i, a) = has_height-At h l (rw q at e) in (suc i, a)
]

-- On a sorted list `contains` answers whether the index is in the list.
pub contains-mem : (l : IndexList) (k : Index) → IsSorted l → contains l k ≡ mem k l
unfolding contains
contains-mem l k s =
    let m = monotone (λ ix. cmp ix k) l s (λ x y h e. ground arith) (λ x y h e. ground arith) in
    let (sound, complete) = binary_search_by_iff (λ ix. cmp ix k) l m in
    Bool-ext _ _ (λ h. let (i, a) = sound h in At-mem k l i a) (λ h. complete (mem-At k l h))

-- On a sorted list `contains_height` answers whether some index of the list has that height.
pub contains_height-has_height :
    (l : IndexList) (h : ℕ) → IsSorted l → contains_height l h ≡ has_height h l
unfolding contains_height
contains_height-has_height l h s =
    let m =
      monotone (λ ix. compare ix.height h) l s (λ x y q e. ground arith)
        (λ x y q e. ground arith) in
    let (sound, complete) = binary_search_by_iff (λ ix. compare ix.height h) l m in
    Bool-ext _ _ (λ q. let (i, a) = sound q in At-has_height h l i a)
      (λ q. complete (has_height-At h l q))
