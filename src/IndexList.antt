-- ===== src/IndexList.antt =====
-- shared/src/db.rs, `IndexList`: lists of indices, their bytes, and the set operations on them.
pub mod Search
pub mod Members
pub mod Lookup
pub mod Combine
use kassandra_service.Common.{
  ℕ, zero, suc, ◌+◌, ◌-◌, ◌*◌, ◌/◌, Bool, true, false, not, List, [], ◌∷◌, ◌++◌, Option, none, some,
  ltb, leb, ◌==◌, if◌then◌else◌, length, get_elem?, take, drop, compare, Ordering,
}
use kassandra_service.Index.{Index, cmp}
use kassandra_service.Index
use mathlib.Core.List.{filter_map}

abbrev pub IndexList : Type 0
IndexList = List Index

-- `chunks(n)`, with a round of fuel for each byte at most.
unfoldable pub chunks : ℕ → ℕ → List ℕ → List (List ℕ)
chunks zero n bytes = []
chunks (suc fuel) n [] = []
chunks (suc fuel) n (b ∷ bs) = take n (b ∷ bs) ∷ chunks fuel n (drop n (b ∷ bs))

unfoldable pub try_from_bytes : List ℕ → Option IndexList
unfolding chunks
try_from_bytes bytes =
    if not (12 * (length bytes / 12) == length bytes)
    then none
    else (let indices = filter_map Index.try_from_bytes (chunks (length bytes) 12 bytes) in
        if not (length indices == length bytes / 12) then none else some indices)

-- One probe of the binary search, at the element of index `mid`.
unfoldable pub probe : (Index → Ordering) → Option Index → ℕ → ℕ → ℕ
probe f none base mid = base
probe f (some x) base mid = elim (f x) [ Ordering.gt ↦ base | _ ↦ mid ]

-- The loop of `slice::binary_search_by`: `size` elements from `base` on are left.
unfoldable pub search_loop : (Index → Ordering) → IndexList → ℕ → ℕ → ℕ → ℕ
unfolding probe
search_loop f xs zero size base = base
search_loop f xs (suc fuel) size base =
    let half = size / 2 in
    let next =
      search_loop f xs fuel (size - half)
        (probe f (get_elem? xs (base + half)) base (base + half)) in
    if leb size 1 then base else next

is_eq : Ordering → Bool
is_eq Ordering.eq = true
is_eq _ = false

-- `binary_search_by(f).is_ok()`
unfoldable pub binary_search_by : (Index → Ordering) → IndexList → Bool
unfolding search_loop is_eq
binary_search_by f xs = elim (get_elem? xs (search_loop f xs (length xs) (length xs) 0)) [
  | none ↦ false
  | some x ↦ is_eq (f x)
]

unfoldable pub contains : IndexList → Index → Bool
contains self index = binary_search_by (λ ix. cmp ix index) self

unfoldable pub contains_height : IndexList → ℕ → Bool
contains_height self height = binary_search_by (λ ix. compare ix.height height) self

-- `sort`, a stable sort by the derived order.
unfoldable pub insort : Index → IndexList → IndexList
insort x [] = x ∷ []
insort x (y ∷ ys) =
    let rest = insort x ys in elim (cmp x y) [ Ordering.gt ↦ y ∷ rest | _ ↦ x ∷ y ∷ ys ]

unfoldable pub sort : IndexList → IndexList
unfolding insort
sort [] = []
sort (x ∷ xs) = insort x (sort xs)

-- `dedup` drops an element that equals the one kept before it.
unfoldable pub dedup_from : Index → IndexList → IndexList
unfolding is_eq
dedup_from x [] = x ∷ []
dedup_from x (y ∷ ys) =
    let same = is_eq (cmp x y) in
    let rest = dedup_from (if same then x else y) ys in if same then rest else x ∷ rest

unfoldable pub dedup : IndexList → IndexList
unfolding dedup_from
dedup [] = []
dedup (x ∷ xs) = dedup_from x xs

unfoldable pub union : IndexList → IndexList → IndexList
union self other = dedup (sort (self ++ other))

-- `last().map(|ix| ix.height).unwrap_or_default()`
unfoldable pub last_height : ℕ → IndexList → ℕ
last_height d [] = d
last_height d (x ∷ xs) = last_height x.height xs

unfoldable pub retain : (Index → Bool) → IndexList → IndexList
retain pred [] = []
retain pred (x ∷ xs) = let rest = retain pred xs in if pred x then x ∷ rest else rest

-- The `retain` of `combine`, on the list that is synced further.
unfoldable pub keep_common : ℕ → IndexList → IndexList → IndexList
keep_common height self other =
    retain (λ ix. if ltb height ix.height then true else contains other ix) self

unfoldable pub combine : IndexList → IndexList → IndexList
combine [] other = other
combine (x ∷ xs) [] = x ∷ xs
combine (x ∷ xs) (y ∷ ys) =
    let self = sort (x ∷ xs) in
    let other = sort (y ∷ ys) in
    let a_height = last_height 0 self in
    let b_height = last_height 0 other in
    if ltb a_height b_height
    then keep_common a_height other self
    else keep_common b_height self other
