-- ===== src/Ranges.antt =====
-- host/src/db/utils.rs, `FetchedRanges`.
pub mod Unique
pub mod Cover
mod Simplify
pub mod Ends
mod Splice
pub mod Insert
pub mod Left
pub mod Intervals
pub mod First
use kassandra_service.Common.{
  ℕ, zero, suc, ◌+◌, ◌-◌, ◌%◌, ◌^◌, ◌≤◌, ◌<◌, Bool, true, false, ◌&&◌, ◌||◌, not, List, [], ◌∷◌,
  ◌++◌, ltb, leb, ◌==◌, if◌then◌else◌, length, Outcome, ok, panic, ◌>>=◌,
}

abbrev pub FetchedRanges : Type 0
FetchedRanges = List ℕ

-- `checked_add` of 1 on a block height.
pub checked_suc : ℕ → Outcome ℕ
checked_suc h = if ltb (h + 1) (2 ^ 64) then ok (h + 1) else panic

unfoldable pub first : FetchedRanges → Outcome ℕ
unfolding checked_suc
first [] = ok 1
first (a ∷ []) = panic
first (a ∷ b ∷ r) = checked_suc b

-- `r[1]` of an odd last chunk is out of bounds; `&&` reaches it only if `r[0]` is not above `height`.
unfoldable pub contains : FetchedRanges → ℕ → Outcome Bool
contains [] height = ok false
contains (a ∷ []) height = if leb a height then panic else ok false
contains (a ∷ b ∷ r) height = if leb a height && leb height b then ok true else contains r height

-- `retain(|x| *x < from || *x > to)`
unfoldable pub retain : ℕ → ℕ → List ℕ → List ℕ
retain from to [] = []
retain from to (x ∷ xs) =
    let rest = retain from to xs in if ltb x from || ltb to x then x ∷ rest else rest

unfoldable pub find_index : List ℕ → ℕ → ℕ
find_index [] h = 0
find_index (x ∷ xs) h = if ltb h x then 0 else suc (find_index xs h)

-- `Vec::insert`, which panics past the end.
unfoldable pub vec_insert : List ℕ → ℕ → ℕ → Outcome (List ℕ)
vec_insert xs zero v = ok (v ∷ xs)
vec_insert [] (suc i) v = panic
vec_insert (x ∷ xs) (suc i) v = do rest ← vec_insert xs i v; ok (x ∷ rest)

-- `self.0[ix - 1].0 == b.0 - 1 || self.0[ix - 1].0 == b.0`, the subtraction on u64.
pub joined : ℕ → ℕ → Bool
joined prev b = prev == (b + 2 ^ 64 - 1) % 2 ^ 64 || prev == b

-- The rounds of the loop from index 2 on: the list starts at `ix - 1`.
pub simplify_loop : List ℕ → List ℕ
unfolding joined
simplify_loop [] = []
simplify_loop (prev ∷ []) = []
simplify_loop (prev ∷ b ∷ r) =
    let rest = simplify_loop r in if joined prev b then rest else prev ∷ b ∷ rest

pub last : ℕ → List ℕ → ℕ
last x [] = x
last x (y ∷ ys) = last y ys

pub simplify : FetchedRanges → FetchedRanges
unfolding simplify_loop last
simplify [] = []
simplify (a ∷ r) = a ∷ (simplify_loop r ++ last a r ∷ [])

-- The body of `insert` behind its early return, up to the call of `simplify`.
pub insert_ends : FetchedRanges → ℕ → ℕ → Outcome FetchedRanges
unfolding contains retain find_index vec_insert
insert_ends self from to = do
  contains_to ← contains self to
  let kept = retain from to self
  let from_ix = find_index kept from
  with_to ← if contains_to then ok kept else vec_insert kept from_ix to
  if from_ix % 2 == 0 then vec_insert with_to from_ix from else ok with_to

unfoldable pub insert : FetchedRanges → ℕ → ℕ → Outcome FetchedRanges
unfolding insert_ends simplify
insert [] from to = ok (from ∷ to ∷ [])
insert (a ∷ r) from to = do ranges ← insert_ends (a ∷ r) from to; ok (simplify ranges)

-- The loop over `from..=to`, with `n` heights left from `height` on: what it pushes.
pub left_loop : FetchedRanges → ℕ → ℕ → ℕ → ℕ → Bool → Outcome (List (ℕ × ℕ))
unfolding contains
left_loop self to zero height current_from need_to_fetch =
    ok (if need_to_fetch then (current_from, to) ∷ [] else [])
left_loop self to (suc n) height current_from need_to_fetch = do
  height_in_cache ← contains self height
  let upper = need_to_fetch && height_in_cache
  let lower = not need_to_fetch && not height_in_cache
  rest ←
      left_loop self to n (height + 1) (if lower then height else current_from)
        (if upper then false else if lower then true else need_to_fetch)
  ok (if upper && ltb current_from height then (current_from, height - 1) ∷ rest else rest)

unfoldable pub blocks_left_to_fetch : FetchedRanges → ℕ → ℕ → Outcome (List (ℕ × ℕ))
unfolding left_loop
blocks_left_to_fetch self from to =
    if ltb to from || (from == 0 || to == 0)
    then panic
    else left_loop self to (to + 1 - from) from from true
