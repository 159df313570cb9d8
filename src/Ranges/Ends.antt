-- ===== src/Ranges/Ends.antt =====
-- Where `insert` puts the two ends: its steps against a recursion over the ranges.
use kassandra_service.Common.{
  ℕ, ◌+◌, ◌%◌, ◌≤◌, ◌<◌, ◌≡◌, ◌≢◌, refl, Bool, List, [], ◌∷◌, ltb, leb, ◌==◌, if◌then◌else◌, min,
  arith, Outcome, ok, ◌>>=◌, ap, ◌∙◌,
}
use native.Mathlib.Nat.{le_refl}
use kassandra_service.Ranges.{retain, find_index, vec_insert, insert_ends}
use kassandra_service.Ranges.Cover.{Spaced, covers, contains-covers, covers_below}

-- `to` is not the upper end of a range.
abbrev pub IsNoUpper : ℕ → List ℕ → Type 0
IsNoUpper to [] = Unit {0}
IsNoUpper to (a ∷ []) = Unit {0}
IsNoUpper to (a ∷ b ∷ r) = (to ≢ b) × IsNoUpper to r

-- What follows the lower end of a range that is to reach `to`.
unfoldable pub close : ℕ → List ℕ → List ℕ
close to [] = to ∷ []
close to (a ∷ []) = []
close to (a ∷ b ∷ r) =
    let rest = close to r in if ltb to a then to ∷ a ∷ b ∷ r else if leb to b then b ∷ r else rest

-- The ends after the insertion, before ranges that touch are joined.
unfoldable pub spliced : ℕ → ℕ → List ℕ → List ℕ
spliced from to [] = from ∷ to ∷ []
spliced from to (a ∷ []) = []
spliced from to (a ∷ b ∷ r) =
    let rest = spliced from to r in
    if ltb b from then a ∷ b ∷ rest else min a from ∷ close to (a ∷ b ∷ r)

retain_above : (from to lo : ℕ) (l : List ℕ) → to < lo → Spaced 1 lo l → retain from to l ≡ l
unfolding retain
retain_above from to lo [] h s = refl
retain_above from to lo (a ∷ []) h s = absurd s
retain_above from to lo (a ∷ b ∷ r) h (x, y, z, s) =
    ground (arith, retain_above from to (b + 1 + 1) r (omega arith) s)

find_index-retain :
    (from to lo : ℕ) (l : List ℕ)
    → from ≤ to
    → from ≤ lo
    → Spaced 1 lo l
    → find_index (retain from to l) from ≡ 0
unfolding retain find_index
find_index-retain from to lo [] h k s = refl
find_index-retain from to lo (a ∷ []) h k s = absurd s
find_index-retain from to lo (a ∷ b ∷ r) h k (x, y, z, s) =
    ground (arith, find_index-retain from to (b + 1 + 1) r h (omega arith) s)

retain-close :
    (from to lo : ℕ) (l : List ℕ)
    → from ≤ to
    → from ≤ lo
    → Spaced 1 lo l
    → IsNoUpper to l
    → (if covers l to then retain from to l else to ∷ retain from to l) ≡ close to l
unfolding retain covers close
retain-close from to lo [] h k s n = refl
retain-close from to lo (a ∷ []) h k s n = absurd s
retain-close from to lo (a ∷ b ∷ r) h k (x, y, z, s) (e, n) = ground (
  arith,
  retain-close from to (b + 1 + 1) r h (omega arith) s n,
  retain_above from to (b + 1 + 1) r,
  covers_below 1 (b + 1 + 1) r to s,
)

-- The last steps of `insert`, from the answer of `contains` and the ends that it keeps.
place : Bool → List ℕ → ℕ → ℕ → Outcome (List ℕ)
unfolding find_index vec_insert
place contains_to kept from to = do
  let from_ix = find_index kept from
  with_to ← if contains_to then ok kept else vec_insert kept from_ix to
  if from_ix % 2 == 0 then vec_insert with_to from_ix from else ok with_to

place_skip :
    (c : Bool) (a b : ℕ) (kept : List ℕ) (from to : ℕ)
    → a ≤ b
    → b < from
    → place c (a ∷ b ∷ kept) from to ≡ (place c kept from to >>= λ r. ok (a ∷ b ∷ r))
unfolding place
place_skip c a b kept from to h k = ground arith

place_below :
    (c : Bool) (kept : List ℕ) (from to : ℕ)
    → find_index kept from ≡ 0
    → place c kept from to ≡ ok (from ∷ (if c then kept else to ∷ kept))
unfolding place
place_below c kept from to e = ground arith

place_inside :
    (c : Bool) (a : ℕ) (kept : List ℕ) (from to : ℕ)
    → a < from
    → find_index kept from ≡ 0
    → place c (a ∷ kept) from to ≡ ok (a ∷ (if c then kept else to ∷ kept))
unfolding place
place_inside c a kept from to h e = ground arith

-- The ranges in the range list from `a` on, where `from` falls inside the first.
retain-close_inside :
    (from to a b : ℕ) (r : List ℕ)
    → from ≤ to
    → a < from
    → from ≤ b
    → Spaced 1 (b + 1 + 1) r
    → IsNoUpper to (a ∷ b ∷ r)
    → (if covers (a ∷ b ∷ r) to then retain from to (b ∷ r) else to ∷ retain from to (b ∷ r))
      ≡ close to (a ∷ b ∷ r)
unfolding retain covers close
retain-close_inside from to a b r h k l s (e, n) = ground (
  arith,
  retain-close from to (b + 1 + 1) r h (omega arith) s n,
  retain_above from to (b + 1 + 1) r,
  covers_below 1 (b + 1 + 1) r to s,
)

find_index-retain_inside :
    (from to b : ℕ) (r : List ℕ)
    → from ≤ to
    → from ≤ b
    → Spaced 1 (b + 1 + 1) r
    → find_index (retain from to (b ∷ r)) from ≡ 0
unfolding retain find_index
find_index-retain_inside from to b r h k s =
    ground (arith, find_index-retain from to (b + 1 + 1) r h (omega arith) s)

retain_first :
    (a : ℕ) (xs : List ℕ) (from to : ℕ) → a < from → retain from to (a ∷ xs) ≡ a ∷ retain from to xs
unfolding retain
retain_first a xs from to h = ground arith

place-spliced :
    (from to lo : ℕ) (l : List ℕ)
    → from ≤ to
    → Spaced 1 lo l
    → IsNoUpper to l
    → place (covers l to) (retain from to l) from to ≡ ok (spliced from to l)
unfolding spliced
place-spliced from to lo [] h s n = unfold covers retain place find_index in refl
place-spliced from to lo (a ∷ []) h s n = absurd s
place-spliced from to lo (a ∷ b ∷ r) h (x, y, z, s) (e, n) = ground (
  arith,
  skip,
  place_skip (covers r to) a b (retain from to r) from to y,
  place-spliced from to (b + 1 + 1) r h s n,
  below,
  inside,
)
  where
    skip :
        b < from
        → (retain from to (a ∷ b ∷ r) ≡ a ∷ b ∷ retain from to r)
          × (covers (a ∷ b ∷ r) to ≡ covers r to)
    skip k = unfold retain covers in ground arith

    below :
        from ≤ a
        → place (covers (a ∷ b ∷ r) to) (retain from to (a ∷ b ∷ r)) from to
          ≡ ok (from ∷ close to (a ∷ b ∷ r))
    below k =
        place_below (covers (a ∷ b ∷ r) to) (retain from to (a ∷ b ∷ r)) from to
          (find_index-retain from to a (a ∷ b ∷ r) h k (le_refl a, y, z, s))
        ∙ ap (λ (t : List ℕ). ok (from ∷ t))
            (retain-close from to a (a ∷ b ∷ r) h k (le_refl a, y, z, s) (e, n))

    inside :
        a < from
        → from ≤ b
        → place (covers (a ∷ b ∷ r) to) (retain from to (a ∷ b ∷ r)) from to
          ≡ ok (a ∷ close to (a ∷ b ∷ r))
    inside k l = rw (retain_first a (b ∷ r) from to k) (
        place_inside (covers (a ∷ b ∷ r) to) a (retain from to (b ∷ r)) from to k
          (find_index-retain_inside from to b r h l s)
        ∙ ap (λ (t : List ℕ). ok (a ∷ t)) (retain-close_inside from to a b r h k l s (e, n)))

pub insert_ends-spliced :
    (from to : ℕ) (l : List ℕ)
    → from ≤ to
    → Spaced 1 0 l
    → IsNoUpper to l
    → insert_ends l from to ≡ ok (spliced from to l)
unfolding insert_ends place
insert_ends-spliced from to l h s n =
    rw (contains-covers 1 0 l to s) (place-spliced from to 0 l h s n)
