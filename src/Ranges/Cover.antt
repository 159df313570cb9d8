-- ===== src/Ranges/Cover.antt =====
-- What a `FetchedRanges` stands for: the block heights between its pairs of ends.
use kassandra_service.Common.{
  ℕ, ◌+◌, ◌^◌, ◌≤◌, ◌<◌, ◌≡◌, refl, Bool, false, ◌&&◌, ◌||◌, List, [], ◌∷◌, leb, arith, ok,
}
use kassandra_service.Ranges.{contains}

-- Pairs of ends from `lo` on, each in order, on u64, with more than `gap` heights between two pairs.
abbrev pub Spaced : ℕ → ℕ → List ℕ → Type 0
Spaced gap lo [] = Unit {0}
Spaced gap lo (a ∷ []) = ⊥
Spaced gap lo (a ∷ b ∷ r) = (lo ≤ a) × (a ≤ b) × (b < 2 ^ 64) × Spaced gap (b + 1 + gap) r

-- What `insert` keeps: ends in order, and a missing height between two ranges.
abbrev pub IsRanges : List ℕ → Type 0
IsRanges l = Spaced 1 0 l

unfoldable pub covers : List ℕ → ℕ → Bool
covers [] h = false
covers (a ∷ []) h = false
covers (a ∷ b ∷ r) h = leb a h && leb h b || covers r h

-- On ranges `contains` does not panic, and answers for the heights covered.
pub contains-covers :
    (gap lo : ℕ) (l : List ℕ) (h : ℕ) → Spaced gap lo l → contains l h ≡ ok (covers l h)
unfolding contains covers
contains-covers gap lo [] h s = refl
contains-covers gap lo (a ∷ []) h s = absurd s
contains-covers gap lo (a ∷ b ∷ r) h s = ground (arith, contains-covers gap (b + 1 + gap) r h s.3)

pub Spaced-lower :
    (gap : ℕ) {lo lo' : ℕ} (l : List ℕ) → lo' ≤ lo → Spaced gap lo l → Spaced gap lo' l
Spaced-lower gap [] h s = tt
Spaced-lower gap (a ∷ []) h s = s
Spaced-lower gap (a ∷ b ∷ r) h s = (omega arith, s.1, s.2, s.3)

pub Spaced-weaken : (lo lo' : ℕ) (l : List ℕ) → lo' ≤ lo → Spaced 1 lo l → Spaced 0 lo' l
Spaced-weaken lo lo' [] h s = tt
Spaced-weaken lo lo' (a ∷ []) h s = s
Spaced-weaken lo lo' (a ∷ b ∷ r) h s =
    (omega arith, s.1, s.2, Spaced-weaken (b + 1 + 1) (b + 1 + 0) r (omega arith) s.3)

-- Nothing below the first end is covered.
pub covers_below : (gap lo : ℕ) (l : List ℕ) (h : ℕ) → Spaced gap lo l → h < lo → covers l h ≡ false
unfolding covers
covers_below gap lo [] h s lt = refl
covers_below gap lo (a ∷ []) h s lt = refl
covers_below gap lo (a ∷ b ∷ r) h s lt = ground (arith, covers_below gap (b + 1 + gap) r h s.3)
