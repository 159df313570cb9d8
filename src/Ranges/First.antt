-- ===== src/Ranges/First.antt =====
-- `FetchedRanges::first`: the height behind the first range.
use kassandra_service.Common.{
  ℕ, ◌+◌, ◌^◌, ◌≤◌, ◌<◌, ◌≡◌, refl, true, false, List, [], ◌∷◌, arith, ok,
}
use kassandra_service.Ranges.{FetchedRanges, first}
use kassandra_service.Ranges.Cover.{IsRanges, covers, covers_below}

-- `first` gives a height from 1 on that is not covered.
pub first_uncovered :
    (l : FetchedRanges) (h : ℕ) → IsRanges l → first l ≡ ok h → (1 ≤ h) × (covers l h ≡ false)
unfolding first covers
first_uncovered [] h s e = ground arith
first_uncovered (a ∷ []) h s e = absurd s
first_uncovered (a ∷ b ∷ r) h (x, y, z, s) e = ground (arith, covers_below 1 (b + 1 + 1) r h s)

-- Where the ranges begin at the first block, all blocks before `first` are covered.
pub first_complete :
    (a b : ℕ) (r : List ℕ) (h x : ℕ)
    → IsRanges (a ∷ b ∷ r)
    → a ≤ 1
    → first (a ∷ b ∷ r) ≡ ok h
    → 1 ≤ x
    → x < h
    → covers (a ∷ b ∷ r) x ≡ true
unfolding first covers
first_complete a b r h x s le e lo hi = ground arith

-- Where ranges in order begin above a height, and the first ends below the greatest u64, `first`
-- gives a height above it, though it is not covered.
pub first_skips :
    (a b : ℕ) (r : List ℕ) (x : ℕ)
    → IsRanges (a ∷ b ∷ r)
    → b + 1 < 2 ^ 64
    → x < a
    → (h : ℕ) × (first (a ∷ b ∷ r) ≡ ok h) × (x < h) × (covers (a ∷ b ∷ r) x ≡ false)
unfolding first covers
first_skips a b r x (u, v, w, s) small lt =
    (b + 1, ground arith, omega arith, ground (arith, covers_below 1 (b + 1 + 1) r x s))

-- `first` panics on no ranges in order, unless the first ends at the greatest u64.
pub first_ok :
    (l : FetchedRanges)
    → IsRanges l
    → ((h : ℕ) → covers l h ≡ true → h + 1 < 2 ^ 64)
    → (h : ℕ) × (first l ≡ ok h)
unfolding first covers
first_ok [] s f = (1, refl)
first_ok (a ∷ []) s f = absurd s
first_ok (a ∷ b ∷ r) (u, v, w, s) f = (b + 1, ground (arith, f b))

-- `first` gives at most the height behind all that is covered.
pub first_behind :
    (l : FetchedRanges) (h m : ℕ)
    → IsRanges l
    → first l ≡ ok h
    → ((x : ℕ) → covers l x ≡ true → x ≤ m)
    → h ≤ m + 1
unfolding first covers
first_behind [] h m s e f = ground arith
first_behind (a ∷ []) h m s e f = absurd s
first_behind (a ∷ b ∷ r) h m (u, v, w, s) e f = ground (arith, f b)
