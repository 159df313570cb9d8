-- ===== src/Ranges/Insert.antt =====
-- `FetchedRanges::insert`: what it keeps and covers, and where it goes wrong.
use kassandra_service.Common.{
  ℕ, ◌+◌, ◌^◌, ◌≤◌, ◌<◌, ◌≡◌, refl, true, false, ◌&&◌, ◌||◌, List, [], ◌∷◌, leb, arith, ok, ◌∙◌,
}
use kassandra_service.Ranges.{simplify, insert}
use kassandra_service.Ranges.Cover.{Spaced, IsRanges, covers}
use kassandra_service.Ranges.Simplify.{simplify-IsRanges, covers-simplify}
use kassandra_service.Ranges.Ends.{IsNoUpper, spliced, insert_ends-spliced}
use kassandra_service.Ranges.Splice.{spliced-Spaced, covers-spliced}

-- On ranges in order with a gap between any two, inserting an interval on u64 whose upper end is
-- not already the upper end of a range does not panic, leaves such ranges, and covers just the
-- heights that were covered and those of the interval.
pub insert-covers :
    (l : List ℕ) (from to : ℕ)
    → IsRanges l
    → from ≤ to
    → to < 2 ^ 64
    → IsNoUpper to l
    → (r : List ℕ) × (insert l from to ≡ ok r)
      × IsRanges r
      × ((h : ℕ) → covers r h ≡ leb from h && leb h to || covers l h)
unfolding insert
insert-covers [] from to s h k n =
    (from ∷ to ∷ [], refl, (omega arith, h, k, tt), λ x. unfold covers in refl)
insert-covers (a ∷ l) from to s h k n = (
  simplify (spliced from to (a ∷ l)),
  rw (insert_ends-spliced from to (a ∷ l) h s n),
  simplify-IsRanges _ spaced,
  λ x. covers-simplify _ x spaced ∙ covers-spliced from to 0 (a ∷ l) x h s n,
)
  where
    spaced : Spaced 0 0 (spliced from to (a ∷ l))
    spaced = spliced-Spaced from to 0 0 (a ∷ l) h k (omega arith) (omega arith) s n

-- Inserting an interval that ends where a range ends, and begins behind its first height, takes
-- from a single range every height but the first.
pub insert_upper_loses :
    (a b from : ℕ) → a < from → from ≤ b → insert (a ∷ b ∷ []) from b ≡ ok (a ∷ a ∷ [])
unfolding insert
insert_upper_loses a b from h k = ground arith

-- With a second range behind it, the same call makes a height that was never inserted count as
-- fetched: the one after the first range.
pub insert_upper_gains :
    (a b c d from : ℕ)
    → IsRanges (a ∷ b ∷ c ∷ d ∷ [])
    → a < from
    → from ≤ b
    → (covers (a ∷ b ∷ c ∷ d ∷ []) (b + 1) ≡ false)
      × ((r : List ℕ) × (insert (a ∷ b ∷ c ∷ d ∷ []) from b ≡ ok r) × (covers r (b + 1) ≡ true))
unfolding insert covers
insert_upper_gains a b c d from s h k =
    (ground arith, (simplify (a ∷ c ∷ d ∷ []), ground arith, unfold simplify in ground arith))
