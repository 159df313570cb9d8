-- ===== src/Runs/Ranges.antt =====
-- The runs of the test in host/src/db/utils.rs, and the ranges at concrete heights.
use kassandra_service.Common.{ℕ, ◌≡◌, ◌&&◌, ◌||◌, refl, List, [], ◌∷◌, ok, leb, arith}
use kassandra_service.Ranges.{insert, blocks_left_to_fetch}
use kassandra_service.Ranges.Cover.{IsRanges, covers}
use kassandra_service.Ranges.Insert.{insert-covers, insert_upper_loses}

insert_inside : insert (5 ∷ 7 ∷ 10 ∷ 12 ∷ 16 ∷ 18 ∷ []) 9 14 ≡ ok (5 ∷ 7 ∷ 9 ∷ 14 ∷ 16 ∷ 18 ∷ [])
unfolding insert
insert_inside = refl

insert_joins : insert (5 ∷ 7 ∷ 9 ∷ 14 ∷ 16 ∷ 18 ∷ []) 8 15 ≡ ok (5 ∷ 18 ∷ [])
unfolding insert
insert_joins = refl

insert_across : insert (5 ∷ 6 ∷ 10 ∷ 12 ∷ 16 ∷ 18 ∷ []) 6 16 ≡ ok (5 ∷ 18 ∷ [])
unfolding insert
insert_across = refl

left_between :
    blocks_left_to_fetch (5 ∷ 7 ∷ 10 ∷ 12 ∷ []) 3 14 ≡ ok ((3, 4) ∷ (8, 9) ∷ (13, 14) ∷ [])
unfolding blocks_left_to_fetch
left_between = refl

abbrev two : List ℕ
two = 5 ∷ 7 ∷ 10 ∷ 12 ∷ []

two-IsRanges : IsRanges two
two-IsRanges = (omega arith, omega arith, omega arith, (omega arith, omega arith, omega arith, tt))

insert-covers_example :
    (r : List ℕ) × (insert two 9 14 ≡ ok r)
    × IsRanges r
    × ((h : ℕ) → covers r h ≡ leb 9 h && leb h 14 || covers two h)
insert-covers_example =
    insert-covers two 9 14 two-IsRanges (omega arith) (omega arith)
      (λ e. omega arith, (λ e. omega arith, tt))

insert_upper_loses_example : insert (5 ∷ 7 ∷ []) 6 7 ≡ ok (5 ∷ 5 ∷ [])
insert_upper_loses_example = insert_upper_loses 5 7 6 (omega arith) (omega arith)
