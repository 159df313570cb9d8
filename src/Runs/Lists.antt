-- ===== src/Runs/Lists.antt =====
-- Index lists and their bytes.
use kassandra_service.Common.{
  ℕ, ◌≡◌, ◌&&◌, ◌||◌, refl, List, [], ◌∷◌, some, ltb, min, arith, inl, All,
}
use kassandra_service.Common.Bytes.{IsByte, from_le_bytes}
use kassandra_service.Index.{Index, IsIndex, as_bytes, cmp}
use kassandra_service.Index
use kassandra_service.IndexList.{IndexList, contains, combine, union}
use kassandra_service.IndexList.Members.{IsSorted, mem, IsStrict, max_height}
use kassandra_service.IndexList.Lookup.{contains-mem}
use kassandra_service.IndexList.Combine.{mem-combine, union-mem}

abbrev at_height : ℕ → Index
at_height h = record { height = h; tx = 1 }

abbrev early : IndexList
early = at_height 3 ∷ at_height 5 ∷ []

abbrev late : IndexList
late = at_height 5 ∷ at_height 9 ∷ []

early-IsSorted : IsSorted early
early-IsSorted = ((inl (omega arith), tt), (tt, tt))

contains-mem_example : contains early (at_height 5) ≡ mem (at_height 5) early
contains-mem_example = contains-mem early (at_height 5) early-IsSorted

mem-combine_example :
    mem (at_height 9) (combine early late)
    ≡ (mem (at_height 9) early && mem (at_height 9) late)
      || (ltb (min (max_height early) (max_height late)) 9
          && (mem (at_height 9) early || mem (at_height 9) late))
mem-combine_example = mem-combine early late (at_height 9) (λ e. cc) (λ e. cc)

union-mem_example :
    IsStrict (union early late)
    × ((k : Index) → mem k (union early late) ≡ mem k early || mem k late)
union-mem_example = union-mem early late

abbrev twelve : List ℕ
twelve = 44 ∷ 1 ∷ 0 ∷ 0 ∷ 0 ∷ 0 ∷ 0 ∷ 0 ∷ 1 ∷ 0 ∷ 0 ∷ 0 ∷ []

twelve-IsByte : All IsByte twelve
twelve-IsByte = (
  omega arith,
  (
    omega arith,
    (
      omega arith,
      (
        omega arith,
        (
          omega arith,
          (
            omega arith,
            (
              omega arith,
              (omega arith, (omega arith, (omega arith, (omega arith, (omega arith, tt))))),
            ),
          ),
        ),
      ),
    ),
  ),
)

twelve_read : Index.try_from_bytes twelve ≡ some (at_height 300)
unfolding Index.try_from_bytes from_le_bytes
twelve_read = refl
