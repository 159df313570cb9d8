-- ===== src/Index.antt =====
-- shared/src/db.rs, `Index`: where a transaction stands on chain, its order and its bytes.
pub mod Codec
use kassandra_service.Common.{
  ℕ, ◌+◌, ◌^◌, ◌<◌, Bool, true, false, not, List, ◌++◌, Option, none, some, ◌==◌, if◌then◌else◌,
  length, take, drop, compare, Ordering,
}
use kassandra_service.Common.Bytes.{to_le_bytes, from_le_bytes}

pub record Index : Type 0 where
  pub height : ℕ
  pub tx : ℕ

-- The ranges of the machine words, `u64` and `u32`.
abbrev pub IsIndex : Index → Type 0
IsIndex ix = (ix.height < 2 ^ 64) × (ix.tx < 2 ^ 32)

-- The derived order: by height, then by transaction.
abbrev pub cmp : Index → Index → Ordering
cmp a b = elim (compare a.height b.height) [
  | Ordering.lt ↦ Ordering.lt
  | Ordering.eq ↦ compare a.tx b.tx
  | Ordering.gt ↦ Ordering.gt
]

-- The loop copies the 8 bytes of `height`, then the 4 of `tx`.
unfoldable pub as_bytes : Index → List ℕ
as_bytes self = to_le_bytes 8 self.height ++ to_le_bytes 4 self.tx

unfoldable pub try_from_bytes : List ℕ → Option Index
try_from_bytes bytes =
    if not (length bytes == 12)
    then none
    else some (record { height = from_le_bytes (take 8 bytes); tx = from_le_bytes (drop 8 bytes) })
