-- ===== src/Index/Codec.antt =====
-- The bytes of an index: `as_bytes` and `try_from_bytes` are inverse to one another.
use kassandra_service.Common.{ℕ, ◌≡◌, List, some, length, length-append, take, drop, All, arith}
use kassandra_service.Common.Bytes.{
  IsByte, to_le_bytes, length-to_le_bytes, from-to_le_bytes, to-from_le_bytes, from_le_bytes-lt,
}
use kassandra_service.Common.{
  take-append, drop-append, take-append-drop, length-take-drop, All-take-drop,
}
use kassandra_service.Index.{Index, IsIndex, as_bytes, try_from_bytes}

pub length-as_bytes : (ix : Index) → length (as_bytes ix) ≡ 12
unfolding as_bytes
length-as_bytes ix = omega (
  arith,
  length-append (to_le_bytes 8 ix.height) (to_le_bytes 4 ix.tx),
  length-to_le_bytes 8 ix.height,
  length-to_le_bytes 4 ix.tx,
)

-- Reading the bytes of an index of machine words gives the index back.
pub try_from-as_bytes : (ix : Index) → IsIndex ix → try_from_bytes (as_bytes ix) ≡ some ix
unfolding try_from_bytes as_bytes
try_from-as_bytes ix (h, t) = ground (
  arith,
  length-append high low,
  length-to_le_bytes 8 ix.height,
  length-to_le_bytes 4 ix.tx,
  take-append 8 high low (length-to_le_bytes 8 ix.height),
  drop-append 8 high low (length-to_le_bytes 8 ix.height),
  from-to_le_bytes 8 ix.height h,
  from-to_le_bytes 4 ix.tx t,
)
  where
    high : List ℕ
    high = to_le_bytes 8 ix.height

    low : List ℕ
    low = to_le_bytes 4 ix.tx

-- What is read from bytes as an index has those bytes, and is made of machine words.
pub as-try_from_bytes :
    (bytes : List ℕ) (ix : Index)
    → All IsByte bytes
    → try_from_bytes bytes ≡ some ix
    → (as_bytes ix ≡ bytes) × IsIndex ix
unfolding try_from_bytes as_bytes
as-try_from_bytes bytes ix h e =
    let n : length bytes ≡ 12 = ground arith in
    let (th, td) = All-take-drop IsByte 8 bytes h in
    let (lh, ld) = length-take-drop 8 bytes (omega arith) in
    ground (
      arith,
      rw lh at (from_le_bytes-lt (take 8 bytes) th),
      from_le_bytes-lt (drop 8 bytes) td,
      take-append-drop 8 bytes,
      rw lh at (to-from_le_bytes (take 8 bytes) th),
      to-from_le_bytes (drop 8 bytes) td,
    )
