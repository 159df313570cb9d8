-- ===== src/Stream.antt =====
-- shared/src/communication/tcp.rs and host/src/com.rs: bytes from a TCP stream, one at a time.
pub mod Order
use kassandra_service.Common.{ℕ, zero, suc, List, [], ◌∷◌, ◌++◌, Option, none, some, take, drop}

-- `raw` is what the reads of the socket return from now on, each at most 10 bytes, as many as the
-- buffer has. Where it ends nothing more arrives.
pub record Tcp : Type 0 where
  pub raw : List (List ℕ)
  pub buffered : List ℕ

-- `buffered_read` until the buffer is not empty, then `remove(0)`. `none`: it waits for ever.
unfoldable pub read_loop : List (List ℕ) → List ℕ → Option (ℕ × Tcp)
read_loop raw (b ∷ bs) = some (b, record { raw = raw; buffered = bs })
read_loop [] [] = none
read_loop (chunk ∷ raw) [] = read_loop raw chunk

unfoldable pub read_byte : Tcp → Option (ℕ × Tcp)
unfolding read_loop
read_byte self = read_loop self.raw self.buffered

-- Some calls of `read_byte`.
unfoldable pub read_bytes : ℕ → Tcp → Option (List ℕ × Tcp)
unfolding read_byte
read_bytes zero self = some ([], self)
read_bytes (suc n) self = elim (read_byte self) [
  | none ↦ none
  | some (b, self') ↦ elim (read_bytes n self') [
    | none ↦ none
    | some (bs, last) ↦ some (b ∷ bs, last)
  ]
]
