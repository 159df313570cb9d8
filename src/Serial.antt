-- ===== src/Serial.antt =====
-- tdx/src/com.rs: what the serial port is sent for a buffer of bytes, and what is read from it.
pub mod Bytes
pub mod Frames
use kassandra_service.Common.{
  ℕ, ◌%◌, Bool, ◌||◌, List, [], ◌∷◌, ◌++◌, Option, none, some, ◌==◌, if◌then◌else◌,
}

-- Bytes 8 and 0x7F are sent as 8, ' ' and 8.
unfoldable pub write_byte : ℕ → List ℕ
write_byte byte = if byte == 8 || byte == 127 then 8 ∷ 32 ∷ 8 ∷ [] else byte ∷ []

unfoldable pub write_bytes : List ℕ → List ℕ
unfolding write_byte
write_bytes [] = []
write_bytes (b ∷ bs) = write_byte b ++ write_bytes bs

-- What the device shows, from one look at its registers to the next: the line status, and the byte
-- that `recv` would give.
abbrev pub Looks : Type 0
Looks = List (ℕ × ℕ)

-- `none`: no byte ever comes. The lowest bit of the status says that one is there.
unfoldable pub read_byte : Looks → Option (ℕ × Looks)
read_byte [] = none
read_byte ((line_status, byte) ∷ looks) =
    let rest = read_byte looks in if line_status % 2 == 1 then some (byte, looks) else rest
