-- ===== src/Serial/Bytes.antt =====
-- Which buffers the serial port is sent as they are.
use kassandra_service.Common.{
  ℕ, ◌≤◌, ◌≡◌, ◌≢◌, ◌↔◌, refl, ap, List, [], ◌∷◌, All, length, arith, Bool-cases, inl, inr, ◌||◌,
  ◌==◌,
}
use mathlib.Core.List.{tail-eq_of_cons-eq}
use kassandra_service.Serial.{write_bytes}

-- Neither a backspace nor a delete.
abbrev pub IsPlain : ℕ → Type 0
IsPlain b = (b ≢ 8) × (b ≢ 127)

longer : (bs : List ℕ) → length bs ≤ length (write_bytes bs)
unfolding write_bytes
longer [] = omega arith
longer (b ∷ bs) = elim (Bool-cases (b == 8 || b == 127)) [
  | inl erases ↦ rw erases (omega (arith, longer bs))
  | inr plain ↦ rw plain (omega (arith, longer bs))
]

unchanged_bytes : (bs : List ℕ) → write_bytes bs ≡ bs → All IsPlain bs
unfolding write_bytes
unchanged_bytes [] h = tt
unchanged_bytes (b ∷ bs) h = elim (Bool-cases (b == 8 || b == 127)) [
  | inl erases ↦ absurd (omega (arith, rw erases at (ap length h), longer bs))
  | inr plain ↦
      let same = tail-eq_of_cons-eq (rw plain at h) in (ground arith, unchanged_bytes bs same)
]

same_bytes : (bs : List ℕ) → All IsPlain bs → write_bytes bs ≡ bs
unfolding write_bytes
same_bytes [] h = refl
same_bytes (b ∷ bs) h = ground (arith, same_bytes bs h.1)

-- The serial port is sent a buffer as it is just where it holds neither byte 8 nor byte 127.
pub write_bytes_iff : (bs : List ℕ) → (write_bytes bs ≡ bs) ↔ All IsPlain bs
write_bytes_iff bs = (unchanged_bytes bs, same_bytes bs)
