-- ===== src/Messages/Ciphertext.antt =====
-- shared/src/ratls.rs: how a `TlsCiphertext` is handed to a format, and taken from one.
use kassandra_service.Common.{
  ℕ, ◌≡◌, ◌≢◌, ◌⊎◌, refl, List, Outcome, ok, panic, length, ◌==◌, ==_iff, if◌then◌else◌, Bool-cases,
  inl, inr,
}
use kassandra_service.Messages.{Result, TlsCiphertext}

pub record SimplifiedCiphertext : Type 0 where
  pub payload : List ℕ
  pub nonce : List ℕ

unfoldable pub serialize : TlsCiphertext → SimplifiedCiphertext
serialize self = record { payload = self.payload; nonce = self.nonce }

-- From what the derived code reads. `Nonce::from_slice` panics for a nonce that is not of 12 bytes.
unfoldable pub deserialize :
    {E : Type 0} → Result SimplifiedCiphertext E → Outcome (Result TlsCiphertext E)
deserialize (Result.err x) = ok (Result.err x)
deserialize (Result.ok simplified) =
    if length simplified.nonce == 12
    then ok (Result.ok (record { payload = simplified.payload; nonce = simplified.nonce }))
    else panic

-- What was read is a ciphertext that is written just so where its nonce has 12 bytes; where it has
-- not, its reader panics.
pub deserialize_cases :
    {E : Type 0} (s : SimplifiedCiphertext)
    → ((length s.nonce ≡ 12)
        × (c : TlsCiphertext) × (deserialize {E = E} (Result.ok s) ≡ ok (Result.ok c))
        × (serialize c ≡ s))
      ⊎ ((length s.nonce ≢ 12) × (deserialize {E = E} (Result.ok s) ≡ panic))
unfolding deserialize serialize
deserialize_cases s = elim (Bool-cases (length s.nonce == 12)) [
  | inl p ↦ inl (
    (==_iff (length s.nonce) 12).0 p,
    record { payload = s.payload; nonce = s.nonce },
    rw p refl,
    refl,
  )
  | inr p ↦ inr (λ n. cc (rw ((==_iff (length s.nonce) 12).1 n) at p), rw p refl)
]
