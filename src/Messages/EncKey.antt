-- ===== src/Messages/EncKey.antt =====
-- shared/src/db.rs: how an `EncKey` is handed to a format, and taken from one.
use kassandra_service.Common.{
  ℕ, ◌≡◌, ◌↔◌, refl, List, Option, none, some, length, ◌==◌, ==_iff, if◌then◌else◌, Bool-cases, inl,
  inr,
}

-- What a format hands to a visitor: bytes, or one number after another.
pub data Visit : Type 0 where
  bytes : List ℕ → Visit
  seq : List ℕ → Visit

-- `serialize_bytes` of the key.
unfoldable pub serialize : List ℕ → List ℕ
serialize key = key

-- `EncKeyVisitor` has `visit_bytes`, of 32 bytes; for a sequence it has the default, an error.
unfoldable pub visit : Visit → Option (List ℕ)
visit (bytes v) = if length v == 32 then some v else none
visit (seq v) = none

-- Through a format that hands out bytes, a key is read back just where it has 32 bytes; through one
-- that hands out a sequence, none is.
pub visit-serialize :
    (key : List ℕ)
    → ((visit (bytes (serialize key)) ≡ some key) ↔ (length key ≡ 32))
      × (visit (seq (serialize key)) ≡ none)
unfolding visit serialize
visit-serialize key = (
  elim (Bool-cases (length key == 32)) [
    | inl p ↦ (λ r. (==_iff (length key) 32).0 p, λ n. rw p refl)
    | inr p ↦ (λ r. cc (rw p at r), λ n. cc (rw ((==_iff (length key) 32).1 n) at p))
  ],
  refl,
)
