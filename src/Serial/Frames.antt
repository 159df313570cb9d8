-- ===== src/Serial/Frames.antt =====
-- The framing over the serial port, as the TDX enclave reads it.
use kassandra_service.Common.{
  ℕ, ◌%◌, ◌≡◌, refl, List, [], ◌∷◌, none, some, All, ◌==◌, if◌then◌else◌, Bool-cases, inl, inr,
}
use kassandra_service.Messages.{Result}
use kassandra_service.Framing.{ByteStream, Cobs}
use kassandra_service.Framing.Decoder.{IsByteStream, IsCobs, IsInverse}
use kassandra_service.Framing.Relay.{frames, Reads, IsShort, frames-Reads}
use kassandra_service.Serial.{Looks, read_byte}

-- The bytes that arrive: those of the looks that find one.
abbrev pub arriving : Looks → List ℕ
arriving [] = []
arriving ((line_status, byte) ∷ looks) =
    let rest = arriving looks in if line_status % 2 == 1 then byte ∷ rest else rest

abbrev pub serial : ByteStream
serial = record { S = Looks; read_byte = read_byte }

pub idle_line : (looks : Looks) → arriving looks ≡ [] → read_byte looks ≡ none
unfolding read_byte
idle_line [] h = refl
idle_line ((line_status, byte) ∷ looks) h = elim (Bool-cases (line_status % 2 == 1)) [
  | inl there ↦ cc (rw there at h)
  | inr idle ↦ rw idle (idle_line looks (rw idle at h))
]

pub next_byte :
    (looks : Looks) (x : ℕ) (xs : List ℕ)
    → arriving looks ≡ x ∷ xs
    → (looks' : Looks) × (read_byte looks ≡ some (x, looks')) × (arriving looks' ≡ xs)
unfolding read_byte
next_byte [] x xs h = cc h
next_byte ((line_status, byte) ∷ looks) x xs h = elim (Bool-cases (line_status % 2 == 1)) [
  | inl there ↦ let h' = rw there at h in (looks, rw there (cc h'), cc h')
  | inr idle ↦ let (looks', r, a) = next_byte looks x xs (rw idle at h) in (looks', rw idle r, a)
]

abbrev pub serial-IsByteStream : IsByteStream serial
serial-IsByteStream = record { remaining = arriving; read-nil = idle_line; read-cons = next_byte }

-- If the bytes that arrive at the serial port, however often the enclave looks for one in vain, are
-- those that `write_frame` wrote for some messages, the enclave reads these messages in order,
-- whatever their length: the decoder gives back what was encoded, CBOR what was serialized, and no
-- frame is longer than the fuel or than what a u64 counts in buffers.
pub serial-frames-Reads :
    {D M C : Type 0}
    → (c : Cobs D) (k : IsCobs c) → IsInverse c k
    → (to_vec : M → List ℕ) (from_slice : List ℕ → Result M C)
    → ((m : M) → from_slice (to_vec m) ≡ Result.ok m)
    → (fuel : ℕ) (ms : List M) (looks : Looks) → All (IsShort serial c to_vec from_slice fuel) ms
    → arriving looks ≡ frames serial c to_vec from_slice fuel ms
    → Reads serial c to_vec from_slice fuel ms looks
serial-frames-Reads c k inv to_vec from_slice decoded fuel ms looks small arrived =
    frames-Reads serial c to_vec from_slice fuel serial-IsByteStream k inv decoded ms looks small
      arrived
