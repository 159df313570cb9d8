-- ===== src/Framing/Tcp.antt =====
-- The framing over the byte stream of a TCP connection.
use kassandra_service.Common.{ℕ, ◌≡◌, refl, List, [], ◌∷◌, ◌++◌, none, some, All}
use kassandra_service.Messages.{Result}
use kassandra_service.Stream.{Tcp, read_loop, read_byte}
use kassandra_service.Stream.Order.{concat, remaining, read_loop_lem}
use kassandra_service.Framing.{ByteStream, Cobs}
use kassandra_service.Framing.Decoder.{IsByteStream, IsCobs, IsInverse}
use kassandra_service.Framing.Relay.{frames, Reads, IsShort, frames-Reads}

abbrev pub tcp : ByteStream
tcp = record { S = Tcp; read_byte = read_byte }

pub read_loop_waits :
    (raw : List (List ℕ)) (buffered : List ℕ)
    → buffered ++ concat raw ≡ []
    → read_loop raw buffered ≡ none
unfolding read_loop
read_loop_waits raw (x ∷ xs) h = cc
read_loop_waits [] [] h = refl
read_loop_waits (chunk ∷ raw) [] h = read_loop_waits raw chunk h

pub read_byte_waits : (s : Tcp) → remaining s ≡ [] → read_byte s ≡ none
unfolding read_byte
read_byte_waits s h = read_loop_waits s.raw s.buffered h

pub read_byte_lem :
    (s : Tcp) (x : ℕ) (xs : List ℕ)
    → remaining s ≡ x ∷ xs
    → (s' : Tcp) × (read_byte s ≡ some (x, s')) × (remaining s' ≡ xs)
unfolding read_byte
read_byte_lem s x xs h = read_loop_lem s.raw s.buffered x xs h

abbrev pub tcp-IsByteStream : IsByteStream tcp
tcp-IsByteStream = record {
  remaining = remaining;
  read-nil = read_byte_waits;
  read-cons = read_byte_lem;
}

-- If the bytes that arrive on a connection, however they are split into reads, are those that
-- `write_frame` wrote for some messages, `read` gives these messages in order, whatever their
-- length: the decoder gives back what was encoded, CBOR what was serialized, and no frame is
-- longer than the fuel or than what a u64 counts in buffers.
pub frames-read :
    {D M C : Type 0}
    → (c : Cobs D) (k : IsCobs c) → IsInverse c k
    → (to_vec : M → List ℕ) (from_slice : List ℕ → Result M C)
    → ((m : M) → from_slice (to_vec m) ≡ Result.ok m)
    → (fuel : ℕ) (ms : List M) (t : Tcp) → All (IsShort tcp c to_vec from_slice fuel) ms
    → remaining t ≡ frames tcp c to_vec from_slice fuel ms
    → Reads tcp c to_vec from_slice fuel ms t
frames-read c k inv to_vec from_slice decoded fuel ms t small arrived =
    frames-Reads tcp c to_vec from_slice fuel tcp-IsByteStream k inv decoded ms t small arrived
