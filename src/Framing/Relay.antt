-- ===== src/Framing/Relay.antt =====
-- The messages that one side writes are those that the other reads, in order.
use kassandra_service.Common.{
  ℕ, ◌+◌, ◌*◌, ◌^◌, ◌<◌, ◌≡◌, refl, ◌∙◌, List, [], ◌∷◌, ◌++◌, some, length, All,
}
use mathlib.Core.List.{append_assoc}
use kassandra_service.Messages.{Result}
use kassandra_service.Framing.{
  ByteStream, Cobs, frame_buf_size, received, deserialize, read, write_frame,
}
use kassandra_service.Framing.Decoder.{IsByteStream, IsCobs, IsInverse}
use kassandra_service.Framing.Frames.{get_frame_lem}

module _ (b : ByteStream) {D M C : Type 0} (c : Cobs D) (to_vec : M → List ℕ)
    (from_slice : List ℕ → Result M C) (fuel : ℕ) where
  -- The bytes of some messages, one frame after another.
  abbrev pub frames : List M → List ℕ
  frames [] = []
  frames (m ∷ ms) = write_frame c to_vec m ++ frames ms

  -- The calls of `read` from here on give these messages.
  abbrev pub Reads : List M → b.S → Type 0
  Reads [] s = Unit {0}
  Reads (m ∷ ms) s =
      (s' : b.S) × (read b c from_slice fuel s ≡ some (Result.ok m, s')) × Reads ms s'

  -- The frame of a message fits into the memory that a u64 measures, and into the fuel.
  abbrev pub IsShort : M → Type 0
  IsShort m =
      ((length (c.encode (to_vec m)) + 2) * frame_buf_size < 2 ^ 64)
      × (length (c.encode (to_vec m)) < fuel)

  pub read_lem :
      (r : IsByteStream b) (k : IsCobs c)
      → IsInverse c k
      → ((m : M) → from_slice (to_vec m) ≡ Result.ok m)
      → (m : M) (rest : List ℕ) (s : b.S) → IsShort m
      → r.remaining s ≡ write_frame c to_vec m ++ rest
      → (s' : b.S) × (read b c from_slice fuel s ≡ some (Result.ok m, s')) × (r.remaining s' ≡ rest)
  unfolding write_frame read
  read_lem r k inv decoded m rest s small rem =
      let text = to_vec m in
      let (s', g, left) =
        get_frame_lem b c r k (c.encode text) rest 0 fuel s text (inv.encode-partial text)
          (inv.encode-whole text) (rem ∙ append_assoc (c.encode text) (0 ∷ []) rest) small.0
          small.1 in
      (s', rw (read, g, received, deserialize, decoded m) refl, left)

  pub frames-Reads :
      (r : IsByteStream b) (k : IsCobs c)
      → IsInverse c k
      → ((m : M) → from_slice (to_vec m) ≡ Result.ok m)
      → (ms : List M) (s : b.S) → All IsShort ms
      → r.remaining s ≡ frames ms
      → Reads ms s
  frames-Reads r k inv decoded [] s small rem = tt
  frames-Reads r k inv decoded (m ∷ ms) s small rem =
      let (s', e, left) = read_lem r k inv decoded m (frames ms) s small.0 rem in
      (s', e, frames-Reads r k inv decoded ms s' small.1 left)
