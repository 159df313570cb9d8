-- ===== src/Framing.antt =====
-- shared/src/communication/mod.rs, `FramedBytes`: frames out of a stream of bytes, and messages out
-- of frames. The decoder of COBS and the formats of CBOR are parameters.
pub mod Decoder
pub mod Frames
pub mod Relay
pub mod Tcp
pub mod Timed
use kassandra_service.Common.{ℕ, zero, suc, ◌+◌, ◌%◌, ◌^◌, List, [], ◌∷◌, ◌++◌, Option, none, some}
use kassandra_service.Messages.{Result, MsgError}

-- `ReadWriteByte`: `read_byte` gives none where it waits for ever.
pub record ByteStream : Type 1 where
  pub S : Type 0
  pub read_byte : S → Option (ℕ × S)

-- What `CobsDecoder::feed` returns: for a complete frame, the bytes of the buffer up to its length.
pub data Fed (State D : Type 0) : Type 0 where
  more : State → Fed State D
  complete : List ℕ → Fed State D
  too_small : Fed State D
  failed : D → Fed State D

-- The crate `cobs`: a decoder over a buffer of some size, and the encoder. `push` gives none for an
-- error.
pub record Cobs (D : Type 0) : Type 1 where
  pub State : Type 0
  pub new : ℕ → State
  pub feed : State → ℕ → Fed State D
  pub push : State → List ℕ → Option State
  pub encode : List ℕ → List ℕ

-- How `get_frame` ends: with a frame, with an error of the decoder, waiting for a byte, or with the
-- panic of `expect`.
pub data Got (S D : Type 0) : Type 0 where
  frame : List ℕ → S → Got S D
  error : D → S → Got S D
  waits : Got S D
  panics : Got S D
  out_of_fuel : Got S D

-- `FRAME_BUF_SIZE`
abbrev pub frame_buf_size : ℕ
frame_buf_size = 1024

module _ (b : ByteStream) {D : Type 0} (c : Cobs D) where
  open b use {S, read_byte}
  open c use {State, new, feed, push, encode}

  -- The inner loop, with a round of fuel for each byte. It begins with what `push` made of the
  -- bytes read so far, and where the buffer is too small it goes on with a new decoder.
  unfoldable pub frame_loop : ℕ → S → ℕ → List ℕ → Option State → Got S D
  frame_loop zero s buf_size read_bytes state = out_of_fuel
  frame_loop (suc fuel) s buf_size read_bytes none = panics
  frame_loop (suc fuel) s buf_size read_bytes (some decoder) = elim (read_byte s) [
    | none ↦ waits
    | some (x, s') ↦
        let read = read_bytes ++ x ∷ [] in
        elim (feed decoder x) [
          | more decoder' ↦ frame_loop fuel s' buf_size read (some decoder')
          | complete bytes ↦ frame bytes s'
          | failed e ↦ error e s'
          | too_small ↦
              let size = (buf_size + frame_buf_size) % 2 ^ 64 in
              frame_loop fuel s' size read (push (new size) read)
        ]
  ]

  unfoldable pub get_frame : ℕ → S → Got S D
  unfolding frame_loop
  get_frame fuel s = frame_loop fuel s frame_buf_size [] (push (new frame_buf_size) [])

  -- `Frame::deserialize` behind `get_frame`, as in each `read` of a message.
  module _ {M C : Type 0} (from_slice : List ℕ → Result M C) where
    unfoldable pub deserialize : List ℕ → Result M (MsgError D C)
    deserialize bytes = elim (from_slice bytes) [
      | Result.ok m ↦ Result.ok m
      | Result.err x ↦ Result.err (MsgError.deserialize x)
    ]

    -- `none` where it waits, panics or has no fuel left.
    unfoldable pub received : Got S D → Option (Result M (MsgError D C) × S)
    unfolding deserialize
    received (frame bytes s) = some (deserialize bytes, s)
    received (error e s) = some (Result.err (MsgError.decode e), s)
    received waits = none
    received panics = none
    received out_of_fuel = none

    unfoldable pub read : ℕ → S → Option (Result M (MsgError D C) × S)
    unfolding received get_frame
    read fuel s = received (get_frame fuel s)

module _ {D : Type 0} (c : Cobs D) where
  -- `write_frame`: what is written for a message.
  unfoldable pub write_frame : {M : Type 0} → (M → List ℕ) → M → List ℕ
  write_frame to_vec msg = c.encode (to_vec msg) ++ 0 ∷ []
