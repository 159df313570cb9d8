-- ===== src/Framing/Decoder.antt =====
-- What the framing relies on of the decoder and of the stream.
use kassandra_service.Common.{ℕ, ◌+◌, ◌≤◌, ◌<◌, ◌≡◌, List, [], ◌∷◌, ◌++◌, none, some}
use kassandra_service.Framing.{ByteStream, Cobs, Fed}

-- A stream gives the bytes that remain, in order, and waits behind the last.
pub record IsByteStream (b : ByteStream) : Type 0 where
  pub remaining : b.S → List ℕ
  pub read-nil : (s : b.S) → remaining s ≡ [] → b.read_byte s ≡ none
  pub read-cons :
      (s : b.S) (x : ℕ) (xs : List ℕ)
      → remaining s ≡ x ∷ xs
      → (s' : b.S) × (b.read_byte s ≡ some (x, s')) × (remaining s' ≡ xs)

-- What a decoder with room for anything has made of some bytes.
pub data Decoded (D : Type 0) : Type 0 where
  partial : Decoded D
  whole : List ℕ → Decoded D
  wrong : D → Decoded D

-- Each byte writes one byte at most, the byte that ends a frame none. With a buffer that has
-- room for what is written, a decoder does what one with room for anything does.
pub record IsCobs {D : Type 0} (c : Cobs D) : Type 1 where
  pub after : List ℕ → Decoded D
  pub written : List ℕ → ℕ
  pub written-nil : written [] ≡ 0
  pub written-step : (bs : List ℕ) (x : ℕ) → written (bs ++ x ∷ []) ≤ written bs + 1
  -- The decoder over a buffer of this size that was fed these bytes.
  pub Holds : ℕ → List ℕ → c.State → Type 0
  pub new-Holds : (size : ℕ) → Holds size [] (c.new size)
  pub Holds-written : (size : ℕ) (bs : List ℕ) (s : c.State) → Holds size bs s → written bs ≤ size
  pub feed-partial :
      (size : ℕ) (bs : List ℕ) (x : ℕ) (s : c.State)
      → Holds size bs s
      → after (bs ++ x ∷ []) ≡ partial
      → written (bs ++ x ∷ []) ≤ size
      → (s' : c.State) × (c.feed s x ≡ Fed.more s') × Holds size (bs ++ x ∷ []) s'
  pub feed-full :
      (size : ℕ) (bs : List ℕ) (x : ℕ) (s : c.State)
      → Holds size bs s
      → after (bs ++ x ∷ []) ≡ partial
      → size < written (bs ++ x ∷ [])
      → c.feed s x ≡ Fed.too_small
  pub feed-whole :
      (size : ℕ) (bs : List ℕ) (x : ℕ) (s : c.State) (f : List ℕ)
      → Holds size bs s
      → after (bs ++ x ∷ []) ≡ whole f
      → c.feed s x ≡ Fed.complete f
  pub feed-wrong :
      (size : ℕ) (bs : List ℕ) (x : ℕ) (s : c.State) (e : D)
      → Holds size bs s
      → after (bs ++ x ∷ []) ≡ wrong e
      → c.feed s x ≡ Fed.failed e
  -- Bytes that end no frame are pushed as if fed one by one.
  pub push-Holds :
      (size : ℕ) (bs : List ℕ)
      → ((p q : List ℕ) → bs ≡ p ++ q → after p ≡ partial)
      → written bs ≤ size
      → (s : c.State) × (c.push (c.new size) bs ≡ some s) × Holds size bs s

-- The decoder gives back what the encoder encoded, at the sentinel and not before it.
pub record IsInverse {D : Type 0} (c : Cobs D) (k : IsCobs c) : Type 0 where
  pub encode-partial : (text p q : List ℕ) → c.encode text ≡ p ++ q → k.after p ≡ partial
  pub encode-whole : (text : List ℕ) → k.after (c.encode text ++ 0 ∷ []) ≡ whole text
