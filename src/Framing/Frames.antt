-- ===== src/Framing/Frames.antt =====
-- `get_frame` reads one frame, whatever its length, and no byte behind it.
use kassandra_service.Common.{
  ℕ, zero, suc, ◌+◌, ◌*◌, ◌%◌, ◌^◌, ◌≤◌, ◌<◌, ◌≡◌, ◌⊎◌, inl, inr, refl, sym, ◌∙◌, List, [], ◌∷◌,
  ◌++◌, some, length, arith,
}
use mathlib.Core.List.{append_assoc, append-nil}
use kassandra_service.Framing.{ByteStream, Cobs, Fed, Got, frame_buf_size, frame_loop, get_frame}
use kassandra_service.Framing.Decoder.{IsByteStream, IsCobs, Decoded, partial, whole, wrong}

pub fits : (a b : ℕ) → (a ≤ b) ⊎ (b < a)
fits a b = ground arith

prefix_of_nil : (a z : List ℕ) → [] ≡ a ++ z → a ≡ []
prefix_of_nil [] z e = refl
prefix_of_nil (x ∷ a) z e = cc

module _ (b : ByteStream) {D : Type 0} (c : Cobs D) (r : IsByteStream b) (k : IsCobs c) where
  -- No prefix ends a frame.
  abbrev pub IsPartial : List ℕ → Type 0
  IsPartial bs = (p q : List ℕ) → bs ≡ p ++ q → k.after p ≡ partial

  -- What the decoder makes of a frame's last byte.
  abbrev Ended : Decoded D → b.S → Got b.S D → Type 0
  Ended partial s g = ⊥
  Ended (whole f) s g = g ≡ Got.frame f s
  Ended (wrong e) s g = g ≡ Got.error e s

  pub step_more :
      (fuel size : ℕ) (s s' : b.S) (p : List ℕ) (y : ℕ) (d d' : c.State)
      → b.read_byte s ≡ some (y, s')
      → c.feed d y ≡ Fed.more d'
      → frame_loop b c (suc fuel) s size p (some d)
        ≡ frame_loop b c fuel s' size (p ++ y ∷ []) (some d')
  unfolding frame_loop
  step_more fuel size s s' p y d d' e fed = rw (frame_loop, e, fed) refl

  pub step_full :
      (fuel size : ℕ) (s s' : b.S) (p : List ℕ) (y : ℕ) (d d' : c.State)
      → b.read_byte s ≡ some (y, s')
      → c.feed d y ≡ Fed.too_small
      → size + frame_buf_size < 2 ^ 64
      → c.push (c.new (size + frame_buf_size)) (p ++ y ∷ []) ≡ some d'
      → frame_loop b c (suc fuel) s size p (some d)
        ≡ frame_loop b c fuel s' (size + frame_buf_size) (p ++ y ∷ []) (some d')
  unfolding frame_loop
  step_full fuel size s s' p y d d' e fed small pushed =
      let bigger : (size + frame_buf_size) % 2 ^ 64 ≡ size + frame_buf_size = omega arith in
      rw (frame_loop, e, fed, bigger, pushed) refl

  loop_lem :
      (q p : List ℕ) (x : ℕ) (rest : List ℕ) (fuel size : ℕ) (s : b.S) (d : c.State) (o : Decoded D)
      → IsPartial (p ++ q)
      → k.Holds size p d
      → k.after ((p ++ q) ++ x ∷ []) ≡ o
      → (o ≡ partial → ⊥)
      → r.remaining s ≡ q ++ x ∷ rest
      → size + (length q + 1) * frame_buf_size < 2 ^ 64
      → length q < fuel
      → (s' : b.S) × Ended o s' (frame_loop b c fuel s size p (some d)) × (r.remaining s' ≡ rest)
  unfolding frame_loop
  loop_lem q p x rest zero size s d o part holds last ended rem small h = absurd (omega arith)
  loop_lem [] p x rest (suc fuel) size s d partial part holds last ended rem small h =
      absurd (ended refl)
  loop_lem [] p x rest (suc fuel) size s d (whole f) part holds last ended rem small h =
      let (s', e, m) = r.read-cons s x rest rem in
      let fed = k.feed-whole size p x d f holds (rw (append-nil p) at last) in
      (s', rw (frame_loop, e, fed) refl, m)
  loop_lem [] p x rest (suc fuel) size s d (wrong w) part holds last ended rem small h =
      let (s', e, m) = r.read-cons s x rest rem in
      let fed = k.feed-wrong size p x d w holds (rw (append-nil p) at last) in
      (s', rw (frame_loop, e, fed) refl, m)
  loop_lem (y ∷ q) p x rest (suc fuel) size s d o part holds last ended rem small h =
      let (s', e, m) = r.read-cons s y (q ++ x ∷ rest) rem in
      let joined : p ++ y ∷ q ≡ (p ++ y ∷ []) ++ q = sym (append_assoc p (y ∷ []) q) in
      let more : k.after (p ++ y ∷ []) ≡ partial = part (p ++ y ∷ []) q joined in
      let part' : IsPartial ((p ++ y ∷ []) ++ q) = rw joined at part in
      let last' = rw joined at last in
      elim (fits (k.written (p ++ y ∷ [])) size) [
        | inl room ↦
            let (d', fed, holds') = k.feed-partial size p y d holds more room in
            let (s'', g, m') =
              loop_lem q (p ++ y ∷ []) x rest fuel size s' d' o part' holds' last' ended m
                (omega arith) (omega arith) in
            (s'', rw (step_more fuel size s s' p y d d' e fed) g, m')
        | inr full ↦
            let fed = k.feed-full size p y d holds more full in
            let (d', pushed, holds') =
              k.push-Holds (size + frame_buf_size) (p ++ y ∷ [])
                (λ a z eq. part a (z ++ q) (joined ∙ rw eq (append_assoc a z q)))
                (omega (arith, k.written-step p y, k.Holds-written size p d holds)) in
            let (s'', g, m') =
              loop_lem q (p ++ y ∷ []) x rest fuel (size + frame_buf_size) s' d' o part' holds'
                last' ended m (omega arith) (omega arith) in
            (s'', rw (step_full fuel size s s' p y d d' e fed (omega arith) pushed) g, m')
      ]

  pub start :
      (fuel : ℕ) (s : b.S)
      → k.after [] ≡ partial
      → (d : c.State) × (get_frame b c fuel s ≡ frame_loop b c fuel s frame_buf_size [] (some d))
        × k.Holds frame_buf_size [] d
  unfolding get_frame
  start fuel s empty =
      let (d, pushed, holds) =
        k.push-Holds frame_buf_size [] (λ a z eq. rw (prefix_of_nil a z eq) empty)
          (omega (arith, k.written-nil)) in
      (d, rw (get_frame, pushed) refl, holds)

  -- Where the bytes to come are those of a frame and its last byte, shorter than the fuel and than
  -- what a u64 counts in buffers, `get_frame` gives what the decoder makes of them, and what comes
  -- behind the frame is left to read: whenever the buffer is too small, it grows until it is not.
  pub get_frame_lem :
      (bs rest : List ℕ) (x fuel : ℕ) (s : b.S) (f : List ℕ)
      → IsPartial bs
      → k.after (bs ++ x ∷ []) ≡ whole f
      → r.remaining s ≡ bs ++ x ∷ rest
      → (length bs + 2) * frame_buf_size < 2 ^ 64
      → length bs < fuel
      → (s' : b.S) × (get_frame b c fuel s ≡ Got.frame f s') × (r.remaining s' ≡ rest)
  get_frame_lem bs rest x fuel s f part last rem small h =
      let (d, e, holds) = start fuel s (part [] bs refl) in
      let (s', g, m) =
        loop_lem bs [] x rest fuel frame_buf_size s d (whole f) part holds last (λ q. cc) rem
          (omega arith) h in
      (s', e ∙ g, m)
