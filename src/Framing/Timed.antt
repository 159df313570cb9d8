-- ===== src/Framing/Timed.antt =====
-- host/src/com.rs, `IncomingTcp`: the reading of a message within a time, and a client that falls
-- silent.
use kassandra_service.Common.{
  ℕ, zero, suc, ◌+◌, ◌*◌, ◌^◌, ◌<◌, ◌≡◌, inl, inr, refl, sym, ◌∙◌, Bool, true, false, List, [], ◌∷◌,
  ◌++◌, Option, none, some, length, arith,
}
use mathlib.Core.List.{append_assoc}
use kassandra_service.Messages.{Result}
use kassandra_service.Stream.{Tcp}
use kassandra_service.Stream.Order.{remaining}
use kassandra_service.Framing.{
  ByteStream, Cobs, Got, frame_buf_size, frame_loop, get_frame, received, read,
}
use kassandra_service.Framing.Decoder.{IsByteStream, IsCobs, partial}
use kassandra_service.Framing.Frames.{IsPartial, fits, step_more, step_full, start}
use kassandra_service.Framing.Tcp.{tcp, tcp-IsByteStream}

pub data Timed (A : Type 0) : Type 0 where
  value : A → Timed A
  timed_out blocks : Timed A

-- `timed_read`: `select!` polls the sleep and the read in an order that it draws, and the read does
-- not return from its first poll before it has its value. `elapsed` is what the sleep says when
-- it is polled; with no value the read never returns.
unfoldable pub timed_read : {A : Type 0} → Bool → Bool → Option A → Timed A
timed_read true true val = timed_out
timed_read true false (some val) = value val
timed_read true false none = blocks
timed_read false elapsed (some val) = value val
timed_read false elapsed none = blocks

none_blocks :
    {A : Type 0} (sleep_first : Bool) {val : Option A}
    → val ≡ none
    → timed_read sleep_first false val ≡ Timed.blocks
unfolding timed_read
none_blocks true e = rw e refl
none_blocks false e = rw e refl

module _ (b : ByteStream) {D : Type 0} (c : Cobs D) (r : IsByteStream b) (k : IsCobs c) where
  loop_waits :
      (q p : List ℕ) (fuel size : ℕ) (s : b.S) (d : c.State)
      → IsPartial b c r k (p ++ q)
      → k.Holds size p d
      → r.remaining s ≡ q
      → size + (length q + 1) * frame_buf_size < 2 ^ 64
      → length q < fuel
      → frame_loop b c fuel s size p (some d) ≡ Got.waits
  unfolding frame_loop
  loop_waits q p zero size s d part holds rem small h = absurd (omega arith)
  loop_waits [] p (suc fuel) size s d part holds rem small h =
      rw (frame_loop, r.read-nil s rem) refl
  loop_waits (y ∷ q) p (suc fuel) size s d part holds rem small h =
      let (s', e, m) = r.read-cons s y q rem in
      let joined : p ++ y ∷ q ≡ (p ++ y ∷ []) ++ q = sym (append_assoc p (y ∷ []) q) in
      let more : k.after (p ++ y ∷ []) ≡ partial = part (p ++ y ∷ []) q joined in
      let part' : IsPartial b c r k ((p ++ y ∷ []) ++ q) = rw joined at part in
      elim (fits (k.written (p ++ y ∷ [])) size) [
        | inl room ↦
            let (d', fed, holds') = k.feed-partial size p y d holds more room in
            step_more b c r k fuel size s s' p y d d' e fed
            ∙ loop_waits q (p ++ y ∷ []) fuel size s' d' part' holds' m (omega arith) (omega arith)
        | inr full ↦
            let fed = k.feed-full size p y d holds more full in
            let (d', pushed, holds') =
              k.push-Holds (size + frame_buf_size) (p ++ y ∷ [])
                (λ a z eq. part a (z ++ q) (joined ∙ rw eq (append_assoc a z q)))
                (omega (arith, k.written-step p y, k.Holds-written size p d holds)) in
            step_full b c r k fuel size s s' p y d d' e fed (omega arith) pushed
            ∙ loop_waits q (p ++ y ∷ []) fuel (size + frame_buf_size) s' d' part' holds' m
                (omega arith) (omega arith)
      ]

-- If all that a client ever sends ends no frame, be it nothing at all or a frame cut short, then
-- `get_frame` waits for ever, and `timed_read` blocks the host for good, unless its time is over
-- at its very first poll: the timeout does not end a read that has begun. The bytes are fewer than
-- the fuel and than what a u64 counts in buffers.
pub silence_blocks :
    {D M C : Type 0}
    → (c : Cobs D) (k : IsCobs c) (from_slice : List ℕ → Result M C) (fuel : ℕ) (t : Tcp)
    → IsPartial tcp c tcp-IsByteStream k (remaining t)
    → (length (remaining t) + 2) * frame_buf_size < 2 ^ 64
    → length (remaining t) < fuel
    → (get_frame tcp c fuel t ≡ Got.waits)
      × ((sleep_first : Bool)
          → timed_read sleep_first false (read tcp c from_slice fuel t) ≡ Timed.blocks)
unfolding read timed_read
silence_blocks c k from_slice fuel t part small h =
    let (d, e, holds) = start tcp c tcp-IsByteStream k fuel t (part [] (remaining t) refl) in
    let waits =
      e
      ∙ loop_waits tcp c tcp-IsByteStream k (remaining t) [] fuel frame_buf_size t d part holds refl
          (omega arith) h in
    (waits, λ sleep_first. none_blocks sleep_first (rw (read, waits, received) refl))
