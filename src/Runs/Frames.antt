-- ===== src/Runs/Frames.antt =====
-- A decoder in place of that of COBS: each byte of a frame is one above the byte that it stands for,
-- and 0 ends the frame.
use kassandra_service.Common.{
  ℕ, zero, suc, ◌+◌, ◌≤◌, ◌<◌, ◌≡◌, refl, sym, ap, List, [], ◌∷◌, ◌++◌, map, Option, none, some,
  length, length-append, arith, Bool, true, false, ltb, if◌then◌else◌,
}
use mathlib.Core.List.{append_assoc, append-nil, head-eq_of_cons-eq, tail-eq_of_cons-eq}
use kassandra_service.Messages.{Result}
use kassandra_service.Stream.{Tcp}
use kassandra_service.Framing.{Cobs, Fed, write_frame}
use kassandra_service.Framing.Decoder.{IsCobs, IsInverse, Decoded, partial, whole, wrong}
use kassandra_service.Framing.Relay.{Reads}
use kassandra_service.Framing.{get_frame, read, Got}
use kassandra_service.Framing.Timed.{Timed, timed_read, silence_blocks}
use kassandra_service.Framing.Tcp.{tcp, frames-read}

pub record Buffer : Type 0 where
  pub size : ℕ
  pub out : List ℕ

abbrev feed : Buffer → ℕ → Fed Buffer (Unit {0})
feed s zero = Fed.complete s.out
feed s (suc x) =
    if ltb (length s.out) s.size
    then Fed.more (record s { out = s.out ++ x ∷ [] })
    else Fed.too_small

abbrev fed_on : Fed Buffer (Unit {0}) → (Buffer → Option Buffer) → Option Buffer
fed_on (Fed.more s) f = f s
fed_on (Fed.complete bytes) f = none
fed_on Fed.too_small f = none
fed_on (Fed.failed e) f = none

abbrev push : Buffer → List ℕ → Option Buffer
push s [] = some s
push s (x ∷ xs) = fed_on (feed s x) (λ s'. push s' xs)

abbrev pub shifted : Cobs (Unit {0})
shifted = record {
  State = Buffer;
  new = λ size. record { size = size; out = [] };
  feed = feed;
  push = push;
  encode = λ text. map suc text;
}

abbrev prepend : ℕ → Decoded (Unit {0}) → Decoded (Unit {0})
prepend x partial = partial
prepend x (whole f) = whole (x ∷ f)
prepend x (wrong e) = wrong e

abbrev after : List ℕ → Decoded (Unit {0})
after [] = partial
after (zero ∷ []) = whole []
after (zero ∷ y ∷ r) = wrong tt
after (suc x ∷ r) = prepend x (after r)

after-suc : (text : List ℕ) → after (map suc text) ≡ partial
after-suc [] = refl
after-suc (x ∷ text) = rw (after-suc text) refl

after-end : (text : List ℕ) → after (map suc text ++ 0 ∷ []) ≡ whole text
after-end [] = refl
after-end (x ∷ text) = rw (after-end text) refl

-- Bytes that end no frame stand for others.
partial_text : (bs : List ℕ) → after bs ≡ partial → (text : List ℕ) × (bs ≡ map suc text)
partial_text [] h = ([], refl)
partial_text (zero ∷ []) h = cc
partial_text (zero ∷ y ∷ r) h = cc
partial_text (suc x ∷ r) h =
    let (text, e) = partial_text r (prepend_partial x (after r) h) in (x ∷ text, ap (◌∷◌ (suc x)) e)
  where
    prepend_partial : (x : ℕ) (o : Decoded (Unit {0})) → prepend x o ≡ partial → o ≡ partial
    prepend_partial x partial h = refl
    prepend_partial x (whole f) h = cc
    prepend_partial x (wrong e) h = cc

map-snoc : (text : List ℕ) (x : ℕ) → map suc (text ++ x ∷ []) ≡ map suc text ++ suc x ∷ []
map-snoc [] x = refl
map-snoc (y ∷ text) x = ap (◌∷◌ (suc y)) (map-snoc text x)

length-map-suc : (text : List ℕ) → length (map suc text) ≡ length text
length-map-suc [] = refl
length-map-suc (y ∷ text) = omega (arith, length-map-suc text)

abbrev Holds : ℕ → List ℕ → Buffer → Type 0
Holds size bs s = (bs ≡ map suc s.out) × (s.size ≡ size) × (length s.out ≤ size)

push_lem :
    (text out : List ℕ) (size : ℕ)
    → length out + length text ≤ size
    → push (record { size = size; out = out }) (map suc text)
      ≡ some (record { size = size; out = out ++ text })
push_lem [] out size h = rw (append-nil out) refl
push_lem (x ∷ text) out size h =
    let room : ltb (length out) size ≡ true = ground arith in
    rw (room, sym (append_assoc out (x ∷ []) text))
      (push_lem text (out ++ x ∷ []) size (omega (arith, length-append out (x ∷ []))))

written_step : (bs : List ℕ) (x : ℕ) → length (bs ++ x ∷ []) ≤ length bs + 1
written_step bs x = omega (arith, length-append bs (x ∷ []))

fits_in : (size : ℕ) (bs : List ℕ) (s : Buffer) → Holds size bs s → length bs ≤ size
fits_in size bs s (e, z, n) = omega (arith, ap length e, length-map-suc s.out)

length_fed :
    (bs : List ℕ) (x : ℕ) (s : Buffer)
    → bs ≡ map suc s.out
    → length (bs ++ x ∷ []) ≡ length s.out + 1
length_fed bs x s e = omega (arith, length-append bs (x ∷ []), ap length e, length-map-suc s.out)

feed_partial :
    (size : ℕ) (bs : List ℕ) (x : ℕ) (s : Buffer)
    → Holds size bs s
    → after (bs ++ x ∷ []) ≡ partial
    → length (bs ++ x ∷ []) ≤ size
    → (s' : Buffer) × (feed s x ≡ Fed.more s') × Holds size (bs ++ x ∷ []) s'
feed_partial size bs zero s (e, z, n) p room = cc (rw e at p, after-end s.out)
feed_partial size bs (suc x) s (e, z, n) p room =
    let test : ltb (length s.out) s.size ≡ true = ground (arith, length_fed bs (suc x) s e) in
    (
      record s { out = s.out ++ x ∷ [] },
      rw test refl,
      (
        rw e (sym (map-snoc s.out x)),
        z,
        omega (arith, length-append s.out (x ∷ []), length_fed bs (suc x) s e),
      ),
    )

feed_full :
    (size : ℕ) (bs : List ℕ) (x : ℕ) (s : Buffer)
    → Holds size bs s
    → after (bs ++ x ∷ []) ≡ partial
    → size < length (bs ++ x ∷ [])
    → feed s x ≡ Fed.too_small
feed_full size bs zero s (e, z, n) p full = cc (rw e at p, after-end s.out)
feed_full size bs (suc x) s (e, z, n) p full =
    let test : ltb (length s.out) s.size ≡ false = ground (arith, length_fed bs (suc x) s e) in
    rw test refl

feed_whole :
    (size : ℕ) (bs : List ℕ) (x : ℕ) (s : Buffer) (f : List ℕ)
    → Holds size bs s
    → after (bs ++ x ∷ []) ≡ whole f
    → feed s x ≡ Fed.complete f
feed_whole size bs zero s f (e, z, n) p = cc (rw e at p, after-end s.out)
feed_whole size bs (suc x) s f (e, z, n) p =
    cc (rw e at p, ap after (map-snoc s.out x), after-suc (s.out ++ x ∷ []))

feed_wrong :
    (size : ℕ) (bs : List ℕ) (x : ℕ) (s : Buffer) (w : Unit {0})
    → Holds size bs s
    → after (bs ++ x ∷ []) ≡ wrong w
    → feed s x ≡ Fed.failed w
feed_wrong size bs zero s w (e, z, n) p = cc (rw e at p, after-end s.out)
feed_wrong size bs (suc x) s w (e, z, n) p =
    cc (rw e at p, ap after (map-snoc s.out x), after-suc (s.out ++ x ∷ []))

push_holds :
    (size : ℕ) (bs : List ℕ)
    → ((p q : List ℕ) → bs ≡ p ++ q → after p ≡ partial)
    → length bs ≤ size
    → (s : Buffer) × (push (record { size = size; out = [] }) bs ≡ some s) × Holds size bs s
push_holds size bs part n =
    let (text, e) = partial_text bs (part bs [] (sym (append-nil bs))) in
    let short : length text ≤ size = omega (arith, ap length e, length-map-suc text) in
    (
      record { size = size; out = text },
      rw e (push_lem text [] size (omega arith)),
      (e, refl, short),
    )

pub shifted-IsCobs : IsCobs shifted
shifted-IsCobs = record {
  after = after;
  written = λ bs. length bs;
  written-nil = refl;
  written-step = written_step;
  Holds = Holds;
  new-Holds = λ size. (refl, refl, omega arith);
  Holds-written = fits_in;
  feed-partial = feed_partial;
  feed-full = feed_full;
  feed-whole = feed_whole;
  feed-wrong = feed_wrong;
  push-Holds = push_holds;
}

split_suc : (text p q : List ℕ) → map suc text ≡ p ++ q → after p ≡ partial
split_suc text [] q e = refl
split_suc [] (x ∷ p) q e = cc
split_suc (y ∷ text) (x ∷ p) q e =
    rw (sym (head-eq_of_cons-eq e), split_suc text p q (tail-eq_of_cons-eq e)) refl

pub shifted-IsInverse : IsInverse shifted shifted-IsCobs
unfolding shifted-IsCobs
shifted-IsInverse = record { encode-partial = split_suc; encode-whole = after-end }

abbrev pub as_text : List ℕ → Result (List ℕ) (Unit {0})
as_text bytes = Result.ok bytes

-- Two messages in three reads.
abbrev arrived : Tcp
arrived = record { raw = (6 ∷ 0 ∷ 4 ∷ []) ∷ [] ∷ (0 ∷ []) ∷ []; buffered = 9 ∷ [] }

frames-read_example : Reads tcp shifted (λ m. m) as_text 5 ((8 ∷ 5 ∷ []) ∷ (3 ∷ []) ∷ []) arrived
unfolding write_frame
frames-read_example =
    frames-read shifted shifted-IsCobs shifted-IsInverse (λ m. m) as_text (λ m. refl) 5
      ((8 ∷ 5 ∷ []) ∷ (3 ∷ []) ∷ []) arrived
      ((omega arith, omega arith), ((omega arith, omega arith), tt)) refl

-- A frame that is cut short.
abbrev cut : Tcp
cut = record { raw = (6 ∷ []) ∷ [] ∷ []; buffered = 9 ∷ [] }

cut_part : (p q : List ℕ) → 9 ∷ 6 ∷ [] ≡ p ++ q → after p ≡ partial
cut_part p q e = split_suc (8 ∷ 5 ∷ []) p q e

silence_blocks_example :
    (get_frame tcp shifted 5 cut ≡ Got.waits)
    × ((sleep_first : Bool)
        → timed_read sleep_first false (read tcp shifted as_text 5 cut) ≡ Timed.blocks)
unfolding shifted-IsCobs
silence_blocks_example =
    silence_blocks shifted shifted-IsCobs as_text 5 cut cut_part (omega arith) (omega arith)
