-- ===== src/Tdx/Seed.antt =====
-- What the enclave seeds its generator with.
use kassandra_service.Common.{
  ℕ, zero, suc, ◌+◌, ◌/◌, ◌%◌, ◌^◌, ◌≤◌, ◌<◌, ◌≡◌, refl, List, [], ◌∷◌, ◌++◌, some, length, take,
  ◌==◌, true, false, arith,
}
use kassandra_service.Common.Bytes.{to_le_bytes}
use kassandra_service.Tdx.{seed_byte, push_front, fill_loop, fill_bytes}

-- The four low bytes of each word.
abbrev pub low_bytes : List ℕ → List ℕ
low_bytes [] = []
low_bytes (w ∷ ws) = to_le_bytes 4 w ++ low_bytes ws

-- What is left of a word, by the place of the next byte in its four.
abbrev pending : ℕ → ℕ → List ℕ
pending zero seed = []
pending (suc zero) seed = seed_byte seed 1 ∷ seed_byte seed 2 ∷ seed_byte seed 3 ∷ []
pending (suc (suc zero)) seed = seed_byte seed 2 ∷ seed_byte seed 3 ∷ []
pending (suc (suc (suc j))) seed = seed_byte seed 3 ∷ []

word_bytes : (seed : ℕ) → to_le_bytes 4 seed ≡ seed_byte seed 0 ∷ pending 1 seed
unfolding seed_byte to_le_bytes
word_bytes seed =
    let b0 : seed / 256 ^ 0 % 256 ≡ seed % 256 = omega arith in
    let b1 : seed / 256 ^ 1 % 256 ≡ seed / 256 % 256 = omega arith in
    let b2 : seed / 256 ^ 2 % 256 ≡ seed / 256 / 256 % 256 = omega arith in
    let b3 : seed / 256 ^ 3 % 256 ≡ seed / 256 / 256 / 256 % 256 = omega arith in
    rw (b0, b1, b2, b3) refl

within :
    (n ix j seed : ℕ) (words bytes : List ℕ)
    → ix % 4 ≡ suc j
    → fill_loop n (ix + 1) seed words ≡ some bytes
    → fill_loop (suc n) ix seed words ≡ some (seed_byte seed (suc j) ∷ bytes)
unfolding fill_loop push_front
within n ix j seed words bytes m r =
    let inside : (ix % 4 == 0) ≡ false = ground (arith, m) in rw (fill_loop, inside, m, r) refl

fills :
    (n ix j seed : ℕ) (words : List ℕ)
    → j < 4
    → ix % 4 ≡ j
    → n ≤ length (pending j seed ++ low_bytes words)
    → fill_loop n ix seed words ≡ some (take n (pending j seed ++ low_bytes words))
unfolding fill_loop push_front
fills zero ix j seed words l m h = refl
fills (suc n) ix zero seed [] l m h = absurd (omega (arith, h))
fills (suc n) ix zero seed (w ∷ words) l m h =
    let next =
      fills n (ix + 1) 1 w words (omega arith) (omega (arith, m))
        (omega (arith, rw (word_bytes w) at h)) in
    let first : (ix % 4 == 0) ≡ true = ground (arith, m) in
    rw (fill_loop, first, m, next, word_bytes w) refl
fills (suc n) ix (suc zero) seed words l m h =
    within n ix 0 seed words _ m
      (fills n (ix + 1) 2 seed words (omega arith) (omega (arith, m)) (omega (arith, h)))
fills (suc n) ix (suc (suc zero)) seed words l m h =
    within n ix 1 seed words _ m
      (fills n (ix + 1) 3 seed words (omega arith) (omega (arith, m)) (omega (arith, h)))
fills (suc n) ix (suc (suc (suc zero))) seed words l m h =
    within n ix 2 seed words _ m
      (fills n (ix + 1) 0 seed words (omega arith) (omega (arith, m)) (omega (arith, h)))
fills (suc n) ix (suc (suc (suc (suc j)))) seed words l m h = absurd (omega (arith, l))

-- The seed is made of the four low bytes of each word of `rdseed`, in order, as many as are asked
-- for, where there are words enough: the four high bytes of a word are not used.
pub fill_bytes-low_bytes :
    (len : ℕ) (words : List ℕ)
    → len ≤ length (low_bytes words)
    → fill_bytes len words ≡ some (take len (low_bytes words))
unfolding fill_bytes
fill_bytes-low_bytes len words h = fills len 0 0 0 words (omega arith) (omega arith) h
