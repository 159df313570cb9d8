-- ===== src/Tdx.antt =====
-- tdx/src/lib.rs: the random bytes of the TDX enclave. The words of `rdseed` are a list, and the
-- generator of the crate `drbg` that is seeded with them is a parameter.
pub mod Seed
use kassandra_service.Common.{
  ℕ, zero, suc, ◌+◌, ◌/◌, ◌%◌, ◌^◌, Bool, true, false, List, [], ◌∷◌, Option, none, some, ◌==◌,
}
use kassandra_service.Common.Bytes.{from_le_bytes}

-- `seed.to_le_bytes()[i]` of a u64.
unfoldable pub seed_byte : ℕ → ℕ → ℕ
seed_byte seed i = seed / 256 ^ i % 256

unfoldable pub push_front : ℕ → Option (List ℕ) → Option (List ℕ)
push_front b none = none
push_front b (some bs) = some (b ∷ bs)

-- `Seed::fill_bytes`, with `n` bytes left from `ix` on. `words` are those that `rdseed` gives, each
-- once it succeeds; `none`: it does not succeed any more, and the loop around it does not end.
unfoldable pub fill_loop : ℕ → ℕ → ℕ → List ℕ → Option (List ℕ)
unfolding seed_byte push_front
fill_loop zero ix seed words = some []
fill_loop (suc n) ix seed words = elim (ix % 4 == 0) [
  | false ↦ push_front (seed_byte seed (ix % 4)) (fill_loop n (ix + 1) seed words)
  | true ↦ elim words [
    | [] ↦ none
    | word ∷ rest ↦ push_front (seed_byte word (ix % 4)) (fill_loop n (ix + 1) word rest)
  ]
]

unfoldable pub fill_bytes : ℕ → List ℕ → Option (List ℕ)
unfolding fill_loop
fill_bytes len words = fill_loop len 0 0 words

-- `Rng`: the generator gives so many bytes, and its next state.
module _ {G : Type 0} (generate : ℕ → G → List ℕ × G) where
  unfoldable pub next_u32 : G → ℕ × G
  next_u32 self = let (bytes, self') = generate 4 self in (from_le_bytes bytes, self')

  unfoldable pub next_u64 : G → ℕ × G
  next_u64 self = let (bytes, self') = generate 8 self in (from_le_bytes bytes, self')
