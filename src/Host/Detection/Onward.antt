-- ===== src/Host/Detection/Onward.antt =====
-- A round of detection against the chain: where the rows that the host looked up are those of the
-- chain, each key that is behind goes on by the matches at its next height.
use kassandra_service.Common.{
  ℕ, zero, suc, ◌+◌, ◌%◌, ◌^◌, ◌<◌, ◌≡◌, ◌∙◌, inl, inr, refl, true, List, [], ◌∷◌, ◌++◌, map, All,
  arith, ok, if◌then◌else◌, ltb, ltb→lt, Bool-cases,
}
use kassandra_service.External.{External}
use kassandra_service.Index.{Index}
use kassandra_service.Ratls.{FmdKeyRegistration}
use kassandra_service.Enclave.{birthday_or_one}
use kassandra_service.IndexSet.{IndexSet, next}
use kassandra_service.IndexSet.Round.{Flags, Keys, advanced}
use kassandra_service.Database.{Sql, Db, synced_height}
use kassandra_service.Host.{flags_of, sort, dedup}
use kassandra_service.Host.Detection.Heights.{among, among-heights, heights-IsIncreasing}
use kassandra_service.Host.Detection.Matches.{matching, IsView, detected-flags_of}

module _ (e : External) (chain : ℕ → Flags e) where
  abbrev pub Registered : Type 0
  Registered = FmdKeyRegistration e × IndexSet

  -- The matches of a key at the `n` heights above a height, in the order of the chain.
  unfoldable pub passed : e.DetectionKey → ℕ → ℕ → List Index
  unfolding matching
  passed key start zero = []
  passed key start (suc n) = passed key start n ++ matching e key (chain (start + suc n))

  -- A key that is behind `n`, one height of the chain further.
  unfoldable pub onward : ℕ → Registered → Registered
  onward n (key, set) =
      if ltb set.synced_to n
      then (
        key,
        record {
          synced_to = set.synced_to + 1;
          indices = set.indices ++ matching e key.fmd_key (chain (set.synced_to + 1));
        },
      )
      else (key, set)

  -- The set of a key holds all its matches above its birthday, up to the height it has reached.
  abbrev pub Exact : Registered → Type 0
  Exact (key, set) =
      (n : ℕ) × (set.synced_to ≡ birthday_or_one key.birthday + n)
      × (set.indices ≡ passed key.fmd_key (birthday_or_one key.birthday) n)

  pub onward-Exact : (n : ℕ) (k : Registered) → Exact k → Exact (onward n k)
  unfolding onward passed
  onward-Exact n (key, set) (m, s, i) = elim (Bool-cases (ltb set.synced_to n)) [
    | inr synced ↦ rw synced (m, s, i)
    | inl behind ↦
        let up : set.synced_to + 1 ≡ birthday_or_one key.birthday + suc m = omega (arith, s) in
        rw behind (suc m, up, rw (i, up) refl)
  ]

  module _ (q : Sql e) (db : Db e q) (view : IsView e q chain db) (asked : List ℕ) (flags : Flags e)
      (f : flags_of e q db (dedup (sort asked)) ≡ ok flags) where
    pub advanced-onward :
        (k : Registered)
        → among (next k.1) asked ≡ true
        → advanced e (synced_height e q db) flags k ≡ onward (synced_height e q db) k
    unfolding advanced onward next
    advanced-onward (key, set) a = elim (Bool-cases (ltb set.synced_to (synced_height e q db))) [
      | inr synced ↦ rw synced refl
      | inl behind ↦
          let low : set.synced_to < synced_height e q db = ltb→lt _ _ behind in
          let plain : (set.synced_to + 1) % 2 ^ 64 ≡ set.synced_to + 1 =
            omega (arith, low, view.word) in
          let (one, g, m) =
            detected-flags_of e q chain db view key.fmd_key (set.synced_to + 1) (dedup (sort asked))
              flags (among-heights (set.synced_to + 1) asked ∙ rw plain at a)
              (heights-IsIncreasing asked) f in
          let same : one ≡ chain (set.synced_to + 1) =
            view.whole (set.synced_to + 1) one (omega (arith, low)) g in
          rw (behind, plain, m, same) refl
    ]

    advanced_each-onward :
        (keys : Keys e)
        → All (λ k. among (next k.1) asked ≡ true) keys
        → map (advanced e (synced_height e q db) flags) keys
          ≡ map (onward (synced_height e q db)) keys
    advanced_each-onward [] a = refl
    advanced_each-onward (k ∷ keys) a =
        rw (advanced-onward k a.0, advanced_each-onward keys a.1) refl

  asked_cons :
      (h : ℕ) (asked : List ℕ) (keys : Keys e)
      → All (λ k. among (next k.1) asked ≡ true) keys
      → All (λ k. among (next k.1) (h ∷ asked) ≡ true) keys
  asked_cons h asked [] a = tt
  asked_cons h asked (k ∷ keys) a = (ground (arith, a.0), asked_cons h asked keys a.1)

  asked_each : (keys : Keys e) → All (λ k. among (next k.1) (map (λ k. next k.1) keys) ≡ true) keys
  asked_each [] = tt
  asked_each (k ∷ keys) = (ground arith, asked_cons (next k.1) _ keys (asked_each keys))

  -- The height that a registered key asks for is among those asked for.
  pub own_asked :
      (front : Keys e) (k : Registered) (back : Keys e)
      → among (next k.1) (map (λ r. next r.1) (front ++ k ∷ back)) ≡ true
  own_asked [] k back = ground arith
  own_asked (x ∷ front) k back = ground (arith, own_asked front k back)

  -- Where each key asks for its next height, and the host looks these up in a view of the chain, the
  -- keys are advanced as the chain says.
  pub round-onward :
      (q : Sql e) (db : Db e q) (keys : Keys e) (flags : Flags e)
      → IsView e q chain db
      → flags_of e q db (dedup (sort (map (λ k. next k.1) keys))) ≡ ok flags
      → map (advanced e (synced_height e q db) flags) keys
        ≡ map (onward (synced_height e q db)) keys
  round-onward q db keys flags view f =
      advanced_each-onward q db view (map (λ k. next k.1) keys) flags f keys (asked_each keys)
