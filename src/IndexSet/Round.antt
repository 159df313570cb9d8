-- ===== src/IndexSet/Round.antt =====
-- One round of detection over all registered keys: what `check_flags` does to each key, and what
-- it answers.
use kassandra_service.Common.{
  ℕ, ◌+◌, ◌%◌, ◌^◌, ◌≡◌, ◌⊎◌, inl, inr, refl, true, false, List, [], ◌∷◌, ◌++◌, map, Option, none,
  some, ltb, if◌then◌else◌, Bool-cases, Option-cases,
}
use kassandra_service.External.{External}
use kassandra_service.Index.{Index}
use kassandra_service.Messages.{EncryptedResponse, MsgToHost}
use kassandra_service.Ratls.{FmdKeyRegistration}
use kassandra_service.IndexSet.{
  IndexSet, index_bytes, hash, add_result, detected, check_key, check_loop, check_flags,
}

module _ (e : External) where
  open e use {FlagCiphertexts, Rng, encrypt, fill_bytes}

  abbrev pub Keys : Type 0
  Keys = List (FmdKeyRegistration e × IndexSet)

  abbrev pub Flags : Type 0
  Flags = List (Index × Option FlagCiphertexts)

  -- A key that is behind goes on by one height, with the matches at that height.
  unfoldable pub advanced :
      ℕ → Flags → FmdKeyRegistration e × IndexSet → FmdKeyRegistration e × IndexSet
  advanced synced_to flags (key, set) =
      if ltb set.synced_to synced_to
      then (
        key,
        record {
          synced_to = (set.synced_to + 1) % 2 ^ 64;
          indices = set.indices ++ detected e key.fmd_key ((set.synced_to + 1) % 2 ^ 64) flags;
        },
      )
      else (key, set)

  -- The responses are for the keys that are behind, in their order: each has a nonce that was drawn,
  -- names its key, carries the height before the round, and the encrypted indices after it.
  abbrev pub Answers : ℕ → Flags → Keys → List EncryptedResponse → List EncryptedResponse → Type 0
  Answers synced_to flags [] before after = after ≡ before
  Answers synced_to flags ((key, set) ∷ r) before after =
      if ltb set.synced_to synced_to
      then ((x : EncryptedResponse) × (drawn : Rng) × (x.nonce ≡ (fill_bytes 12 drawn).0)
          × (x.owner ≡ hash e key.enc_key)
          × (x.height ≡ set.synced_to)
          × (encrypt key.enc_key x.nonce
                (index_bytes (advanced synced_to flags (key, set)).1.indices)
              ≡ some x.indices)
          × Answers synced_to flags r (before ++ x ∷ []) after)
      else Answers synced_to flags r before after

  -- The cipher refuses the indices of some key that is behind, with a nonce that was drawn.
  abbrev pub Refused : ℕ → Flags → Keys → Type 0
  Refused synced_to flags [] = ⊥
  Refused synced_to flags ((key, set) ∷ r) =
      ((ltb set.synced_to synced_to ≡ true)
        × (drawn : Rng) × (encrypt key.enc_key (fill_bytes 12 drawn).0
              (index_bytes (advanced synced_to flags (key, set)).1.indices)
            ≡ none))
      ⊎ Refused synced_to flags r

  check_key_next :
      (key : FmdKeyRegistration e) (set : IndexSet) (n : ℕ) (flags : Flags) (rng : Rng)
      (m : MsgToHost)
      → ltb set.synced_to n ≡ true
      → (key, (check_key e key set flags rng m).0) ≡ advanced n flags (key, set)
  unfolding check_key advanced
  check_key_next key set n flags rng m h = rw h

  loop_synced :
      (key : FmdKeyRegistration e) (set : IndexSet) (r ks : Keys) (n : ℕ) (flags : Flags)
      (rng rng' : Rng) (m sent : MsgToHost)
      → ltb set.synced_to n ≡ false
      → check_loop e r n flags rng m ≡ some (ks, rng', sent)
      → check_loop e ((key, set) ∷ r) n flags rng m
        ≡ some (advanced n flags (key, set) ∷ ks, rng', sent)
  unfolding check_loop advanced
  loop_synced key set r ks n flags rng rng' m sent h p = rw (h, check_loop, p)

  loop_behind :
      (key : FmdKeyRegistration e) (set : IndexSet) (r ks : Keys) (n : ℕ) (flags : Flags)
      (rng rng' : Rng) (m m' sent : MsgToHost)
      → ltb set.synced_to n ≡ true
      → (check_key e key set flags rng m).2 ≡ some m'
      → check_loop e r n flags (check_key e key set flags rng m).1 m' ≡ some (ks, rng', sent)
      → check_loop e ((key, set) ∷ r) n flags rng m
        ≡ some (advanced n flags (key, set) ∷ ks, rng', sent)
  loop_behind key set r ks n flags rng rng' m m' sent h p q =
      rw (← check_key_next key set n flags rng m h) (unfold check_loop in rw (check_loop, h, p, q))

  -- What a key that is behind adds to the response: an error of the cipher, or its entry.
  check_key_sent :
      (key : FmdKeyRegistration e) (set : IndexSet) (n : ℕ) (flags : Flags) (rng : Rng)
      (before : List EncryptedResponse)
      → ltb set.synced_to n ≡ true
      → (((check_key e key set flags rng (MsgToHost.fmd_results before)).2
            ≡ some (MsgToHost.error e.aead_error))
          × (encrypt key.enc_key
                (fill_bytes 12 rng).0
                (index_bytes (advanced n flags (key, set)).1.indices)
              ≡ none))
        ⊎ ((x : EncryptedResponse) × ((check_key e key set flags rng
                (MsgToHost.fmd_results before)).2
              ≡ some (MsgToHost.fmd_results (before ++ x ∷ [])))
            × (x.nonce ≡ (fill_bytes 12 rng).0)
            × (x.owner ≡ hash e key.enc_key)
            × (x.height ≡ set.synced_to)
            × (encrypt key.enc_key x.nonce (index_bytes (advanced n flags (key, set)).1.indices)
                ≡ some x.indices))
  unfolding advanced
  check_key_sent key set n flags rng before h =
      elim (Option-cases (encrypt key.enc_key nonce text)) [
        | inl p ↦ inl ((unfold check_key in rw (p, add_result) refl), rw h p)
        | inr (c, p) ↦ inr (
          record { owner = hash e key.enc_key; nonce = nonce; indices = c; height = set.synced_to },
          (unfold check_key in rw (p, add_result) refl),
          refl,
          refl,
          refl,
          rw h p,
        )
      ]
    where
      nonce : List ℕ
      nonce = (fill_bytes 12 rng).0

      text : List ℕ
      text =
          index_bytes (set.indices ++ detected e key.fmd_key ((set.synced_to + 1) % 2 ^ 64) flags)

  check_key_error :
      (key : FmdKeyRegistration e) (set : IndexSet) (flags : Flags) (rng : Rng)
      → (check_key e key set flags rng (MsgToHost.error e.aead_error)).2
        ≡ some (MsgToHost.error e.aead_error)
  check_key_error key set flags rng = elim (Option-cases (encrypt key.enc_key nonce text)) [
    | inl p ↦ unfold check_key in rw (p, add_result) refl
    | inr (c, p) ↦ unfold check_key in rw (p, add_result) refl
  ]
    where
      nonce : List ℕ
      nonce = (fill_bytes 12 rng).0

      text : List ℕ
      text =
          index_bytes (set.indices ++ detected e key.fmd_key ((set.synced_to + 1) % 2 ^ 64) flags)

  -- After an error every key still goes on, and the answer stays the error.
  loop_error :
      (keys : Keys) (n : ℕ) (flags : Flags) (rng : Rng)
      → (rng' : Rng) × (check_loop e keys n flags rng (MsgToHost.error e.aead_error)
          ≡ some (map (advanced n flags) keys, rng', MsgToHost.error e.aead_error))
  loop_error [] n flags rng = (rng, unfold check_loop in refl)
  loop_error ((key, set) ∷ r) n flags rng = elim (Bool-cases (ltb set.synced_to n)) [
    | inl behind ↦
        let p = check_key_error key set flags rng in
        let (rng', q) =
          loop_error r n flags (check_key e key set flags rng (MsgToHost.error e.aead_error)).1 in
        (rng', loop_behind key set r _ n flags rng rng' _ _ _ behind p q)
    | inr synced ↦
        let (rng', q) = loop_error r n flags rng in
        (rng', loop_synced key set r _ n flags rng rng' _ _ synced q)
  ]

  loop_results :
      (keys : Keys) (n : ℕ) (flags : Flags) (rng : Rng) (before : List EncryptedResponse)
      → (rng' : Rng) × (sent : MsgToHost) × (check_loop e keys n flags rng
            (MsgToHost.fmd_results before)
          ≡ some (map (advanced n flags) keys, rng', sent))
        × (((sent ≡ MsgToHost.error e.aead_error) × Refused n flags keys)
            ⊎ ((after : List EncryptedResponse) × (sent ≡ MsgToHost.fmd_results after)
                × Answers n flags keys before after))
  loop_results [] n flags rng before =
      (rng, MsgToHost.fmd_results before, unfold check_loop in refl, inr (before, refl, refl))
  loop_results ((key, set) ∷ r) n flags rng before = elim (Bool-cases (ltb set.synced_to n)) [
    | inl behind ↦ elim (check_key_sent key set n flags rng before behind) [
      | inl (p, refused) ↦
          let (rng', q) =
            loop_error r n flags (check_key e key set flags rng (MsgToHost.fmd_results before)).1 in
          (
            rng',
            MsgToHost.error e.aead_error,
            loop_behind key set r _ n flags rng rng' _ _ _ behind p q,
            inl (refl, inl (behind, rng, refused)),
          )
      | inr (x, p, d, o, h, c) ↦
          let (rng', sent, q, a) =
            loop_results r n flags (check_key e key set flags rng (MsgToHost.fmd_results before)).1
              (before ++ x ∷ []) in
          (
            rng',
            sent,
            loop_behind key set r _ n flags rng rng' _ _ _ behind p q,
            elim a [
              | inl (y, refused) ↦ inl (y, inr refused)
              | inr (after, s, t) ↦ inr (after, s, rw behind (x, rng, d, o, h, c, t))
            ],
          )
    ]
    | inr synced ↦
        let (rng', sent, q, a) = loop_results r n flags rng before in
        (
          rng',
          sent,
          loop_synced key set r _ n flags rng rng' _ _ synced q,
          elim a [
            | inl (y, refused) ↦ inl (y, inr refused)
            | inr (after, s, t) ↦ inr (after, s, rw synced t)
          ],
        )
  ]

  -- `check_flags` never reaches its `unreachable!()`. It takes each key that is behind `synced_to`
  -- one height on, with the transactions of that height that match, and leaves the others. It answers
  -- with the error of the cipher only where the cipher refuses the indices of a key that is behind,
  -- under a nonce that was drawn; else with one response for each key that was behind, in their
  -- order, which has a nonce that was drawn, names the key by its hash, carries the height from
  -- before the round, and encrypts the key's indices after it.
  pub check_flags_lem :
      (keys : Keys) (n : ℕ) (flags : Flags) (rng : Rng)
      → (rng' : Rng) × (sent : MsgToHost) × (check_flags e keys n flags rng
          ≡ some (map (advanced n flags) keys, rng', sent))
        × (((sent ≡ MsgToHost.error e.aead_error) × Refused n flags keys)
            ⊎ ((after : List EncryptedResponse) × (sent ≡ MsgToHost.fmd_results after)
                × Answers n flags keys [] after))
  unfolding check_flags
  check_flags_lem keys n flags rng = loop_results keys n flags rng []
