-- ===== src/Host/Detection.antt =====
-- A round of detection, from the host's `handle_fmd` to the enclave's `check_flags`.
pub mod Heights
pub mod Matches
pub mod Onward
pub mod Outcomes
use kassandra_service.Common.{
  ℕ, List, [], ◌∷◌, map, Option, ◌≡◌, ◌⊎◌, inl, inr, refl, ◌∙◌, ap, true, false, ok, Bool-cases,
}
use kassandra_service.External.{External}
use kassandra_service.Messages.{Result, EncryptedResponse, MsgToHost, ServerMsg}
use kassandra_service.Ratls.{FmdKeyRegistration}
use kassandra_service.IndexSet.{next, check_flags}
use kassandra_service.IndexSet.Round.{Keys, Flags, advanced, Answers, Refused, check_flags_lem}
use kassandra_service.Process.{settle}
use kassandra_service.Enclave.{State, handle, answer_flags}
use kassandra_service.Database.{Sql, Db, update_indices, synced_height}
use kassandra_service.Host.{
  FromClient, read_enclave, sort, dedup, flags_of, stored, send_flags, for_heights, handle_fmd,
  store_results,
}
use kassandra_service.Host.Session.{World, Ended, finished, panicked, exec, idle}

module _ (e : External) (q : Sql e) (get_quote : List ℕ → List ℕ)
    (from_slice : List ℕ → Result (FmdKeyRegistration e) e.CborError) (db : Db e q) (st : State e)
    (script : List (FromClient e)) (sent : List ServerMsg) where
  -- The heights that the host looks up for the enclave.
  abbrev pub heights : List ℕ
  heights = dedup (sort (map (λ k. next k.1) st.registered_keys))

  abbrev pub round : Ended e get_quote from_slice (Db e q)
  round =
      exec e get_quote from_slice (handle_fmd e q db) (idle e get_quote from_slice st script sent)

  abbrev pub idle_with : State e → World e get_quote from_slice
  idle_with st' = idle e get_quote from_slice st' script sent

  pub round-heights :
      round ≡ exec e get_quote from_slice (for_heights e q db heights) (idle_with st)
  unfolding exec handle_fmd handle settle
  round-heights = refl

  round_flags :
      (h : ℕ) (hs : List ℕ) (flags : Flags e)
      → heights ≡ h ∷ hs
      → flags_of e q db heights ≡ ok flags
      → round ≡ exec e get_quote from_slice (send_flags e q db (ok flags)) (idle_with st)
  unfolding for_heights
  round_flags h hs flags p f = round-heights ∙ rw p (rw (rw p at f))

  -- The round from the enclave's answer on.
  after_check : Option (Keys e × e.Rng × MsgToHost) → Ended e get_quote from_slice (Db e q)
  after_check r =
      let (out, next) =
        settle (handle e get_quote from_slice) (answer_flags e get_quote from_slice st r) in
      exec e get_quote from_slice (read_enclave (store_results e q db))
        (record { enclave = next; replies = out; script = script; sent = sent })

  checked_round :
      (flags : Flags e)
      → exec e get_quote from_slice (send_flags e q db (ok flags)) (idle_with st)
        ≡ after_check (check_flags e st.registered_keys (synced_height e q db) flags st.rng)
  unfolding after_check exec send_flags handle
  checked_round flags = refl

  abbrev pub advanced_with : Flags e → e.Rng → State e
  advanced_with flags rng = record {
    rng = rng;
    registered_keys = map (advanced e (synced_height e q db) flags) st.registered_keys;
  }

  finish :
      (after : List EncryptedResponse) (st' : State e)
      → (update_indices e q db after).1 ≡ true
      → exec e get_quote from_slice (stored e q (update_indices e q db after)) (idle_with st')
        ≡ finished (update_indices e q db after).0 (idle_with st')
  unfolding exec stored
  finish after st' h = rw (h, stored)

  refuse :
      (after : List EncryptedResponse) (st' : State e)
      → (update_indices e q db after).1 ≡ false
      → exec e get_quote from_slice (stored e q (update_indices e q db after)) (idle_with st')
        ≡ panicked
  unfolding exec stored
  refuse after st' h = rw (h, stored)

  -- The host stores the responses, or panics if the table does not take them.
  abbrev pub Stores : List EncryptedResponse → State e → Type 0
  Stores after st' =
      (((update_indices e q db after).1 ≡ true)
        × (round ≡ finished (update_indices e q db after).0 (idle_with st')))
      ⊎ (((update_indices e q db after).1 ≡ false) × (round ≡ panicked))

  stores :
      (after : List EncryptedResponse) (st' : State e)
      → round
        ≡ exec e get_quote from_slice (stored e q (update_indices e q db after)) (idle_with st')
      → Stores after st'
  stores after st' p = elim (Bool-cases (update_indices e q db after).1) [
    | inl done ↦ inl (done, p ∙ finish after st' done)
    | inr failed ↦ inr (failed, p ∙ refuse after st' failed)
  ]

  -- Where some key is registered and the rows that it asks for can be read, a round takes each key
  -- that is behind the host on by one height, and the enclave ends back in its main loop with
  -- nothing on the way, unless the host panics. Either the cipher refused the indices of a key that
  -- is behind, and the tables are as they were; or the responses, one for each such key, are what is
  -- stored if the table takes them, and the host panics if it does not.
  pub round_lem :
      (h : ℕ) (hs : List ℕ) (flags : Flags e)
      → heights ≡ h ∷ hs
      → flags_of e q db heights ≡ ok flags
      → (rng : e.Rng) × ((Refused e (synced_height e q db) flags st.registered_keys
            × (round ≡ finished db (idle_with (advanced_with flags rng))))
          ⊎ ((after : List EncryptedResponse) × Answers e
                (synced_height e q db)
                flags
                st.registered_keys
                []
                after
              × Stores after (advanced_with flags rng)))
  round_lem h hs flags p f =
      let (rng, reply, c, a) =
        check_flags_lem e st.registered_keys (synced_height e q db) flags st.rng in
      let start = round_flags h hs flags p f ∙ checked_round flags ∙ ap after_check c in
      (
        rng,
        elim a [
          | inl ((r, refused)) ↦ inl (
            refused,
            start ∙ rw r (unfold after_check exec settle answer_flags store_results in refl),
          )
          | inr (after, r, t) ↦ inr (
            after,
            t,
            stores after (advanced_with flags rng)
                (start ∙ rw r (unfold after_check exec settle answer_flags store_results in refl)),
          )
        ],
      )

  -- With no key registered a round changes nothing.
  pub round_nothing : st.registered_keys ≡ [] → round ≡ finished db (idle_with st)
  unfolding for_heights sort dedup
  round_nothing p = round-heights ∙ rw p (unfold exec in refl)
