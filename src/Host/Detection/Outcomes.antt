-- ===== src/Host/Detection/Outcomes.antt =====
-- How a round of detection ends, whatever is registered and whatever the tables hold.
use kassandra_service.Common.{
  ℕ, ◌≡◌, ◌⊎◌, ◌∙◌, inl, inr, refl, sym, ap, false, List, [], ◌∷◌, map, ok, panic, Outcome-cases,
  List-cases,
}
use kassandra_service.External.{External}
use kassandra_service.Messages.{Result, ServerMsg, EncryptedResponse}
use kassandra_service.Ratls.{FmdKeyRegistration}
use kassandra_service.IndexSet.{next}
use kassandra_service.IndexSet.Round.{Keys, Flags, advanced}
use kassandra_service.Enclave.{State}
use kassandra_service.Database.{Sql, Db, update_indices, synced_height}
use kassandra_service.Host.{FromClient, flags_of, for_heights, send_flags}
use kassandra_service.Host.Session.{finished, panicked, exec}
use kassandra_service.Host.Detection.{
  round, round_lem, round-heights, heights, idle_with, advanced_with,
}
use kassandra_service.Host.Detection.Heights.{heights_empty}

nothing_asked : {e : External} (keys : Keys e) → map (λ k. next k.1) keys ≡ [] → keys ≡ []
nothing_asked [] p = refl
nothing_asked (k ∷ keys) p = cc p

module _ (e : External) (q : Sql e) (get_quote : List ℕ → List ℕ)
    (from_slice : List ℕ → Result (FmdKeyRegistration e) e.CborError) (db : Db e q) (st : State e)
    (script : List (FromClient e)) (sent : List ServerMsg) where
  -- Only the indices of the tables change, and each key is advanced by what was looked up.
  pub record Moved : Type 0 where
    pub db_after : Db e q
    pub st_after : State e
    pub flags : Flags e
    pub ended :
        round e q get_quote from_slice db st script sent
        ≡ finished db_after (idle_with e q get_quote from_slice db st script sent st_after)
    pub masp_same : db_after.masp ≡ db.masp
    pub synced_same : db_after.synced_to ≡ db.synced_to
    pub looked_up : flags_of e q db (heights e q get_quote from_slice db st script sent) ≡ ok flags
    pub keys_advanced :
        st_after.registered_keys ≡ map (advanced e (synced_height e q db) flags) st.registered_keys

  abbrev at_heights :
      (hs : List ℕ)
      → heights e q get_quote from_slice db st script sent ≡ hs
      → round e q get_quote from_slice db st script sent
        ≡ exec e get_quote from_slice
            (for_heights e q db hs)
            (idle_with e q get_quote from_slice db st script sent st)
  at_heights hs p =
      round-heights e q get_quote from_slice db st script sent
      ∙ ap
          (λ l.
            exec e get_quote from_slice (for_heights e q db l)
              (idle_with e q get_quote from_slice db st script sent st))
          p

  quiet : heights e q get_quote from_slice db st script sent ≡ [] → Moved
  unfolding for_heights exec flags_of
  quiet p =
      let nobody =
        nothing_asked st.registered_keys
          (heights_empty (map (λ k. next k.1) st.registered_keys) p) in
      record {
        db_after = db;
        st_after = st;
        flags = [];
        ended = at_heights [] p;
        masp_same = refl;
        synced_same = refl;
        looked_up = ap (flags_of e q db) p;
        keys_advanced = nobody ∙ sym (ap (map (advanced e (synced_height e q db) [])) nobody);
      }

  moved :
      (flags : Flags e)
      → flags_of e q db (heights e q get_quote from_slice db st script sent) ≡ ok flags
      → (db' : Db e q) (rng : e.Rng) → db'.masp ≡ db.masp
      → db'.synced_to ≡ db.synced_to
      → round e q get_quote from_slice db st script sent
        ≡ finished db' (
            idle_with e q get_quote from_slice db st script sent
              (advanced_with e q get_quote from_slice db st script sent flags rng))
      → Moved
  moved flags f db' rng masp synced t = record {
    db_after = db';
    st_after = _;
    flags = flags;
    ended = t;
    masp_same = masp;
    synced_same = synced;
    looked_up = f;
    keys_advanced = refl;
  }

  -- A row cannot be read, or the table does not take the responses.
  abbrev pub Fails : Type 0
  Fails =
      (flags_of e q db (heights e q get_quote from_slice db st script sent) ≡ panic)
      ⊎ ((after : List EncryptedResponse) × ((update_indices e q db after).1 ≡ false))

  -- A round ends with the enclave back in its main loop, or it panics, for a reason of the tables.
  pub round_cases : ((round e q get_quote from_slice db st script sent ≡ panicked) × Fails) ⊎ Moved
  unfolding exec send_flags for_heights update_indices
  round_cases = elim (List-cases (heights e q get_quote from_slice db st script sent)) [
    | inl p ↦ inr (quiet p)
    | inr (h, hs, p) ↦
        elim (Outcome-cases
          (flags_of e q db (heights e q get_quote from_slice db st script sent))) [
            | inl f ↦ inl (
              (at_heights (h ∷ hs) p
                  ∙ ap
                      (λ o.
                        exec e get_quote from_slice (send_flags e q db o)
                          (idle_with e q get_quote from_slice db st script sent st))
                      (rw p at f)),
              inl f,
            )
            | inr (flags, f) ↦
                let (rng, ends) =
                  round_lem e q get_quote from_slice db st script sent h hs flags p f in
                elim ends [
                  | inl (refused, t) ↦ inr (moved flags f db rng refl refl t)
                  | inr (after, a, inl (done, t)) ↦ inr (moved flags f _ rng refl refl t)
                  | inr (after, a, inr (failed, t)) ↦ inl (t, inr (after, failed))
                ]
          ]
  ]
