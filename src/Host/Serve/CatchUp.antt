-- ===== src/Host/Serve/CatchUp.antt =====
-- How far rounds of detection take the registered keys.
use kassandra_service.Common.{
  ℕ, zero, suc, ◌+◌, ◌-◌, ◌≤◌, ◌<◌, List, [], ◌∷◌, ◌++◌, map, some, ◌≡◌, ◌∙◌, ap, inl, inr, refl,
  sym, true, Bool-cases, ltb, ltb→lt, ltb_false→le, length, All, arith, ok,
}
use mathlib.Core.Path.{subst}
use mathlib.Core.List.{append-nil, append_assoc}
use kassandra_service.External.{External}
use kassandra_service.Messages.{Result, EncryptedResponse, ServerMsg}
use kassandra_service.Ratls.{FmdKeyRegistration}
use kassandra_service.Scheduler.{NextEvent, poll}
use kassandra_service.IndexSet.Round.{Flags, Keys}
use kassandra_service.Enclave.{State}
use kassandra_service.Database.{Sql, Db, get_height, replace_all, update_indices, synced_height}
use kassandra_service.Host.{FromClient, flags_of}
use kassandra_service.Host.Session.{finished, idle}
use kassandra_service.Host.Detection.Matches.{matching, IsView, IsView-same}
use kassandra_service.Host.Detection.Onward.{Registered, passed, onward, round-onward}
use kassandra_service.Host.Detection.Outcomes.{Moved, round_cases}
use kassandra_service.Host.Serve.{Turn, detected, handle_event, serve}
use Prim.Native.String.{String}

module _ (e : External) (chain : ℕ → Flags e) where
  -- A key at height `n`, or where it is if that is further, with all the matches on the way.
  unfoldable pub caught_up : ℕ → Registered e chain → Registered e chain
  unfolding passed
  caught_up n (key, set) = (
    key,
    record {
      synced_to = set.synced_to + (n - set.synced_to);
      indices = set.indices ++ passed e chain key.fmd_key set.synced_to (n - set.synced_to);
    },
  )

  passed_first :
      (key : e.DetectionKey) (start n : ℕ)
      → passed e chain key start (suc n)
        ≡ matching e key (chain (start + 1)) ++ passed e chain key (start + 1) n
  unfolding passed
  passed_first key start zero = sym (append-nil (matching e key (chain (start + 1))))
  passed_first key start (suc n) =
      let next : start + 1 + suc n ≡ start + suc (suc n) = omega arith in
      ap (λ l. l ++ matching e key (chain (start + suc (suc n)))) (passed_first key start n)
      ∙ append_assoc (matching e key (chain (start + 1))) (passed e chain key (start + 1) n) _
      ∙ rw next refl

  -- A key that is no further than one height behind is there after one round.
  caught_up-onward :
      (n : ℕ) (k : Registered e chain) → caught_up n (onward e chain n k) ≡ caught_up n k
  unfolding caught_up onward
  caught_up-onward n (key, set) = elim (Bool-cases (ltb set.synced_to n)) [
    | inr synced ↦ rw synced refl
    | inl behind ↦
        let low : set.synced_to < n = ltb→lt _ _ behind in
        let all : n - set.synced_to ≡ suc (n - (set.synced_to + 1)) = omega (arith, low) in
        let reach : set.synced_to + suc (n - (set.synced_to + 1))
            ≡ set.synced_to + 1 + (n - (set.synced_to + 1)) =
          omega arith in
        rw
          (
            behind,
            all,
            passed_first key.fmd_key set.synced_to (n - (set.synced_to + 1)),
            reach,
            append_assoc set.indices,
          )
          refl
  ]

  caught_up_each-onward :
      (n : ℕ) (keys : Keys e)
      → map (caught_up n) (map (onward e chain n) keys) ≡ map (caught_up n) keys
  caught_up_each-onward n [] = refl
  caught_up_each-onward n (k ∷ keys) = rw (caught_up-onward n k, caught_up_each-onward n keys) refl

  -- At most so many heights behind.
  abbrev pub Behind : ℕ → ℕ → Keys e → Type 0
  Behind n m keys = All (λ k. n ≤ k.1.synced_to + m) keys

  Behind-onward :
      (n m : ℕ) (keys : Keys e) → Behind n (suc m) keys → Behind n m (map (onward e chain n) keys)
  unfolding onward
  Behind-onward n m [] b = tt
  Behind-onward n m ((key, set) ∷ keys) b = (
    elim (Bool-cases (ltb set.synced_to n)) [
      | inl behind ↦ rw behind (omega (arith, b.0))
      | inr synced ↦ rw synced (omega (arith, ltb_false→le _ _ synced))
    ],
    Behind-onward n m keys b.1,
  )

  -- Keys that are not behind are where they are.
  caught_up_already : (n : ℕ) (keys : Keys e) → Behind n 0 keys → map (caught_up n) keys ≡ keys
  unfolding caught_up passed
  caught_up_already n [] b = refl
  caught_up_already n ((key, set) ∷ keys) b =
      let none : n - set.synced_to ≡ 0 = omega (arith, b.0) in
      let there : set.synced_to + 0 ≡ set.synced_to = omega arith in
      rw (none, there, append-nil set.indices, caught_up_already n keys b.1) refl

  module _ (q : Sql e) (get_quote : List ℕ → List ℕ)
      (from_slice : List ℕ → Result (FmdKeyRegistration e) e.CborError) where
    -- A view of the chain, synced to `n`, whose rows can be read.
    abbrev pub IsReady : ℕ → Db e q → Type 0
    IsReady n db =
        IsView e q chain db
        × (synced_height e q db ≡ n)
        × ((h : ℕ) → (flags : Flags e) × (get_height e q db h ≡ ok flags))

    -- The table of indices takes every response.
    abbrev pub TakesAll : Type 0
    TakesAll =
        (t : q.Indices) (r : EncryptedResponse) → (t' : q.Indices) × (q.replace t r ≡ some t')

    replace_all-TakesAll :
        TakesAll → (t : q.Indices) (rs : List EncryptedResponse) → (replace_all e q t rs).1 ≡ true
    unfolding replace_all
    replace_all-TakesAll takes t [] = refl
    replace_all-TakesAll takes t (r ∷ rs) =
        let (t', p) = takes t r in rw (replace_all, p) (replace_all-TakesAll takes t' rs)

    flags_of-readable :
        (db : Db e q)
        → ((h : ℕ) → (flags : Flags e) × (get_height e q db h ≡ ok flags))
        → (hs : List ℕ) → (flags : Flags e) × (flags_of e q db hs ≡ ok flags)
    unfolding flags_of
    flags_of-readable db reads [] = ([], refl)
    flags_of-readable db reads (h ∷ hs) =
        let (one, p) = reads h in
        let (rest, r) = flags_of-readable db reads hs in (one ++ rest, rw (p, r) refl)

    round-Moved :
        (n : ℕ) (db : Db e q) (st : State e) (script : List (FromClient e)) (sent : List ServerMsg)
        → TakesAll
        → IsReady n db
        → Moved e q get_quote from_slice db st script sent
    unfolding update_indices
    round-Moved n db st script sent takes (view, s, reads) =
        elim (round_cases e q get_quote from_slice db st script sent) [
          | inr m ↦ m
          | inl (p, inl f) ↦ absurd (cc (f, (flags_of-readable db reads _).1))
          | inl (p, inr (after, f)) ↦ absurd (cc (f, replace_all-TakesAll takes db.fmd after))
        ]

    IsReady-same :
        (n : ℕ) (db db' : Db e q)
        → db'.masp ≡ db.masp
        → db'.synced_to ≡ db.synced_to
        → IsReady n db
        → IsReady n db'
    unfolding get_height synced_height
    IsReady-same n db db' m s (view, h, reads) =
        (IsView-same e q chain db db' m s view, rw s h, λ k. rw m (reads k))

    module _ (host_uuid fetch_error : String) (AcceptError : Type 0) (n : ℕ) where
      -- A poll that asks for a round of detection, while what is fetched lies above the height
      -- `n` that is announced.
      abbrev pub Detects : Turn e q get_quote from_slice host_uuid fetch_error AcceptError → Type 0
      Detects turn =
          (poll turn.query ≡ some NextEvent.perform_fmd)
          × ((db : Db e q) → IsReady n db → IsReady n (turn.fetched db))

      one_round :
          (turn : Turn e q get_quote from_slice host_uuid fetch_error AcceptError)
          (turns : List (Turn e q get_quote from_slice host_uuid fetch_error AcceptError))
          (db : Db e q) (st : State e) (script : List (FromClient e)) (sent : List ServerMsg)
          → poll turn.query ≡ some NextEvent.perform_fmd
          → (m : Moved e q get_quote from_slice (turn.fetched db) st script sent)
          → serve e q get_quote from_slice host_uuid fetch_error AcceptError
              (turn ∷ turns)
              db
              (idle e get_quote from_slice st script sent)
            ≡ serve e q get_quote from_slice host_uuid fetch_error AcceptError turns m.db_after
                (idle e get_quote from_slice m.st_after script sent)
      unfolding serve handle_event detected
      one_round turn turns db st script sent asked m = rw (asked, handle_event, m.ended) refl

      -- Where the rows are readable, the announced heights being those of the chain up to `n`, and the
      -- table takes every response: as many rounds of detection as the registered keys are heights
      -- behind, run one after another by the main loop, end with the enclave in its main loop and
      -- each key at height `n`, or where it was if that is further, its indices followed by its
      -- matches of the chain at the heights on the way.
      pub serve-catches_up :
          (turns : List (Turn e q get_quote from_slice host_uuid fetch_error AcceptError))
          (db : Db e q) (st : State e) (script : List (FromClient e)) (sent : List ServerMsg)
          → TakesAll
          → All Detects turns
          → IsReady n db
          → Behind n (length turns) st.registered_keys
          → (db' : Db e q) × (st' : State e) × (serve e q get_quote from_slice host_uuid fetch_error
                AcceptError turns db
                (idle e get_quote from_slice st script sent)
              ≡ finished db' (idle e get_quote from_slice st' script sent))
            × (st'.registered_keys ≡ map (caught_up n) st.registered_keys)
      unfolding serve
      serve-catches_up [] db st script sent takes d ready b =
          (db, st, refl, sym (caught_up_already n st.registered_keys b))
      serve-catches_up (turn ∷ turns) db st script sent takes ((asked, keeps), d) ready b =
          let here = keeps db ready in
          let m = round-Moved n (turn.fetched db) st script sent takes here in
          let keys : m.st_after.registered_keys ≡ map (onward e chain n) st.registered_keys =
            m.keys_advanced
            ∙ round-onward e chain q (turn.fetched db) st.registered_keys m.flags here.0 m.looked_up
            ∙ ap (λ h. map (onward e chain h) st.registered_keys) here.1 in
          let (db', st', run, end) =
            serve-catches_up turns m.db_after m.st_after script sent takes d
              (IsReady-same n (turn.fetched db) m.db_after m.masp_same m.synced_same here)
              (subst (Behind n (length turns)) (sym keys)
                (Behind-onward n (length turns) st.registered_keys b)) in
          (
            db',
            st',
            one_round turn turns db st script sent asked m ∙ run,
            end ∙ ap (map (caught_up n)) keys ∙ caught_up_each-onward n st.registered_keys,
          )
