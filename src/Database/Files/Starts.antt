-- ===== src/Database/Files/Starts.antt =====
-- The UUIDs that a host comes to, start after start.
use kassandra_service.Common.{
  ◌≡◌, ◌⊎◌, inl, inr, refl, ap, Bool, List, [], ◌∷◌, map, Option, none, some, All, Option-cases,
}
use kassandra_service.External.{External}
use kassandra_service.Database.{Sql}
use kassandra_service.Database.Files.{
  FmdFile, Files, execute, resume, ◌>>=◌, open_masp, open_fmd, first_uuid, new, starts,
}
use kassandra_service.Database.Files.Restart.{
  Ensures, IsKept, IsBroken, Later, Never, new-First, new-Later, new-Never,
}
use Prim.Native.String.{String}

module _ (e : External) (q : Sql e) (no_txs : q.Txs) (no_indices : q.Indices) {Uuid : Type 0}
    (from_str : String → Option Uuid) (to_string : Uuid → String)
    (parsed : (u : Uuid) → from_str (to_string u) ≡ some u) where
  -- A start fails or has this UUID.
  abbrev pub IsOf : Uuid → Option Uuid → Type 0
  IsOf u r = (r ≡ none) ⊎ (r ≡ some u)

  start-IsOf :
      (u : Uuid) (r : Option Uuid) (after : Files e q)
      → Later e q no_txs no_indices from_str to_string parsed u after r
      → IsOf u r × IsKept e q no_txs no_indices from_str to_string parsed u after
  start-IsOf u none after k = (inl refl, k)
  start-IsOf u (some v) after (same, k) = (inr (ap some same), k)

  start_fails :
      (r : Option Uuid) (after : Files e q)
      → Never e q no_txs no_indices from_str to_string parsed after r
      → (r ≡ none) × IsBroken e q no_txs no_indices from_str to_string parsed after
  start_fails none after b = (refl, b)
  start_fails (some v) after b = absurd b

  kept_starts :
      (u : Uuid) (later : List (Uuid × List Bool)) (files : Files e q)
      → IsKept e q no_txs no_indices from_str to_string parsed u files
      → All (IsOf u) (starts e q no_txs no_indices from_str to_string later files)
  unfolding starts Ensures
  kept_starts u [] files k = tt
  kept_starts u ((fresh, script) ∷ later) files k =
      let (one, k') =
        start-IsOf u (new e q no_txs no_indices from_str to_string fresh script files).2
          (new e q no_txs no_indices from_str to_string fresh script files).0
          (new-Later e q no_txs no_indices from_str to_string parsed u fresh files k script) in
      (one, kept_starts u later _ k')

  broken_starts :
      (later : List (Uuid × List Bool)) (files : Files e q)
      → IsBroken e q no_txs no_indices from_str to_string parsed files
      → All (λ r. r ≡ none) (starts e q no_txs no_indices from_str to_string later files)
  unfolding starts Ensures
  broken_starts [] files b = tt
  broken_starts ((fresh, script) ∷ later) files b =
      let (one, b') =
        start_fails (new e q no_txs no_indices from_str to_string fresh script files).2
          (new e q no_txs no_indices from_str to_string fresh script files).0
          (new-Never e q no_txs no_indices from_str to_string parsed fresh files b script) in
      (one, broken_starts later _ b')

  unfailing_new :
      (u v : Uuid) (files : Files e q)
      → IsKept e q no_txs no_indices from_str to_string parsed u files
      → (new e q no_txs no_indices from_str to_string v [] files).2 ≡ some u
  unfolding new open_masp open_fmd first_uuid execute resume ◌>>=◌
  unfailing_new u v files (file, text, rest, there, row, read) = elim (Option-cases files.masp) [
    | inl p ↦ rw (p, there, open_masp, open_fmd, row, first_uuid, read) refl
    | inr (m, p) ↦ rw (p, there, open_masp, open_fmd, row, first_uuid, read) refl
  ]

  -- Where all statements succeed, a host with its UUID starts with it.
  unfailing_starts :
      (u : Uuid) (others : List Uuid) (files : Files e q)
      → IsKept e q no_txs no_indices from_str to_string parsed u files
      → starts e q no_txs no_indices from_str to_string (map (λ v. (v, [])) others) files
        ≡ map (λ v. some u) others
  unfolding starts Ensures
  unfailing_starts u [] files k = refl
  unfailing_starts u (v ∷ others) files k =
      let done = unfailing_new u v files k in
      let kept : Later e q no_txs no_indices from_str to_string parsed u
          (new e q no_txs no_indices from_str to_string v [] files).0 (some u) =
        rw done at (new-Later e q no_txs no_indices from_str to_string parsed u v files k []) in
      rw
        (
          done,
          unfailing_starts u others (new e q no_txs no_indices from_str to_string v [] files).0
              kept.1,
        )
        refl

  -- If a start that finds no `fmd.db3` succeeds, it has the UUID that it drew; each later start
  -- fails or has the same UUID, whatever its statements do and whatever UUID it might draw; and
  -- later starts whose statements all succeed have it. A UUID that was printed is read back.
  pub starts_agree :
      (fresh u : Uuid) (script left : List Bool) (files after : Files e q)
      → files.fmd ≡ none
      → new e q no_txs no_indices from_str to_string fresh script files ≡ (after, left, some u)
      → (u ≡ fresh)
        × ((later : List (Uuid × List Bool))
            → All (IsOf u) (starts e q no_txs no_indices from_str to_string later after))
        × ((others : List Uuid)
            → starts e q no_txs no_indices from_str to_string (map (λ v. (v, [])) others) after
              ≡ map (λ v. some u) others)
  unfolding Ensures
  starts_agree fresh u script left files after absent run =
      let (same, kept) =
        rw run at
          (new-First e q no_txs no_indices from_str to_string parsed fresh files absent script) in
      (
        same,
        (λ later. kept_starts u later after kept),
        λ others. unfailing_starts u others after kept,
      )

  -- If a start that finds no `fmd.db3` fails with this file created, then every later start fails,
  -- whatever its statements do.
  pub failed_start-starts :
      (fresh : Uuid) (script left : List Bool) (files after : Files e q) (file : FmdFile e q)
      → files.fmd ≡ none
      → new e q no_txs no_indices from_str to_string fresh script files ≡ (after, left, none)
      → after.fmd ≡ some file
      → (later : List (Uuid × List Bool))
      → All (λ r. r ≡ none) (starts e q no_txs no_indices from_str to_string later after)
  unfolding Ensures
  failed_start-starts fresh script left files after file absent run created later =
      elim (rw run at
        (new-First e q no_txs no_indices from_str to_string parsed fresh files absent script)) [
          | inl gone ↦ absurd (cc (gone, created))
          | inr broken ↦ broken_starts later after broken
        ]
