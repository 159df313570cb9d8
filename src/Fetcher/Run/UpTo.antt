-- ===== src/Fetcher/Run/UpTo.antt =====
-- What is fetched after passes of `Fetcher::run`, and over a restart.
use kassandra_service.Common.{
  ℕ, ◌+◌, ◌^◌, ◌<◌, ◌≤◌, ◌≡◌, ◌⊎◌, inl, inr, refl, sym, ap, ◌∙◌, true, false, List, [], ◌∷◌, ◌++◌,
  Option, zero, suc, some, some_unique, ok, ltb, leb, ◌||◌, ◌&&◌, if◌then◌else◌, All, arith,
  Bool-cases,
}
use mathlib.Core.Path.{subst}
use mathlib.Core.List.{append-nil, append_assoc}
use kassandra_service.Ranges.{FetchedRanges, first}
use kassandra_service.Ranges.Cover.{IsRanges, covers}
use kassandra_service.Ranges.First.{first_ok, first_behind, first_uncovered}
use kassandra_service.Ranges.Unique.{covers_unique}
use kassandra_service.Ranges.Left.{load, bit}
use kassandra_service.Fetcher.Plan.{load-append}
use kassandra_service.Fetcher.{NoteStore, batch_size, Fetcher, normal}
use kassandra_service.Fetcher.Tasks.{
  System, ControlFlow, finished, proceed, break, looping, start, Moves,
}
use kassandra_service.Fetcher.Tasks.Tally.{sent}
use kassandra_service.Fetcher.Tasks.Settled.{caught}
use kassandra_service.Fetcher.Tasks.Finish.{start-Moves-IsTallied}
use kassandra_service.Fetcher.Run.{
  Passes, begin, caught_up, synced_up, Stopped, between, within_sync, unfinished, new, save,
}

-- The greatest of the tips and the block up to which all was fetched before.
abbrev pub greatest : ℕ → List ℕ → ℕ
greatest m [] = m
greatest m (x ∷ xs) = if ltb x (greatest m xs) then greatest m xs else x

greatest-cases :
    (m x : ℕ) (xs : List ℕ)
    → ((x < greatest m xs) × (greatest m (x ∷ xs) ≡ greatest m xs))
      ⊎ ((greatest m xs ≤ x) × (greatest m (x ∷ xs) ≡ x))
greatest-cases m x xs = elim (Bool-cases (ltb x (greatest m xs))) [
  | inl p ↦ inl (ground arith)
  | inr p ↦ inr (ground arith)
]

-- Ranges in order that cover no block but those up to `m`, and each of these that is in none of the
-- jobs that were lost.
abbrev pub IsUpTo : ℕ → List (ℕ × ℕ) → FetchedRanges → Type 0
IsUpTo m lost l =
    IsRanges l
    × ((h : ℕ) → covers l h ≡ true → (1 ≤ h) × (h ≤ m))
    × ((h : ℕ) → 1 ≤ h → h ≤ m → (covers l h ≡ true) ⊎ (1 ≤ load lost h))

IsUpTo-more :
    (m : ℕ) (more lost : List (ℕ × ℕ)) (l : FetchedRanges)
    → IsUpTo m lost l
    → IsUpTo m (more ++ lost) l
IsUpTo-more m more lost l (r, low, full) = (
  r,
  low,
  λ h one le. elim (full h one le) [
    | inl c ↦ inl c
    | inr c ↦ inr (omega (arith, c, load-append more lost h))
  ],
)

module _ (m from latest x : ℕ) (gone lost : List (ℕ × ℕ)) (l l' : FetchedRanges)
    (done : IsUpTo m lost l) (one : 1 ≤ from) (next : from ≤ m + 1)
    (top : ((latest < m) × (x ≡ m)) ⊎ ((m ≤ latest) × (x ≡ latest)))
    (counts : (h : ℕ)
      → bit (covers l' h) + load gone h ≡ bit (covers l h || (leb from h && leb h latest))) where
  sync_low : (h : ℕ) → covers l' h ≡ true → (1 ≤ h) × (h ≤ x)
  sync_low h c = elim (Bool-cases (covers l h)) [
    | inl p ↦
        let (a, b) = done.1 h p in
        elim top [ inl (u, v) ↦ (a, omega arith) | inr (u, v) ↦ (a, omega arith) ]
    | inr p ↦ elim top [
      | inl (u, v) ↦ (ground (arith, counts h), ground (arith, counts h))
      | inr (u, v) ↦ (ground (arith, counts h), ground (arith, counts h))
    ]
  ]

  missed : (h : ℕ) → 1 ≤ h → h ≤ x → covers l' h ≡ false → 1 ≤ load gone h + load lost h
  missed h a b c = elim (Bool-cases (leb h m)) [
    | inl p ↦ elim (done.2 h a (ground arith)) [
      | inl q ↦ ground (arith, counts h)
      | inr q ↦ omega (arith, q)
    ]
    | inr p ↦ elim top [
      | inl (u, v) ↦ absurd (ground arith)
      | inr (u, v) ↦ ground (arith, counts h)
    ]
  ]

  -- After a call of `sync` from a height that is at most the one behind all that is covered, up to a
  -- tip, with some jobs not done.
  synced-IsUpTo : IsRanges l' → IsUpTo x (gone ++ lost) l'
  synced-IsUpTo r = (
    r,
    sync_low,
    λ h a b. elim (Bool-cases (covers l' h)) [
      | inl c ↦ inl c
      | inr c ↦ inr (omega (arith, missed h a b c, load-append gone lost h))
    ],
  )

module _ (n : NoteStore) where
  -- What is known of the fetcher between two passes.
  abbrev Settled : ℕ → List (ℕ × ℕ) → Fetcher n → Type 0
  Settled m lost g =
      IsUpTo m lost g.fetched
      × (g.state ≡ normal)
      × (g.interrupt_flag ≡ false)
      × (m + batch_size < 2 ^ 64)

  -- The height from which the next call of `sync` goes on.
  next_first :
      (g : Fetcher n) (m : ℕ) (lost : List (ℕ × ℕ))
      → Settled m lost g
      → (from : ℕ) × (first g.fetched ≡ ok from) × (1 ≤ from) × (from ≤ m + 1)
  next_first g m lost ((r, low, full), run, flag, few) =
      let (from, e) = first_ok g.fetched r (λ h c. omega (arith, (low h c).1)) in
      (
        from,
        e,
        (first_uncovered g.fetched from r e).0,
        first_behind g.fetched from m r e (λ h c. (low h c).1),
      )

  -- A call of `sync` that ended, with the jobs that are not done.
  ended-IsUpTo :
      (g : Fetcher n) (m latest x : ℕ) (lost : List (ℕ × ℕ)) (s t : System n) (end : ControlFlow)
      → Settled m lost g
      → latest + batch_size < 2 ^ 64
      → ((latest < m) × (x ≡ m)) ⊎ ((m ≤ latest) × (x ≡ latest))
      → start n g (some latest) ≡ ok (looping s)
      → s.count < 2 ^ 64
      → Moves n s t
      → t.at ≡ finished end
      → IsUpTo x (unfinished n t ++ lost) t.fetcher.fetched
        × (t.shutdown ≡ false → (t.fetcher.interrupt_flag ≡ false) × (t.fetcher.state ≡ normal))
        × (end ≡ proceed → unfinished n t ≡ t.panicked)
  ended-IsUpTo g m latest x lost s t end settled small top e c moves at_end =
      let (from, f, one, next) = next_first g m lost settled in
      let (done, run, flag, few) = settled in
      let a = start-Moves-IsTallied n g s t from latest done.0 run flag f small e c moves in
      (
        synced-IsUpTo m from latest x (unfinished n t) lost g.fetched t.fetcher.fetched done one
            next top
            (λ h. omega (
              arith,
              rw at_end at (a.accounts h),
              load-append t.running (sent n t.channel ++ (t.panicked ++ t.stopped)) h,
              load-append (sent n t.channel) (t.panicked ++ t.stopped) h,
              load-append t.panicked t.stopped h,
            ))
            a.ranges,
        λ quiet. let (clear, runs, none_stopped) = a.calm quiet in (clear, runs),
        λ p.
            let (idle, empty, none_stopped) = rw (at_end, p) at a.rests in
            rw (idle, empty, none_stopped) (append-nil t.panicked),
      )

  passes_lem :
      (f g : Fetcher n) (m : ℕ) (tips : List ℕ) (before lost : List (ℕ × ℕ))
      → Settled m before f
      → All (λ latest. latest + batch_size < 2 ^ 64) tips
      → Passes n f tips lost g
      → Settled (greatest m tips) (lost ++ before) g
  passes_lem f g m tips before lost settled small begin = settled
  passes_lem f g m tips before lost settled small (caught_up {tips = ts} latest w e) =
      let past = passes_lem f g m ts before lost settled small.1 w in
      let (from, p, one, next) = next_first g (greatest m ts) (lost ++ before) past in
      let le = caught n g from latest p e in
      let top : greatest m (latest ∷ ts) ≡ greatest m ts = elim (greatest-cases m latest ts) [
        | inl (u, v) ↦ v
        | inr (u, v) ↦ omega arith
      ] in
      rw top past
  passes_lem f g m tips before lost settled small
        (synced_up {tips = ts} {lost = ls} {g = h} latest s t w e c moves end quiet) =
      let past = passes_lem f h m ts before ls settled small.1 w in
      let (done, calm, jobs) =
        ended-IsUpTo h (greatest m ts) latest (greatest m (latest ∷ ts)) (ls ++ before) s t proceed
          past small.0 (greatest-cases m latest ts) e c moves end in
      let (clear, runs) = calm quiet in
      (
        subst (λ z. IsUpTo (greatest m (latest ∷ ts)) z t.fetcher.fetched)
            (ap (λ z. z ++ (ls ++ before)) (jobs refl) ∙ sym (append_assoc t.panicked ls before))
            done,
        runs,
        clear,
        elim (greatest-cases m latest ts) [ inl (u, v) ↦ rw v past.3 | inr (u, v) ↦ rw v small.0 ],
      )

  -- Whatever tasks panic: a fetcher that is not interrupted, and has fetched the blocks up to some
  -- height less those in some jobs, and no others, has after any passes of the loop of `run` the
  -- blocks up to the greatest tip that it has seen, or to that height if it is greater, less some of
  -- those in these jobs and in the jobs of tasks that panicked, and no others: if the height and the
  -- tips are more than 30 blocks below 2 ^ 64, and fewer than 2 ^ 64 tasks are alive at a time.
  pub Passes-IsUpTo :
      (f g : Fetcher n) (m : ℕ) (tips : List ℕ) (before lost : List (ℕ × ℕ))
      → IsUpTo m before f.fetched
      → m + batch_size < 2 ^ 64
      → f.state ≡ normal
      → f.interrupt_flag ≡ false
      → All (λ latest. latest + batch_size < 2 ^ 64) tips
      → Passes n f tips lost g
      → IsUpTo (greatest m tips) (lost ++ before) g.fetched
  Passes-IsUpTo f g m tips before lost done low run flag small w =
      (passes_lem f g m tips before lost (done, run, flag, low) small w).0

  stopped_lem :
      (f g : Fetcher n) (m : ℕ) (tips : List ℕ) (before lost : List (ℕ × ℕ))
      → Settled m before f
      → All (λ latest. latest + batch_size < 2 ^ 64) tips
      → Stopped n f tips lost g
      → IsUpTo (greatest m tips) (lost ++ before) g.fetched
        × (greatest m tips + batch_size < 2 ^ 64)
  stopped_lem f g m tips before lost settled small (between w) =
      let past = passes_lem f g m tips before lost settled small w in (past.0, past.3)
  stopped_lem f g m tips before lost settled small
        (within_sync {tips = ts} {lost = ls} {g = h} latest s t w e c moves end) =
      let past = passes_lem f h m ts before ls settled small.1 w in
      let (done, calm, jobs) =
        ended-IsUpTo h (greatest m ts) latest (greatest m (latest ∷ ts)) (ls ++ before) s t break
          past small.0 (greatest-cases m latest ts) e c moves end in
      (
        subst (λ z. IsUpTo (greatest m (latest ∷ ts)) z t.fetcher.fetched)
            (sym (append_assoc (unfinished n t) ls before)) done,
        elim (greatest-cases m latest ts) [ inl (u, v) ↦ rw v past.3 | inr (u, v) ↦ rw v small.0 ],
      )

  -- Over a restart: if Borsh reads back the ranges that it writes, a fetcher as in `Passes-IsUpTo`
  -- whose `run` ends between two calls of `sync`, or in one by the shutdown signal, is saved, and is
  -- made again from the file, has after any more passes the blocks up to the greatest tip that either
  -- has seen, less some of those in the jobs that were not done when it was stopped and in those of
  -- tasks that panicked, and no others; under the conditions of `Passes-IsUpTo`.
  pub save-Stopped-IsUpTo :
      {Bytes : Type 0}
      → (try_from_slice : Bytes → Option FetchedRanges) (serialize_to_vec : FetchedRanges → Bytes)
      → ((l : FetchedRanges) → try_from_slice (serialize_to_vec l) ≡ some l)
      → (f g h k : Fetcher n) (m : ℕ) (tips later : List ℕ) (before lost lost' : List (ℕ × ℕ))
        (conn : n.Txs) (max_wal_size : ℕ)
      → IsUpTo m before f.fetched
      → m + batch_size < 2 ^ 64
      → f.state ≡ normal
      → f.interrupt_flag ≡ false
      → All (λ latest. latest + batch_size < 2 ^ 64) tips
      → Stopped n f tips lost g
      → new n try_from_slice (some (save n serialize_to_vec g)) conn max_wal_size ≡ some h
      → All (λ latest. latest + batch_size < 2 ^ 64) later
      → Passes n h later lost' k
      → IsUpTo (greatest (greatest m tips) later) (lost' ++ (lost ++ before)) k.fetched
  unfolding new save
  save-Stopped-IsUpTo try_from_slice to_vec back f g h k m tips later before lost lost' conn
        max_wal_size done low run flag small w made small' w' =
      let (past, few) = stopped_lem f g m tips before lost (done, run, flag, low) small w in
      let made_of = some_unique (rw (back g.fetched) at made) in
      Passes-IsUpTo h k (greatest m tips) later (lost ++ before) lost'
        (subst (IsUpTo (greatest m tips) (lost ++ before)) (ap (λ x. x.fetched) made_of) past) few
        (sym (ap (λ x. x.state) made_of)) (sym (ap (λ x. x.interrupt_flag) made_of)) small' w'

-- The ranges of all blocks up to one.
abbrev pub up_to : ℕ → FetchedRanges
up_to zero = []
up_to (suc m) = 1 ∷ suc m ∷ []

up_to-IsRanges : (m : ℕ) → m < 2 ^ 64 → IsRanges (up_to m)
up_to-IsRanges zero h = tt
up_to-IsRanges (suc m) h = (omega arith, omega arith, omega arith, tt)

covers-up_to : (m h : ℕ) → covers (up_to m) h ≡ leb 1 h && leb h m
unfolding covers
covers-up_to zero h = ground arith
covers-up_to (suc m) h = ground arith

up_to-IsUpTo : (m : ℕ) → m < 2 ^ 64 → IsUpTo m [] (up_to m)
up_to-IsUpTo m b = (
  up_to-IsRanges m b,
  λ h c. (ground (arith, covers-up_to m h), ground (arith, covers-up_to m h)),
  λ h one le. inl (ground (arith, covers-up_to m h)),
)

IsUpTo-up_to : (m : ℕ) (l : FetchedRanges) → m < 2 ^ 64 → IsUpTo m [] l → l ≡ up_to m
IsUpTo-up_to m l b (r, low, full) = covers_unique 0 l (up_to m) r (up_to-IsRanges m b) (λ h.
    elim (Bool-cases (covers l h)) [
      | inl c ↦ let (one, le) = low h c in ground (arith, covers-up_to m h)
      | inr c ↦ elim (Bool-cases (leb 1 h && leb h m)) [
        | inr q ↦ ground (arith, covers-up_to m h)
        | inl q ↦ elim (full h (ground arith) (ground arith)) [
          | inl c' ↦ cc
          | inr none_left ↦ absurd (omega (arith, none_left))
        ]
      ]
    ])

module _ (n : NoteStore) where
  -- A fetcher that begins with all blocks up to some height fetched, or none, and is not
  -- interrupted, has after any passes of the loop of `run` in which no task panics all blocks from
  -- the first to the greatest tip that it has seen, or to that height if it is greater, as one range,
  -- and no other: if the height and the tips are more than 30 blocks below 2 ^ 64, and fewer than
  -- 2 ^ 64 tasks are alive at a time.
  pub passes_up_to :
      (f g : Fetcher n) (m : ℕ) (tips : List ℕ)
      → f.fetched ≡ up_to m
      → m + batch_size < 2 ^ 64
      → f.state ≡ normal
      → f.interrupt_flag ≡ false
      → All (λ latest. latest + batch_size < 2 ^ 64) tips
      → Passes n f tips [] g
      → g.fetched ≡ up_to (greatest m tips)
  passes_up_to f g m tips same_first low run flag small w =
      let past =
        passes_lem n f g m tips [] [] (rw same_first (up_to-IsUpTo m (omega arith)), run, flag, low)
          small w in
      IsUpTo-up_to (greatest m tips) g.fetched (omega (arith, past.3)) past.0
