-- ===== src/Fetcher/Progress.antt =====
-- The jobs under way and the messages that they send, in any order: what is fetched and what is
-- still to fetch.
use kassandra_service.Common.{
  ℕ, ◌+◌, ◌^◌, ◌≤◌, ◌<◌, ◌≡◌, refl, ◌∙◌, Bool, false, ◌&&◌, List, [], ◌∷◌, ◌++◌, Option, none, some,
  leb, ok, arith, inl, inr, All, All-append, Outcome-cases,
}
use mathlib.Core.List.{append-nil}
use kassandra_service.Ranges.{first, insert}
use kassandra_service.Ranges.Cover.{IsRanges, Spaced, covers}
use kassandra_service.Ranges.Ends.{IsNoUpper}
use kassandra_service.Ranges.Insert.{insert-covers}
use kassandra_service.Ranges.Left.{bit, load}
use kassandra_service.Fetcher.Plan.{load-append}
use kassandra_service.Fetcher.{
  NoteStore, Fetcher, fetched, task_error, normal, handle_fetched, extend,
}

-- An end that is not covered is no upper end.
IsNoUpper-covers :
    (lo : ℕ) (l : List ℕ) (h : ℕ) → Spaced 1 lo l → covers l h ≡ false → IsNoUpper h l
unfolding covers
IsNoUpper-covers lo [] h s c = tt
IsNoUpper-covers lo (a ∷ []) h s c = tt
IsNoUpper-covers lo (a ∷ b ∷ r) h (x, y, z, s) c =
    (ground arith, IsNoUpper-covers (b + 1 + 1) r h s (ground arith))

-- A job whose heights are not fetched is inserted without a panic, and the heights that it held
-- are then fetched.
pub insert_job :
    (goal : ℕ → Bool) (l : List ℕ) (from to : ℕ) (rest : ℕ → ℕ)
    → IsRanges l
    → (1 ≤ from) × (from ≤ to) × (to + 1 < 2 ^ 64)
    → ((h : ℕ) → bit (covers l h) + (bit (leb from h && leb h to) + rest h) ≡ bit (goal h))
    → (r : List ℕ) × (insert l from to ≡ ok r)
      × IsRanges r
      × ((h : ℕ) → bit (covers r h) + rest h ≡ bit (goal h))
insert_job goal l from to rest ranges job count =
    let free : covers l to ≡ false = ground (arith, count to, job) in
    let (r, e, s, c) =
      insert-covers l from to ranges job.1 (omega arith) (IsNoUpper-covers 0 l to ranges free) in
    (r, e, s, λ h. ground (arith, count h, c h))

module _ (n : NoteStore) where
  -- The fetcher, and the ranges of the tasks that have not been answered.
  pub record Sync : Type 0 where
    pub fetcher : Fetcher n
    pub pending : List (ℕ × ℕ)

  abbrev pub respawned : Option (ℕ × ℕ) → List (ℕ × ℕ)
  respawned none = []
  respawned (some job) = job ∷ []

  -- Some task is answered, with its notes or with an error, and the fetcher handles the message.
  pub data Step (s t : Sync) : Type 0 where
    fetches :
        (front back : List (ℕ × ℕ)) (from to : ℕ) (items : List n.Entry) (job : Option (ℕ × ℕ))
        → s.pending ≡ front ++ (from, to) ∷ back
        → handle_fetched n s.fetcher (fetched from to items) ≡ ok (t.fetcher, job)
        → t.pending ≡ (front ++ back) ++ respawned job
        → Step s t
    fails :
        (front back : List (ℕ × ℕ)) (from to : ℕ) (job : Option (ℕ × ℕ))
        → s.pending ≡ front ++ (from, to) ∷ back
        → handle_fetched n s.fetcher (task_error from to) ≡ ok (t.fetcher, job)
        → t.pending ≡ (front ++ back) ++ respawned job
        → Step s t

  pub data Steps (s : Sync) : Sync → Type 0 where
    here : Steps s s
    next : {t u : Sync} → Steps s t → Step t u → Steps s u

  abbrev pub IsJob : ℕ × ℕ → Type 0
  IsJob (from, to) = (1 ≤ from) × (from ≤ to) × (to + 1 < 2 ^ 64)

  -- Each height of the goal is fetched or in one pending job, never both, and no other height is.
  pub record IsAccounted (goal : ℕ → Bool) (s : Sync) : Type 0 where
    pub ranges : IsRanges s.fetcher.fetched
    pub jobs : All IsJob s.pending
    pub accounts : (h : ℕ) → bit (covers s.fetcher.fetched h) + load s.pending h ≡ bit (goal h)
    pub running : s.fetcher.state ≡ normal

  pub load-middle :
      (front back : List (ℕ × ℕ)) (from to h : ℕ)
      → load (front ++ (from, to) ∷ back) h ≡ bit (leb from h && leb h to) + load (front ++ back) h
  load-middle front back from to h =
      omega (arith, load-append front ((from, to) ∷ back) h, load-append front back h)

  pub All-middle :
      (front back : List (ℕ × ℕ)) (job : ℕ × ℕ)
      → All IsJob (front ++ job ∷ back)
      → IsJob job × All IsJob (front ++ back)
  All-middle [] back job a = a
  All-middle (x ∷ front) back job a = let (j, b) = All-middle front back job a.1 in (j, (a.0, b))

  -- The ranges after a job's insertion.
  after_job :
      (goal : ℕ → Bool) (s : Sync) (front back : List (ℕ × ℕ)) (from to : ℕ)
      → IsAccounted goal s
      → s.pending ≡ front ++ (from, to) ∷ back
      → (r : List ℕ) × (insert s.fetcher.fetched from to ≡ ok r)
        × IsRanges r
        × ((h : ℕ) → bit (covers r h) + load (front ++ back) h ≡ bit (goal h))
  after_job goal s front back from to a p =
      insert_job goal s.fetcher.fetched from to (load (front ++ back)) a.ranges
        (All-middle front back (from, to) (rw p at a.jobs)).0
        (λ h. omega (arith, rw p at (a.accounts h), load-middle front back from to h))

  pub handled :
      (f g : Fetcher n) (from to : ℕ) (items : List n.Entry) (r : List ℕ) (job : Option (ℕ × ℕ))
      → insert f.fetched from to ≡ ok r
      → handle_fetched n f (fetched from to items) ≡ ok (g, job)
      → (g.fetched ≡ r) × (g.state ≡ f.state) × (job ≡ none)
  unfolding handle_fetched
  handled f g from to items r job e h = elim (Outcome-cases (first r)) [
    | inl p ↦ cc (rw (e, p) at h)
    | inr (x, p) ↦ elim (Outcome-cases (extend n f.conn items)) [
      | inl c ↦ cc (rw (e, p, c) at h)
      | inr (d, c) ↦ let q = rw (e, p, c) at h in ground arith
    ]
  ]

  refused :
      (f g : Fetcher n) (from to : ℕ) (job : Option (ℕ × ℕ))
      → f.state ≡ normal
      → handle_fetched n f (task_error from to) ≡ ok (g, job)
      → (g ≡ f) × (job ≡ some (from, to))
  unfolding handle_fetched
  refused f g from to job run h = let q = rw (run) at h in grind arith

  -- If each height of the goal is fetched or in just one pending job, and no other height is, in a
  -- fetcher that is not interrupted, then so it is after a message of any pending task, with its
  -- notes or with an error.
  pub Step-IsAccounted :
      (goal : ℕ → Bool) (s t : Sync) → Step s t → IsAccounted goal s → IsAccounted goal t
  Step-IsAccounted goal s t (fetches front back from to items job p h q) a =
      let (r, e, ranges, count) = after_job goal s front back from to a p in
      let (same, st, none_left) = handled s.fetcher t.fetcher from to items r job e h in
      let left : t.pending ≡ front ++ back = q ∙ rw none_left (append-nil (front ++ back)) in
      record {
        ranges = rw same ranges;
        jobs = rw left (All-middle front back (from, to) (rw p at a.jobs)).1;
        accounts = λ x. rw (same, left) (count x);
        running = st ∙ a.running;
      }
  Step-IsAccounted goal s t (fails front back from to job p h q) a =
      let (same, again) = refused s.fetcher t.fetcher from to job a.running h in
      let left : t.pending ≡ (front ++ back) ++ (from, to) ∷ [] = q ∙ rw again refl in
      let (j, rest) = All-middle front back (from, to) (rw p at a.jobs) in
      record {
        ranges = rw same a.ranges;
        jobs = rw left (All-append IsJob (front ++ back) ((from, to) ∷ []) rest (j, tt));
        accounts = λ x.
            rw (same, left)
              (omega (
                arith,
                rw p at (a.accounts x),
                load-middle front back from to x,
                load-append (front ++ back) ((from, to) ∷ []) x,
              ));
        running = rw same a.running;
      }

  pub Steps-IsAccounted :
      (goal : ℕ → Bool) (s t : Sync) → Steps s t → IsAccounted goal s → IsAccounted goal t
  Steps-IsAccounted goal s t here a = a
  Steps-IsAccounted goal s t (next w p) a =
      Step-IsAccounted goal _ t p (Steps-IsAccounted goal s _ w a)

  -- If at the start each height of the goal is fetched or in one pending job, and no other height
  -- is, then after any messages that leave no job pending, just the goal is fetched.
  pub Steps-done :
      (goal : ℕ → Bool) (s t : Sync)
      → IsAccounted goal s
      → Steps s t
      → t.pending ≡ []
      → (h : ℕ) → covers t.fetcher.fetched h ≡ goal h
  Steps-done goal s t a w none_left h =
      let count = rw none_left at ((Steps-IsAccounted goal s t w a).accounts h) in ground arith
