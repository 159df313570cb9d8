-- ===== src/Host/Detection/Matches.antt =====
-- What a key is shown in a round: the rows of its next height, out of those of all the heights that
-- the host looked up.
use kassandra_service.Common.{
  ℕ, ◌≤◌, ◌<◌, ◌^◌, ◌≡◌, ◌≢◌, ◌∙◌, inl, inr, refl, sym, ap, true, false, List, [], ◌∷◌, ◌++◌, ◌==◌,
  All, arith, ok, Outcome-cases, if◌then◌else◌, Bool-cases, value_unique, ==_iff,
}
use kassandra_service.External.{External}
use kassandra_service.Index.{Index}
use kassandra_service.IndexSet.{matches, detected}
use kassandra_service.IndexSet.Round.{Flags}
use kassandra_service.Database.{Sql, Db, get_height, synced_height}
use kassandra_service.Host.{flags_of}
use kassandra_service.Host.Detection.Heights.{among, IsIncreasing, absent-cons, IsIncreasing-absent}
use mathlib.Core.List.{append-nil}
use mathlib.Core.Path.{subst}

module _ (e : External) where
  open e use {DetectionKey}

  -- The transactions that a key takes, whatever their heights.
  unfoldable pub matching : DetectionKey → Flags e → List Index
  matching key [] = []
  matching key ((ix, flag) ∷ r) = if matches e key flag then ix ∷ matching key r else matching key r

  abbrev pub IsDated : ℕ → Flags e → Type 0
  IsDated h flags = All (λ r. r.0.height ≡ h) flags

  detected-dated :
      (key : DetectionKey) (h : ℕ) (flags : Flags e)
      → IsDated h flags
      → detected e key h flags ≡ matching key flags
  unfolding detected matching
  detected-dated key h [] d = refl
  detected-dated key h ((ix, flag) ∷ r) (d, ds) = ground (arith, detected-dated key h r ds)

  detected-undated :
      (key : DetectionKey) (h k : ℕ) (flags : Flags e)
      → h ≢ k
      → IsDated k flags
      → detected e key h flags ≡ []
  unfolding detected
  detected-undated key h k [] n d = refl
  detected-undated key h k ((ix, flag) ∷ r) n (d, ds) =
      ground (arith, detected-undated key h k r n ds)

  detected-append :
      (key : DetectionKey) (h : ℕ) (xs ys : Flags e)
      → detected e key h (xs ++ ys) ≡ detected e key h xs ++ detected e key h ys
  unfolding detected
  detected-append key h [] ys = refl
  detected-append key h ((ix, flag) ∷ r) ys = ground (arith, detected-append key h r ys)

  module _ (q : Sql e) where
    -- A view of the chain: each row stands at its own height, the rows of the heights that are
    -- announced are those of the chain, and these heights are machine words.
    pub record IsView (chain : ℕ → Flags e) (db : Db e q) : Type 0 where
      pub dated : (h : ℕ) (flags : Flags e) → get_height e q db h ≡ ok flags → IsDated h flags
      pub whole :
          (h : ℕ) (flags : Flags e)
          → h ≤ synced_height e q db
          → get_height e q db h ≡ ok flags
          → flags ≡ chain h
      pub word : synced_height e q db < 2 ^ 64

    module _ (chain : ℕ → Flags e) (db : Db e q) (view : IsView chain db) (key : DetectionKey)
        (h : ℕ) where
      -- Rows that were looked up, one height first.
      flags_of-parts :
          (x : ℕ) (hs : List ℕ) (flags : Flags e)
          → flags_of e q db (x ∷ hs) ≡ ok flags
          → (one : Flags e) × (rest : Flags e) × (get_height e q db x ≡ ok one)
            × (flags_of e q db hs ≡ ok rest)
            × (flags ≡ one ++ rest)
      unfolding flags_of
      flags_of-parts x hs flags f = elim (Outcome-cases (get_height e q db x)) [
        | inl p ↦ cc (rw p at f)
        | inr (one, p) ↦ elim (Outcome-cases (flags_of e q db hs)) [
          | inl r ↦ cc (rw (p, r) at f)
          | inr (rest, r) ↦ (one, rest, p, r, sym (value_unique (rw (p, r) at f)))
        ]
      ]

      detected-absent :
          (hs : List ℕ) (flags : Flags e)
          → among h hs ≡ false
          → flags_of e q db hs ≡ ok flags
          → detected e key h flags ≡ []
      unfolding flags_of detected
      detected-absent [] flags a f = rw (sym (value_unique f)) refl
      detected-absent (x ∷ hs) flags a f =
          let (one, rest, p, r, s) = flags_of-parts x hs flags f in
          let (n, b) = absent-cons h x hs a in
          ap (detected e key h) s
          ∙ detected-append key h one rest
          ∙ rw (detected-undated key h x one n (view.dated x one p), detected-absent hs rest b r)
              refl

      -- A key is shown the rows of its height, once.
      pub detected-flags_of :
          (hs : List ℕ) (flags : Flags e)
          → among h hs ≡ true
          → IsIncreasing hs
          → flags_of e q db hs ≡ ok flags
          → (one : Flags e) × (get_height e q db h ≡ ok one)
            × (detected e key h flags ≡ matching key one)
      detected-flags_of [] flags a i f = cc a
      detected-flags_of (x ∷ hs) flags a i f =
          let (one, rest, p, r, s) = flags_of-parts x hs flags f in
          elim (Bool-cases (h == x)) [
            | inl same ↦
                let y : h ≡ x = (==_iff h x).0 same in
                let gone : among h hs ≡ false = IsIncreasing-absent h x hs (omega arith) i.0 in
                (
                  one,
                  ap (get_height e q db) y ∙ p,
                  ap (detected e key h) s
                      ∙ detected-append key h one rest
                      ∙ rw (detected-absent hs rest gone r) (
                          append-nil (detected e key h one)
                          ∙ detected-dated key h one
                              (subst (λ k. IsDated k one) (sym y) (view.dated x one p))),
                )
            | inr other ↦
                let (found, g, m) = detected-flags_of hs rest (rw other at a) i.1 r in
                let n : h ≢ x = λ y. cc (rw ((==_iff h x).1 y) at other) in
                (
                  found,
                  g,
                  ap (detected e key h) s
                      ∙ detected-append key h one rest
                      ∙ rw (detected-undated key h x one n (view.dated x one p)) m,
                )
          ]

    -- A view depends on the notes and on the height that is announced.
    pub IsView-same :
        (chain : ℕ → Flags e) (db db' : Db e q)
        → db'.masp ≡ db.masp
        → db'.synced_to ≡ db.synced_to
        → IsView chain db
        → IsView chain db'
    unfolding get_height synced_height
    IsView-same chain db db' m s view = record {
      dated = λ h flags g. view.dated h flags (rw m at g);
      whole = λ h flags l g. view.whole h flags (rw s at l) (rw m at g);
      word = rw s view.word;
    }
