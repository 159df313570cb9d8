-- ===== src/Database/Files/Restart.antt =====
-- The UUID of a host over its starts: what a start leaves in the files, and what later ones find.
use kassandra_service.Common.{
  ◌≡◌, ◌⊎◌, inl, inr, refl, ◌∙◌, Bool, true, false, List, [], ◌∷◌, Option, none, some,
}
use kassandra_service.External.{External}
use kassandra_service.Database.{Sql}
use kassandra_service.Database.Files.{
  MaspFile, FmdFile, Files, Attempt, resume, ◌>>=◌, execute, with_fmd, open_masp, first_uuid,
  open_fmd, new,
}
use Prim.Native.String.{String}

module _ {F : Type 0} where
  -- What an attempt leaves and gives, whatever its statements say.
  unfoldable pub Ensures : {A : Type 0} → Attempt F A → F → (F → Option A → Type 0) → Type 0
  Ensures m files R = (script : List Bool) → R (m script files).0 (m script files).2

  -- What holds behind the first part of an attempt.
  unfoldable Behind :
      {A B : Type 0} → (A → Attempt F B) → (F → Option B → Type 0) → F → Option A → Type 0
  unfolding Ensures
  Behind f R files none = R files none
  Behind f R files (some a) = Ensures (f a) files R

  resume-Ensures :
      {A B : Type 0} (f : A → Attempt F B) (R : F → Option B → Type 0)
      (r : F × List Bool × Option A)
      → Behind f R r.0 r.2
      → R (resume f r).0 (resume f r).2
  unfolding Behind Ensures resume
  resume-Ensures f R (files, script, none) h = h
  resume-Ensures f R (files, script, some a) h = h script

  bind-Ensures :
      {A B : Type 0} (m : Attempt F A) (f : A → Attempt F B) (files : F) (R : F → Option B → Type 0)
      → Ensures m files (Behind f R)
      → Ensures (m >>= f) files R
  unfolding Ensures Behind ◌>>=◌
  bind-Ensures m f files R h script = resume-Ensures f R (m script files) (h script)

  execute-Ensures :
      (change : F → F) (files : F) (R : F → Option (Unit {0}) → Type 0)
      → R files none
      → R (change files) (some tt)
      → Ensures (execute change) files R
  unfolding execute Ensures
  execute-Ensures change files R a b [] = b
  execute-Ensures change files R a b (true ∷ script) = b
  execute-Ensures change files R a b (false ∷ script) = a

  -- A statement, and the rest behind it.
  statement-Ensures :
      {B : Type 0} (change : F → F) (f : Unit {0} → Attempt F B) (files : F)
      (R : F → Option B → Type 0)
      → R files none
      → Ensures (f tt) (change files) R
      → Ensures (execute change >>= f) files R
  unfolding Behind
  statement-Ensures change f files R a b =
      bind-Ensures (execute change) f files R (execute-Ensures change files (Behind f R) a b)

module _ (e : External) (q : Sql e) (no_txs : q.Txs) (no_indices : q.Indices) {Uuid : Type 0}
    (from_str : String → Option Uuid) (to_string : Uuid → String)
    (parsed : (u : Uuid) → from_str (to_string u) ≡ some u) where
  -- The file is there, with a table whose first row is the UUID.
  abbrev pub IsKept : Uuid → Files e q → Type 0
  IsKept u files =
      (file : FmdFile e q) × (text : String) × (rest : List String) × (files.fmd ≡ some file)
      × (file.uuids ≡ some (text ∷ rest))
      × (from_str text ≡ some u)

  -- The file is there without a UUID.
  abbrev pub IsBroken : Files e q → Type 0
  IsBroken files =
      (file : FmdFile e q) × (files.fmd ≡ some file)
      × ((file.uuids ≡ none) ⊎ (file.uuids ≡ some []))

  -- Behind a start where there was no file.
  abbrev pub First : Uuid → Files e q → Option Uuid → Type 0
  First fresh files none = (files.fmd ≡ none) ⊎ IsBroken files
  First fresh files (some u) = (u ≡ fresh) × IsKept u files

  -- Behind a start with a file that has its UUID.
  abbrev pub Later : Uuid → Files e q → Option Uuid → Type 0
  Later u files none = IsKept u files
  Later u files (some v) = (v ≡ u) × IsKept u files

  -- Behind a start with a file that has none.
  abbrev pub Never : Files e q → Option Uuid → Type 0
  Never files none = IsBroken files
  Never files (some v) = ⊥

  -- `open_masp` leaves the other file.
  open_masp-fmd :
      (file : Option (MaspFile e q)) (files : Files e q)
      → Ensures (open_masp e q no_txs no_indices file) files (λ after r. after.fmd ≡ files.fmd)
  unfolding open_masp
  open_masp-fmd none files =
      statement-Ensures _ _ files (λ after r. after.fmd ≡ files.fmd) refl
        (execute-Ensures _ _ (λ after r. after.fmd ≡ files.fmd) refl refl)
  open_masp-fmd (some file) files = execute-Ensures _ _ (λ after r. after.fmd ≡ files.fmd) refl refl

  open_fmd-First :
      (fresh : Uuid) (files : Files e q)
      → files.fmd ≡ none
      → Ensures (open_fmd e q no_txs no_indices from_str to_string fresh none) files (First fresh)
  unfolding open_fmd with_fmd Ensures
  open_fmd-First fresh files absent = statement-Ensures _ _ _ (First fresh) (inl absent) (
      statement-Ensures _ _ _ (First fresh) (inr (_, refl, inl refl)) (
        statement-Ensures _ _ _ (First fresh) (inr (_, refl, inl refl)) (
          statement-Ensures _ _ _ (First fresh) (inr (_, refl, inr refl))
            (λ script. (refl, (_, to_string fresh, [], refl, refl, parsed fresh))))))

  open_fmd-Later :
      (u fresh : Uuid) (file : FmdFile e q) (text : String) (rest : List String) (files : Files e q)
      → files.fmd ≡ some file
      → file.uuids ≡ some (text ∷ rest)
      → from_str text ≡ some u
      → Ensures
          (open_fmd e q no_txs no_indices from_str to_string fresh (some file))
          files
          (Later u)
  unfolding open_fmd first_uuid Ensures
  open_fmd-Later u fresh file text rest files there row read =
      let kept : IsKept u files = (file, text, rest, there, row, read) in
      statement-Ensures _ _ files (Later u) kept (
        statement-Ensures _ _ files (Later u) kept
          (rw (row, first_uuid, read) (λ script. (refl, kept))))

  open_fmd-Never :
      (fresh : Uuid) (file : FmdFile e q) (files : Files e q)
      → files.fmd ≡ some file
      → (file.uuids ≡ none) ⊎ (file.uuids ≡ some [])
      → Ensures (open_fmd e q no_txs no_indices from_str to_string fresh (some file)) files Never
  unfolding open_fmd first_uuid Ensures
  open_fmd-Never fresh file files there empty =
      let broken : IsBroken files = (file, there, empty) in
      statement-Ensures _ _ files Never broken (
        statement-Ensures _ _ files Never broken (elim empty [
          | inl p ↦ rw (p, first_uuid) (λ script. broken)
          | inr p ↦ rw (p, first_uuid) (λ script. broken)
        ]))

  -- A whole start, from what it does behind `open_masp`.
  new-Ensures :
      (fresh : Uuid) (files : Files e q) (R : Files e q → Option Uuid → Type 0)
      → ((after : Files e q) → after.fmd ≡ files.fmd → R after none)
      → ((after : Files e q)
          → after.fmd ≡ files.fmd
          → Ensures (open_fmd e q no_txs no_indices from_str to_string fresh files.fmd) after R)
      → Ensures (new e q no_txs no_indices from_str to_string fresh) files R
  unfolding new Ensures Behind
  new-Ensures fresh files R stopped goes script =
      bind-Ensures (open_masp e q no_txs no_indices files.masp)
        (λ opened. open_fmd e q no_txs no_indices from_str to_string fresh files.fmd) files R
        (λ s.
          through (open_masp e q no_txs no_indices files.masp s files).2 _
            (open_masp-fmd files.masp files s))
        script
    where
      through :
          (r : Option (Unit {0})) (after : Files e q)
          → after.fmd ≡ files.fmd
          → Behind
              (λ opened. open_fmd e q no_txs no_indices from_str to_string fresh files.fmd)
              R
              after
              r
      through none after same = stopped after same
      through (some opened) after same = goes after same

  pub new-First :
      (fresh : Uuid) (files : Files e q)
      → files.fmd ≡ none
      → Ensures (new e q no_txs no_indices from_str to_string fresh) files (First fresh)
  new-First fresh files absent =
      new-Ensures fresh files (First fresh) (λ after same. inl (same ∙ absent))
        (λ after same. rw absent (open_fmd-First fresh after (same ∙ absent)))

  pub new-Later :
      (u fresh : Uuid) (files : Files e q)
      → IsKept u files
      → Ensures (new e q no_txs no_indices from_str to_string fresh) files (Later u)
  new-Later u fresh files (file, text, rest, there, row, read) =
      new-Ensures fresh files (Later u) (λ after same. (file, text, rest, same ∙ there, row, read))
        (λ after same.
          rw there (open_fmd-Later u fresh file text rest after (same ∙ there) row read))

  pub new-Never :
      (fresh : Uuid) (files : Files e q)
      → IsBroken files
      → Ensures (new e q no_txs no_indices from_str to_string fresh) files Never
  new-Never fresh files (file, there, empty) =
      new-Ensures fresh files Never (λ after same. (file, same ∙ there, empty))
        (λ after same. rw there (open_fmd-Never fresh file after (same ∙ there) empty))
