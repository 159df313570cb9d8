-- ===== src/Database/Tables.antt =====
-- What a query for the indices of an owner finds behind an update.
use kassandra_service.Common.{
  ◌≡◌, refl, ◌∙◌, ap, sym, true, List, [], ◌∷◌, Option, some, ok, length, if◌then◌else◌, arith,
  Option-cases, inl, inr,
}
use kassandra_service.External.{External}
use kassandra_service.Messages.{EncryptedResponse}
use kassandra_service.Database.{Sql, IsKeyed, Db, replace_all, update_indices, fetch_indices}
use Prim.Native.String.{String}
use text.Mathlib.Text.{◌==◌ as str_eq}

-- The last of the responses that belongs to an owner, or else the one before them.
abbrev pub latest :
    List EncryptedResponse → String → Option EncryptedResponse → Option EncryptedResponse
latest [] user before = before
latest (r ∷ rs) user before = latest rs user (if str_eq r.owner user then some r else before)

module _ (e : External) (q : Sql e) (k : IsKeyed e q) where
  select-replace_all :
      (rs : List EncryptedResponse) (t t' : q.Indices) (user : String)
      → replace_all e q t rs ≡ (t', true)
      → q.select_owner t' user ≡ latest rs user (q.select_owner t user)
  unfolding replace_all
  select-replace_all [] t t' user h = ap (λ x. q.select_owner x user) (sym (ap (λ p. p.0) h))
  select-replace_all (r ∷ rs) t t' user h = elim (Option-cases (q.replace t r)) [
    | inl failed ↦ cc (rw (replace_all, failed) at h)
    | inr (u, done) ↦
        select-replace_all rs u t' user (rw (replace_all, done) at h)
        ∙ ap (latest rs user) (k.select-replace t u r user done)
  ]

  -- After an update that succeeds, an owner with a row, its nonce of 12 bytes, is answered with the
  -- last response of the update that is its own, or with its former row if there is none.
  pub fetch-update_indices :
      (db db' : Db e q) (rs : List EncryptedResponse) (user : String) (r : EncryptedResponse)
      → update_indices e q db rs ≡ (db', true)
      → latest rs user (q.select_owner db.fmd user) ≡ some r
      → length r.nonce ≡ 12
      → fetch_indices e q db' user ≡ ok (some r)
  unfolding update_indices fetch_indices
  fetch-update_indices db db' rs user r h l n =
      let fmd : (replace_all e q db.fmd rs).0 ≡ db'.fmd = ap (λ p. p.0.fmd) h in
      let done : (replace_all e q db.fmd rs).1 ≡ true = ap (λ p. p.1) h in
      let row : q.select_owner db'.fmd user ≡ some r =
        select-replace_all rs db.fmd db'.fmd user (ground arith) ∙ l in
      rw (fetch_indices, row, n) refl
