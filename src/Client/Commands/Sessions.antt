-- ===== src/Client/Commands/Sessions.antt =====
-- Which service a registration sends which detection key.
use kassandra_service.Common.{
  ℕ, ◌+◌, ◌-◌, ◌%◌, ◌^◌, ◌<◌, ◌≡◌, refl, sym, List, [], ◌∷◌, Option, some, ok, length, get_elem?,
  Outcome-cases, Option-cases, inl, inr, value_unique,
}
use kassandra_service.External.{External}
use kassandra_service.Messages.{Result, Result-cases, ClientMsg, ServerMsg}
use kassandra_service.Ratls.{FmdKeyRegistration}
use kassandra_service.Client.Config.{Service, Config, get_services, registrations}
use kassandra_service.Client.Config.Numbering.{IsConfig, zip, registrations_lem}
use kassandra_service.Client.Query.{Error}
use kassandra_service.Client.Commands.{Crates, expect, register_all, register_fmd_key}
use Prim.Native.String.{String}

module _ (e : External) (c : Crates e)
    (exchange : String → ClientMsg → Result (Result ServerMsg Error) Error)
    (session : String → FmdKeyRegistration e → Result (Unit {0}) Error) where
  -- Sessions with services, each with its key, up to the first that fails.
  unfoldable pub sessions : Option ℕ → List (Service × e.DetectionKey) → Result (Unit {0}) Error
  sessions birthday [] = Result.ok tt
  sessions birthday ((s, key) ∷ r) =
      elim (session s.url (record { fmd_key = key; enc_key = s.enc_key; birthday = birthday })) [
        | Result.err x ↦ Result.err x
        | Result.ok done ↦ sessions birthday r
      ]

  register_all-registrations :
      (keys : List e.DetectionKey) (birthday : Option ℕ) (ss : List Service)
      (pairs : List (Service × e.DetectionKey))
      → registrations keys ss ≡ ok pairs
      → register_all e c exchange session keys birthday ss ≡ ok (sessions birthday pairs)
  unfolding registrations register_all sessions
  register_all-registrations keys birthday [] pairs r = rw (sym (value_unique r)) refl
  register_all-registrations keys birthday (s ∷ ss) pairs r =
      elim (Option-cases (get_elem? keys ((s.index + 2 ^ 64 - 1) % 2 ^ 64))) [
        | inl n ↦ cc (rw (registrations, n) at r)
        | inr (key, n) ↦ elim (Outcome-cases (registrations keys ss)) [
          | inl p ↦ cc (rw (registrations, n, p) at r)
          | inr (rest, p) ↦
              let own : (s, key) ∷ rest ≡ pairs = value_unique (rw (registrations, n, p) at r) in
              let later = register_all-registrations keys birthday ss rest p in
              elim (Result-cases (
                session s.url
                  (record { fmd_key = key; enc_key = s.enc_key; birthday = birthday }))) [
                    | inl (done, d) ↦ rw (register_all, n, d, sym own, sessions, d) later
                    | inr (x, d) ↦ rw (register_all, n, d, sym own, sessions, d) refl
                  ]
        ]
      ]

  -- Where the services of a key are numbered from 1 on, and the scheme extracts a detection key for each of them, fewer than
  -- 2 ^ 64, the registration does not panic: it holds a session with each service in turn, with the detection key of
  -- its place and its own encryption key, up to the first session that fails, whose error it gives.
  pub register_fmd_key-sessions :
      (config : Config) (key_hash : String) (fmd_key : c.FmdSecretKey) (birthday : Option ℕ)
      (keys : List e.DetectionKey)
      → IsConfig config
      → c.multi_extract fmd_key (length (get_services config key_hash)) ≡ some keys
      → length keys ≡ length (get_services config key_hash)
      → length keys < 2 ^ 64
      → register_fmd_key e c exchange session config key_hash fmd_key birthday
        ≡ ok (sessions birthday (zip (get_services config key_hash) keys))
  unfolding register_fmd_key expect
  register_fmd_key-sessions config key_hash fmd_key birthday keys numbered extracted same small =
      rw (extracted, expect)
        (register_all-registrations keys birthday (get_services config key_hash) _
          (registrations_lem keys (get_services config key_hash) (numbered key_hash) same small))
