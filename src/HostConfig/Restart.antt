-- ===== src/HostConfig/Restart.antt =====
-- The configuration of the host lasts from one start to the next.
use kassandra_service.Common.{
  ◌≡◌, refl, Option, none, some, ok, Outcome-cases, Option-cases, some_unique, inl, inr,
  value_unique, ◌*◌,
}
use mathlib.Core.Path.{subst, ap}
use kassandra_service.HostConfig.{
  unwrap_or, enclave_address, listening_address, client_timeout, default_wal_size, Cli, Config,
  parsed, init, given_url, overwrite, load, load_or_init,
}
use Prim.Native.String.{String}

-- A start without arguments.
abbrev pub no_args : Cli
no_args = record {
  base_dir = none;
  enclave = none;
  listen = none;
  listen_timeout = none;
  indexer_url = none;
  max_wal_size = none;
}

unwrap_or_again {ℓ} :
    {A : Type ℓ} (o : Option A) (x : A) → unwrap_or o (unwrap_or o x) ≡ unwrap_or o x
unwrap_or_again none x = refl
unwrap_or_again (some y) x = refl

module _ (Url : Type 0) (from_str : String → Option Url) where
  given_url_again :
      (o : Option String) (x url : Url)
      → given_url Url from_str o x ≡ ok url
      → given_url Url from_str o url ≡ ok url
  unfolding given_url
  given_url_again none x url e = refl
  given_url_again (some idx) x url e = e

  overwrite-no_args : (c : Config Url from_str) → overwrite Url from_str c no_args ≡ ok c
  unfolding overwrite
  overwrite-no_args c = refl

  overwrite-overwrite :
      (c d : Config Url from_str) (cli : Cli)
      → overwrite Url from_str c cli ≡ ok d
      → overwrite Url from_str d cli ≡ ok d
  unfolding overwrite
  overwrite-overwrite c d cli e =
      elim (Outcome-cases (given_url Url from_str cli.indexer_url (c.db.indexer_url))) [
        | inl p ↦ cc (rw (p) at e)
        | inr (url, p) ↦
            subst (λ x. overwrite Url from_str x cli ≡ ok x) (value_unique (rw (p) at e))
              (rw
                (
                  given_url_again cli.indexer_url (c.db.indexer_url) url p,
                  unwrap_or_again cli.enclave c.enclave_url,
                  unwrap_or_again cli.listen c.listen_url,
                  unwrap_or_again cli.listen_timeout c.listen_timeout,
                  unwrap_or_again cli.max_wal_size (c.db.max_wal_size),
                )
                refl)
      ]

  overwrite-init :
      (d : Config Url from_str) (cli : Cli)
      → init Url from_str cli ≡ ok (some d)
      → overwrite Url from_str d cli ≡ ok d
  unfolding overwrite init
  overwrite-init d cli e = elim (Option-cases cli.indexer_url) [
    | inl p ↦ cc (rw (p) at e)
    | inr (ix_url, p) ↦ elim (Outcome-cases (parsed Url from_str ix_url)) [
      | inl q ↦ cc (rw (p, q) at e)
      | inr (url, q) ↦
          subst (λ x. overwrite Url from_str x cli ≡ ok x)
            (some_unique (value_unique (rw (p, q) at e)))
            (rw
              (
                p,
                q,
                unwrap_or_again cli.enclave enclave_address,
                unwrap_or_again cli.listen listening_address,
                unwrap_or_again cli.listen_timeout (client_timeout * 1000),
                unwrap_or_again cli.max_wal_size default_wal_size,
              )
              refl)
    ]
  ]

  module _ {Text : Type 0} (from_toml : Text → Option (Config Url from_str))
      (to_toml : Config Url from_str → Text) where
    -- What a start leaves: the file of its configuration, which its arguments do not change.
    load_or_init_inv :
        (file : Option Text) (cli : Cli) (c : Config Url from_str) (text : Text)
        → load_or_init Url from_str from_toml to_toml file cli ≡ ok (c, text)
        → (to_toml c ≡ text) × (overwrite Url from_str c cli ≡ ok c)
    unfolding load_or_init
    load_or_init_inv file cli c text e =
        elim (Option-cases (load Url from_str from_toml to_toml file)) [
          | inl p ↦ elim (Outcome-cases (init Url from_str cli)) [
            | inl q ↦ cc (rw (p, q) at e)
            | inr (none, q) ↦ cc (rw (p, q) at e)
            | inr (some d, q) ↦
                let s : (d, to_toml d) ≡ (c, text) = value_unique (rw (p, q) at e) in
                let same : d ≡ c = ap (λ x. x.0) s in
                (rw same at (ap (λ x. x.1) s), overwrite-init c cli (rw same at q))
          ]
          | inr (conf, p) ↦ elim (Outcome-cases (overwrite Url from_str conf cli)) [
            | inl q ↦ cc (rw (p, q) at e)
            | inr (d, q) ↦
                let s : (d, to_toml d) ≡ (c, text) = value_unique (rw (p, q) at e) in
                let same : d ≡ c = ap (λ x. x.0) s in
                (rw same at (ap (λ x. x.1) s), overwrite-overwrite conf c cli (rw same at q))
          ]
        ]

    again :
        (c : Config Url from_str) (cli : Cli) (text : Text)
        → from_toml text ≡ some c
        → to_toml c ≡ text
        → overwrite Url from_str c cli ≡ ok c
        → load_or_init Url from_str from_toml to_toml (some text) cli ≡ ok (c, text)
    unfolding load_or_init
    again c cli text back t p = rw (back, p, t) refl

  -- If the format reads back what it writes, then after a start that came to a configuration, a
  -- start without arguments, or with the same ones, comes to this configuration again, and leaves
  -- the file as it is.
  pub restart :
      {Text : Type 0}
      → (from_toml : Text → Option (Config Url from_str)) (to_toml : Config Url from_str → Text)
      → ((c : Config Url from_str) → from_toml (to_toml c) ≡ some c)
      → (file : Option Text) (cli : Cli) (c : Config Url from_str) (text : Text)
      → load_or_init Url from_str from_toml to_toml file cli ≡ ok (c, text)
      → (load_or_init Url from_str from_toml to_toml (some text) no_args ≡ ok (c, text))
        × (load_or_init Url from_str from_toml to_toml (some text) cli ≡ ok (c, text))
  restart from_toml to_toml back file cli c text e =
      let (t, p) = load_or_init_inv from_toml to_toml file cli c text e in
      let read = rw t at (back c) in
      (
        again from_toml to_toml c no_args text read t (overwrite-no_args c),
        again from_toml to_toml c cli text read t p,
      )
