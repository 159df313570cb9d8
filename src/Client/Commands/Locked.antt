-- ===== src/Client/Commands/Locked.antt =====
-- What the client makes of the file that it wrote itself.
use kassandra_service.Common.{
  ℕ, ◌≡◌, ◌∙◌, refl, sym, ap, true, List, [], ◌∷◌, ◌++◌, map, Option, none, some, Outcome, ok,
  panic, ◌>>=◌, List-cases, Bool-cases, inl, inr, leb, value_unique, ◌==◌,
}
use kassandra_service.External.{External}
use kassandra_service.Messages.{Result, Result-cases, ClientMsg, ServerMsg}
use kassandra_service.Messages.EncKey.{visit}
use kassandra_service.Ratls.{FmdKeyRegistration}
use kassandra_service.Client.Config.{
  Service, Config, add_service as with_service, get_services, insort, sort, dedup_from, dedup, save,
}
use kassandra_service.Client.Query.{Error}
use kassandra_service.Client.Commands.{
  Crates, IsToml, Shown, ShownService, shown_services, Commands, Output, gamma, unwrap, expect,
  hash_key, encryption_key, read_services, read_config, from_toml, load, load_or_new, get_host_uuid,
  main,
}
use Prim.Native.String.{String}
use Prim.Native.String
use text.Mathlib.Text.{◌==◌ as str_eq}
use text.Mathlib.TextEquality.{eq_iff}

bind_panics :
    {A B : Type 0} (o : Outcome A) (f : A → Outcome B) → ((a : A) → f a ≡ panic) → (o >>= f) ≡ panic
bind_panics (ok a) f h = h a
bind_panics panic f h = refl

bind_ok :
    {A B : Type 0} (o : Outcome A) (f : A → Outcome B) (b : B)
    → (o >>= f) ≡ ok b
    → (a : A) × (f a ≡ ok b)
bind_ok (ok a) f b h = (a, h)
bind_ok panic f b h = cc h

-- A list with something in it.
abbrev IsFilled : {A : Type 0} → List A → Type 0
IsFilled [] = ⊥
IsFilled (x ∷ xs) = Unit {0}

insort-IsFilled : (s : Service) (ss : List Service) → IsFilled (insort s ss)
unfolding insort
insort-IsFilled s [] = tt
insort-IsFilled s (t ∷ ss) = elim (Bool-cases (leb s.index t.index)) [
  | inl p ↦ rw p tt
  | inr p ↦ rw p tt
]

dedup_from-IsFilled : (s : Service) (ss : List Service) → IsFilled (dedup_from s ss)
unfolding dedup_from
dedup_from-IsFilled s [] = tt
dedup_from-IsFilled s (t ∷ ss) = elim (Bool-cases (t.index == s.index)) [
  | inl p ↦ rw p (dedup_from-IsFilled s ss)
  | inr p ↦ rw p tt
]

sorted-IsFilled : (ss : List Service) → IsFilled ss → IsFilled (dedup (sort ss))
unfolding sort dedup
sorted-IsFilled [] h = h
sorted-IsFilled (s ∷ ss) h = elim (List-cases (insort s (sort ss))) [
  | inl p ↦ absurd (rw p at (insort-IsFilled s (sort ss)))
  | inr (t, r, p) ↦ rw p (dedup_from-IsFilled t r)
]

append-IsFilled : (ss : List Service) (s : Service) → IsFilled (ss ++ s ∷ [])
append-IsFilled [] s = tt
append-IsFilled (t ∷ ss) s = tt

-- The key that a service was added to has a service in what is written.
saved-IsFilled :
    (config : Config) (key url : String) (enc_key : List ℕ)
    → IsFilled (get_services (save (with_service config key url enc_key)) key)
unfolding save get_services with_service
saved-IsFilled [] key url enc_key =
    let own : str_eq key key ≡ true = (eq_iff key key).1 refl in rw own tt
saved-IsFilled ((k, ss) ∷ r) key url enc_key = elim (Bool-cases (str_eq k key)) [
  | inl p ↦ rw (p, get_services, p) (sorted-IsFilled _ (append-IsFilled ss _))
  | inr p ↦ rw (p, get_services, p) (saved-IsFilled r key url enc_key)
]

module _ (e : External) (c : Crates e) where
  -- A configuration with a key that its visitor does not take is not read.
  unread :
      (shown : Shown) (key : String) (s : ShownService) (rest : List ShownService)
      → shown_services shown key ≡ s ∷ rest
      → visit s.enc_key ≡ none
      → (x : String) × (read_config e c shown ≡ Result.err x)
  unfolding read_config read_services
  unread [] key s rest h v = cc h
  unread ((k, ss) ∷ r) key s rest h v = elim (Bool-cases (str_eq k key)) [
    | inl mine ↦
        let own : ss ≡ s ∷ rest = rw mine at h in
        (c.visit_error, rw (own, read_config, read_services, v) refl)
    | inr other ↦
        let (x, later) = unread r key s rest (rw other at h) v in
        elim (Result-cases (read_services e c ss)) [
          | inl (services, q) ↦ (x, rw (read_config, q, later) refl)
          | inr (y, q) ↦ (y, rw (read_config, q) refl)
        ]
  ]

  -- What was written once a service was added cannot be loaded.
  unloaded :
      (config : Config) (key url : String) (enc_key : List ℕ)
      → IsToml c
      → (x : Error) × (load_or_new e c
            (some (c.to_toml (save (with_service config key url enc_key))))
          ≡ Result.err x)
  unfolding load_or_new load from_toml visit
  unloaded config key url enc_key toml =
      let written = save (with_service config key url enc_key) in
      let (shown, p, same) = toml.parse-to_toml written in
      elim (List-cases (get_services written key)) [
        | inl q ↦ absurd (rw q at (saved-IsFilled config key url enc_key))
        | inr (s, rest, q) ↦
            let (x, r) = unread shown key _ _ (same key ∙ ap (map _) q) refl in
            (
              Error.io (String.◌++◌ "Could not parse client config file: " x),
              rw (load, from_toml, p, r) refl,
            )
      ]

  module _ (exchange : String → ClientMsg → Result (Result ServerMsg Error) Error)
      (session : String → FmdKeyRegistration e → Result (Unit {0}) Error) where
    unloaded_panics :
        (command : Commands) (text : c.Text) (x : Error)
        → load_or_new e c (some text) ≡ Result.err x
        → main e c exchange session command (some text) ≡ panic
    unfolding main unwrap
    unloaded_panics (Commands.add_service key url) text x h =
        bind_panics (unwrap (get_host_uuid e c exchange session url)) _ (λ uuid.
          bind_panics (expect (c.key_from_str key)) _ (λ csk_key.
            bind_panics (encryption_key e c (c.expand_keypair gamma csk_key) uuid) _
              (λ enc_key. rw h refl)))
    unloaded_panics (Commands.register_key key birthday) text x h = rw h refl
    unloaded_panics (Commands.query_indices key) text x h =
        bind_panics (expect (c.key_from_str key)) _ (λ csk_key. rw h refl)

    -- Through TOML, which has no byte strings, the file that the client writes when it adds a service
    -- cannot be read back: once a service was added, every command panics, whatever it is and
    -- whatever services answer.
    pub add_service-panics :
        (key url : String) (file : Option c.Text) (file' : Option c.Text) (out : Output)
        → IsToml c
        → main e c exchange session (Commands.add_service key url) file ≡ ok (file', out)
        → (command : Commands) → main e c exchange session command file' ≡ panic
    unfolding main
    add_service-panics key url file file' out toml done command =
        let (uuid, h1) = bind_ok (unwrap (get_host_uuid e c exchange session url)) _ _ done in
        let (csk_key, h2) = bind_ok (expect (c.key_from_str key)) _ _ h1 in
        let (enc_key, h3) =
          bind_ok (encryption_key e c (c.expand_keypair gamma csk_key) uuid) _ _ h2 in
        let (config, h4) = bind_ok (unwrap (load_or_new e c file)) _ _ h3 in
        let (x, lost) = unloaded config (hash_key e c csk_key gamma) url enc_key toml in
        let wrote : some
              (c.to_toml (save (with_service config (hash_key e c csk_key gamma) url enc_key)))
            ≡ file' =
          ap (λ p. p.0) (value_unique h4) in
        rw (sym wrote) (unloaded_panics command _ x lost)
