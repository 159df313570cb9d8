-- ===== src/Client/Commands/Replay.antt =====
-- What the file of the client holds after any additions of services, if it is kept in a format
-- through which configurations are read back; Locked is about the one that is used.
use kassandra_service.Common.{
  ℕ, ◌+◌, ◌^◌, ◌<◌, ◌≡◌, ◌∙◌, refl, sym, ap, List, [], ◌∷◌, map, Option, some, ok, length,
  length-append, arith, Bool-cases, inl, inr, if◌then◌else◌,
}
use mathlib.Core.Path.{subst}
use kassandra_service.External.{External}
use kassandra_service.Messages.{Result, ClientMsg, ServerMsg}
use kassandra_service.Ratls.{FmdKeyRegistration}
use kassandra_service.Client.Config.{
  Service, Config, add_service as with_service, get_services, save,
}
use kassandra_service.Client.Config.Numbering.{
  IsNumbered, IsConfig, added, add_service-services, add_service-IsConfig, get_services-save,
}
use kassandra_service.Client.Query.{Error}
use kassandra_service.Client.Commands.{
  Crates, IsReadable, Commands, nothing, gamma, unwrap, expect, hash_key, encryption_key, load,
  load_or_new, get_host_uuid, main, run,
}
use Prim.Native.String.{String}
use text.Mathlib.Text.{◌==◌ as str_eq}
use text.Mathlib.TextEquality.{eq_iff}

module _ (e : External) (c : Crates e)
    (exchange : String → ClientMsg → Result (Result ServerMsg Error) Error)
    (session : String → FmdKeyRegistration e → Result (Unit {0}) Error) where
  -- A command that adds a service, with the key that it names, the UUID that the service answers, and
  -- the encryption key that is derived from both.
  pub record Addition : Type 0 where
    pub key : String
    pub url : String
    pub csk_key : c.CompactSecretKey
    pub uuid : String
    pub enc_key : List ℕ
    pub parses : c.key_from_str key ≡ some csk_key
    pub answers : get_host_uuid e c exchange session url ≡ Result.ok uuid
    pub derived : encryption_key e c (c.expand_keypair gamma csk_key) uuid ≡ ok enc_key

  abbrev pub command : Addition → Commands
  command a = Commands.add_service a.key a.url

  -- The services of the key with a hash: one more for each addition of this key, with the next number.
  unfoldable pub replay : List Addition → String → List Service → List Service
  replay [] h services = services
  replay (a ∷ more) h services =
      replay more h (
        if str_eq (hash_key e c a.csk_key gamma) h
        then added services a.url a.enc_key
        else services)

  -- A file that can be loaded, the services of each key numbered from 1 on, and with room for more.
  pub record Holds (file : Option c.Text) (room : ℕ) : Type 0 where
    pub config : Config
    pub loads : load_or_new e c file ≡ Result.ok config
    pub numbered : IsConfig config
    pub small : (h : String) → length (get_services config h) + room < 2 ^ 64

  -- The services of each key once a service was added, saved and loaded again.
  services_after :
      (a : Addition) (config loaded : Config) (h : String)
      → IsConfig config
      → length (get_services config (hash_key e c a.csk_key gamma)) + 1 < 2 ^ 64
      → ((key : String)
          → get_services loaded key
            ≡ get_services
                (save (with_service config (hash_key e c a.csk_key gamma) a.url a.enc_key))
                key)
      → get_services loaded h ≡ replay (a ∷ []) h (get_services config h)
  unfolding replay
  services_after a config loaded h numbered small same =
      same h
      ∙ get_services-save (with_service config own a.url a.enc_key) h
          (add_service-IsConfig config own a.url a.enc_key numbered small)
      ∙ add_service-services config own a.url a.enc_key h (numbered own) small
      ∙ elim (Bool-cases (str_eq own h)) [
        | inr other ↦ rw other refl
        | inl mine ↦
            rw mine
              (ap (λ k. added (get_services config k) a.url a.enc_key) ((eq_iff own h).0 mine))
      ]
    where
      own : String
      own = hash_key e c a.csk_key gamma

  length-replay :
      (a : Addition) (h : String) (services : List Service)
      → length (replay (a ∷ []) h services) < length services + 2
  unfolding replay
  length-replay a h services = elim (Bool-cases (str_eq (hash_key e c a.csk_key gamma) h)) [
    | inl mine ↦ rw mine (
        omega (
          arith,
          length-append services
              (record { url = a.url; index = length services + 1; enc_key = a.enc_key } ∷ []),
        ))
    | inr other ↦ rw other (omega arith)
  ]

  one_addition :
      (a : Addition) (file : Option c.Text) (room : ℕ)
      → IsReadable c
      → (held : Holds file (room + 1))
      → (file' : Option c.Text) × (main e c exchange session (command a) file ≡ ok (file', nothing))
        × (held' : Holds file' room) × ((h : String)
            → get_services held'.config h ≡ replay (a ∷ []) h (get_services held.config h))
  unfolding main load_or_new load replay
  one_addition a file room toml held =
      let own = hash_key e c a.csk_key gamma in
      let saved = save (with_service held.config own a.url a.enc_key) in
      let (loaded, text, same) = toml.from-to_toml saved in
      let little : length (get_services held.config own) + 1 < 2 ^ 64 =
        omega (arith, held.small own) in
      let grown = add_service-IsConfig held.config own a.url a.enc_key held.numbered little in
      let after : (h : String)
          → get_services loaded h ≡ replay (a ∷ []) h (get_services held.config h) =
        λ h. services_after a held.config loaded h held.numbered little same in
      (
        some (c.to_toml saved),
        rw (main, a.answers, unwrap, a.parses, expect, a.derived, held.loads) refl,
        record {
          config = loaded;
          loads = rw (load, text) refl;
          numbered = λ h.
              subst (IsNumbered 1)
                (sym (
                  same h
                  ∙ get_services-save (with_service held.config own a.url a.enc_key) h grown))
                (grown h);
          small = λ h.
              rw (after h)
                (omega (arith, held.small h, length-replay a h (get_services held.config h)));
        },
        after,
      )

  -- Through a format by which each configuration is read back: starting from a file whose services
  -- are numbered from 1 on, any additions of services to any keys, run one after another, each over
  -- the file that the one before it wrote, end without a panic with a file that can be loaded, its
  -- services numbered from 1 on; and for each key these are the services that it had, followed by
  -- those that were added for it, in their order, with the encryption keys that were derived for
  -- them. Each service answers with its UUID, and no key comes to 2 ^ 64 services.
  pub run-replay :
      (additions : List Addition) (file : Option c.Text)
      → IsReadable c
      → (held : Holds file (length additions))
      → (file' : Option c.Text) × (run e c exchange session (map command additions) file ≡ ok file')
        × (held' : Holds file' 0) × ((h : String)
            → get_services held'.config h ≡ replay additions h (get_services held.config h))
  unfolding run replay
  run-replay [] file toml held = (file, refl, held, λ h. refl)
  run-replay (a ∷ additions) file toml held =
      let room : length (a ∷ additions) ≡ length additions + 1 = omega arith in
      let (file', step, held', grown) = one_addition a file (length additions) toml (record {
        config = held.config;
        loads = held.loads;
        numbered = held.numbered;
        small = λ h. omega (arith, held.small h);
      }) in
      let (last, rest, held'', replayed) = run-replay additions file' toml held' in
      (last, rw (step, rest) refl, held'', λ h. replayed h ∙ ap (replay additions h) (grown h))
