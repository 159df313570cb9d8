-- ===== src/Client/Commands.antt =====
-- client/src/bin/cli.rs and client/src/lib.rs: the commands of the client, over the text of its file
-- and what services answer. The crates `fmd`, `hkdf`, `serde_json` and `toml` are parameters.
pub mod Replay
pub mod Locked
pub mod Sessions
use kassandra_service.Common.{
  ℕ, ◌≡◌, ◌+◌, ◌-◌, ◌%◌, ◌^◌, Bool, true, false, List, [], ◌∷◌, Option, none, some, Outcome, ok,
  panic, ◌>>=◌, length, get_elem?, if◌then◌else◌, map,
}
use kassandra_service.External.{External}
use kassandra_service.Messages.{Result, ClientMsg, ServerMsg}
use kassandra_service.Ratls.{FmdKeyRegistration}
use kassandra_service.IndexList.{IndexList}
use kassandra_service.IndexSet.{hash}
use kassandra_service.Client.Config.{
  Service, Config, add_service as with_service, get_services, save,
}
use kassandra_service.Client.Query.{Error, query_service, query_fmd_key}
use Prim.Native.String.{String}
use Prim.Native.String
use text.Mathlib.Text.{◌==◌ as str_eq}
use kassandra_service.Messages.EncKey.{Visit, visit, serialize}

-- A service as a format shows it to the derived code.
pub record ShownService : Type 0 where
  pub url : String
  pub index : ℕ
  pub enc_key : Visit

abbrev pub Shown : Type 0
Shown = List (String × List ShownService)

abbrev pub shown_services : Shown → String → List ShownService
shown_services [] key = []
shown_services ((k, ss) ∷ r) key =
    let rest = shown_services r key in if str_eq k key then ss else rest

-- What the commands take from crates.
pub record Crates (e : External) : Type 1 where
  -- `CompactSecretKey` as JSON, and its expansion by the scheme for some `gamma`.
  pub CompactSecretKey : Type 0
  pub FmdSecretKey : Type 0
  pub key_from_str : String → Option CompactSecretKey
  pub expand_keypair : ℕ → CompactSecretKey → FmdSecretKey
  -- The detection keys for so many services.
  pub multi_extract : FmdSecretKey → ℕ → Option (List e.DetectionKey)
  -- The bytes of the JSON of an expanded key, and of a string.
  pub json_bytes : FmdSecretKey → List ℕ
  pub as_bytes : String → List ℕ
  -- HKDF with SHA-256: salt, key material, info and length.
  pub hkdf : List ℕ → List ℕ → List ℕ → ℕ → Option (List ℕ)
  -- TOML: what a text shows of a configuration, or the message of an error, and the text of a
  -- configuration.
  pub Text : Type 0
  pub parse_toml : Text → Result Shown String
  pub to_toml : Config → Text
  -- The message for a key that its visitor does not take.
  pub visit_error : String

abbrev pub gamma : ℕ
gamma = 20

-- `clap`'s reading of the arguments, with the base directory apart.
pub data Commands : Type 0 where
  register_key : String → Option ℕ → Commands
  add_service : String → String → Commands
  query_indices : String → Commands

-- What a command logs as its result.
pub data Output : Type 0 where
  nothing : Output
  indices : List IndexList → Output

unfoldable pub unwrap : {A E : Type 0} → Result A E → Outcome A
unwrap (Result.ok a) = ok a
unwrap (Result.err x) = panic

unfoldable pub expect : {A : Type 0} → Option A → Outcome A
expect (some a) = ok a
expect none = panic

-- From the answer of the service at an address.
unfoldable pub uuid_of : String → Result ServerMsg Error → Result String Error
uuid_of url (Result.ok (ServerMsg.uuid uuid)) = Result.ok uuid
uuid_of url (Result.ok (ServerMsg.error err)) = Result.err (Error.server_error err)
uuid_of url _ = Result.err (
    Error.server_error (
      String.◌++◌ "Requesting UUID from host at "
        (String.◌++◌ url " failed. Could not parse response.")))

module _ (e : External) (c : Crates e) where
  unfoldable pub hash_key : c.CompactSecretKey → ℕ → String
  hash_key csk_key gamma = e.hex_encode (e.sha256 (c.json_bytes (c.expand_keypair gamma csk_key)))

  unfoldable pub encryption_key : c.FmdSecretKey → String → Outcome (List ℕ)
  unfolding expect
  encryption_key fmd_key salt =
      expect
        (c.hkdf (c.as_bytes salt) (c.json_bytes fmd_key) (c.as_bytes "Database encryption key") 32)

  -- The derived code: the first key that its visitor does not take is an error.
  unfoldable pub read_services : List ShownService → Result (List Service) String
  unfolding visit
  read_services [] = Result.ok []
  read_services (s ∷ ss) = elim (visit s.enc_key) [
    | none ↦ Result.err c.visit_error
    | some key ↦ elim (read_services ss) [
      | Result.err x ↦ Result.err x
      | Result.ok rest ↦ Result.ok (record { url = s.url; index = s.index; enc_key = key } ∷ rest)
    ]
  ]

  unfoldable pub read_config : Shown → Result Config String
  unfolding read_services
  read_config [] = Result.ok []
  read_config ((key, ss) ∷ r) = elim (read_services ss) [
    | Result.err x ↦ Result.err x
    | Result.ok services ↦ elim (read_config r) [
      | Result.err x ↦ Result.err x
      | Result.ok rest ↦ Result.ok ((key, services) ∷ rest)
    ]
  ]

  unfoldable pub from_toml : c.Text → Result Config String
  unfolding read_config
  from_toml text = elim (c.parse_toml text) [
    | Result.err x ↦ Result.err x
    | Result.ok shown ↦ read_config shown
  ]

  unfoldable pub load : c.Text → Result Config Error
  unfolding from_toml
  load text = elim (from_toml text) [
    | Result.ok config ↦ Result.ok config
    | Result.err x ↦ Result.err (Error.io (String.◌++◌ "Could not parse client config file: " x))
  ]

  -- `none`: there is no file.
  unfoldable pub load_or_new : Option c.Text → Result Config Error
  unfolding load
  load_or_new none = Result.ok []
  load_or_new (some text) = load text

  -- An exchange opens a connection, writes a message and reads the answer; its own error is that of
  -- connecting. A session is the registration of Client.Register with the service at an address.
  module _ (exchange : String → ClientMsg → Result (Result ServerMsg Error) Error)
      (session : String → FmdKeyRegistration e → Result (Unit {0}) Error) where
    unfoldable pub get_host_uuid : String → Result String Error
    unfolding uuid_of
    get_host_uuid url = elim (exchange url ClientMsg.request_uuid) [
      | Result.err x ↦ Result.err x
      | Result.ok answer ↦ uuid_of url answer
    ]

    -- One pass of the loop of `query_fmd_key`.
    unfoldable pub query_one : Service → Result IndexList Error
    unfolding get_host_uuid hash
    query_one s = elim (get_host_uuid s.url) [
      | Result.err x ↦ Result.err x
      | Result.ok uuid ↦ elim (exchange s.url (ClientMsg.request_indices (hash e s.enc_key))) [
        | Result.err x ↦ Result.err x
        | Result.ok answer ↦ query_service e uuid s.enc_key answer
      ]
    ]

    -- The loop of `register_fmd_key`, where `index - 1` wraps around and a key past the end panics.
    unfoldable pub register_all :
        List e.DetectionKey → Option ℕ → List Service → Outcome (Result (Unit {0}) Error)
    register_all keys birthday [] = ok (Result.ok tt)
    register_all keys birthday (s ∷ ss) = elim (get_elem? keys ((s.index + 2 ^ 64 - 1) % 2 ^ 64)) [
      | none ↦ panic
      | some key ↦
          elim (session s.url
            (record { fmd_key = key; enc_key = s.enc_key; birthday = birthday })) [
              | Result.err x ↦ ok (Result.err x)
              | Result.ok done ↦ register_all keys birthday ss
            ]
    ]

    unfoldable pub register_fmd_key :
        Config → String → c.FmdSecretKey → Option ℕ → Outcome (Result (Unit {0}) Error)
    unfolding register_all expect
    register_fmd_key config key_hash fmd_key birthday = do
      let services = get_services config key_hash
      detection_keys ← expect (c.multi_extract fmd_key (length services))
      register_all detection_keys birthday services

    -- `main` behind the parsing of the arguments: the file after the command, and its result. The
    -- file can be read and written.
    unfoldable pub main : Commands → Option c.Text → Outcome (Option c.Text × Output)
    unfolding unwrap expect hash_key encryption_key load_or_new
    main (Commands.add_service key url) file = do
      uuid ← unwrap (get_host_uuid url)
      csk_key ← expect (c.key_from_str key)
      enc_key ← encryption_key (c.expand_keypair gamma csk_key) uuid
      config ← unwrap (load_or_new file)
      let config' = with_service config (hash_key csk_key gamma) url enc_key
      ok (some (c.to_toml (save config')), nothing)
    main (Commands.register_key key birthday) file = do
      config ← unwrap (load_or_new file)
      csk_key ← expect (c.key_from_str key)
      result ←
          register_fmd_key config (hash_key csk_key gamma) (c.expand_keypair gamma csk_key) birthday
      done ← unwrap result
      ok (file, nothing)
    main (Commands.query_indices key) file = do
      csk_key ← expect (c.key_from_str key)
      config ← unwrap (load_or_new file)
      lists ← unwrap (query_fmd_key query_one config (hash_key csk_key gamma))
      ok (file, indices lists)

    -- One command after another, over the same file.
    unfoldable pub run : List Commands → Option c.Text → Outcome (Option c.Text)
    unfolding main
    run [] file = ok file
    run (command ∷ rest) file = do (file', output) ← main command file; run rest file'

-- TOML has no byte strings: the bytes of a key are written as an array of numbers, and shown as a
-- sequence. What is written for a configuration is shown with the same services.
pub record IsToml {e : External} (c : Crates e) : Type 0 where
  pub parse-to_toml :
      (config : Config)
      → (shown : Shown) × (c.parse_toml (c.to_toml config) ≡ Result.ok shown)
        × ((key : String)
            → shown_services shown key
              ≡ map
                  (λ s. record {
                    url = s.url;
                    index = s.index;
                    enc_key = Visit.seq (serialize s.enc_key);
                  })
                  (get_services config key))

-- A format through which each configuration is read back, with the same services.
pub record IsReadable {e : External} (c : Crates e) : Type 0 where
  pub from-to_toml :
      (config : Config)
      → (config' : Config) × (from_toml e c (c.to_toml config) ≡ Result.ok config')
        × ((key : String) → get_services config' key ≡ get_services config key)
