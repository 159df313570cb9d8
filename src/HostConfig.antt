-- ===== src/HostConfig.antt =====
-- host/src/config.rs: the configuration of the host, from its file and the command line.
pub mod Restart
use kassandra_service.Common.{ℕ, Option, none, some, Outcome, ok, panic, ◌>>=◌, ◌*◌}
use Prim.Native.String.{String}
use Prim.Native.String

-- `Cli` of host/src/main.rs.
pub record Cli : Type 0 where
  pub base_dir : Option String
  pub enclave : Option String
  pub listen : Option String
  pub listen_timeout : Option ℕ
  pub indexer_url : Option String
  pub max_wal_size : Option ℕ

abbrev pub enclave_address : String
enclave_address = "0.0.0.0:12345"

abbrev pub listening_address : String
listening_address = "0.0.0.0:666"

-- In seconds.
abbrev pub client_timeout : ℕ
client_timeout = 1

abbrev pub default_wal_size : ℕ
default_wal_size = 1000

abbrev pub unwrap_or {ℓ} : {A : Type ℓ} → Option A → A → A
unwrap_or none x = x
unwrap_or (some y) x = y

-- `Url` of the crate `reqwest`, with `Url::from_str`.
module _ (Url : Type 0) (from_str : String → Option Url) where
  pub record DbConfig : Type 0 where
    pub indexer_url : Url
    pub max_wal_size : ℕ

  -- The timeout is in milliseconds.
  pub record Config : Type 0 where
    pub enclave_url : String
    pub listen_url : String
    pub listen_timeout : ℕ
    pub db : DbConfig

  -- `Url::from_str(…).unwrap()`
  unfoldable pub parsed : String → Outcome Url
  parsed text = elim (from_str text) [ none ↦ panic | some url ↦ ok url ]

  unfoldable pub init : Cli → Outcome (Option Config)
  unfolding parsed
  init cli = elim (cli.indexer_url) [
    | none ↦ ok none
    | some ix_url ↦ do
      url ← parsed ix_url
      ok (
          some (record {
            enclave_url = unwrap_or cli.enclave enclave_address;
            listen_url = unwrap_or cli.listen listening_address;
            listen_timeout = unwrap_or cli.listen_timeout (client_timeout * 1000);
            db = record {
              indexer_url = url;
              max_wal_size = unwrap_or cli.max_wal_size default_wal_size;
            };
          }))
  ]

  unfoldable pub given_url : Option String → Url → Outcome Url
  unfolding parsed
  given_url none url = ok url
  given_url (some idx) url = parsed idx

  -- What the command line changes of a loaded configuration.
  unfoldable pub overwrite : Config → Cli → Outcome Config
  unfolding given_url
  overwrite conf cli = do
    url ← given_url cli.indexer_url (conf.db.indexer_url)
    ok (record {
      enclave_url = unwrap_or cli.enclave conf.enclave_url;
      listen_url = unwrap_or cli.listen conf.listen_url;
      listen_timeout = unwrap_or cli.listen_timeout conf.listen_timeout;
      db = record {
        indexer_url = url;
        max_wal_size = unwrap_or cli.max_wal_size (conf.db.max_wal_size);
      };
    })

  -- The crate `toml`, with what it writes for a `Config`.
  module _ {Text : Type 0} (from_toml : Text → Option Config) (to_toml : Config → Text) where
    -- The contents of the file, if it can be read.
    unfoldable pub load : Option Text → Option Config
    load none = none
    load (some text) = from_toml text

    -- The configuration, with the contents of the file that are saved.
    unfoldable pub saved : Config → Outcome (Config × Text)
    saved conf = ok (conf, to_toml conf)

    unfoldable pub created : Option Config → Outcome (Config × Text)
    unfolding saved
    created none = panic
    created (some conf) = saved conf

    -- From what was loaded.
    unfoldable pub settled : Option Config → Cli → Outcome (Config × Text)
    unfolding init overwrite created
    settled none cli = do conf ← init cli; created conf
    settled (some conf) cli = do conf' ← overwrite conf cli; saved conf'

    unfoldable pub load_or_init : Option Text → Cli → Outcome (Config × Text)
    unfolding load settled
    load_or_init file cli = settled (load file) cli
