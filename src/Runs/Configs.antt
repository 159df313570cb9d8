-- ===== src/Runs/Configs.antt =====
-- Starts of the host, with the URLs as text and the file as what was saved.
use kassandra_service.Common.{◌≡◌, refl, none, some, ok}
use kassandra_service.HostConfig.{Cli, Config, load_or_init}
use kassandra_service.HostConfig.Restart.{no_args, restart}
use Prim.Native.String.{String}

abbrev args : Cli
args = record {
  base_dir = none;
  enclave = none;
  listen = some "0.0.0.0:777";
  listen_timeout = none;
  indexer_url = some "https://indexer";
  max_wal_size = some 50;
}

abbrev config : Config String some
config = record {
  enclave_url = "0.0.0.0:12345";
  listen_url = "0.0.0.0:777";
  listen_timeout = 1000;
  db = record { indexer_url = "https://indexer"; max_wal_size = 50 };
}

first_start :
    load_or_init String some {Text = Config String some} some (λ c. c) none args
    ≡ ok (config, config)
unfolding load_or_init
first_start = refl

restart_example :
    (load_or_init String some {Text = Config String some} some (λ c. c) (some config) no_args
      ≡ ok (config, config))
    × (load_or_init String some {Text = Config String some} some (λ c. c) (some config) args
        ≡ ok (config, config))
restart_example = restart String some some (λ c. c) (λ c. refl) none args config config first_start
