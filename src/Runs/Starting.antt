-- ===== src/Runs/Starting.antt =====
-- Starts of the host, and commands of the client over its file.
use kassandra_service.Common.{
  ℕ, ◌⊎◌, length, ◌≢◌, ◌≡◌, refl, Bool, true, false, List, [], ◌∷◌, map, Option, none, some, ok,
  panic, All, arith, replicate, Bool-cases, inl, inr,
}
use kassandra_service.Messages.{Result, TlsCiphertext, ClientMsg, ServerMsg}
use kassandra_service.Ratls.{FmdKeyRegistration}
use kassandra_service.Database.Files.{
  Files, execute, resume, ◌>>=◌, with_fmd, open_masp, open_fmd, new, starts,
}
use kassandra_service.Database.Files.Starts.{IsOf, starts_agree, failed_start-starts}
use kassandra_service.Process.{feed}
use kassandra_service.Client.Config.{
  Service, Config, add_service as with_service, get_services, save, sort, insort, dedup, dedup_from,
}
use kassandra_service.Client.Query.{Error}
use kassandra_service.Client.Register.{Quote, VerifyError}
use kassandra_service.Client.Register.Trust.{client, IsSafe, register-IsSafe}
use kassandra_service.Client.Commands.{
  Crates, IsToml, Shown, ShownService, shown_services, Commands, nothing, load_or_new, uuid_of,
  get_host_uuid, hash_key, encryption_key, unwrap, expect, register_fmd_key, main,
}
use kassandra_service.Client.Commands.Locked.{add_service-panics}
use kassandra_service.Messages.EncKey.{Visit, serialize}
use kassandra_service.Messages.Ciphertext.{
  SimplifiedCiphertext, serialize as seal, deserialize, deserialize_cases,
}
use kassandra_service.Client.Commands.Sessions.{sessions, register_fmd_key-sessions}
use kassandra_service.Client.Config.Numbering.{IsConfig, zip}
use kassandra_service.Runs.{plain, rows}
use Prim.Native.String.{String}
use text.Mathlib.Text.{◌==◌ as str_eq}

abbrev no_files : Files plain rows
no_files = record { masp = none; fmd = none }

-- Two UUIDs, by their texts.
abbrev print : Bool → String
print true = "7"
print false = "8"

abbrev parse : String → Option Bool
parse s = some (str_eq s "7")

parsed : (u : Bool) → parse (print u) ≡ some u
parsed true = refl
parsed false = refl

-- After a first start whose statements succeed.
abbrev begun : Files plain rows
begun = record {
  masp = some (record { txs = some 4 });
  fmd = some (record { indices = some []; uuids = some ("7" ∷ []) });
}

starts_agree_example :
    (true ≡ true)
    × ((later : List (Bool × List Bool))
        → All
            (IsOf plain rows 4 [] parse print parsed true)
            (starts plain rows 4 [] parse print later begun))
    × ((others : List Bool)
        → starts plain rows 4 [] parse print (map (λ v. (v, [])) others) begun
          ≡ map (λ v. some true) others)
unfolding new open_masp open_fmd execute resume ◌>>=◌ with_fmd
starts_agree_example =
    starts_agree plain rows 4 [] parse print parsed true true [] [] no_files begun refl refl

-- The fourth statement fails: the file is there, and has no table.
abbrev half : Files plain rows
half = record {
  masp = some (record { txs = some 4 });
  fmd = some (record { indices = none; uuids = none });
}

failed_start-starts_example :
    All (λ r. r ≡ none) (starts plain rows 4 [] parse print ((false, []) ∷ (true, []) ∷ []) half)
unfolding new open_masp open_fmd execute resume ◌>>=◌ with_fmd
failed_start-starts_example =
    failed_start-starts plain rows 4 [] parse print parsed true (true ∷ true ∷ true ∷ false ∷ []) []
      no_files half (record { indices = none; uuids = none }) refl refl refl
      ((false, []) ∷ (true, []) ∷ [])

abbrev read_quote : List ℕ → Result Quote (Unit {0})
read_quote report =
    Result.ok (record { mrtd = 0 ∷ []; rtmr0 = 0 ∷ []; rtmr1 = []; report_input_data = report })

abbrev later_text : VerifyError (Unit {0}) → String
later_text x = "error"

abbrev a_key : FmdKeyRegistration plain
a_key = record { fmd_key = 5; enc_key = 7 ∷ []; birthday = some 3 }

abbrev answers : List (Result ServerMsg Error)
answers = Result.ok (ServerMsg.ratls (replicate 64 3)) ∷ Result.ok ServerMsg.key_reg_success ∷ []

register-IsSafe_example :
    All
      (IsSafe plain false read_quote
        (λ q. true)
        later_text
        (λ k. 1 ∷ [])
        3
        4
        217020518514230019
        a_key
        answers)
      (feed
        (client plain false read_quote
          (λ q. true)
          later_text
          (λ k. 1 ∷ [])
          3
          4
          217020518514230019
          a_key)
        answers).0
register-IsSafe_example =
    register-IsSafe plain false read_quote (λ q. true) later_text (λ k. 1 ∷ []) 3 4
      217020518514230019 a_key answers

abbrev show_service : Service → ShownService
show_service s = record { url = s.url; index = s.index; enc_key = Visit.seq (serialize s.enc_key) }

-- What TOML shows of a configuration.
abbrev show : Config → Shown
show [] = []
show ((key, ss) ∷ r) = (key, map show_service ss) ∷ show r

shown-show :
    (c : Config) (key : String)
    → shown_services (show c) key ≡ map show_service (get_services c key)
unfolding get_services
shown-show [] key = refl
shown-show ((k, ss) ∷ r) key = elim (Bool-cases (str_eq k key)) [
  | inl p ↦ rw p refl
  | inr p ↦ rw p (shown-show r key)
]

-- Keys are numbers.
abbrev crates : Crates plain
crates = record {
  CompactSecretKey = ℕ;
  FmdSecretKey = ℕ;
  key_from_str = λ s. some 5;
  expand_keypair = λ gamma k. k;
  multi_extract = λ k n. some (replicate n k);
  json_bytes = λ k. k ∷ [];
  as_bytes = λ s. [];
  hkdf = λ salt text info n. some (replicate n 7);
  Text = Config;
  parse_toml = λ t. Result.ok (show t);
  to_toml = λ c. c;
  visit_error = "invalid type: sequence, expected 32 bytes";
}

crates-IsToml : IsToml crates
crates-IsToml = record { parse-to_toml = λ c. (show c, refl, shown-show c) }

abbrev exchange : String → ClientMsg → Result (Result ServerMsg Error) Error
exchange url msg = Result.ok (Result.ok (ServerMsg.uuid "uuid"))

abbrev session : String → FmdKeyRegistration plain → Result (Unit {0}) Error
session url key = Result.ok tt

-- The file with the service that was added.
abbrev one_service : Config
one_service = ("01", record { url = "host:1"; index = 1; enc_key = replicate 32 7 } ∷ []) ∷ []

add_service-panics_example :
    main plain crates exchange session (Commands.query_indices "key") (some one_service) ≡ panic
unfolding main get_host_uuid uuid_of unwrap expect encryption_key load_or_new with_service hash_key
    save sort insort dedup dedup_from
add_service-panics_example =
    add_service-panics plain crates exchange session "key" "host:1" none (some one_service) nothing
      crates-IsToml refl (Commands.query_indices "key")

-- A nonce of one byte.
abbrev short : SimplifiedCiphertext
short = record { payload = []; nonce = 3 ∷ [] }

deserialize_cases_example :
    ((length short.nonce ≡ 12)
      × (c : TlsCiphertext) × (deserialize {E = String} (Result.ok short) ≡ ok (Result.ok c))
      × (seal c ≡ short))
    ⊎ ((length short.nonce ≢ 12) × (deserialize {E = String} (Result.ok short) ≡ panic))
deserialize_cases_example = deserialize_cases {E = String} short

abbrev two_services : Config
two_services =
    (
      "01",
      record { url = "host:1"; index = 1; enc_key = [] }
          ∷ record { url = "host:2"; index = 2; enc_key = [] }
          ∷ [],
    )
    ∷ []

two_services-IsConfig : IsConfig two_services
unfolding get_services
two_services-IsConfig key = elim (Bool-cases (str_eq "01" key)) [
  | inl p ↦ rw p (refl, (refl, tt))
  | inr p ↦ rw p tt
]

register_fmd_key-sessions_example :
    register_fmd_key plain crates exchange session two_services "01" 5 none
    ≡ ok (
        sessions plain crates exchange session none
          (zip (get_services two_services "01") (5 ∷ 5 ∷ [])))
unfolding get_services
register_fmd_key-sessions_example =
    register_fmd_key-sessions plain crates exchange session two_services "01" 5 none (5 ∷ 5 ∷ [])
      two_services-IsConfig refl refl (omega arith)
