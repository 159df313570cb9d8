-- ===== src/Runs/Clients.antt =====
-- The client's part: its file, what it reads, and the bytes on the wire.
use kassandra_service.Common.{ℕ, ◌≡◌, ◌↔◌, List, [], ◌∷◌, some, All, arith, replicate}
use kassandra_service.Index.{Index, IsIndex}
use kassandra_service.Common.{none}
use kassandra_service.IndexSet.{IndexSet, index_bytes, detected}
use kassandra_service.Messages.{EncryptedResponse}
use kassandra_service.Database.{Db}
use kassandra_service.Client.Config.{Service, add_service, get_services}
use kassandra_service.Client.Config.Numbering.{IsConfig, add_service-IsConfig}
use kassandra_service.IndexSet.Round.{Flags, advanced}
use kassandra_service.Ratls.{FmdKeyRegistration}
use kassandra_service.Stream.{Tcp}
use kassandra_service.Serial.{write_bytes}
use kassandra_service.Serial.Bytes.{IsPlain, write_bytes_iff}
use kassandra_service.Runs.{plain, rows}

abbrev service : ℕ → Service
service n = record { url = "host:1"; index = n; enc_key = 7 ∷ [] }

-- A file with no services.
none_yet-IsConfig : IsConfig []
unfolding get_services
none_yet-IsConfig = λ k. tt

one_service-IsConfig : IsConfig (add_service [] "key" "host:1" (7 ∷ []))
unfolding get_services
one_service-IsConfig =
    add_service-IsConfig [] "key" "host:1" (7 ∷ []) none_yet-IsConfig (omega arith)

abbrev keys : List ℕ
keys = 31 ∷ 32 ∷ []

abbrev found : IndexSet
found = record { synced_to = 4; indices = record { height = 4; tx = 2 } ∷ [] }

abbrev response : EncryptedResponse
response = record { owner = "01"; nonce = replicate 12 5; indices = []; height = 3 }

abbrev empty_db : Db plain rows
empty_db = record { masp = 4; fmd = []; synced_to = some 9 }

abbrev key : FmdKeyRegistration plain
key = record { fmd_key = 5; enc_key = 7 ∷ []; birthday = some 3 }

abbrev behind : IndexSet
behind = record { synced_to = 3; indices = [] }

-- The one row of height 4, with no flag.
abbrev flags : Flags plain
flags = (record { height = 4; tx = 0 }, none) ∷ []

abbrev reached : List Index
reached = (advanced plain 9 flags (key, behind)).1.indices

abbrev sent : EncryptedResponse
sent = record { owner = "01"; nonce = replicate 12 5; indices = index_bytes reached; height = 3 }

reached-IsIndex : All IsIndex reached
unfolding advanced detected
reached-IsIndex = ((omega arith, omega arith), tt)

abbrev stream : Tcp
stream = record { raw = (3 ∷ 4 ∷ []) ∷ [] ∷ (5 ∷ []) ∷ []; buffered = 2 ∷ [] }

write_bytes_iff_example :
    (write_bytes (1 ∷ 8 ∷ 0 ∷ []) ≡ 1 ∷ 8 ∷ 0 ∷ []) ↔ All IsPlain (1 ∷ 8 ∷ 0 ∷ [])
write_bytes_iff_example = write_bytes_iff (1 ∷ 8 ∷ 0 ∷ [])
