-- ===== src/Client/Config.antt =====
-- client/src/config.rs: which services a key is registered with. `save` is what is written to the
-- file, which Client.Commands is about.
pub mod Numbering
use kassandra_service.Common.{
  ℕ, ◌+◌, ◌-◌, ◌%◌, ◌^◌, Bool, true, false, List, [], ◌∷◌, ◌++◌, Option, none, some, Outcome, ok,
  panic, ◌>>=◌, leb, ◌==◌, if◌then◌else◌, get_elem?,
}
use Prim.Native.String.{String}
use text.Mathlib.Text.{◌==◌ as str_eq}

pub record Service : Type 0 where
  pub url : String
  pub index : ℕ
  pub enc_key : List ℕ

-- The map from the hash of a key to its services.
abbrev pub Config : Type 0
Config = List (String × List Service)

-- `max().unwrap_or_default()` of the indices.
unfoldable pub max_index : List Service → ℕ
max_index [] = 0
max_index (s ∷ ss) = let m = max_index ss in if leb s.index m then m else s.index

-- A new index is one more than the greatest, on a usize of 64 bits.
unfoldable pub add_service : Config → String → String → List ℕ → Config
unfolding max_index
add_service [] key url enc_key = (key, record { url = url; index = 1; enc_key = enc_key } ∷ []) ∷ []
add_service ((k, ss) ∷ r) key url enc_key =
    let rest = add_service r key url enc_key in
    if str_eq k key
    then (
      k,
      ss ++ record { url = url; index = (max_index ss + 1) % 2 ^ 64; enc_key = enc_key } ∷ [],
    )
      ∷ r
    else (k, ss) ∷ rest

unfoldable pub get_services : Config → String → List Service
get_services [] key = []
get_services ((k, ss) ∷ r) key = let rest = get_services r key in if str_eq k key then ss else rest

-- `sort_by_key(|s| s.index)`, which is stable.
unfoldable pub insort : Service → List Service → List Service
insort x [] = x ∷ []
insort x (y ∷ ys) = let rest = insort x ys in if leb x.index y.index then x ∷ y ∷ ys else y ∷ rest

unfoldable pub sort : List Service → List Service
unfolding insort
sort [] = []
sort (x ∷ xs) = insort x (sort xs)

-- `dedup_by_key(|s| s.index)`
unfoldable pub dedup_from : Service → List Service → List Service
dedup_from x [] = x ∷ []
dedup_from x (y ∷ ys) =
    let same = y.index == x.index in
    let rest = dedup_from (if same then x else y) ys in if same then rest else x ∷ rest

unfoldable pub dedup : List Service → List Service
unfolding dedup_from
dedup [] = []
dedup (x ∷ xs) = dedup_from x xs

unfoldable pub save : Config → Config
unfolding sort dedup
save [] = []
save ((k, ss) ∷ r) = (k, dedup (sort ss)) ∷ save r

-- `register_fmd_key` of client/src/ratls.rs: the service of each call with the detection key that
-- is sent to it. `detection_keys[index - 1]` panics past the end, where 0 - 1 wraps around.
unfoldable pub registrations : {K : Type 0} → List K → List Service → Outcome (List (Service × K))
registrations keys [] = ok []
registrations keys (s ∷ ss) = elim (get_elem? keys ((s.index + 2 ^ 64 - 1) % 2 ^ 64)) [
  | none ↦ panic
  | some key ↦ do rest ← registrations keys ss; ok ((s, key) ∷ rest)
]
