-- ===== src/Runs.antt =====
-- Concrete parameters, for the runs of the modules below: a cipher that leaves the text as it is, a
-- key exchange by addition, tables as lists.
pub mod Ranges
pub mod Fetching
pub mod Lists
pub mod Sessions
pub mod Clients
pub mod Frames
pub mod Tasks
pub mod Counters
pub mod Serving
pub mod Devices
pub mod Starting
pub mod Detecting
pub mod Configs
use kassandra_service.Common.{
  ℕ, zero, suc, ◌+◌, ◌≡◌, refl, sym, ap, ◌∙◌, Bool, true, false, not, ◌||◌, List, [], ◌∷◌, ◌++◌,
  Option, none, some, some_unique, ◌==◌, if◌then◌else◌, length, replicate, arith, Bool-cases, inl,
  inr,
}
use kassandra_service.External.{External, IsAead, IsKeyExchange}
use kassandra_service.Index.{Index}
use kassandra_service.Messages.{Result, EncryptedResponse}
use kassandra_service.Database.{Sql, IsKeyed}
use kassandra_service.Fetcher.{NoteStore}
use kassandra_service.Fetcher.Storage.{IsNoteStore}
use Prim.Native.String.{String}
use text.Mathlib.Text.{◌==◌ as str_eq}

abbrev head_or_zero : List ℕ → ℕ
head_or_zero [] = 0
head_or_zero (x ∷ xs) = x

abbrev pub plain : External
plain = record {
  DetectionKey = ℕ;
  FlagCiphertexts = ℕ;
  detect = λ k f. k == f;
  encrypt = λ key nonce text. some text;
  decrypt = λ key nonce cipher. some cipher;
  aead_error = "aead::Error";
  sha256 = λ key. key;
  hex_encode = λ key. if head_or_zero key == 0 then "00" else "01";
  EphemeralSecret = ℕ;
  public_key = λ s. s ∷ replicate 31 0;
  diffie_hellman = λ s pk. (s + head_or_zero pk) ∷ [];
  was_contributory = λ k. not (head_or_zero k == 0);
  Rng = ℕ;
  clone_rng = λ r. r;
  random_from_rng = λ r. r;
  fill_bytes = λ n r. (replicate n r, r + 1);
  CobsError = Unit;
  CborError = Unit;
  cobs_text = λ x. "cobs";
  cbor_text = λ x. "cbor";
  debug_bytes = λ b. "bytes";
}

pub plain-IsAead : IsAead plain
plain-IsAead = record { decrypt-encrypt = λ key nonce text cipher h. sym h }

pub plain-IsKeyExchange : IsKeyExchange plain
plain-IsKeyExchange = record { diffie_hellman_comm = λ s t. ap (λ x. x ∷ []) (omega arith) }

-- The rows of a table of indices, the latest first.
abbrev pub find : List EncryptedResponse → String → Option EncryptedResponse
find [] user = none
find (r ∷ rs) user = if str_eq r.owner user then some r else find rs user

-- A table of transactions that has a row of one height only.
abbrev pub rows : Sql plain
rows = record {
  Txs = ℕ;
  Indices = List EncryptedResponse;
  select_height = λ t h. if t == h then (h ∷ [], "flag") ∷ [] else [];
  replace = λ t r. some (r ∷ t);
  select_owner = find;
  read_index = λ b. some (record { height = head_or_zero b; tx = 0 });
  read_flag = λ s. none;
}

pub rows-IsKeyed : IsKeyed plain rows
rows-IsKeyed = record { select-replace = λ t t' r user h. ground arith }

-- Notes are numbers, kept in lists.
abbrev pub notes : NoteStore
notes = record {
  Entry = ℕ;
  Wal = List ℕ;
  Txs = List ℕ;
  empty = [];
  extend = λ w xs. w ++ xs;
  len = λ w. length w;
  entries = λ w. w;
  prepare = λ t. true;
  insert_row = λ t x. some (x ∷ t);
}

abbrev has : List ℕ → ℕ → Bool
has [] y = false
has (x ∷ xs) y = x == y || has xs y

has-append : (xs ys : List ℕ) (y : ℕ) → has (xs ++ ys) y ≡ has xs y || has ys y
has-append [] ys y = refl
has-append (x ∷ xs) ys y = ground (arith, has-append xs ys y)

pub notes-IsNoteStore : IsNoteStore notes
notes-IsNoteStore = record {
  same = λ x y. x == y;
  has_row = has;
  has_row-insert =
      λ t t' x y e. let same : x ∷ t ≡ t' = some_unique e in rw (← same) (ground arith);
  has_item = has;
  has_item_nil = λ y. refl;
  has_item_cons = λ x xs y. refl;
  entries-extend = λ w xs y. has-append w xs y;
  entries-empty = refl;
}
