-- ===== src/IndexSet/Codec.antt =====
-- The bytes of an index set and the list that a client reads from them.
use kassandra_service.Common.{
  ℕ, zero, suc, ◌*◌, ◌/◌, ◌%◌, ◌≤◌, ◌<◌, ◌≡◌, ◌≢◌, refl, ap, ◌∙◌, List, [], ◌∷◌, ◌++◌, map, none,
  some, All, length, length-append, take, drop, take-append, drop-append, take-append-drop,
  length-take-drop, All-take-drop, arith,
}
use kassandra_service.Common.Bytes.{IsByte, from_le_bytes}
use kassandra_service.Index.{Index, IsIndex, as_bytes}
use kassandra_service.Index
use kassandra_service.Index.Codec.{length-as_bytes, try_from-as_bytes, as-try_from_bytes}
use kassandra_service.IndexList.{IndexList, chunks, try_from_bytes}
use kassandra_service.IndexSet.{index_bytes}
use mathlib.Core.List.{filter_map, filter_map-cons-some}
use mathlib.Core.Path.{ap₂}

pub length-index_bytes : (l : IndexList) → length (index_bytes l) ≡ 12 * length l
unfolding index_bytes
length-index_bytes [] = refl
length-index_bytes (ix ∷ r) =
    omega
      (arith, length-append (as_bytes ix) (index_bytes r), length-as_bytes ix, length-index_bytes r)

chunks-append :
    (fuel n : ℕ) (xs ys : List ℕ)
    → 0 < n
    → length xs ≡ n
    → chunks (suc fuel) n (xs ++ ys) ≡ xs ∷ chunks fuel n ys
unfolding chunks
chunks-append fuel n [] ys h e = absurd (omega arith)
chunks-append fuel n (x ∷ xs) ys h e = rw (take-append n (x ∷ xs) ys e, drop-append n (x ∷ xs) ys e)

chunks-index_bytes :
    (fuel : ℕ) (l : IndexList) → length l ≤ fuel → chunks fuel 12 (index_bytes l) ≡ map as_bytes l
unfolding index_bytes
chunks-index_bytes zero [] h = unfold chunks in refl
chunks-index_bytes (suc fuel) [] h = unfold chunks in refl
chunks-index_bytes zero (ix ∷ r) h = absurd (omega arith)
chunks-index_bytes (suc fuel) (ix ∷ r) h =
    chunks-append fuel 12 (as_bytes ix) (index_bytes r) (omega arith) (length-as_bytes ix)
    ∙ ap (◌∷◌ (as_bytes ix)) (chunks-index_bytes fuel r (omega arith))

indices_back :
    (l : IndexList) → All IsIndex l → filter_map Index.try_from_bytes (map as_bytes l) ≡ l
unfolding filter_map
indices_back [] h = refl
indices_back (ix ∷ r) h = rw (try_from-as_bytes ix h.0) (ap (◌∷◌ ix) (indices_back r h.1))

-- Reading the bytes of a list of indices that are machine words gives the list back.
pub try_from-index_bytes : (l : IndexList) → All IsIndex l → try_from_bytes (index_bytes l) ≡ some l
unfolding try_from_bytes
try_from-index_bytes l h =
    let n = length-index_bytes l in
    let all =
      ap (filter_map Index.try_from_bytes)
        (chunks-index_bytes (length (index_bytes l)) l (omega (arith, n)))
      ∙ indices_back l h in
    ground (arith, n, all)

Index-read :
    (bytes : List ℕ) → length bytes ≡ 12 → (ix : Index) × (Index.try_from_bytes bytes ≡ some ix)
unfolding Index.try_from_bytes
Index-read bytes h =
    (record { height = from_le_bytes (take 8 bytes); tx = from_le_bytes (drop 8 bytes) }, rw h)

index_bytes-cons :
    (ix : Index) (l : IndexList) → index_bytes (ix ∷ l) ≡ as_bytes ix ++ index_bytes l
unfolding index_bytes
index_bytes-cons ix l = refl

-- Of the bytes of `n` indices each chunk of 12 is read.
read_chunks :
    (n fuel : ℕ) (bytes : List ℕ)
    → length bytes ≡ 12 * n
    → length bytes ≤ fuel
    → All IsByte bytes
    → (l : IndexList) × (filter_map Index.try_from_bytes (chunks fuel 12 bytes) ≡ l)
      × (length l ≡ n)
      × (index_bytes l ≡ bytes)
      × All IsIndex l
read_chunks zero fuel [] h k b = ([], no_chunk fuel, refl, unfold index_bytes in refl, tt)
  where
    no_chunk : (fuel : ℕ) → filter_map Index.try_from_bytes (chunks fuel 12 []) ≡ []
    no_chunk zero = unfold chunks filter_map in refl
    no_chunk (suc fuel) = unfold chunks filter_map in refl
read_chunks zero fuel (x ∷ bytes) h k b = absurd (omega arith)
read_chunks (suc n) zero bytes h k b = absurd (omega arith)
read_chunks (suc n) (suc fuel) bytes h k b =
    let (lt, ld) = length-take-drop 12 bytes (omega arith) in
    let (bt, bd) = All-take-drop IsByte 12 bytes b in
    let (ix, e) = Index-read (take 12 bytes) lt in
    let (same, fits) = as-try_from_bytes (take 12 bytes) ix bt e in
    let (l, p, q, r, s) = read_chunks n fuel (drop 12 bytes) (omega arith) (omega arith) bd in
    let split = take-append-drop 12 bytes in
    let first =
      rw split at (chunks-append fuel 12 (take 12 bytes) (drop 12 bytes) (omega arith) lt) in
    let step =
      filter_map-cons-some Index.try_from_bytes (take 12 bytes) (chunks fuel 12 (drop 12 bytes))
        e in
    (
      ix ∷ l,
      ap (filter_map Index.try_from_bytes) first ∙ step ∙ ap (◌∷◌ ix) p,
      omega (arith, q),
      index_bytes-cons ix l ∙ ap₂ ◌++◌ same r ∙ split,
      (fits, s),
    )

-- Bytes are read as a list of indices exactly when their number is a multiple of 12, and what is
-- read has just those bytes and is made of machine words.
pub try_from_bytes_cases :
    (bytes : List ℕ)
    → All IsByte bytes
    → (length bytes % 12 ≡ 0
        → (l : IndexList) × (try_from_bytes bytes ≡ some l)
          × (index_bytes l ≡ bytes)
          × All IsIndex l)
      × (length bytes % 12 ≢ 0 → try_from_bytes bytes ≡ none)
unfolding try_from_bytes
try_from_bytes_cases bytes b = (
  λ h.
      let (l, p, q, r, s) =
        read_chunks (length bytes / 12) (length bytes) bytes (omega arith) (omega arith) b in
      (l, ground (arith, p, q), r, s),
  λ h. ground arith,
)
