-- ===== src/Client/Config/Numbering.antt =====
-- The services of a key are numbered from 1 on, in the order in which they were added.
use kassandra_service.Common.{
  ℕ, ◌+◌, ◌^◌, ◌-◌, ◌%◌, ◌<◌, ◌≡◌, refl, sym, ◌∙◌, true, false, List, [], ◌∷◌, ◌++◌, some, ok,
  if◌then◌else◌, length, length-append, get_elem?, arith, Bool-cases, inl, inr,
}
use kassandra_service.Client.Config.{
  Service, Config, max_index, add_service, get_services, insort, sort, dedup_from, dedup, save,
  registrations,
}
use mathlib.Core.List.{append_assoc}
use Prim.Native.String.{String}
use text.Mathlib.TextEquality.{eq_iff}
use text.Mathlib.Text.{◌==◌ as str_eq}

abbrev pub IsNumbered : ℕ → List Service → Type 0
IsNumbered n [] = Unit
IsNumbered n (s ∷ ss) = (s.index ≡ n) × IsNumbered (n + 1) ss

abbrev pub IsConfig : Config → Type 0
IsConfig c = (key : String) → IsNumbered 1 (get_services c key)

max_index_lem :
    (n : ℕ) (ss : List Service) (s : Service)
    → IsNumbered n (s ∷ ss)
    → max_index (s ∷ ss) + 1 ≡ n + length (s ∷ ss)
unfolding max_index
max_index_lem n [] s p = ground arith
max_index_lem n (t ∷ ss) s p = ground (arith, max_index_lem (n + 1) ss t p.1)

next_index : (ss : List Service) → IsNumbered 1 ss → max_index ss + 1 ≡ 1 + length ss
unfolding max_index
next_index [] p = refl
next_index (s ∷ ss) p = max_index_lem 1 ss s p

IsNumbered-append :
    (n : ℕ) (ss : List Service) (s : Service)
    → IsNumbered n ss
    → s.index ≡ n + length ss
    → IsNumbered n (ss ++ s ∷ [])
IsNumbered-append n [] s p q = (omega arith, tt)
IsNumbered-append n (t ∷ ss) s p q = (p.0, IsNumbered-append (n + 1) ss s p.1 (omega arith))

sorted_insort :
    (n : ℕ) (s : Service) (ss : List Service) → IsNumbered n (s ∷ ss) → insort s ss ≡ s ∷ ss
unfolding insort
sorted_insort n s [] p = refl
sorted_insort n s (t ∷ ss) p = ground arith

sort_numbered : (n : ℕ) (ss : List Service) → IsNumbered n ss → sort ss ≡ ss
unfolding sort
sort_numbered n [] p = refl
sort_numbered n (s ∷ ss) p = rw (sort_numbered (n + 1) ss p.1) (sorted_insort n s ss p)

dedup_numbered :
    (n : ℕ) (s : Service) (ss : List Service) → IsNumbered n (s ∷ ss) → dedup_from s ss ≡ s ∷ ss
unfolding dedup_from
dedup_numbered n s [] p = refl
dedup_numbered n s (t ∷ ss) p = ground (arith, dedup_numbered (n + 1) t ss p.1)

dedup-sort : (ss : List Service) → IsNumbered 1 ss → dedup (sort ss) ≡ ss
unfolding dedup
dedup-sort [] p = rw (sort_numbered 1 [] p) refl
dedup-sort (s ∷ ss) p = rw (sort_numbered 1 (s ∷ ss) p) (dedup_numbered 1 s ss p)

get_services-save_lem :
    (c : Config) (key : String) → get_services (save c) key ≡ dedup (sort (get_services c key))
unfolding save get_services
get_services-save_lem [] key = rw (dedup-sort [] tt) refl
get_services-save_lem ((k, ss) ∷ r) key = elim (Bool-cases (str_eq k key)) [
  | inl same ↦ rw same refl
  | inr other ↦ rw other (get_services-save_lem r key)
]

-- If the services of each key are numbered from 1 on, `save` changes those of no key: it drops none
-- and moves none.
pub get_services-save :
    (c : Config) (key : String) → IsConfig c → get_services (save c) key ≡ get_services c key
get_services-save c key h = get_services-save_lem c key ∙ dedup-sort (get_services c key) (h key)

-- The service that `add_service` adds behind those that a key has.
abbrev pub added : List Service → String → List ℕ → List Service
added ss url enc_key = ss ++ record { url = url; index = length ss + 1; enc_key = enc_key } ∷ []

-- `add_service` adds one service to its key, with the next number, and leaves the other keys as
-- they were, if the services of its key are numbered from 1 on and fewer than 2 ^ 64 - 1.
pub add_service-services :
    (c : Config) (key url : String) (enc_key : List ℕ) (k : String)
    → IsNumbered 1 (get_services c key)
    → length (get_services c key) + 1 < 2 ^ 64
    → get_services (add_service c key url enc_key) k
      ≡ (if str_eq key k then added (get_services c key) url enc_key else get_services c k)
unfolding add_service get_services
add_service-services [] key url enc_key k h small = elim (Bool-cases (str_eq key k)) [
  | inl same ↦ rw same refl
  | inr other ↦ rw other refl
]
add_service-services ((j, ss) ∷ r) key url enc_key k h small = elim (Bool-cases (str_eq j key)) [
  | inl same ↦
      let j_key : j ≡ key = (eq_iff j key).0 same in
      let start = rw same at h in
      let short = rw same at small in
      let number : (max_index ss + 1) % 2 ^ 64 ≡ length ss + 1 =
        omega (arith, next_index ss start) in
      elim (Bool-cases (str_eq key k)) [
        | inl k_same ↦
            let j_same : str_eq j k ≡ true = rw j_key k_same in
            rw (same, number, j_same, k_same) refl
        | inr k_other ↦
            let j_other : str_eq j k ≡ false = rw j_key k_other in rw (same, j_other, k_other) refl
      ]
  | inr other ↦
      let step = add_service-services r key url enc_key k (rw other at h) (rw other at small) in
      elim (Bool-cases (str_eq key k)) [
        | inl k_same ↦
            let j_other : str_eq j k ≡ false = rw (sym ((eq_iff key k).0 k_same)) other in
            rw (other, j_other, k_same) (rw k_same at step)
        | inr k_other ↦
            rw (other, k_other)
              (elim (Bool-cases (str_eq j k)) [
                | inl j_same ↦ rw j_same refl
                | inr j_other ↦ rw j_other (rw k_other at step)
              ])
      ]
]

-- If the services of each key are numbered from 1 on, and those of the key are fewer than 2 ^ 64 -
-- 1, then after `add_service` the services of each key are numbered from 1 on.
pub add_service-IsConfig :
    (c : Config) (key url : String) (enc_key : List ℕ)
    → IsConfig c
    → length (get_services c key) + 1 < 2 ^ 64
    → IsConfig (add_service c key url enc_key)
add_service-IsConfig c key url enc_key h small k =
    rw (add_service-services c key url enc_key k (h key) small) (elim (Bool-cases (str_eq key k)) [
      | inl same ↦ rw same (IsNumbered-append 1 (get_services c key) _ (h key) (omega arith))
      | inr other ↦ rw other (h k)
    ])

-- Each service with its key, in order.
abbrev pub zip {ℓ} : {K : Type ℓ} → List Service → List K → List (Service × K)
zip [] keys = []
zip (s ∷ ss) [] = []
zip (s ∷ ss) (k ∷ ks) = (s, k) ∷ zip ss ks

get_elem?-middle :
    {K : Type 0}
    → (before after : List K) (k : K) → get_elem? (before ++ k ∷ after) (length before) ≡ some k
get_elem?-middle [] after k = refl
get_elem?-middle (x ∷ before) after k = get_elem?-middle before after k

registrations_from :
    {K : Type 0}
    → (before keys : List K) (ss : List Service) → IsNumbered (length before + 1) ss
    → length keys ≡ length ss
    → length before + length keys < 2 ^ 64
    → registrations (before ++ keys) ss ≡ ok (zip ss keys)
unfolding registrations
registrations_from before [] [] p q small = refl
registrations_from before (k ∷ ks) [] p q small = absurd (omega arith)
registrations_from before [] (s ∷ ss) p q small = absurd (omega arith)
registrations_from before (k ∷ ks) (s ∷ ss) p q small =
    let n = length-append before (k ∷ []) in
    let number : (s.index + 2 ^ 64 - 1) % 2 ^ 64 ≡ length before = omega (arith, p.0) in
    let next : length before + 1 + 1 ≡ length (before ++ k ∷ []) + 1 = omega (arith, n) in
    let rest =
      registrations_from (before ++ k ∷ []) ks ss (rw next at p.1) (omega arith)
        (omega (arith, n)) in
    rw
      (
        registrations,
        number,
        get_elem?-middle before ks k,
        rw (append_assoc before (k ∷ []) ks) at rest,
      )
      refl

-- If a key has as many detection keys as numbered services, fewer than 2 ^ 64, no registration
-- panics, and each service gets the detection key of its place.
pub registrations_lem :
    {K : Type 0}
    → (keys : List K) (ss : List Service) → IsNumbered 1 ss
    → length keys ≡ length ss
    → length keys < 2 ^ 64
    → registrations keys ss ≡ ok (zip ss keys)
registrations_lem keys ss p q small = registrations_from [] keys ss p q (omega arith)
