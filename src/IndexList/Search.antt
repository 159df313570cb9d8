-- ===== src/IndexList/Search.antt =====
-- Binary search on a list in order finds an element exactly when there is one.
use kassandra_service.Common.{
  ℕ, zero, suc, ◌+◌, ◌-◌, ◌/◌, ◌≤◌, ◌<◌, ◌≡◌, ◌≢◌, ◌⊎◌, ◌↔◌, inl, inr, refl, true, false, [], ◌∷◌,
  some, leb, length, get_elem?, arith, Ordering, Option-cases, Bool-cases,
}
use native.Mathlib.Decide.{dec_lt}
use kassandra_service.Index.{Index}
use kassandra_service.IndexList.{IndexList, probe, search_loop, is_eq, binary_search_by}

pub get_elem?-lt :
    (xs : IndexList) (i : ℕ) → i < length xs → (x : Index) × (get_elem? xs i ≡ some x)
get_elem?-lt [] i h = absurd (omega arith)
get_elem?-lt (x ∷ xs) zero h = (x, refl)
get_elem?-lt (x ∷ xs) (suc i) h = get_elem?-lt xs i (omega arith)

pub get_elem?-some : (xs : IndexList) (i : ℕ) (x : Index) → get_elem? xs i ≡ some x → i < length xs
get_elem?-some [] i x e = cc
get_elem?-some (y ∷ xs) zero x e = omega arith
get_elem?-some (y ∷ xs) (suc i) x e = omega (arith, get_elem?-some xs i x e)

is_eq_sound : (o : Ordering) → is_eq o ≡ true → o ≡ Ordering.eq
unfolding is_eq
is_eq_sound Ordering.eq h = refl
is_eq_sound Ordering.lt h = cc
is_eq_sound Ordering.gt h = cc

module _ (f : Index → Ordering) (xs : IndexList) where
  abbrev pub At : ℕ → Ordering → Type 0
  At i o = (x : Index) × (get_elem? xs i ≡ some x) × (f x ≡ o)

  -- The comparisons go from `lt` over `eq` to `gt` along the list.
  pub record IsMonotone : Type 0 where
    pub below : (i j : ℕ) → i ≤ j → At j Ordering.lt → At i Ordering.lt
    pub above : (i j : ℕ) → i ≤ j → j < length xs → At i Ordering.gt → At j Ordering.gt

  -- The range that is left: nothing equal stands outside it.
  record Left (size base : ℕ) : Type 0 where
    fits : base + size ≤ length xs
    some_left : 0 < size
    reached : (base ≡ 0) ⊎ ((x : Index) × (get_elem? xs base ≡ some x) × (f x ≢ Ordering.gt))
    beyond : (j : ℕ) → base + size ≤ j → j < length xs → At j Ordering.gt

  halve :
      (size base : ℕ) (x : Index) (o : Ordering)
      → 1 < size
      → IsMonotone
      → Left size base
      → get_elem? xs (base + size / 2) ≡ some x
      → f x ≡ o
      → Left (size - size / 2) (probe f (some x) base (base + size / 2))
  unfolding probe
  halve size base x Ordering.gt h m l e o =
      rw (o, probe)
        (record {
          fits = omega (arith, l.fits);
          some_left = omega arith;
          reached = l.reached;
          beyond = λ j k lt. m.above (base + size / 2) j (omega arith) lt (x, e, o);
        })
  halve size base x Ordering.lt h m l e o =
      rw (o, probe)
        (record {
          fits = omega (arith, l.fits);
          some_left = omega arith;
          reached = inr (x, e, λ q. cc);
          beyond = λ j k lt. l.beyond j (omega arith) lt;
        })
  halve size base x Ordering.eq h m l e o =
      rw (o, probe)
        (record {
          fits = omega (arith, l.fits);
          some_left = omega arith;
          reached = inr (x, e, λ q. cc);
          beyond = λ j k lt. l.beyond j (omega arith) lt;
        })

  search-Left :
      (fuel size base : ℕ)
      → size ≤ fuel
      → IsMonotone
      → Left size base
      → Left 1 (search_loop f xs fuel size base)
  search-Left zero size base h m l = absurd (omega (arith, l.some_left))
  search-Left (suc fuel) size base h m l = elim (Bool-cases (leb size 1)) [
    | inl done ↦
        let one : size ≡ 1 = ground (arith, l.some_left) in
        unfold search_loop in rw done (rw one at l)
    | inr more ↦
        let gt : 1 < size = ground arith in
        let (x, e) = get_elem?-lt xs (base + size / 2) (omega (arith, l.fits)) in
        let rest =
          search-Left fuel (size - size / 2) (probe f (some x) base (base + size / 2)) (omega arith)
            m (halve size base x (f x) gt m l e refl) in
        step fuel size base x e more rest
  ]
    where
      step :
          (fuel size base : ℕ) (x : Index)
          → get_elem? xs (base + size / 2) ≡ some x
          → leb size 1 ≡ false
          → Left 1
              (search_loop f xs fuel (size - size / 2) (probe f (some x) base (base + size / 2)))
          → Left 1 (search_loop f xs (suc fuel) size base)
      step fuel size base x e more rest = unfold search_loop in rw (more, e) rest

  -- Two answers of `get_elem?` at one index are one.
  At-unique : (i : ℕ) (o o' : Ordering) → At i o → At i o' → o ≡ o'
  At-unique i o o' (x, e, p) (y, e', p') = cc

  start : (i : ℕ) (o : Ordering) → At i o → Left (length xs) 0
  start i o (x, e, p) = record {
    fits = omega arith;
    some_left = omega (arith, get_elem?-some xs i x e);
    reached = inl refl;
    beyond = λ j k lt. absurd (omega arith);
  }

  last_left :
      (i base : ℕ) (y : Index)
      → At i Ordering.eq
      → IsMonotone
      → Left 1 base
      → get_elem? xs base ≡ some y
      → f y ≡ Ordering.eq
  last_left i base y (x, e, p) m l g = elim (dec_lt base i) [
    | yes lt ↦ cc (
        At-unique i Ordering.gt Ordering.eq (l.beyond i (omega arith) (get_elem?-some xs i x e))
          (x, e, p))
    | no ge ↦ elim l.reached [
      | inl z ↦
          let same : i ≡ base = omega arith in
          cc (At-unique base (f y) Ordering.eq (y, g, refl) (rw same at e_at))
      | inr (y', g', q) ↦ by_order (f y) refl (known y y' g g' q) (omega arith)
    ]
  ]
    where
      e_at : At i Ordering.eq
      e_at = (x, e, p)

      known :
          (y y' : Index)
          → get_elem? xs base ≡ some y
          → get_elem? xs base ≡ some y'
          → f y' ≢ Ordering.gt
          → f y ≢ Ordering.gt
      known y y' g g' q r = q (At-unique base (f y') Ordering.gt (y', g', refl) (y, g, r))

      by_order : (o : Ordering) → f y ≡ o → f y ≢ Ordering.gt → i ≤ base → f y ≡ Ordering.eq
      by_order Ordering.lt q n le =
          cc (At-unique i Ordering.lt Ordering.eq (m.below i base le (y, g, q)) e_at)
      by_order Ordering.eq q n le = q
      by_order Ordering.gt q n le = absurd (n q)

  -- With comparisons in order the search succeeds exactly when an element compares equal.
  pub binary_search_by_iff :
      IsMonotone → (binary_search_by f xs ≡ true) ↔ ((i : ℕ) × At i Ordering.eq)
  unfolding binary_search_by
  binary_search_by_iff m = (forward, backward)
    where
      base : ℕ
      base = search_loop f xs (length xs) (length xs) 0

      forward : binary_search_by f xs ≡ true → (i : ℕ) × At i Ordering.eq
      forward h = elim (Option-cases (get_elem? xs base)) [
        | inl e ↦ cc (rw (e, binary_search_by) at h)
        | inr (x, e) ↦ (base, (x, e, is_eq_sound (f x) (rw (e, binary_search_by) at h)))
      ]

      backward : ((i : ℕ) × At i Ordering.eq) → binary_search_by f xs ≡ true
      backward (i, a) =
          let l = search-Left (length xs) (length xs) 0 (omega arith) m (start i Ordering.eq a) in
          let (y, g) = get_elem?-lt xs base (omega (arith, l.fits)) in
          rw (g, binary_search_by, last_left i base y a m l g)
