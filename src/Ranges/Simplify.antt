-- ===== src/Ranges/Simplify.antt =====
-- `simplify` joins ranges that touch, and covers the same heights.
use kassandra_service.Common.{
  ℕ, ◌+◌, ◌^◌, ◌≤◌, ◌<◌, ◌≡◌, refl, true, false, ◌||◌, List, [], ◌∷◌, ◌++◌, leb, ◌==◌, arith, ◌&&◌,
  inl, inr, Bool-cases,
}
use kassandra_service.Ranges.{joined, simplify_loop, last, simplify}
use kassandra_service.Ranges.Cover.{Spaced, Spaced-lower, covers}

-- On u64 ends in order the wrap-around of `b.0 - 1` is not met.
joined_lem : (b c : ℕ) → b < c → c < 2 ^ 64 → joined b c ≡ (c == b + 1)
unfolding joined
joined_lem b c h k = ground arith

-- The loop from the end `b` of a range that began at `a`.
simplified : ℕ → ℕ → List ℕ → List ℕ
unfolding simplify_loop last
simplified a b r = a ∷ (simplify_loop (b ∷ r) ++ last b r ∷ [])

simplified-joined :
    (a b c d : ℕ) (r : List ℕ) → joined b c ≡ true → simplified a b (c ∷ d ∷ r) ≡ simplified a d r
unfolding simplified
simplified-joined a b c d r e = rw (e, simplify_loop)

simplified_apart :
    (a b c d : ℕ) (r : List ℕ)
    → joined b c ≡ false
    → simplified a b (c ∷ d ∷ r) ≡ a ∷ b ∷ simplified c d r
unfolding simplified
simplified_apart a b c d r e = rw (e, simplify_loop)

-- `simplify` leaves a missing height between any two ranges.
simplified-Spaced :
    (lo a b : ℕ) (r : List ℕ)
    → lo ≤ a
    → a ≤ b
    → b < 2 ^ 64
    → Spaced 0 (b + 1) r
    → Spaced 1 lo (simplified a b r)
simplified-Spaced lo a b [] h k l s = unfold simplified in (h, k, l, tt)
simplified-Spaced lo a b (c ∷ []) h k l s = absurd s
simplified-Spaced lo a b (c ∷ d ∷ r) h k l (lc, cd, small, s) = elim (Bool-cases (joined b c)) [
  | inl e ↦
      rw (simplified-joined a b c d r e)
        (simplified-Spaced lo a d r h (omega arith) small (Spaced-lower 0 r (omega arith) s))
  | inr e ↦ rw (simplified_apart a b c d r e) (
    h,
    k,
    l,
    simplified-Spaced (b + 1 + 1) c d r (ground (arith, joined_lem b c, e)) cd small
        (Spaced-lower 0 r (omega arith) s),
  )
]

covers-simplified :
    (a b : ℕ) (r : List ℕ) (h : ℕ)
    → a ≤ b
    → b < 2 ^ 64
    → Spaced 0 (b + 1) r
    → covers (simplified a b r) h ≡ leb a h && leb h b || covers r h
unfolding covers
covers-simplified a b [] h k l s = unfold simplified in refl
covers-simplified a b (c ∷ []) h k l s = absurd s
covers-simplified a b (c ∷ d ∷ r) h k l (lc, cd, small, s) =
    let s' : Spaced 0 (d + 1) r = Spaced-lower 0 r (omega arith) s in
    elim (Bool-cases (joined b c)) [
      | inl e ↦
          rw (simplified-joined a b c d r e, covers-simplified a d r h (omega arith) small s')
            (ground (arith, joined_lem b c, e))
      | inr e ↦
          rw (simplified_apart a b c d r e) (ground (arith, covers-simplified c d r h cd small s'))
    ]

pub simplify-IsRanges : (l : List ℕ) → Spaced 0 0 l → Spaced 1 0 (simplify l)
unfolding simplify
simplify-IsRanges [] s = tt
simplify-IsRanges (a ∷ []) s = absurd s
simplify-IsRanges (a ∷ b ∷ r) s =
    unfold simplified in
    simplified-Spaced 0 a b r (omega arith) s.1 s.2 (Spaced-lower 0 r (omega arith) s.3)

pub covers-simplify : (l : List ℕ) (h : ℕ) → Spaced 0 0 l → covers (simplify l) h ≡ covers l h
unfolding simplify
covers-simplify [] h s = refl
covers-simplify (a ∷ []) h s = absurd s
covers-simplify (a ∷ b ∷ r) h s =
    unfold simplified covers in
    covers-simplified a b r h s.1 s.2 (Spaced-lower 0 r (omega arith) s.3)
