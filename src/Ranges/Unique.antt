-- ===== src/Ranges/Unique.antt =====
-- A set of heights has one `FetchedRanges`.
use kassandra_service.Common.{ℕ, ◌+◌, ◌≤◌, ◌≡◌, refl, sym, List, [], ◌∷◌, arith}
use kassandra_service.Ranges.Cover.{Spaced, covers, covers_below}

-- Where two lists of ranges cover the same, neither begins before the other.
begin_le :
    (lo lo' a b a' b' : ℕ) (r r' : List ℕ)
    → Spaced 1 lo (a ∷ b ∷ r)
    → Spaced 1 lo' (a' ∷ b' ∷ r')
    → ((h : ℕ) → covers (a ∷ b ∷ r) h ≡ covers (a' ∷ b' ∷ r') h)
    → a' ≤ a
unfolding covers
begin_le lo lo' a b a' b' r r' s s' same =
    ground (arith, same a, covers_below 1 (b' + 1 + 1) r' a s'.3)

-- Nor does the first range of one end before that of the other.
end_le :
    (lo lo' a b b' : ℕ) (r r' : List ℕ)
    → Spaced 1 lo (a ∷ b ∷ r)
    → Spaced 1 lo' (a ∷ b' ∷ r')
    → ((h : ℕ) → covers (a ∷ b ∷ r) h ≡ covers (a ∷ b' ∷ r') h)
    → b ≤ b'
unfolding covers
end_le lo lo' a b b' r r' s s' same =
    ground (arith, same (b' + 1), covers_below 1 (b' + 1 + 1) r' (b' + 1) s'.3)

same_rest :
    (lo a b : ℕ) (r r' : List ℕ)
    → Spaced 1 lo (a ∷ b ∷ r)
    → Spaced 1 lo (a ∷ b ∷ r')
    → ((h : ℕ) → covers (a ∷ b ∷ r) h ≡ covers (a ∷ b ∷ r') h)
    → (h : ℕ) → covers r h ≡ covers r' h
unfolding covers
same_rest lo a b r r' s s' same h =
    ground (arith, same h, covers_below 1 (b + 1 + 1) r h s.3, covers_below 1 (b + 1 + 1) r' h s'.3)

-- Two lists of ranges in order that cover the same heights are equal.
pub covers_unique :
    (lo : ℕ) (l l' : List ℕ)
    → Spaced 1 lo l
    → Spaced 1 lo l'
    → ((h : ℕ) → covers l h ≡ covers l' h)
    → l ≡ l'
unfolding covers
covers_unique lo [] [] s s' same = refl
covers_unique lo [] (a ∷ []) s s' same = absurd s'
covers_unique lo [] (a ∷ b ∷ r) s s' same = ground (arith, same a)
covers_unique lo (a ∷ []) l' s s' same = absurd s
covers_unique lo (a ∷ b ∷ r) [] s s' same = ground (arith, same a)
covers_unique lo (a ∷ b ∷ r) (a' ∷ []) s s' same = absurd s'
covers_unique lo (a ∷ b ∷ r) (a' ∷ b' ∷ r') s s' same =
    let ea : a' ≡ a = omega (
      arith,
      begin_le lo lo a b a' b' r r' s s' same,
      begin_le lo lo a' b' a b r' r s' s (λ h. sym (same h)),
    ) in
    let s₁ : Spaced 1 lo (a ∷ b' ∷ r') = rw ea at s' in
    let same₁ : (h : ℕ) → covers (a ∷ b ∷ r) h ≡ covers (a ∷ b' ∷ r') h = λ h. rw ea at (same h) in
    let eb : b' ≡ b = omega (
      arith,
      end_le lo lo a b b' r r' s s₁ same₁,
      end_le lo lo a b' b r' r s₁ s (λ h. sym (same₁ h)),
    ) in
    let s₂ : Spaced 1 lo (a ∷ b ∷ r') = rw eb at s₁ in
    let rest =
      covers_unique (b + 1 + 1) r r' s.3 s₂.3
        (same_rest lo a b r r' s s₂ (λ h. rw eb at (same₁ h))) in
    rw (ea, eb, rest) refl
