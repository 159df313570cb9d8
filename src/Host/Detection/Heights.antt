-- ===== src/Host/Detection/Heights.antt =====
-- The heights that the host looks up: `sort` and `dedup` of `handle_fmd`.
use kassandra_service.Common.{
  ℕ, ◌≤◌, ◌<◌, ◌≡◌, ◌≢◌, ◌∙◌, refl, Bool, true, false, ◌||◌, List, [], ◌∷◌, ◌==◌, All, arith,
}
use kassandra_service.Host.{insort, sort, dedup_from, dedup}

abbrev pub among : ℕ → List ℕ → Bool
among h [] = false
among h (x ∷ xs) = h == x || among h xs

abbrev pub IsIncreasing : List ℕ → Type 0
IsIncreasing [] = Unit {0}
IsIncreasing (x ∷ xs) = All (λ y. x < y) xs × IsIncreasing xs

abbrev IsSorted : List ℕ → Type 0
IsSorted [] = Unit {0}
IsSorted (x ∷ xs) = All (λ y. x ≤ y) xs × IsSorted xs

among-insort : (h x : ℕ) (l : List ℕ) → among h (insort x l) ≡ h == x || among h l
unfolding insort
among-insort h x [] = refl
among-insort h x (y ∷ l) = ground (arith, among-insort h x l)

among-sort : (h : ℕ) (l : List ℕ) → among h (sort l) ≡ among h l
unfolding sort
among-sort h [] = refl
among-sort h (x ∷ l) = among-insort h x (sort l) ∙ rw (among-sort h l) refl

among-dedup_from : (h x : ℕ) (l : List ℕ) → among h (dedup_from x l) ≡ h == x || among h l
unfolding dedup_from
among-dedup_from h x [] = refl
among-dedup_from h x (y ∷ l) = ground (arith, among-dedup_from h y l)

among-dedup : (h : ℕ) (l : List ℕ) → among h (dedup l) ≡ among h l
unfolding dedup
among-dedup h [] = refl
among-dedup h (x ∷ l) = among-dedup_from h x l

-- What is looked up is what was asked for.
pub among-heights : (h : ℕ) (l : List ℕ) → among h (dedup (sort l)) ≡ among h l
among-heights h l = among-dedup h (sort l) ∙ among-sort h l

insort-All : (y x : ℕ) (l : List ℕ) → y ≤ x → All (λ z. y ≤ z) l → All (λ z. y ≤ z) (insort x l)
unfolding insort
insort-All y x [] h a = (h, tt)
insort-All y x (z ∷ l) h a = ground (arith, insort-All y x l h a.1)

lower : (x y : ℕ) (l : List ℕ) → x ≤ y → All (λ z. y ≤ z) l → All (λ z. x ≤ z) l
lower x y [] h a = tt
lower x y (z ∷ l) h a = (omega (arith, a.0), lower x y l h a.1)

strictly : (x y : ℕ) (l : List ℕ) → x < y → All (λ z. y ≤ z) l → All (λ z. x < z) l
strictly x y [] h a = tt
strictly x y (z ∷ l) h a = (omega (arith, a.0), strictly x y l h a.1)

insort-IsSorted : (x : ℕ) (l : List ℕ) → IsSorted l → IsSorted (insort x l)
unfolding insort
insort-IsSorted x [] s = (tt, tt)
insort-IsSorted x (y ∷ l) (a, s) =
    ground (arith, insort-IsSorted x l s, insort-All y x l, lower x y l)

sort-IsSorted : (l : List ℕ) → IsSorted (sort l)
unfolding sort
sort-IsSorted [] = tt
sort-IsSorted (x ∷ l) = insort-IsSorted x (sort l) (sort-IsSorted l)

dedup_from-All :
    (y x : ℕ) (l : List ℕ) → y ≤ x → All (λ z. y ≤ z) l → All (λ z. y ≤ z) (dedup_from x l)
unfolding dedup_from
dedup_from-All y x [] h a = (h, tt)
dedup_from-All y x (z ∷ l) h a = ground (arith, dedup_from-All y z l a.0 a.1)

dedup_from-IsIncreasing : (x : ℕ) (l : List ℕ) → IsSorted (x ∷ l) → IsIncreasing (dedup_from x l)
unfolding dedup_from
dedup_from-IsIncreasing x [] s = (tt, tt)
dedup_from-IsIncreasing x (y ∷ l) (a, s) = ground (
  arith,
  a.0,
  a.1,
  dedup_from-IsIncreasing y l s,
  strictly x y (dedup_from y l),
  dedup_from-All y y l,
)

dedup-IsIncreasing : (l : List ℕ) → IsSorted l → IsIncreasing (dedup l)
unfolding dedup
dedup-IsIncreasing [] s = tt
dedup-IsIncreasing (x ∷ l) s = dedup_from-IsIncreasing x l s

-- No height is looked up twice.
pub heights-IsIncreasing : (l : List ℕ) → IsIncreasing (dedup (sort l))
heights-IsIncreasing l = dedup-IsIncreasing (sort l) (sort-IsSorted l)

pub absent-cons : (h x : ℕ) (l : List ℕ) → among h (x ∷ l) ≡ false → (h ≢ x) × (among h l ≡ false)
absent-cons h x l a = ground arith

-- The first of increasing heights is not among the others.
pub IsIncreasing-absent : (h x : ℕ) (l : List ℕ) → h ≤ x → All (λ y. x < y) l → among h l ≡ false
IsIncreasing-absent h x [] b a = refl
IsIncreasing-absent h x (y ∷ l) b a = ground (arith, IsIncreasing-absent h x l b a.1)

-- Where nothing is looked up, nothing was asked for.
pub heights_empty : (l : List ℕ) → dedup (sort l) ≡ [] → l ≡ []
heights_empty [] p = refl
heights_empty (x ∷ l) p =
    let own : among x (x ∷ l) ≡ true = ground arith in cc (rw p at (among-heights x (x ∷ l) ∙ own))
