-- ===== src/IndexList/Members.antt =====
-- Membership, order and greatest height of index lists, and what the helpers of `combine` and
-- `union` do to them.
use kassandra_service.Common.{
  ℕ, ◌≤◌, ◌<◌, ◌≡◌, ◌⊎◌, refl, ap, ◌∙◌, Bool, true, false, ◌&&◌, ◌||◌, [], ◌∷◌, ◌++◌, ◌==◌, arith,
  All,
}
use Prim.Native.Nat.{max}
use kassandra_service.Index.{Index}
use kassandra_service.IndexList.{IndexList, insort, sort, last_height, retain}

abbrev pub same : Index → Index → Bool
same a b = a.height == b.height && a.tx == b.tx

unfoldable pub mem : Index → IndexList → Bool
mem k [] = false
mem k (x ∷ xs) = same k x || mem k xs

abbrev pub has_height : ℕ → IndexList → Bool
has_height h [] = false
has_height h (x ∷ xs) = h == x.height || has_height h xs

abbrev pub Le : Index → Index → Type 0
Le a b = (a.height < b.height) ⊎ ((a.height ≡ b.height) × (a.tx ≤ b.tx))

abbrev pub IsSorted : IndexList → Type 0
IsSorted [] = Unit {0}
IsSorted (x ∷ xs) = All (Le x) xs × IsSorted xs

-- In order, and no index twice.
abbrev pub Lt : Index → Index → Type 0
Lt a b = (a.height < b.height) ⊎ ((a.height ≡ b.height) × (a.tx < b.tx))

abbrev pub IsStrict : IndexList → Type 0
IsStrict [] = Unit {0}
IsStrict (x ∷ xs) = All (Lt x) xs × IsStrict xs

unfoldable pub max_height : IndexList → ℕ
max_height [] = 0
max_height (x ∷ xs) = max x.height (max_height xs)

insort-All : (y x : Index) (l : IndexList) → Le y x → All (Le y) l → All (Le y) (insort x l)
unfolding insort
insort-All y x [] h a = (h, tt)
insort-All y x (z ∷ l) h a = ground (arith, insort-All y x l h a.1)

All-trans : (x y : Index) (l : IndexList) → Le x y → All (Le y) l → All (Le x) l
All-trans x y [] h a = tt
All-trans x y (z ∷ l) h a = (ground (arith, a.0), All-trans x y l h a.1)

insort-IsSorted : (x : Index) (l : IndexList) → IsSorted l → IsSorted (insort x l)
unfolding insort
insort-IsSorted x [] s = (tt, tt)
insort-IsSorted x (y ∷ l) (a, s) =
    ground (arith, insort-IsSorted x l s, insort-All y x l, All-trans x y l)

pub sort-IsSorted : (l : IndexList) → IsSorted (sort l)
unfolding sort
sort-IsSorted [] = tt
sort-IsSorted (x ∷ l) = insort-IsSorted x (sort l) (sort-IsSorted l)

mem-insort : (k x : Index) (l : IndexList) → mem k (insort x l) ≡ same k x || mem k l
unfolding insort mem
mem-insort k x [] = refl
mem-insort k x (y ∷ l) = ground (arith, mem-insort k x l)

pub mem-sort : (k : Index) (l : IndexList) → mem k (sort l) ≡ mem k l
unfolding sort mem
mem-sort k [] = refl
mem-sort k (x ∷ l) = mem-insort k x (sort l) ∙ ap (λ b. same k x || b) (mem-sort k l)

pub mem-append : (k : Index) (xs ys : IndexList) → mem k (xs ++ ys) ≡ mem k xs || mem k ys
unfolding mem
mem-append k [] ys = refl
mem-append k (x ∷ xs) ys = ground (arith, mem-append k xs ys)

pub mem-retain :
    (p : Index → Bool) (k : Index) (l : IndexList) → mem k (retain p l) ≡ mem k l && p k
unfolding retain mem
mem-retain p k [] = refl
mem-retain p k (x ∷ l) = ground (arith, mem-retain p k l, same_eq p k x)
  where
    same_eq : (p : Index → Bool) (k x : Index) → same k x ≡ true → p k ≡ p x
    same_eq p k x h = ap p (ground arith)

max_height-insort :
    (x : Index) (l : IndexList) → max_height (insort x l) ≡ max x.height (max_height l)
unfolding insort max_height
max_height-insort x [] = refl
max_height-insort x (y ∷ l) = ground (arith, max_height-insort x l)

pub max_height-sort : (l : IndexList) → max_height (sort l) ≡ max_height l
unfolding sort max_height
max_height-sort [] = refl
max_height-sort (x ∷ l) = max_height-insort x (sort l) ∙ ap (max x.height) (max_height-sort l)

pub mem_bound : (k : Index) (l : IndexList) → mem k l ≡ true → k.height ≤ max_height l
unfolding mem max_height
mem_bound k [] h = cc
mem_bound k (x ∷ l) h = ground (arith, mem_bound k l)

-- In a sorted list the last height is the greatest.
pub last_height-max :
    (d : ℕ) (l : IndexList)
    → IsSorted l
    → All (λ x. d ≤ x.height) l
    → max d (max_height l) ≡ last_height d l
unfolding last_height max_height
last_height-max d [] s a = omega arith
last_height-max d (x ∷ l) (b, s) a = omega (arith, last_height-max x.height l s (heights x l b))
  where
    heights : (x : Index) (l : IndexList) → All (Le x) l → All (λ y. x.height ≤ y.height) l
    heights x [] b = tt
    heights x (y ∷ l) b = (ground (arith, b.0), heights x l b.1)
