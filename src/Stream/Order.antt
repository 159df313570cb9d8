-- ===== src/Stream/Order.antt =====
-- The bytes of a stream come out in the order in which they arrived.
use kassandra_service.Common.{
  ℕ, zero, suc, ◌≤◌, ◌≡◌, refl, List, [], ◌∷◌, ◌++◌, some, length, take, drop, arith,
}
use kassandra_service.Stream.{Tcp, read_loop, read_bytes}

abbrev pub concat : List (List ℕ) → List ℕ
concat [] = []
concat (x ∷ xs) = x ++ concat xs

-- What is still to be read.
abbrev pub remaining : Tcp → List ℕ
remaining t = t.buffered ++ concat t.raw

pub read_loop_lem :
    (raw : List (List ℕ)) (buffered : List ℕ) (b : ℕ) (bs : List ℕ)
    → buffered ++ concat raw ≡ b ∷ bs
    → (t : Tcp) × (read_loop raw buffered ≡ some (b, t)) × (remaining t ≡ bs)
unfolding read_loop
read_loop_lem raw (x ∷ xs) b bs h =
    (record { raw = raw; buffered = xs }, ground arith, ground arith)
read_loop_lem [] [] b bs h = cc
read_loop_lem (chunk ∷ raw) [] b bs h = read_loop_lem raw chunk b bs h

split :
    (n : ℕ) (t : Tcp) (l : List ℕ)
    → remaining t ≡ l
    → n ≤ length l
    → (u : Tcp) × (read_bytes n t ≡ some (take n l, u)) × (remaining u ≡ drop n l)
unfolding read_bytes
split zero t l e h = (t, refl, e)
split (suc n) t [] e h = absurd (omega arith)
split (suc n) t (b ∷ bs) e h =
    let (u, p, q) = read_loop_lem t.raw t.buffered b bs e in
    let (v, r, s) = split n u bs q (omega arith) in (v, rw (read_bytes, p, r) refl, s)

-- If enough bytes have arrived, however they were split into reads, reading some of them gives
-- the first ones in the order of arrival, and leaves the others to be read.
pub read_bytes-remaining :
    (n : ℕ) (t : Tcp)
    → n ≤ length (remaining t)
    → (u : Tcp) × (read_bytes n t ≡ some (take n (remaining t), u))
      × (remaining u ≡ drop n (remaining t))
read_bytes-remaining n t h = split n t (remaining t) refl h
