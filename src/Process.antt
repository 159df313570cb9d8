-- ===== src/Process.antt =====
-- A process that reads and writes messages, as a tree of what it does next.
use kassandra_service.Common.{List, [], ◌∷◌, Option, none, some}

-- `M` is what it reads, `O` what it writes.
pub data Proc (M O A : Type 0) : Type 0 where
  ret : A → Proc M O A
  read : (M → Proc M O A) → Proc M O A
  write : O → Proc M O A → Proc M O A
  -- A panic.
  crash : Proc M O A

infixl 5 ◌>>=◌
abbrev pub ◌>>=◌ : {M O A B : Type 0} → Proc M O A → (A → Proc M O B) → Proc M O B
ret a >>= f = f a
read k >>= f = read (λ m. k m >>= f)
write o p >>= f = write o (p >>= f)
crash >>= f = crash

module _ {M O A : Type 0} (loop : A → M → Proc M O A) where
  -- Run until a message is wanted; a pass of the loop that ends begins the next, which reads first.
  unfoldable pub settle : Proc M O A → List O × (M → Proc M O A)
  settle (ret a) = ([], loop a)
  settle (read k) = ([], k)
  settle (write o p) = let (out, k) = settle p in (o ∷ out, k)
  settle crash = ([], λ m. crash)

module _ {M O A : Type 0} where
  -- What a process writes, given these messages to read, and how it ends if it does.
  unfoldable pub feed : Proc M O A → List M → List O × Option A
  feed (ret a) ms = ([], some a)
  feed (read k) [] = ([], none)
  feed (read k) (m ∷ ms) = feed (k m) ms
  feed (write o p) ms = let (out, end) = feed p ms in (o ∷ out, end)
  feed crash ms = ([], none)
