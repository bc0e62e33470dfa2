-- ===== src/Base/Run.antt =====
-- The outcome of a Go function: it returns, it panics, or it waits for ever on a mutex that is held.
use slot_golang.Base.{Bool, true, false, Option, none, some, ◌≡◌}

pub data Run {ℓ} (A : Type ℓ) : Type ℓ where
  done : A → Run A
  panics : Run A
  blocks : Run A

infixl 5 ◌>>=◌ ◌>>◌
abbrev pub ◌>>=◌ {ℓ κ} : {A : Type ℓ} {B : Type κ} → Run A → (A → Run B) → Run B
done a >>= f = f a
panics >>= f = panics
blocks >>= f = blocks

abbrev pub ◌>>◌ {ℓ} : {B : Type ℓ} → Run (Unit {0}) → Run B → Run B
m >> k = m >>= λ _. k

-- A failed bounds check is a panic.
abbrev pub checked {ℓ} : {A : Type ℓ} → Option A → Run A
checked none = panics
checked (some a) = done a

abbrev pub in_bounds : Bool → Run (Unit {0})
in_bounds true = done tt
in_bounds false = panics

pub done_inj {ℓ} : {A : Type ℓ} {a b : A} → done a ≡ done b → a ≡ b
done_inj e = cc
