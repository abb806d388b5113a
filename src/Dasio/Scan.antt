-- ===== src/Dasio/Scan.antt =====
-- The text scanners of monarch/dasio, each of which returns true if it does not find what it looks
-- for. A scan is a function on the input, and `none` is that true; `cp` is left where it stopped.
use cosmid.Base.{ℕ, Option, none, some, List, ℤ}
use cosmid.Dasio.{Input}

abbrev pub Scan : Type 0 → Type 0
Scan A = Input → Option A × Input

module _ {A : Type 0} where
  abbrev pub pure : A → Scan A
  pure a i = (some a, i)

-- what follows a scan: nothing, if it failed
abbrev pub after : {A B : Type 0} → (A → Scan B) → Option A × Input → Option B × Input
after f (some a, i) = f a i
after f (none, i) = (none, i)

infixl 5 ◌>>=◌ ◌>>◌
abbrev pub ◌>>=◌ : {A B : Type 0} → Scan A → (A → Scan B) → Scan B
◌>>=◌ m f i = after f (m i)

abbrev pub ◌>>◌ : {B : Type 0} → Scan (Unit {0}) → Scan B → Scan B
m >> k = m >>= λ _. k

-- The program's floating-point numbers are a type of which nothing is known.
pub record Scanners (Float : Type 0) : Type 0 where
  pub not_str : List ℕ → Scan (Unit {0})
  pub not_found : ℕ → Scan (Unit {0})
  pub not_ndigits : ℕ → Scan ℕ
  pub not_nfloat : Scan Float
  pub not_uint8 : Scan ℕ
  pub not_uint16 : Scan ℕ
  pub not_uint32 : Scan ℕ
  pub not_int32 : Scan ℤ
