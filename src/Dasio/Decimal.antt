-- ===== src/Dasio/Decimal.antt =====
-- Documented behaviour of the scanners on text: `not_str` reads the text it is given, `not_found` all
-- up to the byte and the byte, and `not_ndigits` as many digits as it is asked for.
use cosmid.Base.{ℕ, ◌+◌, ◌-◌, ◌*◌, ◌≤◌, ◌≡◌, ◌≢◌, List, [], ◌∷◌, ◌++◌, length, subst}
use cosmid.Dasio.Scan.{Scanners}
use cosmid.Dasio.Reads.{Reads, Any}

abbrev pub IsDigits : List ℕ → Type 0
IsDigits [] = Unit
IsDigits (d ∷ ds) = (b'0' ≤ d) × (d ≤ b'9') × IsDigits ds

abbrev pub decimal_from : ℕ → List ℕ → ℕ
decimal_from n [] = n
decimal_from n (d ∷ ds) = decimal_from (n * 10 + (d - b'0')) ds

-- the number that the digits stand for
abbrev pub decimal : List ℕ → ℕ
decimal = decimal_from 0

abbrev pub HasNo : ℕ → List ℕ → Type 0
HasNo c [] = Unit
HasNo c (x ∷ xs) = (x ≢ c) × HasNo c xs

pub record ScansText {Float : Type 0} (scanners : Scanners Float) : Type 0 where
  pub str : (s : List ℕ) → Reads Any (scanners.not_str s) s tt
  pub found : (c : ℕ) (s : List ℕ) → HasNo c s → Reads Any (scanners.not_found c) (s ++ (c ∷ [])) tt
  pub ndigits :
      (ds : List ℕ) → IsDigits ds → Reads Any (scanners.not_ndigits (length ds)) ds (decimal ds)

pub ndigits-Reads :
    {Float : Type 0} (scanners : Scanners Float)
    → ScansText scanners
    → (k : ℕ) (ds : List ℕ) → length ds ≡ k
    → IsDigits ds
    → Reads Any (scanners.not_ndigits k) ds (decimal ds)
ndigits-Reads scanners law k ds e digits =
    subst (λ n. Reads Any (scanners.not_ndigits n) ds (decimal ds)) e (law.ndigits ds digits)
