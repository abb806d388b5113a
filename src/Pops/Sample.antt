-- ===== src/Pops/Sample.antt =====
-- Scanners that read one decimal digit as any number.
use cosmid.Base.{
  ℕ, suc, ◌+◌, ◌≡◌, ◌≤◌, ◌<◌, refl, ap, ◌∙◌, arith, Bool, true, false, ◌&&◌, Option, none, some,
  List, [], ◌∷◌, ◌++◌, leb, ◌==◌, if◌then◌else◌, length, take, drop, pos, get_or, drop-get_or,
  length-drop, Bool-cases, inl, inr,
}
use cosmid.Dasio.{Dasio, Input, nc}
use cosmid.Dasio.Scan.{Scan, Scanners, pure, ◌>>=◌}
use cosmid.Dasio.Reads.{Reads, Any, IsEnd, remaining}
use cosmid.Dasio.Decimal.{IsDigits, decimal, HasNo, ScansText}
use cosmid.Pops.Client.{is_digit}
use cosmid.Pops.Client.Lines.{Advances}
use cosmid.Pops.Client.Status.{NoDigit, ScansStatus}

-- whether the text starts with `s`
abbrev strip : List ℕ → List ℕ → Bool
strip [] text = true
strip (c ∷ s) [] = false
strip (c ∷ s) (x ∷ text) = x == c && strip s text

abbrev up_to : ℕ → List ℕ → Option ℕ
up_to c [] = none
up_to c (x ∷ xs) =
    if x == c then some 1 else elim (up_to c xs) [ none ↦ none | some k ↦ some (suc k) ]

strip-append : (s rest : List ℕ) → strip s (s ++ rest) ≡ true
strip-append [] rest = refl
strip-append (c ∷ s) rest = ground (arith, strip-append s rest)

abbrev advance : {A : Type 0} → ℕ → A → Scan A
advance n a i = (some a, record i { cp = i.cp + n })

abbrev fail : {A : Type 0} → Scan A
fail i = (none, i)

abbrev all_digits : List ℕ → Bool
all_digits [] = true
all_digits (d ∷ ds) = leb b'0' d && leb d b'9' && all_digits ds

abbrev digits : ℕ → Scan ℕ
digits k i =
    let ds = take k (remaining i) in
    if length ds == k && all_digits ds then advance k (decimal ds) i else fail i

abbrev pub one_digit : Scan ℕ
one_digit = digits 1

abbrev pub scanners : Scanners ℕ
scanners = record {
  not_str = λ s i. if strip s (remaining i) then advance (length s) tt i else fail i;
  not_found = λ c i. elim (up_to c (remaining i)) [ some k ↦ advance k tt i | none ↦ fail i ];
  not_ndigits = digits;
  not_nfloat = one_digit;
  not_uint8 = one_digit;
  not_uint16 = one_digit;
  not_uint32 = one_digit;
  not_int32 = one_digit >>= λ n. pure (pos n);
}

take-append : (xs ys : List ℕ) → take (length xs) (xs ++ ys) ≡ xs
take-append [] ys = refl
take-append (x ∷ xs) ys = ap (λ l. x ∷ l) (take-append xs ys)

all_digits-IsDigits : (ds : List ℕ) → IsDigits ds → all_digits ds ≡ true
all_digits-IsDigits [] h = refl
all_digits-IsDigits (d ∷ ds) (low, high, rest) = ground (arith, all_digits-IsDigits ds rest)

up_to-HasNo :
    (c : ℕ) (s rest : List ℕ)
    → HasNo c s
    → up_to c ((s ++ (c ∷ [])) ++ rest) ≡ some (length (s ++ (c ∷ [])))
up_to-HasNo c [] rest h = ground arith
up_to-HasNo c (x ∷ s) rest (ne, h) = ground (arith, up_to-HasNo c s rest h)

digits-Reads : (ds : List ℕ) → IsDigits ds → Reads Any (digits (length ds)) ds (decimal ds)
digits-Reads ds h i rest q e =
    let taken : take (length ds) (remaining i) ≡ ds =
      ap (take (length ds)) e ∙ take-append ds rest in
    rw (taken, all_digits-IsDigits ds h) (ground arith)

pub scanners-ScansText : ScansText scanners
scanners-ScansText = record {
  str = λ s i rest q e. ground (arith, strip-append s rest, ap (strip s) e);
  found = λ c s h i rest q e. ground (arith, up_to-HasNo c s rest h, ap (up_to c) e);
  ndigits = digits-Reads;
}

abbrev pub lib : Dasio
lib = record {
  not_found = λ c i. (true, i);
  consume = λ n i. record { buf = drop n i.buf; cp = 0 };
  report_ok = λ n i. record { buf = drop n i.buf; cp = 0 };
}

abbrev pub seven : List ℕ
seven = b'7' ∷ []

pub one_digit-Reads : Reads IsEnd one_digit seven 7
one_digit-Reads i rest q e = digits-Reads seven (omega arith) i rest tt e

-- the digit of a status
digit-Reads : (d : ℕ) → d < 10 → Reads NoDigit one_digit ((d + b'0') ∷ []) d
digit-Reads d h i rest q e =
    let value : decimal ((d + b'0') ∷ []) ≡ d = omega arith in
    digits-Reads ((d + b'0') ∷ []) (omega arith, omega (arith, h), tt) i rest tt e
    ∙ ap (λ n. (some n, record i { cp = i.cp + 1 })) value

pub scanners-ScansStatus : ScansStatus scanners
scanners-ScansStatus = record { str = scanners-ScansText.str; uint8 = digit-Reads }

strip-length : (s text : List ℕ) → strip s text ≡ true → length s ≤ length text
strip-length [] text h = omega arith
strip-length (c ∷ s) [] h = ground (arith, h)
strip-length (c ∷ s) (x ∷ text) h = ground (arith, h, strip-length s text)

not_str-Advances :
    (s : List ℕ) (i : Input)
    → i.cp ≤ nc i
    → ((scanners.not_str s i).1.buf ≡ i.buf)
      × (i.cp ≤ (scanners.not_str s i).1.cp)
      × ((scanners.not_str s i).1.cp ≤ nc i)
not_str-Advances s i h = elim (Bool-cases (strip s (remaining i))) [
  | inl e ↦
      rw e (
        refl,
        omega arith,
        omega (arith, h, strip-length s (remaining i) e, length-drop i.cp i.buf),
      )
  | inr e ↦ rw e (refl, omega arith, h)
]

not_uint8-Advances :
    (i : Input)
    → i.cp < nc i
    → is_digit (get_or i.buf i.cp 0) ≡ true
    → ((scanners.not_uint8 i).1.buf ≡ i.buf)
      × (i.cp < (scanners.not_uint8 i).1.cp)
      × ((scanners.not_uint8 i).1.cp ≤ nc i)
not_uint8-Advances i h digit =
    let next : take 1 (remaining i) ≡ get_or i.buf i.cp 0 ∷ [] =
      ap (take 1) (drop-get_or i.buf i.cp h) in
    let good : all_digits (get_or i.buf i.cp 0 ∷ []) ≡ true = ground (arith, digit) in
    rw (next, good) (refl, omega arith, omega (arith, h))

pub scanners-Advances : Advances scanners
scanners-Advances = record { str = not_str-Advances; number = not_uint8-Advances }
