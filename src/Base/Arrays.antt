-- ===== src/Base/Arrays.antt =====
-- C arrays as lists with native indices: length, reads, slices and block copies.
use Prim.Native.Nat.{ℕ, zero, suc, ◌+◌, ◌-◌, ◌≤◌, ◌<◌, min}
use mathlib.Core.Path.{◌≡◌, refl, ap, ◌∙◌}
use mathlib.Core.List.{List, [], ◌∷◌, ◌++◌}
use mathlib.Core.Option.{Option, none, some}
use native.Mathlib.Nat.{zero-add, suc-add}
use native.Mathlib.Omega.{arith}
use cosmid.Base.Tests.{leb, if◌then◌else◌}

module _ {ℓ} {A : Type ℓ} where
  abbrev pub length : List A → ℕ
  length [] = 0
  length (x ∷ xs) = suc (length xs)

  abbrev pub get_or : List A → ℕ → A → A
  get_or [] i d = d
  get_or (x ∷ xs) zero d = x
  get_or (x ∷ xs) (suc i) d = get_or xs i d

  -- A write out of bounds changes nothing.
  abbrev pub set : List A → ℕ → A → List A
  set [] i v = []
  set (x ∷ xs) zero v = v ∷ xs
  set (x ∷ xs) (suc i) v = x ∷ set xs i v

  abbrev pub take : ℕ → List A → List A
  take zero xs = []
  take (suc n) [] = []
  take (suc n) (x ∷ xs) = x ∷ take n xs

  abbrev pub drop : ℕ → List A → List A
  drop zero xs = xs
  drop (suc n) [] = []
  drop (suc n) (x ∷ xs) = drop n xs

  -- `xs` with the elements of `ys` from index `i` on; the caller checks the range.
  abbrev pub overwrite : List A → ℕ → List A → List A
  overwrite [] i ys = []
  overwrite (x ∷ xs) zero [] = x ∷ xs
  overwrite (x ∷ xs) zero (y ∷ ys) = y ∷ overwrite xs zero ys
  overwrite (x ∷ xs) (suc i) ys = x ∷ overwrite xs i ys

  -- the `n` elements from index `i` on
  abbrev pub slice : List A → ℕ → ℕ → List A
  slice xs i n = take n (drop i xs)

module _ {ℓ} {A : Type ℓ} where
  -- `memcpy(&buf[i], ys, length ys)`; `none` is an access out of range.
  abbrev pub memcpy : List A → ℕ → List A → Option (List A)
  memcpy buf i ys = if leb (i + length ys) (length buf) then some (overwrite buf i ys) else none

  -- the `n` bytes at `&buf[i]`; `none` is an access out of range.
  abbrev pub read_span : List A → ℕ → ℕ → Option (List A)
  read_span buf i n = if leb (i + n) (length buf) then some (slice buf i n) else none

  pub length-append : (xs ys : List A) → length (xs ++ ys) ≡ length xs + length ys
  length-append [] ys = omega arith
  length-append (x ∷ xs) ys = omega (arith, length-append xs ys)

  pub length-set : (xs : List A) (i : ℕ) (v : A) → length (set xs i v) ≡ length xs
  length-set [] i v = refl
  length-set (x ∷ xs) zero v = refl
  length-set (x ∷ xs) (suc i) v = ap suc (length-set xs i v)

  pub get_or-set : (xs : List A) (i : ℕ) (v d : A) → i < length xs → get_or (set xs i v) i d ≡ v
  get_or-set [] i v d h = absurd (omega arith)
  get_or-set (x ∷ xs) zero v d h = refl
  get_or-set (x ∷ xs) (suc i) v d h = get_or-set xs i v d (omega arith)

  pub length-take : (n : ℕ) (xs : List A) → length (take n xs) ≡ min n (length xs)
  length-take zero xs = omega arith
  length-take (suc n) [] = omega arith
  length-take (suc n) (x ∷ xs) = omega (arith, length-take n xs)

  pub length-drop : (n : ℕ) (xs : List A) → length (drop n xs) ≡ length xs - n
  length-drop zero xs = omega arith
  length-drop (suc n) [] = omega arith
  length-drop (suc n) (x ∷ xs) = omega (arith, length-drop n xs)

  pub take-append-drop : (n : ℕ) (xs : List A) → take n xs ++ drop n xs ≡ xs
  take-append-drop zero xs = refl
  take-append-drop (suc n) [] = refl
  take-append-drop (suc n) (x ∷ xs) = ap (λ l. x ∷ l) (take-append-drop n xs)

  pub take_all : (n : ℕ) (xs : List A) → length xs ≤ n → take n xs ≡ xs
  take_all zero [] h = refl
  take_all zero (x ∷ xs) h = absurd (omega arith)
  take_all (suc n) [] h = refl
  take_all (suc n) (x ∷ xs) h = ap (λ l. x ∷ l) (take_all n xs (omega arith))

  pub take-nil : (n : ℕ) → take {A = A} n [] ≡ []
  take-nil zero = refl
  take-nil (suc n) = refl

  pub drop-nil : (n : ℕ) → drop {A = A} n [] ≡ []
  drop-nil zero = refl
  drop-nil (suc n) = refl

  pub length-overwrite :
      (xs : List A) (i : ℕ) (ys : List A) → length (overwrite xs i ys) ≡ length xs
  length-overwrite [] i ys = refl
  length-overwrite (x ∷ xs) zero [] = refl
  length-overwrite (x ∷ xs) zero (y ∷ ys) = ap suc (length-overwrite xs zero ys)
  length-overwrite (x ∷ xs) (suc i) ys = ap suc (length-overwrite xs i ys)

  pub length-slice : (xs : List A) (i n : ℕ) → i + n ≤ length xs → length (slice xs i n) ≡ n
  length-slice xs i n h = omega (arith, length-take n (drop i xs), length-drop i xs)

  -- What was written is read back.
  pub slice-overwrite_self :
      (xs : List A) (i : ℕ) (ys : List A)
      → i + length ys ≤ length xs
      → slice (overwrite xs i ys) i (length ys) ≡ ys
  slice-overwrite_self [] zero [] h = refl
  slice-overwrite_self [] zero (y ∷ ys) h = absurd (omega arith)
  slice-overwrite_self [] (suc i) ys h = absurd (omega arith)
  slice-overwrite_self (x ∷ xs) zero [] h = refl
  slice-overwrite_self (x ∷ xs) zero (y ∷ ys) h =
      ap (λ l. y ∷ l) (slice-overwrite_self xs zero ys (omega arith))
  slice-overwrite_self (x ∷ xs) (suc i) ys h = slice-overwrite_self xs i ys (omega arith)

  -- A span in front of what was written is unchanged.
  pub slice-overwrite_before :
      (xs : List A) (i : ℕ) (ys : List A) (j n : ℕ)
      → j + n ≤ i
      → slice (overwrite xs i ys) j n ≡ slice xs j n
  slice-overwrite_before [] i ys j n h = refl
  slice-overwrite_before (x ∷ xs) zero [] j n h = refl
  slice-overwrite_before (x ∷ xs) zero (y ∷ ys) zero zero h = refl
  slice-overwrite_before (x ∷ xs) zero (y ∷ ys) zero (suc n) h = absurd (omega arith)
  slice-overwrite_before (x ∷ xs) zero (y ∷ ys) (suc j) n h = absurd (omega arith)
  slice-overwrite_before (x ∷ xs) (suc i) ys zero zero h = refl
  slice-overwrite_before (x ∷ xs) (suc i) ys zero (suc n) h =
      ap (λ l. x ∷ l) (slice-overwrite_before xs i ys zero n (omega arith))
  slice-overwrite_before (x ∷ xs) (suc i) ys (suc j) n h =
      slice-overwrite_before xs i ys j n (omega arith)

  -- What lies behind the part written is unchanged.
  pub drop-overwrite :
      (xs : List A) (i : ℕ) (ys : List A) (j : ℕ)
      → i + length ys ≤ j
      → drop j (overwrite xs i ys) ≡ drop j xs
  drop-overwrite [] i ys j h = refl
  drop-overwrite (x ∷ xs) zero [] j h = refl
  drop-overwrite (x ∷ xs) zero (y ∷ ys) zero h = absurd (omega arith)
  drop-overwrite (x ∷ xs) zero (y ∷ ys) (suc j) h = drop-overwrite xs zero ys j (omega arith)
  drop-overwrite (x ∷ xs) (suc i) ys zero h = absurd (omega arith)
  drop-overwrite (x ∷ xs) (suc i) ys (suc j) h = drop-overwrite xs i ys j (omega arith)

  take-add : (n m : ℕ) (xs : List A) → take (n + m) xs ≡ take n xs ++ take m (drop n xs)
  take-add zero m xs = rw zero-add
  take-add (suc n) m [] = simp take-nil
  take-add (suc n) m (x ∷ xs) = rw suc-add (ap (λ l. x ∷ l) (take-add n m xs))

  pub drop-drop : (i n : ℕ) (xs : List A) → drop n (drop i xs) ≡ drop (i + n) xs
  drop-drop zero n xs = rw zero-add
  drop-drop (suc i) n [] = simp drop-nil
  drop-drop (suc i) n (x ∷ xs) = rw suc-add (drop-drop i n xs)

  -- A span is read in two parts.
  pub slice-add :
      (xs : List A) (i n m : ℕ) → slice xs i (n + m) ≡ slice xs i n ++ slice xs (i + n) m
  slice-add xs i n m = rw (← drop-drop) (take-add n m (drop i xs))

  -- A span behind what was written is unchanged.
  pub slice-overwrite_after :
      (xs : List A) (i : ℕ) (ys : List A) (j n : ℕ)
      → i + length ys ≤ j
      → slice (overwrite xs i ys) j n ≡ slice xs j n
  slice-overwrite_after xs i ys j n h = ap (take n) (drop-overwrite xs i ys j h)

  -- Writing at the end of a span extends it.
  pub slice-overwrite_extend :
      (xs : List A) (i : ℕ) (ys : List A) (j n m : ℕ)
      → j + n ≡ i
      → length ys ≡ m
      → i + m ≤ length xs
      → slice (overwrite xs i ys) j (n + m) ≡ slice xs j n ++ ys
  slice-overwrite_extend xs i ys j n m e l h = rw (
    slice-add,
    slice-overwrite_before xs i ys j n (omega arith),
    e,
    ← l,
    slice-overwrite_self xs i ys (omega arith),
  )

pub drop-get_or :
    (xs : List ℕ) (k : ℕ) → k < length xs → drop k xs ≡ get_or xs k 0 ∷ drop (suc k) xs
drop-get_or [] k h = absurd (omega arith)
drop-get_or (x ∷ xs) zero h = refl
drop-get_or (x ∷ xs) (suc k) h = drop-get_or xs k (omega arith)

pub get_or-drop : (xs : List ℕ) (k j : ℕ) → get_or (drop k xs) j 0 ≡ get_or xs (k + j) 0
get_or-drop xs zero j = ap (λ n. get_or xs n 0) (omega arith)
get_or-drop [] (suc k) j = refl
get_or-drop (x ∷ xs) (suc k) j =
    let step : suc (k + j) ≡ suc k + j = omega arith in
    get_or-drop xs k j ∙ ap (λ n. get_or (x ∷ xs) n 0) step
