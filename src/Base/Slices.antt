-- ===== src/Base/Slices.antt =====
-- Sums, and reads and slices of a slice.
use Prim.Native.Nat.{ℕ, zero, suc, ◌+◌, ◌≤◌, ◌<◌}
use mathlib.Core.Path.{◌≡◌, refl, ap, ◌∙◌}
use mathlib.Core.List.{List, [], ◌∷◌}
use native.Mathlib.Omega.{arith}
use cosmid.Base.Arrays.{get_or, take, drop, slice, get_or-drop, drop-drop}

abbrev pub sum : List ℕ → ℕ
sum [] = 0
sum (n ∷ ns) = n + sum ns

get_or-take : (xs : List ℕ) (n i : ℕ) → i < n → get_or (take n xs) i 0 ≡ get_or xs i 0
get_or-take xs zero i h = absurd (omega arith)
get_or-take [] (suc n) i h = refl
get_or-take (x ∷ xs) (suc n) zero h = refl
get_or-take (x ∷ xs) (suc n) (suc i) h = get_or-take xs n i (omega arith)

pub get_or-slice :
    (xs : List ℕ) (s n i : ℕ) → i < n → get_or (slice xs s n) i 0 ≡ get_or xs (s + i) 0
get_or-slice xs s n i h = get_or-take (drop s xs) n i h ∙ get_or-drop xs s i

take-drop : (xs : List ℕ) (k j n : ℕ) → j + n ≤ k → take n (drop j (take k xs)) ≡ take n (drop j xs)
take-drop xs zero j zero h = refl
take-drop xs zero j (suc n) h = absurd (omega arith)
take-drop [] (suc k) j n h = refl
take-drop (x ∷ xs) (suc k) zero zero h = refl
take-drop (x ∷ xs) (suc k) zero (suc n) h = ap (λ l. x ∷ l) (take-drop xs k 0 n (omega arith))
take-drop (x ∷ xs) (suc k) (suc j) n h = take-drop xs k j n (omega arith)

pub slice-slice :
    (xs : List ℕ) (s k j n : ℕ) → j + n ≤ k → slice (slice xs s k) j n ≡ slice xs (s + j) n
slice-slice xs s k j n h = take-drop (drop s xs) k j n h ∙ ap (take n) (drop-drop s j xs)
