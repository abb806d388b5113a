-- ===== src/Dasio/Sample.antt =====
-- A library that looks for a byte, for the tests.
use cosmid.Base.{
  get_or-drop, sym, Bool-cases, inl, inr, ltb→lt, length-drop, ◌∙◌, ap, ℕ, zero, suc, ◌+◌, ◌<◌, ◌≡◌,
  refl, arith, true, false, List, [], ◌∷◌, length, get_or, drop, ltb, ◌==◌, if◌then◌else◌,
}
use cosmid.Dasio.{Dasio, Finds, FindsNext, nc}

abbrev index_of : ℕ → List ℕ → ℕ
index_of c [] = 0
index_of c (x ∷ xs) = if x == c then 0 else suc (index_of c xs)

index_of-here :
    (c : ℕ) (xs : List ℕ) (k : ℕ) → k < length xs → get_or xs k 0 ≡ c → index_of c (drop k xs) ≡ 0
index_of-here c [] k h e = absurd (omega arith)
index_of-here c (x ∷ xs) zero h e = ground (arith, e)
index_of-here c (x ∷ xs) (suc k) h e = index_of-here c xs k (omega arith) e

abbrev pub scanner : Dasio
scanner = record {
  not_found = λ c i.
      let k = i.cp + index_of c (drop i.cp i.buf) in
      if ltb k (nc i) then (false, record i { cp = k + 1 }) else (true, record i { cp = nc i });
  consume = λ n i. record { buf = drop n i.buf; cp = 0 };
  report_ok = λ n i. record { buf = drop n i.buf; cp = 0 };
}

pub scanner-FindsNext : FindsNext scanner
scanner-FindsNext c i h e = ground (arith, index_of-here c i.buf i.cp h e)

index_of_found : (c : ℕ) (xs : List ℕ) → index_of c xs < length xs → get_or xs (index_of c xs) 0 ≡ c
index_of_found c [] inside = absurd (omega arith)
index_of_found c (x ∷ xs) inside = elim (Bool-cases (x == c)) [
  | inl here ↦ rw here (ground (arith, here))
  | inr there ↦
      let step : index_of c (x ∷ xs) ≡ suc (index_of c xs) = rw there refl in
      rw there (index_of_found c xs (omega (arith, inside, step)))
]

pub scanner-Finds : Finds scanner
scanner-Finds = record {
  same_input = λ c i. ground arith;
  found = λ c i h.
      let k : ℕ = index_of c (drop i.cp i.buf) in
      let inside : ltb (i.cp + k) (nc i) ≡ true = ground (arith, h) in
      let bound : k < length (drop i.cp i.buf) =
        omega (arith, length-drop i.cp i.buf, ltb→lt _ _ inside) in
      rw inside (
        omega arith,
        omega (arith, ltb→lt _ _ inside),
        ap (λ n. get_or i.buf n 0) (omega arith)
            ∙ (sym (get_or-drop i.buf i.cp k) ∙ index_of_found c (drop i.cp i.buf) bound),
      );
  missing = λ c i h. ground (arith, h);
}
