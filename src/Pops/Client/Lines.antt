-- ===== src/Pops/Client/Lines.antt =====
-- `app_input` on any input.
use cosmid.Base.{
  ℕ, zero, suc, ◌+◌, ◌-◌, ◌≤◌, ◌<◌, ◌≡◌, refl, ap, ◌∙◌, arith, Bool, true, false, Option, none,
  some, List, [], ◌∷◌, ◌++◌, ltb, ◌==◌, get_or, length, ltb→lt, ltb→ge, Bool-cases, inl, inr,
  length-set,
}
use mathlib.Core.Option
use cosmid.Dasio.{Dasio, Input, nc}
use cosmid.Dasio.Scan.{Scanners}
use cosmid.Pops.Client.{
  Client, Effect, is_digit, skip_line, after_newline, after_number, take_line, input_loop, end_line,
  app_input, answered,
}

-- Documented: a scan leaves the input, goes forward in it and stays within; one for a number goes past
-- a digit that it stands at, also if the number is too large.
pub record Advances {Float : Type 0} (scanners : Scanners Float) : Type 0 where
  pub str :
      (s : List ℕ) (i : Input)
      → i.cp ≤ nc i
      → ((scanners.not_str s i).1.buf ≡ i.buf)
        × (i.cp ≤ (scanners.not_str s i).1.cp)
        × ((scanners.not_str s i).1.cp ≤ nc i)
  pub number :
      (i : Input)
      → i.cp < nc i
      → is_digit (get_or i.buf i.cp 0) ≡ true
      → ((scanners.not_uint8 i).1.buf ≡ i.buf)
        × (i.cp < (scanners.not_uint8 i).1.cp)
        × ((scanners.not_uint8 i).1.cp ≤ nc i)

abbrev Moves : Input → Input → Type 0
Moves i i' = (nc i' ≡ nc i) × (i.cp < i'.cp) × (i'.cp ≤ nc i)

skip_line-stays :
    (n : ℕ) (i : Input)
    → i.cp + n ≡ nc i
    → ((skip_line n i).buf ≡ i.buf) × (i.cp ≤ (skip_line n i).cp) × ((skip_line n i).cp ≤ nc i)
unfolding skip_line
skip_line-stays zero i h = (refl, omega arith, omega (arith, h))
skip_line-stays (suc n) i h =
    let (buf, past, within) = skip_line-stays n (record i { cp = i.cp + 1 }) (omega (arith, h)) in
    elim (get_or i.buf i.cp 0 == b'\n')
      as (λ b.
        let j : Input = elim b [ true ↦ i | false ↦ skip_line n (record i { cp = i.cp + 1 }) ] in
        (j.buf ≡ i.buf) × (i.cp ≤ j.cp) × (j.cp ≤ nc i)) [
          | true ↦ (refl, omega arith, omega (arith, h))
          | false ↦ (buf, omega (arith, past), within)
        ]

end_line-Moves :
    (c : Client) (i j : Input)
    → i.cp < nc i
    → (j.buf ≡ i.buf) × (i.cp ≤ j.cp) × (j.cp ≤ nc i)
    → Moves i (end_line c j).2
unfolding end_line
end_line-Moves c i j h (buf, past, within) =
    let same = ap length buf in
    elim (Bool-cases (ltb j.cp (nc j))) [
      | inl more ↦ rw more (
        length-set j.buf j.cp 0 ∙ same,
        omega (arith, past),
        omega (arith, ltb→lt j.cp (nc j) more, same),
      )
      | inr over ↦ rw over (same, omega (arith, h, same, ltb→ge j.cp (nc j) over), within)
    ]

after_newline-input : (c : Client) (r : Option (Unit {0}) × Input) → (after_newline c r).2 ≡ r.1
unfolding after_newline
after_newline-input c (none, i) = refl
after_newline-input c (some _, i) = refl

after_number-Moves :
    (newline : Input → Option (Unit {0}) × Input) (c : Client) (i : Input) (r : Option ℕ × Input)
    → ((j : Input)
        → j.cp ≤ nc j
        → ((newline j).1.buf ≡ j.buf) × (j.cp ≤ (newline j).1.cp) × ((newline j).1.cp ≤ nc j))
    → Moves i r.1
    → Moves i (after_number newline c r).2
unfolding after_number
after_number-Moves newline c i (none, j) keeps m = m
after_number-Moves newline c i (some v, j) keeps (buf, past, within) =
    let same = after_newline-input (record c { srvr = v }) (newline j) in
    let (buf', past', within') = keeps j (omega (arith, within, buf)) in
    (
      ap nc same ∙ ap length buf' ∙ buf,
      omega (arith, ap (λ k. k.cp) same, past, past'),
      omega (arith, ap (λ k. k.cp) same, within', buf),
    )

module _ {Float : Type 0} (lib : Dasio) (scanners : Scanners Float) (law : Advances scanners) where
  take_line-Moves : (c : Client) (i : Input) → i.cp < nc i → Moves i (take_line lib scanners c i).2
  unfolding take_line
  take_line-Moves c i h = elim (Bool-cases (is_digit (get_or i.buf i.cp 0))) [
    | inl digit ↦ rw digit (
        after_number-Moves (scanners.not_str (b'\n' ∷ [])) c i (scanners.not_uint8 i)
          (law.str (b'\n' ∷ []))
          (let (buf, past, within) = law.number i h digit in (ap length buf, past, within)))
    | inr other ↦ rw other (
        end_line-Moves c i (skip_line (nc i - i.cp) i) h
          (skip_line-stays (nc i - i.cp) i (omega (arith, h))))
  ]

  input_loop-returns :
      (fuel : ℕ) (c : Client) (out : List Effect) (i : Input)
      → 0 < fuel
      → nc i < i.cp + fuel
      → (c' : Client) × (out' : List Effect) × (i' : Input) × (input_loop lib scanners fuel c out i
          ≡ some (c', out', i'))
        × (nc i' ≡ nc i)
        × (nc i ≤ i'.cp)
  unfolding input_loop
  input_loop-returns zero c out i pos h = absurd (omega arith)
  input_loop-returns (suc fuel) c out i pos h =
      let line = take_line lib scanners c i in
      let pick : Bool → Option (Client × List Effect × Input) = λ b. elim b [
        | true ↦ input_loop lib scanners fuel line.0 (out ++ line.1) line.2
        | false ↦ some (c, out, i)
      ] in
      elim (Bool-cases (ltb i.cp (nc i))) [
        | inr over ↦ (c, out, i, ap pick over, refl, ltb→ge i.cp (nc i) over)
        | inl more ↦
            let lt = ltb→lt i.cp (nc i) more in
            let (buf, past, within) = take_line-Moves c i lt in
            let (c', out', i', run, same, end) =
              input_loop-returns fuel line.0 (out ++ line.1) line.2 (omega (arith, lt, h))
                (omega (arith, past, h, buf)) in
            (c', out', i', ap pick more ∙ run, same ∙ buf, omega (arith, end, buf))
      ]

  -- Whatever the input and the state, `app_input` of POPS_client returns, with scanners that go
  -- forward: its loop takes the buffer to its end, which is reported as taken. Behind it no answer is
  -- awaited: the timer is off, and the count of the server's silence is 0.
  pub app_input_returns :
      (c : Client) (i : Input)
      → (c' : Client) × (out : List Effect) × (i' : Input) × (app_input lib scanners c i
          ≡ some (c', out, lib.report_ok (nc i) i'))
        × (nc i' ≡ nc i)
        × (nc i ≤ i'.cp)
        × (c'.timer ≡ false)
        × (c'.srvr_stale ≡ 0)
  unfolding app_input answered
  app_input_returns c i =
      let (c', out, i', run, buf, end) =
        input_loop-returns (suc (nc i)) c [] (record i { cp = 0 }) (omega arith) (omega arith) in
      let done : Client × List Effect × Input → Client × List Effect × Input =
        λ (c'', out', j). (answered lib scanners c'', out', lib.report_ok (nc j) j) in
      (
        answered lib scanners c',
        out,
        i',
        ap (Option.map done) run
            ∙ ap (λ n. some (answered lib scanners c', out, lib.report_ok n i')) buf,
        buf,
        end,
        refl,
        refl,
      )
