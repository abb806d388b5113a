-- ===== src/Nephex/Receiver/Calls.antt =====
-- `protocol_input` on any input.
use cosmid.Base.{
  ℕ, zero, suc, ◌+◌, ◌≤◌, ◌<◌, ◌≡◌, ◌⊎◌, inl, inr, refl, sym, subst, ap, ◌∙◌, arith, Bool, true,
  false, Option, none, some, List, [], ◌∷◌, ◌++◌, append-nil, append_assoc, length, slice, ltb,
  ltb→ge, Bool-cases, ◌>>=◌,
}
use cosmid.Dasio.{Finds, Dasio, nc}
use cosmid.Serio.{Serio}
use cosmid.Nephex.Receiver.{Output, Receiver, pass, input_loop, protocol_input}
use cosmid.Nephex.Receiver.Logs.{logged_packets}
use cosmid.Nephex.Receiver.Turns.{
  size_at, Whole, Cuts, IsPartial, Unknown, Turned, aborted, stopped, skipped, took, pass-Turned,
}

-- What the loop comes to on `buf`, from `cp` and what it has logged on.
abbrev Ends : List ℕ → ℕ → List (List ℕ) → Option (Option (Receiver × List Output)) → Type 0
Ends buf cp before result =
    ((result ≡ none) × ((start : ℕ) × (cp ≤ start) × Unknown buf start))
    ⊎ ((r' : Receiver) × (out' : List Output) × (packets : List (List ℕ)) × (result
          ≡ some (some (r', out')))
        × (r'.input.buf ≡ buf)
        × (logged_packets out' ≡ before ++ packets)
        × Cuts buf cp r'.input.cp packets
        × IsPartial buf r'.input.cp)

Cuts-from :
    (buf : List ℕ) (from from' to : ℕ) (packets : List (List ℕ))
    → from ≤ from'
    → Cuts buf from' to packets
    → Cuts buf from to packets
Cuts-from buf from from' to [] h cuts = omega (arith, h, cuts)
Cuts-from buf from from' to (packet ∷ packets) h (start, past, whole, e, rest) =
    (start, omega (arith, h, past), whole, e, rest)

Ends-from :
    (buf : List ℕ) (cp cp' : ℕ) (before : List (List ℕ))
    (result : Option (Option (Receiver × List Output)))
    → cp ≤ cp'
    → Ends buf cp' before result
    → Ends buf cp before result
Ends-from buf cp cp' before result h (inl (abort, (start, past, unknown))) =
    inl (abort, (start, omega (arith, h, past), unknown))
Ends-from buf cp cp' before result h (inr (r', out', packets, run, same, log, cuts, left)) =
    inr (r', out', packets, run, same, log, Cuts-from buf cp cp' r'.input.cp packets h cuts, left)

Ends-took :
    (buf : List ℕ) (cp start : ℕ) (before : List (List ℕ))
    (result : Option (Option (Receiver × List Output)))
    → cp ≤ start
    → Whole buf start
    → Ends buf
        (start + size_at buf start)
        (before ++ (slice buf start (size_at buf start) ∷ []))
        result
    → Ends buf cp before result
Ends-took buf cp start before result h whole (inl (abort, (start', past, unknown))) =
    inl (abort, (start', omega (arith, h, past), unknown))
Ends-took buf cp start before result h whole (inr (r', out', packets, run, same, log, cuts, left)) =
    let packet : List ℕ = slice buf start (size_at buf start) in
    inr (
      r',
      out',
      packet ∷ packets,
      run,
      same,
      log ∙ append_assoc before (packet ∷ []) packets,
      (start, h, whole, refl, cuts),
      left,
    )

module _ (s : Serio) (lib : Dasio) (obuf_empty : List Output → Bool) where
  -- how the loop goes on behind a turn
  go_on : ℕ → Bool × Receiver × List Output → Option (Option (Receiver × List Output))
  go_on fuel (more, r, out) = elim more [
    | true ↦ input_loop lib s obuf_empty fuel r out
    | false ↦ some (some (r, out))
  ]

  Ends-turn :
      (fuel : ℕ) (r : Receiver) (out : List Output)
      (result : Option (Bool × Receiver × List Output))
      → ((r' : Receiver) (out' : List Output)
          → r'.input.buf ≡ r.input.buf
          → r.input.cp < r'.input.cp
          → r'.input.cp ≤ nc r.input
          → Ends r'.input.buf r'.input.cp
              (logged_packets out')
              (input_loop lib s obuf_empty fuel r' out'))
      → Turned r out result
      → Ends r.input.buf r.input.cp (logged_packets out) (result >>= go_on fuel)
  unfolding go_on
  Ends-turn fuel r out result later (aborted start past unknown e) =
      rw e (inl (refl, (start, past, unknown)))
  Ends-turn fuel r out result later (stopped r' e same past left) =
      rw e (inr (r', out, [], refl, same, sym (append-nil (logged_packets out)), past, left))
  Ends-turn fuel r out result later (skipped r' e same past within) = rw e (
      Ends-from r.input.buf r.input.cp r'.input.cp (logged_packets out)
        (input_loop lib s obuf_empty fuel r' out) (omega (arith, past))
        (subst
          (λ b. Ends b r'.input.cp (logged_packets out) (input_loop lib s obuf_empty fuel r' out))
          same (later r' out same past within)))
  Ends-turn fuel r out result later (took start r' out' e past whole input log) =
      let rest : Option (Option (Receiver × List Output)) =
        input_loop lib s obuf_empty fuel r' out' in
      let cp : r'.input.cp ≡ start + size_at r.input.buf start = ap (λ i. i.cp) input in
      let ends =
        later r' out' (ap (λ i. i.buf) input) (omega (arith, cp, past))
          (omega (arith, cp, whole.within)) in
      rw e (
        Ends-took r.input.buf r.input.cp start (logged_packets out) rest past whole (
          subst (λ l. Ends r.input.buf (start + size_at r.input.buf start) l rest) log
            (subst (λ i. Ends i.buf i.cp (logged_packets out') rest) input ends)))

  input_loop-Ends :
      (finds : Finds lib) (fuel : ℕ) (r : Receiver) (out : List Output)
      → r.input.cp ≤ nc r.input
      → nc r.input < r.input.cp + fuel
      → Ends r.input.buf r.input.cp (logged_packets out) (input_loop lib s obuf_empty fuel r out)
  unfolding input_loop go_on
  input_loop-Ends finds zero r out within enough = absurd (omega arith)
  input_loop-Ends finds (suc fuel) r out within enough =
      elim (Bool-cases (ltb r.input.cp (nc r.input))) [
        | inr over ↦ rw over (
            inr (
              r,
              out,
              [],
              refl,
              refl,
              sym (append-nil (logged_packets out)),
              omega arith,
              inl (omega (arith, within, ltb→ge _ _ over)),
            ))
        | inl more ↦ rw more (
            Ends-turn fuel r out (pass lib s obuf_empty r out)
              (λ r' out' same past inside.
                input_loop-Ends finds fuel r' out' (omega (arith, inside, ap length same))
                  (omega (arith, past, enough, ap length same)))
              (pass-Turned s lib obuf_empty finds r out within))
      ]

  -- Let the library find a byte, or go to the end of the input. Whatever the bytes of the input,
  -- `protocol_input` either aborts, and the input then has a whole packet of an APID above 151, or it
  -- returns. If it returns, the packets it has logged are pieces of the input that do not overlap, in
  -- order, each with the two sync bytes and of the length in its header; what it reports as taken ends
  -- behind the last of them; and what it leaves is nothing, or starts with a sync byte and is shorter
  -- than a header or than the length in that header.
  pub protocol_input-Cuts :
      (finds : Finds lib) (r : Receiver)
      → r.input.cp ≤ nc r.input
      → ((protocol_input lib s obuf_empty r ≡ none)
          × ((start : ℕ) × (r.input.cp ≤ start) × Unknown r.input.buf start))
        ⊎ ((r' : Receiver) × (out : List Output) × (taken : ℕ) × (protocol_input lib s obuf_empty r
              ≡ some (some (r', out)))
            × (r'.input ≡ lib.report_ok taken (record { buf = r.input.buf; cp = taken }))
            × Cuts r.input.buf r.input.cp taken (logged_packets out)
            × IsPartial r.input.buf taken)
  unfolding protocol_input
  protocol_input-Cuts finds r within =
      let done = input_loop-Ends finds (suc (nc r.input)) r [] within (omega arith) in
      elim done [
        | inl (abort, unknown) ↦ inl (rw abort refl, unknown)
        | inr (r', out, packets, run, same, log, cuts, left) ↦ inr (
          record r' { input = lib.report_ok r'.input.cp r'.input },
          out,
          r'.input.cp,
          rw run refl,
          ap (λ b. lib.report_ok r'.input.cp (record { buf = b; cp = r'.input.cp })) same,
          subst (λ l. Cuts r.input.buf r.input.cp r'.input.cp l) (sym log) cuts,
          left,
        )
      ]
