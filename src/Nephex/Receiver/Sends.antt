-- ===== src/Nephex/Receiver/Sends.antt =====
-- What `protocol_input` sends: packets that were just logged, while the flow control allows it.
use cosmid.Base.{
  ℕ, zero, suc, ◌+◌, ◌-◌, ◌≤◌, ◌<◌, ◌≡◌, ap, subst, arith, inl, inr, Bool, true, false, not, ◌&&◌,
  Option, none, some, List, [], ◌∷◌, ◌++◌, bit_and, get_or, length, slice, length-take, length-drop,
  drop, take, take_all, u16, add32, ltb, ◌==◌, Bool-cases, ◌>>=◌, if◌then◌else◌,
}
use cosmid.Dasio.{Finds, Dasio, nc}
use cosmid.Serio.{Serio}
use cosmid.Nephex.Apid.{Entry, get_size, not_reported, ok_to_transmit}
use cosmid.Nephex.Export.{cts, forward_packet}
use cosmid.Nephex.Receiver.{
  Output, incorrect_length, logged, Receiver, word_at, check_length, forward, take_packet, pass,
  input_loop, protocol_input,
}
use cosmid.Nephex.Receiver.Turns.{Unknown}
use cosmid.Nephex.Receiver.Calls.{protocol_input-Cuts}
use cosmid.Nephex.Receiver.Sent.{rcvr_bufsize, Sends, nothing, reports, logs, sends}

module _ (s : Serio) (lib : Dasio) (obuf_empty : List Output → Bool) (o : ℕ)
    (small : s.sizeof_hdr < 1000) where
  -- a receiver that is consistent with its output, and whose input fits in its buffer
  abbrev pub Sane : Receiver → List Output → Type 0
  Sane r out = Sends s obuf_empty o out r.outstanding_bytes × (nc r.input ≤ rcvr_bufsize)

  abbrev Fits : Option (Receiver × List Output) → Type 0
  Fits none = Unit
  Fits (some (r, out)) = Sane r out

  report-Fits :
      (r : Receiver) (out : List Output) (apid expected len : ℕ)
      (result : Option (Bool × List Entry))
      → Sane r out
      → Fits (do
        (first, apids) ← result
        some (
          record r { apids = apids },
          if first then out ++ (incorrect_length apid expected len ∷ []) else out,
        ))
  report-Fits r out apid expected len none sane = tt
  report-Fits r out apid expected len (some (true, apids)) (order, fits) =
      (reports apid expected len r.outstanding_bytes order, fits)
  report-Fits r out apid expected len (some (false, apids)) sane = sane

  check_length-Fits :
      (r : Receiver) (out : List Output) (apid len : ℕ)
      → Sane r out
      → Fits (check_length r out apid len)
  unfolding check_length
  check_length-Fits r out apid len sane = elim (Bool-cases ((get_size r.apids apid + 6) == len)) [
    | inl right ↦ rw right sane
    | inr wrong ↦
        rw wrong
          (report-Fits r out apid (get_size r.apids apid + 6) len (not_reported r.apids apid) sane)
  ]

  forward-Fits :
      (r : Receiver) (out : List Output) (apid : ℕ) (packet : List ℕ)
      → length packet ≤ rcvr_bufsize
      → Sane r out
      → Fits (forward lib s obuf_empty r (out ++ (logged packet ∷ [])) apid packet)
  unfolding forward forward_packet
  forward-Fits r out apid packet short (order, fits) =
      let out1 : List Output = out ++ (logged packet ∷ []) in
      let whole : take (u16 (length packet)) packet ≡ packet =
        take_all (u16 (length packet)) packet (omega (arith, short)) in
      elim (Bool-cases (cts r.outstanding_bytes (obuf_empty out1))) [
        | inr held ↦ rw held (logs packet r.outstanding_bytes order, fits)
        | inl may ↦ elim (Bool-cases (ok_to_transmit r.apids apid).0) [
          | inr skip ↦ rw (may, skip) (logs packet r.outstanding_bytes order, fits)
          | inl send ↦
              let free : r.outstanding_bytes < 2000 = ground (arith, may) in
              let clear : obuf_empty out1 ≡ true = ground (arith, may) in
              let count : add32 r.outstanding_bytes (s.sizeof_hdr + u16 (length packet))
                  ≡ r.outstanding_bytes + (s.sizeof_hdr + length packet) =
                omega (arith, short, free, small) in
              rw (may, send, whole, count)
                (sends packet r.outstanding_bytes short free clear order, fits)
        ]
      ]

  -- A result that fits, and what is done with it.
  Fits-bind :
      (result : Option (Receiver × List Output))
      (rest : Receiver × List Output → Option (Receiver × List Output))
      → Fits result
      → ((r : Receiver) (out : List Output) → Sane r out → Fits (rest (r, out)))
      → Fits (result >>= rest)
  Fits-bind none rest fits later = tt
  Fits-bind (some (r, out)) rest sane later = later r out sane

  take_packet-Fits :
      (r : Receiver) (out : List Output) (start : ℕ)
      → Sane r out
      → Fits (take_packet lib s obuf_empty r out start)
  unfolding take_packet
  take_packet-Fits r out start sane =
      let len : ℕ = word_at r.input.buf (start + 6) in
      let apid : ℕ = bit_and (word_at r.input.buf (start + 2)) 0x3FF in
      let packet : List ℕ = slice r.input.buf start (len + 9) in
      let short : length packet ≤ rcvr_bufsize = omega (
        arith,
        sane.1,
        length-take (len + 9) (drop start r.input.buf),
        length-drop start r.input.buf,
      ) in
      Fits-bind (check_length r out apid len) _ (check_length-Fits r out apid len sane)
        (λ r1 out1 sane1.
          Fits-bind (forward lib s obuf_empty r1 (out1 ++ (logged packet ∷ [])) apid packet) _
            (forward-Fits r1 out1 apid packet short sane1) (λ r2 out2 sane2. sane2))

  -- the same of a turn, and of the loop
  abbrev Turned : Option (Bool × Receiver × List Output) → Type 0
  Turned none = Unit
  Turned (some (more, r, out)) = Sane r out

  Turned-took :
      (result : Option (Receiver × List Output))
      → Fits result
      → Turned (result >>= λ (r, out). some (true, r, out))
  Turned-took none fits = tt
  Turned-took (some (r, out)) sane = sane

  pass-Turned :
      (finds : Finds lib) (r : Receiver) (out : List Output)
      → Sane r out
      → Turned (pass lib s obuf_empty r out)
  unfolding pass
  pass-Turned finds r out (order, fits) =
      let (missing, input) = lib.not_found 0xaa r.input in
      let same = ap length (finds.same_input 0xaa r.input) in
      let kept : nc input ≤ rcvr_bufsize = omega (arith, fits, same) in
      let start : ℕ = input.cp - 1 in
      elim (Bool-cases missing) [
        | inl none_here ↦ rw none_here (order, kept)
        | inr here ↦
            elim (Bool-cases
              (ltb input.cp (nc input) && not (get_or input.buf input.cp 0 == 0xaa))) [
                | inl lone ↦ rw (here, lone) (order, kept)
                | inr pair ↦ elim (Bool-cases (ltb (nc input) (start + 8))) [
                  | inl short ↦ rw (here, pair, short) (order, kept)
                  | inr header ↦
                      elim (Bool-cases
                        (ltb (nc input) (start + word_at input.buf (start + 6) + 9))) [
                          | inl short ↦ rw (here, pair, header, short) (order, kept)
                          | inr whole ↦
                              rw (here, pair, header, whole)
                                (Turned-took
                                  (take_packet lib s obuf_empty (record r { input = input }) out
                                    start)
                                  (take_packet-Fits (record r { input = input }) out start
                                    (order, kept)))
                        ]
                ]
              ]
      ]

  abbrev Ended : Option (Option (Receiver × List Output)) → Type 0
  Ended (some (some (r, out))) = Sane r out
  Ended _ = Unit

  Ended-turn :
      (fuel : ℕ) (result : Option (Bool × Receiver × List Output))
      → Turned result
      → ((r : Receiver) (out : List Output)
          → Sane r out
          → Ended (input_loop lib s obuf_empty fuel r out))
      → Ended (do
        (more, r, out) ← result
        elim more [ true ↦ input_loop lib s obuf_empty fuel r out | false ↦ some (some (r, out)) ])
  Ended-turn fuel none turned later = tt
  Ended-turn fuel (some (true, r, out)) sane later = later r out sane
  Ended-turn fuel (some (false, r, out)) sane later = sane

  input_loop-Ended :
      (finds : Finds lib) (fuel : ℕ) (r : Receiver) (out : List Output)
      → Sane r out
      → Ended (input_loop lib s obuf_empty fuel r out)
  unfolding input_loop
  input_loop-Ended finds zero r out sane = tt
  input_loop-Ended finds (suc fuel) r out sane = elim (Bool-cases (ltb r.input.cp (nc r.input))) [
    | inr over ↦ rw over sane
    | inl more ↦ rw more (
        Ended-turn fuel (pass lib s obuf_empty r out) (pass-Turned finds r out sane)
          (λ r' out' sane'. input_loop-Ended finds fuel r' out' sane'))
  ]

  abbrev Final : Option (Option (Receiver × List Output)) → Type 0
  Final (some (some (r, out))) = Sends s obuf_empty o out r.outstanding_bytes
  Final _ = Unit

  Final-reported :
      (result : Option (Option (Receiver × List Output)))
      → Ended result
      → Final (do
        done ← result
        elim done [
          | none ↦ some none
          | some (r', out) ↦
              some (some (record r' { input = lib.report_ok r'.input.cp r'.input }, out))
        ])
  Final-reported none ended = tt
  Final-reported (some none) ended = tt
  Final-reported (some (some (r, out))) (order, fits) = order

-- What a call that returns has sent.
protocol_input-sent :
    (s : Serio) (lib : Dasio) (obuf_empty : List Output → Bool) (r r' : Receiver)
    (out : List Output)
    → s.sizeof_hdr < 1000
    → Finds lib
    → nc r.input ≤ rcvr_bufsize
    → protocol_input lib s obuf_empty r ≡ some (some (r', out))
    → Sends s obuf_empty r.outstanding_bytes out r'.outstanding_bytes
unfolding protocol_input
protocol_input-sent s lib obuf_empty r r' out small finds fits run =
    subst (λ result. Final s lib obuf_empty r.outstanding_bytes small result) run
      (Final-reported s lib obuf_empty r.outstanding_bytes small
        (input_loop lib s obuf_empty (suc (nc r.input)) r [])
        (input_loop-Ended s lib obuf_empty r.outstanding_bytes small finds (suc (nc r.input)) r []
          (nothing, fits)))

-- Let the library find a byte, or go to the end of the input, let a serial header have less than 1000
-- bytes, and let the input fit in its buffer and hold no whole packet of an APID above 151. Then
-- `protocol_input` returns. It sends packets only, each one right after it was logged and behind its
-- header, and only while fewer than 2000 bytes are unacknowledged and the output buffer is empty; each packet sent, with its header,
-- is added to the count, which does not wrap.
pub protocol_input-Sends :
    (s : Serio) (lib : Dasio) (obuf_empty : List Output → Bool) (r : Receiver)
    → s.sizeof_hdr < 1000
    → Finds lib
    → r.input.cp ≤ nc r.input
    → nc r.input ≤ rcvr_bufsize
    → ((start : ℕ) → r.input.cp ≤ start → Unknown r.input.buf start → ⊥)
    → (r' : Receiver) × (out : List Output) × (protocol_input lib s obuf_empty r
        ≡ some (some (r', out)))
      × Sends s obuf_empty r.outstanding_bytes out r'.outstanding_bytes
protocol_input-Sends s lib obuf_empty r small finds within fits known =
    elim (protocol_input-Cuts s lib obuf_empty finds r within) [
      | inl (_, (start, past, unknown)) ↦ absurd (known start past unknown)
      | inr (r', out, taken, returns, _, _, _) ↦
          (r', out, returns, protocol_input-sent s lib obuf_empty r r' out small finds fits returns)
    ]
