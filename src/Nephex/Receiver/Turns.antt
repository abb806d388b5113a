-- ===== src/Nephex/Receiver/Turns.antt =====
-- A turn of the loop on any input.
use cosmid.Base.{
  ℕ, ◌+◌, ◌-◌, ◌≤◌, ◌<◌, ◌≡◌, ◌⊎◌, inl, inr, refl, sym, ap, ◌∙◌, arith, bit_and, Bool, true, false,
  not, ◌&&◌, Option, none, some, List, [], ◌∷◌, ◌++◌, length, get_or, slice, ltb, ltb→lt, ltb→ge,
  ◌==◌, Bool-cases, ◌>>=◌, if◌then◌else◌, ap₂, subst,
}
use cosmid.Dasio.{Finds, Dasio, Input, nc}
use cosmid.Serio.{Serio}
use cosmid.Nephex.Apid.{max_apid}
use cosmid.Nephex.Receiver.{Output, Receiver, word_at, take_packet, pass}
use cosmid.Nephex.Receiver.Logs.{logged_packets, check_length-cases, take_packet-logs}

-- the number of bytes that the header at `start` gives its packet
abbrev pub size_at : List ℕ → ℕ → ℕ
size_at buf start = word_at buf (start + 6) + 9

-- a whole packet
pub record Whole (buf : List ℕ) (start : ℕ) : Type 0 where
  pub sync_0 : get_or buf start 0 ≡ 0xaa
  pub sync_1 : get_or buf (start + 1) 0 ≡ 0xaa
  pub within : start + size_at buf start ≤ length buf

-- The packets are whole ones in `buf`, one behind the other, from `from` to `to`.
abbrev pub Cuts : List ℕ → ℕ → ℕ → List (List ℕ) → Type 0
Cuts buf from to [] = from ≤ to
Cuts buf from to (packet ∷ packets) =
    (start : ℕ) × (from ≤ start)
    × Whole buf start
    × (packet ≡ slice buf start (size_at buf start))
    × Cuts buf (start + size_at buf start) to packets

-- Nothing is left, or the start of a packet that is not whole.
abbrev pub IsPartial : List ℕ → ℕ → Type 0
IsPartial buf start =
    (start ≡ length buf)
    ⊎ ((start < length buf)
        × (get_or buf start 0 ≡ 0xaa)
        × ((length buf < start + 8) ⊎ (length buf < start + size_at buf start)))

-- a packet of an APID above those of the table
abbrev pub Unknown : List ℕ → ℕ → Type 0
Unknown buf start = Whole buf start × (max_apid < bit_and (word_at buf (start + 2)) 0x3FF)

-- what a turn of the loop comes to
pub data Turned (r : Receiver) (out : List Output) (result : Option (Bool × Receiver × List Output))
    : Type 0 where
  aborted :
      (start : ℕ)
      → r.input.cp ≤ start
      → Unknown r.input.buf start
      → result ≡ none
      → Turned r out result
  stopped :
      (r' : Receiver)
      → result ≡ some (false, r', out)
      → r'.input.buf ≡ r.input.buf
      → r.input.cp ≤ r'.input.cp
      → IsPartial r.input.buf r'.input.cp
      → Turned r out result
  skipped :
      (r' : Receiver)
      → result ≡ some (true, r', out)
      → r'.input.buf ≡ r.input.buf
      → r.input.cp < r'.input.cp
      → r'.input.cp ≤ nc r.input
      → Turned r out result
  took :
      (start : ℕ) (r' : Receiver) (out' : List Output)
      → result ≡ some (true, r', out')
      → r.input.cp ≤ start
      → Whole r.input.buf start
      → r'.input ≡ record { buf = r.input.buf; cp = start + size_at r.input.buf start }
      → logged_packets out'
        ≡ logged_packets out ++ (slice r.input.buf start (size_at r.input.buf start) ∷ [])
      → Turned r out result

module _ (s : Serio) (lib : Dasio) (obuf_empty : List Output → Bool) where
  -- the rest of a turn, for the result of the search of the sync byte
  after_found : Receiver → List Output → Bool × Input → Option (Bool × Receiver × List Output)
  after_found r out (missing, input) =
      let start = input.cp - 1 in
      let len = word_at input.buf (start + 6) in
      if missing
      then some (false, record r { input = input }, out)
      else if ltb input.cp (nc input) && not (get_or input.buf input.cp 0 == 0xaa)
      then some (true, record r { input = input }, out)
      else if ltb (nc input) (start + 8)
      then some (false, record r { input = record input { cp = start } }, out)
      else if ltb (nc input) (start + len + 9)
      then some (false, record r { input = record input { cp = start } }, out)
      else do
        (r', out') ← take_packet lib s obuf_empty (record r { input = input }) out start
        some (true, r', out')

  take_packet-Turned :
      (r : Receiver) (out : List Output) (cp : ℕ)
      → r.input.cp < cp
      → Whole r.input.buf (cp - 1)
      → Turned r out (
          take_packet lib s obuf_empty
            (record r { input = record { buf = r.input.buf; cp = cp } })
            out
            (cp - 1)
          >>= λ (r', out'). some (true, r', out'))
  unfolding take_packet
  take_packet-Turned r out cp past whole =
      let r1 : Receiver = record r { input = record { buf = r.input.buf; cp = cp } } in
      let start : ℕ = cp - 1 in
      let apid : ℕ = bit_and (word_at r.input.buf (start + 2)) 0x3FF in
      elim (check_length-cases r1 out apid (word_at r.input.buf (start + 6))) [
        | inl (above, abort) ↦ aborted start (omega (arith, past)) (whole, above) (rw abort refl)
        | inr keeps ↦
            let (r', out', run, input, log) =
              take_packet-logs s lib obuf_empty r1 out start keeps in
            took start r' out' (ap (λ o. o >>= λ (r2, out2). some (true, r2, out2)) run)
              (omega (arith, past)) whole
              (input ∙ ap (λ c. record { buf = r.input.buf; cp = c }) (omega arith)) log
      ]

  after_found-Turned :
      (r : Receiver) (out : List Output) (cp : ℕ)
      → r.input.cp < cp
      → cp ≤ nc r.input
      → get_or r.input.buf (cp - 1) 0 ≡ 0xaa
      → Turned r out (after_found r out (false, record { buf = r.input.buf; cp = cp }))
  unfolding after_found
  after_found-Turned r out cp past within sync =
      let buf : List ℕ = r.input.buf in
      let start : ℕ = cp - 1 in
      let at : ℕ → Receiver = λ c. record r { input = record { buf = buf; cp = c } } in
      elim (Bool-cases (ltb cp (length buf) && not (get_or buf cp 0 == 0xaa))) [
        | inl lone ↦ rw lone (skipped (at cp) refl refl past within)
        | inr pair ↦ elim (Bool-cases (ltb (length buf) (start + 8))) [
          | inl short ↦
              rw (pair, short)
                (stopped (at start) refl refl (omega (arith, past))
                  (inr (omega (arith, past, within), sync, inl (ltb→lt _ _ short))))
          | inr header ↦
              elim (Bool-cases (ltb (length buf) (start + word_at buf (start + 6) + 9))) [
                | inl short ↦
                    rw (pair, header, short)
                      (stopped (at start) refl refl (omega (arith, past)) (
                        inr (
                          omega (arith, past, within),
                          sync,
                          inr (omega (arith, ltb→lt _ _ short)),
                        )))
                | inr whole ↦
                    rw (pair, header, whole)
                      (take_packet-Turned r out cp past (record {
                        sync_0 = sync;
                        sync_1 =
                            (let next : start + 1 ≡ cp = omega (arith, past) in
                              let more : ltb cp (length buf) ≡ true =
                                ground (arith, ltb→ge _ _ header, past) in
                              rw next (ground (arith, more, pair)));
                        within = omega (arith, ltb→ge _ _ whole);
                      }))
              ]
        ]
      ]

  pub pass-Turned :
      (finds : Finds lib) (r : Receiver) (out : List Output)
      → r.input.cp ≤ nc r.input
      → Turned r out (pass lib s obuf_empty r out)
  unfolding pass after_found
  pass-Turned finds r out within =
      let found : Bool × Input = lib.not_found 0xaa r.input in
      let same = finds.same_input 0xaa r.input in
      elim (Bool-cases found.0) [
        | inl missing ↦
            let end = finds.missing 0xaa r.input missing in
            rw missing (
              stopped (record r { input = found.1 }) refl same (omega (arith, end, within))
                (inl end))
        | inr there ↦
            let (past, inside, sync) = finds.found 0xaa r.input there in
            let e : found ≡ (false, record { buf = r.input.buf; cp = found.1.cp }) =
              ap₂ (λ b c. (b, record { buf = c; cp = found.1.cp })) there same in
            subst (λ f. Turned r out (after_found r out f)) (sym e)
              (after_found-Turned r out found.1.cp past inside sync)
      ]
