-- ===== src/Nephex/Receiver/Logs.antt =====
-- What the parts of a turn of the loop do to the log.
use cosmid.Base.{
  Bool-cases, inl, inr, set, ℕ, ◌+◌, ◌≤◌, ◌≡◌, refl, ap, ◌∙◌, arith, Bool, true, false, some,
  Option, List, [], ◌∷◌, ◌++◌, append-nil, not, none, bit_and, slice, ltb, ltb→lt, ltb→ge, ◌<◌, ◌⊎◌,
  ◌==◌,
}
use cosmid.Dasio.{Dasio}
use cosmid.Serio.{Serio}
use cosmid.Nephex.Apid.{Entry, entry, max_apid, not_reported, get_size, ok_to_transmit}
use cosmid.Nephex.Export.{cts, forward_packet}
use cosmid.Nephex.Receiver.{
  Output, incorrect_length, logged, forwarded, Receiver, check_length, forward, take_packet,
  word_at,
}

-- the packets that were logged, in order
abbrev pub logged_packets : List Output → List (List ℕ)
logged_packets [] = []
logged_packets (logged packet ∷ out) = packet ∷ logged_packets out
logged_packets (incorrect_length apid expected len ∷ out) = logged_packets out
logged_packets (forwarded spans ∷ out) = logged_packets out

pub logged_packets-append :
    (out new : List Output) → logged_packets (out ++ new) ≡ logged_packets out ++ logged_packets new
logged_packets-append [] new = refl
logged_packets-append (logged packet ∷ out) new =
    ap (λ l. packet ∷ l) (logged_packets-append out new)
logged_packets-append (incorrect_length apid expected len ∷ out) new = logged_packets-append out new
logged_packets-append (forwarded spans ∷ out) new = logged_packets-append out new

-- what a step that logs nothing has as its result: it succeeds, and keeps the input and the log
abbrev pub Keeps : Receiver → List Output → Option (Receiver × List Output) → Type 0
Keeps r out result =
    (r' : Receiver) × (out' : List Output) × (result ≡ some (r', out'))
    × (r'.input ≡ r.input)
    × (logged_packets out' ≡ logged_packets out)

Keeps-same :
    (r r' : Receiver) (out : List Output) → r'.input ≡ r.input → Keeps r out (some (r', out))
Keeps-same r r' out e = (r', out, refl, e, refl)

Keeps-more :
    (r r' : Receiver) (out new : List Output)
    → r'.input ≡ r.input
    → logged_packets new ≡ []
    → Keeps r out (some (r', out ++ new))
Keeps-more r r' out new e quiet =
    (r', out ++ new, refl, e, logged_packets-append out new ∙ rw (quiet, append-nil) refl)

not_reported-cases :
    (defs : List Entry) (apid : ℕ)
    → apid ≤ max_apid
    → (first : Bool) × (defs' : List Entry) × (not_reported defs apid ≡ some (first, defs'))
unfolding not_reported
not_reported-cases defs apid known = elim (Bool-cases (not ((entry defs apid).reported == 0))) [
  | inl e ↦ (false, defs, ground (arith, e))
  | inr e ↦ (true, set defs apid (record (entry defs apid) { reported = 1 }), ground (arith, e))
]

pub check_length-Keeps :
    (r : Receiver) (out : List Output) (apid len : ℕ)
    → apid ≤ max_apid
    → Keeps r out (check_length r out apid len)
unfolding check_length
check_length-Keeps r out apid len known =
    let (first, apids, e) = not_reported-cases r.apids apid known in
    let r' : Receiver = record r { apids = apids } in
    let report : List Output = incorrect_length apid (get_size r.apids apid + 6) len ∷ [] in
    elim (Bool-cases ((get_size r.apids apid + 6) == len)) [
      | inl right ↦ rw right (Keeps-same r r out refl)
      | inr wrong ↦ elim (Bool-cases first) [
        | inl b ↦ rw (wrong, e, b) (Keeps-more r r' out report refl refl)
        | inr b ↦ rw (wrong, e, b) (Keeps-same r r' out refl)
      ]
    ]

pub forward-Keeps :
    (s : Serio) (lib : Dasio) (obuf_empty : List Output → Bool) (r : Receiver) (out : List Output)
    (apid : ℕ) (packet : List ℕ)
    → Keeps r out (forward lib s obuf_empty r out apid packet)
unfolding forward forward_packet
forward-Keeps s lib obuf_empty r out apid packet =
    elim (Bool-cases (cts r.outstanding_bytes (obuf_empty out))) [
      | inr held ↦ rw held (Keeps-same r r out refl)
      | inl may ↦ elim (Bool-cases (ok_to_transmit r.apids apid).0) [
        | inr skip ↦ rw (may, skip) (Keeps-same r _ out refl)
        | inl send ↦ rw (may, send) (Keeps-more r _ out _ refl refl)
      ]
    ]

-- A packet is logged whole, if the check of its length does not abort.
pub take_packet-logs :
    (s : Serio) (lib : Dasio) (obuf_empty : List Output → Bool) (r : Receiver) (out : List Output)
    (start : ℕ)
    → Keeps r out (
        check_length r out
          (bit_and (word_at r.input.buf (start + 2)) 0x3FF)
          (word_at r.input.buf (start + 6)))
    → (r' : Receiver) × (out' : List Output) × (take_packet lib s obuf_empty r out start
        ≡ some (r', out'))
      × (r'.input ≡ record { buf = r.input.buf; cp = start + word_at r.input.buf (start + 6) + 9 })
      × (logged_packets out'
          ≡ logged_packets out
            ++ (slice r.input.buf start (word_at r.input.buf (start + 6) + 9) ∷ []))
unfolding take_packet
take_packet-logs s lib obuf_empty r out start (r1, out1, run1, input1, log1) =
    let apid : ℕ = bit_and (word_at r.input.buf (start + 2)) 0x3FF in
    let len : ℕ = word_at r.input.buf (start + 6) in
    let packet : List ℕ = slice r.input.buf start (len + 9) in
    let (r2, out2, run2, input2, log2) =
      forward-Keeps s lib obuf_empty r1 (out1 ++ (logged packet ∷ [])) apid packet in
    (
      record r2 { input = record (r2.input) { cp = start + len + 9 } },
      out2,
      rw (run1, run2) refl,
      ap (λ i. record { buf = i.buf; cp = start + len + 9 }) (input2 ∙ input1),
      log2 ∙ logged_packets-append out1 (logged packet ∷ []) ∙ ap (λ l. l ++ (packet ∷ [])) log1,
    )

-- without the hypothesis on the APID
pub check_length-cases :
    (r : Receiver) (out : List Output) (apid len : ℕ)
    → ((max_apid < apid) × (check_length r out apid len ≡ none))
      ⊎ Keeps r out (check_length r out apid len)
unfolding check_length not_reported
check_length-cases r out apid len = elim (Bool-cases (ltb max_apid apid)) [
  | inr known ↦ inr (check_length-Keeps r out apid len (ltb→ge max_apid apid known))
  | inl above ↦ elim (Bool-cases ((get_size r.apids apid + 6) == len)) [
    | inl right ↦ rw right (inr (Keeps-same r r out refl))
    | inr wrong ↦ inl (ltb→lt max_apid apid above, rw (wrong, above) refl)
  ]
]
