-- ===== src/Nephex/Receiver/Frames.antt =====
-- A stream of whole packets.
use cosmid.Base.{
  ℕ, zero, suc, ◌+◌, ◌-◌, ◌≤◌, ◌<◌, ◌≡◌, refl, sym, ap, ap₂, ◌∙◌, arith, bit_and, Bool, true, false,
  some, List, [], ◌∷◌, ◌++◌, append-nil, append_assoc, length, get_or, slice, ltb, ◌==◌,
}
use cosmid.Dasio.{FindsNext, Dasio, nc}
use cosmid.Serio.{Serio}
use cosmid.Nephex.Apid.{max_apid}
use cosmid.Nephex.Receiver.{Output, Receiver, word_at, pass, input_loop, protocol_input}
use cosmid.Nephex.Receiver.Logs.{logged_packets, check_length-Keeps, take_packet-logs}

-- a packet of `n` bytes, of an APID of the table, lies whole in `buf` at `start`
pub record PacketAt (buf : List ℕ) (start n : ℕ) : Type 0 where
  pub sync_0 : get_or buf start 0 ≡ 0xaa
  pub sync_1 : get_or buf (start + 1) 0 ≡ 0xaa
  pub size : word_at buf (start + 6) + 9 ≡ n
  pub within : start + n ≤ length buf
  pub known : bit_and (word_at buf (start + 2)) 0x3FF ≤ max_apid

-- `buf` is, from `start` on, packets of the given sizes and nothing else
abbrev pub IsFramed : List ℕ → ℕ → List ℕ → Type 0
IsFramed buf start [] = start ≡ length buf
IsFramed buf start (n ∷ ns) = PacketAt buf start n × IsFramed buf (start + n) ns

pub IsFramed-within :
    (buf : List ℕ) (start : ℕ) (ns : List ℕ) → IsFramed buf start ns → start ≤ length buf
IsFramed-within buf start [] framed = omega (arith, framed)
IsFramed-within buf start (n ∷ ns) (p, framed) = omega (arith, p.within)

-- the bytes from `start` on, cut into packets of the given sizes
abbrev pub cut : List ℕ → ℕ → List ℕ → List (List ℕ)
cut buf start [] = []
cut buf start (n ∷ ns) = slice buf start n ∷ cut buf (start + n) ns

pass-packet :
    (s : Serio) (lib : Dasio) (obuf_empty : List Output → Bool) (r : Receiver) (out : List Output)
    (n : ℕ)
    → FindsNext lib
    → PacketAt r.input.buf r.input.cp n
    → (r' : Receiver) × (out' : List Output) × (pass lib s obuf_empty r out ≡ some (true, r', out'))
      × (r'.input ≡ record { buf = r.input.buf; cp = r.input.cp + n })
      × (logged_packets out' ≡ logged_packets out ++ (slice r.input.buf r.input.cp n ∷ []))
unfolding pass
pass-packet s lib obuf_empty r out n next p =
    let r1 : Receiver = record r { input = record (r.input) { cp = r.input.cp + 1 } } in
    let start : r.input.cp + 1 - 1 ≡ r.input.cp = omega arith in
    let apid : ℕ = bit_and (word_at r.input.buf (r.input.cp + 2)) 0x3FF in
    let (r', out', run, input, log) =
      take_packet-logs s lib obuf_empty r1 out r.input.cp
        (check_length-Keeps r1 out apid (word_at r.input.buf (r.input.cp + 6)) p.known) in
    let found : lib.not_found 0xaa r.input ≡ (false, record (r.input) { cp = r.input.cp + 1 }) =
      next 0xaa r.input (omega (arith, p.size, p.within)) p.sync_0 in
    let second : (get_or r.input.buf (r.input.cp + 1) 0 == 0xaa) ≡ true =
      ground (arith, p.sync_1) in
    let header : ltb (nc r.input) (r.input.cp + 8) ≡ false = ground (arith, p.size, p.within) in
    let whole : ltb (nc r.input) (r.input.cp + word_at r.input.buf (r.input.cp + 6) + 9) ≡ false =
      ground (arith, p.size, p.within) in
    let here : ltb (r.input.cp + 1) (nc r.input) ≡ true = ground (arith, p.size, p.within) in
    (
      r',
      out',
      rw (found, start, here, second, header, whole, run) refl,
      input ∙ ap (λ c. record { buf = r.input.buf; cp = c }) (omega (arith, p.size)),
      log ∙ ap (λ k. logged_packets out ++ (slice r.input.buf r.input.cp k ∷ [])) p.size,
    )

input_loop-IsFramed :
    (s : Serio) (lib : Dasio) (obuf_empty : List Output → Bool) (next : FindsNext lib) (ns : List ℕ)
    (fuel : ℕ) (r : Receiver) (out : List Output)
    → IsFramed r.input.buf r.input.cp ns
    → nc r.input < r.input.cp + fuel
    → (r' : Receiver) × (out' : List Output) × (input_loop lib s obuf_empty fuel r out
        ≡ some (some (r', out')))
      × (r'.input ≡ record { buf = r.input.buf; cp = nc r.input })
      × (logged_packets out' ≡ logged_packets out ++ cut r.input.buf r.input.cp ns)
unfolding input_loop
input_loop-IsFramed s lib obuf_empty next ns zero r out framed enough =
    absurd (omega (arith, enough, IsFramed-within r.input.buf r.input.cp ns framed))
input_loop-IsFramed s lib obuf_empty next [] (suc fuel) r out framed enough =
    let over : ltb r.input.cp (nc r.input) ≡ false = ground (arith, framed) in
    (
      r,
      out,
      rw over refl,
      ap (λ c. record { buf = r.input.buf; cp = c }) framed,
      sym (append-nil (logged_packets out)),
    )
input_loop-IsFramed s lib obuf_empty next (n ∷ ns) (suc fuel) r out (p, framed) enough =
    let here : ltb r.input.cp (nc r.input) ≡ true = ground (arith, p.size, p.within) in
    let (r1, out1, run1, input1, log1) = pass-packet s lib obuf_empty r out n next p in
    let (r2, out2, run2, input2, log2) =
      input_loop-IsFramed s lib obuf_empty next ns fuel r1 out1 (rw input1 framed)
        (rw input1 (omega (arith, p.size, enough))) in
    (
      r2,
      out2,
      rw (here, run1) run2,
      input2 ∙ ap (λ i. record { buf = i.buf; cp = nc i }) input1,
      log2
          ∙ ap₂ ◌++◌ log1 (ap (λ i. cut i.buf i.cp ns) input1)
          ∙ append_assoc (logged_packets out) (slice r.input.buf r.input.cp n ∷ [])
              (cut r.input.buf (r.input.cp + n) ns),
    )

-- The library finds a byte that stands at `cp`. If the input is, from `cp` on, a sequence of whole
-- packets of APIDs up to 151, of any number and sizes, then `protocol_input` returns: nothing aborts,
-- the assertion of `forward_packet` included, and the loop's fuel is enough. It has logged exactly
-- those packets, in order, each with all its bytes, and reports the whole input as taken.
pub protocol_input-IsFramed :
    (s : Serio) (lib : Dasio) (obuf_empty : List Output → Bool) (ns : List ℕ) (r : Receiver)
    → FindsNext lib
    → IsFramed r.input.buf r.input.cp ns
    → (r' : Receiver) × (out : List Output) × (protocol_input lib s obuf_empty r
        ≡ some (some (r', out)))
      × (logged_packets out ≡ cut r.input.buf r.input.cp ns)
      × (r'.input ≡ lib.report_ok (nc r.input) (record { buf = r.input.buf; cp = nc r.input }))
unfolding protocol_input
protocol_input-IsFramed s lib obuf_empty ns r next framed =
    let (r', out, run, input, log) =
      input_loop-IsFramed s lib obuf_empty next ns (suc (nc r.input)) r [] framed (omega arith) in
    (
      record r' { input = lib.report_ok r'.input.cp r'.input },
      out,
      rw run refl,
      log,
      ap (λ i. lib.report_ok i.cp i) input,
    )
