-- ===== src/Nephex/Receiver/Sent.antt =====
-- What the receiver may send, and the count of the bytes that are not acknowledged.
use cosmid.Base.{
  Bool, true, flatten, length-append, ℕ, ◌+◌, ◌≤◌, ◌<◌, ◌≡◌, ap, arith, List, [], ◌∷◌, ◌++◌,
  append-nil, length,
}
use cosmid.Serio.{Serio, HasHeaderSize, pkt_hdr}
use cosmid.Serio.Checks.{length-pkt_hdr}
use cosmid.Nephex.Receiver.{Output, incorrect_length, logged, forwarded}

-- `RCVR_BUFSIZE`, the size of the input buffer
abbrev pub rcvr_bufsize : ℕ
rcvr_bufsize = 50000

-- The count of unacknowledged bytes goes from `o` to `o'` with this output: only a packet that was
-- just logged is sent, behind its header, and only while fewer than 2000 bytes are unacknowledged and
-- the output buffer is empty.
pub data Sends (s : Serio) (obuf_empty : List Output → Bool) (o : ℕ)
    : List Output → ℕ → Type 0 where
  nothing : Sends s obuf_empty o [] o
  reports :
      (apid expected len o' : ℕ) {out : List Output}
      → Sends s obuf_empty o out o'
      → Sends s obuf_empty o (out ++ (incorrect_length apid expected len ∷ [])) o'
  logs :
      (packet : List ℕ) (o' : ℕ) {out : List Output}
      → Sends s obuf_empty o out o'
      → Sends s obuf_empty o (out ++ (logged packet ∷ [])) o'
  sends :
      (packet : List ℕ) (o' : ℕ) {out : List Output}
      → length packet ≤ rcvr_bufsize
      → o' < 2000
      → obuf_empty (out ++ (logged packet ∷ [])) ≡ true
      → Sends s obuf_empty o out o'
      → Sends s obuf_empty o
          ((out ++ (logged packet ∷ []))
            ++ (forwarded (pkt_hdr s s.pkt_type_nph packet ∷ packet ∷ []) ∷ []))
          (o' + (s.sizeof_hdr + length packet))

-- the bytes sent
abbrev pub sent_bytes : List Output → ℕ
sent_bytes [] = 0
sent_bytes (logged packet ∷ out) = sent_bytes out
sent_bytes (incorrect_length apid expected len ∷ out) = sent_bytes out
sent_bytes (forwarded spans ∷ out) = length (flatten spans) + sent_bytes out

sent_bytes-append : (xs ys : List Output) → sent_bytes (xs ++ ys) ≡ sent_bytes xs + sent_bytes ys
sent_bytes-append [] ys = omega arith
sent_bytes-append (logged packet ∷ xs) ys = sent_bytes-append xs ys
sent_bytes-append (incorrect_length apid expected len ∷ xs) ys = sent_bytes-append xs ys
sent_bytes-append (forwarded spans ∷ xs) ys = omega (arith, sent_bytes-append xs ys)

-- Every byte sent is counted.
pub Sends-counted :
    (s : Serio) (obuf_empty : List Output → Bool) (o o' : ℕ) (out : List Output)
    → HasHeaderSize s
    → Sends s obuf_empty o out o'
    → o' ≡ o + sent_bytes out
unfolding flatten
Sends-counted s obuf_empty o o' _ hdr nothing = omega arith
Sends-counted s obuf_empty o o' _ hdr (reports apid expected len _ {out = out} rest) =
    let new : List Output = incorrect_length apid expected len ∷ [] in
    omega (arith, Sends-counted s obuf_empty o o' out hdr rest, sent_bytes-append out new)
Sends-counted s obuf_empty o o' _ hdr (logs packet _ {out = out} rest) =
    let new : List Output = logged packet ∷ [] in
    omega (arith, Sends-counted s obuf_empty o o' out hdr rest, sent_bytes-append out new)
Sends-counted s obuf_empty o o' _ hdr (sends packet o1 {out = out} short free clear rest) =
    let log : List Output = logged packet ∷ [] in
    let header : List ℕ = pkt_hdr s s.pkt_type_nph packet in
    let new : List Output = forwarded (header ∷ packet ∷ []) ∷ [] in
    omega (
      arith,
      Sends-counted s obuf_empty o o1 out hdr rest,
      sent_bytes-append out log,
      sent_bytes-append (out ++ log) new,
      length-pkt_hdr s s.pkt_type_nph packet hdr,
      length-append header (packet ++ []),
      ap length (append-nil packet),
    )

-- The count stays below 2000 and one packet more.
pub Sends-bounded :
    (s : Serio) (obuf_empty : List Output → Bool) (o o' : ℕ) (out : List Output)
    → o < 2000 + (s.sizeof_hdr + rcvr_bufsize)
    → Sends s obuf_empty o out o'
    → o' < 2000 + (s.sizeof_hdr + rcvr_bufsize)
Sends-bounded s obuf_empty o o' _ less nothing = less
Sends-bounded s obuf_empty o o' _ less (reports apid expected len _ rest) =
    Sends-bounded s obuf_empty o o' _ less rest
Sends-bounded s obuf_empty o o' _ less (logs packet _ rest) =
    Sends-bounded s obuf_empty o o' _ less rest
Sends-bounded s obuf_empty o o' _ less (sends packet o1 short free clear rest) =
    omega (arith, short, free)
