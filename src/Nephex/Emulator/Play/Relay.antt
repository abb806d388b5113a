-- ===== src/Nephex/Emulator/Play/Relay.antt =====
-- The emulator and the receiver together: what NE_ingest plays to nephex_tcp, nephex_tcp_rcvr reads.
use cosmid.Base.{
  sum, ℕ, ◌+◌, ◌*◌, ◌≤◌, ◌<◌, ◌≡◌, ◌⊎◌, refl, sym, ap, ap₂, ◌∙◌, subst, arith, Bool, true, false,
  Option, none, some, append-nil, List, [], ◌∷◌, ◌++◌, length, get_or, slice, flatten, u16,
  get_or-slice, slice-slice, slice-add, length-slice,
}
use cosmid.Dasio.{FindsNext, Dasio, nc}
use cosmid.Serio.{Serio}
use cosmid.Nephex.Receiver
use cosmid.Nephex.Receiver.{Receiver, word_at}
use cosmid.Nephex.Receiver.Logs.{logged_packets}
use cosmid.Nephex.Receiver.Frames.{
  PacketAt, IsFramed, IsFramed-within, cut, protocol_input-IsFramed,
}
use cosmid.Nephex.Emulator.Play.{
  Output, added, wrote, dropped, Player, additions, forward_packet, protocol_input,
}
use cosmid.Nephex.Emulator.Play.Paced.{IsTimed, Sees}
use cosmid.Nephex.Emulator.Play.Times.{IsPaced}
use cosmid.Nephex.Emulator.Play.Stops.{protocol_input-view}

flatten-cut :
    (buf : List ℕ) (start : ℕ) (ms : List ℕ) → flatten (cut buf start ms) ≡ slice buf start (sum ms)
unfolding flatten
flatten-cut buf start [] = refl
flatten-cut buf start (n ∷ ms) =
    ap (λ l. slice buf start n ++ l) (flatten-cut buf (start + n) ms)
    ∙ sym (slice-add buf start n (sum ms))

IsFramed-append :
    (buf : List ℕ) (start : ℕ) (ms ks : List ℕ)
    → IsFramed buf start (ms ++ ks)
    → IsFramed buf (start + sum ms) ks
IsFramed-append buf start [] ks framed =
    let e : start ≡ start + 0 = omega arith in subst (λ k. IsFramed buf k ks) e framed
IsFramed-append buf start (n ∷ ms) ks (at, framed) =
    let e : start + n + sum ms ≡ start + (n + sum ms) = omega arith in
    subst (λ k. IsFramed buf k ks) e (IsFramed-append buf (start + n) ms ks framed)

word_at-slice :
    (buf : List ℕ) (s k i i' : ℕ)
    → i + 1 < k
    → s + i ≡ i'
    → word_at (slice buf s k) i ≡ word_at buf i'
word_at-slice buf s k i i' h e =
    ap₂ (λ a b. u16 (a + b * 256))
      (get_or-slice buf s k i (omega arith) ∙ ap (λ j. get_or buf j 0) e)
      (get_or-slice buf s k (i + 1) h ∙ ap (λ j. get_or buf j 0) (omega (arith, e)))

PacketAt-slice :
    (buf : List ℕ) (s k j n : ℕ)
    → s + k ≤ length buf
    → j + n ≤ k
    → PacketAt buf (s + j) n
    → PacketAt (slice buf s k) j n
PacketAt-slice buf s k j n inside fits at =
    let size : word_at (slice buf s k) (j + 6) ≡ word_at buf (s + j + 6) =
      word_at-slice buf s k (j + 6) (s + j + 6) (omega (arith, at.size)) (omega arith) in
    let apid : word_at (slice buf s k) (j + 2) ≡ word_at buf (s + j + 2) =
      word_at-slice buf s k (j + 2) (s + j + 2) (omega (arith, at.size)) (omega arith) in
    let one : s + (j + 1) ≡ s + j + 1 = omega arith in
    record {
      sync_0 = get_or-slice buf s k j (omega (arith, at.size)) ∙ at.sync_0;
      sync_1 =
          get_or-slice buf s k (j + 1) (omega (arith, at.size))
          ∙ ap (λ i. get_or buf i 0) one
          ∙ at.sync_1;
      size = ap (λ w. w + 9) size ∙ at.size;
      within = omega (arith, length-slice buf s k inside);
      known = rw apid at.known;
    }

IsFramed-slice :
    (buf : List ℕ) (s k j : ℕ) (ms ks : List ℕ)
    → s + k ≤ length buf
    → j + sum ms ≡ k
    → IsFramed buf (s + j) (ms ++ ks)
    → IsFramed (slice buf s k) j ms × (cut (slice buf s k) j ms ≡ cut buf (s + j) ms)
IsFramed-slice buf s k j [] ks inside e framed =
    (omega (arith, e, length-slice buf s k inside), refl)
IsFramed-slice buf s k j (n ∷ ms) ks inside e (at, framed) =
    let next : s + j + n ≡ s + (j + n) = omega arith in
    let (rest, same) =
      IsFramed-slice buf s k (j + n) ms ks inside (omega (arith, e))
        (subst (λ i. IsFramed buf i (ms ++ ks)) next framed) in
    (
      (PacketAt-slice buf s k j n inside (omega (arith, e)) at, rest),
      ap₂ ◌∷◌ (slice-slice buf s k j n (omega (arith, e)))
          (same ∙ ap (λ i. cut buf i ms) (sym next)),
    )

-- the packets that were written to the client, in order
abbrev pub written : List Output → List (List ℕ)
written [] = []
written (wrote pkt ∷ out) = pkt ∷ written out
written (dropped pkt ∷ out) = written out
written (added _ _ ∷ out) = written out

written-append : (xs ys : List Output) → written (xs ++ ys) ≡ written xs ++ written ys
written-append [] ys = refl
written-append (wrote pkt ∷ xs) ys = ap (λ l. pkt ∷ l) (written-append xs ys)
written-append (dropped pkt ∷ xs) ys = written-append xs ys
written-append (added _ _ ∷ xs) ys = written-append xs ys

additions-unwritten : (d : Option (ℕ × ℕ)) → written (additions d) ≡ []
additions-unwritten none = refl
additions-unwritten (some _) = refl

module _ (lib : Dasio) (expired obuf_empty : List Output → Bool)
    (free : (out : List Output) → obuf_empty out ≡ true) where
  written-Sees : Sees lib expired obuf_empty written
  unfolding forward_packet
  written-Sees = record {
    empty = refl;
    times = λ d out.
        written-append out (additions d)
        ∙ ap (λ l. written out ++ l) (additions-unwritten d)
        ∙ append-nil (written out);
    packets = λ pkt out. rw (free out) (written-append out (wrote pkt ∷ []));
  }

  -- Let the input of the emulator be whole packets of APIDs up to 151 with milliseconds below 1000, in
  -- less than 65536 bytes, and let it have a client whose output buffer is empty at each packet; the
  -- library finds a byte that stands at `cp`. Then `protocol_input` of the emulator returns, and has
  -- written the first of the packets: all, or those in front of one for which its timer has not
  -- expired. Given the bytes that were written as its input, `protocol_input` of the receiver returns,
  -- has logged exactly these packets, in order, and reports all the bytes as taken.
  pub protocol_input_relayed :
      (s : Serio) (rcvr_obuf_empty : List Receiver.Output → Bool) (c : ℕ) (ns : List ℕ) (p : Player)
      (r : Receiver)
      → FindsNext lib
      → nc p.input < 65536
      → p.ingest.client ≡ some c
      → IsPaced p.ingest
      → IsFramed p.input.buf p.input.cp ns
      → IsTimed p.input.buf p.input.cp ns
      → (p' : Player) × (out : List Output) × (ms : List ℕ) × (ks : List ℕ) × (r' : Receiver)
        × (log : List Receiver.Output) × (protocol_input lib expired obuf_empty p
            ≡ some (some (p', out)))
        × (ns ≡ ms ++ ks)
        × ((ks ≡ []) ⊎ (expired out ≡ false))
        × (written out ≡ cut p.input.buf p.input.cp ms)
        × (Receiver.protocol_input lib s rcvr_obuf_empty
              (record r { input = record { buf = flatten (written out); cp = 0 } })
            ≡ some (some (r', log)))
        × (logged_packets log ≡ written out)
        × (r'.input
            ≡ lib.report_ok
                (length (flatten (written out)))
                (record { buf = flatten (written out); cp = length (flatten (written out)) }))
  protocol_input_relayed s rcvr_obuf_empty c ns p r next bounded client paced framed timed =
      let (p', out, ms, ks, run, split, sent, left, why, _, _) =
        protocol_input-view lib expired obuf_empty written written-Sees c ns p next bounded client
          paced framed timed in
      let buf : List ℕ = p.input.buf in
      let start : ℕ = p.input.cp in
      let all : IsFramed buf start (ms ++ ks) = subst (IsFramed buf start) split framed in
      let inside = IsFramed-within buf (start + sum ms) ks (IsFramed-append buf start ms ks all) in
      let here : start + 0 ≡ start = omega arith in
      let (framed', same) =
        IsFramed-slice buf start (sum ms) 0 ms ks inside (omega arith)
          (subst (λ i. IsFramed buf i (ms ++ ks)) (sym here) all) in
      let bytes : flatten (written out) ≡ slice buf start (sum ms) =
        ap flatten sent ∙ flatten-cut buf start ms in
      let (r', log, received, logs, taken) =
        protocol_input-IsFramed s lib rcvr_obuf_empty ms
          (record r { input = record { buf = flatten (written out); cp = 0 } }) next
          (subst (λ b. IsFramed b 0 ms) (sym bytes) framed') in
      (
        p',
        out,
        ms,
        ks,
        r',
        log,
        run,
        split,
        why,
        sent,
        received,
        logs ∙ ap (λ b. cut b 0 ms) bytes ∙ same ∙ ap (λ i. cut buf i ms) here ∙ sym sent,
        taken,
      )
