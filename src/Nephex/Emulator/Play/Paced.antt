-- ===== src/Nephex/Emulator/Play/Paced.antt =====
-- One turn of the loop in front of a packet.
use cosmid.Base.{
  ℕ, ◌+◌, ◌-◌, ◌≤◌, ◌<◌, ◌≡◌, inl, inr, refl, sym, subst, ap, ap₂, ◌∙◌, arith, Bool, true, false,
  Option, none, some, List, [], ◌∷◌, ◌++◌, append-nil, get_or, slice, ltb, ◌==◌, Bool-cases, u16,
  add32,
}
use cosmid.Dasio.{FindsNext, Dasio, nc}
use cosmid.Nephex.Receiver.{word_at}
use cosmid.Nephex.Receiver.Frames.{PacketAt}
use cosmid.Nephex.Emulator.Play.{
  Output, added, wrote, dropped, Player, again, leave, secs_at, additions, has_client,
  forward_packet, play, turn,
}
use cosmid.Nephex.Emulator.Play.Times.{
  IsPaced, time_at, extended, extended-append, Moved, Moves-Moved, pace-IsPaced,
}

-- the packets that were passed to the client, in order
abbrev pub played : List Output → List (List ℕ)
played [] = []
played (wrote pkt ∷ out) = pkt ∷ played out
played (dropped pkt ∷ out) = pkt ∷ played out
played (added _ _ ∷ out) = played out

played-append : (xs ys : List Output) → played (xs ++ ys) ≡ played xs ++ played ys
played-append [] ys = refl
played-append (wrote pkt ∷ xs) ys = ap (λ l. pkt ∷ l) (played-append xs ys)
played-append (dropped pkt ∷ xs) ys = ap (λ l. pkt ∷ l) (played-append xs ys)
played-append (added _ _ ∷ xs) ys = played-append xs ys

-- The packets have a time, with milliseconds below 1000.
abbrev pub IsTimed : List ℕ → ℕ → List ℕ → Type 0
IsTimed buf start [] = Unit
IsTimed buf start (n ∷ ns) =
    (14 ≤ n) × (word_at buf (start + 12) < 1000) × IsTimed buf (start + n) ns

additions-quiet : (d : Option (ℕ × ℕ)) → played (additions d) ≡ []
additions-quiet none = refl
additions-quiet (some _) = refl

module _ (lib : Dasio) (expired obuf_empty : List Output → Bool) where
  -- a way to see what was put out as a list of packets: timers are not seen, and each packet is
  pub record Sees (view : List Output → List (List ℕ)) : Type 0 where
    pub empty : view [] ≡ []
    pub times : (d : Option (ℕ × ℕ)) (out : List Output) → view (out ++ additions d) ≡ view out
    pub packets :
        (pkt : List ℕ) (out : List Output)
        → view (forward_packet lib expired obuf_empty pkt out) ≡ view out ++ (pkt ∷ [])

  pub played-Sees : Sees played
  unfolding forward_packet
  played-Sees = record {
    empty = refl;
    times = λ d out.
        played-append out (additions d)
        ∙ ap (λ l. played out ++ l) (additions-quiet d)
        ∙ append-nil (played out);
    packets = λ pkt out. elim (Bool-cases (obuf_empty out)) [
      | inl e ↦ rw e (played-append out (wrote pkt ∷ []))
      | inr e ↦ rw e (played-append out (dropped pkt ∷ []))
    ];
  }

-- What is put out in the course of a call: a packet is passed to the client only when the timer has
-- expired, and it is dropped exactly if the client's output buffer is not empty then.
pub data Timely (expired obuf_empty : List Output → Bool) : List Output → Type 0 where
  nothing : Timely expired obuf_empty []
  extends :
      {out : List Output} (secs msecs : ℕ)
      → Timely expired obuf_empty out
      → Timely expired obuf_empty (out ++ (added secs msecs ∷ []))
  writes :
      {out : List Output} (pkt : List ℕ)
      → Timely expired obuf_empty out
      → expired out ≡ true
      → obuf_empty out ≡ true
      → Timely expired obuf_empty (out ++ (wrote pkt ∷ []))
  drops :
      {out : List Output} (pkt : List ℕ)
      → Timely expired obuf_empty out
      → expired out ≡ true
      → obuf_empty out ≡ false
      → Timely expired obuf_empty (out ++ (dropped pkt ∷ []))

module _ (lib : Dasio) (expired obuf_empty : List Output → Bool) where
  additions-Timely :
      (d : Option (ℕ × ℕ)) (out : List Output)
      → Timely expired obuf_empty out
      → Timely expired obuf_empty (out ++ additions d)
  additions-Timely none out timely = subst (Timely expired obuf_empty) (sym (append-nil out)) timely
  additions-Timely (some (secs, msecs)) out timely = extends secs msecs timely

  extended-forward_packet :
      (pkt : List ℕ) (out : List Output)
      → extended (forward_packet lib expired obuf_empty pkt out) ≡ extended out
  unfolding forward_packet
  extended-forward_packet pkt out = elim (Bool-cases (obuf_empty out)) [
    | inl e ↦ rw e (omega (arith, extended-append out (wrote pkt ∷ [])))
    | inr e ↦ rw e (omega (arith, extended-append out (dropped pkt ∷ [])))
  ]

  forward_packet-Timely :
      (pkt : List ℕ) (out : List Output)
      → expired out ≡ true
      → Timely expired obuf_empty out
      → Timely expired obuf_empty (forward_packet lib expired obuf_empty pkt out)
  unfolding forward_packet
  forward_packet-Timely pkt out now timely = elim (Bool-cases (obuf_empty out)) [
    | inl e ↦ rw e (writes pkt timely now e)
    | inr e ↦ rw e (drops pkt timely now e)
  ]

module _ (lib : Dasio) (expired obuf_empty : List Output → Bool)
    (view : List Output → List (List ℕ)) (sees : Sees lib expired obuf_empty view) where
  -- what a turn does with the packet at `cp`: it plays it, or it waits in front of it
  pub data Played (p : Player) (out : List Output) (n : ℕ) : Type 0 where
    plays :
        (p' : Player) (out' : List Output)
        → turn lib expired obuf_empty p out ≡ some (again, p', out')
        → p'.input ≡ record { buf = p.input.buf; cp = p.input.cp + n }
        → p'.ingest.client ≡ p.ingest.client
        → p'.ingest.last_msecs < 1000
        → view out' ≡ view out ++ (slice p.input.buf p.input.cp n ∷ [])
        → (Timely expired obuf_empty out → Timely expired obuf_empty out')
        → (p.ingest.last_secs < 4294967296
            → Moved p.ingest p'.ingest (time_at p.input.buf p.input.cp) out out')
        → Played p out n
    waits :
        (p' : Player) (out' : List Output)
        → turn lib expired obuf_empty p out ≡ some (leave, p', out')
        → p'.input ≡ p.input
        → view out' ≡ view out
        → expired out' ≡ false
        → (Timely expired obuf_empty out → Timely expired obuf_empty out')
        → (p.ingest.last_secs < 4294967296
            → Moved p.ingest p'.ingest (time_at p.input.buf p.input.cp) out out')
        → Played p out n

  pub play-Played :
      (c : ℕ) (p : Player) (out : List Output) (n : ℕ)
      → FindsNext lib
      → nc p.input < 65536
      → p.ingest.client ≡ some c
      → IsPaced p.ingest
      → PacketAt p.input.buf p.input.cp n
      → word_at p.input.buf (p.input.cp + 12) < 1000
      → Played p out n
  unfolding turn play
  play-Played c p out n next bounded client paced at small =
      let start : p.input.cp + 1 - 1 ≡ p.input.cp = omega arith in
      let found : lib.not_found 0xaa p.input ≡ (false, record (p.input) { cp = p.input.cp + 1 }) =
        next 0xaa p.input (omega (arith, at.size, at.within)) at.sync_0 in
      let second : (get_or p.input.buf (p.input.cp + 1) 0 == 0xaa) ≡ true =
        ground (arith, at.sync_1) in
      let header : ltb (nc p.input) (p.input.cp + 8) ≡ false = ground (arith, at.size, at.within) in
      let whole : ltb (nc p.input) (p.input.cp + word_at p.input.buf (p.input.cp + 6) + 9) ≡ false =
        ground (arith, at.size, at.within) in
      let here : ltb (p.input.cp + 1) (nc p.input) ≡ true = ground (arith, at.size, at.within) in
      let (ingest, d, run, same, last, moves) =
        pace-IsPaced p.ingest (secs_at p.input.buf (p.input.cp + 8))
          (word_at p.input.buf (p.input.cp + 12)) paced small in
      let has : has_client ingest ≡ true =
        ap (λ o. elim o [ some _ ↦ true | none ↦ false ]) (same ∙ client) in
      let size : u16 (word_at p.input.buf (p.input.cp + 6) + 9) ≡ n =
        omega (arith, at.size, at.within, bounded) in
      let quiet : view (out ++ additions d) ≡ view out = sees.times d out in
      elim (Bool-cases (expired (out ++ additions d))) [
        | inl now ↦
            plays
              (record {
                ingest = ingest;
                input = record {
                  buf = p.input.buf;
                  cp = p.input.cp + (word_at p.input.buf (p.input.cp + 6) + 9);
                };
                packet_sn = add32 p.packet_sn 1;
              })
              (forward_packet lib expired obuf_empty
                (slice p.input.buf p.input.cp (u16 (word_at p.input.buf (p.input.cp + 6) + 9)))
                (out ++ additions d))
              (rw (found, start, here, second, header, whole, run, now, has) refl)
              (ap (λ k. record { buf = p.input.buf; cp = p.input.cp + k }) at.size) same last
              (sees.packets
                  (slice p.input.buf p.input.cp (u16 (word_at p.input.buf (p.input.cp + 6) + 9)))
                  (out ++ additions d)
                ∙ ap₂ (λ l k. l ++ (slice p.input.buf p.input.cp k ∷ [])) quiet size)
              (λ timely.
                forward_packet-Timely lib expired obuf_empty
                  (slice p.input.buf p.input.cp (u16 (word_at p.input.buf (p.input.cp + 6) + 9)))
                  (out ++ additions d) now (additions-Timely lib expired obuf_empty d out timely))
              (λ range.
                let (on, range', total, last') =
                  Moves-Moved p.ingest ingest (time_at p.input.buf p.input.cp) d out
                    (moves range (omega arith)) in
                (
                  on,
                  range',
                  omega (
                    arith,
                    total,
                    extended-forward_packet lib expired obuf_empty
                        (slice p.input.buf p.input.cp
                          (u16 (word_at p.input.buf (p.input.cp + 6) + 9)))
                        (out ++ additions d),
                  ),
                  last',
                ))
        | inr early ↦
            waits (record { ingest = ingest; input = p.input; packet_sn = p.packet_sn })
              (out ++ additions d) (rw (found, start, here, second, header, whole, run, early) refl)
              refl quiet early (additions-Timely lib expired obuf_empty d out)
              (λ range.
                Moves-Moved p.ingest ingest (time_at p.input.buf p.input.cp) d out
                  (moves range (omega arith)))
      ]
