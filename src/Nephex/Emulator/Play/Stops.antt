-- ===== src/Nephex/Emulator/Play/Stops.antt =====
-- The packets of a recorded stream are played in order, as far as their times have come.
use cosmid.Base.{
  sum, ℕ, zero, suc, ◌+◌, ◌<◌, ◌≡◌, ◌⊎◌, inl, inr, refl, sym, subst, true, ap, ap₂, ◌∙◌, arith,
  Bool, false, some, List, [], ◌∷◌, ◌++◌, append-nil, append_assoc, slice, ltb, lt→ltb,
}
use cosmid.Dasio.{FindsNext, Dasio, Input, nc}
use cosmid.Nephex.Receiver.Frames.{IsFramed, IsFramed-within, cut}
use cosmid.Nephex.Emulator.{Ingest}
use cosmid.Nephex.Emulator.Play.{
  Output, Player, again, turn, after_loop, input_loop, protocol_input,
}
use cosmid.Nephex.Emulator.Play.Paced.{
  played, IsTimed, Timely, nothing, plays, waits, play-Played, Sees, played-Sees,
}
use cosmid.Nephex.Emulator.Play.Times.{IsPaced, time_at, base, later, extended, Moved}

-- The latest of the time `b` and the times of the packets that were looked at: those that were played,
-- and the first of those that were not.
abbrev pub latest : ℕ → List ℕ → ℕ → List ℕ → List ℕ → ℕ
latest b buf start [] [] = b
latest b buf start [] (k ∷ ks) = later b (time_at buf start)
latest b buf start (m ∷ ms) ks = latest (later b (time_at buf start)) buf (start + m) ms ks

-- The time base at first: the one that is set, or the time of the first packet.
abbrev pub first_base : Player → ℕ
first_base p = base p.ingest (time_at p.input.buf p.input.cp)

base-on : (i : Ingest) (t t' : ℕ) → i.timer ≡ true → base i t ≡ base i t'
base-on i t t' on = rw on refl

module _ (lib : Dasio) (expired obuf_empty : List Output → Bool)
    (view : List Output → List (List ℕ)) (sees : Sees lib expired obuf_empty view) where
  -- what the loop comes to
  abbrev pub Stops : ℕ → Player → List Output → List ℕ → Type 0
  Stops fuel p out ns =
      (p' : Player) × (out' : List Output) × (ms : List ℕ) × (ks : List ℕ) × (input_loop lib expired
          obuf_empty fuel p out
        ≡ some (some (p', out')))
      × (ns ≡ ms ++ ks)
      × (view out' ≡ view out ++ cut p.input.buf p.input.cp ms)
      × (p'.input
          ≡ lib.consume (p.input.cp + sum ms)
              (record { buf = p.input.buf; cp = p.input.cp + sum ms }))
      × ((ks ≡ []) ⊎ (expired out' ≡ false))
      × (Timely expired obuf_empty out → Timely expired obuf_empty out')
      × (p.ingest.last_secs < 4294967296
          → extended out' + first_base p
            ≡ extended out + latest (first_base p) p.input.buf p.input.cp ms ks)

  -- behind a packet that was played
  Stops-plays :
      (fuel : ℕ) (p p' : Player) (out out' : List Output) (n : ℕ) (ns : List ℕ)
      → p.input.cp < nc p.input
      → turn lib expired obuf_empty p out ≡ some (again, p', out')
      → p'.input ≡ record { buf = p.input.buf; cp = p.input.cp + n }
      → view out' ≡ view out ++ (slice p.input.buf p.input.cp n ∷ [])
      → (Timely expired obuf_empty out → Timely expired obuf_empty out')
      → (p.ingest.last_secs < 4294967296
          → Moved p.ingest p'.ingest (time_at p.input.buf p.input.cp) out out')
      → Stops fuel p' out' ns
      → Stops (suc fuel) p out (n ∷ ns)
  unfolding input_loop
  Stops-plays fuel p p' out out' n ns more run input log keeps moves
        (p2, out2, ms, ks, run2, split, log2, left, why, keeps2, total) =
      (
        p2,
        out2,
        n ∷ ms,
        ks,
        rw (lt→ltb p.input.cp (nc p.input) more, run) run2,
        ap (λ l. n ∷ l) split,
        log2
            ∙ ap₂ ◌++◌ log (ap (λ i. cut i.buf i.cp ms) input)
            ∙ append_assoc (view out) (slice p.input.buf p.input.cp n ∷ [])
                (cut p.input.buf (p.input.cp + n) ms),
        left
            ∙ ap (λ i. lib.consume (i.cp + sum ms) (record { buf = i.buf; cp = i.cp + sum ms }))
                input
            ∙ ap (λ k. lib.consume k (record { buf = p.input.buf; cp = k })) (omega arith),
        why,
        λ timely. keeps2 (keeps timely),
        λ range.
            let (on, range', moved, last) = moves range in
            let t : ℕ = time_at p.input.buf p.input.cp in
            let same : first_base p' ≡ later (first_base p) t =
              base-on p'.ingest (time_at p'.input.buf p'.input.cp) t on ∙ last in
            let rest : extended out2 + later (first_base p) t
                ≡ extended out'
                  + latest (later (first_base p) t) p.input.buf (p.input.cp + n) ms ks =
              subst
                (λ b.
                  extended out2 + b ≡ extended out' + latest b p.input.buf (p.input.cp + n) ms ks)
                same
                (subst
                  (λ i.
                    extended out2 + first_base p'
                    ≡ extended out' + latest (first_base p') i.buf i.cp ms ks)
                  input (total range')) in
            omega (arith, moved, last, rest),
      )

  consume-here :
      (i : Input)
      → lib.consume i.cp i ≡ lib.consume (i.cp + 0) (record { buf = i.buf; cp = i.cp + 0 })
  consume-here i =
      let e : i.cp ≡ i.cp + 0 = omega arith in
      ap (λ k. lib.consume k (record { buf = i.buf; cp = k })) e

  input_loop-Stops :
      (c : ℕ) (next : FindsNext lib) (ns : List ℕ) (fuel : ℕ) (p : Player) (out : List Output)
      → nc p.input < 65536
      → p.ingest.client ≡ some c
      → IsPaced p.ingest
      → IsFramed p.input.buf p.input.cp ns
      → IsTimed p.input.buf p.input.cp ns
      → nc p.input < p.input.cp + fuel
      → Stops fuel p out ns
  unfolding input_loop after_loop
  input_loop-Stops c next ns zero p out bounded client paced framed timed enough =
      absurd (omega (arith, enough, IsFramed-within p.input.buf p.input.cp ns framed))
  input_loop-Stops c next [] (suc fuel) p out bounded client paced framed timed enough =
      let over : ltb p.input.cp (nc p.input) ≡ false = ground (arith, framed) in
      (
        record p { input = lib.consume p.input.cp p.input },
        out,
        [],
        [],
        rw over refl,
        refl,
        sym (append-nil (view out)),
        consume-here p.input,
        inl refl,
        λ timely. timely,
        λ range. refl,
      )
  input_loop-Stops c next (n ∷ ns) (suc fuel) p out bounded client paced (at, framed)
        (long, small, timed) enough =
      let more : p.input.cp < nc p.input = omega (arith, at.size, at.within) in
      elim (play-Played lib expired obuf_empty view sees c p out n next bounded client paced at
        small) [
          | waits p' out' run input log early keeps moves ↦ (
            record p' { input = lib.consume p'.input.cp p'.input },
            out',
            [],
            n ∷ ns,
            rw (lt→ltb p.input.cp (nc p.input) more, run) refl,
            refl,
            log ∙ sym (append-nil (view out)),
            ap (λ i. lib.consume i.cp i) input ∙ consume-here p.input,
            inr early,
            keeps,
            λ range. omega (arith, (moves range).2, (moves range).3),
          )
          | plays p' out' run input same last log keeps moves ↦
              Stops-plays fuel p p' out out' n ns more run input log keeps moves (
                input_loop-Stops c next ns fuel p' out' (rw input bounded) (same ∙ client)
                  (inr last) (rw input framed) (rw input timed)
                  (rw input (omega (arith, at.size, enough))))
        ]

  pub protocol_input-view :
      (c : ℕ) (ns : List ℕ) (p : Player)
      → FindsNext lib
      → nc p.input < 65536
      → p.ingest.client ≡ some c
      → IsPaced p.ingest
      → IsFramed p.input.buf p.input.cp ns
      → IsTimed p.input.buf p.input.cp ns
      → (p' : Player) × (out : List Output) × (ms : List ℕ) × (ks : List ℕ) × (protocol_input lib
            expired obuf_empty p
          ≡ some (some (p', out)))
        × (ns ≡ ms ++ ks)
        × (view out ≡ cut p.input.buf p.input.cp ms)
        × (p'.input
            ≡ lib.consume
                (p.input.cp + sum ms)
                (record { buf = p.input.buf; cp = p.input.cp + sum ms }))
        × ((ks ≡ []) ⊎ (expired out ≡ false))
        × Timely expired obuf_empty out
        × (p.ingest.last_secs < 4294967296
            → extended out + first_base p ≡ latest (first_base p) p.input.buf p.input.cp ms ks)
  unfolding protocol_input
  protocol_input-view c ns p next bounded client paced framed timed =
      let (p', out, ms, ks, run, split, log, left, why, keeps, total) =
        input_loop-Stops c next ns (suc (nc p.input)) p [] bounded client paced framed timed
          (omega arith) in
      (
        p',
        out,
        ms,
        ks,
        run,
        split,
        log ∙ ap (λ l. l ++ cut p.input.buf p.input.cp ms) sees.empty,
        left,
        why,
        keeps nothing,
        λ range. omega (arith, total range),
      )

module _ (lib : Dasio) (expired obuf_empty : List Output → Bool) where
  -- Let the input be whole packets of APIDs up to 151 with milliseconds below 1000, in less than 65536
  -- bytes, and let there be a client; the library finds a byte that stands at `cp`. Then
  -- `protocol_input` returns. It has passed the first of the packets to the client, each whole and
  -- once, in order: all of them, or those in front of one for which the timer has not expired. It was
  -- passed on only when the timer had expired, and dropped exactly if the client's output buffer was
  -- not empty then. In all, the timer was extended by the time from the time base, or from the first
  -- packet if the timer was not set, to the latest of the packets that were looked at, which are those passed on
  -- and the one that waits. Just the packets passed on are taken from the input.
  pub protocol_input-Stops :
      (c : ℕ) (ns : List ℕ) (p : Player)
      → FindsNext lib
      → nc p.input < 65536
      → p.ingest.last_secs < 4294967296
      → p.ingest.client ≡ some c
      → IsPaced p.ingest
      → IsFramed p.input.buf p.input.cp ns
      → IsTimed p.input.buf p.input.cp ns
      → (p' : Player) × (out : List Output) × (ms : List ℕ) × (ks : List ℕ) × (protocol_input lib
            expired obuf_empty p
          ≡ some (some (p', out)))
        × (ns ≡ ms ++ ks)
        × (played out ≡ cut p.input.buf p.input.cp ms)
        × (p'.input
            ≡ lib.consume
                (p.input.cp + sum ms)
                (record { buf = p.input.buf; cp = p.input.cp + sum ms }))
        × ((ks ≡ []) ⊎ (expired out ≡ false))
        × Timely expired obuf_empty out
        × (extended out + first_base p ≡ latest (first_base p) p.input.buf p.input.cp ms ks)
  protocol_input-Stops c ns p next bounded range client paced framed timed =
      let (p', out, ms, ks, run, split, log, left, why, timely, total) =
        protocol_input-view lib expired obuf_empty played (played-Sees lib expired obuf_empty) c ns
          p next bounded client paced framed timed in
      (p', out, ms, ks, run, split, log, left, why, timely, total range)
