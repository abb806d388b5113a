-- ===== src/Xiomas/Receiver/Calls.antt =====
-- `protocol_input` on any input and in any state.
use cosmid.Base.{
  ℕ, zero, suc, ◌+◌, ◌*◌, ◌≤◌, ◌<◌, ◌≡◌, refl, arith, Bool, Option, some, List, [], ltb, ltb→lt,
  Bool-cases, inl, inr, ◌>>=◌,
}
use cosmid.Dasio.{Dasio, Finds, nc}
use cosmid.Serio.{Serio}
use cosmid.Xiomas.Packet.{Header}
use cosmid.Xiomas.Circ.Inv.{IsValid}
use cosmid.Xiomas.Receiver.Fields.{State, xtr_lost, Output, Receiver}
use cosmid.Xiomas.Receiver.{
  again, leave, return, Pass, pass_in, pass, after_loop, input_loop, protocol_input,
}
use cosmid.Xiomas.Receiver.Transfer.{limit}
use cosmid.Xiomas.Receiver.Kept.{weight, measure, IsSane, at_input-IsSane}
use cosmid.Xiomas.Receiver.Passes.{Passed, pass_in-Passed}

weight-bound : (state : State) → weight state ≤ 1
weight-bound xtr_lost = omega arith
weight-bound _ = omega arith

module _ (lib : Dasio) (s : Serio) (hdr0 : Header) (obuf_empty : List Output → Bool)
    (exp_obuf_empty : List Output → List (List ℕ) → Bool) (small : s.sizeof_hdr < 1000) where
  -- how the loop goes on behind a pass
  go_on : ℕ → Pass → Option (Option (Receiver × List Output))
  go_on fuel (next, r, out) = elim next [
    | again ↦ input_loop lib s hdr0 obuf_empty exp_obuf_empty fuel r out
    | leave ↦ some (some (after_loop lib s hdr0 obuf_empty exp_obuf_empty r out))
    | return ↦ some (some (r, out))
  ]

  -- It returns, with what is sane for a given client, receiver and limit.
  abbrev Returns :
      Type 0 → Option ℕ → Option ℕ → ℕ → Option (Option (Receiver × List Output)) → Type 0
  Returns P c d max result =
      (r' : Receiver) × (out' : List Output) × (result ≡ some (some (r', out')))
      × IsSane P c d max r' out'

  module _ (P : Type 0) (c d : Option ℕ) (max : ℕ)
      (below : limit lib s hdr0 obuf_empty exp_obuf_empty small ≤ max) where
    Returns-pass :
        (fuel : ℕ) (r : Receiver) (result : Option Pass)
        → ((r' : Receiver) (out' : List Output)
            → IsSane P c d max r' out'
            → measure r' < measure r
            → Returns P c d max (input_loop lib s hdr0 obuf_empty exp_obuf_empty fuel r' out'))
        → Passed lib s hdr0 obuf_empty exp_obuf_empty small P c d max below r result
        → Returns P c d max (result >>= go_on fuel)
    unfolding go_on after_loop
    Returns-pass fuel r result later (again, r', out', e, v, less) = rw e (later r' out' v less)
    Returns-pass fuel r result later (leave, r', out', e, v, less) =
        rw e (_, _, refl, at_input-IsSane _ v)
    Returns-pass fuel r result later (return, r', out', e, v, less) = rw e (_, _, refl, v)

    input_loop-Returns :
        (finds : Finds lib) (fuel : ℕ) (r : Receiver) (out : List Output)
        → IsSane P c d max r out
        → measure r < fuel
        → Returns P c d max (input_loop lib s hdr0 obuf_empty exp_obuf_empty fuel r out)
    unfolding input_loop pass after_loop go_on
    input_loop-Returns finds zero r out v enough = absurd (omega (arith, enough))
    input_loop-Returns finds (suc fuel) r out v enough =
        elim (Bool-cases (ltb r.input.cp (nc r.input))) [
          | inr over ↦ rw over (_, _, refl, at_input-IsSane _ v)
          | inl more ↦ rw more (
              Returns-pass fuel r (pass_in lib s hdr0 obuf_empty exp_obuf_empty r.state r out)
                (λ r' out' v' less.
                  input_loop-Returns finds fuel r' out' v' (omega (arith, less, enough)))
                (pass_in-Passed lib s hdr0 obuf_empty exp_obuf_empty small P c d max below finds
                  r.state r out refl v (ltb→lt r.input.cp (nc r.input) more)))
        ]

  pub protocol_input_sane :
      (P : Type 0) (c d : Option ℕ) (max : ℕ)
      → limit lib s hdr0 obuf_empty exp_obuf_empty small ≤ max
      → (finds : Finds lib) (r : Receiver) → IsSane P c d max r []
      → Returns P c d max (protocol_input lib s hdr0 obuf_empty exp_obuf_empty r)
  unfolding protocol_input
  protocol_input_sane P c d max below finds r sane =
      let bound : weight r.state ≤ 1 = weight-bound r.state in
      input_loop-Returns P c d max below finds (suc (2 * nc r.input + 1)) r [] sane (omega arith)

  -- Let the library find a byte, or go to the end of the input, and let a serial header have less than
  -- 1000 bytes. With a well-formed export queue, `protocol_input` returns whatever the input is and in
  -- each of its three states: it neither aborts, the assertions of the queue and accesses out of range
  -- included, nor goes on for ever. The export queue is well formed behind it.
  pub protocol_input_returns :
      (finds : Finds lib) (r : Receiver)
      → IsValid r.exp.queue
      → (r' : Receiver) × (out : List Output) × (protocol_input lib s hdr0 obuf_empty exp_obuf_empty
            r
          ≡ some (some (r', out)))
        × IsValid r'.exp.queue
  protocol_input_returns finds r v =
      let max : ℕ =
        limit lib s hdr0 obuf_empty exp_obuf_empty small + r.exp.queue.outstanding_bytes + 1 in
      let (r', out, run, sane) =
        protocol_input_sane ⊥ r.exp.client (some r.id) max (omega arith) finds r (record {
          tame = record { valid = v; limited = omega arith; client = inr (inl refl); told = tt };
          asks = refl;
          settled = λ absurd_p. absurd absurd_p;
        }) in
      (r', out, run, sane.tame.valid)
