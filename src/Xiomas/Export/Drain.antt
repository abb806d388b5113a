-- ===== src/Xiomas/Export/Drain.antt =====
-- `process_queue`: it ends, it keeps the order of the bytes, and it keeps to the flow control.
use cosmid.Base.{
  ℕ, zero, suc, ◌+◌, ◌≤◌, ◌<◌, ◌≡◌, ◌≢◌, ◌⊎◌, inl, inr, refl, sym, ap, ◌∙◌, arith, min, Bool, true,
  false, ◌&&◌, none, some, List, [], ◌∷◌, ◌++◌, append-nil, append_assoc, ltb, ◌==◌, length,
  flatten, length-append, Bool-cases,
}
use native.Mathlib.Nat.{le_refl}
use cosmid.Serio.{Serio}
use cosmid.Xiomas.Circ.{Circ, circ_length, circ_transmit}
use cosmid.Xiomas.Circ.Inv.{IsValid, contents, circ_length-contents}
use cosmid.Xiomas.Circ.Transmit.{Transmitted, circ_transmit_lem}
use cosmid.Xiomas.Export.{
  TcpExport, Effects, max_spkt_data_per_serio_pkt, cts, finish, process_loop, process_queue,
}

flatten-append {ℓ} :
    {A : Type ℓ} (xs ys : List (List A)) → flatten (xs ++ ys) ≡ flatten xs ++ flatten ys
unfolding flatten
flatten-append [] ys = refl
flatten-append (x ∷ xs) ys =
    ap (λ l. x ++ l) (flatten-append xs ys) ∙ sym (append_assoc x (flatten xs) (flatten ys))

nil_of_length {ℓ} : {A : Type ℓ} (xs : List A) → length xs ≡ 0 → xs ≡ []
nil_of_length [] h = refl
nil_of_length (x ∷ xs) h = absurd (omega arith)

module _ (s : Serio) (obuf_empty : List (List ℕ) → Bool) where
  -- The flow control allows one more piece as long as fewer than 2000 bytes are unacknowledged.
  abbrev pub outstanding_limit : ℕ
  outstanding_limit = 2000 + (max_spkt_data_per_serio_pkt + s.sizeof_hdr)

  -- what `process_queue` has done when it leaves `e'` having written `spans` after `written`
  pub record Drained (e : TcpExport) (written : List (List ℕ)) (e' : TcpExport)
      (spans : List (List ℕ)) : Type 0 where
    pub valid : IsValid e'.queue
    pub in_order : contents e.queue ≡ flatten spans ++ contents e'.queue
    pub counted : e'.queue.outstanding_bytes ≡ e.queue.outstanding_bytes + length (flatten spans)
    pub limited :
        (e'.queue.outstanding_bytes ≡ e.queue.outstanding_bytes)
        ⊎ (e'.queue.outstanding_bytes < outstanding_limit)
    pub stopped : (contents e'.queue ≡ []) ⊎ (cts s obuf_empty e' (written ++ spans) ≡ false)

  piece : TcpExport → ℕ
  piece e = min (circ_length e.queue) (max_spkt_data_per_serio_pkt + s.sizeof_hdr)

  -- the two ways through the loop
  process_loop_more :
      (fuel : ℕ) (e : TcpExport) (written : List (List ℕ)) {queue : Circ} {spans : List (List ℕ)}
      → cts s obuf_empty e written ≡ true
      → 0 < circ_length e.queue
      → circ_transmit e.queue (piece e) ≡ some (queue, spans)
      → process_loop s obuf_empty (suc fuel) e written
        ≡ process_loop s obuf_empty fuel (record e { queue = queue }) (written ++ spans)
  unfolding process_loop piece
  process_loop_more fuel e written go some_bytes sent = ground arith

  process_loop_stop :
      (fuel : ℕ) (e : TcpExport) (written : List (List ℕ))
      → (cts s obuf_empty e written && ltb 0 (circ_length e.queue)) ≡ false
      → process_loop s obuf_empty (suc fuel) e written
        ≡ some (finish s obuf_empty e written (circ_length e.queue))
  unfolding process_loop
  process_loop_stop fuel e written stop = rw stop

  cts-cases :
      (e : TcpExport) (written : List (List ℕ))
      → cts s obuf_empty e written ≡ true
      → e.queue.outstanding_bytes < 2000
  unfolding cts
  cts-cases e written h = ground arith

  pub cts-clear :
      (e : TcpExport) (written : List (List ℕ))
      → obuf_empty written ≡ true
      → cts s obuf_empty e written ≡ false
      → 2000 ≤ e.queue.outstanding_bytes
  unfolding cts
  cts-clear e written clear h = ground (arith, clear)

  Drained-refl :
      (e : TcpExport) (written : List (List ℕ))
      → IsValid e.queue
      → (cts s obuf_empty e written && ltb 0 (circ_length e.queue)) ≡ false
      → Drained e written e []
  unfolding flatten
  Drained-refl e written v stop = record {
    valid = v;
    in_order = refl;
    counted = omega arith;
    limited = inl refl;
    stopped = elim (Bool-cases (cts s obuf_empty e written)) [
      | inl go ↦ inl (nil_of_length (contents e.queue) (ground (arith, (circ_length-contents v).0)))
      | inr held ↦ inr (rw append-nil held)
    ];
  }

  Drained-step :
      (e e' : TcpExport) (written first rest : List (List ℕ)) (n : ℕ) {queue : Circ}
      → s.sizeof_hdr < 1000
      → IsValid e.queue
      → cts s obuf_empty e written ≡ true
      → n ≤ piece e
      → Transmitted e.queue n queue first
      → Drained (record e { queue = queue }) (written ++ first) e' rest
      → Drained e written e' (first ++ rest)
  unfolding piece
  Drained-step e e' written first rest n small v go h t d = record {
    valid = d.valid;
    in_order =
        t.in_order
        ∙ ap (λ l. flatten first ++ l) d.in_order
        ∙ sym (append_assoc (flatten first) (flatten rest) (contents e'.queue))
        ∙ ap (λ l. l ++ contents e'.queue) (sym (flatten-append first rest));
    counted = omega (
      arith,
      cts-cases e written go,
      t.counted,
      t.all_written,
      d.counted,
      ap length (flatten-append first rest),
      length-append (flatten first) (flatten rest),
    );
    limited = inr (omega (arith, cts-cases e written go, t.counted, d.limited));
    stopped = rw (← append_assoc written first rest) d.stopped;
  }

  piece_bounds :
      (e : TcpExport) → 0 < circ_length e.queue → (0 < piece e) × (piece e ≤ circ_length e.queue)
  unfolding piece
  piece_bounds e h = omega arith

  length-Transmitted :
      (e : TcpExport) {queue : Circ} {spans : List (List ℕ)}
      → IsValid e.queue
      → 0 < piece e
      → Transmitted e.queue (piece e) queue spans
      → circ_length queue < circ_length e.queue
  length-Transmitted e {queue} {spans} v pos t = omega (
    arith,
    (circ_length-contents v).0,
    (circ_length-contents t.valid).0,
    ap length t.in_order,
    length-append (flatten spans) (contents queue),
    t.all_written,
  )

  process_loop_lem :
      (fuel : ℕ) (e : TcpExport) (written : List (List ℕ))
      → s.sizeof_hdr < 1000
      → IsValid e.queue
      → circ_length e.queue < fuel
      → (e' : TcpExport) × (spans : List (List ℕ)) × (process_loop s obuf_empty fuel e written
          ≡ some (finish s obuf_empty e' (written ++ spans) (circ_length e'.queue)))
        × (e'.client ≡ e.client)
        × Drained e written e' spans
  process_loop_lem zero e written small v enough = elim enough [ ]
  process_loop_lem (suc fuel) e written small v enough =
      elim (Bool-cases (cts s obuf_empty e written && ltb 0 (circ_length e.queue))) [
        | inl more ↦
            let go : cts s obuf_empty e written ≡ true = ground arith in
            let pos : 0 < circ_length e.queue = ground arith in
            let (n, fits) = piece_bounds e pos in
            let (queue, first, sent, t) = circ_transmit_lem (piece e) v fits in
            let (e', rest, run, kept, d) =
              process_loop_lem fuel (record e { queue = queue }) (written ++ first) small t.valid
                (omega (arith, length-Transmitted e v n t)) in
            (
              e',
              first ++ rest,
              process_loop_more fuel e written go pos sent
                  ∙ run
                  ∙ ap (λ l. some (finish s obuf_empty e' l (circ_length e'.queue)))
                      (append_assoc written first rest),
              kept,
              Drained-step e e' written first rest (piece e) small v go (le_refl _) t d,
            )
        | inr stop ↦ (
          e,
          [],
          rw append-nil (process_loop_stop fuel e written stop),
          refl,
          Drained-refl e written v stop,
        )
      ]

-- what `process_queue` does to `e`, leaving `e'` with the effects `out`
pub record Drains (s : Serio) (obuf_empty : List (List ℕ) → Bool) (e e' : TcpExport) (out : Effects)
    : Type 0 where
  pub drained : Drained s obuf_empty e [] e' out.written
  pub told :
      ((contents e'.queue ≡ []) × (out.acked ≡ e.client) × (e'.client ≡ none))
      ⊎ ((contents e'.queue ≢ []) × (out.acked ≡ none) × (e'.client ≡ e.client))

-- The waiting receiver is told and forgotten, or neither.
abbrev pub Tells : TcpExport → TcpExport → Effects → Type 0
Tells e e' out =
    ((e'.client ≡ e.client) × (out.acked ≡ none)) ⊎ ((e'.client ≡ none) × (out.acked ≡ e.client))

pub Drains-Tells :
    (s : Serio) (obuf_empty : List (List ℕ) → Bool) (e e' : TcpExport) (out : Effects)
    → Drains s obuf_empty e e' out
    → Tells e e' out
Drains-Tells s obuf_empty e e' out d = elim d.told [
  | inl (_, told, forgotten) ↦ inr (forgotten, told)
  | inr (_, silent, kept) ↦ inl (kept, silent)
]

finish-Drains :
    (s : Serio) (obuf_empty : List (List ℕ) → Bool) (e e' : TcpExport) (spans : List (List ℕ))
    → e'.client ≡ e.client
    → Drained s obuf_empty e [] e' spans
    → let (e'', out) = finish s obuf_empty e' spans (circ_length e'.queue) in
      Drains s obuf_empty e e'' out
unfolding finish cts
finish-Drains s obuf_empty e e' spans kept d = elim (Bool-cases (circ_length e'.queue == 0)) [
  | inl empty ↦ rw empty (record {
    drained = record {
      valid = d.valid;
      in_order = d.in_order;
      counted = d.counted;
      limited = d.limited;
      stopped = d.stopped;
    };
    told = inl (nil_of_length (contents e'.queue) (ground (arith, held)), kept, refl);
  })
  | inr more ↦ rw more (record {
    drained = d;
    told = inr (λ none_held. ground (arith, held, ap length none_held), refl, kept);
  })
]
  where
    held : circ_length e'.queue ≡ length (contents e'.queue)
    held = (circ_length-contents d.valid).0

-- From a valid queue `process_queue` returns, with a packet header of less than 1000 bytes: its loop
-- ends and nothing aborts. The spans written, in order, followed by the queue that is left are the
-- queue that was there; the count of unacknowledged bytes grows by exactly what was written, and
-- stays as it was or below 2000 plus one piece; it stops only when the queue is empty or sending is
-- not clear. The waiting receiver is told exactly if the queue is empty, and then none waits.
pub process_queue_lem :
    (s : Serio) (obuf_empty : List (List ℕ) → Bool) (e : TcpExport)
    → s.sizeof_hdr < 1000
    → IsValid e.queue
    → (e' : TcpExport) × (out : Effects) × (process_queue s obuf_empty e [] ≡ some (e', out))
      × Drains s obuf_empty e e' out
unfolding process_queue
process_queue_lem s obuf_empty e small v =
    let (e', spans, run, kept, d) =
      process_loop_lem s obuf_empty (suc (circ_length e.queue)) e [] small v (le_refl _) in
    let (e'', out) = finish s obuf_empty e' spans (circ_length e'.queue) in
    (e'', out, run, finish-Drains s obuf_empty e e' spans kept d)
