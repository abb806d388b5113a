-- ===== src/Xiomas/Circ/Transmit.antt =====
-- `circ_consume` and `circ_transmit`: bytes leave the buffer in the order in which they are held.
use cosmid.Base.{
  ℕ, zero, suc, ◌+◌, ◌-◌, ◌≤◌, ◌<◌, ◌≡◌, refl, sym, ap, ◌∙◌, arith, some, List, [], ◌∷◌, ◌++◌,
  append-nil, append_assoc, ltb, ◌==◌, if◌then◌else◌, length, slice, add32, u32, flatten, subst,
  read_span, true, leb, slice-add, length-slice, length-append, min,
}
use cosmid.Xiomas.Circ.{
  Circ, circ_length, circ_head_bytes, circ_consume, transmit_loop, circ_transmit,
}
use cosmid.Xiomas.Circ.Inv.{IsValid, contents, contiguous}

abbrev consumed : Circ → ℕ → Circ
consumed c n =
    let head = if c.circ_head + n == c.circ_size then 0 else c.circ_head + n in
    record c {
      circ_head = if head == c.circ_tail then c.circ_size + 1 else head;
      outstanding_bytes = add32 c.outstanding_bytes n;
    }

module _ (c : Circ) (n : ℕ) (v : IsValid c) (pos : 0 < n) (h : n ≤ contiguous c) where
  circ_consume-consumed : circ_consume c n ≡ some (consumed c n)
  unfolding circ_consume
  circ_consume-consumed = ground arith

  consumed-IsValid : IsValid (consumed c n)
  consumed-IsValid = ground arith

  length-consumed : circ_length (consumed c n) + n ≡ circ_length c
  unfolding circ_length
  length-consumed = ground arith

  contents-consumed : contents c ≡ slice c.circ c.circ_head n ++ contents (consumed c n)
  contents-consumed = ground (
    arith,
    slice-add c.circ c.circ_head n (c.circ_tail - c.circ_head - n),
    slice-add c.circ c.circ_head n (c.circ_size - c.circ_head - n),
    append_assoc (slice c.circ c.circ_head n)
        (slice c.circ (c.circ_head + n) (c.circ_size - c.circ_head - n))
        (slice c.circ 0 c.circ_tail),
    append-nil (slice c.circ c.circ_head n),
  )

-- Where the subtraction of `circ_head_bytes` wraps, its result is more than what is asked for.
txmit_bytes :
    (c : Circ) (n : ℕ)
    → IsValid c
    → 0 < n
    → n ≤ circ_length c
    → (ltb 0 (circ_head_bytes c) ≡ true)
      × ((if ltb n (circ_head_bytes c) then n else circ_head_bytes c) ≡ min n (contiguous c))
      × (0 < contiguous c)
unfolding circ_length circ_head_bytes
txmit_bytes c n v pos h = ground arith

contiguous_in : {c : Circ} → IsValid c → c.circ_head + contiguous c ≤ length c.circ + 1
contiguous_in v = ground arith

read_span-contiguous :
    (c : Circ) (n : ℕ)
    → IsValid c
    → 0 < n
    → n ≤ contiguous c
    → read_span c.circ c.circ_head n ≡ some (slice c.circ c.circ_head n)
read_span-contiguous c n v pos h = ground arith

-- One round: the span written is as long as asked for, or as the piece at the head allows.
transmit_loop-suc :
    (c : Circ) (fuel n : ℕ) (written : List (List ℕ))
    → IsValid c
    → 0 < n
    → n ≤ circ_length c
    → transmit_loop (suc fuel) c n written
      ≡ transmit_loop fuel
          (consumed c (min n (contiguous c)))
          (n - min n (contiguous c))
          (written ++ slice c.circ c.circ_head (min n (contiguous c)) ∷ [])
unfolding transmit_loop
transmit_loop-suc c fuel zero written v pos h = elim pos [ ]
transmit_loop-suc c fuel (suc n) written v pos h =
    let (some_bytes, least, room) = txmit_bytes c (suc n) v pos h in
    rw
      (
        some_bytes,
        least,
        read_span-contiguous c (min (suc n) (contiguous c)) v (omega arith) (omega arith),
        circ_consume-consumed c (min (suc n) (contiguous c)) v (omega arith) (omega arith),
      )
      (ground arith)

-- the spans for `n` bytes: one if they lie in one piece at the head, two if they go round the end
abbrev pub pieces : Circ → ℕ → ℕ
pieces c n = if n == 0 then 0 else if leb n (contiguous c) then 1 else 2

pieces-consumed :
    (c : Circ) (n : ℕ)
    → IsValid c
    → 0 < n
    → n ≤ circ_length c
    → suc (pieces (consumed c (min n (contiguous c))) (n - min n (contiguous c))) ≤ pieces c n
unfolding circ_length
pieces-consumed c n v pos h = ground arith

-- what `circ_transmit` has done when it returns `c'` having written `spans`
pub record Transmitted (c : Circ) (n : ℕ) (c' : Circ) (spans : List (List ℕ)) : Type 0 where
  pub valid : IsValid c'
  pub in_order : contents c ≡ flatten spans ++ contents c'
  pub all_written : length (flatten spans) ≡ n
  pub counted : c'.outstanding_bytes ≡ u32 (c.outstanding_bytes + n)
  pub same_memory : c'.circ ≡ c.circ
  pub same_size : c'.circ_size ≡ c.circ_size
  pub in_pieces : length spans ≤ pieces c n

Transmitted-nil : {c : Circ} → IsValid c → Transmitted c 0 c []
unfolding flatten
Transmitted-nil v = record {
  valid = v;
  in_order = refl;
  all_written = refl;
  counted = omega (arith, v.counted);
  same_memory = refl;
  same_size = refl;
  in_pieces = omega arith;
}

Transmitted-cons :
    {c c' : Circ} (m k : ℕ) {spans : List (List ℕ)}
    → IsValid c
    → 0 < m
    → m ≤ contiguous c
    → suc (pieces (consumed c m) k) ≤ pieces c (m + k)
    → Transmitted (consumed c m) k c' spans
    → Transmitted c (m + k) c' (slice c.circ c.circ_head m ∷ spans)
unfolding flatten
Transmitted-cons {c} m k {spans} v pos h fewer t = record {
  valid = t.valid;
  in_order =
      contents-consumed c m v pos h
      ∙ ap (λ l. slice c.circ c.circ_head m ++ l) t.in_order
      ∙ sym (append_assoc (slice c.circ c.circ_head m) (flatten spans) _);
  all_written = omega (
    arith,
    length-append (slice c.circ c.circ_head m) (flatten spans),
    length-slice c.circ c.circ_head m (ground arith),
    t.all_written,
  );
  counted = omega (arith, t.counted);
  same_memory = t.same_memory;
  same_size = t.same_size;
  in_pieces = omega (arith, fewer, t.in_pieces);
}

transmit_loop-Transmitted :
    (fuel : ℕ) (c : Circ) (n : ℕ) (written : List (List ℕ))
    → IsValid c
    → n ≤ circ_length c
    → n < fuel
    → (c' : Circ) × (spans : List (List ℕ)) × (transmit_loop fuel c n written
        ≡ some (c', written ++ spans))
      × Transmitted c n c' spans
transmit_loop-Transmitted zero c n written v h enough = elim enough [ ]
transmit_loop-Transmitted (suc fuel) c zero written v h enough =
    (c, [], unfold transmit_loop in rw append-nil, Transmitted-nil v)
transmit_loop-Transmitted (suc fuel) c (suc n) written v h enough =
    let m = min (suc n) (contiguous c) in
    let least : (0 < m) × (m ≤ contiguous c) × (m ≤ suc n) =
      omega (arith, (txmit_bytes c (suc n) v (omega arith) h).2) in
    let (c', spans, run, t) =
      transmit_loop-Transmitted fuel (consumed c m) (suc n - m)
        (written ++ slice c.circ c.circ_head m ∷ []) (consumed-IsValid c m v least.0 least.1)
        (omega (arith, length-consumed c m v least.0 least.1)) (omega (arith, least)) in
    let split : m + (suc n - m) ≡ suc n = omega (arith, least) in
    (
      c',
      slice c.circ c.circ_head m ∷ spans,
      transmit_loop-suc c fuel (suc n) written v (omega arith) h
          ∙ run
          ∙ ap (λ l. some (c', l)) (append_assoc written (slice c.circ c.circ_head m ∷ []) spans),
      subst (λ k. Transmitted c k c' (slice c.circ c.circ_head m ∷ spans)) split
          (Transmitted-cons m (suc n - m) v least.0 least.1
            (omega (arith, pieces-consumed c (suc n) v (omega arith) h, ap (pieces c) split)) t),
    )

-- From a valid buffer that holds at least `n` bytes, `circ_transmit` returns: its loop ends, and
-- neither its assertions nor an access outside the memory stops it. It has written the `n` oldest
-- bytes in their order, in one span if they lie in one piece at the head and in at most two if they
-- go round the end of the memory; what is left is what follows them, the count of unacknowledged bytes has
-- grown by `n`, and the buffer is still valid.
pub circ_transmit_lem :
    {c : Circ} (n : ℕ)
    → IsValid c
    → n ≤ circ_length c
    → (c' : Circ) × (spans : List (List ℕ)) × (circ_transmit c n ≡ some (c', spans))
      × Transmitted c n c' spans
unfolding circ_transmit
circ_transmit_lem {c} n v h = transmit_loop-Transmitted (suc n) c n [] v h (omega arith)
