-- ===== src/Nephex/Apid/Decimation.antt =====
-- What `OK_to_transmit` lets through: of the packets of an APID, one in `decimation_rate`, however the
-- packets of the APIDs are mixed.
use cosmid.Base.{
  ℕ, zero, suc, ◌+◌, ◌-◌, ◌*◌, ◌≤◌, ◌<◌, ◌≡◌, ◌≢◌, ◌↔◌, refl, sym, ap, subst, ◌∙◌, arith, true,
  false, List, [], ◌∷◌, ◌==◌, if◌then◌else◌, length, set, length-set, get_or-set,
}
use mathlib.Core.Bool.{true≢false}
use native.Mathlib.Decide.{dec_le, ℕ_discrete}
use native.Mathlib.Nat.{zero-add, add-zero, mul-le-mul_right}
use cosmid.Nephex.Apid.{Entry, max_apid, blank, entry, ok_to_transmit}

-- the table after calls of `OK_to_transmit` for each of the APIDs, the first in the list first
pub after : List Entry → List ℕ → List Entry
after defs [] = defs
after defs (apid ∷ rest) = after (ok_to_transmit defs apid).1 rest

abbrev pub count : ℕ → List ℕ → ℕ
count apid [] = 0
count apid (x ∷ xs) = (if x == apid then 1 else 0) + count apid xs

-- the entry of an APID that is sent once in `dec` packets, `calls` packets after the table was built
pub record Decimates (defs : List Entry) (apid dec calls : ℕ) : Type 0 where
  pub known : apid ≤ max_apid
  pub in_table : apid < length defs
  pub sized : (entry defs apid).size ≢ 0
  pub rate : (entry defs apid).decimation_rate ≡ dec
  pub skips : 0 < (entry defs apid).n_to_skip
  pub at_most : (entry defs apid).n_to_skip ≤ dec
  pub round : ℕ
  pub position : calls + (entry defs apid).n_to_skip ≡ suc (round * dec)

entry-set_other :
    (defs : List Entry) (i j : ℕ) (e : Entry) → i ≢ j → entry (set defs i e) j ≡ entry defs j
entry-set_other [] i j e h = refl
entry-set_other (x ∷ xs) zero zero e h = absurd (h refl)
entry-set_other (x ∷ xs) zero (suc j) e h = refl
entry-set_other (x ∷ xs) (suc i) zero e h = refl
entry-set_other (x ∷ xs) (suc i) (suc j) e h = entry-set_other xs i j e (λ p. h (ap suc p))

other-same :
    (defs : List Entry) (x apid : ℕ)
    → x ≢ apid
    → entry (ok_to_transmit defs x).1 apid ≡ entry defs apid
unfolding ok_to_transmit
other-same defs x apid h = grind (arith, entry-set_other)

length-ok_to_transmit : (defs : List Entry) (x : ℕ) → length (ok_to_transmit defs x).1 ≡ length defs
unfolding ok_to_transmit
length-ok_to_transmit defs x = grind (arith, length-set)

-- the two results of a call that counts
ok_to_transmit-sends :
    (defs : List Entry) (apid dec calls : ℕ)
    → Decimates defs apid dec calls
    → (entry defs apid).n_to_skip ≡ 1
    → ok_to_transmit defs apid ≡ (
      true,
      set defs apid (record (entry defs apid) { n_to_skip = (entry defs apid).decimation_rate }),
    )
unfolding ok_to_transmit
ok_to_transmit-sends defs apid dec calls d one = ground (arith, d.known, d.sized, d.rate, d.at_most)

ok_to_transmit-skips :
    (defs : List Entry) (apid dec calls : ℕ)
    → Decimates defs apid dec calls
    → dec < 65536
    → 1 < (entry defs apid).n_to_skip
    → ok_to_transmit defs apid ≡ (
      false,
      set defs apid (record (entry defs apid) { n_to_skip = (entry defs apid).n_to_skip - 1 }),
    )
unfolding ok_to_transmit
ok_to_transmit-skips defs apid dec calls d small more =
    ground (arith, d.known, d.sized, d.rate, d.at_most)

entry-set :
    (defs : List Entry) (apid : ℕ) (e : Entry)
    → apid < length defs
    → entry (set defs apid e) apid ≡ e
entry-set defs apid e h = get_or-set defs apid e blank h

-- another APID's call moves nothing
other-Decimates :
    (defs : List Entry) (x apid dec calls : ℕ)
    → x ≢ apid
    → Decimates defs apid dec calls
    → Decimates (ok_to_transmit defs x).1 apid dec calls
other-Decimates defs x apid dec calls h d =
    let same = other-same defs x apid h in
    record {
      known = d.known;
      in_table = omega (arith, d.in_table, length-ok_to_transmit defs x);
      sized = rw same d.sized;
      rate = rw same d.rate;
      skips = rw same d.skips;
      at_most = rw same d.at_most;
      round = d.round;
      position = rw same d.position;
    }

sends-Decimates :
    (defs : List Entry) (apid dec calls : ℕ)
    → Decimates defs apid dec calls
    → (entry defs apid).n_to_skip ≡ 1
    → Decimates (ok_to_transmit defs apid).1 apid dec (suc calls)
sends-Decimates defs apid dec calls d one =
    let e' : Entry = record (entry defs apid) { n_to_skip = (entry defs apid).decimation_rate } in
    let same : entry (ok_to_transmit defs apid).1 apid ≡ e' =
      ap (λ r. entry r.1 apid) (ok_to_transmit-sends defs apid dec calls d one)
      ∙ entry-set defs apid e' d.in_table in
    record {
      known = d.known;
      in_table = omega (arith, d.in_table, length-ok_to_transmit defs apid);
      sized = rw same d.sized;
      rate = rw same d.rate;
      skips = rw same (omega (arith, d.rate, d.skips, d.at_most));
      at_most = rw same (omega (arith, d.rate));
      round = suc d.round;
      position = rw same (omega (arith, d.rate, d.position, one));
    }

skips-Decimates :
    (defs : List Entry) (apid dec calls : ℕ)
    → Decimates defs apid dec calls
    → dec < 65536
    → 1 < (entry defs apid).n_to_skip
    → Decimates (ok_to_transmit defs apid).1 apid dec (suc calls)
skips-Decimates defs apid dec calls d small more =
    let e' : Entry = record (entry defs apid) { n_to_skip = (entry defs apid).n_to_skip - 1 } in
    let same : entry (ok_to_transmit defs apid).1 apid ≡ e' =
      ap (λ r. entry r.1 apid) (ok_to_transmit-skips defs apid dec calls d small more)
      ∙ entry-set defs apid e' d.in_table in
    record {
      known = d.known;
      in_table = omega (arith, d.in_table, length-ok_to_transmit defs apid);
      sized = rw same d.sized;
      rate = rw same d.rate;
      skips = rw same (omega (arith, more));
      at_most = rw same (omega (arith, d.at_most));
      round = d.round;
      position = rw same (omega (arith, d.position, more));
    }

self-Decimates :
    (defs : List Entry) (apid dec calls : ℕ)
    → Decimates defs apid dec calls
    → dec < 65536
    → Decimates (ok_to_transmit defs apid).1 apid dec (suc calls)
self-Decimates defs apid dec calls d small = elim (dec_le (entry defs apid).n_to_skip 1) [
  | yes last ↦ sends-Decimates defs apid dec calls d (omega (arith, d.skips, last))
  | no more ↦ skips-Decimates defs apid dec calls d small (omega (arith, more))
]

after-Decimates :
    (defs : List Entry) (ids : List ℕ) (apid dec calls : ℕ)
    → Decimates defs apid dec calls
    → dec < 65536
    → Decimates (after defs ids) apid dec (calls + count apid ids)
unfolding after
after-Decimates defs [] apid dec calls d small = rw add-zero d
after-Decimates defs (x ∷ ids) apid dec calls d small = elim (ℕ_discrete x apid) [
  | yes e ↦
      subst (λ n. Decimates (after (ok_to_transmit defs x).1 ids) apid dec n) (ground arith)
        (after-Decimates (ok_to_transmit defs x).1 ids apid dec (suc calls)
          (subst (λ y. Decimates (ok_to_transmit defs y).1 apid dec (suc calls)) (sym e)
            (self-Decimates defs apid dec calls d small))
          small)
  | no ne ↦
      subst (λ n. Decimates (after (ok_to_transmit defs x).1 ids) apid dec n) (ground arith)
        (after-Decimates (ok_to_transmit defs x).1 ids apid dec calls
          (other-Decimates defs x apid dec calls ne d) small)
]

-- a position in the cycle of `dec` packets is the first one exactly if `n` is 1
whole_rounds :
    (calls n dec q r : ℕ) → calls + n ≡ suc (q * dec) → 0 < n → n ≤ dec → calls ≡ r * dec → n ≡ 1
whole_rounds calls n dec q r at pos max e = elim (dec_le q r) [
  | yes h ↦ omega (arith, at, pos, e, mul-le-mul_right dec h)
  | no h ↦
      let next : suc r ≤ q = omega arith in omega (arith, at, max, e, mul-le-mul_right dec next)
]

ok_to_transmit_iff :
    (defs : List Entry) (apid dec calls : ℕ)
    → Decimates defs apid dec calls
    → dec < 65536
    → ((ok_to_transmit defs apid).0 ≡ true) ↔ ((rounds : ℕ) × (calls ≡ rounds * dec))
ok_to_transmit_iff defs apid dec calls d small = elim (dec_le (entry defs apid).n_to_skip 1) [
  | yes last ↦
      let one : (entry defs apid).n_to_skip ≡ 1 = omega (arith, d.skips, last) in
      (
        λ _. (d.round, omega (arith, d.position, one)),
        λ _. ap (λ r. r.0) (ok_to_transmit-sends defs apid dec calls d one),
      )
  | no more ↦
      let skips = ap (λ r. r.0) (ok_to_transmit-skips defs apid dec calls d small (omega arith)) in
      (
        λ sent. absurd (true≢false (sym sent ∙ skips)),
        λ (rounds, e). absurd (
            more (
              omega (
                arith,
                whole_rounds calls (entry defs apid).n_to_skip dec d.round rounds d.position d.skips
                    d.at_most e,
              ))),
      )
]

-- Take a table in which `def` has just put the entry of an APID up to 151, with a size and a
-- decimation rate that are not 0, and any packets of this and other APIDs behind that. Then
-- `OK_to_transmit` lets the next packet of the APID through exactly if the number of its packets
-- before that is a multiple of the decimation rate: the first one, and each `dec`-th after it,
-- whatever the other APIDs do.
pub ok_to_transmit-in_turn :
    (defs : List Entry) (ids : List ℕ) (apid size dec : ℕ)
    → apid ≤ max_apid
    → apid < length defs
    → entry defs apid
      ≡ record { size = suc size; decimation_rate = suc dec; n_to_skip = 1; reported = 0 }
    → suc dec < 65536
    → ((ok_to_transmit (after defs ids) apid).0 ≡ true)
      ↔ ((rounds : ℕ) × (count apid ids ≡ rounds * suc dec))
ok_to_transmit-in_turn defs ids apid size dec known in_table e small =
    ok_to_transmit_iff (after defs ids) apid (suc dec) (count apid ids)
      (subst (λ n. Decimates (after defs ids) apid (suc dec) n) (zero-add (count apid ids))
        (after-Decimates defs ids apid (suc dec) 0
          (record {
            known = known;
            in_table = in_table;
            sized = rw e (omega arith);
            rate = ap (λ x. x.decimation_rate) e;
            skips = rw e (omega arith);
            at_most = rw e (omega arith);
            round = 0;
            position = rw e (omega arith);
          })
          small))
      small
