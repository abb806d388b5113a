-- ===== src/Nephex/Emulator/Play/Times.antt =====
-- The time base of the emulator in milliseconds, and what a packet makes of it and of the timer.
use cosmid.Base.{
  ℕ, ◌+◌, ◌≤◌, ◌<◌, ◌≡◌, ◌⊎◌, inl, inr, refl, sym, ◌∙◌, arith, Bool, true, false, ◌||◌, Option,
  none, some, List, [], ◌∷◌, ◌++◌, ltb, ◌==◌, Bool-cases, add32, sub32, if◌then◌else◌, ltb→lt,
  ltb→ge, ◌&&◌,
}
use cosmid.Nephex.Receiver.{word_at}
use cosmid.Nephex.Emulator.{Ingest, pace}
use cosmid.Nephex.Emulator.Pace.{time}
use cosmid.Nephex.Emulator.Play.{Output, added, wrote, dropped, secs_at, additions}

-- The time base has milliseconds below 1000, if it was started.
abbrev pub IsPaced : Ingest → Type 0
IsPaced i = (i.timer ≡ false) ⊎ (i.last_msecs < 1000)

-- the time of the packet at `start`, in milliseconds
abbrev pub time_at : List ℕ → ℕ → ℕ
time_at buf start = time (secs_at buf (start + 8)) (word_at buf (start + 12))

-- the time that the time base has, or is started at by a packet of the time `t`
abbrev pub base : Ingest → ℕ → ℕ
base i t = if i.timer then time i.last_secs i.last_msecs else t

abbrev pub later : ℕ → ℕ → ℕ
later a b = if ltb a b then b else a

-- the milliseconds by which the timer was extended in all
abbrev pub extended : List Output → ℕ
extended [] = 0
extended (added secs msecs ∷ out) = time secs msecs + extended out
extended (wrote _ ∷ out) = extended out
extended (dropped _ ∷ out) = extended out

pub extended-append : (xs ys : List Output) → extended (xs ++ ys) ≡ extended xs + extended ys
extended-append [] ys = omega arith
extended-append (added secs msecs ∷ xs) ys = omega (arith, extended-append xs ys)
extended-append (wrote _ ∷ xs) ys = extended-append xs ys
extended-append (dropped _ ∷ xs) ys = extended-append xs ys

-- the time base behind a packet of the time `t`, with what the timer was extended by
abbrev pub Moves : Ingest → Ingest → ℕ → ℕ → Type 0
Moves i i' t d =
    (i'.timer ≡ true)
    × (i'.last_secs < 4294967296)
    × (d + base i t ≡ base i' t)
    × (base i' t ≡ later (base i t) t)

-- the same from one output to another
abbrev pub Moved : Ingest → Ingest → ℕ → List Output → List Output → Type 0
Moved i i' t out out' =
    (i'.timer ≡ true)
    × (i'.last_secs < 4294967296)
    × (extended out' + base i t ≡ extended out + base i' t)
    × (base i' t ≡ later (base i t) t)

pub Moves-Moved :
    (i i' : Ingest) (t : ℕ) (d : Option (ℕ × ℕ)) (out : List Output)
    → Moves i i' t (extended (additions d))
    → Moved i i' t out (out ++ additions d)
Moves-Moved i i' t d out (on, range, total, last) =
    (on, range, omega (arith, total, extended-append out (additions d)), last)

abbrev pub is_later : ℕ → ℕ → ℕ → ℕ → Bool
is_later last_secs last_msecs secs msecs =
    ltb last_secs secs || (secs == last_secs && ltb last_msecs msecs)

module _ (ls lm secs msecs : ℕ) (ls_range : ls < 4294967296) (lm_range : lm < 1000)
    (secs_range : secs < 4294967296) (msecs_range : msecs < 1000) where
  is_later_iff : (is_later ls lm secs msecs) ≡ ltb (time ls lm) (time secs msecs)
  is_later_iff = ground (arith, ls_range, lm_range, secs_range, msecs_range)

  carry_exact :
      time ls lm < time secs msecs
      → msecs < lm
      → time (sub32 (sub32 secs ls) 1) (sub32 (add32 msecs 1000) lm) + time ls lm ≡ time secs msecs
  carry_exact less carry =
      let secs_exact : sub32 (sub32 secs ls) 1 + 1 + ls ≡ secs =
        omega (arith, ls_range, secs_range, msecs_range, lm_range, carry, less) in
      let msecs_exact : sub32 (add32 msecs 1000) lm + lm ≡ msecs + 1000 =
        omega (arith, lm_range, msecs_range) in
      omega (arith, secs_exact, msecs_exact)

  plain_exact :
      time ls lm < time secs msecs
      → lm ≤ msecs
      → time (sub32 secs ls) (sub32 msecs lm) + time ls lm ≡ time secs msecs
  plain_exact less plain =
      let secs_exact : sub32 secs ls + ls ≡ secs =
        omega (arith, ls_range, secs_range, msecs_range, lm_range, less) in
      let msecs_exact : sub32 msecs lm + lm ≡ msecs = omega (arith, msecs_range, plain) in
      omega (arith, secs_exact, msecs_exact)

started-msecs : (i : Ingest) → IsPaced i → i.timer ≡ true → i.last_msecs < 1000
started-msecs i (inl off) on = absurd (ground (arith, off, on))
started-msecs i (inr last) on = last

pub pace-IsPaced :
    (i : Ingest) (secs msecs : ℕ)
    → IsPaced i
    → msecs < 1000
    → (i' : Ingest) × (d : Option (ℕ × ℕ)) × (pace i secs msecs ≡ some (i', d))
      × (i'.client ≡ i.client)
      × (i'.last_msecs < 1000)
      × (i.last_secs < 4294967296
          → secs < 4294967296
          → Moves i i' (time secs msecs) (extended (additions d)))
unfolding pace
pace-IsPaced i secs msecs paced small = elim (Bool-cases i.timer) [
  | inr off ↦
      let same : (ltb secs secs || (secs == secs && ltb msecs msecs)) ≡ false = ground arith in
      rw (off, same)
        (_, none, refl, refl, small, λ range here. (refl, here, omega arith, ground arith))
  | inl on ↦
      let last : i.last_msecs < 1000 = started-msecs i paced on in
      elim (Bool-cases (ltb i.last_secs secs || (secs == i.last_secs && ltb i.last_msecs msecs))) [
        | inr now ↦
            rw (on, now)
              (
                _,
                none,
                refl,
                refl,
                last,
                λ range here.
                    let early =
                      sym (is_later_iff i.last_secs i.last_msecs secs msecs range last here small)
                      ∙ now in
                    rw early (refl, range, omega arith, refl),
              )
        | inl after ↦
            let holds : ltb i.last_msecs (msecs + 1000) ≡ true = ground (arith, last) in
            elim (Bool-cases (ltb msecs i.last_msecs)) [
              | inl carry ↦
                  rw (on, after, carry, holds)
                    (
                      _,
                      some _,
                      refl,
                      refl,
                      small,
                      λ range here.
                          let less =
                            sym (
                              is_later_iff i.last_secs i.last_msecs secs msecs range last here
                                small)
                            ∙ after in
                          let exact =
                            carry_exact i.last_secs i.last_msecs secs msecs range last here small
                              (ltb→lt _ _ less) (ltb→lt _ _ carry) in
                          rw less (refl, here, omega (arith, exact), refl),
                    )
              | inr plain ↦
                  rw (on, after, plain)
                    (
                      _,
                      some _,
                      refl,
                      refl,
                      small,
                      λ range here.
                          let less =
                            sym (
                              is_later_iff i.last_secs i.last_msecs secs msecs range last here
                                small)
                            ∙ after in
                          let exact =
                            plain_exact i.last_secs i.last_msecs secs msecs range last here small
                              (ltb→lt _ _ less) (ltb→ge _ _ plain) in
                          rw less (refl, here, omega (arith, exact), refl),
                    )
            ]
      ]
]
