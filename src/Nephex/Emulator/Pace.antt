-- ===== src/Nephex/Emulator/Pace.antt =====
-- The time base over 32-bit seconds and milliseconds below 1000.
use cosmid.Base.{
  ltb, ◌==◌, ◌&&◌, ◌||◌, ltb→lt, ltb→ge, sub32, add32, Bool-cases, inl, inr, ℕ, ◌+◌, ◌*◌, ◌<◌, ◌≡◌,
  refl, arith, true, some,
}
use cosmid.Nephex.Emulator.{Ingest, pace}

-- milliseconds since 0
abbrev pub time : ℕ → ℕ → ℕ
time secs msecs = secs * 1000 + msecs

-- While the timer is set, with 32-bit seconds and milliseconds below 1000: a packet of a later time
-- moves the time base on to its time, and the timer is extended by exactly the time that lies
-- between, with milliseconds below 1000; the assertion holds.
pub pace-later :
    (i : Ingest) (secs msecs : ℕ)
    → i.timer ≡ true
    → i.last_secs < 4294967296
    → i.last_msecs < 1000
    → secs < 4294967296
    → msecs < 1000
    → time i.last_secs i.last_msecs < time secs msecs
    → (i' : Ingest) × (d_secs : ℕ) × (d_msecs : ℕ) × (pace i secs msecs
        ≡ some (i', some (d_secs, d_msecs)))
      × (time i.last_secs i.last_msecs + time d_secs d_msecs ≡ time secs msecs)
      × (d_msecs < 1000)
      × (time i'.last_secs i'.last_msecs ≡ time secs msecs)
unfolding pace
pace-later i secs msecs set rs rm ss sm later =
    let moved : Ingest = record i { timer = true; last_secs = secs; last_msecs = msecs } in
    let is_later : (ltb i.last_secs secs || (secs == i.last_secs && ltb i.last_msecs msecs))
        ≡ true =
      ground (arith, rs, rm, ss, sm, later) in
    elim (Bool-cases (ltb msecs i.last_msecs)) [
      | inl carry ↦
          let lt = ltb→lt msecs i.last_msecs carry in
          let holds : ltb i.last_msecs (msecs + 1000) ≡ true = ground (arith, rm) in
          let d_secs : ℕ = sub32 (sub32 secs i.last_secs) 1 in
          let d_msecs : ℕ = sub32 (add32 msecs 1000) i.last_msecs in
          let secs_exact : d_secs + 1 + i.last_secs ≡ secs =
            omega (arith, rs, ss, sm, rm, lt, later) in
          let msecs_exact : d_msecs + i.last_msecs ≡ msecs + 1000 = omega (arith, rm, sm) in
          (
            moved,
            d_secs,
            d_msecs,
            rw (set, is_later, carry, holds) refl,
            omega (arith, secs_exact, msecs_exact),
            omega (arith, msecs_exact, lt),
            refl,
          )
      | inr same ↦
          let ge = ltb→ge msecs i.last_msecs same in
          let d_secs : ℕ = sub32 secs i.last_secs in
          let d_msecs : ℕ = sub32 msecs i.last_msecs in
          let secs_exact : d_secs + i.last_secs ≡ secs = omega (arith, rs, ss, sm, rm, later) in
          let msecs_exact : d_msecs + i.last_msecs ≡ msecs = omega (arith, sm, ge) in
          (
            moved,
            d_secs,
            d_msecs,
            rw (set, is_later, same) refl,
            omega (arith, secs_exact, msecs_exact),
            omega (arith, msecs_exact, sm),
            refl,
          )
    ]
