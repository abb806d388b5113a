-- ===== src/Pops/Packet/Store.antt =====
-- What is stored, and what is never stored.
use cosmid.Base.{
  ◌≡◌, refl, Bool, true, false, List, [], ◌∷◌, ◌<◌, ◌≤◌, ◌⊎◌, ℤ, if◌then◌else◌, Option, none, some,
  inl, inr,
}
use cosmid.Dasio.{Dasio, Input, nc}
use cosmid.Dasio.Scan.{Scanners}
use cosmid.Pops.Fields.{Name, laser_current, flow_set, stored, Value, store}
use cosmid.Pops.Packet.{Tm, Clock, Pops, Report, mktime_error, store_time}

-- every variable but the laser's current and the flow's set point
abbrev pub is_stored : Name → Bool
is_stored laser_current = false
is_stored flow_set = false
is_stored _ = true

pub store-stored :
    {Float : Type 0} (env pops : Name → Value Float) (n : Name)
    → store stored env pops n ≡ (if is_stored n then env n else pops n)
unfolding store
store-stored env pops laser_current = refl
store-stored env pops _ = refl

-- A complete packet in the telemetry: all its variables but two are stored, and its time too if
-- `mktime` can read it.
pub record Stores {Float : Type 0} (clock : Clock Float) (pops : Pops Float) (tm : Tm)
    (time_ssm : Float) (env : Name → Value Float) (pops' : Pops Float) (reports : List Report)
    : Type 0 where
  pub in_fields : (n : Name) → pops'.fields n ≡ (if is_stored n then env n else pops.fields n)
  pub fresh : pops'.stale ≡ 0
  pub same_srvr : pops'.srvr ≡ pops.srvr
  pub in_time :
      ((clock.mktime tm ≡ none) × (pops'.time ≡ pops.time) × (reports ≡ mktime_error ∷ []))
      ⊎ ((ltime : ℤ) × (clock.mktime tm ≡ some ltime)
          × (pops'.time
              ≡ clock.add (clock.from_time ltime) (clock.sub time_ssm (clock.floor time_ssm)))
          × (reports ≡ []))

module _ {Float : Type 0} (lib : Dasio) (scanners : Scanners Float) (clock : Clock Float) where
  unfoldable pub stored_with :
      Pops Float → Float → (Name → Value Float) → Option ℤ → Pops Float × List Report
  unfolding store_time
  stored_with pops time_ssm env ltime =
      let (pops', reports) = store_time lib scanners clock pops time_ssm ltime in
      (record pops' { fields = store stored env pops'.fields; stale = 0 }, reports)

  pub stored_with-Stores :
      (pops : Pops Float) (tm : Tm) (time_ssm : Float) (env : Name → Value Float) (ltime : Option ℤ)
      → clock.mktime tm ≡ ltime
      → Stores clock pops tm time_ssm env
          (stored_with pops time_ssm env ltime).0
          (stored_with pops time_ssm env ltime).1
  unfolding stored_with store_time
  stored_with-Stores pops tm time_ssm env none bad = record {
    in_fields = store-stored env pops.fields;
    fresh = refl;
    same_srvr = refl;
    in_time = inl (bad, refl, refl);
  }
  stored_with-Stores pops tm time_ssm env (some ltime) good = record {
    in_fields = store-stored env pops.fields;
    fresh = refl;
    same_srvr = refl;
    in_time = inr (ltime, good, refl, refl);
  }

  -- what a call does, by the result of its scan
  abbrev Outcome :
      Pops Float
      → Option (Tm × Float × (Name → Value Float)) × Input
      → Pops Float × List Report × Input
      → Type 0
  Outcome pops (found, i) (pops', reports, input') =
      ((found ≡ none)
        × (pops' ≡ pops)
        × (reports ≡ [])
        × (i.cp < nc i → input' ≡ lib.consume (nc i) i)
        × (nc i ≤ i.cp → input' ≡ i))
      ⊎ ((tm : Tm) × (time_ssm : Float) × (env : Name → Value Float) × (found
            ≡ some (tm, time_ssm, env))
          × Stores clock pops tm time_ssm env pops' reports
          × (input' ≡ lib.report_ok (nc i) i))
