-- ===== src/Pops/Packet.antt =====
-- POPS/POPS.cc, UserPkts_UDP::protocol_input: a text packet of the instrument is scanned, and if it is
-- complete, stored in the telemetry structure `POPS`.
pub mod Store
pub mod Columns
pub mod RoundTrip
mod Tests
use cosmid.Base.{ℕ, Option, none, some, List, [], ◌∷◌, ltb, if◌then◌else◌, ℤ, sub_ℕ}
use cosmid.Dasio.{Dasio, Input, nc}
use cosmid.Dasio.Scan.{Scan, Scanners, pure, ◌>>=◌, ◌>>◌}
use cosmid.Pops.Fields.{
  Name, int_status, Kind, nfloat, uint8, uint16, uint32, int32, kind, fields, stored, Value, real,
  nat, int, assign, store,
}

-- the `struct tm` that is given to `mktime`; its months count from 0 and its years from 1900
pub record Tm : Type 0 where
  pub tm_year : ℤ
  pub tm_mon : ℤ
  pub tm_mday : ℕ
  pub tm_hour : ℕ
  pub tm_min : ℕ
  pub tm_sec : ℕ

-- The C library's: `mktime`, where `none` is -1, and the arithmetic of `double`.
pub record Clock (Float : Type 0) : Type 0 where
  pub mktime : Tm → Option ℤ
  pub from_time : ℤ → Float
  pub add : Float → Float → Float
  pub sub : Float → Float → Float
  pub floor : Float → Float

-- `POPS_t`; `fields` are those between `Time` and `Srvr`.
pub record Pops (Float : Type 0) : Type 0 where
  pub time : Float
  pub fields : Name → Value Float
  pub srvr : ℕ
  pub stale : ℕ

pub data Report : Type 0 where
  mktime_error : Report

abbrev comma : List ℕ
comma = b',' ∷ []

module _ {Float : Type 0} (lib : Dasio) (scanners : Scanners Float) (clock : Clock Float) where
  pub scan_value : Kind → Scan (Value Float)
  scan_value nfloat = do v ← scanners.not_nfloat; pure (real v)
  scan_value uint8 = do v ← scanners.not_uint8; pure (nat v)
  scan_value uint16 = do v ← scanners.not_uint16; pure (nat v)
  scan_value uint32 = do v ← scanners.not_uint32; pure (nat v)
  scan_value int32 = do v ← scanners.not_int32; pure (int v)

  -- a variable, and each further one behind a comma
  pub scan_fields : Name → List Name → (Name → Value Float) → Scan (Name → Value Float)
  unfolding scan_value
  scan_fields n [] env = do v ← scan_value (kind n); pure (assign n v env)
  scan_fields n (m ∷ ns) env = do
    v ← scan_value (kind n)
    scanners.not_str comma
    scan_fields m ns (assign n v env)

  pub scan_time : Scan Tm
  scan_time = do
    year ← scanners.not_ndigits 4
    month ← scanners.not_ndigits 2
    day ← scanners.not_ndigits 2
    scanners.not_str (b'T' ∷ [])
    hour ← scanners.not_ndigits 2
    minute ← scanners.not_ndigits 2
    second ← scanners.not_ndigits 2
    pure (record {
      tm_year = sub_ℕ year 1900;
      tm_mon = sub_ℕ month 1;
      tm_mday = day;
      tm_hour = hour;
      tm_min = minute;
      tm_sec = second;
    })

  -- The condition of the `if`; `locals` are the variables before they are scanned. The scans over the
  -- serial number and the file name are the first two of `not_found`.
  pub scan_packet : (Name → Value Float) → Scan (Tm × Float × (Name → Value Float))
  unfolding scan_time scan_fields
  scan_packet locals = do
    scanners.not_str (b'P' ∷ b'O' ∷ b'P' ∷ b'S' ∷ b',' ∷ [])
    scanners.not_found b','
    scanners.not_found b','
    tm ← scan_time
    scanners.not_str comma
    time_ssm ← scanners.not_nfloat
    scanners.not_str comma
    env ← scan_fields int_status fields locals
    pure (tm, time_ssm, env)

  -- the time, from the result of `mktime`: if it fails, the time is left
  pub store_time : Pops Float → Float → Option ℤ → Pops Float × List Report
  store_time pops time_ssm none = (pops, mktime_error ∷ [])
  store_time pops time_ssm (some ltime) = (
    record pops {
      time = clock.add (clock.from_time ltime) (clock.sub time_ssm (clock.floor time_ssm));
    },
    [],
  )

  -- what is done with the result of the scan
  pub after_scan :
      Pops Float
      → Option (Tm × Float × (Name → Value Float)) × Input
      → Pops Float × List Report × Input
  unfolding store_time
  after_scan pops (none, i) = (pops, [], if ltb i.cp (nc i) then lib.consume (nc i) i else i)
  after_scan pops (some (tm, time_ssm, env), i) =
      let (pops', reports) = store_time pops time_ssm (clock.mktime tm) in
      (
        record pops' { fields = store stored env pops'.fields; stale = 0 },
        reports,
        lib.report_ok (nc i) i,
      )

  pub protocol_input : (Name → Value Float) → Pops Float → Input → Pops Float × List Report × Input
  unfolding scan_packet after_scan
  protocol_input locals pops input = after_scan pops (scan_packet locals (record input { cp = 0 }))
