-- ===== src/Pops/Packet/RoundTrip.antt =====
-- A packet that is written as the instrument does, and what is scanned from it.
use mathlib.Core.Path.{fun_ext}
use cosmid.Base.{
  sym, ◌∙◌, ℕ, ◌++◌, ◌≡◌, refl, ap, subst, arith, some, List, [], ◌∷◌, length, sub_ℕ, append-nil,
}
use cosmid.Dasio.{Dasio, Input, nc}
use cosmid.Dasio.Scan.{Scanners}
use cosmid.Dasio.Reads.{Reads, Any, IsEnd, Reads-bind, Reads-last}
use cosmid.Dasio.Decimal.{IsDigits, ndigits-Reads, decimal, HasNo, ScansText}
use cosmid.Pops.Fields.{Name, int_status, kind, fields, Value, assign}
use cosmid.Pops.Packet.{
  Tm, Clock, Pops, Report, scan_value, scan_fields, scan_time, scan_packet, after_scan,
  protocol_input,
}
use cosmid.Pops.Packet.Columns.{columns, column_kind, kind-column, join, line}
use cosmid.Pops.Packet.Store.{Stores, stored_with, stored_with-Stores}

-- the time of a packet, in digits
pub record TimeText : Type 0 where
  pub year : List ℕ
  pub month : List ℕ
  pub day : List ℕ
  pub hour : List ℕ
  pub minute : List ℕ
  pub second : List ℕ

abbrev HasDigits : ℕ → List ℕ → Type 0
HasDigits k ds = (length ds ≡ k) × IsDigits ds

abbrev pub IsTime : TimeText → Type 0
IsTime t =
    HasDigits 4 t.year
    × HasDigits 2 t.month
    × HasDigits 2 t.day
    × HasDigits 2 t.hour
    × HasDigits 2 t.minute
    × HasDigits 2 t.second

abbrev pub time_text : TimeText → List ℕ
time_text t = t.year ++ (t.month ++ (t.day ++ (b'T' ∷ (t.hour ++ (t.minute ++ t.second)))))

-- the `struct tm` of a time
abbrev pub tm_of : TimeText → Tm
tm_of t = record {
  tm_year = sub_ℕ (decimal t.year) 1900;
  tm_mon = sub_ℕ (decimal t.month) 1;
  tm_mday = decimal t.day;
  tm_hour = decimal t.hour;
  tm_min = decimal t.minute;
  tm_sec = decimal t.second;
}

-- the variables once those of the packet are assigned, in order
abbrev pub assigned :
    {Float : Type 0}
    → Name
    → List Name
    → (Name → Value Float)
    → (Name → Value Float)
    → Name
    → Value Float
assigned n [] v env = assign n (v n) env
assigned n (m ∷ ns) v env = assigned m ns v (assign n (v n) env)

assigned-eq :
    {Float : Type 0} (v env : Name → Value Float) (n : Name)
    → assigned int_status fields v env n ≡ v n
assigned-eq v env int_status = refl
assigned-eq v env _ = refl

-- the text of a packet: its serial number, its file name, its time, `TimeSSM`, and the fields
abbrev pub packet_text : List ℕ → List ℕ → TimeText → List ℕ → (Name → List ℕ) → List ℕ
packet_text sn file t ssm text =
    (b'P' ∷ b'O' ∷ b'P' ∷ b'S' ∷ b',' ∷ [])
    ++ ((sn ++ (b',' ∷ []))
        ++ ((file ++ (b',' ∷ [])) ++ (time_text t ++ (b',' ∷ (ssm ++ (b',' ∷ line columns text))))))

module _ {Float : Type 0} (lib : Dasio) (scanners : Scanners Float) (clock : Clock Float)
    (law : ScansText scanners) where
  scan_fields-Reads :
      (text : Name → List ℕ) (v : Name → Value Float)
      → ((n : Name) → Reads IsEnd (scan_value lib scanners clock (kind n)) (text n) (v n))
      → (n : Name) (ns : List Name) (env : Name → Value Float)
      → Reads IsEnd (scan_fields lib scanners clock n ns env) (join n ns text) (assigned n ns v env)
  unfolding scan_fields
  scan_fields-Reads text v read n [] env =
      Reads-last IsEnd (scan_value lib scanners clock (kind n)) (λ x. assign n x env) (text n) (v n)
        (read n)
  scan_fields-Reads text v read n (m ∷ ns) env =
      Reads-bind IsEnd IsEnd _ _ (text n) (b',' ∷ join m ns text) (v n) _ (read n)
        (Reads-bind Any IsEnd _ _ (b',' ∷ []) (join m ns text) tt _ (law.str (b',' ∷ []))
          (scan_fields-Reads text v read m ns (assign n (v n) env)) (λ rest r. tt))
        (λ rest r. refl)

  scan_time-Reads :
      (t : TimeText) → IsTime t → Reads Any (scan_time lib scanners clock) (time_text t) (tm_of t)
  unfolding scan_time
  scan_time-Reads t (year, month, day, hour, minute, second) =
      let digits : (k : ℕ) (ds : List ℕ)
          → HasDigits k ds
          → Reads Any (scanners.not_ndigits k) ds (decimal ds) =
        λ k ds h. ndigits-Reads scanners law k ds h.0 h.1 in
      Reads-bind Any Any _ _ t.year _ (decimal t.year) _ (digits 4 t.year year)
        (Reads-bind Any Any _ _ t.month _ (decimal t.month) _ (digits 2 t.month month)
          (Reads-bind Any Any _ _ t.day _ (decimal t.day) _ (digits 2 t.day day)
            (Reads-bind Any Any _ _ (b'T' ∷ []) _ tt _ (law.str (b'T' ∷ []))
              (Reads-bind Any Any _ _ t.hour _ (decimal t.hour) _ (digits 2 t.hour hour)
                (Reads-bind Any Any _ _ t.minute _ (decimal t.minute) _ (digits 2 t.minute minute)
                  (Reads-last Any _ _ t.second (decimal t.second) (digits 2 t.second second))
                  (λ rest r. tt))
                (λ rest r. tt))
              (λ rest r. tt))
            (λ rest r. tt))
          (λ rest r. tt))
        (λ rest r. tt)

  scan_packet-Reads :
      (sn file : List ℕ) (t : TimeText) (ssm : List ℕ) (time_ssm : Float) (text : Name → List ℕ)
      (v locals : Name → Value Float)
      → HasNo b',' sn
      → HasNo b',' file
      → IsTime t
      → Reads IsEnd scanners.not_nfloat ssm time_ssm
      → ((n : Name) → Reads IsEnd (scan_value lib scanners clock (kind n)) (text n) (v n))
      → Reads IsEnd
          (scan_packet lib scanners clock locals)
          (packet_text sn file t ssm text)
          (tm_of t, time_ssm, v)
  unfolding scan_packet
  scan_packet-Reads sn file t ssm time_ssm text v locals no_sn no_file is_time float read =
      let env : Name → Value Float = assigned int_status fields v locals in
      let comma = law.str (b',' ∷ []) in
      let all_read = scan_fields-Reads text v read int_status fields locals in
      subst
        (λ vars.
          Reads IsEnd (scan_packet lib scanners clock locals) (packet_text sn file t ssm text)
            (tm_of t, time_ssm, vars))
        (fun_ext (assigned-eq v locals))
        (Reads-bind Any IsEnd _ _ (b'P' ∷ b'O' ∷ b'P' ∷ b'S' ∷ b',' ∷ []) _ tt
          (tm_of t, time_ssm, env) (law.str (b'P' ∷ b'O' ∷ b'P' ∷ b'S' ∷ b',' ∷ []))
          (Reads-bind Any IsEnd _ _ (sn ++ (b',' ∷ [])) _ tt _ (law.found b',' sn no_sn)
            (Reads-bind Any IsEnd _ _ (file ++ (b',' ∷ [])) _ tt _ (law.found b',' file no_file)
              (Reads-bind Any IsEnd _ _ (time_text t)
                (b',' ∷ (ssm ++ (b',' ∷ join int_status fields text))) (tm_of t) _
                (scan_time-Reads t is_time)
                (Reads-bind Any IsEnd _ _ (b',' ∷ []) _ tt _ comma
                  (Reads-bind IsEnd IsEnd _ _ ssm (b',' ∷ join int_status fields text) time_ssm _
                    float
                    (Reads-bind Any IsEnd _ _ (b',' ∷ []) _ tt _ comma
                      (Reads-last IsEnd _ _ (join int_status fields text) env all_read)
                      (λ rest r. tt))
                    (λ rest r. refl))
                  (λ rest r. tt))
                (λ rest r. tt))
              (λ rest r. tt))
            (λ rest r. tt))
          (λ rest r. tt))

  -- The scanners do what is documented. A packet is in the buffer whose serial number and file name have
  -- no comma, whose time is in 14 digits, and whose columns, in the order of the instrument, are each a text
  -- that the scanner of its type reads as its value in front of a comma or the end. Then `protocol_input` stores exactly this packet: every
  -- field but two has the value of its text, and the telemetry is fresh; the time of the telemetry is
  -- made of the packet's, unless `mktime` fails, which is reported; and the whole input is taken.
  pub protocol_input-packet_text :
      (sn file : List ℕ) (t : TimeText) (ssm : List ℕ) (time_ssm : Float) (text : Name → List ℕ)
      (v locals : Name → Value Float) (pops : Pops Float) (input : Input)
      → input.buf ≡ packet_text sn file t ssm text
      → HasNo b',' sn
      → HasNo b',' file
      → IsTime t
      → Reads IsEnd scanners.not_nfloat ssm time_ssm
      → ((n : Name) → Reads IsEnd (scan_value lib scanners clock (column_kind n)) (text n) (v n))
      → (pops' : Pops Float) × (reports : List Report) × (protocol_input lib scanners clock locals
            pops input
          ≡ (pops', reports, lib.report_ok (nc input) (record input { cp = nc input })))
        × Stores clock pops (tm_of t) time_ssm v pops' reports
  unfolding protocol_input after_scan stored_with
  protocol_input-packet_text sn file t ssm time_ssm text v locals pops input e no_sn no_file is_time
        float read =
      let i : Input = record input { cp = 0 } in
      let scan = scan_packet lib scanners clock locals i in
      let end : length (packet_text sn file t ssm text) ≡ nc input = ap length (sym e) in
      let run : scan ≡ (some (tm_of t, time_ssm, v), record input { cp = nc input }) =
        scan_packet-Reads sn file t ssm time_ssm text v locals no_sn no_file is_time float
          (λ n.
            subst (λ k. Reads IsEnd (scan_value lib scanners clock k) (text n) (v n))
              (sym (kind-column n)) (read n))
          i [] tt (e ∙ sym (append-nil (packet_text sn file t ssm text)))
        ∙ ap (λ k. (some (tm_of t, time_ssm, v), record input { cp = k })) (omega (arith, end)) in
      let stored = stored_with lib scanners clock pops time_ssm v (clock.mktime (tm_of t)) in
      (
        stored.0,
        stored.1,
        ap (after_scan lib scanners clock pops) run,
        stored_with-Stores lib scanners clock pops (tm_of t) time_ssm v (clock.mktime (tm_of t))
            refl,
      )
