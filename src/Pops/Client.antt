-- ===== src/Pops/Client.antt =====
-- POPS/POPS_int.h and POPS.cc, classes POPS_client and POPS_Cmd: the commands are passed on to the server
-- beside the instrument, whose state is kept in the telemetry structure. Messages for debugging and
-- those on lost connections are left out.
pub mod Ticks
pub mod Lines
pub mod Status
pub mod Command
pub mod Runs
pub mod Silence
mod Tests
use cosmid.Base.{
  ℕ, zero, suc, ◌+◌, ◌-◌, Bool, true, false, ◌&&◌, ◌||◌, Option, none, some, List, [], ◌∷◌, ◌++◌,
  ltb, leb, ◌==◌, if◌then◌else◌, length, get_or, set, u8,
}
use mathlib.Core.Option
use cosmid.Dasio.{Dasio, Input, nc}
use cosmid.Dasio.Scan.{Scanners}

-- `srvr` and `stale` are the fields of `POPS`. `connected` and `negotiated` are what the library's socket
-- says, and `timer` is whether TO is set. Fl_Timeout, which lets the timer be heard, is left out.
pub record Client : Type 0 where
  pub srvr : ℕ
  pub stale : ℕ
  pub srvr_stale : ℕ
  pub timer : Bool
  pub connected : Bool
  pub negotiated : Bool

pub data Effect : Type 0 where
  wrote : List ℕ → Effect  -- iwrite, to the server
  not_established : Effect  -- "command issued before comms established"
  srvr_is_stale : Effect  -- "srvr_Stale=%d while connected"
  poorly_formed : Effect  -- "poorly formed status response"
  log_line : List ℕ → Effect  -- "%s: %s"
  missing_nl : List ℕ → Effect  -- "missing nl: %s"
  reset : Effect
  connect_later : Effect

pub forward : Client → List ℕ → Client × List Effect
forward c cmd =
    if c.negotiated then (record c { timer = true }, wrote cmd ∷ []) else (c, not_established ∷ [])

-- "V\n"
abbrev pub status_request : List ℕ
status_request = b'V' ∷ b'\n' ∷ []

pub app_connected : Client → Client × List Effect
unfolding forward
app_connected c =
    let (c', effects) = forward c status_request in
    (record c' { srvr_stale = u8 (c'.srvr_stale + 1) }, effects)

pub protocol_timeout : Client → Client × List Effect
protocol_timeout c = (record c { timer = false; srvr = 0 }, reset ∷ [])

pub app_process_eof : Client → Client × List Effect
app_process_eof c = (record c { srvr = 0 }, connect_later ∷ [])

-- the branch of `tm_sync` for an answer that is awaited
pub count_silence : Client → Client × List Effect
count_silence c =
    let c' : Client = record c {
      srvr_stale = if ltb c.srvr_stale 255 then c.srvr_stale + 1 else c.srvr_stale;
    } in
    (c', if c'.srvr_stale == 5 then srvr_is_stale ∷ [] else [])

pub tm_sync : Client → Client × List Effect
unfolding app_connected count_silence
tm_sync c =
    let c' : Client = record c { stale = if ltb c.stale 255 then c.stale + 1 else c.stale } in
    if ltb 2 c'.stale && c'.connected
    then (if c'.srvr_stale == 0 then app_connected c' else count_silence c')
    else (c', [])

-- `isdigit`
abbrev pub is_digit : ℕ → Bool
is_digit c = leb b'0' c && leb c b'9'

-- the text of a C string: the bytes in front of the first 0; the library puts one behind its buffer
abbrev pub c_string : List ℕ → List ℕ
c_string [] = []
c_string (b ∷ bs) = if b == 0 then [] else b ∷ c_string bs

-- `while (cp < nc && buf[cp] != '\n') ++cp`; `n` bytes are left
pub skip_line : ℕ → Input → Input
skip_line zero i = i
skip_line (suc n) i = elim (get_or i.buf i.cp 0 == b'\n') [
  | true ↦ i
  | false ↦ skip_line n (record i { cp = i.cp + 1 })
]

-- The message has the input from its start on, up to its first 0.
pub end_line : Client → Input → Client × List Effect × Input
end_line c i =
    let ended = set i.buf i.cp 0 in
    if ltb i.cp (nc i)
    then (c, log_line (c_string ended) ∷ [], record { buf = ended; cp = i.cp + 1 })
    else (c, missing_nl (c_string i.buf) ∷ [], i)

-- the results of the two scans of a status response
pub after_newline : Client → Option (Unit {0}) × Input → Client × List Effect × Input
after_newline c (none, i) = (c, poorly_formed ∷ [], i)
after_newline c (some _, i) = (c, [], i)

-- The number is stored as soon as it is scanned.
pub after_number :
    (Input → Option (Unit {0}) × Input) → Client → Option ℕ × Input → Client × List Effect × Input
unfolding after_newline
after_number newline c (none, i) = (c, poorly_formed ∷ [], i)
after_number newline c (some v, i) = after_newline (record c { srvr = v }) (newline i)

module _ {Float : Type 0} (lib : Dasio) (scanners : Scanners Float) where
  -- a line
  pub take_line : Client → Input → Client × List Effect × Input
  unfolding after_number skip_line end_line
  take_line c i =
      if is_digit (get_or i.buf i.cp 0)
      then after_number (scanners.not_str (b'\n' ∷ [])) c (scanners.not_uint8 i)
      else end_line c (skip_line (nc i - i.cp) i)

  -- the loop of `app_input`, on fuel: `none` is that the fuel ran out
  input_loop : ℕ → Client → List Effect → Input → Option (Client × List Effect × Input)
  unfolding take_line
  input_loop zero c out i = none
  input_loop (suc fuel) c out i = elim (ltb i.cp (nc i)) [
    | true ↦ (let (c', effects, i') = take_line c i in input_loop fuel c' (out ++ effects) i')
    | false ↦ some (c, out, i)
  ]

  pub answered : Client → Client
  answered c = record c { timer = false; srvr_stale = 0 }

  -- Each line moves `cp` on.
  pub app_input : Client → Input → Option (Client × List Effect × Input)
  unfolding input_loop answered
  app_input c i =
      Option.map (λ (c', out, i'). (answered c', out, lib.report_ok (nc i') i'))
        (input_loop (suc (nc i)) c [] (record i { cp = 0 }))

-- POPS_Cmd::app_input: `true` ends the driver. The instance of POPS_client is there, since `main` makes
-- it before the event loop.
pub pops_cmd : Dasio → Client → Input → Bool × Client × List Effect × Input
unfolding forward
pops_cmd lib c i =
    let cmd = get_or i.buf 0 0 in
    let (c', effects) = forward c (c_string i.buf) in
    if nc i == 0
    then (false, c, [], i)
    else if cmd == b'B' || cmd == b'E' || cmd == b'F'
    then (false, c', effects, lib.report_ok (nc i) i)
    else (cmd == b'Q', c, [], lib.report_ok (nc i) i)
