-- ===== src/Nephex/Receiver.antt =====
-- Nephex/nephex_export.h and .cc, class nephex_tcp_rcvr: the packets of the stream are logged, and
-- some are forwarded. A packet is the sync bytes 0xaa 0xaa, six bytes with the APID in the first two
-- and `Len` in the last two, and `Len` + 1 bytes. `none` is an abort.
pub mod Logs
pub mod Frames
pub mod Turns
pub mod Calls
pub mod Sent
pub mod Sends
mod Tests
use cosmid.Base.{
  ℕ, zero, suc, ◌+◌, ◌-◌, ◌*◌, bit_and, Bool, true, false, not, ◌&&◌, Option, none, some, List, [],
  ◌∷◌, ◌++◌, ltb, ◌==◌, if◌then◌else◌, ◌>>=◌, length, get_or, slice, take, u16,
}
use cosmid.Dasio.{Dasio, Input, nc}
use cosmid.Serio.{Serio}
use cosmid.Nephex.Apid.{Entry, get_size, not_reported, ok_to_transmit}
use cosmid.Nephex.Export.{cts, forward_packet}

pub data Output : Type 0 where
  incorrect_length : ℕ → ℕ → ℕ → Output  -- the APID, the length expected and the one found
  logged : List ℕ → Output
  forwarded : List (List ℕ) → Output

-- the receiver, with the APID table and the state of the export client that it uses
pub record Receiver : Type 0 where
  pub input : Input
  pub apids : List Entry
  pub outstanding_bytes : ℕ

-- `buf[i] + (((uint16_t)buf[i+1])<<8)`
abbrev pub word_at : List ℕ → ℕ → ℕ
word_at buf i = u16 (get_or buf i 0 + get_or buf (i + 1) 0 * 256)

-- a report of an incorrect length, the first time for the APID
pub check_length : Receiver → List Output → ℕ → ℕ → Option (Receiver × List Output)
unfolding get_size not_reported
check_length r out apid len =
    let expected = get_size r.apids apid + 6 in
    if expected == len then some (r, out) else do
      (first, apids) ← not_reported r.apids apid
      some (
        record r { apids = apids },
        if first then out ++ (incorrect_length apid expected len ∷ []) else out,
      )

module _ (lib : Dasio) (s : Serio) (obuf_empty : List Output → Bool) where
  -- Only a packet that may be sent now counts for the decimation. Its length is passed as a `uint16_t`.
  pub forward : Receiver → List Output → ℕ → List ℕ → Option (Receiver × List Output)
  unfolding ok_to_transmit forward_packet
  forward r out apid packet =
      let (ok, apids) = ok_to_transmit r.apids apid in
      if cts r.outstanding_bytes (obuf_empty out)
      then (if ok
          then (do
            let bytes = take (u16 (length packet)) packet
            (outstanding, spans) ← forward_packet s r.outstanding_bytes (obuf_empty out) bytes
            some (
              record r { apids = apids; outstanding_bytes = outstanding },
              out ++ (forwarded spans ∷ []),
            ))
          else some (record r { apids = apids }, out))
      else some (r, out)

  -- the turn of the loop from the check of the size on, for a packet that starts at `start`
  pub take_packet : Receiver → List Output → ℕ → Option (Receiver × List Output)
  unfolding check_length forward
  take_packet r out start =
      let apid = bit_and (word_at r.input.buf (start + 2)) 0x3FF in
      let len = word_at r.input.buf (start + 6) in
      let packet = slice r.input.buf start (len + 9) in
      do
        (r', out') ← check_length r out apid len
        (r'', out'') ← forward r' (out' ++ (logged packet ∷ [])) apid packet
        some (record r'' { input = record (r''.input) { cp = start + len + 9 } }, out'')

  -- one turn of the loop; `true` is that the loop goes on
  pub pass : Receiver → List Output → Option (Bool × Receiver × List Output)
  unfolding take_packet
  pass r out =
      let (missing, input) = lib.not_found 0xaa r.input in
      let start = input.cp - 1 in
      let len = word_at input.buf (start + 6) in
      if missing
      then some (false, record r { input = input }, out)
      else if ltb input.cp (nc input) && not (get_or input.buf input.cp 0 == 0xaa)
      then some (true, record r { input = input }, out)
      else if ltb (nc input) (start + 8)
      then some (false, record r { input = record input { cp = start } }, out)
      else if ltb (nc input) (start + len + 9)
      then some (false, record r { input = record input { cp = start } }, out)
      else do (r', out') ← take_packet (record r { input = input }) out start; some (true, r', out')

  -- the loop, on fuel: `some none` is that the fuel ran out
  input_loop : ℕ → Receiver → List Output → Option (Option (Receiver × List Output))
  unfolding pass
  input_loop zero r out = some none
  input_loop (suc fuel) r out =
      if ltb r.input.cp (nc r.input)
      then (do
        (more, r', out') ← pass r out
        elim more [ true ↦ input_loop fuel r' out' | false ↦ some (some (r', out')) ])
      else some (some (r, out))

  -- Each turn that is followed by another moves `cp` on.
  pub protocol_input : Receiver → Option (Option (Receiver × List Output))
  unfolding input_loop
  protocol_input r = do
    done ← input_loop (suc (nc r.input)) r []
    elim done [
      | none ↦ some none
      | some (r', out) ↦ some (some (record r' { input = lib.report_ok r'.input.cp r'.input }, out))
    ]
