-- ===== src/Nephex/Emulator.antt =====
-- Nephex/nephex_emulator.h and .cc: which connection NE_ingest plays its packets to, and the time base
-- that paces them. A client is a number; `none` of an operation is an abort.
pub mod Clients
pub mod Pace
pub mod Play
pub mod Runs
mod Tests
use cosmid.Base.{
  ℕ, ◌+◌, ◌-◌, Bool, true, false, ◌&&◌, ◌||◌, Option, none, some, ltb, ◌==◌, if◌then◌else◌, ◌>>◌,
  ◌>>=◌, nl_assert, sub32, add32,
}

-- `reads` is Fl_Read of the flags, and `timer` whether TO is set
pub record Ingest : Type 0 where
  pub client : Option ℕ
  pub reads : Bool
  pub timer : Bool
  pub last_secs : ℕ
  pub last_msecs : ℕ

-- true if there is a client already
unfoldable pub set_client : Ingest → ℕ → Bool × Ingest
set_client i c = elim i.client [
  | some other ↦ (true, i)
  | none ↦ (false, record i { client = some c; reads = true })
]

unfoldable pub reset_client : Ingest → Ingest
reset_client i = record i { timer = false; reads = false; client = none }

-- `connected` of a nephex_tcp: a second one is deleted, and its destructor resets the client
unfoldable pub connected : Ingest → ℕ → Ingest
unfolding set_client reset_client
connected i c = let (refused, i') = set_client i c in if refused then reset_client i' else i'

-- The time of a packet starts the time base if the timer is not set, and a later time moves it on:
-- then the seconds and milliseconds are those that the timer is extended by.
unfoldable pub pace : Ingest → ℕ → ℕ → Option (Ingest × Option (ℕ × ℕ))
pace i pkt_secs pkt_msecs =
    let started : Ingest =
      if i.timer
      then i
      else record i { timer = true; last_secs = pkt_secs; last_msecs = pkt_msecs } in
    let moved : Ingest = record started { last_secs = pkt_secs; last_msecs = pkt_msecs } in
    if ltb started.last_secs pkt_secs
      || (pkt_secs == started.last_secs && ltb started.last_msecs pkt_msecs)
    then (if ltb pkt_msecs started.last_msecs
        then (do
          nl_assert (ltb started.last_msecs (pkt_msecs + 1000))
          some (
            moved,
            some (
              sub32 (sub32 pkt_secs started.last_secs) 1,
              sub32 (add32 pkt_msecs 1000) started.last_msecs,
            ),
          ))
        else some
            (moved, some (sub32 pkt_secs started.last_secs, sub32 pkt_msecs started.last_msecs)))
    else some (started, none)
