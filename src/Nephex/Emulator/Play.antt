-- ===== src/Nephex/Emulator/Play.antt =====
-- Nephex/nephex_emulator.cc, NE_ingest::protocol_input and nephex_tcp::forward_packet: the packets of a
-- recorded stream are passed to the client as their times come. `none` is an abort.
pub mod Times
pub mod Paced
pub mod Stops
pub mod Relay
mod Tests
use cosmid.Base.{
  ℕ, zero, suc, ◌+◌, ◌-◌, ◌*◌, Bool, true, false, not, ◌&&◌, Option, none, some, List, [], ◌∷◌,
  ◌++◌, ltb, ◌==◌, if◌then◌else◌, ◌>>=◌, get_or, slice, u16, u32, add32,
}
use cosmid.Dasio.{Dasio, Input, nc}
use cosmid.Nephex.Receiver.{word_at}
use cosmid.Nephex.Emulator.{Ingest, pace}

pub data Output : Type 0 where
  added : ℕ → ℕ → Output  -- TO.Add, of seconds and milliseconds
  wrote : List ℕ → Output  -- iwrite, to the client
  dropped : List ℕ → Output  -- a packet for a client whose output buffer is not empty

pub record Player : Type 0 where
  pub ingest : Ingest
  pub input : Input
  pub packet_sn : ℕ

-- how a turn of the loop ends: with another turn, behind the loop, or by a return from within it
pub data Next : Type 0 where
  again leave return : Next

-- the four bytes of `pkt_secs`
abbrev pub secs_at : List ℕ → ℕ → ℕ
secs_at buf i = u32 (
    get_or buf i 0
    + get_or buf (i + 1) 0 * 256
    + get_or buf (i + 2) 0 * 65536
    + get_or buf (i + 3) 0 * 16777216)

abbrev pub additions : Option (ℕ × ℕ) → List Output
additions none = []
additions (some (secs, msecs)) = added secs msecs ∷ []

abbrev pub has_client : Ingest → Bool
has_client i = elim i.client [ some c ↦ true | none ↦ false ]

-- The library's: `TO.Expired()` and `obuf_empty()` of the client, after what was done.
module _ (lib : Dasio) (expired obuf_empty : List Output → Bool) where
  -- `forward_packet` of the client
  pub forward_packet : List ℕ → List Output → List Output
  forward_packet pkt out = out ++ ((if obuf_empty out then wrote pkt else dropped pkt) ∷ [])

  -- a turn from the time of the packet at `start` on
  pub play : Player → List Output → ℕ → Option (Next × Player × List Output)
  unfolding pace forward_packet
  play p out start = do
    (ingest, d) ← pace p.ingest (secs_at p.input.buf (start + 8)) (word_at p.input.buf (start + 12))
    let size = word_at p.input.buf (start + 6) + 9
    let out' = out ++ additions d
    let held = record p { ingest = ingest; input = record (p.input) { cp = start } }
    if expired out' && has_client ingest
        then some (
          again,
          record held {
            input = record (p.input) { cp = start + size };
            packet_sn = add32 p.packet_sn 1;
          },
          forward_packet (slice p.input.buf start (u16 size)) out',
        )
        else some (leave, held, out')

  -- one turn of the loop; a return leaves `cp` where it stands
  pub turn : Player → List Output → Option (Next × Player × List Output)
  unfolding play
  turn p out =
      let (missing, input) = lib.not_found 0xaa p.input in
      let start = input.cp - 1 in
      let at : ℕ → Player = λ cp. record p { input = record input { cp = cp } } in
      if missing
      then some (return, record p { input = input }, out)
      else if ltb input.cp (nc input) && not (get_or input.buf input.cp 0 == 0xaa)
      then some (again, record p { input = input }, out)
      else if ltb (nc input) (start + 8)
      then some (return, at (start + 2), out)
      else if ltb (nc input) (start + word_at input.buf (start + 6) + 9)
      then some (return, at (start + 8), out)
      else play (record p { input = input }) out start

  -- behind the loop
  pub after_loop : Player → List Output → Player × List Output
  after_loop p out = (record p { input = lib.consume p.input.cp p.input }, out)

  -- the loop, on fuel: `some none` is that the fuel ran out
  pub input_loop : ℕ → Player → List Output → Option (Option (Player × List Output))
  unfolding turn after_loop
  input_loop zero p out = some none
  input_loop (suc fuel) p out =
      if ltb p.input.cp (nc p.input)
      then (do
        (next, p', out') ← turn p out
        elim next [
          | again ↦ input_loop fuel p' out'
          | leave ↦ some (some (after_loop p' out'))
          | return ↦ some (some (p', out'))
        ])
      else some (some (after_loop p out))

  -- Each turn that is followed by another moves `cp` on.
  pub protocol_input : Player → Option (Option (Player × List Output))
  unfolding input_loop
  protocol_input p = input_loop (suc (nc p.input)) p []
