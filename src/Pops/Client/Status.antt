-- ===== src/Pops/Client/Status.antt =====
-- `app_input` on the reply that the server beside the instrument sends.
use cosmid.Base.{ℕ, ◌+◌, ◌<◌, ◌≡◌, refl, ap, arith, true, false, Option, some, List, [], ◌∷◌}
use mathlib.Core.Option
use cosmid.Dasio.{Dasio, Input, nc}
use cosmid.Dasio.Scan.{Scanners}
use cosmid.Dasio.Reads.{Reads, Any}
use cosmid.Pops.Client.{
  Client, Effect, is_digit, take_line, after_number, after_newline, input_loop, app_input, answered,
}

-- the end of the input, or a byte that is no digit
abbrev pub NoDigit : List ℕ → Type 0
NoDigit [] = Unit
NoDigit (c ∷ _) = is_digit c ≡ false

-- Documented: `not_str` reads its text, and `not_uint8` a digit with none behind it.
pub record ScansStatus {Float : Type 0} (scanners : Scanners Float) : Type 0 where
  pub str : (s : List ℕ) → Reads Any (scanners.not_str s) s tt
  pub uint8 : (d : ℕ) → d < 10 → Reads NoDigit scanners.not_uint8 ((d + b'0') ∷ []) d

-- what the client knows behind a reply
abbrev pub knows : Client → ℕ → Client
knows c d = record c { srvr = d; timer = false; srvr_stale = 0 }

module _ {Float : Type 0} (lib : Dasio) (scanners : Scanners Float)
    (law : ScansStatus scanners) where
  take_line-digit :
      (c : Client) (d : ℕ)
      → d < 10
      → take_line lib scanners c (record { buf = (d + b'0') ∷ b'\n' ∷ []; cp = 0 })
        ≡ (record c { srvr = d }, [], record { buf = (d + b'0') ∷ b'\n' ∷ []; cp = 2 })
  unfolding take_line after_number after_newline
  take_line-digit c d h =
      let i : Input = record { buf = (d + b'0') ∷ b'\n' ∷ []; cp = 0 } in
      let digit : is_digit (d + b'0') ≡ true = ground (arith, h) in
      let number = law.uint8 d h i (b'\n' ∷ []) refl refl in
      let newline = law.str (b'\n' ∷ []) (record i { cp = 1 }) [] tt refl in
      rw (digit, number, newline) refl

  pub app_input-digit :
      (c : Client) (d : ℕ)
      → d < 10
      → app_input lib scanners c (record { buf = (d + b'0') ∷ b'\n' ∷ []; cp = 0 })
        ≡ some (knows c d, [], lib.report_ok 2 (record { buf = (d + b'0') ∷ b'\n' ∷ []; cp = 2 }))
  unfolding app_input input_loop answered
  app_input-digit c d h =
      let go : Client × List Effect × Input → Option (Client × List Effect × Input) =
        λ (c', effects, i').
          Option.map (λ (c'', out, j). (answered lib scanners c'', out, lib.report_ok (nc j) j))
            (input_loop lib scanners 2 c' effects i') in
      ap go (take_line-digit c d h)
