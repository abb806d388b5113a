-- ===== src/Dasio.antt =====
-- What the drivers use of the library monarch/dasio, which is not in this repository: an interface's
-- input buffer, and the operations on it. `nc` is the number of bytes in the buffer, and `cp` the
-- index of the next one to look at.
pub mod Scan
pub mod Reads
pub mod Decimal
pub mod Sample
use cosmid.Base.{ℕ, ◌+◌, ◌-◌, ◌≤◌, ◌<◌, ◌≡◌, Bool, true, false, List, length, get_or}

pub record Input : Type 0 where
  pub buf : List ℕ
  pub cp : ℕ

abbrev pub nc : Input → ℕ
nc i = length i.buf

pub record Dasio : Type 0 where
  pub not_found : ℕ → Input → Bool × Input  -- true: the byte was not found
  pub consume : ℕ → Input → Input
  pub report_ok : ℕ → Input → Input

-- Documented: `not_found` looks for the byte from `cp` on, and leaves `cp` just past it, or at the
-- end of the input if there is none. It does not change the input.
pub record Finds (lib : Dasio) : Type 0 where
  pub same_input : (c : ℕ) (i : Input) → (lib.not_found c i).1.buf ≡ i.buf
  pub found :
      (c : ℕ) (i : Input)
      → (lib.not_found c i).0 ≡ false
      → (i.cp < (lib.not_found c i).1.cp)
        × ((lib.not_found c i).1.cp ≤ nc i)
        × (get_or i.buf ((lib.not_found c i).1.cp - 1) 0 ≡ c)
  pub missing : (c : ℕ) (i : Input) → (lib.not_found c i).0 ≡ true → (lib.not_found c i).1.cp ≡ nc i

-- Documented as well: a byte that stands at `cp` is the one found.
abbrev pub FindsNext : Dasio → Type 0
FindsNext lib =
    (c : ℕ) (i : Input)
    → i.cp < nc i
    → get_or i.buf i.cp 0 ≡ c
    → lib.not_found c i ≡ (false, record i { cp = i.cp + 1 })
