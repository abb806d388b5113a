-- ===== src/Nephex/Apid.antt =====
-- Nephex/nephex_export.h and .cc, class APid: the table of the application IDs, with their packet
-- sizes, and the decimation of what is transmitted. `mnc` and `period` are stored and never read,
-- and left out. An access out of the table's range is `none`.
pub mod Decimation
mod Reports
mod Tests
use cosmid.Base.{
  ℕ, zero, suc, ◌-◌, Bool, true, false, not, ◌||◌, Option, none, some, List, [], ◌∷◌, ltb, leb,
  ◌==◌, if◌then◌else◌, ◌>>=◌, ◌>>◌, nl_assert, get_or, set, sub16,
}

pub record Entry : Type 0 where
  pub size : ℕ
  pub decimation_rate : ℕ
  pub n_to_skip : ℕ
  pub reported : ℕ

abbrev pub max_apid : ℕ
max_apid = 151

-- an entry that is only read where the index is out of range, which the callers exclude
abbrev pub blank : Entry
blank = record { size = 0; decimation_rate = 0; n_to_skip = 0; reported = 0 }

abbrev pub entry : List Entry → ℕ → Entry
entry defs apid = get_or defs apid blank

pub def : List Entry → ℕ → ℕ → ℕ → Option (List Entry)
def defs apid size dec = do
  nl_assert (leb apid max_apid)
  some (
      set defs apid (record {
        size = size;
        decimation_rate = dec;
        n_to_skip = if dec == 0 then 0 else 1;
        reported = 0;
      }))

-- the calls of `def` in the constructor behind its loop: APID, size and decimation rate
abbrev pub known : List (ℕ × ℕ × ℕ)
known =
    (1, 28, 20)
    ∷ (2, 36, 10)
    ∷ (3, 88, 20)
    ∷ (4, 20, 20)
    ∷ (5, 20, 4)
    ∷ (6, 96, 0)
    ∷ (7, 36, 0)
    ∷ (8, 80, 20)
    ∷ (132, 36, 0)
    ∷ (133, 12, 20)
    ∷ (134, 4, 0)
    ∷ (135, 8, 20)
    ∷ (136, 32, 20)
    ∷ (137, 12, 20)
    ∷ (138, 8, 0)
    ∷ (139, 8, 0)
    ∷ (140, 208, 0)
    ∷ (141, 72, 0)
    ∷ (142, 24, 0)
    ∷ (143, 4, 1)
    ∷ (144, 12, 0)
    ∷ (145, 44, 0)
    ∷ (146, 44, 0)
    ∷ (147, 80, 0)
    ∷ (148, 80, 0)
    ∷ (149, 208, 4)
    ∷ (150, 204, 4)
    ∷ (151, 204, 4)
    ∷ []

pub def_all : List Entry → List (ℕ × ℕ × ℕ) → Option (List Entry)
unfolding def
def_all defs [] = some defs
def_all defs ((apid, size, dec) ∷ rest) = do defs' ← def defs apid size dec; def_all defs' rest

-- the constructor's loop, for the APIDs below `n`
pub undef_below : ℕ → List Entry → Option (List Entry)
unfolding def
undef_below zero defs = some defs
undef_below (suc n) defs = do defs' ← undef_below n defs; def defs' n 0 0

-- the constructor, on an array of any content
unfoldable pub new : List Entry → Option (List Entry)
unfolding undef_below def_all
new defs = do defs' ← undef_below (suc max_apid) defs; def_all defs' known

unfoldable pub get_size : List Entry → ℕ → ℕ
get_size defs apid = if ltb max_apid apid then 0 else (entry defs apid).size

-- `--n_to_skip` wraps on 16 bits.
unfoldable pub ok_to_transmit : List Entry → ℕ → Bool × List Entry
ok_to_transmit defs apid =
    let e = entry defs apid in
    let skip = sub16 e.n_to_skip 1 in
    if ltb max_apid apid
    then (false, defs)
    else if e.size == 0 || e.decimation_rate == 0
    then (false, defs)
    else if skip == 0
    then (true, set defs apid (record e { n_to_skip = e.decimation_rate }))
    else (false, set defs apid (record e { n_to_skip = skip }))

-- no test of the index: one above the table's is read out of bounds
unfoldable pub not_reported : List Entry → ℕ → Option (Bool × List Entry)
not_reported defs apid =
    let e = entry defs apid in
    if ltb max_apid apid
    then none
    else if not (e.reported == 0)
    then some (false, defs)
    else some (true, set defs apid (record e { reported = 1 }))
