-- ===== src/Nephex/Apid/Tests.antt =====
-- The table on concrete inputs.
use cosmid.Base.{
  ℕ, zero, suc, ◌*◌, ◌≤◌, ◌<◌, ◌≡◌, ◌↔◌, refl, arith, true, false, some, none, List, [], ◌∷◌,
}
use cosmid.Nephex.Apid.{Entry, blank, new, get_size, ok_to_transmit, not_reported}
use cosmid.Nephex.Apid.Decimation.{after, ok_to_transmit-in_turn}
use cosmid.Nephex.Apid.Reports.{not_reported_once}

abbrev pub blanks : ℕ → List Entry
blanks zero = []
blanks (suc n) = blank ∷ blanks n

-- the table that the constructor builds
abbrev table : List Entry
table = elim (new (blanks 152)) [ none ↦ [] | some t ↦ t ]

sizes : get_size table 151 ≡ 204
unfolding new get_size
sizes = refl

ok_to_transmit-in_turn_example :
    ((ok_to_transmit (after table (5 ∷ 1 ∷ 5 ∷ 5 ∷ 5 ∷ [])) 5).0 ≡ true)
    ↔ ((rounds : ℕ) × (4 ≡ rounds * 4))
unfolding new
ok_to_transmit-in_turn_example =
    ok_to_transmit-in_turn table (5 ∷ 1 ∷ 5 ∷ 5 ∷ 5 ∷ []) 5 19 3 (omega arith) (omega arith) refl
      (omega arith)

not_reported_once_example :
    (5 ≤ 151
      → (defs' : List Entry) × (not_reported table 5 ≡ some (true, defs'))
        × (not_reported defs' 5 ≡ some (false, defs')))
    × (151 < 5 → not_reported table 5 ≡ none)
unfolding new
not_reported_once_example = not_reported_once table 5 (omega arith) refl
