-- ===== src/Xiomas/Circ/Tests.antt =====
-- The circular buffer on concrete inputs.
use cosmid.Base.{ℕ, ◌+◌, ◌*◌, ◌≤◌, ◌≡◌, ◌↔◌, ◌⊎◌, refl, arith, some, List, [], ◌∷◌, take}
use cosmid.Xiomas.Circ.{Circ, circ_length, circ_space, circ_commit, circ_transmit}
use cosmid.Xiomas.Circ.Inv.{IsValid, contents, circ_length-contents}
use cosmid.Xiomas.Circ.Commit.{room, Committed}
use cosmid.Xiomas.Circ.Wrap.{circ_commit_exact, circ_commit_safe}
use cosmid.Xiomas.Circ.Transmit.{Transmitted, circ_transmit_lem}

-- eight bytes of memory that hold 3, 4 at the indices 3 and 4
abbrev two_held : Circ
two_held = record {
  circ = 0 ∷ 0 ∷ 0 ∷ 3 ∷ 4 ∷ 0 ∷ 0 ∷ 0 ∷ [];
  circ_size = 8;
  circ_head = 3;
  circ_tail = 5;
  outstanding_bytes = 0;
}

two_held-IsValid : IsValid two_held
two_held-IsValid = omega arith

-- Four bytes: three to the end, one at the front. The tail is left at 3, the head: the buffer now
-- counts as full.
loses_track :
    circ_commit two_held (5 ∷ 6 ∷ 7 ∷ 8 ∷ [])
    ≡ some (record two_held { circ = 8 ∷ 0 ∷ 0 ∷ 3 ∷ 4 ∷ 5 ∷ 6 ∷ 7 ∷ []; circ_tail = 3 })
unfolding circ_commit circ_length
loses_track = refl

-- the bytes 7 at the end and 8 at the front, read in two spans
abbrev round_held : Circ
round_held = record two_held {
  circ = 8 ∷ 0 ∷ 0 ∷ 0 ∷ 0 ∷ 0 ∷ 0 ∷ 7 ∷ [];
  circ_head = 7;
  circ_tail = 1;
}

transmits_round :
    circ_transmit round_held 2
    ≡ some (
      record round_held { circ_head = 9; circ_tail = 1; outstanding_bytes = 2 },
      (7 ∷ []) ∷ (8 ∷ []) ∷ [],
    )
unfolding circ_transmit
transmits_round = refl

circ_length-contents_example :
    (circ_length two_held ≡ 2) × (circ_space two_held + circ_length two_held ≡ 8)
circ_length-contents_example = circ_length-contents two_held-IsValid

circ_commit_exact_example :
    (c' : Circ) × Committed two_held (5 ∷ 6 ∷ 7 ∷ 8 ∷ []) c'
    × ((contents c' ≡ 3 ∷ 4 ∷ 5 ∷ 6 ∷ 7 ∷ 8 ∷ []) ↔ ((4 ≤ 3) ⊎ (4 ≡ 2 * room two_held)))
unfolding circ_length
circ_commit_exact_example =
    circ_commit_exact (5 ∷ 6 ∷ 7 ∷ 8 ∷ []) two_held-IsValid (unfold circ_space in omega arith)

circ_commit_safe_example :
    (c' : Circ) × Committed two_held (5 ∷ 6 ∷ 7 ∷ 8 ∷ []) c'
    × (circ_commit two_held (5 ∷ 6 ∷ 7 ∷ 8 ∷ [])
        ≡ circ_commit two_held (take (circ_space two_held) (5 ∷ 6 ∷ 7 ∷ 8 ∷ [])))
circ_commit_safe_example = circ_commit_safe (5 ∷ 6 ∷ 7 ∷ 8 ∷ []) two_held-IsValid

circ_transmit_lem_example :
    (c' : Circ) × (spans : List (List ℕ)) × (circ_transmit two_held 1 ≡ some (c', spans))
    × Transmitted two_held 1 c' spans
unfolding circ_length
circ_transmit_lem_example = circ_transmit_lem 1 two_held-IsValid (omega arith)
