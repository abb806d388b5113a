-- ===== src/Xiomas/Circ/Wrap.antt =====
-- `circ_commit` where the data goes round the end of the buffer, and when it stores it faithfully.
use cosmid.Base.{
  ℕ, ◌+◌, ◌-◌, ◌*◌, ◌≤◌, ◌<◌, ◌≡◌, ◌↔◌, ◌⊎◌, inl, inr, refl, ap, ◌∙◌, arith, some, List, ◌++◌,
  append_assoc, length, take, drop, overwrite, slice, take_all, length-take, length-drop,
  length-overwrite, length-append, take-append-drop, slice-overwrite_extend, slice-overwrite_after,
  slice-overwrite_self,
}
use native.Mathlib.Decide.{dec_le}
use cosmid.Xiomas.Circ.{
  Circ, circ_length, circ_space, restart, tail_space, commit_data, circ_commit,
}
use cosmid.Xiomas.Circ.Inv.{IsValid, contents, circ_length-contents}
use cosmid.Xiomas.Circ.Commit.{room, Committed, committed, committed-Committed, contents-committed}

-- the buffer that `circ_commit` leaves when `bytes` go round the end
abbrev wrapped : Circ → List ℕ → Circ
wrapped c bytes = record c {
  circ = overwrite (overwrite c.circ c.circ_tail (take (room c) bytes)) 0 (drop (room c) bytes);
  circ_tail = room c;
}

module _ (c : Circ) (bytes : List ℕ) (v : IsValid c) (over : room c < length bytes)
    (fits : length bytes ≤ circ_space c) where
  -- Only a buffer whose data lies between head and tail goes round.
  wraps :
      (c.circ_head < c.circ_tail)
      × (0 < c.circ_head)
      × (length bytes ≤ c.circ_size - c.circ_tail + c.circ_head)
  unfolding circ_space circ_length
  wraps = ground arith

  room-wraps : room c ≡ c.circ_size - c.circ_tail
  room-wraps = ground (arith, wraps)

  restart-wraps : restart c ≡ c
  unfolding restart
  restart-wraps = ground (arith, wraps)

  tail_space-wraps : tail_space c ≡ room c
  unfolding tail_space
  tail_space-wraps = ground (arith, wraps)

  commit_data-wrapped : commit_data c bytes ≡ some (wrapped c bytes)
  unfolding commit_data
  commit_data-wrapped = ground (
    arith,
    wraps,
    room-wraps,
    tail_space-wraps,
    length-take (room c) bytes,
    length-drop (room c) bytes,
    length-overwrite c.circ c.circ_tail (take (room c) bytes),
  )

  circ_commit-wrapped : circ_commit c bytes ≡ some (wrapped c bytes)
  unfolding circ_commit
  circ_commit-wrapped = ground (
    arith,
    wraps,
    restart-wraps,
    commit_data-wrapped,
    take_all (length bytes) bytes,
    take_all (circ_space c) bytes,
  )

  wrapped-Committed : Committed c bytes (wrapped c bytes)
  wrapped-Committed = record {
    returns = circ_commit-wrapped;
    valid = ground (
      arith,
      wraps,
      room-wraps,
      length-overwrite c.circ c.circ_tail (take (room c) bytes),
      length-overwrite (overwrite c.circ c.circ_tail (take (room c) bytes)) 0 (drop (room c) bytes),
    );
    same_size = refl;
    same_outstanding = refl;
  }

  -- The tail is advanced by the length of the first copy, so the count comes out right only if the
  -- two copies are of one length.
  length-wrapped :
      circ_length (wrapped c bytes) ≡ circ_length c + length bytes → length bytes ≡ 2 * room c
  unfolding circ_length
  length-wrapped e = ground (arith, wraps, room-wraps)

  contents-wrapped : length bytes ≡ 2 * room c → contents (wrapped c bytes) ≡ contents c ++ bytes
  contents-wrapped e = ground (
    arith,
    wraps,
    room-wraps,
    length-take (room c) bytes,
    length-drop (room c) bytes,
    length-overwrite c.circ c.circ_tail (take (room c) bytes),
    slice-overwrite_after (overwrite c.circ c.circ_tail (take (room c) bytes)) 0
        (drop (room c) bytes) c.circ_head (c.circ_size - c.circ_head),
    slice-overwrite_extend c.circ c.circ_tail (take (room c) bytes) c.circ_head
        (c.circ_tail - c.circ_head) (room c),
    slice-overwrite_self (overwrite c.circ c.circ_tail (take (room c) bytes)) 0
        (drop (room c) bytes),
    append_assoc (slice c.circ c.circ_head (c.circ_tail - c.circ_head)) (take (room c) bytes)
        (drop (room c) bytes),
    take-append-drop (room c) bytes,
  )

  contents-wrapped_iff :
      (contents (wrapped c bytes) ≡ contents c ++ bytes) ↔ (length bytes ≡ 2 * room c)
  contents-wrapped_iff = (
    λ e. length-wrapped (
        omega (
          arith,
          (circ_length-contents wrapped-Committed.valid).0,
          (circ_length-contents v).0,
          ap length e,
          length-append (contents c) bytes,
        )),
    contents-wrapped,
  )

-- In a valid buffer with room for the bytes, `circ_commit` does not abort and keeps the buffer valid,
-- but it appends exactly those bytes if and only if they fit at the tail in one piece or the part
-- that goes round the end is as long as the part before it.
pub circ_commit_exact :
    {c : Circ} (bytes : List ℕ)
    → IsValid c
    → length bytes ≤ circ_space c
    → (c' : Circ) × Committed c bytes c'
      × ((contents c' ≡ contents c ++ bytes)
          ↔ ((length bytes ≤ room c) ⊎ (length bytes ≡ 2 * room c)))
circ_commit_exact {c} bytes v fits = elim (dec_le (length bytes) (room c)) [
  | yes h ↦ (
    committed c bytes,
    committed-Committed bytes v h fits,
    (λ _. inl h, λ _. contents-committed bytes v h fits),
  )
  | no h ↦
      let over : room c < length bytes = omega arith in
      (
        wrapped c bytes,
        wrapped-Committed c bytes v over fits,
        (
          λ e. inr ((contents-wrapped_iff c bytes v over fits).0 e),
          λ d. (contents-wrapped_iff c bytes v over fits).1 (omega arith),
        ),
      )
]

-- What does not fit is cut off.
circ_commit-take :
    (c : Circ) (bytes : List ℕ) → circ_commit c bytes ≡ circ_commit c (take (circ_space c) bytes)
unfolding circ_commit
circ_commit-take c bytes = elim (dec_le (length bytes) (circ_space c)) [
  | yes h ↦ rw (take_all (circ_space c) bytes h)
  | no h ↦
      ground (
        arith,
        length-take (circ_space c) bytes,
        take_all (circ_space c) (take (circ_space c) bytes),
      )
]

-- Whatever it is given, `circ_commit` on a valid buffer does not abort, keeps the buffer valid and
-- the count of unacknowledged bytes as it was, and treats bytes that do not fit as their longest
-- prefix that does.
pub circ_commit_safe :
    {c : Circ} (bytes : List ℕ)
    → IsValid c
    → (c' : Circ) × Committed c bytes c'
      × (circ_commit c bytes ≡ circ_commit c (take (circ_space c) bytes))
circ_commit_safe {c} bytes v =
    let (c', done, _) =
      circ_commit_exact (take (circ_space c) bytes) v
        (omega (arith, length-take (circ_space c) bytes)) in
    (
      c',
      record {
        returns = circ_commit-take c bytes ∙ done.returns;
        valid = done.valid;
        same_size = done.same_size;
        same_outstanding = done.same_outstanding;
      },
      circ_commit-take c bytes,
    )
