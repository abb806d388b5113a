-- ===== src/Xiomas/Circ/Commit.antt =====
-- `circ_commit` where the data goes into the buffer in one piece.
use cosmid.Base.{
  ℕ, ◌+◌, ◌-◌, ◌^◌, ◌≤◌, ◌<◌, ◌≡◌, refl, arith, some, List, [], ◌++◌, append-nil, append_assoc, ap,
  length-append, ltb, leb, ◌∷◌, ◌==◌, if◌then◌else◌, length, overwrite, slice, take_all,
  length-overwrite, slice-overwrite_extend, slice-overwrite_after, slice-overwrite_self,
}
use cosmid.Xiomas.Circ.{
  Circ, circ_length, circ_space, restart, tail_space, commit_data, circ_commit,
}
use cosmid.Xiomas.Circ.Inv.{IsValid, contents, circ_length-contents}

-- the bytes that fit at the tail in one piece
abbrev pub room : Circ → ℕ
room c =
    if ltb c.circ_size c.circ_head
    then c.circ_size
    else if leb c.circ_head c.circ_tail
    then c.circ_size - c.circ_tail
    else c.circ_head - c.circ_tail

pub tail_space-restart : {c : Circ} → IsValid c → tail_space (restart c) ≡ room c
unfolding tail_space restart
tail_space-restart v = ground arith

-- the buffer after `bytes` were copied to its tail
abbrev pub extended : Circ → List ℕ → Circ
extended r bytes = record r {
  circ = overwrite r.circ r.circ_tail bytes;
  circ_tail = if r.circ_tail + length bytes == r.circ_size then 0 else r.circ_tail + length bytes;
}

-- what `commit_data` relies on
pub record IsOpen (r : Circ) : Type 0 where
  pub memory : length r.circ ≡ r.circ_size
  pub small : r.circ_size < 2 ^ 31
  pub tail_in : r.circ_tail < r.circ_size
  pub head_in : r.circ_head < r.circ_size

pub restart-IsOpen : {c : Circ} → IsValid c → IsOpen (restart c)
unfolding restart
restart-IsOpen v = ground arith

commit_data-extended :
    {r : Circ} (bytes : List ℕ)
    → IsOpen r
    → length bytes ≤ tail_space r
    → commit_data r bytes ≡ some (extended r bytes)
unfolding commit_data
commit_data-extended {r} bytes o h =
    ground (arith, take_all (length bytes) bytes, take_all (tail_space r) bytes)

extended-IsValid :
    {c : Circ} (bytes : List ℕ)
    → IsValid c
    → length bytes ≤ room c
    → IsValid (extended (restart c) bytes)
unfolding restart
extended-IsValid {c} bytes v h =
    ground (arith, length-overwrite (restart c).circ (restart c).circ_tail bytes)

-- The three shapes of a valid buffer.
contents_empty : (c : Circ) → c.circ_size < c.circ_head → contents c ≡ []
contents_empty c h = ground arith

contents_straight :
    (c : Circ)
    → c.circ_head ≤ c.circ_size
    → c.circ_head < c.circ_tail
    → contents c ≡ slice c.circ c.circ_head (c.circ_tail - c.circ_head)
contents_straight c h k = ground arith

contents_round :
    (c : Circ)
    → c.circ_head ≤ c.circ_size
    → c.circ_tail ≤ c.circ_head
    → contents c
      ≡ slice c.circ c.circ_head (c.circ_size - c.circ_head) ++ slice c.circ 0 c.circ_tail
contents_round c h k = ground arith

module _ (c : Circ) (bytes : List ℕ) (v : IsValid c) (pos : 0 < length bytes) where
  from_empty :
      c.circ_head ≡ c.circ_size + 1
      → length bytes ≤ c.circ_size
      → contents (extended (record c { circ_head = 0; circ_tail = 0 }) bytes) ≡ bytes
  from_empty e h =
      ground (arith, slice-overwrite_self c.circ 0 bytes (omega arith), append-nil bytes)

  from_straight :
      c.circ_head < c.circ_tail
      → length bytes ≤ c.circ_size - c.circ_tail
      → contents (extended c bytes) ≡ contents c ++ bytes
  from_straight lt h = ground (
    arith,
    slice-overwrite_extend c.circ c.circ_tail bytes c.circ_head (c.circ_tail - c.circ_head)
        (length bytes),
    append-nil (contents c ++ bytes),
  )

  from_round :
      c.circ_tail < c.circ_head
      → c.circ_head < c.circ_size
      → length bytes ≤ c.circ_head - c.circ_tail
      → contents (extended c bytes) ≡ contents c ++ bytes
  from_round lt hs h = ground (
    arith,
    slice-overwrite_extend c.circ c.circ_tail bytes 0 c.circ_tail (length bytes),
    slice-overwrite_after c.circ c.circ_tail bytes c.circ_head (c.circ_size - c.circ_head),
    append_assoc (slice c.circ c.circ_head (c.circ_size - c.circ_head)) (slice c.circ 0 c.circ_tail)
        bytes,
  )

-- What `circ_commit` does with `bytes`: it does not abort, it keeps the buffer valid, and it leaves
-- the count of unacknowledged bytes alone.
pub record Committed (c : Circ) (bytes : List ℕ) (c' : Circ) : Type 0 where
  pub returns : circ_commit c bytes ≡ some c'
  pub valid : IsValid c'
  pub same_size : c'.circ_size ≡ c.circ_size
  pub same_outstanding : c'.outstanding_bytes ≡ c.outstanding_bytes

-- the buffer that `circ_commit` leaves when `bytes` fit in one piece
abbrev pub committed : Circ → List ℕ → Circ
committed c [] = c
committed c (b ∷ bytes) = extended (restart c) (b ∷ bytes)

contents-extended :
    {c : Circ} (bytes : List ℕ)
    → IsValid c
    → 0 < length bytes
    → length bytes ≤ room c
    → length bytes ≤ circ_space c
    → contents (extended (restart c) bytes) ≡ contents c ++ bytes
unfolding restart circ_space circ_length
contents-extended {c} bytes v pos h fits = ground (
  arith,
  from_empty c bytes v pos,
  from_straight c bytes v pos,
  from_round c bytes v pos,
  contents_empty c,
)

circ_commit-committed :
    {c : Circ} (bytes : List ℕ)
    → IsValid c
    → length bytes ≤ room c
    → length bytes ≤ circ_space c
    → circ_commit c bytes ≡ some (committed c bytes)
unfolding circ_commit
circ_commit-committed {c} [] v h fits = ground arith
circ_commit-committed {c} (b ∷ bytes) v h fits = ground (
  arith,
  take_all (length (b ∷ bytes)) (b ∷ bytes),
  take_all (circ_space c) (b ∷ bytes),
  commit_data-extended (b ∷ bytes) (restart-IsOpen v),
  tail_space-restart v,
)

pub contents-committed :
    {c : Circ} (bytes : List ℕ)
    → IsValid c
    → length bytes ≤ room c
    → length bytes ≤ circ_space c
    → contents (committed c bytes) ≡ contents c ++ bytes
contents-committed {c} [] v h fits = rw append-nil
contents-committed {c} (b ∷ bytes) v h fits = contents-extended (b ∷ bytes) v (omega arith) h fits

-- In one piece nothing is lost: `circ_commit` does not abort, and appends the bytes.
pub committed-Committed :
    {c : Circ} (bytes : List ℕ)
    → IsValid c
    → length bytes ≤ room c
    → length bytes ≤ circ_space c
    → Committed c bytes (committed c bytes)
unfolding restart
committed-Committed {c} [] v h fits = record {
  returns = circ_commit-committed [] v h fits;
  valid = v;
  same_size = refl;
  same_outstanding = refl;
}
committed-Committed {c} (b ∷ bytes) v h fits = record {
  returns = circ_commit-committed (b ∷ bytes) v h fits;
  valid = extended-IsValid (b ∷ bytes) v h;
  same_size = ground arith;
  same_outstanding = ground arith;
}

-- After a first piece the rest still fits.
pub committed-fits :
    {c : Circ} (first rest : List ℕ)
    → IsValid c
    → length first + length rest ≤ room c
    → length first + length rest ≤ circ_space c
    → (length rest ≤ room (committed c first)) × (length rest ≤ circ_space (committed c first))
unfolding restart
committed-fits [] rest v h fits = omega arith
committed-fits {c} (x ∷ first) rest v h fits =
    let done = committed-Committed (x ∷ first) v (omega arith) (omega arith) in
    (
      ground arith,
      omega (
        arith,
        circ_length-contents v,
        circ_length-contents done.valid,
        done.same_size,
        ap length (contents-committed (x ∷ first) v (omega arith) (omega arith)),
        length-append (contents c) (x ∷ first),
      ),
    )
