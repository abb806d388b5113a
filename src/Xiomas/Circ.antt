-- ===== src/Xiomas/Circ.antt =====
-- Xiomas/xiomas_export.h and .cc, class xiomas_tcp_export: the circular buffer of bytes that wait
-- for tm_ip_export. `circ_head` past `circ_size` marks the empty buffer. `none` is an abort: a
-- failed `nl_assert` or an access outside the buffer's memory.
pub mod Inv
pub mod Commit
pub mod Wrap
pub mod Transmit
mod Tests
use cosmid.Base.{
  ℕ, zero, suc, ◌+◌, ◌-◌, Bool, true, false, ◌&&◌, Option, none, some, List, [], ◌∷◌, ◌++◌, ltb,
  leb, ◌==◌, if◌then◌else◌, ◌>>=◌, ◌>>◌, nl_assert, length, take, drop, memcpy, read_span, add32,
  sub32,
}

pub record Circ : Type 0 where
  pub circ : List ℕ
  pub circ_size : ℕ
  pub circ_head : ℕ
  pub circ_tail : ℕ
  pub outstanding_bytes : ℕ

-- `CIRC_BUFFER_SIZE`
abbrev pub circ_buffer_size : ℕ
circ_buffer_size = 270000

-- the constructor, over the memory that `new_memory` returns
pub new : List ℕ → Circ
new memory = record {
  circ = memory;
  circ_size = circ_buffer_size;
  circ_head = circ_buffer_size + 1;
  circ_tail = 0;
  outstanding_bytes = 0;
}

unfoldable pub circ_length : Circ → ℕ
circ_length c =
    if ltb c.circ_size c.circ_head
    then 0
    else if ltb c.circ_head c.circ_tail
    then sub32 c.circ_tail c.circ_head
    else add32 (sub32 c.circ_size c.circ_head) c.circ_tail

unfoldable pub circ_space : Circ → ℕ
circ_space c = sub32 c.circ_size (circ_length c)

-- `circ_commit` once it is known that there is room: an empty buffer starts again at 0
pub restart : Circ → Circ
restart c = if ltb c.circ_size c.circ_head then record c { circ_head = 0; circ_tail = 0 } else c

-- the bytes that can be copied at the tail in one piece
pub tail_space : Circ → ℕ
tail_space c =
    if leb c.circ_head c.circ_tail
    then sub32 c.circ_size c.circ_tail
    else sub32 c.circ_head c.circ_tail

-- the second copy, of what is left in `bytes` after `copied` bytes went to the end of the buffer; the
-- code adds `tail_space`, the length of the first copy, to the tail
commit_rest : Circ → ℕ → List ℕ → Option Circ
commit_rest c copied bytes = do
  nl_assert (c.circ_tail == 0 && leb (length bytes) c.circ_head)
  memory ← memcpy c.circ c.circ_tail bytes
  some (record c { circ = memory; circ_tail = add32 c.circ_tail copied })

-- the two copies of `circ_commit`, of `bytes` that fits
pub commit_data : Circ → List ℕ → Option Circ
unfolding tail_space commit_rest
commit_data c bytes =
    let copied = if ltb (length bytes) (tail_space c) then length bytes else tail_space c in
    do
      memory ← memcpy c.circ c.circ_tail (take copied bytes)
      let tail = add32 c.circ_tail copied
      nl_assert (leb tail c.circ_size)
      let c' = record c { circ = memory; circ_tail = if tail == c.circ_size then 0 else tail }
      if length bytes - copied == 0 then some c' else commit_rest c' copied (drop copied bytes)

-- `circ_commit`: data that does not fit is cut off, with an error in the log
pub circ_commit : Circ → List ℕ → Option Circ
unfolding circ_space restart commit_data
circ_commit c bytes =
    let n_bytes = if ltb (circ_space c) (length bytes) then circ_space c else length bytes in
    if n_bytes == 0 then some c else commit_data (restart c) (take n_bytes bytes)

-- as the code has it, with the subtraction of the larger index from the smaller one
pub circ_head_bytes : Circ → ℕ
circ_head_bytes c =
    if ltb c.circ_size c.circ_head
    then 0
    else if ltb c.circ_head c.circ_tail
    then sub32 c.circ_head c.circ_tail
    else sub32 c.circ_size c.circ_head

pub circ_consume : Circ → ℕ → Option Circ
unfolding circ_head_bytes
circ_consume c n_bytes = do
  nl_assert (leb n_bytes (circ_head_bytes c))
  let head = add32 c.circ_head n_bytes
  let head' = if head == c.circ_size then 0 else head
  let head'' = if head' == c.circ_tail then c.circ_size + 1 else head'
  some (record c { circ_head = head''; outstanding_bytes = add32 c.outstanding_bytes n_bytes })

-- the loop of `circ_transmit` on fuel; the list holds the spans handed to `iwrite`, oldest first
transmit_loop : ℕ → Circ → ℕ → List (List ℕ) → Option (Circ × List (List ℕ))
transmit_loop zero c n_bytes written = none
transmit_loop (suc fuel) c n_bytes written = if n_bytes == 0 then some (c, written) else do
  let txmit_bytes = circ_head_bytes c
  nl_assert (ltb 0 txmit_bytes)
  let txmit_bytes' = if ltb n_bytes txmit_bytes then n_bytes else txmit_bytes
  span ← read_span c.circ c.circ_head txmit_bytes'
  c' ← circ_consume c txmit_bytes'
  transmit_loop fuel c' (n_bytes - txmit_bytes') (written ++ span ∷ [])

-- Every round writes at least a byte, so `n_bytes` + 1 rounds are enough.
unfoldable pub circ_transmit : Circ → ℕ → Option (Circ × List (List ℕ))
unfolding transmit_loop circ_head_bytes circ_consume
circ_transmit c n_bytes = transmit_loop (suc n_bytes) c n_bytes []
