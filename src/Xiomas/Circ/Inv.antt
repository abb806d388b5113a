-- ===== src/Xiomas/Circ/Inv.antt =====
-- The circular buffer's representation: what the indices may be, and the bytes that they stand for.
use cosmid.Base.{
  ℕ, ◌+◌, ◌-◌, ◌^◌, ◌≤◌, ◌<◌, ◌≡◌, ◌⊎◌, refl, arith, List, [], ◌++◌, ltb, if◌then◌else◌, length,
  slice, length-slice, length-append,
}
use cosmid.Xiomas.Circ.{Circ, circ_buffer_size, new, circ_length, circ_space, circ_head_bytes}

pub record IsValid (c : Circ) : Type 0 where
  pub memory : length c.circ ≡ c.circ_size
  pub small : c.circ_size < 2 ^ 31
  pub tail_in : c.circ_tail < c.circ_size
  pub head_in : (c.circ_head < c.circ_size) ⊎ (c.circ_head ≡ c.circ_size + 1)
  pub counted : c.outstanding_bytes < 2 ^ 32

-- the bytes from the head to the tail, round the end of the buffer
abbrev pub contents : Circ → List ℕ
contents c =
    if ltb c.circ_size c.circ_head
    then []
    else if ltb c.circ_head c.circ_tail
    then slice c.circ c.circ_head (c.circ_tail - c.circ_head)
    else slice c.circ c.circ_head (c.circ_size - c.circ_head) ++ slice c.circ 0 c.circ_tail

-- the bytes at the head that can be written in one piece
abbrev pub contiguous : Circ → ℕ
contiguous c =
    if ltb c.circ_size c.circ_head
    then 0
    else if ltb c.circ_head c.circ_tail
    then c.circ_tail - c.circ_head
    else c.circ_size - c.circ_head

-- A new buffer over 270000 bytes of memory is valid and holds nothing.
pub new-IsValid :
    (memory : List ℕ)
    → length memory ≡ circ_buffer_size
    → IsValid (new memory) × (contents (new memory) ≡ [])
unfolding new
new-IsValid memory e = (omega arith, refl)

pub outstanding-new : (memory : List ℕ) → (new memory).outstanding_bytes ≡ 0
unfolding new
outstanding-new memory = refl

-- `circ_length` is the number of bytes held, and `circ_space` what is left of the buffer: neither
-- subtraction wraps in a valid buffer.
pub circ_length-contents :
    {c : Circ}
    → IsValid c
    → (circ_length c ≡ length (contents c)) × (circ_space c + circ_length c ≡ c.circ_size)
unfolding circ_length circ_space
circ_length-contents {c} v = ground (
  arith,
  length-slice c.circ c.circ_head (c.circ_tail - c.circ_head),
  length-slice c.circ c.circ_head (c.circ_size - c.circ_head),
  length-slice c.circ 0 c.circ_tail,
  length-append (slice c.circ c.circ_head (c.circ_size - c.circ_head)) (slice c.circ 0 c.circ_tail),
)

pub contiguous-le-length : {c : Circ} → IsValid c → contiguous c ≤ circ_length c
unfolding circ_length
contiguous-le-length v = ground arith

-- The comment of `circ_head_bytes` promises the number of contiguous bytes at the head. That is what
-- it returns unless the tail lies past the head; then the subtraction wraps, and the result exceeds
-- the size of the whole buffer.
pub circ_head_bytes_cases :
    {c : Circ}
    → IsValid c
    → ((c.circ_head < c.circ_tail) × (c.circ_size < circ_head_bytes c))
      ⊎ ((c.circ_tail ≤ c.circ_head) × (circ_head_bytes c ≡ contiguous c))
unfolding circ_head_bytes
circ_head_bytes_cases v = ground arith
