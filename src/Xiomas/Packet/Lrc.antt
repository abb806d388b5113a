-- ===== src/Xiomas/Packet/Lrc.antt =====
-- `xhgCalculateLRC`: the check byte against the sum of the header's bytes.
use cosmid.Base.{
  sum, ℕ, suc, zero, ◌+◌, ◌%◌, ◌<◌, ◌≡◌, ◌≢◌, ◌↔◌, refl, ap, List, [], ◌∷◌, arith, length, get_or,
  set,
}
use cosmid.Xiomas.Packet.{Header, header_bytes, lrc_loop, calculate_lrc}

lrc_loop_lem : (acc : ℕ) (bs : List ℕ) → lrc_loop (acc % 256) bs ≡ (acc + sum bs) % 256
unfolding lrc_loop
lrc_loop_lem acc [] = omega arith
lrc_loop_lem acc (b ∷ bs) = omega (arith, lrc_loop_lem (acc % 256 + b) bs)

-- The check byte is the ones' complement of the byte sum modulo 256, as the comment of the function
-- says, and it is 0 exactly when the sum is 255 modulo 256.
pub calculate_lrc_lem :
    (h : Header)
    → (calculate_lrc h + sum (header_bytes h) % 256 ≡ 255)
      × ((calculate_lrc h ≡ 0) ↔ (sum (header_bytes h) % 256 ≡ 255))
unfolding calculate_lrc
calculate_lrc_lem h = omega (arith, lrc_loop_lem 0 (header_bytes h))

length-header_bytes : (h : Header) → length (header_bytes h) ≡ 16
unfolding header_bytes
length-header_bytes h = refl

sum-set : (xs : List ℕ) (i v : ℕ) → i < length xs → sum (set xs i v) + get_or xs i 0 ≡ sum xs + v
sum-set [] i v h = absurd (omega arith)
sum-set (x ∷ xs) zero v h = omega arith
sum-set (x ∷ xs) (suc i) v h = omega (arith, sum-set xs i v (omega arith))

-- If the check byte of a header comes out as 0 and another header differs from it in exactly one
-- byte, then the check byte of the other does not: any single corrupted byte is detected.
pub calculate_lrc_detects :
    (h h' : Header) (i v : ℕ)
    → i < 16
    → v < 256
    → get_or (header_bytes h) i 0 < 256
    → v ≢ get_or (header_bytes h) i 0
    → header_bytes h' ≡ set (header_bytes h) i v
    → calculate_lrc h ≡ 0
    → calculate_lrc h' ≢ 0
calculate_lrc_detects h h' i v hi hv hb ne e ok bad = omega (
  arith,
  sum-set (header_bytes h) i v (omega (arith, length-header_bytes h)),
  ap sum e,
  (calculate_lrc_lem h).1.0 ok,
  (calculate_lrc_lem h').1.0 bad,
)
