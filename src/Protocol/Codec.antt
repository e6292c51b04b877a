-- ===== src/Protocol/Codec.antt =====
-- airusb/protocol/Codec: little-endian loads and stores, and the message bodies in the children.
--
-- A buffer is a list of bytes, and a pointer into it an offset. A load is made at offsets that the
-- caller has checked; outside the buffer it answers 0.
pub mod Headers
pub mod Transfers
pub mod Sessions
pub mod Tlvs
mod Examples
use airusb_hub.Base.{
  ℕ, zero, suc, ap, refl, drop, ◌+◌, ◌*◌, ◌/◌, ◌%◌, ◌^◌, ◌<◌, ◌≡◌, List, [], ◌∷◌, arith, bit_or,
  get_or, set, IsByte, IsU16, IsU32, IsU64, length, replicate,
}
use airusb_hub.Base.Bits.{bit_or_shifted}

-- The integers that bytes in order stand for, written as the source writes them.
unfoldable pub u16_of : ℕ → ℕ → ℕ
u16_of b0 b1 = bit_or b0 (b1 * 2 ^ 8 % 2 ^ 16)

unfoldable pub u32_of : ℕ → ℕ → ℕ → ℕ → ℕ
u32_of b0 b1 b2 b3 = bit_or (bit_or (bit_or b0 (b1 * 2 ^ 8)) (b2 * 2 ^ 16)) (b3 * 2 ^ 24)

unfoldable pub u64_of : ℕ → ℕ → ℕ
u64_of lo hi = bit_or lo (hi * 2 ^ 32)

abbrev pub rd_u8 : List ℕ → ℕ → ℕ
rd_u8 p off = get_or p off 0

abbrev pub rd_u16 : List ℕ → ℕ → ℕ
rd_u16 p off = u16_of (get_or p off 0) (get_or p (off + 1) 0)

abbrev pub rd_u32 : List ℕ → ℕ → ℕ
rd_u32 p off =
    u32_of (get_or p off 0) (get_or p (off + 1) 0) (get_or p (off + 2) 0) (get_or p (off + 3) 0)

abbrev pub rd_u64 : List ℕ → ℕ → ℕ
rd_u64 p off = u64_of (rd_u32 p off) (rd_u32 p (off + 4))

abbrev pub wr_u8 : List ℕ → ℕ → ℕ → List ℕ
wr_u8 p off v = set p off v

abbrev pub wr_u16 : List ℕ → ℕ → ℕ → List ℕ
wr_u16 p off v = set (set p off (v % 2 ^ 8)) (off + 1) (v / 2 ^ 8 % 2 ^ 8)

abbrev pub wr_u32 : List ℕ → ℕ → ℕ → List ℕ
wr_u32 p off v =
    set
      (set (set (set p off (v % 2 ^ 8)) (off + 1) (v / 2 ^ 8 % 2 ^ 8)) (off + 2)
        (v / 2 ^ 16 % 2 ^ 8))
      (off + 3) (v / 2 ^ 24 % 2 ^ 8)

abbrev pub wr_u64 : List ℕ → ℕ → ℕ → List ℕ
wr_u64 p off v = wr_u32 (wr_u32 p off (v % 2 ^ 32)) (off + 4) (v / 2 ^ 32 % 2 ^ 32)

-- What a store leaves, a load reads back.
pub u16_of-bytes : (v : ℕ) → IsU16 v → u16_of (v % 2 ^ 8) (v / 2 ^ 8 % 2 ^ 8) ≡ v
unfolding u16_of
u16_of-bytes v h =
    let fits : v / 2 ^ 8 % 2 ^ 8 * 2 ^ 8 % 2 ^ 16 ≡ v / 2 ^ 8 % 2 ^ 8 * 2 ^ 8 = omega arith in
    rw (fits, bit_or_shifted 8 (v % 2 ^ 8) (v / 2 ^ 8 % 2 ^ 8) (omega arith)) (omega arith)

pub u32_of-bytes :
    (v : ℕ)
    → IsU32 v
    → u32_of (v % 2 ^ 8) (v / 2 ^ 8 % 2 ^ 8) (v / 2 ^ 16 % 2 ^ 8) (v / 2 ^ 24 % 2 ^ 8) ≡ v
unfolding u32_of
u32_of-bytes v h =
    rw
      (
        bit_or_shifted 8 (v % 2 ^ 8) (v / 2 ^ 8 % 2 ^ 8) (omega arith),
        bit_or_shifted 16 (v % 2 ^ 8 + v / 2 ^ 8 % 2 ^ 8 * 2 ^ 8) (v / 2 ^ 16 % 2 ^ 8)
            (omega arith),
        bit_or_shifted 24 (v % 2 ^ 8 + v / 2 ^ 8 % 2 ^ 8 * 2 ^ 8 + v / 2 ^ 16 % 2 ^ 8 * 2 ^ 16)
            (v / 2 ^ 24 % 2 ^ 8) (omega arith),
      )
      (omega arith)

pub u64_of-words : (v : ℕ) → IsU64 v → u64_of (v % 2 ^ 32) (v / 2 ^ 32 % 2 ^ 32) ≡ v
unfolding u64_of
u64_of-words v h =
    rw (bit_or_shifted 32 (v % 2 ^ 32) (v / 2 ^ 32 % 2 ^ 32) (omega arith)) (omega arith)

pub u64_of-bytes :
    (v : ℕ)
    → IsU64 v
    → let lo = v % 2 ^ 32 in
      let hi = v / 2 ^ 32 % 2 ^ 32 in
      u64_of
        (u32_of (lo % 2 ^ 8) (lo / 2 ^ 8 % 2 ^ 8) (lo / 2 ^ 16 % 2 ^ 8) (lo / 2 ^ 24 % 2 ^ 8))
        (u32_of (hi % 2 ^ 8) (hi / 2 ^ 8 % 2 ^ 8) (hi / 2 ^ 16 % 2 ^ 8) (hi / 2 ^ 24 % 2 ^ 8))
      ≡ v
u64_of-bytes v h =
    rw (u32_of-bytes (v % 2 ^ 32) (omega arith), u32_of-bytes (v / 2 ^ 32 % 2 ^ 32) (omega arith))
      (u64_of-words v h)

-- `grow`: the zero bytes that an encoder appends before it stores.
abbrev pub grow : ℕ → List ℕ
grow n = replicate n 0

-- `memcpy` to an offset.
abbrev pub copy_to : List ℕ → ℕ → List ℕ → List ℕ
copy_to p off [] = p
copy_to p off (b ∷ bs) = copy_to (set p off b) (off + 1) bs

-- The cells of an array of n bytes, one by one.
abbrev pub cells : ℕ → List ℕ → List ℕ
cells zero p = []
cells (suc n) p = get_or p 0 0 ∷ cells n (drop 1 p)

pub cells_lem : (n : ℕ) (p : List ℕ) → length p ≡ n → p ≡ cells n p
cells_lem zero [] h = refl
cells_lem zero (b ∷ p) h = absurd (omega arith)
cells_lem (suc n) [] h = absurd (omega arith)
cells_lem (suc n) (b ∷ p) h = ap (◌∷◌ b) (cells_lem n p (omega arith))
