-- ===== src/Crypto/Table.antt =====
-- `|` and `^` on bytes, by evaluation.
use airusb_hub.Base.{
  ℕ, ◌≡◌, ◌↔◌, ◌%◌, refl, Bool, true, ◌&&◌, arith, bit_or, ◌==◌, ltb, if◌then◌else◌, not, IsByte,
}
use airusb_hub.Base.Bits.{holds_below, holds_below-at}
use Prim.Native.Nat.{bit_xor}

abbrev same : Bool → Bool → Bool
same a b = if a then b else not b

abbrev row : ℕ → ℕ → Bool
row x y =
    same (bit_or x y % 256 == 0) (x == 0 && y == 0)
    && same (bit_xor x y == 0) (x == y)
    && ltb (bit_xor x y) 256

table : holds_below (λ x. holds_below (row x) 256) 256 ≡ true
unfolding holds_below
table = refl

entry : (x y : ℕ) → IsByte x → IsByte y → row x y ≡ true
entry x y hx hy =
    holds_below-at (row x) 256 y hy (holds_below-at (λ k. holds_below (row k) 256) 256 x hx table)

pub or_zero : (x y : ℕ) → IsByte x → IsByte y → (bit_or x y % 256 ≡ 0) ↔ ((x ≡ 0) × (y ≡ 0))
or_zero x y hx hy = ground (arith, entry x y hx hy)

pub xor_zero : (x y : ℕ) → IsByte x → IsByte y → (bit_xor x y ≡ 0) ↔ (x ≡ y)
xor_zero x y hx hy = ground (arith, entry x y hx hy)

pub xor-IsByte : (x y : ℕ) → IsByte x → IsByte y → IsByte (bit_xor x y)
xor-IsByte x y hx hy = ground (arith, entry x y hx hy)
