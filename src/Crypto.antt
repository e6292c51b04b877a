-- ===== src/Crypto.antt =====
-- airusb/crypto/Primitives: the comparison of secrets. The ciphers are outside the model.
mod Table
mod Examples
use airusb_hub.Base.{
  ℕ, ◌+◌, ◌≡◌, ◌≢◌, ◌↔◌, ◌%◌, refl, ap, Bool, true, false, not, ◌&&◌, List, [], ◌∷◌, arith, bit_or,
  ◌==◌, ==_iff, if◌then◌else◌, length, All, IsByte,
}
use Prim.Native.Nat.{bit_xor}
use Table.{or_zero, xor_zero, xor-IsByte}

differences : ℕ → List ℕ → List ℕ → ℕ
differences diff [] b = diff
differences diff (x ∷ a) [] = diff
differences diff (x ∷ a) (y ∷ b) = differences (bit_or diff (bit_xor x y) % 256) a b

unfoldable pub constant_time_equals : List ℕ → List ℕ → Bool
unfolding differences
constant_time_equals a b = if length a == length b then differences 0 a b == 0 else false

differences_zero :
    (diff : ℕ) (a b : List ℕ)
    → IsByte diff
    → All IsByte a
    → All IsByte b
    → length a ≡ length b
    → (differences diff a b ≡ 0) ↔ ((diff ≡ 0) × (a ≡ b))
unfolding differences
differences_zero diff [] [] hd ha hb e = (λ z. (z, refl), λ p. p.0)
differences_zero diff [] (y ∷ b) hd ha hb e = absurd (omega arith)
differences_zero diff (x ∷ a) [] hd ha hb e = absurd (omega arith)
differences_zero diff (x ∷ a) (y ∷ b) hd (hx, ha) (hy, hb) e =
    let byte : IsByte (bit_or diff (bit_xor x y) % 256) = omega arith in
    let rest = differences_zero (bit_or diff (bit_xor x y) % 256) a b byte ha hb (omega arith) in
    ground (
      arith,
      rest.0,
      rest.1,
      or_zero diff (bit_xor x y) hd (xor-IsByte x y hx hy),
      xor_zero x y hx hy,
    )

-- On byte strings the comparison answers true exactly where they are equal.
pub constant_time_equals_iff :
    (a b : List ℕ) → All IsByte a → All IsByte b → (constant_time_equals a b ≡ true) ↔ (a ≡ b)
unfolding constant_time_equals
constant_time_equals_iff a b ha hb =
    let zero_byte : IsByte 0 = omega arith in
    (
      λ e. ground (arith, differences_zero 0 a b zero_byte ha hb),
      λ e. ground (arith, differences_zero 0 a b zero_byte ha hb, ap (λ p. length p) e),
    )
