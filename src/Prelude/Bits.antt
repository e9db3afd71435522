-- ===== src/Prelude/Bits.antt =====
-- `|` of an address field below 0x2000 with an instruction's fixed bits, as a sum, and the width
-- of the results of `&`, `|` and `^`.
use Prim.Native.Nat.{ℕ, zero, suc, ◌+◌, ◌/◌, ◌%◌, ◌^◌, ◌<◌, min, max, bit_and, bit_or, bit_xor}
use Prim.Native.Nat.{digits, differ, bit_and-bitwise, bit_or-bitwise, bit_xor-bitwise}
use native.Mathlib.Nat.{pow-suc}
use mathlib.Core.Path.{◌≡◌, refl}
use mathlib.Core.Bool.{Bool, true, ◌&&◌}
use native.Mathlib.Omega.{arith}
use qlforth.Prelude.Tests.{◌==◌}

-- Whether an operation adds `k`, at every number below a bound.
unfoldable are_sums : (ℕ → ℕ) → ℕ → ℕ → Bool
are_sums f k zero = true
are_sums f k (suc bound) = (f bound == k + bound) && are_sums f k bound

are_sums-below : (f : ℕ → ℕ) (k bound x : ℕ) → x < bound → are_sums f k bound ≡ true → f x ≡ k + x
unfolding are_sums
are_sums-below f k zero x l h = absurd (omega arith)
are_sums-below f k (suc bound) x l h = ground (arith, are_sums-below f k bound x)

every_call : are_sums (bit_or 0x4000) 0x4000 0x2000 ≡ true
unfolding are_sums
every_call = refl

every_jump : are_sums (λ x. bit_or x 0x2000) 0x2000 0x2000 ≡ true
unfolding are_sums
every_jump = refl

pub bit_or_call : (x : ℕ) → x < 0x2000 → bit_or 0x4000 x ≡ 0x4000 + x
bit_or_call x l = are_sums-below (bit_or 0x4000) 0x4000 0x2000 x l every_call

pub bit_or_jump : (x : ℕ) → x < 0x2000 → bit_or x 0x2000 ≡ 0x2000 + x
bit_or_jump x l = are_sums-below (λ y. bit_or y 0x2000) 0x2000 0x2000 x l every_jump

-- A digit operation on two numbers of `k` bits gives a number of `k` bits.
digits-lt :
    (z : ℕ → ℕ) (f : ℕ → ℕ → ℕ)
    → ((k b : ℕ) → b < 2 ^ k → z b < 2 ^ k)
    → ((x y : ℕ) → x < 2 → y < 2 → f x y < 2)
    → (n k a b : ℕ) → a < 2 ^ k
    → b < 2 ^ k
    → digits z f n a b < 2 ^ k
digits-lt z f hz hf zero k a b ha hb = hz k b hb
digits-lt z f hz hf (suc n) k zero b ha hb = hz k b hb
digits-lt z f hz hf (suc n) zero (suc a) b ha hb = absurd (omega arith)
digits-lt z f hz hf (suc n) (suc k) (suc a) b ha hb = omega (
  arith,
  pow-suc 2 k,
  digits-lt z f hz hf n k (suc a / 2) (b / 2) (omega (arith, pow-suc 2 k))
      (omega (arith, pow-suc 2 k)),
  hf (suc a % 2) (b % 2) (omega arith) (omega arith),
)

differ-lt : (x y : ℕ) → x < 2 → y < 2 → differ x y < 2
differ-lt zero y hx hy = hy
differ-lt (suc zero) zero hx hy = hx
differ-lt (suc zero) (suc y) hx hy = omega arith
differ-lt (suc (suc x)) y hx hy = absurd (omega arith)

module _ (k a b : ℕ) (ha : a < 2 ^ k) (hb : b < 2 ^ k) where
  pub bit_and-lt : bit_and a b < 2 ^ k
  bit_and-lt =
      rw (bit_and-bitwise a b)
        (digits-lt (λ b. 0) min (λ k b h. omega arith) (λ x y p q. omega arith) a k a b ha hb)

  pub bit_or-lt : bit_or a b < 2 ^ k
  bit_or-lt =
      rw (bit_or-bitwise a b)
        (digits-lt (λ b. b) max (λ k b h. h) (λ x y p q. omega arith) a k a b ha hb)

  pub bit_xor-lt : bit_xor a b < 2 ^ k
  bit_xor-lt =
      rw (bit_xor-bitwise a b) (digits-lt (λ b. b) differ (λ k b h. h) differ-lt a k a b ha hb)
