-- ===== src/Host/Lists/Signed.antt =====
-- Order, quotient, rest and opposite of 32-bit two's complement numbers, by their signs, and that the integer words of
-- src/forth.c compute them.
use qlforth.Prelude.{
  not, ℕ, ◌-◌, ◌/◌, ◌%◌, ◌^◌, ◌<◌, ◌≡◌, ◌==◌, refl, arith, true, false, if◌then◌else◌, Bool, ltb,
  Result, ok, fault, ◌>>=◌,
}
use qlforth.Host.{signed_lt, neg32, negative, magnitude, quotient, remainder, flag}

-- The pattern of the negative of a number.
abbrev pub opposite : ℕ → ℕ
opposite n = if n == 0 then 0 else 2 ^ 32 - n

-- `y` before `x`, by their signs.
abbrev pub less : ℕ → ℕ → Bool
less y x =
    if ltb y 0x8000_0000
    then if ltb x 0x8000_0000 then ltb y x else false
    else if ltb x 0x8000_0000
    then true
    else ltb y x

abbrev pub truth : Bool → ℕ
truth true = 0xffff_ffff
truth false = 0

-- The quotient towards 0. There is none by 0, and none where it is 2 ^ 31 for two negative numbers.
abbrev pub both_negative : ℕ → Result ℕ
both_negative q = if q == 0x8000_0000 then fault else ok q

abbrev pub ratio : ℕ → ℕ → Result ℕ
ratio y x =
    if x == 0
    then fault
    else if ltb y 0x8000_0000
    then if ltb x 0x8000_0000 then ok (y / x) else ok (opposite (y / (2 ^ 32 - x)))
    else if ltb x 0x8000_0000
    then ok (opposite ((2 ^ 32 - y) / x))
    else both_negative ((2 ^ 32 - y) / (2 ^ 32 - x))

-- The rest that belongs to it, with the sign of the dividend.
abbrev pub rest_of : ℕ → ℕ → ℕ
rest_of y x =
    if ltb y 0x8000_0000
    then if ltb x 0x8000_0000 then y % x else y % (2 ^ 32 - x)
    else if ltb x 0x8000_0000
    then opposite ((2 ^ 32 - y) % x)
    else opposite ((2 ^ 32 - y) % (2 ^ 32 - x))

abbrev pub rest : ℕ → ℕ → Result ℕ
rest y x = ratio y x >>= λ q. ok (rest_of y x)

pub not-below : (x : ℕ) → not (ltb x 0x8000_0000) ≡ negative x
not-below x = ground arith

pub below-not : (x : ℕ) → ltb x 0x8000_0000 ≡ not (negative x)
below-not x = ground arith

pub flipped {ℓ} :
    {A : Type ℓ} (x : ℕ) (a b : A)
    → (if negative x then b else a) ≡ (if ltb x 0x8000_0000 then a else b)
flipped x a b = rw (← not-below x) (swapped (ltb x 0x8000_0000))
  where
    swapped : (t : Bool) → (if not t then b else a) ≡ (if t then a else b)
    swapped true = refl
    swapped false = refl

pub less-signed_lt : (y x : ℕ) → y < 2 ^ 32 → x < 2 ^ 32 → less y x ≡ signed_lt y x
less-signed_lt y x a b = ground arith

pub truth-flag : (b : Bool) → truth b ≡ flag b
truth-flag true = refl
truth-flag false = refl

pub opposite-neg32 : (x : ℕ) → opposite x ≡ neg32 x
opposite-neg32 x = ground arith

pub ratio-quotient : (y x : ℕ) → ratio y x ≡ quotient y x
unfolding quotient
ratio-quotient y x = ground arith

rest_of-magnitude :
    (y x : ℕ)
    → rest_of y x
      ≡ (if negative y then neg32 (magnitude y % magnitude x) else magnitude y % magnitude x)
rest_of-magnitude y x = ground arith

pub rest-remainder : (y x : ℕ) → rest y x ≡ remainder y x
unfolding remainder
rest-remainder y x = rw (ratio-quotient y x, rest_of-magnitude y x) refl
