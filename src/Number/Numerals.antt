-- ===== src/Number/Numerals.antt =====
-- A numeral is read as the number that its digits stand for.
use qlforth.Prelude.{
  ℕ, ◌+◌, ◌*◌, ◌^◌, ◌<◌, ◌≤◌, ◌≡◌, arith, refl, Bool, true, false, some, List, [], ◌∷◌, ltb, leb,
  ◌==◌, if◌then◌else◌, lt→ltb, ◌&&◌, ◌||◌,
}
use qlforth.Number.{
  digit_value, read_digits, starts_with_digit, skip_blanks, strtoul, ival, signed_value,
  forth_number, drop_prefix, is_blank, strip_base, strip_sign,
}
use qlforth.Symbols.{Name}

-- The character of a digit, in upper case.
abbrev pub digit_char : ℕ → ℕ
digit_char d = if ltb d 10 then d + 48 else d + 55

abbrev pub numeral : List ℕ → Name
numeral [] = []
numeral (d ∷ ds) = digit_char d ∷ numeral ds

abbrev pub AllBelow : ℕ → List ℕ → Type 0
AllBelow base [] = Unit
AllBelow base (d ∷ ds) = (d < base) × AllBelow base ds

-- The number that the digits stand for, with the number before them.
abbrev pub value_from : ℕ → ℕ → List ℕ → ℕ
value_from base acc [] = acc
value_from base acc (d ∷ ds) = value_from base (acc * base + d) ds

digit_value-char : (d : ℕ) → d < 36 → digit_value (digit_char d) ≡ d
unfolding digit_value
digit_value-char d h = ground arith

read-numeral :
    (base acc : ℕ) (ds : List ℕ)
    → base ≤ 36
    → AllBelow base ds
    → read_digits base acc (numeral ds) ≡ (value_from base acc ds, [])
unfolding read_digits
read-numeral base acc [] b h = refl
read-numeral base acc (d ∷ ds) b h =
    rw (digit_value-char d (omega (arith, h.0)), lt→ltb d base h.0)
      (read-numeral base (acc * base + d) ds b h.1)

-- A digit below 16 is no blank, no sign, no `%` and no `x`.
record Plain (c : ℕ) : Type 0 where
  blank : is_blank c ≡ false
  minus : (c == b'-') ≡ false
  plus : (c == b'+') ≡ false
  percent : (c == b'%') ≡ false
  ex : (c == b'x' || c == b'X') ≡ false

digit_char-Plain : (d : ℕ) → d < 16 → Plain (digit_char d)
digit_char-Plain d h = record {
  blank = ground arith;
  minus = ground arith;
  plus = ground arith;
  percent = ground arith;
  ex = ground arith;
}

third_false : (p q r s : Bool) → r ≡ false → (p && q && r && s) ≡ false
third_false false q r s h = refl
third_false true false r s h = refl
third_false true true r s h = rw h refl

second_false : (p q : Bool) → q ≡ false → (p && q) ≡ false
second_false false q h = refl
second_false true q h = h

drop-numeral :
    (base d : ℕ) (ds : List ℕ)
    → base ≤ 16
    → AllBelow base (d ∷ ds)
    → drop_prefix base (numeral (d ∷ ds)) ≡ numeral (d ∷ ds)
drop-numeral base d [] b h = refl
drop-numeral base d (e ∷ ds) b h =
    let p = digit_char-Plain e (omega (arith, h.1.0)) in
    rw
      (third_false (base == 16) (digit_char d == b'0')
        (digit_char e == b'x' || digit_char e == b'X') (starts_with_digit 16 (numeral ds)) p.ex)
      refl

strtoul-numeral :
    (base d : ℕ) (ds : List ℕ)
    → base ≤ 16
    → AllBelow base (d ∷ ds)
    → value_from base 0 (d ∷ ds) < 2 ^ 32
    → strtoul (numeral (d ∷ ds)) base ≡ (value_from base 0 (d ∷ ds), [])
unfolding strtoul skip_blanks
strtoul-numeral base d ds b h l =
    let p = digit_char-Plain d (omega (arith, h.0)) in
    let small : leb (2 ^ 32) (value_from base 0 (d ∷ ds)) ≡ false = ground arith in
    rw
      (
        p.blank,
        p.minus,
        p.plus,
        drop-numeral base d ds b h,
        digit_value-char d (omega (arith, h.0)),
        lt→ltb d base h.0,
        read-numeral base (0 * base + d) ds (omega arith) h.1,
        small,
      )
      refl

pub data Radix : Type 0 where
  binary decimal hexadecimal : Radix

abbrev pub base_of : Radix → ℕ
base_of binary = 2
base_of decimal = 10
base_of hexadecimal = 16

-- A numeral as the interpreter sees it, in upper case.
abbrev pub prefixed : Radix → Name → Name
prefixed binary s = b'%' ∷ s
prefixed decimal s = s
prefixed hexadecimal s = b'0' ∷ b'X' ∷ s

abbrev pub signed : Bool → Name → Name
signed true s = b'-' ∷ s
signed false s = s

strip-prefixed :
    (r : Radix) (d : ℕ) (ds : List ℕ)
    → AllBelow (base_of r) (d ∷ ds)
    → strip_base (prefixed r (numeral (d ∷ ds))) ≡ (base_of r, numeral (d ∷ ds))
strip-prefixed binary d ds h = refl
strip-prefixed hexadecimal d ds h = refl
strip-prefixed decimal d [] h = rw ((digit_char-Plain d (omega (arith, h.0))).percent) refl
strip-prefixed decimal d (e ∷ ds) h =
    let p = digit_char-Plain d (omega (arith, h.0)) in
    let q = digit_char-Plain e (omega (arith, h.1.0)) in
    rw
      (
        p.percent,
        second_false (digit_char d == b'0') (digit_char e == b'x' || digit_char e == b'X') q.ex,
      )
      refl

strip-signed :
    (r : Radix) (neg : Bool) (d : ℕ) (ds : List ℕ)
    → AllBelow (base_of r) (d ∷ ds)
    → strip_sign (signed neg (prefixed r (numeral (d ∷ ds)))) ≡ (neg, prefixed r (numeral (d ∷ ds)))
strip-signed r true d ds h = refl
strip-signed binary false d ds h = refl
strip-signed hexadecimal false d ds h = refl
strip-signed decimal false d ds h = rw ((digit_char-Plain d (omega (arith, h.0))).minus) refl

base_of-le : (r : Radix) → base_of r ≤ 16
base_of-le binary = omega arith
base_of-le decimal = omega arith
base_of-le hexadecimal = omega arith

-- Digits of a radix, at least one and of a value below 2 ^ 32, behind the prefix of the radix (`%`, none, or `0X`)
-- and behind a `-` or none, are read as that value or as its negative, whatever `strtod` is.
pub forth_number-numeral :
    (strtod : Name → ℕ × Name) (negate : ℕ → ℕ) (r : Radix) (neg : Bool) (d : ℕ) (ds : List ℕ)
    → AllBelow (base_of r) (d ∷ ds)
    → value_from (base_of r) 0 (d ∷ ds) < 2 ^ 32
    → forth_number strtod negate (signed neg (prefixed r (numeral (d ∷ ds))))
      ≡ some (ival (signed_value neg (value_from (base_of r) 0 (d ∷ ds))))
unfolding forth_number
forth_number-numeral strtod negate r neg d ds h l =
    rw
      (
        strip-signed r neg d ds h,
        strip-prefixed r d ds h,
        strtoul-numeral (base_of r) d ds (base_of-le r) h l,
      )
      refl
