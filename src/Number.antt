-- ===== src/Number.antt =====
-- `forth_number` of src/qlforth.c. `strtoul` is the C library's, with an `unsigned long` of 32 bits, as on
-- the platform that the sources name; `strtod`, with its result as a `float`, and the negation of a `float` are
-- arguments, both over 32-bit patterns.
pub mod Numerals
mod Tests
use qlforth.Prelude.{
  ℕ, zero, suc, ◌+◌, ◌-◌, ◌*◌, ◌%◌, ◌^◌, ◌<◌, Bool, true, false, ◌&&◌, ◌||◌, Option, none, some,
  List, [], ◌∷◌, leb, ltb, ◌==◌, if◌then◌else◌,
}
use qlforth.Symbols.{Name}

-- The value of a digit in any radix up to 36; what is none is 36.
unfoldable pub digit_value : ℕ → ℕ
digit_value c =
    if leb b'0' c && leb c b'9'
    then c - 48
    else if leb b'A' c && leb c b'Z'
    then c - 55
    else if leb b'a' c && leb c b'z'
    then c - 87
    else 36

-- The digits at the beginning of a text, with the value before them.
unfoldable pub read_digits : ℕ → ℕ → Name → ℕ × Name
unfolding digit_value
read_digits base acc [] = (acc, [])
read_digits base acc (c ∷ cs) =
    let rest = read_digits base (acc * base + digit_value c) cs in
    if ltb (digit_value c) base then rest else (acc, c ∷ cs)

abbrev pub starts_with_digit : ℕ → Name → Bool
starts_with_digit base [] = false
starts_with_digit base (c ∷ cs) = ltb (digit_value c) base

-- `isspace` of the C locale.
abbrev pub is_blank : ℕ → Bool
is_blank c = c == 32 || leb 9 c && leb c 13

unfoldable pub skip_blanks : Name → Name
skip_blanks [] = []
skip_blanks (c ∷ cs) = let rest = skip_blanks cs in if is_blank c then rest else c ∷ cs

-- An optional prefix 0x, if a digit follows it.
abbrev pub drop_prefix : ℕ → Name → Name
drop_prefix base [] = []
drop_prefix base (c ∷ []) = c ∷ []
drop_prefix base (c ∷ d ∷ cs) =
    if base == 16 && c == b'0' && (d == b'x' || d == b'X') && starts_with_digit 16 cs
    then cs
    else c ∷ d ∷ cs

abbrev pub saturate : Bool → ℕ → ℕ
saturate neg v = if leb (2 ^ 32) v then 2 ^ 32 - 1 else if neg then (2 ^ 32 - v) % 2 ^ 32 else v

-- The number behind the sign; without a digit the result is 0 and the rest is the whole text.
abbrev pub unsigned_digits : Bool → ℕ → Name → Name → ℕ × Name
unsigned_digits neg base whole s =
    let t = drop_prefix base s in
    let (v, rest) = read_digits base 0 t in
    if starts_with_digit base t then (saturate neg v, rest) else (0, whole)

abbrev pub signed_digits : ℕ → Name → Name → ℕ × Name
signed_digits base whole [] = (0, whole)
signed_digits base whole (c ∷ cs) =
    if c == b'-'
    then unsigned_digits true base whole cs
    else if c == b'+'
    then unsigned_digits false base whole cs
    else unsigned_digits false base whole (c ∷ cs)

unfoldable pub strtoul : Name → ℕ → ℕ × Name
unfolding read_digits skip_blanks digit_value
strtoul str base = signed_digits base str (skip_blanks str)

-- What is pushed: an `int` or a `float`, as its pattern.
pub data Number : Type 0 where
  ival fval : ℕ → Number

abbrev pub strip_sign : Name → Bool × Name
strip_sign [] = (false, [])
strip_sign (c ∷ cs) = if c == b'-' then (true, cs) else (false, c ∷ cs)

-- `%` is binary, `0x` is hexadecimal.
abbrev pub strip_base : Name → ℕ × Name
strip_base [] = (10, [])
strip_base (c ∷ []) = if c == b'%' then (2, []) else (10, c ∷ [])
strip_base (c ∷ d ∷ cs) =
    if c == b'%'
    then (2, d ∷ cs)
    else if c == b'0' && (d == b'x' || d == b'X')
    then (16, cs)
    else (10, c ∷ d ∷ cs)

abbrev pub at_end : Name → Bool
at_end [] = true
at_end (c ∷ cs) = false

-- `-token_value.ival`, as a pattern.
abbrev pub signed_value : Bool → ℕ → ℕ
signed_value neg v = if neg then (2 ^ 32 - v) % 2 ^ 32 else v

unfoldable pub forth_number : (Name → ℕ × Name) → (ℕ → ℕ) → Name → Option Number
unfolding strtoul
forth_number strtod negate str =
    let (neg, s) = strip_sign str in
    let (base, ptr) = strip_base s in
    let (v, end_ptr) = strtoul ptr base in
    let (f, end_dptr) = strtod ptr in
    if at_end end_ptr
    then some (ival (signed_value neg v))
    else if at_end end_dptr
    then some (fval (if neg then negate f else f))
    else none
