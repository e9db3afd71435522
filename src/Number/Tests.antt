-- ===== src/Number/Tests.antt =====
-- Numbers in the three radices.
use qlforth.Prelude.{ℕ, ◌≡◌, arith, true, some, [], ◌∷◌}
use qlforth.Number.Numerals.{forth_number-numeral, hexadecimal, signed, prefixed, numeral}
use qlforth.Number.{forth_number, ival}
use qlforth.Symbols.{Name}

abbrev no_float : Name → ℕ × Name
no_float s = (0, s)

forth_number-numeral_example :
    forth_number no_float (λ x. x) (signed true (prefixed hexadecimal (numeral (2 ∷ 10 ∷ []))))
    ≡ some (ival 4_294_967_254)
forth_number-numeral_example =
    forth_number-numeral no_float (λ x. x) hexadecimal true 2 (10 ∷ [])
      (omega arith, (omega arith, tt)) (omega arith)
