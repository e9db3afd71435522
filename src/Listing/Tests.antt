-- ===== src/Listing/Tests.antt =====
-- The listing of `: LAST BEGIN 1- DUP UNTIL INVERT ;`.
use qlforth.Prelude.{◌≡◌, refl, arith, ok, Returns-ok, some, ◌>>=◌}
use qlforth.Code.{bytes}
use qlforth.Compile.{Compiler}
use qlforth.Control.Structure.{Structured, word, then, begin_until, compile}
use qlforth.Define.Definition.{Defined, definition-Defined}
use qlforth.Define.{cfp_colon, cfp_semicolon}
use qlforth.Interpreter.Init.{blank_compiler}
use qlforth.Listing.Lines.{sst_list-definition, definition_lines}
use qlforth.Listing.{sst_list}
use qlforth.Symbols.{to_upper}
use qlforth.Sst.{sst_dup, sst_1_sub, sst_invert}

abbrev last_of : Structured
last_of = then (begin_until (then (word sst_1_sub) (word sst_dup))) (word sst_invert)

abbrev made :
    (d : Compiler) × ((cfp_colon (some (bytes "last")) blank_compiler >>= λ c.
    compile last_of c >>= cfp_semicolon)
      ≡ ok d)
    × Defined (bytes "last") last_of blank_compiler d
made =
    Returns-ok (Defined (bytes "last") last_of blank_compiler)
      (cfp_colon (some (bytes "last")) blank_compiler >>= λ c. compile last_of c >>= cfp_semicolon)
      (definition-Defined (bytes "last") last_of blank_compiler refl (omega arith) (omega arith)
        (omega arith))

sst_list-definition_example :
    sst_list 0 made.0.sst_buffer made.0.symbols ≡ ok (definition_lines (bytes "LAST") 0 last_of)
unfolding to_upper
sst_list-definition_example =
    sst_list-definition (bytes "last") last_of blank_compiler made.0 made.2 ((refl, refl), refl)
      (omega arith)
