-- ===== src/Define/Tests.antt =====
-- A definition and one that is not closed, in the state of a test of the control words.
use qlforth.Prelude.{
  arith, refl, some, error, ◌≡◌, ◌>>=◌, Returns, structure_mismatched, no_do_for_loop,
}
use qlforth.Code.{bytes}
use qlforth.Compile.{Compiler, qlf_state_compile, qlf_state_interpret}
use qlforth.Control.Structure.{Structured, word, then, if_else, begin_while, for_next, compile}
use qlforth.Control.Errors.{a_loop, close_word}
use qlforth.Control.{compiling}
use qlforth.Define.Definition.{Defined, definition-Defined}
use qlforth.Define.Errors.{an_if, open_word, open_word-cfp_semicolon, open_word-close_word}
use qlforth.Define.{cfp_colon, cfp_semicolon}
use qlforth.Interpreter.Init.{blank_compiler}
use qlforth.Sst.{sst_dup, sst_1_sub, sst_drop, sst_fetch, sst_store}

abbrev start : Compiler
start = record blank_compiler { state = qlf_state_interpret }

abbrev nested : Structured
nested = then (word sst_dup) (
    if_else (begin_while (word sst_fetch) (word sst_1_sub))
      (for_next (then (word sst_drop) (word sst_store))))

definition-Defined_example :
    Returns
      (Defined (bytes "twice") nested start)
      (cfp_colon (some (bytes "twice")) start >>= λ c. compile nested c >>= cfp_semicolon)
definition-Defined_example =
    definition-Defined (bytes "twice") nested start refl (omega arith) (omega arith) (omega arith)

abbrev inside : Compiler
inside = record start { state = qlf_state_compile; cs_ptr = 2 }

open_word-cfp_semicolon_example :
    (compile nested inside >>= λ c₁.
    open_word an_if c₁ >>= λ c₂. compile nested c₂ >>= cfp_semicolon)
    ≡ error structure_mismatched
open_word-cfp_semicolon_example =
    open_word-cfp_semicolon an_if nested nested inside (unfold compiling in refl) (omega arith)
      (omega arith) (omega arith) (omega arith)

open_word-close_word_example :
    (compile nested inside >>= λ c₁.
    open_word an_if c₁ >>= λ c₂. compile nested c₂ >>= close_word a_loop)
    ≡ error no_do_for_loop
open_word-close_word_example =
    open_word-close_word an_if a_loop nested nested inside (unfold compiling in refl) refl
      (omega arith) (omega arith) (omega arith)
