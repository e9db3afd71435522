-- ===== src/Macro/Tests.antt =====
-- The macro `:: T 21 DUP + ;;`, and a macro that calls a macro.
use qlforth.Prelude.{ℕ, update, ◌≡◌, refl, arith, some, none, false, [], ◌∷◌, ok, ◌>>=◌}
use qlforth.Compile.{Compiler, Cell, ival, routine, symbol_cell, symbol_do_next, symbol_do_literal}
use qlforth.Functions.{Function, fp_docol, primitive, prim_dup, prim_plus}
use qlforth.Host.Primitives.{run_primitive}
use qlforth.Host.{qlforth_push, binary, peek}
use qlforth.Interpreter.Init.{blank_compiler}
use qlforth.Floats.Examples.{no_floats}
use qlforth.Macro.Returns.{number, word, run_words, macro_execute-straight, do_docol-nested}
use qlforth.Macro.{Running, set_pc, do_docol, fp_donext, macro_execute}
use qlforth.Symbols.{Symbol, SymbolType, qlf_type_primitive, qlf_type_macro}

abbrev symbol_of : SymbolType → Function → Symbol
symbol_of t f = record { name = []; type = t; hidden = false; value = 10; fun = f }

abbrev dict : ℕ → Cell
dict =
    update
      (update
        (update (update (update (λ i. ival 0) 10 (routine symbol_do_literal)) 11 (ival 21)) 12
          (symbol_cell 0))
        13 (symbol_cell 1))
      14 (routine symbol_do_next)

abbrev twice : Compiler
twice = record blank_compiler {
  dict_buffer = dict;
  symbols = record blank_compiler.symbols {
    entries =
        symbol_of qlf_type_primitive (primitive prim_dup)
        ∷ symbol_of qlf_type_primitive (primitive prim_plus)
        ∷ [];
  };
}

abbrev macro_t : Symbol
macro_t = symbol_of qlf_type_macro fp_docol

macro_execute-straight_example :
    macro_execute no_floats 5 macro_t twice
    ≡ ok (record twice {
      vm = record { tos = 42; data_stack = update (update (λ i. 0) 0 0) 1 21; dp = 1 };
      ret_stack = update (λ i. none) 254 none;
    })
unfolding run_words qlforth_push run_primitive binary peek
macro_execute-straight_example =
    macro_execute-straight no_floats (number 21 ∷ word 0 prim_dup ∷ word 1 prim_plus ∷ []) 5 macro_t
      twice refl
      (
        refl,
        omega arith,
        (refl, omega arith, (refl, omega arith, (refl, omega arith, (refl, omega arith, tt)))),
      )
      (
        (symbol_of qlf_type_primitive (primitive prim_dup), refl, refl),
        ((symbol_of qlf_type_primitive (primitive prim_plus), refl, refl), tt),
      )
      (omega arith) (omega arith) refl (omega arith)

abbrev at_20 : Running
at_20 = record { program_counter = some 20; host = blank_compiler }

do_docol-nested_example :
    (do_docol 30 at_20 >>= λ m. do_docol 40 (set_pc (some 33) m) >>= fp_donext)
    ≡ ok (record at_20 {
      host = record blank_compiler {
        rp = 254;
        ret_stack = update (update (λ i. none) 254 (some 20)) 253 (some 33);
      };
    })
do_docol-nested_example = do_docol-nested 30 40 33 at_20 (omega arith) (omega arith)
