-- ===== src/Pipeline/Tests.antt =====
-- `: TWICE DUP + ;` in a file, and `TWICE` from the console.
use qlforth.Prelude.{◌≡◌, refl, arith, some, false, [], ◌∷◌, Returns, ◌>>=◌}
use qlforth.Actions.{Forth, on_compiler}
use qlforth.Code.{bytes}
use qlforth.Floats.Examples.{no_floats, no_strtod}
use qlforth.Define.Definition.{new_word}
use qlforth.Interpreter.Init.{blank_compiler, blank_chip, generate_code}
use qlforth.Interpreter.{debug_word}
use qlforth.Machine.Programs.{op, body_meaning, item_meaning}
use qlforth.Machine.{meaning}
use qlforth.Pipeline.Run.{code_of, Shows, spilled, debug_word-Shows}
use qlforth.Chip.Invariant.{HaltsIn}
use qlforth.Chip.Run.{chip_execute}
use qlforth.Code.Straight.{assemble}
use qlforth.Pipeline.Load.{taken, write_words-Words, assemble-AllFit}
use qlforth.Pipeline.Valid.{IsReply, chip_execute-IsReply}
use qlforth.Pipeline.{Placed, define_word, define_word-generate_code}
use qlforth.Sst.{sst_dup, sst_add}
use qlforth.Symbols.{Symbol}

abbrev start : Forth
start = record {
  compiler = blank_compiler;
  chip = blank_chip;
  text = [];
  exited = false;
  printed = [];
}

define_word-generate_code_example :
    Returns
      (Placed (bytes "twice") (sst_dup ∷ []) sst_add start)
      (on_compiler (define_word (bytes "twice") (sst_dup ∷ []) sst_add) start >>= generate_code)
define_word-generate_code_example =
    define_word-generate_code (bytes "twice") (sst_dup ∷ []) sst_add start refl (omega arith) refl
      (λ i. refl) (refl, tt) refl (omega arith) (omega arith)

abbrev twice : Symbol
twice = record (new_word (bytes "twice") blank_compiler) { value = 1 }

abbrev loaded : Forth
loaded = record start {
  compiler = record blank_compiler {
    symbols = record blank_compiler.symbols { entries = twice ∷ [] };
    vm = record { tos = 21; data_stack = λ i. 0; dp = 1 };
  };
  chip = record blank_chip { ram = code_of (sst_dup ∷ []) sst_add };
}

means :
    body_meaning
      (λ a. false)
      (op sst_dup ∷ [])
      sst_add
      (record {
        stack = taken 1 (spilled loaded.compiler.vm);
        ret = 0 ∷ [];
        mem = code_of (sst_dup ∷ []) sst_add;
      })
    ≡ some (record { stack = 42 ∷ []; ret = 0 ∷ []; mem = code_of (sst_dup ∷ []) sst_add })
unfolding body_meaning item_meaning meaning
means = refl

debug_word-Shows_example :
    Returns
      (Shows 42 (code_of (sst_dup ∷ []) sst_add))
      (debug_word no_floats no_strtod 7 twice loaded)
debug_word-Shows_example =
    debug_word-Shows no_floats no_strtod (bytes "twice") (sst_dup ∷ []) sst_add (λ a. false) start
      loaded twice 42 (code_of (sst_dup ∷ []) sst_add) [] 3 (record { chip = refl; symbol = refl })
      refl (refl, tt) refl (λ i. omega arith) (λ i. omega arith) (omega arith) (omega arith)
      (λ i l m. refl) means

chip_execute-IsReply_example :
    HaltsIn IsReply (chip_execute 7 1 1 (spilled loaded.compiler.vm) loaded.chip)
chip_execute-IsReply_example =
    chip_execute-IsReply 7 1 1 (spilled loaded.compiler.vm) loaded.chip (λ i. omega arith)
      (λ i. omega arith)
      (write_words-Words (λ i. 0) 1 (assemble (op sst_dup ∷ []) sst_add) (λ i. omega arith)
        (assemble-AllFit (sst_dup ∷ []) sst_add (refl, tt) refl))
      (omega arith)
