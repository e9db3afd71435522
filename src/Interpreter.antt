-- ===== src/Interpreter.antt =====
-- The text interpreter of src/qlforth.c: what a word does in each state, and the loop over a text. The fuel is for
-- the runs of macros and of the chip. After a report by `QLForth_error` the model stops.
pub mod Fits
pub mod Words
pub mod Loop
pub mod Init
mod Tests
use qlforth.Actions.{
  Forth, on_compiler, on_vm, with_next, with_token, run_immediate, run_defining, spill_tos,
  run_command,
}
use qlforth.Prelude.{
  ℕ, zero, suc, ◌+◌, Bool, true, false, Option, none, some, List, [], ◌∷◌, map, length, ltb, leb,
  if◌then◌else◌, Result, ok, error, fault, timeout, ◌>>=◌, update, get_elem?, not_in_interactive,
  not_in_interpret, not_in_compile, not_in_macro, word_not_found, expect_a_word,
  unexpected_end_of_file,
}
use qlforth.Chip.{Chip}
use qlforth.Chip.Run.{Run, halted, stopped, out_of_fuel, Reply, chip_execute}
use qlforth.Compile.{
  Compiler, State, qlf_state_interactive, qlf_state_interpret, qlf_state_compile, qlf_state_macro,
  extension_word, sst_append, comma, symbol_cell, routine, symbol_do_literal, Cell,
}
use qlforth.Compile
use qlforth.Control.{
  cfp_if, cfp_else, cfp_endif, cfp_begin, cfp_while, cfp_repeat, cfp_until, cfp_do, cfp_loop,
  cfp_leave, cfp_for, cfp_next,
}
use qlforth.Define.{
  cfp_tick, cfp_sharp, cfp_allot, cfp_macro, cfp_macro_semicolon, cfp_colon, cfp_semicolon,
  cfp_variable, cfp_constant,
}
use qlforth.Floats.{FloatOps, float_word}
use qlforth.Functions.{
  Function, command, defining, primitive, float, immediate, extension, Immediate, word_semicolon,
  word_macro_semicolon, word_tick, word_sharp, word_allot, word_if, word_else, word_endif,
  word_begin, word_while, word_repeat, word_until, word_do, word_loop, word_leave, word_for,
  word_next, Defining, word_colon, word_variable, word_macro, word_constant, Command, forth_make,
  forth_quit, cfp_dot_s, cfp_see, forth_clear,
}
use qlforth.Host.Primitives.{run_primitive}
use qlforth.Host.{Vm, qlforth_push, data_stack_size}
use qlforth.Macro.{macro_execute}
use qlforth.Number.{Number, forth_number}
use qlforth.Number
use qlforth.Scan.{Text, qlforth_token}
use qlforth.Sst.{spc, sst_word_ref, sst_var_ref}
use qlforth.Symbols.{
  Name, Symbol, SymbolType, qlf_type_command, qlf_type_define, qlf_type_primitive,
  qlf_type_immediate, qlf_type_compile, qlf_type_word, qlf_type_variable, qlf_type_constant,
  qlf_type_macro, symbol_search, qlforth_root_search, to_upper,
}

-- The stack of the host after a run of the chip.
abbrev pub take_reply : Run Reply → Forth → Result Forth
take_reply (halted r) f = ok (record f {
  compiler = record f.compiler {
    vm = record { tos = r.cells r.depth; data_stack = r.cells; dp = r.depth };
  };
  chip = r.chip;
})
take_reply stopped f = fault
take_reply out_of_fuel f = timeout

abbrev pub symbol_at : Compiler → Option ℕ → Option (ℕ × Symbol)
symbol_at c none = none
symbol_at c (some id) = elim (get_elem? c.symbols.entries id) [
  | none ↦ none
  | some s ↦ some (id, s)
]

-- `qlforth_root_search`, and the whole search only where that finds nothing.
abbrev pub root_first : Compiler → Name → Option ℕ
root_first c word = elim (qlforth_root_search c.symbols word) [
  | none ↦ symbol_search c.symbols word
  | some id ↦ some id
]

abbrev pub with_entry : (ℕ → Symbol → Result Forth) → ℕ → Option Symbol → Result Forth
with_entry act id none = fault
with_entry act id (some s) = act id s

-- What is done with the symbol that a search found, or with none.
abbrev pub dispatch :
    (ℕ → Symbol → Result Forth) → Result Forth → List Symbol → Option ℕ → Result Forth
dispatch act otherwise entries none = otherwise
dispatch act otherwise entries (some id) = with_entry act id (get_elem? entries id)

abbrev pub pattern : Number → ℕ
pattern (Number.ival n) = n
pattern (Number.fval n) = n

module _ (ops : FloatOps) (strtod : Name → ℕ × Name) (fuel : ℕ) where
  unfoldable pub debug_word : Symbol → Forth → Result Forth
  unfolding spill_tos chip_execute
  debug_word s f = do
    vm ← spill_tos f.compiler.vm
    take_reply (chip_execute fuel s.value vm.dp vm.data_stack f.chip) f

  abbrev pub push_value : ℕ → Forth → Result Forth
  push_value v f = on_vm (qlforth_push v) f

  abbrev pub run_macro : Symbol → Forth → Result Forth
  run_macro s f = on_compiler (macro_execute ops fuel s) f

  -- `spc->fun()` for all but macros.
  unfoldable pub run_function : Function → Forth → Result Forth
  unfolding run_command run_defining run_primitive float_word run_immediate extension_word
  run_function (command x) f = run_command x f
  run_function (defining d) f = with_token (run_defining d) f
  run_function (primitive p) f = on_vm (run_primitive p) f
  run_function (float x) f = on_vm (float_word ops x) f
  run_function (immediate word_tick) f = with_token cfp_tick f
  run_function (immediate i) f = on_compiler (run_immediate i) f
  run_function (extension t) f = on_compiler (extension_word t) f
  run_function _ f = fault

  -- What no vocabulary knows is a number or an error.
  abbrev pub as_number : (ℕ → Forth → Result Forth) → Option Number → Forth → Result Forth
  as_number k none f = error word_not_found
  as_number k (some n) f = k (pattern n) f

  abbrev pub number_or : (ℕ → Forth → Result Forth) → Name → Forth → Result Forth
  number_or k word f = as_number k (forth_number strtod ops.negate word) f

  -- A target's word in the interactive state may be a primitive of the host.
  abbrev pub as_primitive : Option (ℕ × Symbol) → Forth → Result Forth
  as_primitive none f = error not_in_interactive
  as_primitive (some (id, s)) f = elim s.type [
    | qlf_type_primitive ↦ run_function s.fun f
    | _ ↦ error not_in_interactive
  ]

  unfoldable pub interactive_symbol : Name → Symbol → Forth → Result Forth
  unfolding run_function debug_word macro_execute
  interactive_symbol word s f = elim s.type [
    | qlf_type_command ↦ run_function s.fun f
    | qlf_type_primitive ↦ run_function s.fun f
    | qlf_type_macro ↦ run_macro s f
    | qlf_type_word ↦ debug_word s f
    | qlf_type_variable ↦ ok f
    | qlf_type_constant ↦ push_value s.value f
    | qlf_type_compile ↦
        as_primitive (symbol_at f.compiler (qlforth_root_search f.compiler.symbols word)) f
    | qlf_type_define ↦ error not_in_interactive
    | qlf_type_immediate ↦ error not_in_interactive
  ]

  unfoldable pub qlforth_interactive : Name → Forth → Result Forth
  unfolding interactive_symbol forth_number
  qlforth_interactive word f =
      dispatch (λ id s. interactive_symbol word s f) (number_or push_value word f)
        f.compiler.symbols.entries (symbol_search f.compiler.symbols word)

  unfoldable pub interpret_symbol : Symbol → Forth → Result Forth
  unfolding run_function macro_execute
  interpret_symbol s f = elim s.type [
    | qlf_type_command ↦ run_function s.fun f
    | qlf_type_define ↦ run_function s.fun f
    | qlf_type_primitive ↦ run_function s.fun f
    | qlf_type_macro ↦ run_macro s f
    | qlf_type_constant ↦ push_value s.value f
    | _ ↦ error not_in_interpret
  ]

  unfoldable pub qlforth_interpret : Name → Forth → Result Forth
  unfolding interpret_symbol forth_number
  qlforth_interpret word f =
      dispatch (λ id s. interpret_symbol s f) (number_or push_value word f)
        f.compiler.symbols.entries (root_first f.compiler word)

  unfoldable pub compile_symbol : ℕ → Symbol → Forth → Result Forth
  unfolding run_function macro_execute sst_append
  compile_symbol id s f = elim s.type [
    | qlf_type_primitive ↦ run_function s.fun f
    | qlf_type_compile ↦ run_function s.fun f
    | qlf_type_immediate ↦ run_function s.fun f
    | qlf_type_macro ↦ run_macro s f
    | qlf_type_constant ↦ push_value s.value f
    | qlf_type_word ↦ on_compiler (sst_append sst_word_ref (spc id)) f
    | qlf_type_variable ↦ on_compiler (sst_append sst_var_ref (spc id)) f
    | _ ↦ error not_in_compile
  ]

  unfoldable pub qlforth_compile : Name → Forth → Result Forth
  unfolding compile_symbol forth_number
  qlforth_compile word f =
      dispatch (λ id s. compile_symbol id s f) (number_or push_value word f)
        f.compiler.symbols.entries (symbol_search f.compiler.symbols word)

  abbrev pub comma_word : Cell → Forth → Result Forth
  comma_word x f = on_compiler (comma x) f

  unfoldable pub macro_symbol : ℕ → Symbol → Forth → Result Forth
  unfolding run_function comma
  macro_symbol id s f = elim s.type [
    | qlf_type_immediate ↦ run_function s.fun f
    | qlf_type_constant ↦ comma_word (symbol_cell id) f
    | qlf_type_primitive ↦ comma_word (symbol_cell id) f
    | qlf_type_macro ↦ comma_word (symbol_cell id) f
    | _ ↦ error not_in_macro
  ]

  abbrev pub comma_literal : ℕ → Forth → Result Forth
  comma_literal v f = do
    f₁ ← comma_word (routine symbol_do_literal) f
    comma_word (Compile.ival v) f₁

  unfoldable pub qlforth_macro : Name → Forth → Result Forth
  unfolding macro_symbol forth_number
  qlforth_macro word f =
      dispatch (λ id s. macro_symbol id s f) (number_or comma_literal word f)
        f.compiler.symbols.entries (root_first f.compiler word)

  -- The body of the loop of `ql4th_interpreter`, on a word in upper case.
  unfoldable pub interpret_word : Name → Forth → Result Forth
  unfolding qlforth_interactive qlforth_interpret qlforth_compile qlforth_macro
  interpret_word word f = elim f.compiler.state [
    | qlf_state_interactive ↦ qlforth_interactive word f
    | qlf_state_interpret ↦ qlforth_interpret word f
    | qlf_state_compile ↦ qlforth_compile word f
    | qlf_state_macro ↦ qlforth_macro word f
  ]

  abbrev pub unless_exited : (Forth → Result Forth) → Forth → Result Forth
  unless_exited k f = let r = k f in if f.exited then ok f else r

  abbrev pub on_word : (Forth → Result Forth) → Option (Name × Text) → Forth → Result Forth
  on_word again none f = ok (record f { text = [] })
  on_word again (some (word, rest)) f =
      interpret_word (map to_upper word) (record f { text = rest }) >>= unless_exited again

  -- Every word takes a byte of the text, so its length is enough for the rounds.
  unfoldable pub interpreter_loop : ℕ → Forth → Result Forth
  unfolding interpret_word qlforth_token
  interpreter_loop zero f = timeout
  interpreter_loop (suc n) f = on_word (interpreter_loop n) (qlforth_token f.text) f

  abbrev pub end_of_text : Forth → Result Forth
  end_of_text f = elim f.compiler.state [
    | qlf_state_interactive ↦ ok f
    | qlf_state_interpret ↦ ok f
    | _ ↦ error unexpected_end_of_file
  ]

  unfoldable pub ql4th_interpreter : Text → Forth → Result Forth
  unfolding interpreter_loop
  ql4th_interpreter text f = do
    f₁ ← interpreter_loop (length text + 1) (record f { text = text })
    unless_exited end_of_text f₁
