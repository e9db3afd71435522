-- ===== src/Interpreter/Words.antt =====
-- Every word of a text reads the text forwards.
use qlforth.Interpreter.Fits.{
  Fits, on_compiler-Fits, on_vm-Fits, with_token-Fits, run_command-Fits, take_reply-Fits,
}
use qlforth.Prelude.{
  ℕ, List, Option, none, some, Result, ok, error, fault, timeout, ◌>>=◌, Ensures, Ensures-bind,
  get_elem?,
}
use qlforth.Actions.{Forth, run_immediate, run_defining, spill_tos}
use qlforth.Chip.Run.{chip_execute}
use qlforth.Compile.{
  Compiler, State, qlf_state_interactive, qlf_state_interpret, qlf_state_compile, qlf_state_macro,
  extension_word, sst_append, comma, Cell, symbol_cell, routine, symbol_do_literal,
}
use qlforth.Compile
use qlforth.Define.{cfp_tick}
use qlforth.Floats.{FloatOps, float_word}
use qlforth.Functions.{
  Function, command, defining, primitive, float, immediate, extension, no_function, fp_docol,
  fp_doconst, sst_start, word_tick, word_semicolon, word_macro_semicolon, word_sharp, word_allot,
  word_if, word_else, word_endif, word_begin, word_while, word_repeat, word_until, word_do,
  word_loop, word_leave, word_for, word_next,
}
use qlforth.Host.Primitives.{run_primitive}
use qlforth.Host.{Vm, qlforth_push}
use qlforth.Interpreter.{
  dispatch, with_entry, take_reply, symbol_at, root_first, debug_word, push_value, run_macro,
  run_function, as_number, number_or, as_primitive, interactive_symbol, qlforth_interactive,
  interpret_symbol, qlforth_interpret, compile_symbol, qlforth_compile, comma_word, macro_symbol,
  comma_literal, qlforth_macro, interpret_word, pattern,
}
use qlforth.Macro.{macro_execute}
use qlforth.Number.{Number, forth_number}
use qlforth.Sst.{spc, sst_word_ref, sst_var_ref}
use qlforth.Symbols.{
  Name, Symbol, SymbolType, qlf_type_command, qlf_type_define, qlf_type_primitive,
  qlf_type_immediate, qlf_type_compile, qlf_type_word, qlf_type_variable, qlf_type_constant,
  qlf_type_macro, symbol_search, qlforth_root_search,
}

abbrev in_state : State → Forth → Forth
in_state t f = record f { compiler = record f.compiler { state = t } }

module _ (ops : FloatOps) (strtod : Name → ℕ × Name) (fuel n : ℕ) where
  debug_word-Fits :
      (s : Symbol) (f : Forth) → Fits n f → Ensures (Fits n) (debug_word ops strtod fuel s f)
  unfolding debug_word
  debug_word-Fits s f h = replied (spill_tos f.compiler.vm)
    where
      replied :
          (r : Result Vm)
          → Ensures
              (Fits n)
              (r >>= λ vm. take_reply (chip_execute fuel s.value vm.dp vm.data_stack f.chip) f)
      replied (ok vm) = take_reply-Fits n (chip_execute fuel s.value vm.dp vm.data_stack f.chip) f h
      replied (error m) = tt
      replied fault = tt
      replied timeout = tt

  run_macro-Fits :
      (s : Symbol) (f : Forth) → Fits n f → Ensures (Fits n) (run_macro ops strtod fuel s f)
  run_macro-Fits s f h = on_compiler-Fits n (macro_execute ops fuel s) f h

  push_value-Fits :
      (v : ℕ) (f : Forth) → Fits n f → Ensures (Fits n) (push_value ops strtod fuel v f)
  push_value-Fits v f h = on_vm-Fits n (qlforth_push v) f h

  run_function-Fits :
      (x : Function) (f : Forth) → Fits n f → Ensures (Fits n) (run_function ops strtod fuel x f)
  unfolding run_function
  run_function-Fits (command x) f h = run_command-Fits n x f h
  run_function-Fits (defining d) f h = with_token-Fits n (run_defining d) f h
  run_function-Fits (primitive p) f h = on_vm-Fits n (run_primitive p) f h
  run_function-Fits (float x) f h = on_vm-Fits n (float_word ops x) f h
  run_function-Fits (immediate word_tick) f h = with_token-Fits n cfp_tick f h
  run_function-Fits (immediate word_semicolon) f h =
      on_compiler-Fits n (run_immediate word_semicolon) f h
  run_function-Fits (immediate word_macro_semicolon) f h =
      on_compiler-Fits n (run_immediate word_macro_semicolon) f h
  run_function-Fits (immediate word_sharp) f h = on_compiler-Fits n (run_immediate word_sharp) f h
  run_function-Fits (immediate word_allot) f h = on_compiler-Fits n (run_immediate word_allot) f h
  run_function-Fits (immediate word_if) f h = on_compiler-Fits n (run_immediate word_if) f h
  run_function-Fits (immediate word_else) f h = on_compiler-Fits n (run_immediate word_else) f h
  run_function-Fits (immediate word_endif) f h = on_compiler-Fits n (run_immediate word_endif) f h
  run_function-Fits (immediate word_begin) f h = on_compiler-Fits n (run_immediate word_begin) f h
  run_function-Fits (immediate word_while) f h = on_compiler-Fits n (run_immediate word_while) f h
  run_function-Fits (immediate word_repeat) f h = on_compiler-Fits n (run_immediate word_repeat) f h
  run_function-Fits (immediate word_until) f h = on_compiler-Fits n (run_immediate word_until) f h
  run_function-Fits (immediate word_do) f h = on_compiler-Fits n (run_immediate word_do) f h
  run_function-Fits (immediate word_loop) f h = on_compiler-Fits n (run_immediate word_loop) f h
  run_function-Fits (immediate word_leave) f h = on_compiler-Fits n (run_immediate word_leave) f h
  run_function-Fits (immediate word_for) f h = on_compiler-Fits n (run_immediate word_for) f h
  run_function-Fits (immediate word_next) f h = on_compiler-Fits n (run_immediate word_next) f h
  run_function-Fits (extension t) f h = on_compiler-Fits n (extension_word t) f h
  run_function-Fits no_function f h = tt
  run_function-Fits fp_docol f h = tt
  run_function-Fits fp_doconst f h = tt
  run_function-Fits (sst_start i) f h = tt

  -- A number that is pushed, or stored in a macro.
  number_or-Fits :
      (k : ℕ → Forth → Result Forth) (word : Name) (f : Forth)
      → ((v : ℕ) → Ensures (Fits n) (k v f))
      → Ensures (Fits n) (number_or ops strtod fuel k word f)
  number_or-Fits k word f h = by_number (forth_number strtod ops.negate word)
    where
      by_number : (x : Option Number) → Ensures (Fits n) (as_number ops strtod fuel k x f)
      by_number none = tt
      by_number (some x) = h (pattern x)

  dispatch-Fits :
      (act : ℕ → Symbol → Result Forth) (otherwise : Result Forth) (entries : List Symbol)
      (o : Option ℕ)
      → ((id : ℕ) (s : Symbol) → Ensures (Fits n) (act id s))
      → Ensures (Fits n) otherwise
      → Ensures (Fits n) (dispatch act otherwise entries o)
  dispatch-Fits act otherwise entries none h k = k
  dispatch-Fits act otherwise entries (some id) h k = by_entry (get_elem? entries id)
    where
      by_entry : (x : Option Symbol) → Ensures (Fits n) (with_entry act id x)
      by_entry none = tt
      by_entry (some s) = h id s

  as_primitive-Fits :
      (x : Option (ℕ × Symbol)) (f : Forth)
      → Fits n f
      → Ensures (Fits n) (as_primitive ops strtod fuel x f)
  as_primitive-Fits none f h = tt
  as_primitive-Fits (some (id, s)) f h = by_type s.type
    where
      by_type :
          (t : SymbolType)
          → Ensures (Fits n) (as_primitive ops strtod fuel (some (id, record s { type = t })) f)
      by_type qlf_type_primitive = run_function-Fits s.fun f h
      by_type qlf_type_command = tt
      by_type qlf_type_define = tt
      by_type qlf_type_immediate = tt
      by_type qlf_type_compile = tt
      by_type qlf_type_word = tt
      by_type qlf_type_variable = tt
      by_type qlf_type_constant = tt
      by_type qlf_type_macro = tt

  interactive_symbol-Fits :
      (word : Name) (s : Symbol) (f : Forth)
      → Fits n f
      → Ensures (Fits n) (interactive_symbol ops strtod fuel word s f)
  unfolding interactive_symbol
  interactive_symbol-Fits word s f h = by_type s.type
    where
      by_type :
          (t : SymbolType)
          → Ensures (Fits n) (interactive_symbol ops strtod fuel word (record s { type = t }) f)
      by_type qlf_type_command = run_function-Fits s.fun f h
      by_type qlf_type_define = tt
      by_type qlf_type_primitive = run_function-Fits s.fun f h
      by_type qlf_type_immediate = tt
      by_type qlf_type_compile =
          as_primitive-Fits (symbol_at f.compiler (qlforth_root_search f.compiler.symbols word)) f h
      by_type qlf_type_word = debug_word-Fits s f h
      by_type qlf_type_variable = h
      by_type qlf_type_constant = push_value-Fits s.value f h
      by_type qlf_type_macro = run_macro-Fits s f h

  interpret_symbol-Fits :
      (s : Symbol) (f : Forth) → Fits n f → Ensures (Fits n) (interpret_symbol ops strtod fuel s f)
  unfolding interpret_symbol
  interpret_symbol-Fits s f h = by_type s.type
    where
      by_type :
          (t : SymbolType)
          → Ensures (Fits n) (interpret_symbol ops strtod fuel (record s { type = t }) f)
      by_type qlf_type_command = run_function-Fits s.fun f h
      by_type qlf_type_define = run_function-Fits s.fun f h
      by_type qlf_type_primitive = run_function-Fits s.fun f h
      by_type qlf_type_immediate = tt
      by_type qlf_type_compile = tt
      by_type qlf_type_word = tt
      by_type qlf_type_variable = tt
      by_type qlf_type_constant = push_value-Fits s.value f h
      by_type qlf_type_macro = run_macro-Fits s f h

  compile_symbol-Fits :
      (id : ℕ) (s : Symbol) (f : Forth)
      → Fits n f
      → Ensures (Fits n) (compile_symbol ops strtod fuel id s f)
  unfolding compile_symbol
  compile_symbol-Fits id s f h = by_type s.type
    where
      by_type :
          (t : SymbolType)
          → Ensures (Fits n) (compile_symbol ops strtod fuel id (record s { type = t }) f)
      by_type qlf_type_command = tt
      by_type qlf_type_define = tt
      by_type qlf_type_primitive = run_function-Fits s.fun f h
      by_type qlf_type_immediate = run_function-Fits s.fun f h
      by_type qlf_type_compile = run_function-Fits s.fun f h
      by_type qlf_type_word = on_compiler-Fits n (sst_append sst_word_ref (spc id)) f h
      by_type qlf_type_variable = on_compiler-Fits n (sst_append sst_var_ref (spc id)) f h
      by_type qlf_type_constant = push_value-Fits s.value f h
      by_type qlf_type_macro = run_macro-Fits s f h

  comma_word-Fits :
      (x : Cell) (f : Forth) → Fits n f → Ensures (Fits n) (comma_word ops strtod fuel x f)
  comma_word-Fits x f h = on_compiler-Fits n (comma x) f h

  comma_literal-Fits :
      (v : ℕ) (f : Forth) → Fits n f → Ensures (Fits n) (comma_literal ops strtod fuel v f)
  comma_literal-Fits v f h =
      Ensures-bind (Fits n) (Fits n) (comma_word ops strtod fuel (routine symbol_do_literal) f)
        (comma_word ops strtod fuel (Compile.ival v))
        (comma_word-Fits (routine symbol_do_literal) f h) (comma_word-Fits (Compile.ival v))

  macro_symbol-Fits :
      (id : ℕ) (s : Symbol) (f : Forth)
      → Fits n f
      → Ensures (Fits n) (macro_symbol ops strtod fuel id s f)
  unfolding macro_symbol
  macro_symbol-Fits id s f h = by_type s.type
    where
      by_type :
          (t : SymbolType)
          → Ensures (Fits n) (macro_symbol ops strtod fuel id (record s { type = t }) f)
      by_type qlf_type_command = tt
      by_type qlf_type_define = tt
      by_type qlf_type_primitive = comma_word-Fits (symbol_cell id) f h
      by_type qlf_type_immediate = run_function-Fits s.fun f h
      by_type qlf_type_compile = tt
      by_type qlf_type_word = tt
      by_type qlf_type_variable = tt
      by_type qlf_type_constant = comma_word-Fits (symbol_cell id) f h
      by_type qlf_type_macro = comma_word-Fits (symbol_cell id) f h

  qlforth_interactive-Fits :
      (word : Name) (f : Forth)
      → Fits n f
      → Ensures (Fits n) (qlforth_interactive ops strtod fuel word f)
  unfolding qlforth_interactive
  qlforth_interactive-Fits word f h =
      dispatch-Fits (λ id s. interactive_symbol ops strtod fuel word s f)
        (number_or ops strtod fuel (push_value ops strtod fuel) word f) f.compiler.symbols.entries
        (symbol_search f.compiler.symbols word) (λ id s. interactive_symbol-Fits word s f h)
        (number_or-Fits (push_value ops strtod fuel) word f (λ v. push_value-Fits v f h))

  qlforth_interpret-Fits :
      (word : Name) (f : Forth)
      → Fits n f
      → Ensures (Fits n) (qlforth_interpret ops strtod fuel word f)
  unfolding qlforth_interpret
  qlforth_interpret-Fits word f h =
      dispatch-Fits (λ id s. interpret_symbol ops strtod fuel s f)
        (number_or ops strtod fuel (push_value ops strtod fuel) word f) f.compiler.symbols.entries
        (root_first f.compiler word) (λ id s. interpret_symbol-Fits s f h)
        (number_or-Fits (push_value ops strtod fuel) word f (λ v. push_value-Fits v f h))

  qlforth_compile-Fits :
      (word : Name) (f : Forth)
      → Fits n f
      → Ensures (Fits n) (qlforth_compile ops strtod fuel word f)
  unfolding qlforth_compile
  qlforth_compile-Fits word f h =
      dispatch-Fits (λ id s. compile_symbol ops strtod fuel id s f)
        (number_or ops strtod fuel (push_value ops strtod fuel) word f) f.compiler.symbols.entries
        (symbol_search f.compiler.symbols word) (λ id s. compile_symbol-Fits id s f h)
        (number_or-Fits (push_value ops strtod fuel) word f (λ v. push_value-Fits v f h))

  qlforth_macro-Fits :
      (word : Name) (f : Forth) → Fits n f → Ensures (Fits n) (qlforth_macro ops strtod fuel word f)
  unfolding qlforth_macro
  qlforth_macro-Fits word f h =
      dispatch-Fits (λ id s. macro_symbol ops strtod fuel id s f)
        (number_or ops strtod fuel (comma_literal ops strtod fuel) word f)
        f.compiler.symbols.entries (root_first f.compiler word) (λ id s. macro_symbol-Fits id s f h)
        (number_or-Fits (comma_literal ops strtod fuel) word f (λ v. comma_literal-Fits v f h))

  -- A word in upper case, in any state.
  pub interpret_word-Fits :
      (word : Name) (f : Forth)
      → Fits n f
      → Ensures (Fits n) (interpret_word ops strtod fuel word f)
  unfolding interpret_word
  interpret_word-Fits word f h = by_state f.compiler.state
    where
      by_state : (t : State) → Ensures (Fits n) (interpret_word ops strtod fuel word (in_state t f))
      by_state qlf_state_interactive =
          qlforth_interactive-Fits word (in_state qlf_state_interactive f) h
      by_state qlf_state_interpret = qlforth_interpret-Fits word (in_state qlf_state_interpret f) h
      by_state qlf_state_compile = qlforth_compile-Fits word (in_state qlf_state_compile f) h
      by_state qlf_state_macro = qlforth_macro-Fits word (in_state qlf_state_macro f) h
