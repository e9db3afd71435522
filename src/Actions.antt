-- ===== src/Actions.antt =====
-- The program as one state, and what the functions of the symbols do to it: the words of src/forth.c and
-- src/compiler.c, and the commands of src/qlforth.c.
use qlforth.Prelude.{
  ℕ, zero, suc, Bool, true, ◌∷◌, ◌++◌, map, get_elem?, error, word_not_found, expect_a_word, Option,
  none, some, [], ltb, if◌then◌else◌, Result, ok, fault, ◌>>=◌, update,
}
use qlforth.Chip.{Chip}
use qlforth.Compile.{Compiler}
use qlforth.Control.{
  cfp_if, cfp_else, cfp_endif, cfp_begin, cfp_while, cfp_repeat, cfp_until, cfp_do, cfp_loop,
  cfp_leave, cfp_for, cfp_next,
}
use qlforth.Define.{
  cfp_sharp, cfp_allot, cfp_macro, cfp_macro_semicolon, cfp_colon, cfp_semicolon, cfp_variable,
  cfp_constant,
}
use qlforth.Functions.{
  Immediate, word_semicolon, word_macro_semicolon, word_tick, word_sharp, word_allot, word_if,
  word_else, word_endif, word_begin, word_while, word_repeat, word_until, word_do, word_loop,
  word_leave, word_for, word_next, Defining, word_colon, word_variable, word_macro, word_constant,
  Command, forth_make, forth_quit, cfp_dot_s, cfp_see, forth_clear, Function, sst_start,
}
use qlforth.Host.{Vm, data_stack_size}
use qlforth.Scan.{Text, qlforth_token}
use qlforth.Listing.{sst_list}
use qlforth.Output.{Output, chars, decimal, hex8}
use qlforth.Symbols.{
  Name, Symbol, qlf_type_command, qlf_type_define, qlf_type_primitive, qlf_type_immediate,
  qlf_type_compile, qlf_type_word, qlf_type_variable, qlf_type_constant, qlf_type_macro,
  symbol_search, to_upper,
}

-- The whole program: `text` is what is left behind `scan_ptr`, and `exited` says that `exit` was called, and
-- `printed` is what has been printed.
pub record Forth : Type 0 where
  pub compiler : Compiler
  pub chip : Chip
  pub text : Text
  pub exited : Bool
  pub printed : Output

abbrev pub on_compiler : (Compiler → Result Compiler) → Forth → Result Forth
on_compiler k f = do c ← k f.compiler; ok (record f { compiler = c })

abbrev pub on_vm : (Vm → Result Vm) → Forth → Result Forth
on_vm k f = on_compiler (λ c. do vm ← k c.vm; ok (record c { vm = vm })) f

-- A word that reads the next one.
abbrev pub with_next :
    (Option Name → Compiler → Result Compiler) → Option (Name × Text) → Forth → Result Forth
with_next k none f = on_compiler (k none) (record f { text = [] })
with_next k (some (word, rest)) f = on_compiler (k (some word)) (record f { text = rest })

abbrev pub with_token : (Option Name → Compiler → Result Compiler) → Forth → Result Forth
with_token k f = with_next k (qlforth_token f.text) f

unfoldable pub run_immediate : Immediate → Compiler → Result Compiler
unfolding cfp_semicolon cfp_macro_semicolon cfp_sharp cfp_allot cfp_if cfp_else cfp_endif cfp_begin
    cfp_while cfp_repeat cfp_until cfp_do cfp_loop cfp_leave cfp_for cfp_next
run_immediate word_semicolon c = cfp_semicolon c
run_immediate word_macro_semicolon c = cfp_macro_semicolon c
run_immediate word_sharp c = cfp_sharp c
run_immediate word_allot c = cfp_allot c
run_immediate word_if c = cfp_if c
run_immediate word_else c = cfp_else c
run_immediate word_endif c = cfp_endif c
run_immediate word_begin c = cfp_begin c
run_immediate word_while c = cfp_while c
run_immediate word_repeat c = cfp_repeat c
run_immediate word_until c = cfp_until c
run_immediate word_do c = cfp_do c
run_immediate word_loop c = cfp_loop c
run_immediate word_leave c = cfp_leave c
run_immediate word_for c = cfp_for c
run_immediate word_next c = cfp_next c
run_immediate word_tick c = ok c

unfoldable pub run_defining : Defining → Option Name → Compiler → Result Compiler
unfolding cfp_colon cfp_variable cfp_macro cfp_constant
run_defining word_colon t c = cfp_colon t c
run_defining word_variable t c = cfp_variable t c
run_defining word_macro t c = cfp_macro t c
run_defining word_constant t c = cfp_constant t c

-- `*dp = tos`.
unfoldable pub spill_tos : Vm → Result Vm
spill_tos vm =
    if ltb vm.dp data_stack_size
    then ok (record vm { data_stack = update vm.data_stack vm.dp vm.tos })
    else fault

abbrev pub say : Output → Forth → Forth
say ps f = record f { printed = f.printed ++ ps }

-- The loop of .S, from the cell `cnt` down to 1.
unfoldable pub stack_lines : ℕ → (ℕ → ℕ) → Output
stack_lines zero stk = []
stack_lines (suc n) stk =
    chars "["
    ∷ decimal (suc n)
    ∷ chars "] "
    ∷ decimal (stk (suc n))
    ∷ chars ",  0x"
    ∷ hex8 (stk (suc n))
    ∷ chars "\n"
    ∷ stack_lines n stk

unfoldable pub dot_s : Forth → Result Forth
unfolding spill_tos stack_lines
dot_s f = do
  f₁ ← on_vm spill_tos f
  ok (say (stack_lines f₁.compiler.vm.dp f₁.compiler.vm.data_stack) f₁)

-- `spc->sst`, which only words of the target have.
abbrev pub listing : Function → Compiler → Result Output
listing (sst_start i) c = sst_list i c.sst_buffer c.symbols
listing _ c = fault

-- What SEE says of a symbol; its `dfa` is the same field of the union as its value.
unfoldable pub describe : Symbol → Compiler → Result Output
unfolding sst_list
describe s c = elim s.type [
  | qlf_type_command ↦ ok (chars "Command.\n" ∷ [])
  | qlf_type_primitive ↦ ok (chars "Primitive.\n" ∷ [])
  | qlf_type_constant ↦
      ok (chars "Constant " ∷ decimal s.value ∷ chars ", 0x" ∷ hex8 s.value ∷ chars ".\n" ∷ [])
  | qlf_type_compile ↦ ok (chars "Compile word.\n" ∷ [])
  | qlf_type_word ↦ listing s.fun c
  | qlf_type_variable ↦ ok (chars "Variable @0x" ∷ hex8 s.value ∷ chars ".\n" ∷ [])
  | qlf_type_macro ↦ ok []
  | qlf_type_define ↦ ok []
  | qlf_type_immediate ↦ ok []
]

abbrev pub described : Option Symbol → Compiler → Result Output
described none c = fault
described (some s) c = describe s c

-- SEE reads a word and looks it up; it says so where there is none.
abbrev pub see_word : Option ℕ → Forth → Result Forth
see_word none f = error word_not_found
see_word (some id) f = do
  ps ← described (get_elem? f.compiler.symbols.entries id) f.compiler
  ok (say ps f)

unfoldable pub see : Option (Name × Text) → Forth → Result Forth
unfolding describe
see none f = error expect_a_word
see (some (word, rest)) f =
    see_word (symbol_search f.compiler.symbols (map to_upper word)) (record f { text = rest })

unfoldable pub run_command : Command → Forth → Result Forth
unfolding dot_s see
run_command forth_make f = ok f
run_command forth_quit f = ok (record f { exited = true })
run_command cfp_dot_s f = dot_s f
run_command cfp_see f = see (qlforth_token f.text) f
run_command forth_clear f =
    on_compiler (λ c. ok (record c { vm = record c.vm { dp = 0 }; rp = 255 })) f
