-- ===== src/Define.antt =====
-- The defining words of src/forth.c and the constant of src/qlforth.c. The token that such a word reads
-- is its argument: `none` where the text has ended.
pub mod Ends
pub mod Definition
pub mod Errors
mod Tests
use qlforth.Prelude.{
  ℕ, ◌+◌, ◌==◌, true, false, Option, none, some, length, map, Result, ok, error, ◌>>=◌,
  if◌then◌else◌, fault, expect_a_word, word_not_found, structure_mismatched, state_changed, update,
}
use qlforth.Compile.{
  qlf_state_interpret, qlf_state_compile, qlf_state_macro, Csid, csid_colon, csid_macro, routine,
  symbol_do_next, Compiler, sst_append, qlforth_alloc, comma,
}
use qlforth.Control.{same_csid}
use qlforth.Functions.{fp_docol, fp_doconst, sst_start}
use qlforth.Host.{cfp_drop}
use qlforth.Sst.{
  null, val, spc, sst_literal, sst_allot, sst_colon, sst_ret, sst_semicolon, sst_variable,
}
use qlforth.Symbols.{
  Name, Symbol, qlf_type_macro, qlf_type_word, qlf_type_variable, qlf_type_constant, symbol_search,
  symbol_add, to_upper, modify,
}

abbrev pub token : Option Name → Result Name
token none = error expect_a_word
token (some name) = ok name

unfoldable pub cfp_tick : Option Name → Compiler → Result Compiler
cfp_tick t c = do
  name ← token t
  elim (symbol_search c.symbols (map to_upper name)) [
    | none ↦ error word_not_found
    | some id ↦ ok c
  ]

-- `tos` goes into the operand of a new node and off the stack.
abbrev pub drop_tos : Compiler → Result Compiler
drop_tos c = do v ← cfp_drop c.vm; ok (record c { vm = v })

unfoldable pub cfp_sharp : Compiler → Result Compiler
cfp_sharp c = do c₁ ← sst_append sst_literal (val c.vm.tos) c; drop_tos c₁

unfoldable pub cfp_allot : Compiler → Result Compiler
cfp_allot c = do c₁ ← sst_append sst_allot (val c.vm.tos) c; drop_tos c₁

-- `QLForth_symbol_add` with the space it takes: a `Symbol` is of 32 bytes.
unfoldable pub add_word : Name → Compiler → Result (Compiler × ℕ)
add_word name c = do
  c₁ ← qlforth_alloc (32 + length name) c
  let (t, id) = symbol_add c₁.symbols name in ok (record c₁ { symbols = t }, id)

abbrev pub set_symbol : (Symbol → Symbol) → ℕ → Compiler → Compiler
set_symbol f id c =
    let entries = modify f c.symbols.entries id in
    record c { symbols = record c.symbols { entries = entries } }

-- `cs_ptr = &cs_stack[0]`, its identifier, and one entry more that is not written.
abbrev pub start_control : Csid → Compiler → Compiler
start_control id c = record c {
  cs_stack = update c.cs_stack 0 (record (c.cs_stack 0) { id = id });
  cs_ptr = 2;
}

unfoldable pub cfp_macro : Option Name → Compiler → Result Compiler
cfp_macro t c = do
  name ← token t
  (c₁, id) ← add_word name c
  let f : Symbol → Symbol =
        λ s. record s { type = qlf_type_macro; fun = fp_docol; value = c₁.here; hidden = true } in
      ok (record (start_control csid_macro (set_symbol f id c₁)) {
        this_create_word = some id;
        state = qlf_state_macro;
      })

unfoldable pub cfp_colon : Option Name → Compiler → Result Compiler
cfp_colon t c = do
  name ← token t
  (c₁, id) ← add_word name c
  let f : Symbol → Symbol = λ s. record s {
    type = qlf_type_word;
    fun = sst_start c₁.sst_current;
    value = 0;
    hidden = true;
  } in
      do
        c₂ ← sst_append sst_colon (spc id) (set_symbol f id c₁)
        ok (record (start_control csid_colon c₂) {
          this_create_word = some id;
          state = qlf_state_compile;
        })

-- The test that both semicolons begin with: the entry under `cs_ptr` is the bottom one and `id`.
abbrev pub at_bottom : Csid → Compiler → Result Compiler
at_bottom id c =
    if c.cs_ptr == 2
    then if same_csid (c.cs_stack 0).id id
      then ok (record c { cs_ptr = 0 })
      else error structure_mismatched
    else error structure_mismatched

-- `ThisCreateWord->hidden = 0; ThisCreateWord = NULL`.
abbrev pub reveal : Compiler → Result Compiler
reveal c = elim c.this_create_word [
  | none ↦ fault
  | some id ↦
      ok (record (set_symbol (λ s. record s { hidden = false }) id c) { this_create_word = none })
]

unfoldable pub cfp_macro_semicolon : Compiler → Result Compiler
cfp_macro_semicolon c = do
  c₁ ← at_bottom csid_macro c
  elim c₁.state [
    | qlf_state_macro ↦ (do
      c₂ ← comma (routine symbol_do_next) c₁
      reveal (record c₂ { state = qlf_state_interpret }))
    | _ ↦ error state_changed
  ]

unfoldable pub cfp_semicolon : Compiler → Result Compiler
cfp_semicolon c = do
  c₁ ← at_bottom csid_colon c
  elim c₁.state [
    | qlf_state_compile ↦ (do
      c₂ ← sst_append sst_ret null c₁
      c₃ ← sst_append sst_semicolon null c₂
      reveal (record c₃ { state = qlf_state_interpret }))
    | _ ↦ error state_changed
  ]

unfoldable pub cfp_variable : Option Name → Compiler → Result Compiler
cfp_variable t c = do
  name ← token t
  (c₁, id) ← add_word name c
  let f : Symbol → Symbol = λ s. record s { type = qlf_type_variable; value = 0 } in
      do
        c₂ ← sst_append sst_variable (spc id) (set_symbol f id c₁)
        ok (record c₂ { here = c₂.here + 1 })

unfoldable pub cfp_constant : Option Name → Compiler → Result Compiler
cfp_constant t c = do
  name ← token t
  (c₁, id) ← add_word name c
  drop_tos (
      set_symbol (λ s. record s { type = qlf_type_constant; fun = fp_doconst; value = c.vm.tos }) id
        c₁)
