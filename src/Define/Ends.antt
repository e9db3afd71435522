-- ===== src/Define/Ends.antt =====
-- The words at both ends of a definition: `:` with its name, and `;`.
use qlforth.Prelude.{ℕ, ◌+◌, ◌-◌, ◌/◌, ◌≤◌, ◌≡◌, refl, arith, true, false, none, some, length, ok}
use qlforth.Compile.{
  Compiler, qlf_state_compile, qlf_state_interpret, csid_colon, qlforth_alloc, clear,
}
use qlforth.Control.Grown.{appended, sst_append-ok}
use qlforth.Define.{cfp_colon, cfp_semicolon, add_word, set_symbol, start_control}
use qlforth.Functions.{sst_start}
use qlforth.Sst.{null, spc, sst_colon, sst_ret, sst_semicolon}
use qlforth.Symbols.{Name, Symbol, qlf_type_word, symbol_add}

-- The cells that a new symbol takes.
abbrev pub cells : Name → ℕ
cells name = (32 + length name - 1) / 8 + 1

-- The state behind `:` and its name.
abbrev pub named : Name → Compiler → Compiler
named name c =
    let d = record c {
      dict_buffer = clear c.here (cells name + 1) c.dict_buffer;
      here = c.here + cells name;
    } in
    record d { symbols = (symbol_add c.symbols name).0 }

abbrev pub begun : Name → Compiler → Compiler
begun name c =
    let id = (symbol_add c.symbols name).1 in
    let f : Symbol → Symbol = λ s. record s {
      type = qlf_type_word;
      fun = sst_start c.sst_current;
      value = 0;
      hidden = true;
    } in
    record (start_control csid_colon
      (appended sst_colon (spc id) (set_symbol f id (named name c)))) {
        this_create_word = some id;
        state = qlf_state_compile;
      }

add_word-ok :
    (name : Name) (c : Compiler)
    → c.here + cells name + 1 ≤ 1_048_576
    → add_word name c ≡ ok (named name c, (symbol_add c.symbols name).1)
unfolding add_word qlforth_alloc
add_word-ok name c h = ground arith

pub cfp_colon-ok :
    (name : Name) (c : Compiler)
    → c.here + cells name + 1 ≤ 1_048_576
    → c.sst_current ≤ 65535
    → cfp_colon (some name) c ≡ ok (begun name c)
unfolding cfp_colon
cfp_colon-ok name c h l =
    let id = (symbol_add c.symbols name).1 in
    let f : Symbol → Symbol = λ s. record s {
      type = qlf_type_word;
      fun = sst_start c.sst_current;
      value = 0;
      hidden = true;
    } in
    rw (add_word-ok name c h, sst_append-ok sst_colon (spc id) (set_symbol f id (named name c)) l)
      refl

-- The state behind `;`.
abbrev pub ended : ℕ → Compiler → Compiler
ended id d =
    let f : Symbol → Symbol = λ s. record s { hidden = false } in
    record (set_symbol f id
      (appended sst_semicolon null (appended sst_ret null (record d { cs_ptr = 0 })))) {
        state = qlf_state_interpret;
        this_create_word = none;
      }

pub cfp_semicolon-ok :
    (id : ℕ) (d : Compiler)
    → d.cs_ptr ≡ 2
    → (d.cs_stack 0).id ≡ csid_colon
    → d.state ≡ qlf_state_compile
    → d.this_create_word ≡ some id
    → d.sst_current ≤ 65534
    → cfp_semicolon d ≡ ok (ended id d)
unfolding cfp_semicolon
cfp_semicolon-ok id d p e t w l =
    let d₁ = record d { cs_ptr = 0 } in
    rw
      (
        p,
        e,
        t,
        sst_append-ok sst_ret null d₁ (omega arith),
        sst_append-ok sst_semicolon null (appended sst_ret null d₁) (omega arith),
        w,
      )
      refl
