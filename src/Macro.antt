-- ===== src/Macro.antt =====
-- The inner interpreter of macros, in src/forth.c (`fp_docol` to `fp_do_loop`) and src/qlforth.c
-- (`fp_doliteral`, `fp_doconst`, `macro_execute`). `program_counter` is an index of the dictionary, or `none` for
-- NULL. The data stack and the return addresses share `data_stack` in the source; a round that makes them
-- meet is a fault. `ql4thvm_force_break` is not set while a macro runs.
pub mod Returns
mod Tests
use qlforth.Prelude.{
  ℕ, zero, suc, ◌+◌, ◌-◌, Bool, true, false, Option, none, some, leb, ltb, ◌==◌, if◌then◌else◌,
  Result, ok, error, fault, timeout, ◌>>=◌, update, get_elem?,
}
use qlforth.Compile.{
  Compiler, Cell, ival, symbol_cell, address, routine, Routine, symbol_0branch, symbol_branch,
  symbol_do_loop, symbol_do_exit, symbol_do_for_next, symbol_do_next, symbol_do_literal, dict_cells,
}
use qlforth.Floats.{FloatOps, float_word}
use qlforth.Functions.{Function, fp_docol, fp_doconst, primitive, float}
use qlforth.Host.Primitives.{run_primitive}
use qlforth.Host.{Vm, peek, qlforth_push, signed_lt, add32, sub32}
use qlforth.Symbols.{Symbol}

-- Where a macro is, and what it works on.
pub record Running : Type 0 where
  pub program_counter : Option ℕ
  pub host : Compiler

abbrev pub set_pc : Option ℕ → Running → Running
set_pc pc m = record m { program_counter = pc }

abbrev pub set_vm : Vm → Running → Running
set_vm vm m = record m { host = record m.host { vm = vm } }

-- `tos = *(--dp)`.
abbrev pub drop_vm : Running → Result Running
drop_vm m = do
  n ← peek 1 m.host.vm
  ok (set_vm (record m.host.vm { tos = n; dp = m.host.vm.dp - 1 }) m)

-- The cell at `program_counter`.
unfoldable pub cell_at : Running → Result (ℕ × Cell)
cell_at m = elim m.program_counter [
  | none ↦ fault
  | some pc ↦ if ltb pc dict_cells then ok (pc, m.host.dict_buffer pc) else fault
]

-- A cell that is read as a place in the dictionary.
abbrev pub as_address : Cell → Result (Option ℕ)
as_address (address a) = ok (some a)
as_address (ival zero) = ok none
as_address (ival (suc n)) = fault
as_address (symbol_cell id) = fault
as_address (routine r) = fault

abbrev pub as_ival : Cell → Result ℕ
as_ival (ival n) = ok n
as_ival _ = fault

-- `program_counter = *(Symbol ***) program_counter`.
unfoldable pub fp_branch : Running → Result Running
unfolding cell_at
fp_branch m = do (pc, cell) ← cell_at m; a ← as_address cell; ok (set_pc a m)

-- `program_counter++`.
unfoldable pub skip_cell : Running → Result Running
unfolding cell_at
skip_cell m = do (pc, cell) ← cell_at m; ok (set_pc (some (pc + 1)) m)

unfoldable pub do_docol : ℕ → Running → Result Running
do_docol dfa m =
    if ltb m.host.vm.dp m.host.rp
    then ok (record m {
      program_counter = some dfa;
      host = record m.host {
        rp = m.host.rp - 1;
        ret_stack = update m.host.ret_stack (m.host.rp - 1) m.program_counter;
      };
    })
    else fault

-- `rp++`, and then the cell at `rp`.
unfoldable pub fp_donext : Running → Result Running
fp_donext m =
    if ltb (m.host.rp + 1) 258
    then ok (record m {
      program_counter = m.host.ret_stack (m.host.rp + 1);
      host = record m.host { rp = m.host.rp + 1 };
    })
    else fault

unfoldable pub fp_0branch : Running → Result Running
unfolding fp_branch skip_cell
fp_0branch m = do m₁ ← if m.host.vm.tos == 0 then fp_branch m else skip_cell m; drop_vm m₁

unfoldable pub fp_do_for_next : Running → Result Running
unfolding fp_branch skip_cell
fp_do_for_next m =
    let vm = m.host.vm in
    let t = sub32 vm.tos 1 in
    let m₁ = set_vm (record vm { tos = t }) m in
    if signed_lt 0 t then fp_branch m₁ else (do m₂ ← drop_vm m₁; skip_cell m₂)

unfoldable pub fp_do_loop : Running → Result Running
unfolding fp_branch skip_cell
fp_do_loop m = do
  let vm = m.host.vm
  let t = add32 vm.tos 1
  limit ← peek 1 vm
  if signed_lt t limit
      then fp_branch (set_vm (record vm { tos = t }) m)
      else (do below ← peek 2 vm; skip_cell (set_vm (record vm { tos = below; dp = vm.dp - 2 }) m))

unfoldable pub fp_doliteral : Running → Result Running
unfolding cell_at
fp_doliteral m = do
  (pc, cell) ← cell_at m
  n ← as_ival cell
  vm ← qlforth_push n m.host.vm
  ok (set_pc (some (pc + 1)) (set_vm vm m))

unfoldable pub run_routine : Routine → Running → Result Running
unfolding fp_0branch fp_branch fp_do_loop fp_do_for_next fp_donext fp_doliteral
run_routine symbol_0branch m = fp_0branch m
run_routine symbol_branch m = fp_branch m
run_routine symbol_do_loop m = fp_do_loop m
run_routine symbol_do_exit m = fp_branch m
run_routine symbol_do_for_next m = fp_do_for_next m
run_routine symbol_do_next m = fp_donext m
run_routine symbol_do_literal m = fp_doliteral m

abbrev pub with_vm : Result Vm → Running → Result Running
with_vm r m = do vm ← r; ok (set_vm vm m)

module _ (ops : FloatOps) where
  -- `ThisExecuteWord->fun()` for a symbol that a macro may hold.
  unfoldable pub run_symbol : Option Symbol → Running → Result Running
  unfolding do_docol run_primitive float_word
  run_symbol none m = fault
  run_symbol (some s) m = elim s.fun [
    | fp_docol ↦ do_docol s.value m
    | fp_doconst ↦ with_vm (qlforth_push s.value m.host.vm) m
    | primitive p ↦ with_vm (run_primitive p m.host.vm) m
    | float f ↦ with_vm (float_word ops f m.host.vm) m
    | _ ↦ fault
  ]

  unfoldable pub run_cell : Cell → Running → Result Running
  unfolding run_routine run_symbol
  run_cell (routine r) m = run_routine r m
  run_cell (symbol_cell id) m = run_symbol (get_elem? m.host.symbols.entries id) m
  run_cell (ival n) m = fault
  run_cell (address a) m = fault

  -- One round of the loop of `macro_execute`.
  unfoldable pub macro_round : Running → Result Running
  unfolding cell_at run_cell
  macro_round m = do
    (pc, cell) ← cell_at m
    m₁ ← run_cell cell (set_pc (some (pc + 1)) m)
    if leb m₁.host.vm.dp m₁.host.rp then ok m₁ else fault

  abbrev pub continue : (Running → Result Compiler) → Result Running → Result Compiler
  continue loop r = r >>= loop

  unfoldable pub macro_loop : ℕ → Running → Result Compiler
  unfolding macro_round
  macro_loop zero m = timeout
  macro_loop (suc fuel) m = elim m.program_counter [
    | none ↦ ok m.host
    | some pc ↦ continue (macro_loop fuel) (macro_round m)
  ]

  -- `macro_execute` of a symbol that `::` made.
  unfoldable pub macro_execute : ℕ → Symbol → Compiler → Result Compiler
  unfolding run_symbol macro_loop
  macro_execute fuel s c = do
    m ← run_symbol (some s) (record { program_counter = none; host = c })
    macro_loop fuel m
