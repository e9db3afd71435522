-- ===== src/Control.antt =====
-- The control words of src/forth.c: in the compile state they append nodes to the SST, in the macro
-- state they write cells of the dictionary; the control stack holds what is open.
pub mod Structure
pub mod Nodes
pub mod Grown
pub mod Words
pub mod Steps
pub mod Kept
pub mod Errors
pub mod Correct
mod Tests
use qlforth.Prelude.{
  ℕ, zero, suc, ◌+◌, ◌-◌, ◌==◌, Bool, true, false, Option, none, some, ltb, if◌then◌else◌, Result,
  ok, error, fault, ◌>>=◌, update, Message, no_if_for_else, no_if_for_endif, no_begin_for_while,
  no_while_for_repeat, no_while_for_until, no_do_for_loop, no_do_for_leave, no_for_for_next,
}
use qlforth.Compile.{
  State, qlf_state_interactive, qlf_state_interpret, qlf_state_compile, qlf_state_macro, Csid,
  csid_none, csid_colon, csid_macro, csid_if, csid_begin, csid_while, csid_do, csid_for, Link,
  unset, sst_link, pos_link, Control, Cell, ival, address, routine, symbol_0branch, symbol_branch,
  symbol_do_loop, symbol_do_exit, symbol_do_for_next, Compiler, sst_append, fill_node, comma,
}
use qlforth.Sst.{
  sst_0_branch, sst_branch, sst_label, sst_do, sst_loop, sst_leave, sst_for, sst_next, Operand,
  null, sst,
}

unfoldable pub compiling : Compiler → Bool
compiling c = elim c.state [ qlf_state_compile ↦ true | _ ↦ false ]

abbrev pub same_csid : Csid → Csid → Bool
same_csid csid_none csid_none = true
same_csid csid_colon csid_colon = true
same_csid csid_macro csid_macro = true
same_csid csid_if csid_if = true
same_csid csid_begin csid_begin = true
same_csid csid_while csid_while = true
same_csid csid_do csid_do = true
same_csid csid_for csid_for = true
same_csid _ _ = false

-- The entry at `cs_ptr`; in front of the array there is none.
unfoldable pub top : Compiler → Result Control
top c = elim c.cs_ptr [ zero ↦ fault | suc i ↦ ok (c.cs_stack i) ]

-- `cs_stack[MAX_CONTROL_STACK_DEEP + 1]`.
abbrev pub control_cells : ℕ
control_cells = 129

-- `cs_ptr++` and the new entry.
unfoldable pub open_entry : Csid → Link → Compiler → Result Compiler
open_entry id l c =
    if ltb c.cs_ptr control_cells
    then ok (record c {
      cs_stack = update c.cs_stack c.cs_ptr (record { id = id; link = l });
      cs_ptr = c.cs_ptr + 1;
    })
    else fault

abbrev pub close_entry : Compiler → Compiler
close_entry c = record c { cs_ptr = c.cs_ptr - 1 }

-- The union of the entry at `cs_ptr`.
abbrev pub set_link : Link → Compiler → Compiler
set_link l c =
    let i = c.cs_ptr - 1 in
    record c { cs_stack = update c.cs_stack i (record (c.cs_stack i) { link = l }) }

unfoldable pub expect : Csid → Message → Compiler → Result Link
unfolding top
expect id m c = do e ← top c; if same_csid e.id id then ok e.link else error m

abbrev pub as_sst : Link → Result ℕ
as_sst (sst_link i) = ok i
as_sst _ = fault

abbrev pub as_pos : Link → Result ℕ
as_pos (pos_link p) = ok p
as_pos _ = fault

-- `pos->ptr = x`.
abbrev pub fill_cell : ℕ → Cell → Compiler → Compiler
fill_cell p x c = record c { dict_buffer = update c.dict_buffer p x }

-- A routine and a cell after it.
abbrev pub comma_2 : Cell → Cell → Compiler → Result Compiler
comma_2 x y c = do c₁ ← comma x c; comma y c₁

-- `ql4thvm_here++`: a cell that is filled later.
abbrev pub hole : Compiler → Result Compiler
hole c = if ltb c.here 1_048_580 then ok (record c { here = c.here + 1 }) else fault

unfoldable pub cfp_if : Compiler → Result Compiler
cfp_if c =
    if compiling c
    then (do c₁ ← sst_append sst_0_branch null c; open_entry csid_if (sst_link c.sst_current) c₁)
    else (do
      c₁ ← comma (routine symbol_0branch) c
      c₂ ← open_entry csid_if (pos_link c₁.here) c₁
      hole c₂)

unfoldable pub cfp_else : Compiler → Result Compiler
cfp_else c = do
  l ← expect csid_if no_if_for_else c
  if compiling c
      then (do
        i ← as_sst l
        c₁ ← sst_append sst_branch null c
        c₂ ← sst_append sst_label null c₁
        ok (set_link (sst_link c.sst_current) (fill_node i (sst c₁.sst_current) c₂)))
      else (do
        p ← as_pos l
        c₁ ← comma (routine symbol_branch) c
        c₂ ← hole c₁
        ok (set_link (pos_link c₁.here) (fill_cell p (address c₂.here) c₂)))

unfoldable pub cfp_endif : Compiler → Result Compiler
cfp_endif c = do
  l ← expect csid_if no_if_for_endif c
  if compiling c
      then (do
        i ← as_sst l
        c₁ ← sst_append sst_label null c
        ok (close_entry (fill_node i (sst c.sst_current) c₁)))
      else (do p ← as_pos l; ok (close_entry (fill_cell p (address c.here) c)))

unfoldable pub cfp_begin : Compiler → Result Compiler
cfp_begin c =
    if compiling c
    then (do c₁ ← sst_append sst_label null c; open_entry csid_begin (sst_link c.sst_current) c₁)
    else open_entry csid_begin (pos_link c.here) c

unfoldable pub cfp_while : Compiler → Result Compiler
cfp_while c = do
  _ ← expect csid_begin no_begin_for_while c
  if compiling c
      then (do
        c₁ ← sst_append sst_0_branch null c
        open_entry csid_while (sst_link c.sst_current) c₁)
      else (do
        c₁ ← comma (routine symbol_0branch) c
        c₂ ← open_entry csid_while (pos_link c₁.here) c₁
        hole c₂)

unfoldable pub cfp_repeat : Compiler → Result Compiler
cfp_repeat c = do
  l ← expect csid_while no_while_for_repeat c
  below ← top (close_entry c)
  if compiling c
      then (do
        i ← as_sst l
        b ← as_sst below.link
        c₁ ← sst_append sst_branch null c
        c₂ ← sst_append sst_label null c₁
        let c₃ = fill_node i (sst c₁.sst_current) c₂
        ok (close_entry (close_entry (fill_node c.sst_current (sst b) c₃))))
      else (do
        p ← as_pos l
        b ← as_pos below.link
        let c₁ = fill_cell p (address (c.here + 2)) c
        c₂ ← comma_2 (routine symbol_branch) (address b) c₁
        ok (close_entry (close_entry c₂)))

unfoldable pub cfp_until : Compiler → Result Compiler
cfp_until c = do
  l ← expect csid_begin no_while_for_until c
  if compiling c
      then (do i ← as_sst l; c₁ ← sst_append sst_0_branch (sst i) c; ok (close_entry c₁))
      else (do
        p ← as_pos l
        let c₁ = fill_cell p (address (c.here + 2)) c
        c₂ ← comma_2 (routine symbol_0branch) (address p) c₁
        ok (close_entry c₂))

unfoldable pub cfp_do : Compiler → Result Compiler
cfp_do c =
    if compiling c
    then (do c₁ ← sst_append sst_do null c; open_entry csid_do (sst_link c.sst_current) c₁)
    else open_entry csid_do (pos_link c.here) c

unfoldable pub cfp_loop : Compiler → Result Compiler
cfp_loop c = do
  l ← expect csid_do no_do_for_loop c
  if compiling c
      then (do i ← as_sst l; c₁ ← sst_append sst_loop (sst i) c; ok (close_entry c₁))
      else (do
        p ← as_pos l
        c₁ ← comma_2 (routine symbol_do_loop) (address p) c
        ok (close_entry c₁))

-- The walk of LEAVE down the control stack, from the entry of index `i`; the bottom entry and a colon
-- end it without success.
unfoldable pub find_do : (ℕ → Control) → ℕ → Option Link
find_do s zero = none
find_do s (suc i) = elim (s (suc i)).id [
  | csid_colon ↦ none
  | csid_do ↦ some (s (suc i)).link
  | _ ↦ find_do s i
]

abbrev pub or_error {ℓ} : {A : Type ℓ} → Message → Option A → Result A
or_error m none = error m
or_error m (some a) = ok a

unfoldable pub cfp_leave : Compiler → Result Compiler
unfolding find_do
cfp_leave c = do
  _ ← top c
  l ← or_error no_do_for_leave (find_do c.cs_stack (c.cs_ptr - 1))
  if compiling c then (do i ← as_sst l; sst_append sst_leave (sst i) c) else (do
    c₁ ← comma (routine symbol_do_exit) c
    comma (ival 0) (set_link (pos_link c₁.here) c₁))

unfoldable pub cfp_for : Compiler → Result Compiler
cfp_for c =
    if compiling c
    then (do c₁ ← sst_append sst_for null c; open_entry csid_for (sst_link c.sst_current) c₁)
    else open_entry csid_for (pos_link c.here) c

-- In the macro state the node is appended as well, with a pointer into the dictionary in it, which is
-- left out here: nothing reads it.
unfoldable pub cfp_next : Compiler → Result Compiler
cfp_next c = do
  l ← expect csid_for no_for_for_next c
  if compiling c
      then (do i ← as_sst l; c₁ ← sst_append sst_next (sst i) c; ok (close_entry c₁))
      else (do
        p ← as_pos l
        c₁ ← sst_append sst_next null c
        c₂ ← comma_2 (routine symbol_do_for_next) (address p) c₁
        ok (close_entry c₂))
