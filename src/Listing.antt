-- ===== src/Listing.antt =====
-- The listing of the SST in src/compiler.c, which SEE prints of a word of the target.

pub mod Lines
mod Tests
use Prim.Native.String.{String}
use qlforth.Prelude.{
  ℕ, zero, suc, ◌+◌, Bool, true, false, Option, none, some, List, [], ◌∷◌, ◌++◌, Result, ok, fault,
  ◌>>=◌, ltb, if◌then◌else◌, get_elem?,
}
use qlforth.Code.{sst_node_max}
use qlforth.Output.{Output, chars, decimal, hex8, hex4, letters}
use qlforth.Sst.{
  SstType, sst_noop, sst_colon, sst_ret, sst_semicolon, sst_variable, sst_literal, sst_var_ref,
  sst_word_ref, sst_label, sst_0_branch, sst_branch, sst_do, sst_loop, sst_leave, sst_i, sst_j,
  sst_for, sst_next, sst_fetch, sst_store, sst_allot, sst_add, sst_xor, sst_and, sst_or, sst_invert,
  sst_equal, sst_lt, sst_u_lt, sst_swap, sst_dup, sst_drop, sst_over, sst_nip, sst_to_r, sst_r_from,
  sst_r_fetch, sst_dsp, sst_lshift, sst_rshift, sst_1_sub, sst_2_r_from, sst_2_to_r, sst_2_r_fetch,
  sst_unloop, sst_dup_fetch, sst_dup_to_r, sst_2_dup_xor, sst_2_dup_equal, sst_store_nip,
  sst_2_dup_store, sst_up_1, sst_down_1, sst_copy, Operand, null, val, spc, sst, SstNode,
}
use qlforth.Symbols.{Symbol, Symbols}

-- `instr[word - SST_ADD]`.
abbrev pub instr : SstType → Option String
instr sst_add = some "+"
instr sst_xor = some "xor"
instr sst_and = some "and"
instr sst_or = some "or"
instr sst_invert = some "invert"
instr sst_equal = some "="
instr sst_lt = some "<"
instr sst_u_lt = some "u<"
instr sst_swap = some "swap"
instr sst_dup = some "dup"
instr sst_drop = some "drop"
instr sst_over = some "over"
instr sst_nip = some "nip"
instr sst_to_r = some ">r"
instr sst_r_from = some "r>"
instr sst_r_fetch = some "r@"
instr sst_dsp = some "dsp"
instr sst_lshift = some "lshift"
instr sst_rshift = some "rshift"
instr sst_1_sub = some "1-"
instr sst_2_r_from = some "2r>"
instr sst_2_to_r = some "2>r"
instr sst_2_r_fetch = some "2r@"
instr sst_unloop = some "unloop"
instr sst_dup_fetch = some "dup@"
instr sst_dup_to_r = some "dup>r"
instr sst_2_dup_xor = some "2dupxor"
instr sst_2_dup_equal = some "2dup="
instr sst_store_nip = some "!nip"
instr sst_2_dup_store = some "2dup!"
instr sst_up_1 = some "UP1"
instr sst_down_1 = some "DOWN1"
instr sst_copy = some "COPY"
instr _ = none

-- Behind the report of an unknown type the function goes on, and reads out of the table.
abbrev pub display_instr : Option String → Result Output
display_instr none = fault
display_instr (some s) = ok (chars s ∷ chars "\n" ∷ [])

-- The union of the node as a number, a symbol and a node; a pointer not filled in is the number 0.
abbrev pub val_of : Operand → Result ℕ
val_of null = ok 0
val_of (val v) = ok v
val_of _ = fault

abbrev pub spc_of : Operand → Result ℕ
spc_of (spc id) = ok id
spc_of _ = fault

abbrev pub sst_of : Operand → Result ℕ
sst_of (sst i) = ok i
sst_of _ = fault

-- A text, and the symbol of the node behind it: its name, and its `dfa`, which is the same field of the union as its
-- value, with the text before it.
abbrev pub with_name : String → Option Symbol → Result Output
with_name before none = fault
with_name before (some s) = ok (chars before ∷ letters s.name ∷ chars "\n" ∷ [])

abbrev pub with_dfa : String → String → String → Option Symbol → Result Output
with_dfa before between behind none = fault
with_dfa before between behind (some s) =
    ok (chars before ∷ letters s.name ∷ chars between ∷ hex4 s.value ∷ chars behind ∷ [])

abbrev pub with_target : String → Operand → Result Output
with_target s o = do i ← sst_of o; ok (chars s ∷ hex8 i ∷ chars "\n" ∷ [])

-- The line of a node behind its label.
unfoldable pub node_line : Symbols → SstType → Operand → Result Output
node_line y sst_noop o = ok (chars "No Operation.\n" ∷ [])
node_line y sst_colon o = do
  id ← spc_of o
  with_dfa " ...... " " ( 0x" " ) .......\n" (get_elem? y.entries id)
node_line y sst_ret o = ok (chars "RETURN\n" ∷ [])
node_line y sst_semicolon o = ok (chars "END -; \n\n" ∷ [])
node_line y sst_variable o = do
  id ← spc_of o
  with_dfa "VARIABLE " " @ 0x" ".\n" (get_elem? y.entries id)
node_line y sst_literal o = do
  v ← val_of o
  ok (chars "LITERAL " ∷ decimal v ∷ chars ", 0x" ∷ hex8 v ∷ chars ".\n" ∷ [])
node_line y sst_var_ref o = do id ← spc_of o; with_name "VAR REF " (get_elem? y.entries id)
node_line y sst_word_ref o = do id ← spc_of o; with_name "CALL WORD " (get_elem? y.entries id)
node_line y sst_label o = do v ← val_of o; ok (chars "LABEL @ L_" ∷ hex8 v ∷ chars "\n" ∷ [])
node_line y sst_0_branch o = with_target "ZERO BRANCH \tL_" o
node_line y sst_branch o = with_target "BRANCH \t\tL_" o
node_line y sst_do o = ok (chars "DO\n" ∷ [])
node_line y sst_loop o = with_target "LOOP \t\tL_" o
node_line y sst_leave o = with_target "LEAVE\t\tL_" o
node_line y sst_i o = ok (chars "I\n" ∷ [])
node_line y sst_j o = ok (chars "J\n" ∷ [])
node_line y sst_for o = ok (chars "FOR\n" ∷ [])
node_line y sst_next o = with_target "NEXT \t\tL_" o
node_line y sst_fetch o = ok (chars "@\n" ∷ [])
node_line y sst_store o = ok (chars "!\n" ∷ [])
node_line y sst_allot o = do v ← val_of o; ok (chars "ALLOT  " ∷ decimal v ∷ chars " Bytes\n" ∷ [])
node_line y t o = display_instr (instr t)

unfoldable pub is_semicolon : SstType → Bool
is_semicolon sst_semicolon = true
is_semicolon _ = false

-- `L_%08X  ` and the line.
abbrev pub labelled : ℕ → Output → Output
labelled i line = chars "L_" ∷ hex8 i ∷ chars "  " ∷ line

-- The loop; `rounds` counts the nodes of the buffer that are left, so that a loop that runs out of them has left the
-- array.
unfoldable pub list_loop : Symbols → (ℕ → SstNode) → ℕ → ℕ → Result Output
unfolding node_line is_semicolon
list_loop y b zero ptr = fault
list_loop y b (suc rounds) ptr =
    let rest = (do
      line ← node_line y (b ptr).type (b ptr).operand
      more ← list_loop y b rounds (ptr + 1)
      ok (labelled ptr line ++ more)) in
    if ltb sst_node_max ptr then fault else if is_semicolon (b ptr).type then ok [] else rest

unfoldable pub sst_list : ℕ → (ℕ → SstNode) → Symbols → Result Output
unfolding list_loop
sst_list start b y = list_loop y b (sst_node_max + 1) start
