-- ===== src/Code.antt =====
-- src/code.c: the code generator. Its static variables are a record; `code_buffer` is kept as
-- 16-bit words, since every store is a whole word at an even `code_ptr`, and `sst` is an index of
-- `sst_buffer`. `code_ptr_save` is the constant that `Code_init` gives it.
pub mod Assembler
pub mod Straight
pub mod Generation
pub mod Execute
pub mod Definition
pub mod Flow
mod Tests
use Prim.Native.Char.{code}
use Prim.Native.String.{String}
use qlforth.Prelude.{
  ℕ, zero, suc, ◌+◌, ◌-◌, ◌*◌, ◌/◌, ◌%◌, ◌^◌, Bool, true, false, Option, none, some, List, [], ◌∷◌,
  Result, ok, error, fault, ◌>>=◌, ltb, ◌==◌, if◌then◌else◌, update, bit_or, get_elem?, ◌&&◌,
  primitive_not_found, not_implemented,
}
use qlforth.Sst.{
  SstType, sst_noop, sst_ret, sst_semicolon, sst_variable, sst_colon, sst_literal, sst_var_ref,
  sst_word_ref, sst_label, sst_0_branch, sst_branch, sst_do, sst_loop, sst_leave, sst_i, sst_j,
  sst_for, sst_next, sst_fetch, sst_store, sst_allot, sst_add, sst_xor, sst_and, sst_or, sst_invert,
  sst_equal, sst_lt, sst_u_lt, sst_swap, sst_dup, sst_drop, sst_over, sst_nip, sst_to_r, sst_r_from,
  sst_r_fetch, sst_dsp, sst_lshift, sst_rshift, sst_1_sub, sst_2_r_from, sst_2_to_r, sst_2_r_fetch,
  sst_unloop, sst_dup_fetch, sst_dup_to_r, sst_2_dup_xor, sst_2_dup_equal, sst_store_nip,
  sst_2_dup_store, sst_up_1, sst_down_1, sst_copy, Operand, null, val, spc, sst, SstNode, is_ret,
  is_end,
}
use qlforth.Symbols.{Name, Symbol, Symbols, symbol_search, modify}

pub record Gen : Type 0 where
  pub code_ptr : ℕ
  pub code_buffer : ℕ → ℕ
  pub at : ℕ
  pub sst_buffer : ℕ → SstNode
  pub symbols : Symbols

abbrev pub code_start : ℕ
code_start = 0x0000

-- The bytes of a literal of the source.
abbrev pub bytes : String → Name
bytes String.[] = []
bytes (String.◌∷◌ c s) = code c ∷ bytes s

abbrev pub node : Gen → SstNode
node g = g.sst_buffer g.at

abbrev pub u16 : ℕ → ℕ
u16 n = n % 2 ^ 16

-- `* (unsigned short *) & code_buffer[at] = w`, which wants the word inside the array.
unfoldable pub poke : ℕ → ℕ → Gen → Result Gen
poke byte w g =
    if byte % 2 == 0 && ltb byte 0x4000
    then ok (record g { code_buffer = update g.code_buffer (byte / 2) (u16 w) })
    else fault

unfoldable pub code_word_only : ℕ → Gen → Result Gen
code_word_only opcode g = do
  g₁ ← poke g.code_ptr opcode g
  ok (record g₁ { code_ptr = g.code_ptr + 2 })

-- A return behind the word is folded into its instruction, and skipped.
unfoldable pub code_with_possible_ret : ℕ → Gen → Result Gen
code_with_possible_ret opcode g =
    if is_ret (g.sst_buffer (g.at + 1)).type
    then code_word_only (bit_or opcode 0x100C) (record g { at = g.at + 1 })
    else code_word_only opcode g

-- `value.ival` of a symbol; a pointer to no symbol is a fault.
abbrev pub ival : Option Symbol → Result ℕ
ival none = fault
ival (some s) = ok s.value

abbrev pub found : Option ℕ → Result ℕ
found none = error primitive_not_found
found (some id) = ok id

unfoldable pub code_ref_word : Name → Gen → Result Gen
code_ref_word name g = do
  id ← found (symbol_search g.symbols name)
  v ← ival (get_elem? g.symbols.entries id)
  g₁ ← poke g.code_ptr (bit_or (v % 0x2000) 0x4000) g
  ok (record g₁ { code_ptr = g.code_ptr + 2 })

-- A number with bit 15 set is loaded as its complement, which `INVERT` turns back; the bits are
-- those of the `int`.
unfoldable pub code_literal : ℕ → Gen → Result Gen
code_literal v g = if v / 0x8000 % 2 == 0 then code_word_only (0x8000 + v % 0x8000) g else do
  g₁ ← code_word_only (0x8000 + (2 ^ 32 - 1 - v) % 0x8000) g
  code_with_possible_ret 0x6600 g₁

-- The report of an unknown type, which is printed and changes nothing, is left out.
unfoldable pub alu_code_packet : SstType → Gen → Result Gen
alu_code_packet sst_noop g = code_with_possible_ret 0 g
alu_code_packet sst_add g = code_with_possible_ret 0x6203 g
alu_code_packet sst_xor g = code_with_possible_ret 0x6503 g
alu_code_packet sst_and g = code_with_possible_ret 0x6303 g
alu_code_packet sst_or g = code_with_possible_ret 0x6403 g
alu_code_packet sst_invert g = code_with_possible_ret 0x6600 g
alu_code_packet sst_equal g = code_with_possible_ret 0x6703 g
alu_code_packet sst_lt g = code_with_possible_ret 0x6803 g
alu_code_packet sst_u_lt g = code_with_possible_ret 0x6F03 g
alu_code_packet sst_swap g = code_with_possible_ret 0x6180 g
alu_code_packet sst_dup g = code_with_possible_ret 0x6081 g
alu_code_packet sst_drop g = code_with_possible_ret 0x6103 g
alu_code_packet sst_over g = code_with_possible_ret 0x6181 g
alu_code_packet sst_nip g = code_with_possible_ret 0x6003 g
alu_code_packet sst_to_r g = code_with_possible_ret 0x6147 g
alu_code_packet sst_r_from g = code_word_only 0x6B8D g
alu_code_packet sst_r_fetch g = code_with_possible_ret 0x6B81 g
alu_code_packet sst_dsp g = code_with_possible_ret 0x6E81 g
alu_code_packet sst_lshift g = code_with_possible_ret 0x6D03 g
alu_code_packet sst_rshift g = code_with_possible_ret 0x6903 g
alu_code_packet sst_1_sub g = code_with_possible_ret 0x6A00 g
alu_code_packet sst_2_r_from g = ok g
alu_code_packet sst_2_to_r g = ok g
alu_code_packet sst_2_r_fetch g = ok g
alu_code_packet sst_unloop g = do g₁ ← code_word_only 0x600C g; code_word_only 0x600C g₁
alu_code_packet sst_dup_fetch g = code_with_possible_ret 0x6C81 g
alu_code_packet sst_dup_to_r g = code_with_possible_ret 0x6044 g
alu_code_packet sst_2_dup_xor g = code_with_possible_ret 0x6541 g
alu_code_packet sst_2_dup_equal g = code_with_possible_ret 0x6781 g
alu_code_packet sst_store_nip g = code_with_possible_ret 0x6023 g
alu_code_packet sst_2_dup_store g = code_with_possible_ret 0x6020 g
alu_code_packet sst_up_1 g = code_with_possible_ret 0x6001 g
alu_code_packet sst_down_1 g = code_with_possible_ret 0x6003 g
alu_code_packet sst_copy g = code_with_possible_ret 0x6100 g
alu_code_packet sst_do g = code_ref_word (bytes "(DO)") g
alu_code_packet sst_loop g = code_ref_word (bytes "(LOOP)") g
alu_code_packet sst_leave g = code_ref_word (bytes "(LEAVE)") g
alu_code_packet sst_i g = code_ref_word (bytes "(I)") g
alu_code_packet sst_j g = error not_implemented
alu_code_packet sst_for g = code_with_possible_ret 0x6147 g
alu_code_packet sst_next g = code_ref_word (bytes "(NEXT)") g
alu_code_packet sst_ret g = code_with_possible_ret 0x100C g
alu_code_packet sst_fetch g = code_with_possible_ret 0x6C00 g
alu_code_packet sst_store g = do g₁ ← code_word_only 0x6123 g; code_with_possible_ret 0x6103 g₁
alu_code_packet _ g = ok g

-- The number and the symbol of a node, and the node that it points to.
abbrev pub number : Operand → Result ℕ
number (val v) = ok v
number _ = fault

abbrev pub symbol : Operand → Result ℕ
symbol (spc id) = ok id
symbol _ = fault

abbrev pub target : Operand → Result ℕ
target (sst i) = ok i
target _ = fault

abbrev pub set_value : ℕ → Symbol → Symbol
set_value v s = record s { value = v }

unfoldable pub define : ℕ → Gen → Gen
unfolding modify
define id g =
    let entries = modify (set_value (g.code_ptr / 2)) g.symbols.entries id in
    record g { symbols = record g.symbols { entries = entries } }

abbrev pub set_operand : Operand → SstNode → SstNode
set_operand o n = record n { operand = o }

abbrev pub set_location : ℕ → SstNode → SstNode
set_location l n = record n { location = l }

abbrev pub change_node : (SstNode → SstNode) → Gen → Gen
change_node f g = record g { sst_buffer = update g.sst_buffer g.at (f (node g)) }

-- `if (code_ptr & 0x01) code_ptr ++`.
abbrev pub align : ℕ → ℕ
align p = if p % 2 == 1 then p + 1 else p

-- One node of the first pass.
unfoldable pub generate_node : SstType → Gen → Result Gen
unfolding alu_code_packet
generate_node sst_variable g = do
  id ← symbol (node g).operand
  ok (record (define id g) { code_ptr = g.code_ptr + 2 })
generate_node sst_colon g = do id ← symbol (node g).operand; ok (define id g)
generate_node sst_semicolon g = ok g
generate_node sst_literal g = do v ← number (node g).operand; code_literal v g
generate_node sst_allot g = do
  v ← number (node g).operand
  ok (record g { code_ptr = align ((g.code_ptr + v) % 2 ^ 32) })
generate_node sst_var_ref g = do
  id ← symbol (node g).operand
  v ← ival (get_elem? g.symbols.entries id)
  code_word_only (bit_or (v % 0x2000) 0x8000) g
generate_node sst_word_ref g = do
  id ← symbol (node g).operand
  v ← ival (get_elem? g.symbols.entries id)
  code_word_only (bit_or (v % 0x2000) 0x4000) g
generate_node sst_label g = ok (change_node (set_operand (val (g.code_ptr / 2))) g)
generate_node sst_0_branch g =
    ok (record (change_node (set_location g.code_ptr) g) { code_ptr = g.code_ptr + 2 })
generate_node sst_branch g =
    ok (record (change_node (set_location g.code_ptr) g) { code_ptr = g.code_ptr + 2 })
generate_node t g = alu_code_packet t g

abbrev pub sst_node_max : ℕ
sst_node_max = 65535

abbrev pub advance : Gen → Gen
advance g = record g { at = g.at + 1 }

-- A pass over the nodes up to `SST_END`; `rounds` counts the nodes of the buffer that are left, so
-- that a pass that runs out of them has left the array.
unfoldable pub pass : (SstType → Gen → Result Gen) → ℕ → Gen → Result Gen
pass f zero g = fault
pass f (suc rounds) g =
    let rest = (do g₁ ← f (node g).type g; pass f rounds (advance g₁)) in
    if ltb sst_node_max g.at then fault else if is_end (node g).type then ok g else rest

-- One node of the second pass: the address of a branch.
unfoldable pub resolve_node : SstType → Gen → Result Gen
resolve_node sst_0_branch g = do
  t ← target (node g).operand
  v ← number (g.sst_buffer t).operand
  poke (node g).location (bit_or (v % 0x2000) 0x2000) g
resolve_node sst_branch g = do
  t ← target (node g).operand
  v ← number (g.sst_buffer t).operand
  poke (node g).location (v % 0x2000) g
resolve_node _ g = ok g

abbrev pub buffer_rounds : ℕ
buffer_rounds = sst_node_max + 1

-- `Code_generation`: `code_ptr` goes back to `code_ptr_save`, which is `CODE_START + 2`, where it
-- stands already or is put; at the end it stays, since `code_ptr_save` has its first value.
unfoldable pub code_generation : ℕ → Gen → Result Gen
code_generation sst_start g = do
  let g₀ = if g.code_ptr == code_start + 2 then g else record g { code_ptr = code_start + 2 }
  g₁ ← pass generate_node buffer_rounds (record g₀ { at = sst_start })
  pass resolve_node buffer_rounds (record g₁ { at = sst_start })
