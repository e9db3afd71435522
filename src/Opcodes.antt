-- ===== src/Opcodes.antt =====
-- The instruction set of the target as a table: the J1 word of each Forth word that is a single
-- ALU instruction (the switch of `alu_code_packet` in src/code.c, written as data).
use qlforth.Prelude.{ℕ, Bool, true, false}
use qlforth.Sst.{
  SstType, sst_add, sst_xor, sst_and, sst_or, sst_invert, sst_equal, sst_lt, sst_u_lt, sst_swap,
  sst_dup, sst_drop, sst_over, sst_nip, sst_to_r, sst_r_from, sst_r_fetch, sst_lshift, sst_rshift,
  sst_1_sub, sst_dup_fetch, sst_dup_to_r, sst_2_dup_xor, sst_2_dup_equal, sst_store_nip,
  sst_2_dup_store, sst_up_1, sst_down_1, sst_copy, sst_for, sst_fetch, sst_dsp,
}

-- A word with no instruction of its own has 0.
abbrev pub opcode : SstType → ℕ
opcode sst_add = 0x6203
opcode sst_xor = 0x6503
opcode sst_and = 0x6303
opcode sst_or = 0x6403
opcode sst_invert = 0x6600
opcode sst_equal = 0x6703
opcode sst_lt = 0x6803
opcode sst_u_lt = 0x6F03
opcode sst_swap = 0x6180
opcode sst_dup = 0x6081
opcode sst_drop = 0x6103
opcode sst_over = 0x6181
opcode sst_nip = 0x6003
opcode sst_to_r = 0x6147
opcode sst_r_from = 0x6B8D
opcode sst_r_fetch = 0x6B81
opcode sst_dsp = 0x6E81
opcode sst_lshift = 0x6D03
opcode sst_rshift = 0x6903
opcode sst_1_sub = 0x6A00
opcode sst_dup_fetch = 0x6C81
opcode sst_dup_to_r = 0x6044
opcode sst_2_dup_xor = 0x6541
opcode sst_2_dup_equal = 0x6781
opcode sst_store_nip = 0x6023
opcode sst_2_dup_store = 0x6020
opcode sst_up_1 = 0x6001
opcode sst_down_1 = 0x6003
opcode sst_copy = 0x6100
opcode sst_for = 0x6147
opcode sst_fetch = 0x6C00
opcode _ = 0

-- The words that leave the return stack alone and whose instruction does what they mean.
abbrev pub is_plain : SstType → Bool
is_plain sst_add = true
is_plain sst_xor = true
is_plain sst_and = true
is_plain sst_or = true
is_plain sst_invert = true
is_plain sst_equal = true
is_plain sst_lt = true
is_plain sst_u_lt = true
is_plain sst_swap = true
is_plain sst_dup = true
is_plain sst_drop = true
is_plain sst_over = true
is_plain sst_nip = true
is_plain sst_r_fetch = true
is_plain sst_lshift = true
is_plain sst_rshift = true
is_plain sst_1_sub = true
is_plain sst_dup_fetch = true
is_plain sst_2_dup_equal = true
is_plain sst_store_nip = true
is_plain sst_2_dup_store = true
is_plain sst_down_1 = true
is_plain sst_copy = true
is_plain sst_fetch = true
is_plain _ = false
