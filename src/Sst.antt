-- ===== src/Sst.antt =====
-- The SST of src/QLForth.h: the nodes that the cross compiler appends and the code generator
-- reads. A constructor `sst_x` is the enumerator `SST_X`.
use qlforth.Prelude.{ℕ, Bool, true, false}

pub data SstType : Type 0 where
  sst_noop sst_colon sst_ret sst_semicolon sst_variable : SstType
  sst_literal sst_var_ref sst_word_ref sst_label : SstType
  sst_0_branch sst_branch sst_do sst_loop : SstType
  sst_leave sst_i sst_j sst_for : SstType
  sst_next sst_fetch sst_store sst_allot : SstType
  sst_add sst_xor sst_and sst_or sst_invert : SstType
  sst_equal sst_lt sst_u_lt sst_swap : SstType
  sst_dup sst_drop sst_over sst_nip : SstType
  sst_to_r sst_r_from sst_r_fetch sst_dsp : SstType
  sst_lshift sst_rshift sst_1_sub sst_2_r_from : SstType
  sst_2_to_r sst_2_r_fetch sst_unloop sst_dup_fetch : SstType
  sst_dup_to_r sst_2_dup_xor sst_2_dup_equal sst_store_nip : SstType
  sst_2_dup_store sst_up_1 sst_down_1 sst_copy : SstType
  sst_end : SstType

-- The union of a node: a number (an `int`, as its 32-bit pattern), the symbol of that number,
-- or the node at that index of `sst_buffer`; `null` is a pointer that is not yet filled in.
pub data Operand : Type 0 where
  null : Operand
  val spc sst : ℕ → Operand

pub record SstNode : Type 0 where
  pub location : ℕ
  pub operand : Operand
  pub type : SstType

abbrev pub sst_node : SstType → Operand → SstNode
sst_node t o = record { location = 0; operand = o; type = t }

unfoldable pub is_ret : SstType → Bool
is_ret sst_ret = true
is_ret _ = false

unfoldable pub is_end : SstType → Bool
is_end sst_end = true
is_end _ = false
