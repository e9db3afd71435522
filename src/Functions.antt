-- ===== src/Functions.antt =====
-- The functions that a `Symbol` may hold, the constructors `prim_x`, `float_x` and `word_x` for the static functions
-- `cfp_x` and `cfp_f_x` of src/forth.c and `cfp_constant` of src/qlforth.c.
use qlforth.Prelude.{ℕ}
use qlforth.Sst.{SstType}

pub data Primitive : Type 0 where
  prim_dup prim_qdup prim_drop prim_over prim_swap prim_rot : Primitive
  prim_mrot prim_pick prim_roll prim_depth prim_plus prim_minus : Primitive
  prim_mul prim_div prim_mod prim_divmod prim_1_add prim_1_sub : Primitive
  prim_2_add prim_2_sub prim_2_mul prim_2_div prim_4_add prim_4_sub : Primitive
  prim_min prim_max prim_abs prim_negate prim_cmp_lt prim_cmp_le : Primitive
  prim_cmp_ne prim_cmp_eq prim_cmp_gt prim_cmp_ge prim_cmp_0_lt prim_cmp_0_eq : Primitive
  prim_cmp_0_gt prim_and prim_or prim_xor prim_not : Primitive

pub data FloatWord : Type 0 where
  float_plus float_minus float_mul float_div float_lt float_le : FloatWord
  float_ne float_eq float_gt float_ge float_abs float_acos : FloatWord
  float_asin float_atan float_atan2 float_cos float_exp float_float : FloatWord
  float_log float_log10 float_max float_min float_negate float_pow : FloatWord
  float_sin float_sqrt float_tan : FloatWord

pub data Immediate : Type 0 where
  word_semicolon word_macro_semicolon word_tick word_sharp word_allot word_if : Immediate
  word_else word_endif word_begin word_while word_repeat word_until : Immediate
  word_do word_loop word_leave word_for word_next : Immediate

-- The words that define others.
pub data Defining : Type 0 where
  word_colon word_variable word_macro word_constant : Defining

-- The commands of src/qlforth.c.
pub data Command : Type 0 where
  forth_make forth_quit cfp_dot_s cfp_see forth_clear : Command

-- The union of `fun` and `sst`; `extension t` is the function of src/compiler.c that appends a node `t`.
pub data Function : Type 0 where
  no_function fp_docol fp_doconst : Function
  command : Command → Function
  defining : Defining → Function
  primitive : Primitive → Function
  float : FloatWord → Function
  immediate : Immediate → Function
  extension : SstType → Function
  sst_start : ℕ → Function
