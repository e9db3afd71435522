-- ===== src/Host/Primitives.antt =====
-- The integer words of the host's table, by their functions.
use qlforth.Prelude.{Result}
use qlforth.Functions.{
  Primitive, prim_dup, prim_qdup, prim_drop, prim_over, prim_swap, prim_rot, prim_mrot, prim_pick,
  prim_roll, prim_depth, prim_plus, prim_minus, prim_mul, prim_div, prim_mod, prim_divmod,
  prim_1_add, prim_1_sub, prim_2_add, prim_2_sub, prim_2_mul, prim_2_div, prim_4_add, prim_4_sub,
  prim_min, prim_max, prim_abs, prim_negate, prim_cmp_lt, prim_cmp_le, prim_cmp_ne, prim_cmp_eq,
  prim_cmp_gt, prim_cmp_ge, prim_cmp_0_lt, prim_cmp_0_eq, prim_cmp_0_gt, prim_and, prim_or,
  prim_xor, prim_not,
}
use qlforth.Host.{
  Vm, cfp_dup, cfp_qdup, cfp_drop, cfp_over, cfp_swap, cfp_rot, cfp_mrot, cfp_pick, cfp_roll,
  cfp_depth, cfp_plus, cfp_minus, cfp_mul, cfp_div, cfp_mod, cfp_divmod, cfp_1_add, cfp_1_sub,
  cfp_2_add, cfp_2_sub, cfp_2_mul, cfp_2_div, cfp_4_add, cfp_4_sub, cfp_min, cfp_max, cfp_abs,
  cfp_negate, cfp_cmp_lt, cfp_cmp_le, cfp_cmp_ne, cfp_cmp_eq, cfp_cmp_gt, cfp_cmp_ge, cfp_cmp_0_lt,
  cfp_cmp_0_eq, cfp_cmp_0_gt, cfp_and, cfp_or, cfp_xor, cfp_not,
}

unfoldable pub run_primitive : Primitive → Vm → Result Vm
unfolding cfp_dup cfp_qdup cfp_drop cfp_over cfp_swap cfp_rot cfp_mrot cfp_pick cfp_roll cfp_depth
    cfp_plus cfp_minus cfp_mul cfp_div cfp_mod cfp_divmod cfp_1_add cfp_1_sub cfp_2_add cfp_2_sub
    cfp_2_mul cfp_2_div cfp_4_add cfp_4_sub cfp_min cfp_max cfp_abs cfp_negate cfp_cmp_lt cfp_cmp_le
    cfp_cmp_ne cfp_cmp_eq cfp_cmp_gt cfp_cmp_ge cfp_cmp_0_lt cfp_cmp_0_eq cfp_cmp_0_gt cfp_and
    cfp_or cfp_xor cfp_not
run_primitive prim_dup vm = cfp_dup vm
run_primitive prim_qdup vm = cfp_qdup vm
run_primitive prim_drop vm = cfp_drop vm
run_primitive prim_over vm = cfp_over vm
run_primitive prim_swap vm = cfp_swap vm
run_primitive prim_rot vm = cfp_rot vm
run_primitive prim_mrot vm = cfp_mrot vm
run_primitive prim_pick vm = cfp_pick vm
run_primitive prim_roll vm = cfp_roll vm
run_primitive prim_depth vm = cfp_depth vm
run_primitive prim_plus vm = cfp_plus vm
run_primitive prim_minus vm = cfp_minus vm
run_primitive prim_mul vm = cfp_mul vm
run_primitive prim_div vm = cfp_div vm
run_primitive prim_mod vm = cfp_mod vm
run_primitive prim_divmod vm = cfp_divmod vm
run_primitive prim_1_add vm = cfp_1_add vm
run_primitive prim_1_sub vm = cfp_1_sub vm
run_primitive prim_2_add vm = cfp_2_add vm
run_primitive prim_2_sub vm = cfp_2_sub vm
run_primitive prim_2_mul vm = cfp_2_mul vm
run_primitive prim_2_div vm = cfp_2_div vm
run_primitive prim_4_add vm = cfp_4_add vm
run_primitive prim_4_sub vm = cfp_4_sub vm
run_primitive prim_min vm = cfp_min vm
run_primitive prim_max vm = cfp_max vm
run_primitive prim_abs vm = cfp_abs vm
run_primitive prim_negate vm = cfp_negate vm
run_primitive prim_cmp_lt vm = cfp_cmp_lt vm
run_primitive prim_cmp_le vm = cfp_cmp_le vm
run_primitive prim_cmp_ne vm = cfp_cmp_ne vm
run_primitive prim_cmp_eq vm = cfp_cmp_eq vm
run_primitive prim_cmp_gt vm = cfp_cmp_gt vm
run_primitive prim_cmp_ge vm = cfp_cmp_ge vm
run_primitive prim_cmp_0_lt vm = cfp_cmp_0_lt vm
run_primitive prim_cmp_0_eq vm = cfp_cmp_0_eq vm
run_primitive prim_cmp_0_gt vm = cfp_cmp_0_gt vm
run_primitive prim_and vm = cfp_and vm
run_primitive prim_or vm = cfp_or vm
run_primitive prim_xor vm = cfp_xor vm
run_primitive prim_not vm = cfp_not vm
