-- ===== src/Host/Lists/Computed.antt =====
-- Every integer word of the host does to the list of numbers what its computation says.
use mathlib.Core.Option.{some_inj}
use mathlib.Core.Path.{subst}
use qlforth.Prelude.{
  not, ◌&&◌, bit_and, bit_or, bit_xor, ℕ, ◌+◌, ◌-◌, ◌*◌, ◌/◌, ◌%◌, ◌^◌, ◌≤◌, ◌≡◌, ◌==◌, refl, sym,
  ap, ◌∙◌, arith, true, false, if◌then◌else◌, ltb, some, Result, ok, error, fault, timeout, ◌>>=◌,
  List, [], ◌∷◌, length, update_self, Returns, Bool-cases, inl, inr,
}
use qlforth.Functions.{
  Primitive, prim_dup, prim_qdup, prim_drop, prim_over, prim_swap, prim_rot, prim_mrot, prim_pick,
  prim_roll, prim_depth, prim_plus, prim_minus, prim_mul, prim_div, prim_mod, prim_divmod,
  prim_1_add, prim_1_sub, prim_2_add, prim_2_sub, prim_2_mul, prim_2_div, prim_4_add, prim_4_sub,
  prim_min, prim_max, prim_abs, prim_negate, prim_cmp_lt, prim_cmp_le, prim_cmp_ne, prim_cmp_eq,
  prim_cmp_gt, prim_cmp_ge, prim_cmp_0_lt, prim_cmp_0_eq, prim_cmp_0_gt, prim_and, prim_or,
  prim_xor, prim_not,
}
use qlforth.Host.Inverses.{peek-ok}
use qlforth.Host.Primitives.{run_primitive}
use qlforth.Host.{
  Vm, poke, binary, unary, negative, signed_lt, flag, neg32, quotient, remainder, cfp_divmod,
}
use qlforth.Host.Lists.{
  Cells, Stands, on_top, pushed_result, on_two, always, compared, divided, computed, Refines,
}
use qlforth.Host.Lists.Moves.{
  Cells-update, dup-Refines, qdup-Refines, over-Refines, depth-Refines, drop-Refines, swap-Refines,
  rot-Refines, mrot-Refines,
}
use qlforth.Host.Lists.Index.{pick-Refines, roll-Refines}

unary-Refines : (f : ℕ → ℕ) → Refines (on_top f) (unary f)
unary-Refines f [] s' vm e l h = absurd h
unary-Refines f (x ∷ s) s' vm e l h =
    subst (λ r. Stands r (record vm { tos = f vm.tos })) (some_inj.0 e) (ap f h.0, h.1)

-- The result of a word of two numbers, or the trap.
settle :
    (r : Result ℕ) (s s' : List ℕ) (vm : Vm)
    → pushed_result r s ≡ some s'
    → Cells s (vm.dp - 1) vm.data_stack
    → Returns (Stands s') (r >>= λ t. ok (record vm { tos = t; dp = vm.dp - 1 }))
settle (ok v) s s' vm e h =
    subst (λ r. Stands r (record vm { tos = v; dp = vm.dp - 1 })) (some_inj.0 e) (refl, h)
settle (error m) s s' vm e h = cc
settle fault s s' vm e h = cc
settle timeout s s' vm e h = cc

binary-Refines : (f : ℕ → ℕ → Result ℕ) → Refines (on_two f) (binary f)
unfolding binary
binary-Refines f [] s' vm e l h = absurd h
binary-Refines f (x ∷ []) s' vm e l h = cc
binary-Refines f (x ∷ y ∷ s) s' vm e l h =
    rw (peek-ok 1 vm (omega arith) h.1.0, h.1.1, h.0) (settle (f y x) s s' vm e h.1.2)

-- The two results of /MOD, or the trap.
settle_both :
    (q r : Result ℕ) (s s' : List ℕ) (vm : Vm)
    → divided q r s ≡ some s'
    → 1 ≤ vm.dp
    → Cells s (vm.dp - 1) vm.data_stack
    → Returns (Stands s') (q >>= λ v. r >>= λ w. ok (record (poke 1 w vm) { tos = v }))
settle_both (ok v) (ok w) s s' vm e l h =
    subst (λ r. Stands r (record (poke 1 w vm) { tos = v })) (some_inj.0 e)
      (
        refl,
        (
          l,
          update_self vm.data_stack (vm.dp - 1) w,
          Cells-update s (vm.dp - 1) vm.data_stack (vm.dp - 1) w (omega arith) h,
        ),
      )
settle_both (ok v) (error m) s s' vm e l h = cc
settle_both (ok v) fault s s' vm e l h = cc
settle_both (ok v) timeout s s' vm e l h = cc
settle_both (error m) r s s' vm e l h = cc
settle_both fault r s s' vm e l h = cc
settle_both timeout r s s' vm e l h = cc

divmod-Refines : Refines (computed prim_divmod) cfp_divmod
unfolding cfp_divmod
divmod-Refines [] s' vm e l h = absurd h
divmod-Refines (x ∷ []) s' vm e l h = cc
divmod-Refines (x ∷ y ∷ s) s' vm e l h = elim (Bool-cases (x == 0)) [
  | inl z ↦
      let zero_top : (vm.tos == 0) ≡ true = ap (λ v. v == 0) h.0 ∙ z in
      let same : x ∷ y ∷ s ≡ s' = some_inj.0 (sym (rw z refl) ∙ e) in
      rw zero_top (subst (λ r. Stands r vm) same h)
  | inr z ↦
      let other : (vm.tos == 0) ≡ false = ap (λ v. v == 0) h.0 ∙ z in
      let means : divided (quotient y x) (remainder y x) s ≡ some s' = sym (rw z refl) ∙ e in
      rw other (
        rw (peek-ok 1 vm (omega arith) h.1.0, h.1.1, h.0)
          (settle_both (quotient y x) (remainder y x) s s' vm means h.1.0 h.1.2))
]

pub run_primitive-computed :
    (p : Primitive) (s s' : List ℕ) (vm : Vm)
    → computed p s ≡ some s'
    → length s' ≤ 259
    → Stands s vm
    → Returns (Stands s') (run_primitive p vm)
unfolding run_primitive
run_primitive-computed prim_dup s s' vm e l h = dup-Refines s s' vm e l h
run_primitive-computed prim_qdup s s' vm e l h = qdup-Refines s s' vm e l h
run_primitive-computed prim_drop s s' vm e l h = drop-Refines s s' vm e l h
run_primitive-computed prim_over s s' vm e l h = over-Refines s s' vm e l h
run_primitive-computed prim_swap s s' vm e l h = swap-Refines s s' vm e l h
run_primitive-computed prim_rot s s' vm e l h = rot-Refines s s' vm e l h
run_primitive-computed prim_mrot s s' vm e l h = mrot-Refines s s' vm e l h
run_primitive-computed prim_pick s s' vm e l h = pick-Refines s s' vm e l h
run_primitive-computed prim_roll s s' vm e l h = roll-Refines s s' vm e l h
run_primitive-computed prim_depth s s' vm e l h = depth-Refines s s' vm e l h
run_primitive-computed prim_plus s s' vm e l h =
    binary-Refines (always (λ y x. (x + y) % 2 ^ 32)) s s' vm e l h
run_primitive-computed prim_minus s s' vm e l h =
    binary-Refines (always (λ y x. (y + 2 ^ 32 - x) % 2 ^ 32)) s s' vm e l h
run_primitive-computed prim_mul s s' vm e l h =
    binary-Refines (always (λ y x. (x + y) % 2 ^ 32)) s s' vm e l h
run_primitive-computed prim_div s s' vm e l h = binary-Refines quotient s s' vm e l h
run_primitive-computed prim_mod s s' vm e l h = binary-Refines remainder s s' vm e l h
run_primitive-computed prim_divmod s s' vm e l h = divmod-Refines s s' vm e l h
run_primitive-computed prim_1_add s s' vm e l h =
    unary-Refines (λ x. (x + 1) % 2 ^ 32) s s' vm e l h
run_primitive-computed prim_1_sub s s' vm e l h =
    unary-Refines (λ x. (x + 2 ^ 32 - 1) % 2 ^ 32) s s' vm e l h
run_primitive-computed prim_2_add s s' vm e l h =
    unary-Refines (λ x. (x + 2) % 2 ^ 32) s s' vm e l h
run_primitive-computed prim_2_sub s s' vm e l h =
    unary-Refines (λ x. (x + 2 ^ 32 - 2) % 2 ^ 32) s s' vm e l h
run_primitive-computed prim_2_mul s s' vm e l h = unary-Refines (λ x. x * 2 % 2 ^ 32) s s' vm e l h
run_primitive-computed prim_2_div s s' vm e l h =
    unary-Refines (λ x. if negative x then x / 2 + 2 ^ 31 else x / 2) s s' vm e l h
run_primitive-computed prim_4_add s s' vm e l h =
    unary-Refines (λ x. (x + 4) % 2 ^ 32) s s' vm e l h
run_primitive-computed prim_4_sub s s' vm e l h =
    unary-Refines (λ x. (x + 2 ^ 32 - 4) % 2 ^ 32) s s' vm e l h
run_primitive-computed prim_min s s' vm e l h =
    binary-Refines (always (λ y x. if signed_lt y x then y else x)) s s' vm e l h
run_primitive-computed prim_max s s' vm e l h =
    binary-Refines (always (λ y x. if signed_lt x y then y else x)) s s' vm e l h
run_primitive-computed prim_abs s s' vm e l h =
    unary-Refines (λ x. if negative x then neg32 x else x) s s' vm e l h
run_primitive-computed prim_negate s s' vm e l h = unary-Refines neg32 s s' vm e l h
run_primitive-computed prim_cmp_lt s s' vm e l h = binary-Refines (compared signed_lt) s s' vm e l h
run_primitive-computed prim_cmp_le s s' vm e l h =
    binary-Refines (compared (λ y x. not (signed_lt x y))) s s' vm e l h
run_primitive-computed prim_cmp_ne s s' vm e l h =
    binary-Refines (compared (λ y x. not (y == x))) s s' vm e l h
run_primitive-computed prim_cmp_eq s s' vm e l h =
    binary-Refines (compared (λ y x. y == x)) s s' vm e l h
run_primitive-computed prim_cmp_gt s s' vm e l h =
    binary-Refines (compared (λ y x. signed_lt x y)) s s' vm e l h
run_primitive-computed prim_cmp_ge s s' vm e l h =
    binary-Refines (compared (λ y x. not (signed_lt y x))) s s' vm e l h
run_primitive-computed prim_cmp_0_lt s s' vm e l h =
    unary-Refines (λ x. flag (negative x)) s s' vm e l h
run_primitive-computed prim_cmp_0_eq s s' vm e l h =
    unary-Refines (λ x. flag (x == 0)) s s' vm e l h
run_primitive-computed prim_cmp_0_gt s s' vm e l h =
    unary-Refines (λ x. flag (ltb 0 x && not (negative x))) s s' vm e l h
run_primitive-computed prim_and s s' vm e l h =
    binary-Refines (always (λ y x. bit_and x y)) s s' vm e l h
run_primitive-computed prim_or s s' vm e l h =
    binary-Refines (always (λ y x. bit_or x y)) s s' vm e l h
run_primitive-computed prim_xor s s' vm e l h =
    binary-Refines (always (λ y x. bit_xor x y)) s s' vm e l h
run_primitive-computed prim_not s s' vm e l h = unary-Refines (λ x. 2 ^ 32 - 1 - x) s s' vm e l h
