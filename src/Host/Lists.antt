-- ===== src/Host/Lists.antt =====
-- The integer words of the host as operations on a list of numbers.
pub mod Moves
pub mod Index
pub mod Computed
pub mod Signed
pub mod Effects
use mathlib.Core.Option.{some_inj}
use mathlib.Core.Path.{subst}
use qlforth.Prelude.{
  not, ◌&&◌, bit_and, bit_or, bit_xor, ℕ, zero, suc, ◌+◌, ◌-◌, ◌*◌, ◌/◌, ◌%◌, ◌^◌, ◌<◌, ◌≤◌, ◌≡◌,
  ◌==◌, refl, sym, ap, ◌∙◌, arith, true, false, if◌then◌else◌, Bool, ltb, Option, none, some,
  Result, ok, error, fault, timeout, ◌>>=◌, List, [], ◌∷◌, get_elem?, length, update, update_self,
  update_ne, update_comm, Returns, Bool-cases, inl, inr,
}
use qlforth.Functions.{
  Primitive, prim_dup, prim_qdup, prim_drop, prim_over, prim_swap, prim_rot, prim_mrot, prim_pick,
  prim_roll, prim_depth, prim_plus, prim_minus, prim_mul, prim_div, prim_mod, prim_divmod,
  prim_1_add, prim_1_sub, prim_2_add, prim_2_sub, prim_2_mul, prim_2_div, prim_4_add, prim_4_sub,
  prim_min, prim_max, prim_abs, prim_negate, prim_cmp_lt, prim_cmp_le, prim_cmp_ne, prim_cmp_eq,
  prim_cmp_gt, prim_cmp_ge, prim_cmp_0_lt, prim_cmp_0_eq, prim_cmp_0_gt, prim_and, prim_or,
  prim_xor, prim_not,
}
use qlforth.Host.Inverses.{peek-ok, push-ok}
use qlforth.Host.Primitives.{run_primitive}
use qlforth.Host.{
  Vm, poke, qlforth_push, binary, unary, negative, signed_lt, flag, neg32, quotient, remainder,
  cfp_dup, cfp_qdup, cfp_drop, cfp_over, cfp_swap, cfp_rot, cfp_mrot, cfp_depth, cfp_divmod,
  compare_words,
}

-- The cells below `dp`, the last one first.
abbrev pub Cells : List ℕ → ℕ → (ℕ → ℕ) → Type 0
Cells [] n f = n ≡ 0
Cells (x ∷ xs) n f = (1 ≤ n) × (f (n - 1) ≡ x) × Cells xs (n - 1) f

-- The host's numbers, the top first. The top is there even at depth 0.
abbrev pub Stands : List ℕ → Vm → Type 0
Stands [] vm = ⊥
Stands (x ∷ xs) vm = (vm.tos ≡ x) × Cells xs vm.dp vm.data_stack

abbrev pub Effect : Type 0
Effect = List ℕ → Option (List ℕ)

-- A word of one number, and one of two, which may trap.
abbrev pub on_top : (ℕ → ℕ) → Effect
on_top f [] = none
on_top f (x ∷ s) = some (f x ∷ s)

abbrev pub pushed_result : Result ℕ → List ℕ → Option (List ℕ)
pushed_result (ok v) s = some (v ∷ s)
pushed_result _ s = none

abbrev pub on_two : (ℕ → ℕ → Result ℕ) → Effect
on_two f (x ∷ y ∷ s) = pushed_result (f y x) s
on_two f _ = none

abbrev pub always : (ℕ → ℕ → ℕ) → ℕ → ℕ → Result ℕ
always f y x = ok (f y x)

abbrev pub compared : (ℕ → ℕ → Bool) → ℕ → ℕ → Result ℕ
compared f y x = ok (flag (f y x))

abbrev pub divided : Result ℕ → Result ℕ → List ℕ → Option (List ℕ)
divided (ok q) (ok r) s = some (q ∷ r ∷ s)
divided _ _ s = none

-- A list without the element at an index.
abbrev pub remove : ℕ → List ℕ → List ℕ
remove k [] = []
remove zero (x ∷ s) = s
remove (suc k) (x ∷ s) = x ∷ remove k s

-- PICK and ROLL find nothing at an index from the depth on, and leave it on top.
abbrev pub picked : ℕ → Option ℕ → List ℕ → Option (List ℕ)
picked k none s = some (k ∷ s)
picked k (some y) s = some (y ∷ s)

abbrev pub rolled : ℕ → Option ℕ → List ℕ → Option (List ℕ)
rolled k none s = some (k ∷ s)
rolled k (some y) s = some (y ∷ remove k s)

-- The words' computations on a list. Where they find too few numbers, or trap, there is no result.
abbrev pub computed : Primitive → Effect
computed prim_dup (x ∷ s) = some (x ∷ x ∷ s)
computed prim_qdup (x ∷ s) = some (if x == 0 then x ∷ s else x ∷ x ∷ s)
computed prim_drop (x ∷ y ∷ s) = some (y ∷ s)
computed prim_over (x ∷ y ∷ s) = some (y ∷ x ∷ y ∷ s)
computed prim_swap (x ∷ y ∷ s) = some (y ∷ x ∷ s)
computed prim_rot (x ∷ y ∷ z ∷ s) = some (z ∷ x ∷ y ∷ s)
computed prim_mrot (x ∷ y ∷ z ∷ s) = some (y ∷ z ∷ x ∷ s)
computed prim_depth (x ∷ s) = some (length s ∷ x ∷ s)
computed prim_pick (k ∷ s) = if negative k then none else picked k (get_elem? s k) s
computed prim_roll (k ∷ s) = if negative k then none else rolled k (get_elem? s k) s
computed prim_plus s = on_two (always (λ y x. (x + y) % 2 ^ 32)) s
computed prim_minus s = on_two (always (λ y x. (y + 2 ^ 32 - x) % 2 ^ 32)) s
computed prim_mul s = on_two (always (λ y x. (x + y) % 2 ^ 32)) s
computed prim_div s = on_two quotient s
computed prim_mod s = on_two remainder s
computed prim_1_add s = on_top (λ x. (x + 1) % 2 ^ 32) s
computed prim_1_sub s = on_top (λ x. (x + 2 ^ 32 - 1) % 2 ^ 32) s
computed prim_2_add s = on_top (λ x. (x + 2) % 2 ^ 32) s
computed prim_2_sub s = on_top (λ x. (x + 2 ^ 32 - 2) % 2 ^ 32) s
computed prim_2_mul s = on_top (λ x. x * 2 % 2 ^ 32) s
computed prim_4_add s = on_top (λ x. (x + 4) % 2 ^ 32) s
computed prim_4_sub s = on_top (λ x. (x + 2 ^ 32 - 4) % 2 ^ 32) s
computed prim_2_div s = on_top (λ x. if negative x then x / 2 + 2 ^ 31 else x / 2) s
computed prim_divmod (x ∷ y ∷ s) =
    if x == 0 then some (x ∷ y ∷ s) else divided (quotient y x) (remainder y x) s
computed prim_min s = on_two (always (λ y x. if signed_lt y x then y else x)) s
computed prim_max s = on_two (always (λ y x. if signed_lt x y then y else x)) s
computed prim_abs s = on_top (λ x. if negative x then neg32 x else x) s
computed prim_negate s = on_top neg32 s
computed prim_cmp_lt s = on_two (compared signed_lt) s
computed prim_cmp_le s = on_two (compared (λ y x. not (signed_lt x y))) s
computed prim_cmp_ne s = on_two (compared (λ y x. not (y == x))) s
computed prim_cmp_eq s = on_two (compared (λ y x. y == x)) s
computed prim_cmp_gt s = on_two (compared (λ y x. signed_lt x y)) s
computed prim_cmp_ge s = on_two (compared (λ y x. not (signed_lt y x))) s
computed prim_cmp_0_lt s = on_top (λ x. flag (negative x)) s
computed prim_cmp_0_eq s = on_top (λ x. flag (x == 0)) s
computed prim_cmp_0_gt s = on_top (λ x. flag (ltb 0 x && not (negative x))) s
computed prim_and s = on_two (always (λ y x. bit_and x y)) s
computed prim_or s = on_two (always (λ y x. bit_or x y)) s
computed prim_xor s = on_two (always (λ y x. bit_xor x y)) s
computed prim_not s = on_top (λ x. 2 ^ 32 - 1 - x) s
computed _ s = none

-- A word that does what such an operation says, where the numbers behind it fit.
abbrev pub Refines : Effect → (Vm → Result Vm) → Type 0
Refines e f =
    (s s' : List ℕ) (vm : Vm)
    → e s ≡ some s'
    → length s' ≤ 259
    → Stands s vm
    → Returns (Stands s') (f vm)
