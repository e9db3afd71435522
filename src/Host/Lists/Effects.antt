-- ===== src/Host/Lists/Effects.antt =====
-- The integer words of src/forth.c, against what a Forth word of their name does to two's complement numbers of
-- 32 bits.
use qlforth.Prelude.{
  not, ◌&&◌, bit_and, bit_or, bit_xor, ℕ, ◌+◌, ◌-◌, ◌*◌, ◌/◌, ◌%◌, ◌^◌, ◌<◌, ◌≤◌, ◌≡◌, ◌==◌, refl,
  sym, ◌∙◌, if◌then◌else◌, ltb, some, none, Result, List, [], ◌∷◌, get_elem?, length, Returns,
}
use qlforth.Functions.{
  Primitive, prim_dup, prim_qdup, prim_drop, prim_over, prim_swap, prim_rot, prim_mrot, prim_pick,
  prim_roll, prim_depth, prim_plus, prim_minus, prim_mul, prim_div, prim_mod, prim_divmod,
  prim_1_add, prim_1_sub, prim_2_add, prim_2_sub, prim_2_mul, prim_2_div, prim_4_add, prim_4_sub,
  prim_min, prim_max, prim_abs, prim_negate, prim_cmp_lt, prim_cmp_le, prim_cmp_ne, prim_cmp_eq,
  prim_cmp_gt, prim_cmp_ge, prim_cmp_0_lt, prim_cmp_0_eq, prim_cmp_0_gt, prim_and, prim_or,
  prim_xor, prim_not,
}
use qlforth.Host.Lists.Signed.{
  opposite, less, truth, ratio, rest, not-below, below-not, flipped, less-signed_lt, truth-flag,
  opposite-neg32, ratio-quotient, rest-remainder,
}
use qlforth.Host.Lists.Computed.{run_primitive-computed}
use qlforth.Host.Lists.{
  Stands, Effect, on_top, on_two, always, compared, divided, picked, rolled, computed,
}
use qlforth.Host.Primitives.{run_primitive}
use qlforth.Host.{Vm, signed_lt, neg32, negative, quotient, remainder, flag}

-- What the words do to the list of numbers, the top first: nothing is said for too few numbers, for a division
-- without a quotient, for a negative index of PICK or ROLL, and for `*`.
abbrev pub effect : Primitive → Effect
effect prim_dup (x ∷ s) = some (x ∷ x ∷ s)
effect prim_qdup (x ∷ s) = some (if x == 0 then x ∷ s else x ∷ x ∷ s)
effect prim_drop (x ∷ y ∷ s) = some (y ∷ s)
effect prim_over (x ∷ y ∷ s) = some (y ∷ x ∷ y ∷ s)
effect prim_swap (x ∷ y ∷ s) = some (y ∷ x ∷ s)
effect prim_rot (x ∷ y ∷ z ∷ s) = some (z ∷ x ∷ y ∷ s)
effect prim_mrot (x ∷ y ∷ z ∷ s) = some (y ∷ z ∷ x ∷ s)
effect prim_depth (x ∷ s) = some (length s ∷ x ∷ s)
effect prim_pick (k ∷ s) = if ltb k 0x8000_0000 then picked k (get_elem? s k) s else none
effect prim_roll (k ∷ s) = if ltb k 0x8000_0000 then rolled k (get_elem? s k) s else none
effect prim_plus s = on_two (always (λ y x. (x + y) % 2 ^ 32)) s
effect prim_minus s = on_two (always (λ y x. (y + 2 ^ 32 - x) % 2 ^ 32)) s
effect prim_div s = on_two ratio s
effect prim_mod s = on_two rest s
effect prim_1_add s = on_top (λ x. (x + 1) % 2 ^ 32) s
effect prim_1_sub s = on_top (λ x. (x + 2 ^ 32 - 1) % 2 ^ 32) s
effect prim_2_add s = on_top (λ x. (x + 2) % 2 ^ 32) s
effect prim_2_sub s = on_top (λ x. (x + 2 ^ 32 - 2) % 2 ^ 32) s
effect prim_2_mul s = on_top (λ x. x * 2 % 2 ^ 32) s
effect prim_4_add s = on_top (λ x. (x + 4) % 2 ^ 32) s
effect prim_4_sub s = on_top (λ x. (x + 2 ^ 32 - 4) % 2 ^ 32) s
effect prim_2_div s = on_top (λ x. if ltb x 0x8000_0000 then x / 2 else x / 2 + 0x8000_0000) s
effect prim_divmod (x ∷ y ∷ s) =
    if x == 0 then some (x ∷ y ∷ s) else divided (ratio y x) (rest y x) s
effect prim_min s = on_two (always (λ y x. if less y x then y else x)) s
effect prim_max s = on_two (always (λ y x. if less x y then y else x)) s
effect prim_abs s = on_top (λ x. if ltb x 0x8000_0000 then x else opposite x) s
effect prim_negate s = on_top opposite s
effect prim_cmp_lt s = on_two (always (λ y x. truth (less y x))) s
effect prim_cmp_le s = on_two (always (λ y x. truth (not (less x y)))) s
effect prim_cmp_ne s = on_two (always (λ y x. truth (not (y == x)))) s
effect prim_cmp_eq s = on_two (always (λ y x. truth (y == x))) s
effect prim_cmp_gt s = on_two (always (λ y x. truth (less x y))) s
effect prim_cmp_ge s = on_two (always (λ y x. truth (not (less y x)))) s
effect prim_cmp_0_lt s = on_top (λ x. truth (not (ltb x 0x8000_0000))) s
effect prim_cmp_0_eq s = on_top (λ x. truth (x == 0)) s
effect prim_cmp_0_gt s = on_top (λ x. truth (ltb 0 x && ltb x 0x8000_0000)) s
effect prim_and s = on_two (always (λ y x. bit_and x y)) s
effect prim_or s = on_two (always (λ y x. bit_or x y)) s
effect prim_xor s = on_two (always (λ y x. bit_xor x y)) s
effect prim_not s = on_top (λ x. 2 ^ 32 - 1 - x) s
effect _ s = none

-- Numbers of 32 bits.
abbrev pub AllBelow : List ℕ → Type 0
AllBelow [] = Unit
AllBelow (x ∷ s) = (x < 2 ^ 32) × AllBelow s

on_two-same :
    (f g : ℕ → ℕ → Result ℕ) (s : List ℕ)
    → AllBelow s
    → ((y x : ℕ) → y < 2 ^ 32 → x < 2 ^ 32 → f y x ≡ g y x)
    → on_two g s ≡ on_two f s
on_two-same f g [] b h = refl
on_two-same f g (x ∷ []) b h = refl
on_two-same f g (x ∷ y ∷ s) b h = rw (h y x b.1.0 b.0) refl

on_top-same :
    (f g : ℕ → ℕ) (s : List ℕ)
    → AllBelow s
    → ((x : ℕ) → x < 2 ^ 32 → f x ≡ g x)
    → on_top g s ≡ on_top f s
on_top-same f g [] b h = refl
on_top-same f g (x ∷ s) b h = rw (h x b.0) refl

-- The effects are what the words compute.
effect-computed :
    (p : Primitive) (s s' : List ℕ) → AllBelow s → effect p s ≡ some s' → computed p s ≡ some s'
effect-computed prim_dup s s' b e = e
effect-computed prim_qdup s s' b e = e
effect-computed prim_drop s s' b e = e
effect-computed prim_over s s' b e = e
effect-computed prim_swap s s' b e = e
effect-computed prim_rot s s' b e = e
effect-computed prim_mrot s s' b e = e
effect-computed prim_depth s s' b e = e
effect-computed prim_pick [] s' b e = cc
effect-computed prim_pick (k ∷ s) s' b e = flipped k (picked k (get_elem? s k) s) none ∙ e
effect-computed prim_roll [] s' b e = cc
effect-computed prim_roll (k ∷ s) s' b e = flipped k (rolled k (get_elem? s k) s) none ∙ e
effect-computed prim_plus s s' b e = e
effect-computed prim_minus s s' b e = e
effect-computed prim_mul s s' b e = cc
effect-computed prim_div s s' b e =
    on_two-same ratio quotient s b (λ y x l m. ratio-quotient y x) ∙ e
effect-computed prim_mod s s' b e =
    on_two-same rest remainder s b (λ y x l m. rest-remainder y x) ∙ e
effect-computed prim_divmod [] s' b e = cc
effect-computed prim_divmod (x ∷ []) s' b e = cc
effect-computed prim_divmod (x ∷ y ∷ s) s' b e = rw (← ratio-quotient y x, ← rest-remainder y x) e
effect-computed prim_1_add s s' b e = e
effect-computed prim_1_sub s s' b e = e
effect-computed prim_2_add s s' b e = e
effect-computed prim_2_sub s s' b e = e
effect-computed prim_2_mul s s' b e = e
effect-computed prim_2_div s s' b e =
    on_top-same (λ x. if ltb x 0x8000_0000 then x / 2 else x / 2 + 0x8000_0000)
      (λ x. if negative x then x / 2 + 2 ^ 31 else x / 2) s b
      (λ x l. sym (flipped x (x / 2) (x / 2 + 2 ^ 31)))
    ∙ e
effect-computed prim_4_add s s' b e = e
effect-computed prim_4_sub s s' b e = e
effect-computed prim_min s s' b e =
    on_two-same (always (λ y x. if less y x then y else x))
      (always (λ y x. if signed_lt y x then y else x)) s b
      (λ y x l m. rw (less-signed_lt y x l m) refl)
    ∙ e
effect-computed prim_max s s' b e =
    on_two-same (always (λ y x. if less x y then y else x))
      (always (λ y x. if signed_lt x y then y else x)) s b
      (λ y x l m. rw (less-signed_lt x y m l) refl)
    ∙ e
effect-computed prim_abs s s' b e =
    on_top-same (λ x. if ltb x 0x8000_0000 then x else opposite x)
      (λ x. if negative x then neg32 x else x) s b
      (λ x l. rw (opposite-neg32 x) (sym (flipped x x (neg32 x))))
    ∙ e
effect-computed prim_negate s s' b e = on_top-same opposite neg32 s b (λ x l. opposite-neg32 x) ∙ e
effect-computed prim_cmp_lt s s' b e =
    on_two-same (always (λ y x. truth (less y x))) (compared signed_lt) s b
      (λ y x l m. rw (less-signed_lt y x l m, truth-flag) refl)
    ∙ e
effect-computed prim_cmp_le s s' b e =
    on_two-same (always (λ y x. truth (not (less x y)))) (compared (λ y x. not (signed_lt x y))) s b
      (λ y x l m. rw (less-signed_lt x y m l, truth-flag) refl)
    ∙ e
effect-computed prim_cmp_ne s s' b e =
    on_two-same (always (λ y x. truth (not (y == x)))) (compared (λ y x. not (y == x))) s b
      (λ y x l m. rw truth-flag refl)
    ∙ e
effect-computed prim_cmp_eq s s' b e =
    on_two-same (always (λ y x. truth (y == x))) (compared (λ y x. y == x)) s b
      (λ y x l m. rw truth-flag refl)
    ∙ e
effect-computed prim_cmp_gt s s' b e =
    on_two-same (always (λ y x. truth (less x y))) (compared (λ y x. signed_lt x y)) s b
      (λ y x l m. rw (less-signed_lt x y m l, truth-flag) refl)
    ∙ e
effect-computed prim_cmp_ge s s' b e =
    on_two-same (always (λ y x. truth (not (less y x)))) (compared (λ y x. not (signed_lt y x))) s b
      (λ y x l m. rw (less-signed_lt y x l m, truth-flag) refl)
    ∙ e
effect-computed prim_cmp_0_lt s s' b e =
    on_top-same (λ x. truth (not (ltb x 0x8000_0000))) (λ x. flag (negative x)) s b
      (λ x l. rw (truth-flag, not-below x) refl)
    ∙ e
effect-computed prim_cmp_0_eq s s' b e =
    on_top-same (λ x. truth (x == 0)) (λ x. flag (x == 0)) s b (λ x l. rw truth-flag refl) ∙ e
effect-computed prim_cmp_0_gt s s' b e =
    on_top-same (λ x. truth (ltb 0 x && ltb x 0x8000_0000))
      (λ x. flag (ltb 0 x && not (negative x))) s b (λ x l. rw (truth-flag, below-not x) refl)
    ∙ e
effect-computed prim_and s s' b e = e
effect-computed prim_or s s' b e = e
effect-computed prim_xor s s' b e = e
effect-computed prim_not s s' b e = e

-- Let the host's stack be a list of numbers below 2 ^ 32, and let the integer word have an effect on it: enough
-- numbers for the word, no division that traps, no negative index, a word other than `*`, which adds in the source, and
-- at most 259 numbers behind it. Then the word succeeds and leaves the stack with the numbers of the effect: the sums
-- and differences modulo 2 ^ 32, and order, quotient, rest, opposite and absolute value as of two's complement numbers.
pub run_primitive-effect :
    (p : Primitive) (s s' : List ℕ) (vm : Vm)
    → AllBelow s
    → effect p s ≡ some s'
    → length s' ≤ 259
    → Stands s vm
    → Returns (Stands s') (run_primitive p vm)
run_primitive-effect p s s' vm b e l h =
    run_primitive-computed p s s' vm (effect-computed p s s' b e) l h
