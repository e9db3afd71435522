-- ===== src/Host.antt =====
-- The host's stack machine: the integer primitives of src/forth.c, which run while a file is
-- read or a line is typed. A cell is the 32-bit pattern of its `ival`; signed overflow wraps, as
-- the compilers that the program is built with have it. `ql4thvm_dp` is an index of `data_stack`,
-- and leaving that array is a fault.
pub mod Primitives
pub mod Inverses
pub mod Division
pub mod Lists
mod Tests
use qlforth.Prelude.{
  not, ◌&&◌, bit_and, bit_or, bit_xor, ℕ, zero, suc, ◌+◌, ◌-◌, ◌*◌, ◌/◌, ◌%◌, ◌^◌, Bool, leb, ltb,
  ◌==◌, if◌then◌else◌, Result, ok, fault, ◌>>=◌, update,
}

pub record Vm : Type 0 where
  pub tos : ℕ
  pub data_stack : ℕ → ℕ
  pub dp : ℕ

-- `data_stack[STACK_DEEP_SIZE + 2]`.
abbrev pub data_stack_size : ℕ
data_stack_size = 258

-- The cell `k` below `dp`.
unfoldable pub peek : ℕ → Vm → Result ℕ
peek k vm = if leb 1 k then if leb k vm.dp then ok (vm.data_stack (vm.dp - k)) else fault else fault

-- `dp->ptr = tos.ptr; dp++; tos = v`.
unfoldable pub qlforth_push : ℕ → Vm → Result Vm
qlforth_push v vm =
    if ltb vm.dp data_stack_size
    then ok (record { tos = v; data_stack = update vm.data_stack vm.dp vm.tos; dp = vm.dp + 1 })
    else fault

abbrev pub poke : ℕ → ℕ → Vm → Vm
poke k v vm = record vm { data_stack = update vm.data_stack (vm.dp - k) v }

-- `dp--`, and the new value of `tos` from the cell and the old one.
unfoldable pub binary : (ℕ → ℕ → Result ℕ) → Vm → Result Vm
binary f vm = do n ← peek 1 vm; t ← f n vm.tos; ok (record vm { tos = t; dp = vm.dp - 1 })

abbrev pub unary : (ℕ → ℕ) → Vm → Result Vm
unary f vm = ok (record vm { tos = f vm.tos })

unfoldable pub cfp_dup : Vm → Result Vm
cfp_dup vm = qlforth_push vm.tos vm

unfoldable pub cfp_qdup : Vm → Result Vm
cfp_qdup vm = if vm.tos == 0 then ok vm else qlforth_push vm.tos vm

unfoldable pub cfp_drop : Vm → Result Vm
cfp_drop vm = do n ← peek 1 vm; ok (record vm { tos = n; dp = vm.dp - 1 })

unfoldable pub cfp_over : Vm → Result Vm
cfp_over vm = do n ← peek 1 vm; qlforth_push n vm

unfoldable pub cfp_swap : Vm → Result Vm
cfp_swap vm = do n ← peek 1 vm; ok (record (poke 1 vm.tos vm) { tos = n })

unfoldable pub cfp_rot : Vm → Result Vm
cfp_rot vm = do n ← peek 1 vm; m ← peek 2 vm; ok (record (poke 1 vm.tos (poke 2 n vm)) { tos = m })

unfoldable pub cfp_mrot : Vm → Result Vm
cfp_mrot vm = do n ← peek 1 vm; m ← peek 2 vm; ok (record (poke 2 vm.tos (poke 1 m vm)) { tos = n })

-- A negative number passes the test of PICK and of ROLL: its cell is at `dp` or above it.
abbrev pub negative : ℕ → Bool
negative a = leb 0x8000_0000 a

unfoldable pub above : Vm → Result ℕ
above vm =
    let at = vm.dp + (2 ^ 32 - vm.tos) - 1 in
    if ltb at data_stack_size then ok (vm.data_stack at) else fault

unfoldable pub cfp_pick : Vm → Result Vm
unfolding above
cfp_pick vm =
    if negative vm.tos
    then (do n ← above vm; ok (record vm { tos = n }))
    else if ltb vm.tos vm.dp
    then (do n ← peek (vm.tos + 1) vm; ok (record vm { tos = n }))
    else ok vm

-- The loop of ROLL over the `n` cells from `at`.
unfoldable pub shift_down : ℕ → ℕ → (ℕ → ℕ) → ℕ → ℕ
shift_down zero at s = s
shift_down (suc n) at s = shift_down n (at + 1) (update s at (s (at + 1)))

unfoldable pub cfp_roll : Vm → Result Vm
unfolding above
cfp_roll vm =
    if negative vm.tos
    then (do n ← above vm; if vm.dp == 0 then fault else ok (record vm { tos = n; dp = vm.dp - 1 }))
    else if ltb vm.tos vm.dp
    then (do
      n ← peek (vm.tos + 1) vm
      let s = shift_down (vm.tos + 1) (vm.dp - vm.tos - 1) vm.data_stack
      ok (record { tos = n; data_stack = s; dp = vm.dp - 1 }))
    else ok vm

unfoldable pub cfp_depth : Vm → Result Vm
cfp_depth vm = qlforth_push vm.dp vm

abbrev pub add32 : ℕ → ℕ → ℕ
add32 a b = (a + b) % 2 ^ 32

abbrev pub neg32 : ℕ → ℕ
neg32 a = (2 ^ 32 - a) % 2 ^ 32

abbrev pub sub32 : ℕ → ℕ → ℕ
sub32 a b = (a + 2 ^ 32 - b) % 2 ^ 32

abbrev pub magnitude : ℕ → ℕ
magnitude a = if negative a then 2 ^ 32 - a else a

abbrev pub signed_lt : ℕ → ℕ → Bool
signed_lt a b = ltb ((a + 2 ^ 31) % 2 ^ 32) ((b + 2 ^ 31) % 2 ^ 32)

-- Division rounds towards 0; by 0, and of the least number by -1, it traps.
unfoldable pub quotient : ℕ → ℕ → Result ℕ
quotient a b =
    let q = magnitude a / magnitude b in
    if b == 0
    then fault
    else if q == 0x8000_0000
    then if negative a then if negative b then fault else ok q else ok q
    else if negative a
    then ok (if negative b then q else neg32 q)
    else ok (if negative b then neg32 q else q)

unfoldable pub remainder : ℕ → ℕ → Result ℕ
unfolding quotient
remainder a b = do
  q ← quotient a b
  ok (if negative a then neg32 (magnitude a % magnitude b) else magnitude a % magnitude b)

abbrev pub both : (ℕ → ℕ → ℕ) → ℕ → ℕ → Result ℕ
both f n t = ok (f n t)

unfoldable pub cfp_plus : Vm → Result Vm
cfp_plus = binary (both (λ n t. add32 t n))

unfoldable pub cfp_minus : Vm → Result Vm
cfp_minus = binary (both sub32)

-- As the source has it: a sum.
unfoldable pub cfp_mul : Vm → Result Vm
cfp_mul = binary (both (λ n t. add32 t n))

unfoldable pub cfp_div : Vm → Result Vm
cfp_div = binary quotient

unfoldable pub cfp_mod : Vm → Result Vm
cfp_mod = binary remainder

unfoldable pub cfp_divmod : Vm → Result Vm
cfp_divmod vm = if vm.tos == 0 then ok vm else do
  nos ← peek 1 vm
  quot ← quotient nos vm.tos
  r ← remainder nos vm.tos
  ok (record (poke 1 r vm) { tos = quot })

unfoldable pub cfp_2_div : Vm → Result Vm
cfp_2_div = unary (λ t. if negative t then t / 2 + 2 ^ 31 else t / 2)

unfoldable pub cfp_min : Vm → Result Vm
cfp_min = binary (both (λ n t. if signed_lt n t then n else t))

unfoldable pub cfp_max : Vm → Result Vm
cfp_max = binary (both (λ n t. if signed_lt t n then n else t))

unfoldable pub cfp_abs : Vm → Result Vm
cfp_abs = unary (λ t. if negative t then neg32 t else t)

unfoldable pub cfp_negate : Vm → Result Vm
cfp_negate = unary neg32

unfoldable pub cfp_1_add : Vm → Result Vm
cfp_1_add = unary (λ t. add32 t 1)

unfoldable pub cfp_1_sub : Vm → Result Vm
cfp_1_sub = unary (λ t. sub32 t 1)

unfoldable pub cfp_2_add : Vm → Result Vm
cfp_2_add = unary (λ t. add32 t 2)

unfoldable pub cfp_2_sub : Vm → Result Vm
cfp_2_sub = unary (λ t. sub32 t 2)

unfoldable pub cfp_2_mul : Vm → Result Vm
cfp_2_mul = unary (λ t. t * 2 % 2 ^ 32)

unfoldable pub cfp_4_add : Vm → Result Vm
cfp_4_add = unary (λ t. add32 t 4)

unfoldable pub cfp_4_sub : Vm → Result Vm
cfp_4_sub = unary (λ t. sub32 t 4)

-- `QLF_TRUE` is -1.
abbrev pub flag : Bool → ℕ
flag b = if b then 0xffff_ffff else 0

unfoldable pub compare_words : (ℕ → ℕ → Bool) → Vm → Result Vm
compare_words f = binary (both (λ n t. flag (f n t)))

unfoldable pub cfp_cmp_lt : Vm → Result Vm
unfolding compare_words
cfp_cmp_lt = compare_words (λ n t. signed_lt n t)

unfoldable pub cfp_cmp_le : Vm → Result Vm
unfolding compare_words
cfp_cmp_le = compare_words (λ n t. not (signed_lt t n))

unfoldable pub cfp_cmp_ne : Vm → Result Vm
unfolding compare_words
cfp_cmp_ne = compare_words (λ n t. not (n == t))

unfoldable pub cfp_cmp_eq : Vm → Result Vm
unfolding compare_words
cfp_cmp_eq = compare_words (λ n t. n == t)

unfoldable pub cfp_cmp_gt : Vm → Result Vm
unfolding compare_words
cfp_cmp_gt = compare_words (λ n t. signed_lt t n)

unfoldable pub cfp_cmp_ge : Vm → Result Vm
unfolding compare_words
cfp_cmp_ge = compare_words (λ n t. not (signed_lt n t))

unfoldable pub cfp_cmp_0_lt : Vm → Result Vm
cfp_cmp_0_lt = unary (λ t. flag (negative t))

unfoldable pub cfp_cmp_0_eq : Vm → Result Vm
cfp_cmp_0_eq = unary (λ t. flag (t == 0))

unfoldable pub cfp_cmp_0_gt : Vm → Result Vm
cfp_cmp_0_gt = unary (λ t. flag (ltb 0 t && not (negative t)))

unfoldable pub cfp_and : Vm → Result Vm
cfp_and = binary (both (λ n t. bit_and t n))

unfoldable pub cfp_or : Vm → Result Vm
cfp_or = binary (both (λ n t. bit_or t n))

unfoldable pub cfp_xor : Vm → Result Vm
cfp_xor = binary (both (λ n t. bit_xor t n))

unfoldable pub cfp_not : Vm → Result Vm
cfp_not = unary (λ t. 2 ^ 32 - 1 - t)
