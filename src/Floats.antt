-- ===== src/Floats.antt =====
-- The float words of src/forth.c. The arithmetic of `float` and the functions of the C library are an
-- argument, over the 32-bit patterns that the cells hold.
pub mod Examples
use qlforth.Prelude.{ℕ, Bool, ◌||◌, not, Result, if◌then◌else◌}
use qlforth.Functions.{
  FloatWord, float_plus, float_minus, float_mul, float_div, float_lt, float_le, float_ne, float_eq,
  float_gt, float_ge, float_abs, float_acos, float_asin, float_atan, float_atan2, float_cos,
  float_exp, float_float, float_log, float_log10, float_max, float_min, float_negate, float_pow,
  float_sin, float_sqrt, float_tan,
}
use qlforth.Host.{Vm, binary, unary, both, flag}

-- `lt` and `eq` are `<` and `==` of C, so `>` is `lt` the other way round, and `<=` is one or the other.
pub record FloatOps : Type 0 where
  pub nought : ℕ
  pub add : ℕ → ℕ → ℕ
  pub sub : ℕ → ℕ → ℕ
  pub mul : ℕ → ℕ → ℕ
  pub div : ℕ → ℕ → ℕ
  pub atan2 : ℕ → ℕ → ℕ
  pub pow : ℕ → ℕ → ℕ
  pub lt : ℕ → ℕ → Bool
  pub eq : ℕ → ℕ → Bool
  pub negate : ℕ → ℕ
  pub acos : ℕ → ℕ
  pub asin : ℕ → ℕ
  pub atan : ℕ → ℕ
  pub cos : ℕ → ℕ
  pub exp : ℕ → ℕ
  pub log : ℕ → ℕ
  pub log10 : ℕ → ℕ
  pub sin : ℕ → ℕ
  pub sqrt : ℕ → ℕ
  pub tan : ℕ → ℕ

module _ (ops : FloatOps) where
  unfoldable pub float_word : FloatWord → Vm → Result Vm
  float_word float_plus = binary (both (λ n t. ops.add t n))
  float_word float_minus = binary (both ops.sub)
  float_word float_mul = binary (both (λ n t. ops.mul t n))
  float_word float_div = binary (both ops.div)
  float_word float_lt = binary (both (λ n t. flag (ops.lt n t)))
  float_word float_le = binary (both (λ n t. flag (ops.lt n t || ops.eq n t)))
  float_word float_ne = binary (both (λ n t. flag (not (ops.eq n t))))
  float_word float_eq = binary (both (λ n t. flag (ops.eq n t)))
  float_word float_gt = binary (both (λ n t. flag (ops.lt t n)))
  float_word float_ge = binary (both (λ n t. flag (ops.lt t n || ops.eq n t)))
  float_word float_abs = unary (λ t. if ops.lt t ops.nought then ops.negate t else t)
  float_word float_acos = unary ops.acos
  float_word float_asin = unary ops.asin
  float_word float_atan = unary ops.atan
  float_word float_atan2 = binary (both ops.atan2)
  float_word float_cos = unary ops.cos
  float_word float_exp = unary ops.exp
  float_word float_float = unary (λ t. t)
  float_word float_log = unary ops.log
  float_word float_log10 = unary ops.log10
  float_word float_max = binary (both (λ n t. if ops.lt t n then n else t))
  float_word float_min = binary (both (λ n t. if ops.lt n t then n else t))
  float_word float_negate = unary ops.negate
  float_word float_pow = binary (both ops.pow)
  float_word float_sin = unary ops.sin
  float_word float_sqrt = unary ops.sqrt
  float_word float_tan = unary ops.tan
