-- ===== src/Chip/Decode.antt =====
-- The instruction formats of the J1: which case of the loop of `execute` an instruction takes.
use qlforth.Prelude.{ℕ, ◌+◌, ◌*◌, ◌/◌, ◌%◌, ◌^◌, ◌≤◌, ◌<◌, ◌≡◌, ◌==◌, arith, ok, true, false}
use qlforth.Chip.{Chip, bit, push, to_pc, conditional_jump, call, alu_step, step}

==_true : (a b : ℕ) → a ≡ b → (a == b) ≡ true
==_true a b h = ground arith

==_false : (a b : ℕ) → a < b → (a == b) ≡ false
==_false a b h = ground arith

module _ (c : Chip) (insn : ℕ) where
  low : insn < 0x8000 → bit insn 15 ≡ false
  low h = ==_false _ 1 (omega arith)

  select_is : (k : ℕ) → k * 0x2000 ≤ insn → insn < k * 0x2000 + 0x2000 → insn / 2 ^ 13 ≡ k
  select_is k h g = omega arith

  pub step-literal :
      0x8000 ≤ insn → insn < 0x10000 → step insn c ≡ ok (to_pc (c.vpc + 1) (push (insn % 0x8000) c))
  unfolding step
  step-literal h g = rw (==_true (insn / 2 ^ 15 % 2) 1 (omega arith))

  pub step-jump : insn < 0x2000 → step insn c ≡ ok (to_pc (insn % 0x2000) c)
  unfolding step
  step-jump h = rw (low (omega arith), select_is 0 (omega arith) (omega arith))

  pub step-conditional_jump :
      0x2000 ≤ insn → insn < 0x4000 → step insn c ≡ ok (conditional_jump (insn % 0x2000) c)
  unfolding step
  step-conditional_jump h g = rw (low (omega arith), select_is 1 (omega arith) (omega arith))

  pub step-call : 0x4000 ≤ insn → insn < 0x6000 → step insn c ≡ ok (call (insn % 0x2000) c)
  unfolding step
  step-call h g = rw (low (omega arith), select_is 2 (omega arith) (omega arith))

  pub step-alu : 0x6000 ≤ insn → insn < 0x8000 → step insn c ≡ alu_step insn c
  unfolding step
  step-alu h g = rw (low (omega arith), select_is 3 (omega arith) (omega arith))
