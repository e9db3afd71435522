-- ===== src/Chip/Fields.antt =====
-- An ALU instruction by its fields: what one round does with it.
use qlforth.Prelude.{
  ℕ, ◌+◌, ◌/◌, ◌%◌, ◌^◌, ◌≡◌, refl, Bool, Result, ok, ◌>>=◌, if◌then◌else◌, update,
}
use qlforth.Chip.{Chip, u16, move, bit, mem_store, alu, alu_writes, alu_step, to_pc}

-- `code` selects the value, `k` and `j` move the two stack pointers, and the bits are those that
-- write the second cell (7), the return stack (6) and the memory (5), and that return (12).
unfoldable pub alu_fields : ℕ → ℕ → ℕ → Bool → Bool → Bool → Bool → Chip → Result (ℕ × Chip)
unfolding alu
alu_fields code k j b₇ b₆ b₅ b₁₂ c = do
  let next = if b₁₂ then c.rstack c.vrp / 2 else c.vpc + 1
  let c₁ = record c { nos = c.dstack c.vdp }
  v ← alu code c₁
  let moved = record c₁ {
    vdp = move c.vdp k;
    vrp = move c.vrp j;
    dstack = if b₇ then update c.dstack (move c.vdp k) c.tos else c.dstack;
    rstack = if b₆ then update c.rstack (move c.vrp j) c.tos else c.rstack;
  }
  let stored = if b₅ then mem_store c.tos c₁.nos moved else ok moved
  c₂ ← stored >>= λ c₃. ok (record c₃ { tos = u16 v })
  ok (to_pc next c₂)

pub alu_step-fields :
    (insn : ℕ) (c : Chip)
    → alu_step insn c
      ≡ alu_fields
          (insn / 2 ^ 8 % 16)
          (insn % 4)
          (insn / 4 % 4)
          (bit insn 7)
          (bit insn 6)
          (bit insn 5)
          (bit insn 12)
          c
unfolding alu_step alu_fields alu_writes
alu_step-fields insn c = refl
