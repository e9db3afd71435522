-- ===== src/Chip/Run.antt =====
-- The loop of `execute`, and `QLForth_chip_execute`.
use qlforth.Prelude.{
  timeout, ℕ, zero, suc, ◌+◌, ◌-◌, ◌%◌, ◌^◌, bit_or, true, false, Result, ok, error, fault, ◌>>=◌,
  ltb, ◌==◌, if◌then◌else◌,
}
use qlforth.Chip.{Chip, u16, step, ram_words}

-- How a run ends; `out_of_fuel` stands for a run that is longer than the fuel.
pub data Run {ℓ} (A : Type ℓ) : Type ℓ where
  halted : A → Run A
  stopped : Run A
  out_of_fuel : Run A

-- `insn = ram[vpc]`.
unfoldable pub fetch : Chip → Result ℕ
fetch c = if ltb c.vpc ram_words then ok (u16 (c.ram c.vpc)) else fault

-- The body of the loop: the new `tmp_pc`, `insn` and chip.
unfoldable pub cycle : ℕ → Chip → Result (ℕ × ℕ × Chip)
unfolding fetch
cycle insn c = do (tmp_pc, c₁) ← step insn c; insn₁ ← fetch c₁; ok (tmp_pc, insn₁, c₁)

-- `stopped` is an access that C leaves undefined.
abbrev pub resume : (ℕ → ℕ → Chip → Run Chip) → Result (ℕ × ℕ × Chip) → Run Chip
resume k (ok (tmp_pc, insn, c)) = k tmp_pc insn c
resume k (error _) = stopped
resume k fault = stopped
resume k timeout = out_of_fuel

unfoldable pub execute_loop : ℕ → ℕ → ℕ → Chip → Run Chip
execute_loop zero tmp_pc insn c = out_of_fuel
execute_loop (suc fuel) tmp_pc insn c = elim (tmp_pc == 0) [
  | true ↦ halted c
  | false ↦ resume (execute_loop fuel) (cycle insn c)
]

-- `tmp_pc` starts as -1, and the first instruction is a call of the entry point.
unfoldable pub execute : ℕ → ℕ → Chip → Run Chip
unfolding execute_loop cycle
execute fuel entrypoint c = execute_loop fuel (2 ^ 32 - 1) (bit_or 0x4000 entrypoint) c

-- `(signed short) x`, as an `int`.
abbrev pub sign_extend : ℕ → ℕ
sign_extend x = if ltb x 0x8000 then x else x + (2 ^ 32 - 2 ^ 16)

-- `dstack[0 .. depth)` from the host's cells.
unfoldable pub load_stack : ℕ → (ℕ → ℕ) → (ℕ → ℕ) → ℕ → ℕ
load_stack depth stk old idx = if ltb idx depth then u16 (stk idx) else old idx

unfoldable pub store_stack : ℕ → Chip → (ℕ → ℕ) → ℕ → ℕ
store_stack depth c stk idx =
    if ltb idx depth
    then sign_extend (c.dstack idx)
    else if idx == depth
    then sign_extend c.tos
    else stk idx

-- The host's cells and the depth after the run.
pub record Reply : Type 0 where
  pub depth : ℕ
  pub cells : ℕ → ℕ
  pub chip : Chip

abbrev pub reply : (ℕ → ℕ) → Run Chip → Run Reply
reply stk (halted c) =
    let depth = (c.vdp + 1) % 32 in
    halted (record { depth = depth; cells = store_stack depth c stk; chip = c })
reply stk stopped = stopped
reply stk out_of_fuel = out_of_fuel

-- The chip as the copying of `depth` cells leaves it for `execute`.
unfoldable pub chip_load : ℕ → (ℕ → ℕ) → Chip → Chip
unfolding load_stack
chip_load depth stk c = record c {
  vpc = u16 (2 ^ 16 - 1);
  vrp = u16 (2 ^ 16 - 1);
  dstack = load_stack depth stk c.dstack;
  tos = u16 (stk depth);
  vdp = (depth + 31) % 32;
}

-- A depth of more than 32 writes behind `dstack`.
unfoldable pub chip_execute : ℕ → ℕ → ℕ → (ℕ → ℕ) → Chip → Run Reply
unfolding execute chip_load store_stack
chip_execute fuel entry depth stk c =
    if ltb 32 depth then stopped else reply stk (execute fuel entry (chip_load depth stk c))
