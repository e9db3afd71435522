-- ===== src/Chip/Loop.antt =====
-- The loop of `execute`, one round at a time.
use qlforth.Prelude.{ℕ, suc, ◌<◌, ◌≡◌, ◌==◌, true, false, ok, lt→ltb, ◌∙◌}
use qlforth.Chip.{Chip, u16, step, ram_words}
use qlforth.Chip.Run.{halted, fetch, cycle, resume, execute_loop}

pub execute_loop-halt :
    (fuel pc insn : ℕ) (c : Chip) → (pc == 0) ≡ true → execute_loop (suc fuel) pc insn c ≡ halted c
unfolding execute_loop
execute_loop-halt fuel pc insn c e = rw (e, execute_loop)

pub execute_loop-suc :
    (fuel pc insn : ℕ) (c : Chip)
    → (pc == 0) ≡ false
    → execute_loop (suc fuel) pc insn c ≡ resume (execute_loop fuel) (cycle insn c)
unfolding execute_loop
execute_loop-suc fuel pc insn c e = rw (e, execute_loop)

pub cycle-step :
    (insn : ℕ) (c : Chip) (pc : ℕ) (d : Chip)
    → step insn c ≡ ok (pc, d)
    → d.vpc < ram_words
    → cycle insn c ≡ ok (pc, u16 (d.ram d.vpc), d)
unfolding cycle fetch
cycle-step insn c pc d e h = rw (e, cycle) (rw (lt→ltb _ _ h))

-- One round of a run: the instruction steps to `d`, and the next one is fetched there.
pub execute_loop-step :
    (fuel pc insn : ℕ) (c : Chip) (next : ℕ) (d : Chip)
    → (pc == 0) ≡ false
    → step insn c ≡ ok (next, d)
    → d.vpc < ram_words
    → execute_loop (suc fuel) pc insn c ≡ execute_loop fuel next (u16 (d.ram d.vpc)) d
execute_loop-step fuel pc insn c next d e s h =
    execute_loop-suc fuel pc insn c e ∙ rw (cycle-step insn c next d s h)
