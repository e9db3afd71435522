-- ===== src/Pipeline/Valid.antt =====
-- Every run that `QLForth_chip_execute` makes, from the state it loads, which is not yet a valid one.
use qlforth.Prelude.{ℕ, zero, suc, ◌<◌, sym, arith, Bool-cases, inl, inr, ltb}
use mathlib.Core.Path.{subst}
use qlforth.Chip.Invariant.{
  Words, IsLoaded, IsValid, HaltsIn, call-IsValid_any, execute_loop-IsValid,
}
use qlforth.Chip.Run.{
  Run, halted, stopped, out_of_fuel, Reply, reply, execute, chip_load, chip_execute,
}
use qlforth.Chip.{Chip, ram_words}
use qlforth.Code.Definition.{entered, execute-enter}
use qlforth.Pipeline.Load.{chip_load-IsLoaded}

execute-IsValid :
    (fuel entry : ℕ) (c : Chip)
    → entry < ram_words
    → IsLoaded c
    → HaltsIn IsValid (execute fuel entry c)
unfolding execute
execute-IsValid zero entry c l h = tt
execute-IsValid (suc fuel) entry c l h =
    let d = entered entry c in
    subst (HaltsIn IsValid) (sym (execute-enter fuel entry c l h.ram_fits)) (
      execute_loop-IsValid fuel d.vpc (d.ram d.vpc) d
        (call-IsValid_any entry c h.tos_fits h.vdp_inside h.dstack_fits h.rstack_fits h.ram_fits))

-- What the host takes over from a run.
abbrev pub IsReply : Reply → Type 0
IsReply r = IsValid r.chip × (r.depth < 32)

reply-IsReply : (stk : ℕ → ℕ) (r : Run Chip) → HaltsIn IsValid r → HaltsIn IsReply (reply stk r)
reply-IsReply stk (halted c) h = (h, omega arith)
reply-IsReply stk stopped h = tt
reply-IsReply stk out_of_fuel h = tt

-- Let the memory and both stacks of the chip hold 16-bit words, whatever the program in the memory and the pointers are.
-- Then a run from the host's stack that enters the memory anywhere and halts leaves the chip with 16-bit words in its
-- registers, memory and stacks, and with both stack pointers below 32, and gives the host a depth below 32.
pub chip_execute-IsReply :
    (fuel entry depth : ℕ) (stk : ℕ → ℕ) (c : Chip)
    → Words c.dstack
    → Words c.rstack
    → Words c.ram
    → entry < ram_words
    → HaltsIn IsReply (chip_execute fuel entry depth stk c)
unfolding chip_execute
chip_execute-IsReply fuel entry depth stk c d r m l =
    let ran = reply-IsReply stk (execute fuel entry (chip_load depth stk c)) (
      execute-IsValid fuel entry (chip_load depth stk c) l
        (chip_load-IsLoaded depth stk c d r m)) in
    elim (Bool-cases (ltb 32 depth)) [ inl e ↦ rw e tt | inr e ↦ rw e ran ]
