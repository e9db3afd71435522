-- ===== src/Code/Definition.antt =====
-- A definition that is called from the host: the run of `execute` from the entry point to the
-- halt, and the host's view of it through `QLForth_chip_execute`.
use mathlib.Core.Path.{subst}
use qlforth.Prelude.{
  ◌-◌, ℕ, suc, ◌+◌, ◌*◌, ◌%◌, ◌^◌, ◌≤◌, ◌<◌, ◌≡◌, refl, sym, ap, ◌∙◌, arith, true, some, ok, List,
  [], ◌∷◌, length, bit_or_call, update_self,
}
use qlforth.Chip.{Chip, u16, call, step, ram_words}
use qlforth.Chip.Decode.{step-call}
use qlforth.Chip.Invariant.{IsValid, IsLoaded, Words, call-IsValid_any}
use qlforth.Chip.Literal.{loop}
use qlforth.Chip.Loop.{execute_loop-step, execute_loop-halt}
use qlforth.Chip.Run.{halted, execute, execute_loop}
use qlforth.Chip.Views.{Data, Holds}
use qlforth.Code.Execute.{Resident, after, run-body}
use qlforth.Code.Straight.{AllSimple, assemble, assemble_pos}
use qlforth.Machine.{Machine, Writable}
use qlforth.Machine.Programs.{Item, body_meaning}
use qlforth.Opcodes.{is_plain}
use qlforth.Sst.{SstType}

-- The chip after the call that starts the run: it holds `m` with the return address 0.
abbrev pub entered : ℕ → Chip → Chip
entered entry c = (call entry c).1

pub called-Holds :
    (entry : ℕ) (c : Chip) (m : Machine)
    → c.vpc ≡ 0xffff
    → Data c.tos c.dstack c.vdp m.stack
    → c.ram ≡ m.mem
    → Holds (entered entry c) (record m { ret = 0 ∷ [] })
unfolding call
called-Holds entry c m e d r = record {
  data_stack = d;
  ret_stack =
      (update_self c.rstack ((c.vrp + 1) % 32) (u16 ((c.vpc + 1) * 2)) ∙ omega (arith, e), tt);
  memory = r;
}

entry-word :
    (entry : ℕ) (c : Chip)
    → entry < ram_words
    → step (0x4000 + entry) c ≡ ok (entry, entered entry c)
unfolding call
entry-word entry c l =
    let target : (0x4000 + entry) % 0x2000 ≡ entry = omega arith in
    step-call c (0x4000 + entry) (omega arith) (omega arith) ∙ ap (λ a. ok (call a c)) target

-- The first instruction is the call of the entry point.
pub execute-enter :
    (fuel entry : ℕ) (c : Chip)
    → entry < ram_words
    → Words c.ram
    → execute (suc fuel) entry c ≡ loop fuel (entered entry c)
unfolding execute call
execute-enter fuel entry c l f =
    let short : u16 entry ≡ entry = omega arith in
    let word : u16 (c.ram (u16 entry)) ≡ c.ram (u16 entry) = omega (arith, f (u16 entry)) in
    rw (bit_or_call entry l) (
      execute_loop-step fuel (2 ^ 32 - 1) (0x4000 + entry) c entry (entered entry c) refl
        (entry-word entry c l) (omega arith)
      ∙ (λ i. execute_loop fuel (sym short i) (word i) (entered entry c)))

-- Let the code of the reference assembler for numbers below 2 ^ 32 and one-instruction words, the last of
-- them a plain one, stand at `entry` in the memory, in words that no store of the definition may change,
-- and let the chip be loaded with the abstract stack, with `vpc` at 0xffff. If the abstract machine, with the
-- return address 0, runs the words within the sizes of both stacks to `m'` and finds 0 on its return stack,
-- then `execute` halts, with any fuel of one round for each word of the code and two more or above, in one
-- valid state, which holds the stack and the memory of `m'`.
pub execute-definition :
    (xs : List Item) (t : SstType) (w : Writable) (entry : ℕ) (c : Chip) (m m' : Machine)
    → AllSimple xs
    → is_plain t ≡ true
    → IsLoaded c
    → c.vpc ≡ 0xffff
    → Data c.tos c.dstack c.vdp m.stack
    → c.ram ≡ m.mem
    → 0 < entry
    → entry + length (assemble xs t) ≤ ram_words
    → Resident w m.mem entry (assemble xs t)
    → body_meaning w xs t (record m { ret = 0 ∷ [] }) ≡ some m'
    → m'.ret ≡ 0 ∷ []
    → (d : Chip) × Holds d (record m' { ret = [] })
      × IsValid d
      × ((fuel : ℕ) → execute (suc (after (assemble xs t) (suc fuel))) entry c ≡ halted d)
unfolding call
execute-definition xs t w entry c m m' s p v e data_ok mem_ok pos l r means ret =
    let at_entry : u16 entry ≡ entry = omega (arith, assemble_pos xs t) in
    let start = entered entry c in
    let came =
      run-body xs t w start (record m { ret = 0 ∷ [] }) m' 0 [] s p
        (call-IsValid_any entry c v.tos_fits v.vdp_inside v.dstack_fits v.rstack_fits v.ram_fits)
        (called-Holds entry c m e data_ok mem_ok) (omega arith) (omega arith) means ret
        (omega arith) (subst (λ a. Resident w m.mem a (assemble xs t)) (sym at_entry) r)
        (omega arith) in
    (
      came.chip,
      came.holds,
      came.valid,
      λ fuel.
          execute-enter (after (assemble xs t) (suc fuel)) entry c
            (omega (arith, assemble_pos xs t)) v.ram_fits
          ∙ came.runs (suc fuel)
          ∙ execute_loop-halt fuel came.chip.vpc (came.chip.ram came.chip.vpc) came.chip
              (rw came.stands),
    )
