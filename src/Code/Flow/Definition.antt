-- ===== src/Code/Flow/Definition.antt =====
-- A definition of structured code that is called from the host: the run of `execute` to the halt.
use qlforth.Prelude.{ℕ, suc, ◌+◌, ◌<◌, ◌≡◌, refl, sym, ap, ◌∙◌, arith, true, some, [], ◌∷◌}
use qlforth.Chip.Invariant.{IsValid, IsLoaded, call-IsValid_any}
use qlforth.Chip.Literal.{Comes-step}
use qlforth.Chip.Loop.{execute_loop-halt}
use qlforth.Chip.Refines.{folded, step-meaning_ret}
use qlforth.Chip.Run.{halted, execute}
use qlforth.Chip.Views.{Data, Holds}
use qlforth.Chip.{Chip, call, ram_words}
use qlforth.Code.Definition.{entered, called-Holds, execute-enter}
use qlforth.Code.Execute.{Resident}
use qlforth.Code.Flow.Correct.{flow_code-Does}
use qlforth.Code.Flow.Generation.{definition_code}
use qlforth.Code.Flow.Run.{At, Arrives, Arrives-then, Arrives-step, parts}
use qlforth.Code.Flow.{width, flow_code, IsFlow, length-flow_code}
use qlforth.Control.Structure.{Structured}
use qlforth.Machine.Flow.Laws.{flow-Kept}
use qlforth.Machine.Flow.{flow_meaning, flow_body}
use qlforth.Machine.Laws.{plain-ret}
use qlforth.Machine.Programs.{within, within-some, and_then-some}
use qlforth.Machine.{Machine, Writable, meaning}
use qlforth.Opcodes.{is_plain}
use qlforth.Sst.{SstType}

-- The last word of a definition that was called with the return address 0.
last-Arrives :
    (t : SstType) (w : Writable) (a : ℕ) (c : Chip) (m m' : Machine)
    → is_plain t ≡ true
    → 0 < a
    → At a m c
    → m.mem a ≡ folded t
    → within (meaning w t m) ≡ some m'
    → m'.ret ≡ 0 ∷ []
    → Arrives 0 (record m' { ret = [] }) c
last-Arrives t w a c m m' p pos at r e ret =
    let (means, f, _) = within-some (meaning w t m) m' e in
    Arrives-step 0 (record m' { ret = [] }) c
      (Comes-step (folded t) 0 (record m' { ret = [] }) c (omega (arith, at.stands))
        (ap (λ g. g c.vpc) at.holds.memory ∙ ap m.mem at.stands ∙ r) (omega arith)
        (step-meaning_ret t p w c m m' at.valid at.holds means f 0 []
          (sym (plain-ret t w m m' p means) ∙ ret)))

-- A definition, from the word at `a` to the return.
definition-Arrives :
    (n : ℕ) (s : Structured) (t : SstType) (w : Writable) (a : ℕ) (c : Chip) (m m' : Machine)
    → IsFlow s
    → is_plain t ≡ true
    → 0 < a
    → a + width s < ram_words
    → At a m c
    → Resident w m.mem a (definition_code a s t)
    → flow_body n w s t m ≡ some m'
    → m'.ret ≡ 0 ∷ []
    → Arrives 0 (record m' { ret = [] }) c
definition-Arrives n s t w a c m m' h p pos l at r e ret =
    let (k, e₁, e₂) = and_then-some (flow_meaning n w s m) (λ k. within (meaning w t k)) m' e in
    let (r₁, r₂) =
      parts w m.mem a (width s) (flow_code a s) (folded t ∷ []) (length-flow_code a s h) r in
    let first = flow_code-Does n w s a h pos l m k c at r₁ e₁ in
    Arrives-then (a + width s) 0 k (record m' { ret = [] }) c first
      (last-Arrives t w (a + width s) first.chip k m' p (omega arith) first.there
        (flow-Kept w n s m k e₁ (a + width s) r₂.1 ∙ r₂.0) e₂ ret)

-- The run from `entry` ends in one valid state that holds `m`, with some number of rounds or any more.
abbrev pub Halts : ℕ → Chip → Machine → Type 0
Halts entry c m =
    (d : Chip) × (rounds : ℕ) × Holds d m
    × IsValid d
    × ((fuel : ℕ) → execute (suc (rounds + suc fuel)) entry c ≡ halted d)

-- Let the code of structured code of one-instruction words and branches, and of a last plain word, stand at `entry` in
-- the memory, in words that no store of the definition may change, and let the chip be loaded with the abstract stack,
-- with `vpc` at 0xffff. If the abstract machine, with the return address 0, runs the code within the sizes of both
-- stacks and with at most `n` rounds of every loop to `m'`, and finds 0 on its return stack, then `execute` halts: there
-- are a number of rounds, with which and with any more it ends in one valid state, which holds the stack and the memory
-- of `m'`.
pub execute-flow :
    (n : ℕ) (s : Structured) (t : SstType) (w : Writable) (entry : ℕ) (c : Chip) (m m' : Machine)
    → IsFlow s
    → is_plain t ≡ true
    → IsLoaded c
    → c.vpc ≡ 0xffff
    → Data c.tos c.dstack c.vdp m.stack
    → c.ram ≡ m.mem
    → 0 < entry
    → entry + width s < ram_words
    → Resident w m.mem entry (definition_code entry s t)
    → flow_body n w s t (record m { ret = 0 ∷ [] }) ≡ some m'
    → m'.ret ≡ 0 ∷ []
    → Halts entry c (record m' { ret = [] })
unfolding call
execute-flow n s t w entry c m m' h p v e data_ok mem_ok pos l r means ret =
    let start = entered entry c in
    let at : At entry (record m { ret = 0 ∷ [] }) start = record {
      valid =
          call-IsValid_any entry c v.tos_fits v.vdp_inside v.dstack_fits v.rstack_fits v.ram_fits;
      holds = called-Holds entry c m e data_ok mem_ok;
      stands = omega arith;
    } in
    let came =
      definition-Arrives n s t w entry start (record m { ret = 0 ∷ [] }) m' h p pos l at r means
        ret in
    (
      came.chip,
      came.rounds,
      came.there.holds,
      came.there.valid,
      λ fuel.
          execute-enter (came.rounds + suc fuel) entry c (omega arith) v.ram_fits
          ∙ came.runs (suc fuel)
          ∙ execute_loop-halt fuel came.chip.vpc (came.chip.ram came.chip.vpc) came.chip
              (rw came.there.stands refl),
    )
