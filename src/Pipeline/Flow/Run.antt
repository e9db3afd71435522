-- ===== src/Pipeline/Flow/Run.antt =====
-- A definition with branches and loops, run from the console.
use qlforth.Prelude.{
  ℕ, suc, ◌+◌, ◌<◌, ◌≤◌, ◌≡◌, refl, sym, ap, ◌∙◌, arith, true, List, [], ◌∷◌, ◌++◌, length,
  length-append, get_elem?, some, Returns,
}
use mathlib.Core.Option.{some_inj}
use mathlib.Core.Path.{subst}
use qlforth.Actions.{Forth}
use qlforth.Chip.Invariant.{Words}
use qlforth.Chip.Refines.{folded}
use qlforth.Chip.Run.{chip_load}
use qlforth.Code.Assembler.{write_words}
use qlforth.Code.Flow.Definition.{execute-flow}
use qlforth.Code.Flow.Generation.{definition_code}
use qlforth.Code.Flow.{width, flow_code, IsFlow, length-flow_code}
use qlforth.Control.Structure.{
  Structured, empty, word, then, if_then, if_else, begin_until, begin_while, do_loop, for_next,
}
use qlforth.Floats.{FloatOps}
use qlforth.Interpreter.{debug_word}
use qlforth.Machine.Flow.{flow_body}
use qlforth.Machine.{Writable}
use qlforth.Opcodes.{is_plain}
use qlforth.Pipeline.Flow.{FlowPlaced}
use qlforth.Pipeline.Load.{
  AllFit, AllFit-append, opcode-fits, folded-fits, Guarded, taken, write_words-Resident,
  write_words-Words, chip_load-Data, chip_load-IsLoaded,
}
use qlforth.Pipeline.Run.{spilled, debug_word-Ends, Shows, chip_execute-halted}
use qlforth.Sst.{SstType}
use qlforth.Symbols.{Name, Symbol}

flow_code-AllFit :
    (a : ℕ) (s : Structured) → IsFlow s → a + width s < 0x2000 → AllFit (flow_code a s)
unfolding AllFit
flow_code-AllFit a empty h l = tt
flow_code-AllFit a (word t) h l = (opcode-fits t h, tt)
flow_code-AllFit a (then s u) h l =
    AllFit-append (flow_code a s) (flow_code (a + width s) u)
      (flow_code-AllFit a s h.0 (omega arith)) (flow_code-AllFit (a + width s) u h.1 (omega arith))
flow_code-AllFit a (if_then s) h l = (omega arith, flow_code-AllFit (a + 1) s h (omega arith))
flow_code-AllFit a (if_else s u) h l = (
  omega arith,
  AllFit-append (flow_code (a + 1) s) ((a + width s + width u + 2) ∷ flow_code (a + width s + 2) u)
      (flow_code-AllFit (a + 1) s h.0 (omega arith))
      (omega arith, flow_code-AllFit (a + width s + 2) u h.1 (omega arith)),
)
flow_code-AllFit a (begin_until s) h l =
    AllFit-append (flow_code a s) ((0x2000 + a) ∷ []) (flow_code-AllFit a s h (omega arith))
      (omega arith, tt)
flow_code-AllFit a (begin_while s u) h l =
    let body = flow_code (a + width s + 1) u in
    AllFit-append (flow_code a s) ((0x2000 + (a + width s + width u + 2)) ∷ (body ++ a ∷ []))
      (flow_code-AllFit a s h.0 (omega arith))
      (
        omega arith,
        AllFit-append body (a ∷ []) (flow_code-AllFit (a + width s + 1) u h.1 (omega arith))
            (omega arith, tt),
      )
flow_code-AllFit a (do_loop s) h l = absurd h
flow_code-AllFit a (for_next s) h l = absurd h

pub definition_code-AllFit :
    (s : Structured) (t : SstType)
    → IsFlow s
    → is_plain t ≡ true
    → width s + 2 ≤ 0x2000
    → AllFit (definition_code 1 s t)
unfolding AllFit
definition_code-AllFit s t h p l =
    AllFit-append (flow_code 1 s) (folded t ∷ []) (flow_code-AllFit 1 s h (omega arith))
      (folded-fits t p, tt)

length-definition_code :
    (s : Structured) (t : SstType) → IsFlow s → length (definition_code 1 s t) ≡ width s + 1
length-definition_code s t h =
    omega (arith, length-append (flow_code 1 s) (folded t ∷ []), length-flow_code 1 s h)

-- The chip's memory with a definition.
abbrev pub flow_memory : Structured → SstType → ℕ → ℕ
flow_memory s t = write_words (λ i. 0) 1 (definition_code 1 s t)

-- Let a definition be placed in the chip as the loading of a file leaves it, its code of one-instruction words under IF,
-- ELSE, ENDIF, BEGIN, UNTIL, WHILE and REPEAT, and a last plain word, and let the host have at most 32 numbers. Let the
-- abstract machine, on the lower 16 bits of the numbers, with the code as its memory, the return address 0, and no store
-- allowed into the code, run the definition within the sizes of both stacks and with at most `n` rounds of every loop,
-- and end with `x` on top and the return address left. Then there are a number of rounds, with which and with any more
-- the word, run from the console, ends; the top of the host's stack is `x` with its sign, and the chip's memory is the
-- abstract machine's.
pub debug_word-flow :
    (ops : FloatOps) (strtod : Name → ℕ × Name) (name : Name) (s : Structured) (t : SstType) (n : ℕ)
    (w : Writable) (f g : Forth) (found : Symbol) (x : ℕ) (mem : ℕ → ℕ) (ys : List ℕ)
    → FlowPlaced name s t f g
    → get_elem? g.compiler.symbols.entries (length f.compiler.symbols.entries) ≡ some found
    → IsFlow s
    → is_plain t ≡ true
    → Words f.chip.dstack
    → Words f.chip.rstack
    → g.compiler.vm.dp ≤ 32
    → width s + 2 ≤ 0x2000
    → Guarded w 1 (width s + 1)
    → flow_body n w s t (record {
      stack = taken g.compiler.vm.dp (spilled g.compiler.vm);
      ret = 0 ∷ [];
      mem = flow_memory s t;
    })
      ≡ some (record { stack = x ∷ ys; ret = 0 ∷ []; mem = mem })
    → (rounds : ℕ) × ((fuel : ℕ)
        → Returns (Shows x mem) (debug_word ops strtod (suc (rounds + suc fuel)) found g))
unfolding chip_load
debug_word-flow ops strtod name s t n w f g found x mem ys placed at h p d r l room guarded means =
    let depth = g.compiler.vm.dp in
    let stk = spilled g.compiler.vm in
    let code = definition_code 1 s t in
    let c = record f.chip { ram = flow_memory s t } in
    let fits =
      write_words-Words (λ i. 0) 1 code (λ i. omega arith) (definition_code-AllFit s t h p room) in
    let there =
      write_words-Resident w (λ i. 0) 1 code
        (subst (Guarded w 1) (sym (length-definition_code s t h)) guarded) in
    let one : found.value ≡ 1 = sym (ap (λ q. q.value) (some_inj.0 (sym placed.symbol ∙ at))) in
    let (e, rounds, holds, valid, runs) =
      execute-flow n s t w 1 (chip_load depth stk c)
        (record { stack = taken depth stk; ret = []; mem = flow_memory s t })
        (record { stack = x ∷ ys; ret = 0 ∷ []; mem = mem }) h p
        (chip_load-IsLoaded depth stk c d r fits) (omega arith) (chip_load-Data depth stk c l) refl
        (omega arith) (omega arith) there means refl in
    (
      rounds,
      λ fuel.
          let (reply, q, ends) =
            chip_execute-halted (suc (rounds + suc fuel)) 1 c e depth x stk mem ys [] l (runs fuel)
              holds in
          debug_word-Ends ops strtod (suc (rounds + suc fuel)) found g c x mem reply one placed.chip
            l q ends,
    )
