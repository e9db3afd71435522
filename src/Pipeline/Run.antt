-- ===== src/Pipeline/Run.antt =====
-- A definition of a file, run from the console.
use qlforth.Prelude.{
  ℕ, suc, ◌+◌, ◌%◌, ◌≤◌, ◌≡◌, ◌==◌, refl, sym, ap, ◌∙◌, arith, true, false, List, [], ◌∷◌, length,
  map, get_elem?, update, ltb, some, ok, Returns,
}
use mathlib.Core.Option.{some_inj}
use qlforth.Actions.{Forth, spill_tos}
use qlforth.Chip.Invariant.{Words}
use qlforth.Chip.Run.{Reply, halted, execute, chip_execute, chip_load, store_stack, sign_extend}
use qlforth.Chip.{Chip, ram_words}
use qlforth.Chip.Views.{Holds}
use qlforth.Code.Assembler.{write_words}
use qlforth.Code.Definition.{execute-definition}
use qlforth.Code.Execute.{after}
use qlforth.Code.Straight.{assemble, AllSimple}
use qlforth.Floats.{FloatOps}
use qlforth.Host.{Vm}
use qlforth.Interpreter.{debug_word}
use qlforth.Machine.Programs.{op, body_meaning}
use qlforth.Machine.{Writable, Machine}
use qlforth.Opcodes.{is_plain}
use qlforth.Pipeline.Load.{
  Guarded, taken, write_words-Resident, chip_load-Data, chip_load-IsLoaded, write_words-Words,
  assemble-AllFit,
}
use qlforth.Pipeline.{Placed}
use qlforth.Sst.{SstType}
use qlforth.Symbols.{Name, Symbol}

-- The chip's memory with a definition.
abbrev pub code_of : List SstType → SstType → ℕ → ℕ
code_of os t = write_words (λ i. 0) 1 (assemble (map op os) t)

-- A run that ends with `x` on top and this memory.
abbrev pub Ends : ℕ → (ℕ → ℕ) → Reply → Type 0
Ends x mem r = (r.cells r.depth ≡ sign_extend x) × (r.chip.ram ≡ mem)

store_stack-top :
    (depth : ℕ) (d : Chip) (stk : ℕ → ℕ) → store_stack depth d stk depth ≡ sign_extend d.tos
unfolding store_stack
store_stack-top depth d stk =
    let past : ltb depth depth ≡ false = ground arith in
    let same : (depth == depth) ≡ true = ground arith in rw (past, same) refl

-- A run of the chip, as the host sees it.
pub chip_execute-halted :
    (fuel entry : ℕ) (c e : Chip) (depth x : ℕ) (stk mem : ℕ → ℕ) (ys rs : List ℕ)
    → depth ≤ 32
    → execute fuel entry (chip_load depth stk c) ≡ halted e
    → Holds e (record { stack = x ∷ ys; ret = rs; mem = mem })
    → (r : Reply) × (chip_execute fuel entry depth stk c ≡ halted r) × Ends x mem r
unfolding chip_execute
chip_execute-halted fuel entry c e depth x stk mem ys rs l runs holds =
    let n = (e.vdp + 1) % 32 in
    let small : ltb 32 depth ≡ false = ground arith in
    (
      record { depth = n; cells = store_stack n e stk; chip = e },
      rw (small, runs) refl,
      (store_stack-top n e stk ∙ ap sign_extend holds.data_stack.0, holds.memory),
    )

chip_execute-Ends :
    (os : List SstType) (t : SstType) (w : Writable) (c : Chip) (depth x : ℕ) (stk mem : ℕ → ℕ)
    (ys : List ℕ) (fuel : ℕ)
    → AllSimple (map op os)
    → is_plain t ≡ true
    → Words c.dstack
    → Words c.rstack
    → depth ≤ 32
    → 1 + length (assemble (map op os) t) ≤ ram_words
    → Guarded w 1 (length (assemble (map op os) t))
    → body_meaning w
        (map op os)
        t
        (record { stack = taken depth stk; ret = 0 ∷ []; mem = code_of os t })
      ≡ some (record { stack = x ∷ ys; ret = 0 ∷ []; mem = mem })
    → (r : Reply) × (chip_execute
          (suc (after (assemble (map op os) t) (suc fuel)))
          1
          depth
          stk
          (record c { ram = code_of os t })
        ≡ halted r)
      × Ends x mem r
unfolding chip_execute chip_load
chip_execute-Ends os t w c depth x stk mem ys fuel s p d r l room guarded means =
    let code = assemble (map op os) t in
    let c₁ = record c { ram = code_of os t } in
    let fits = write_words-Words (λ i. 0) 1 code (λ i. omega arith) (assemble-AllFit os t s p) in
    let m : Machine = record { stack = taken depth stk; ret = []; mem = code_of os t } in
    let m' : Machine = record { stack = x ∷ ys; ret = 0 ∷ []; mem = mem } in
    let (e, holds, valid, runs) =
      execute-definition (map op os) t w 1 (chip_load depth stk c₁) m m' s p
        (chip_load-IsLoaded depth stk c₁ d r fits) (omega arith) (chip_load-Data depth stk c₁ l)
        refl (omega arith) room (write_words-Resident w (λ i. 0) 1 code guarded) means refl in
    chip_execute-halted (suc (after code (suc fuel))) 1 c₁ e depth x stk mem ys [] l (runs fuel)
      holds

-- `*dp = tos`.
abbrev pub spilled : Vm → ℕ → ℕ
spilled vm = update vm.data_stack vm.dp vm.tos

pub spill_tos-ok :
    (vm : Vm) → vm.dp ≤ 32 → spill_tos vm ≡ ok (record vm { data_stack = spilled vm })
unfolding spill_tos
spill_tos-ok vm h = ground arith

-- What the host sees of such a run.
abbrev pub Shows : ℕ → (ℕ → ℕ) → Forth → Type 0
Shows x mem k = (k.compiler.vm.tos ≡ sign_extend x) × (k.chip.ram ≡ mem)

-- Such a run, started by a word of the console.
pub debug_word-Ends :
    (ops : FloatOps) (strtod : Name → ℕ × Name) (fuel : ℕ) (s : Symbol) (g : Forth) (c : Chip)
    (x : ℕ) (mem : ℕ → ℕ) (r : Reply)
    → s.value ≡ 1
    → g.chip ≡ c
    → g.compiler.vm.dp ≤ 32
    → chip_execute fuel 1 g.compiler.vm.dp (spilled g.compiler.vm) c ≡ halted r
    → Ends x mem r
    → Returns (Shows x mem) (debug_word ops strtod fuel s g)
unfolding debug_word
debug_word-Ends ops strtod fuel s g c x mem r one chip l e ends =
    rw (spill_tos-ok g.compiler.vm l, one, chip, e) ends

-- Let a definition be placed in the chip as the loading of a file leaves it, and let the host have at most 32
-- numbers. Let the abstract machine, on the lower 16 bits of the numbers, with the code as its memory, the return
-- address 0, and no store allowed into the code, run the words within the sizes of both stacks, and end with `x` on top
-- and the return address left. Then the word, run from the console with fuel of one round for each instruction and two
-- more or above, ends; the top of the host's stack is `x` with its sign, and the chip's memory is the abstract machine's.
pub debug_word-Shows :
    (ops : FloatOps) (strtod : Name → ℕ × Name) (name : Name) (os : List SstType) (t : SstType)
    (w : Writable) (f g : Forth) (s : Symbol) (x : ℕ) (mem : ℕ → ℕ) (ys : List ℕ) (fuel : ℕ)
    → Placed name os t f g
    → get_elem? g.compiler.symbols.entries (length f.compiler.symbols.entries) ≡ some s
    → AllSimple (map op os)
    → is_plain t ≡ true
    → Words f.chip.dstack
    → Words f.chip.rstack
    → g.compiler.vm.dp ≤ 32
    → 1 + length (assemble (map op os) t) ≤ ram_words
    → Guarded w 1 (length (assemble (map op os) t))
    → body_meaning w (map op os) t (record {
      stack = taken g.compiler.vm.dp (spilled g.compiler.vm);
      ret = 0 ∷ [];
      mem = code_of os t;
    })
      ≡ some (record { stack = x ∷ ys; ret = 0 ∷ []; mem = mem })
    → Returns
        (Shows x mem)
        (debug_word ops strtod (suc (after (assemble (map op os) t) (suc fuel))) s g)
debug_word-Shows ops strtod name os t w f g s x mem ys fuel placed at simple p d r l room guarded
      means =
    let one : s.value ≡ 1 = sym (ap (λ q. q.value) (some_inj.0 (sym placed.symbol ∙ at))) in
    let (reply, e, ends) =
      chip_execute-Ends os t w f.chip g.compiler.vm.dp x (spilled g.compiler.vm) mem ys fuel simple
        p d r l room guarded means in
    debug_word-Ends ops strtod (suc (after (assemble (map op os) t) (suc fuel))) s g
      (record f.chip { ram = code_of os t }) x mem reply one placed.chip l e ends
