-- ===== src/Macro/Returns.antt =====
-- Macros of numbers and primitives, and the return from one macro to another.
use qlforth.Prelude.{
  ℕ, zero, suc, ◌+◌, ◌-◌, ◌<◌, ◌≤◌, ◌≡◌, refl, sym, ap, ◌∙◌, arith, true, false, Bool-cases, inl,
  inr, none, some, List, [], ◌∷◌, length, Result, ok, error, fault, timeout, ◌>>=◌, get_elem?,
  update, if◌then◌else◌, leb, ◌==◌, lt→ltb,
}
use qlforth.Compile.{
  Compiler, Cell, ival, symbol_cell, routine, symbol_do_next, symbol_do_literal, dict_cells,
}
use qlforth.Floats.{FloatOps}
use qlforth.Functions.{Primitive, primitive, fp_docol}
use qlforth.Host.Primitives.{run_primitive}
use qlforth.Host.{Vm, qlforth_push}
use qlforth.Macro.{
  Running, set_pc, set_vm, cell_at, do_docol, fp_donext, fp_doliteral, run_routine, run_symbol,
  run_cell, macro_round, macro_loop, macro_execute,
}
use qlforth.Symbols.{Symbol}

-- A word of a straight macro: a number, or a primitive with the number of its symbol.
pub data Word : Type 0 where
  number : ℕ → Word
  word : ℕ → Primitive → Word

abbrev pub cells_of : List Word → List Cell
cells_of [] = routine symbol_do_next ∷ []
cells_of (number n ∷ ws) = routine symbol_do_literal ∷ ival n ∷ cells_of ws
cells_of (word id p ∷ ws) = symbol_cell id ∷ cells_of ws

-- The dictionary has these cells from a place on.
abbrev pub Holds : (ℕ → Cell) → ℕ → List Cell → Type 0
Holds dict at [] = Unit
Holds dict at (x ∷ xs) = (dict at ≡ x) × (at < dict_cells) × Holds dict (at + 1) xs

abbrev pub IsPrimitive : List Symbol → ℕ → Primitive → Type 0
IsPrimitive entries id p = (s : Symbol) × (get_elem? entries id ≡ some s) × (s.fun ≡ primitive p)

abbrev pub AllKnown : List Symbol → List Word → Type 0
AllKnown entries [] = Unit
AllKnown entries (number n ∷ ws) = AllKnown entries ws
AllKnown entries (word id p ∷ ws) = IsPrimitive entries id p × AllKnown entries ws

abbrev pub meaning : Word → Vm → Result Vm
meaning (number n) vm = qlforth_push n vm
meaning (word id p) vm = run_primitive p vm

abbrev pub unless_met : {A : Type 0} → ℕ → (Vm → Result A) → Vm → Result A
unless_met rp k vm = if leb vm.dp rp then k vm else fault

-- The words in their order, each with the test that the stack does not meet the return addresses.
unfoldable pub run_words : ℕ → List Word → Vm → Result Vm
run_words rp [] vm = ok vm
run_words rp (w ∷ ws) vm = meaning w vm >>= unless_met rp (run_words rp ws)

-- A round for every word, one for the return, one to see NULL, and `n` more.
abbrev pub rounds_of : List Word → ℕ → ℕ
rounds_of [] n = suc (suc n)
rounds_of (w ∷ ws) n = suc (rounds_of ws n)

rounds_of-length :
    (ws : List Word) (fuel : ℕ)
    → length ws + 2 ≤ fuel
    → rounds_of ws (fuel - (length ws + 2)) ≡ fuel
rounds_of-length [] fuel h = omega arith
rounds_of-length (w ∷ ws) zero h = absurd (omega arith)
rounds_of-length (w ∷ ws) (suc fuel) h =
    let less : suc fuel - (suc (length ws) + 2) ≡ fuel - (length ws + 2) = omega arith in
    ap (λ n. suc (rounds_of ws n)) less ∙ ap (λ n. suc n) (rounds_of-length ws fuel (omega arith))

abbrev pub returned : Compiler → Vm → Result Compiler
returned c vm = ok (record c { vm = vm; rp = c.rp + 1 })

-- The test after a round that only changes the stack.
met-set_vm :
    (r : Result Vm) (m : Running)
    → ((r >>= λ v. ok (set_vm v m)) >>= λ m₁. if leb m₁.host.vm.dp m₁.host.rp then ok m₁ else fault)
      ≡ (r >>= unless_met m.host.rp (λ v. ok (set_vm v m)))
met-set_vm (ok v) m = refl
met-set_vm (error e) m = refl
met-set_vm fault m = refl
met-set_vm timeout m = refl

module _ (ops : FloatOps) where
  number-round :
      (n at : ℕ) (m : Running)
      → m.host.dict_buffer at ≡ routine symbol_do_literal
      → at < dict_cells
      → m.host.dict_buffer (at + 1) ≡ ival n
      → at + 1 < dict_cells
      → macro_round ops (set_pc (some at) m) ≡ (
          qlforth_push n m.host.vm
          >>= unless_met m.host.rp (λ v. ok (set_pc (some (at + 1 + 1)) (set_vm v m))))
  unfolding macro_round cell_at run_cell run_routine fp_doliteral
  number-round n at m h l h₁ l₁ =
      rw (lt→ltb at dict_cells l, h, lt→ltb (at + 1) dict_cells l₁, h₁)
        (met-set_vm (qlforth_push n m.host.vm) (set_pc (some (at + 1 + 1)) m))

  word-round :
      (id at : ℕ) (p : Primitive) (m : Running)
      → m.host.dict_buffer at ≡ symbol_cell id
      → at < dict_cells
      → IsPrimitive m.host.symbols.entries id p
      → macro_round ops (set_pc (some at) m) ≡ (
          run_primitive p m.host.vm
          >>= unless_met m.host.rp (λ v. ok (set_pc (some (at + 1)) (set_vm v m))))
  unfolding macro_round cell_at run_cell run_symbol
  word-round id at p m h l (s, e, k) =
      rw (lt→ltb at dict_cells l, h, e, k)
        (met-set_vm (run_primitive p m.host.vm) (set_pc (some (at + 1)) m))

  next-round :
      (at : ℕ) (m : Running)
      → m.host.dict_buffer at ≡ routine symbol_do_next
      → at < dict_cells
      → m.host.vm.dp ≤ m.host.rp
      → m.host.rp + 1 < 258
      → m.host.ret_stack (m.host.rp + 1) ≡ none
      → macro_round ops (set_pc (some at) m)
        ≡ ok (set_pc none (record m { host = record m.host { rp = m.host.rp + 1 } }))
  unfolding macro_round cell_at run_cell run_routine fp_donext
  next-round at m h l d b r =
      let e : leb m.host.vm.dp (m.host.rp + 1) ≡ true = ground arith in
      rw (lt→ltb at dict_cells l, h, lt→ltb (m.host.rp + 1) 258 b, r, e) refl

  -- A round, and the rounds after it.
  rounds :
      (rp : ℕ) (r : Result Vm) (at : ℕ) (m : Running) (k : Vm → Result Vm)
      (loop : Running → Result Compiler)
      → ((v : Vm) → v.dp ≤ rp → loop (set_pc (some at) (set_vm v m)) ≡ (k v >>= returned m.host))
      → ((r >>= unless_met rp (λ v. ok (set_pc (some at) (set_vm v m)))) >>= loop)
        ≡ ((r >>= unless_met rp k) >>= returned m.host)
  rounds rp (ok v) at m k loop h = elim (Bool-cases (leb v.dp rp)) [
    | inl e ↦ rw e (h v (ground arith))
    | inr e ↦ rw e refl
  ]
  rounds rp (error e) at m k loop h = refl
  rounds rp fault at m k loop h = refl
  rounds rp timeout at m k loop h = refl

  loop-straight :
      (ws : List Word) (fuel at : ℕ) (m : Running)
      → Holds m.host.dict_buffer at (cells_of ws)
      → AllKnown m.host.symbols.entries ws
      → m.host.vm.dp ≤ m.host.rp
      → m.host.rp + 1 < 258
      → m.host.ret_stack (m.host.rp + 1) ≡ none
      → macro_loop ops (rounds_of ws fuel) (set_pc (some at) m)
        ≡ (run_words m.host.rp ws m.host.vm >>= returned m.host)
  unfolding macro_loop run_words
  loop-straight [] fuel at m h k d b r = rw (next-round at m h.0 h.1 d b r) refl
  loop-straight (number n ∷ ws) fuel at m h k d b r = rw (number-round n at m h.0 h.1 h.2.0 h.2.1) (
      rounds m.host.rp (qlforth_push n m.host.vm) (at + 1 + 1) m (run_words m.host.rp ws)
        (macro_loop ops (rounds_of ws fuel))
        (λ v d₁. loop-straight ws fuel (at + 1 + 1) (set_vm v m) h.2.2 k d₁ b r))
  loop-straight (word id p ∷ ws) fuel at m h k d b r = rw (word-round id at p m h.0 h.1 k.0) (
      rounds m.host.rp (run_primitive p m.host.vm) (at + 1) m (run_words m.host.rp ws)
        (macro_loop ops (rounds_of ws fuel))
        (λ v d₁. loop-straight ws fuel (at + 1) (set_vm v m) h.2 k.1 d₁ b r))

  -- A macro of numbers and primitives that `::` and `;;` laid down, started from outside of any macro (the return
  -- address is NULL) with fuel for two rounds more than it has words, does what its words do one after
  -- another, or reports or fails as the first word that does, or fails where the stack meets the return addresses, and
  -- otherwise changes nothing but the cell of the return address.
  pub macro_execute-straight :
      (ws : List Word) (fuel : ℕ) (s : Symbol) (c : Compiler)
      → s.fun ≡ fp_docol
      → Holds c.dict_buffer s.value (cells_of ws)
      → AllKnown c.symbols.entries ws
      → c.vm.dp < c.rp
      → c.rp < 258
      → c.ret_stack c.rp ≡ none
      → length ws + 2 ≤ fuel
      → macro_execute ops fuel s c ≡ (
          run_words (c.rp - 1) ws c.vm >>= λ v.
          ok (record c { vm = v; ret_stack = update c.ret_stack (c.rp - 1) none }))
  unfolding macro_execute run_symbol do_docol
  macro_execute-straight ws fuel s c f h k d b r l =
      let start : Compiler = record c {
        rp = c.rp - 1;
        ret_stack = update c.ret_stack (c.rp - 1) none;
      } in
      let up : c.rp - 1 + 1 ≡ c.rp = omega arith in
      let above : (c.rp - 1 == c.rp) ≡ false = ground arith in
      let null : start.ret_stack (start.rp + 1) ≡ none = rw (up, above) r in
      let loop =
        loop-straight ws (fuel - (length ws + 2)) s.value
          (record { program_counter = none; host = start }) h k (omega arith) (omega arith) null in
      rw (f, lt→ltb c.vm.dp c.rp d, sym (rounds_of-length ws fuel l))
        (loop
          ∙ ap
              (λ p. run_words (c.rp - 1) ws c.vm >>= λ v.
                ok (record c { vm = v; rp = p; ret_stack = update c.ret_stack (c.rp - 1) none }))
              up)

-- The return reads the cell above the one that the entry wrote.
do_docol-fp_donext :
    (dfa : ℕ) (m : Running)
    → m.host.vm.dp < m.host.rp
    → m.host.rp < 258
    → (do_docol dfa m >>= fp_donext)
      ≡ ok (record m {
        program_counter = m.host.ret_stack m.host.rp;
        host = record m.host {
          ret_stack = update m.host.ret_stack (m.host.rp - 1) m.program_counter;
        };
      })
unfolding do_docol fp_donext
do_docol-fp_donext dfa m d b =
    let up : m.host.rp - 1 + 1 ≡ m.host.rp = omega arith in
    let above : (m.host.rp - 1 == m.host.rp) ≡ false = ground arith in
    rw (lt→ltb m.host.vm.dp m.host.rp d, up, lt→ltb m.host.rp 258 b, above) refl

-- A macro that calls a macro: with room for two return addresses, the return from the inner one, which its
-- caller at `x` waits for, goes to where the outer one was called from, whatever `x` is.
pub do_docol-nested :
    (outer inner x : ℕ) (m : Running)
    → m.host.vm.dp + 1 < m.host.rp
    → m.host.rp < 258
    → (do_docol outer m >>= λ m₁. do_docol inner (set_pc (some x) m₁) >>= fp_donext)
      ≡ ok (record m {
        host = record m.host {
          rp = m.host.rp - 1;
          ret_stack =
              update
                (update m.host.ret_stack (m.host.rp - 1) m.program_counter)
                (m.host.rp - 1 - 1)
                (some x);
        };
      })
unfolding do_docol
do_docol-nested outer inner x m d b =
    let m₁ = record m {
      program_counter = some x;
      host = record m.host {
        rp = m.host.rp - 1;
        ret_stack = update m.host.ret_stack (m.host.rp - 1) m.program_counter;
      };
    } in
    let same : (m.host.rp - 1 == m.host.rp - 1) ≡ true = ground arith in
    rw (lt→ltb m.host.vm.dp m.host.rp (omega arith))
      (do_docol-fp_donext inner m₁ (omega arith) (omega arith) ∙ rw same refl)
