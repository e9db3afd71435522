-- ===== src/Interpreter/Fits.antt =====
-- What the commands, the words with an argument and the chip's reply do to the text.
use qlforth.Prelude.{
  ℕ, ◌≤◌, arith, [], Option, none, some, Result, ok, error, fault, timeout, get_elem?, map, ◌>>=◌,
  Ensures, Ensures-bind, length, Option-cases, inl, inr,
}
use qlforth.Actions.{
  Forth, on_compiler, on_vm, with_token, spill_tos, run_command, say, stack_lines, dot_s, described,
  see_word, see,
}
use qlforth.Chip.Run.{Run, halted, stopped, out_of_fuel, Reply}
use qlforth.Compile.{Compiler}
use qlforth.Functions.{Command, forth_make, forth_quit, cfp_dot_s, cfp_see, forth_clear}
use qlforth.Host.{Vm}
use qlforth.Interpreter.{take_reply}
use qlforth.Output.{Output}
use qlforth.Scan.Bounds.{qlforth_token-IsToken}
use qlforth.Scan.{qlforth_token}
use qlforth.Symbols.{symbol_search, to_upper, Name}

-- The text has at most `n` bytes.
abbrev pub Fits : ℕ → Forth → Type 0
Fits n f = length f.text ≤ n

compiled-Fits :
    (n : ℕ) (r : Result Compiler) (f : Forth)
    → Fits n f
    → Ensures (Fits n) (r >>= λ c. ok (record f { compiler = c }))
compiled-Fits n (ok c) f h = h
compiled-Fits n (error m) f h = tt
compiled-Fits n fault f h = tt
compiled-Fits n timeout f h = tt

pub on_compiler-Fits :
    (n : ℕ) (k : Compiler → Result Compiler) (f : Forth)
    → Fits n f
    → Ensures (Fits n) (on_compiler k f)
on_compiler-Fits n k f h = compiled-Fits n (k f.compiler) f h

pub on_vm-Fits : (n : ℕ) (k : Vm → Result Vm) (f : Forth) → Fits n f → Ensures (Fits n) (on_vm k f)
on_vm-Fits n k f h = on_compiler-Fits n (λ c. k c.vm >>= λ vm. ok (record c { vm = vm })) f h

-- A word that reads another one.
pub with_token-Fits :
    (n : ℕ) (k : Option Name → Compiler → Result Compiler) (f : Forth)
    → Fits n f
    → Ensures (Fits n) (with_token k f)
with_token-Fits n k f h = elim (Option-cases (qlforth_token f.text)) [
  | inl p ↦ rw p (on_compiler-Fits n (k none) (record f { text = [] }) (omega arith))
  | inr (r, p) ↦
      let shorter = (qlforth_token-IsToken f.text r p).3 in
      rw p (on_compiler-Fits n (k (some r.0)) (record f { text = r.1 }) (omega (arith, h)))
]

dot_s-Fits : (n : ℕ) (f : Forth) → Fits n f → Ensures (Fits n) (dot_s f)
unfolding dot_s
dot_s-Fits n f h =
    Ensures-bind (Fits n) (Fits n) (on_vm spill_tos f)
      (λ g. ok (say (stack_lines g.compiler.vm.dp g.compiler.vm.data_stack) g))
      (on_vm-Fits n spill_tos f h) (λ g k. k)

-- What is printed changes nothing else.
say-Fits :
    (n : ℕ) (r : Result Output) (f : Forth)
    → Fits n f
    → Ensures (Fits n) (r >>= λ ps. ok (say ps f))
say-Fits n (ok ps) f h = h
say-Fits n (error m) f h = tt
say-Fits n fault f h = tt
say-Fits n timeout f h = tt

see_word-Fits : (n : ℕ) (o : Option ℕ) (f : Forth) → Fits n f → Ensures (Fits n) (see_word o f)
see_word-Fits n none f h = tt
see_word-Fits n (some id) f h =
    say-Fits n (described (get_elem? f.compiler.symbols.entries id) f.compiler) f h

see-Fits : (n : ℕ) (f : Forth) → Fits n f → Ensures (Fits n) (see (qlforth_token f.text) f)
unfolding see
see-Fits n f h = elim (Option-cases (qlforth_token f.text)) [
  | inl p ↦ rw p tt
  | inr (r, p) ↦
      let shorter = (qlforth_token-IsToken f.text r p).3 in
      rw p (
        see_word-Fits n (symbol_search f.compiler.symbols (map to_upper r.0))
          (record f { text = r.1 }) (omega (arith, h)))
]

pub run_command-Fits :
    (n : ℕ) (x : Command) (f : Forth) → Fits n f → Ensures (Fits n) (run_command x f)
unfolding run_command
run_command-Fits n forth_make f h = h
run_command-Fits n forth_quit f h = h
run_command-Fits n cfp_dot_s f h = dot_s-Fits n f h
run_command-Fits n cfp_see f h = see-Fits n f h
run_command-Fits n forth_clear f h = h

pub take_reply-Fits :
    (n : ℕ) (r : Run Reply) (f : Forth) → Fits n f → Ensures (Fits n) (take_reply r f)
take_reply-Fits n (halted r) f h = h
take_reply-Fits n stopped f h = tt
take_reply-Fits n out_of_fuel f h = tt
