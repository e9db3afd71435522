-- ===== src/Interpreter/Loop.antt =====
-- The loop of `ql4th_interpreter` over a text, whose bound on the rounds never ends it.
use qlforth.Prelude.{ℕ, ◌≡◌, true, false, none, some, map, [], Result, ok, error, fault, timeout}
use qlforth.Actions.{Forth}
use qlforth.Floats.{FloatOps}
use qlforth.Interpreter.Fits.{Fits}
use qlforth.Interpreter.{interpret_word}
use qlforth.Scan.{Text, qlforth_token}
use qlforth.Symbols.{Name, to_upper}

-- No value.
abbrev pub Fails : Result Forth → Type 0
Fails (ok f) = ⊥
Fails (error m) = Unit
Fails fault = Unit
Fails timeout = Unit

module _ (ops : FloatOps) (strtod : Name → ℕ × Name) (fuel : ℕ) where
  -- The next word of the text, in upper case and with the text behind it to read on, is interpreted with this result.
  abbrev pub WordGives : Forth → Name × Text → Result Forth → Type 0
  WordGives f t r =
      (qlforth_token f.text ≡ some t)
      × (interpret_word ops strtod fuel (map to_upper t.0) (record f { text = t.1 }) ≡ r)

  -- The loop as finitely many rounds, without a bound on them: it ends at the end of the text, by a word that does not
  -- succeed, or by a word that exits, and behind every other word there is another round.
  pub data Rounds : Forth → Result Forth → Type 0 where
    at_end : (f : Forth) → qlforth_token f.text ≡ none → Rounds f (ok (record f { text = [] }))
    by_word :
        (f : Forth) (t : Name × Text) (r : Result Forth) → WordGives f t r → Fails r → Rounds f r
    by_exit :
        (f g : Forth) (t : Name × Text) → WordGives f t (ok g) → g.exited ≡ true → Rounds f (ok g)
    again :
        (f g : Forth) (t : Name × Text) (r : Result Forth)
        → WordGives f t (ok g)
        → g.exited ≡ false
        → Rounds g r
        → Rounds f r
