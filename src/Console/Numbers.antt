-- ===== src/Console/Numbers.antt =====
-- A number on a line of the console.
use qlforth.Prelude.{ℕ, zero, suc, ◌+◌, ◌<◌, ◌≡◌, none, some, [], ◌∷◌, ◌++◌, map, update}
use qlforth.Actions.{Forth}
use qlforth.Compile.{qlf_state_interactive}
use qlforth.Output.{Output, chars, decimal}
use qlforth.Floats.{FloatOps}
use qlforth.Number.{Number, forth_number}
use qlforth.Scan.{Text}
use qlforth.Symbols.{Name, symbol_search, to_upper}

-- The line.
abbrev pub number_line : Name → Text
number_line word = word ++ b' ' ∷ b'\n' ∷ []

-- What the user is shown: the number on top, the one below it if there is one, and the depth from three on.
abbrev pub shown : ℕ → ℕ → ℕ → Output
shown zero top below = chars "Ok. " ∷ []
shown (suc zero) top below = chars "[TOS] " ∷ decimal top ∷ chars " " ∷ chars "Ok. " ∷ []
shown (suc (suc zero)) top below =
    chars "[TOS] "
    ∷ decimal top
    ∷ chars ", [NOS] = "
    ∷ decimal below
    ∷ chars " "
    ∷ chars "Ok. "
    ∷ []
shown (suc (suc (suc n))) top below =
    chars "[TOS] "
    ∷ decimal top
    ∷ chars ", [NOS] = "
    ∷ decimal below
    ∷ chars ", [DEPTH] "
    ∷ decimal (suc (suc (suc n)))
    ∷ chars " "
    ∷ chars "Ok. "
    ∷ []

-- What it leaves: the number on the stack.
abbrev pub pushed : ℕ → Forth → Forth
pushed v f = record f {
  compiler = record f.compiler {
    state = qlf_state_interactive;
    vm = record {
      tos = v;
      data_stack = update f.compiler.vm.data_stack f.compiler.vm.dp f.compiler.vm.tos;
      dp = f.compiler.vm.dp + 1;
    };
  };
  text = [];
}

module _ (ops : FloatOps) (strtod : Name → ℕ × Name) (fuel : ℕ) (word : Name) (n : Number)
    (f : Forth) (room : f.compiler.vm.dp < 258)
    (unknown : symbol_search f.compiler.symbols (map to_upper word) ≡ none)
    (number : forth_number strtod ops.negate (map to_upper word) ≡ some n) where
  abbrev at_line : Text → Forth
  at_line t = record f { compiler = record f.compiler { state = qlf_state_interactive }; text = t }
