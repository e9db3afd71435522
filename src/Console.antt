-- ===== src/Console.antt =====
-- src/main.c: what the console shows. `QLForth_printf` is `printf`; what it prints is a value.

pub mod Numbers
mod Tests
use qlforth.Prelude.{ℕ, zero, suc, ◌+◌, [], ◌∷◌, ◌++◌, ◌==◌, if◌then◌else◌, List}
use qlforth.Output.{Output, Piece, chars, decimal, hex8, fixed2, letters}
use qlforth.Symbols.{Name}

-- The three bases. The depth, a distance of pointers, is not negative here.
abbrev pub in_decimal : ℕ → ℕ → ℕ → Output
in_decimal zero x y = []
in_decimal (suc zero) x y = chars "[TOS] " ∷ decimal x ∷ chars " " ∷ []
in_decimal (suc (suc zero)) x y =
    chars "[TOS] " ∷ decimal x ∷ chars ", [NOS] = " ∷ decimal y ∷ chars " " ∷ []
in_decimal (suc (suc (suc n))) x y =
    chars "[TOS] "
    ∷ decimal x
    ∷ chars ", [NOS] = "
    ∷ decimal y
    ∷ chars ", [DEPTH] "
    ∷ decimal (suc (suc (suc n)))
    ∷ chars " "
    ∷ []

abbrev pub in_hex : ℕ → ℕ → ℕ → Output
in_hex zero x y = []
in_hex (suc zero) x y = chars "[TOS] 0x" ∷ hex8 x ∷ chars " " ∷ []
in_hex (suc (suc zero)) x y =
    chars "[TOS] 0x" ∷ hex8 x ∷ chars ", [NOS] = 0x" ∷ hex8 y ∷ chars " " ∷ []
in_hex (suc (suc (suc n))) x y =
    chars "[TOS] 0x"
    ∷ hex8 x
    ∷ chars ", [NOS] = 0x"
    ∷ hex8 y
    ∷ chars ", [DEPTH] "
    ∷ decimal (suc (suc (suc n)))
    ∷ chars " "
    ∷ []

abbrev pub in_float : ℕ → ℕ → ℕ → Output
in_float zero x y = []
in_float (suc zero) x y = chars "[TOS] " ∷ fixed2 x ∷ chars " " ∷ []
in_float (suc (suc zero)) x y = chars "[TOS] " ∷ fixed2 x ∷ chars ", [NOS] = " ∷ fixed2 y ∷ []
in_float (suc (suc (suc n))) x y =
    chars "[TOS] "
    ∷ fixed2 x
    ∷ chars ", [NOS] = "
    ∷ fixed2 y
    ∷ chars ", [DEPTH] "
    ∷ decimal (suc (suc (suc n)))
    ∷ chars " "
    ∷ []

unfoldable pub display_stack : ℕ → ℕ → ℕ → ℕ → Output
display_stack base depth x y =
    let shown =
      if base == 10
      then in_decimal depth x y
      else if base == 16
      then in_hex depth x y
      else if base == 0
      then in_float depth x y
      else [] in
    shown ++ chars "Ok. " ∷ []

-- The line of an error is given from 0 on, and 0 stands for none.
unfoldable pub report : ℕ → ℕ → ℕ → Name → Output
report zero x y str =
    chars "Used Dictionary Space : " ∷ decimal x ∷ chars " of " ∷ decimal y ∷ chars " Bytes\n" ∷ []
report (suc zero) x y str =
    if x == 0
    then chars "Error : " ∷ letters str ∷ chars "\n" ∷ []
    else chars "Error at line " ∷ decimal (x + 1) ∷ chars " : " ∷ letters str ∷ chars "\n" ∷ []
report (suc (suc msg)) x y str = []
