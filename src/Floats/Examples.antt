-- ===== src/Floats/Examples.antt =====
-- Operations on floats for the runs that use none.
use qlforth.Prelude.{ℕ, false}
use qlforth.Floats.{FloatOps}
use qlforth.Symbols.{Name}

abbrev pub no_floats : FloatOps
no_floats = record {
  nought = 0;
  add = λ a b. a;
  sub = λ a b. a;
  mul = λ a b. a;
  div = λ a b. a;
  atan2 = λ a b. a;
  pow = λ a b. a;
  lt = λ a b. false;
  eq = λ a b. false;
  negate = λ a. a;
  acos = λ a. a;
  asin = λ a. a;
  atan = λ a. a;
  cos = λ a. a;
  exp = λ a. a;
  log = λ a. a;
  log10 = λ a. a;
  sin = λ a. a;
  sqrt = λ a. a;
  tan = λ a. a;
}

-- A `strtod` that reads nothing.
abbrev pub no_strtod : Name → ℕ × Name
no_strtod s = (0, s)
