-- ===== src/Console/Tests.antt =====
-- The console at concrete lines.
use qlforth.Prelude.{false, []}
use qlforth.Actions.{Forth}
use qlforth.Interpreter.Init.{blank_compiler, blank_chip}

abbrev idle : Forth
idle = record {
  compiler = blank_compiler;
  chip = blank_chip;
  text = [];
  exited = false;
  printed = [];
}
