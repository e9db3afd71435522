-- ===== src/Interpreter/Tests.antt =====
-- A line that is interpreted in a host without vocabularies.
use qlforth.Prelude.{[], false}
use qlforth.Actions.{Forth}
use qlforth.Code.{bytes}
use qlforth.Interpreter.Init.{blank_compiler, blank_chip}

abbrev blank : Forth
blank = record {
  compiler = blank_compiler;
  chip = blank_chip;
  text = bytes "5 0X10";
  exited = false;
  printed = [];
}
