-- ===== src/Control/Tests.antt =====
-- Nested structures, compiled from an empty state.
use qlforth.Prelude.{arith, refl, none, [], Returns}
use qlforth.Compile.{Compiler, qlf_state_compile, csid_none, unset, ival}
use qlforth.Control.{compiling}
use qlforth.Control.Correct.{compile-Compiled}
use qlforth.Control.Steps.{Compiled}
use qlforth.Control.Structure.{
  Structured, word, then, if_else, begin_while, for_next, compile, layout,
}
use qlforth.Sst.{sst_node, sst_noop, null, sst_dup, sst_1_sub, sst_drop, sst_fetch, sst_store}
use qlforth.Symbols.{working_bucket}

abbrev blank : Compiler
blank = record {
  sst_buffer = λ i. sst_node sst_noop null;
  sst_current = 4;
  cs_stack = λ i. record { id = csid_none; link = unset };
  cs_ptr = 2;
  dict_buffer = λ i. ival 0;
  here = 0;
  state = qlf_state_compile;
  this_create_word = none;
  symbols = record {
    entries = [];
    root = λ h. [];
    forth = λ h. [];
    working = λ h. [];
    current = working_bucket;
  };
  vm = record { tos = 0; data_stack = λ i. 0; dp = 0 };
  rp = 255;
  ret_stack = λ i. none;
}

abbrev nested : Structured
nested = then (word sst_dup) (
    if_else (begin_while (word sst_fetch) (word sst_1_sub))
      (for_next (then (word sst_drop) (word sst_store))))

compile-Compiled_example : Returns (Compiled blank (layout 4 nested)) (compile nested blank)
compile-Compiled_example =
    compile-Compiled nested blank (unfold compiling in refl) (omega arith) (omega arith)
