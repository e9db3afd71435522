-- ===== src/Interpreter/Init.antt =====
-- `QLForth_init` and `QLForth_interpreter` of src/qlforth.c. The contents of the file are an argument, `none` where
-- it cannot be read.
use qlforth.Prelude.{
  ◌+◌, ◌-◌, ◌*◌, ◌%◌, ◌^◌, ◌∷◌, ℕ, false, Option, none, some, [], ltb, if◌then◌else◌, Result, ok,
  fault, ◌>>=◌, update, length,
}
use qlforth.Actions.{Forth, say}
use qlforth.Chip.{Chip}
use qlforth.Code.{Gen, code_start, code_generation}
use qlforth.Compile.{
  Compiler, csid_none, unset, ival, qlf_state_interactive, qlf_state_interpret, sst_node_max,
}
use qlforth.Console.{display_stack, report}
use qlforth.Floats.{FloatOps}
use qlforth.Interpreter.{ql4th_interpreter}
use qlforth.Output.{Output, chars, file_name}
use qlforth.Scan.{Text}
use qlforth.Sst.{sst_node, sst_noop, sst_end, null, SstNode}
use qlforth.Symbols.{Name, root_bucket, working_bucket}
use qlforth.Tables.{add_vocabularies, into}

-- Cleared memory.
abbrev pub blank_compiler : Compiler
blank_compiler = record {
  sst_buffer = λ i. sst_node sst_noop null;
  sst_current = 0;
  cs_stack = λ i. record { id = csid_none; link = unset };
  cs_ptr = 0;
  dict_buffer = λ i. ival 0;
  here = 0;
  state = qlf_state_interactive;
  this_create_word = none;
  symbols = record {
    entries = [];
    root = λ h. [];
    forth = λ h. [];
    working = λ h. [];
    current = root_bucket;
  };
  vm = record { tos = 0; data_stack = λ i. 0; dp = 0 };
  rp = 255;
  ret_stack = λ i. none;
}

abbrev pub blank_chip : Chip
blank_chip = record {
  tos = 0;
  nos = 0;
  vdp = 0;
  vrp = 0;
  vpc = 0;
  dstack = λ i. 0;
  rstack = λ i. 0;
  ram = λ i. 0;
}

-- What `Code_generation` starts from: `Code_init` and the nodes and symbols of the compiler.
abbrev pub generator : Compiler → Gen
generator c = record {
  code_ptr = code_start + 2;
  code_buffer = λ i. 0;
  at = 0;
  sst_buffer = c.sst_buffer;
  symbols = c.symbols;
}

-- `sst_current->type = SST_END`, the code, and the chip's program. The nodes were appended from index 0 on.
unfoldable pub generate_code : Forth → Result Forth
unfolding code_generation
generate_code f =
    let c = f.compiler in
    if ltb sst_node_max c.sst_current then fault else do
      let n : SstNode = record (c.sst_buffer c.sst_current) { type = sst_end }
      let ended = record c { sst_buffer = update c.sst_buffer c.sst_current n }
      g ← code_generation 0 (generator ended)
      ok (record f {
        compiler = record c { sst_buffer = g.sst_buffer; symbols = g.symbols };
        chip = record f.chip { ram = g.code_buffer };
      })

abbrev pub on_current : Forth → Forth
on_current f = record f { compiler = into working_bucket f.compiler }

-- The cells of the dictionary in use, in bytes, 8 to a cell, and the size of the dictionary, which is in cells.
abbrev pub used : Compiler → Output
used c = report 0 (c.here * 8 % 2 ^ 32) 1_048_576 []

-- `QLForth_display_stack(display_number_base, …)` at the end of a line of the console; the base is 10 throughout.
unfoldable pub show_stack : Forth → Forth
unfolding display_stack
show_stack f =
    let vm = f.compiler.vm in
    if f.exited then f else say (display_stack 10 vm.dp vm.tos (vm.data_stack (vm.dp - 1))) f

module _ (ops : FloatOps) (strtod : Name → ℕ × Name) (fuel : ℕ) where
  -- The file, from the state in which the vocabularies are there.
  unfoldable pub load_text : Option Text → Forth → Result Forth
  unfolding ql4th_interpreter generate_code report
  load_text none f =
      ok (on_current (say (chars "Can not open file : " ∷ file_name ∷ chars "\n" ∷ []) f))
  load_text (some text) f = do
    let start = record f { compiler = record f.compiler { state = qlf_state_interpret } }
    f₁ ← ql4th_interpreter ops strtod fuel text start
    if f₁.exited
        then ok f₁
        else (do f₂ ← generate_code f₁; ok (on_current (say (used f₂.compiler) f₂)))

  unfoldable pub qlforth_init : Option Text → Result Forth
  unfolding add_vocabularies load_text
  qlforth_init file = do
    c ← add_vocabularies blank_compiler
    load_text file
        (record { compiler = c; chip = blank_chip; text = []; exited = false; printed = [] })

  -- `interpret_text[TEXT_LINE_SIZE]` holds the line and its 0.
  unfoldable pub qlforth_interpreter : Text → Forth → Result Forth
  unfolding ql4th_interpreter show_stack
  qlforth_interpreter line f =
      if ltb (length line) 128
      then (do
        f₁ ←
            ql4th_interpreter ops strtod fuel line
              (record f { compiler = record f.compiler { state = qlf_state_interactive } })
        ok (show_stack f₁))
      else fault
