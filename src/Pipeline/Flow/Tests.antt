-- ===== src/Pipeline/Flow/Tests.antt =====
-- `: LAST BEGIN 1- DUP UNTIL DUP IF INVERT ENDIF INVERT ;` in a file, and `LAST` from the console with 1.
use qlforth.Prelude.{
  suc, ◌+◌, ◌≡◌, refl, arith, some, ok, false, ℕ, zero, List, [], ◌∷◌, Returns, ◌>>=◌,
}
use qlforth.Actions.{Forth, on_compiler}
use qlforth.Code.Flow.Definition.{execute-flow, Halts}
use qlforth.Code.Flow.Generation.{
  code_generation-flow, definition_code, definition_items, generated_state,
}
use qlforth.Code.Flow.Marks.{gen}
use qlforth.Code.{bytes, code_generation}
use qlforth.Control.Structure.{Structured, Item, word, then, if_then, begin_until}
use qlforth.Define.Definition.{new_word}
use qlforth.Floats.Examples.{no_floats, no_strtod}
use qlforth.Interpreter.Init.{blank_compiler, blank_chip, generate_code}
use qlforth.Interpreter.{debug_word}
use qlforth.Machine.Flow.{flow_body, flow_meaning, until}
use qlforth.Machine.{meaning}
use qlforth.Pipeline.Flow.Run.{flow_memory, definition_code-AllFit, debug_word-flow}
use qlforth.Pipeline.Flow.{FlowPlaced, define_flow, define_flow-generate_code}
use qlforth.Pipeline.Load.{taken, write_words-Resident, write_words-Words}
use qlforth.Pipeline.Run.{Shows, spilled}
use qlforth.Sst.{SstNode, null, sst_node, sst_dup, sst_invert, sst_1_sub, sst_end}
use qlforth.Symbols.{Symbol}

abbrev start : Forth
start = record {
  compiler = blank_compiler;
  chip = blank_chip;
  text = [];
  exited = false;
  printed = [];
}

abbrev last_of : Structured
last_of =
    then (begin_until (then (word sst_1_sub) (word sst_dup)))
      (then (word sst_dup) (if_then (word sst_invert)))

define_flow-generate_code_example :
    Returns
      (FlowPlaced (bytes "last") last_of sst_invert start)
      (on_compiler (define_flow (bytes "last") last_of sst_invert) start >>= generate_code)
define_flow-generate_code_example =
    define_flow-generate_code (bytes "last") last_of sst_invert start refl (omega arith) refl
      ((refl, refl), (refl, refl)) refl (omega arith) (omega arith) (omega arith)

abbrev found_last : Symbol
found_last = record (new_word (bytes "last") blank_compiler) { value = 1 }

abbrev loaded : Forth
loaded = record start {
  compiler = record blank_compiler {
    symbols = record blank_compiler.symbols { entries = found_last ∷ [] };
    vm = record { tos = 1; data_stack = λ i. 0; dp = 1 };
  };
  chip = record blank_chip { ram = flow_memory last_of sst_invert };
}

means :
    flow_body 2
      (λ a. false)
      last_of
      sst_invert
      (record {
        stack = taken 1 (spilled loaded.compiler.vm);
        ret = 0 ∷ [];
        mem = flow_memory last_of sst_invert;
      })
    ≡ some (record { stack = 0xffff ∷ []; ret = 0 ∷ []; mem = flow_memory last_of sst_invert })
unfolding flow_meaning until meaning
means = refl

debug_word-flow_example :
    (rounds : ℕ) × ((fuel : ℕ)
      → Returns
          (Shows 0xffff (flow_memory last_of sst_invert))
          (debug_word no_floats no_strtod (suc (rounds + suc fuel)) found_last loaded))
debug_word-flow_example =
    debug_word-flow no_floats no_strtod (bytes "last") last_of sst_invert 2 (λ a. false) start
      loaded found_last 0xffff (flow_memory last_of sst_invert) []
      (record { chip = refl; symbol = refl }) refl ((refl, refl), (refl, refl)) refl
      (λ i. omega arith) (λ i. omega arith) (omega arith) (omega arith) (λ i l m. refl) means

execute-flow_example :
    Halts 1
      (record loaded.chip { tos = 1; vpc = 0xffff })
      (record { stack = 0xffff ∷ []; ret = []; mem = flow_memory last_of sst_invert })
execute-flow_example =
    execute-flow 2 last_of sst_invert (λ a. false) 1 (record loaded.chip { tos = 1; vpc = 0xffff })
      (record { stack = 1 ∷ []; ret = []; mem = flow_memory last_of sst_invert })
      (record { stack = 0xffff ∷ []; ret = 0 ∷ []; mem = flow_memory last_of sst_invert })
      ((refl, refl), (refl, refl)) refl
      (record {
        tos_fits = omega arith;
        vdp_inside = omega arith;
        dstack_fits = λ i. omega arith;
        rstack_fits = λ i. omega arith;
        ram_fits =
            write_words-Words (λ i. 0) 1 (definition_code 1 last_of sst_invert) (λ i. omega arith)
              (definition_code-AllFit last_of sst_invert ((refl, refl), (refl, refl)) refl
                (omega arith));
      })
      refl (refl, tt) refl (omega arith) (omega arith)
      (write_words-Resident (λ a. false) (λ i. 0) 1 (definition_code 1 last_of sst_invert)
        (λ i l m. refl))
      means refl

-- The nodes of that definition.
abbrev nodes_of : List Item → ℕ → SstNode
nodes_of [] i = sst_node sst_end null
nodes_of ((t, o) ∷ ns) zero = sst_node t o
nodes_of ((t, o) ∷ ns) (suc i) = nodes_of ns i

abbrev last_nodes : ℕ → SstNode
last_nodes = nodes_of (definition_items 0 0 last_of sst_invert)

code_generation-flow_example :
    code_generation 0 (gen 1 0 last_nodes (λ i. 0) blank_compiler.symbols)
    ≡ ok (generated_state 0 0 last_of sst_invert last_nodes (λ i. 0) blank_compiler.symbols)
code_generation-flow_example =
    code_generation-flow 0 0 last_of sst_invert last_nodes 0 (λ i. 0) blank_compiler.symbols
      ((refl, refl), (refl, refl)) refl
      (
        refl,
        refl,
        (
          refl,
          refl,
          (
            refl,
            refl,
            (
              refl,
              refl,
              (
                refl,
                refl,
                (
                  refl,
                  refl,
                  (
                    refl,
                    refl,
                    (refl, refl, (refl, refl, (refl, refl, (refl, refl, (refl, refl, tt))))),
                  ),
                ),
              ),
            ),
          ),
        ),
      )
      refl (omega arith) (omega arith)
