-- ===== src/Chip/Tests.antt =====
-- A chip with two numbers on its stack, and the theorems about its instructions at it.
use qlforth.Prelude.{arith, refl, false, [], ◌∷◌, Returns}
use qlforth.Chip.{Chip, step}
use qlforth.Chip.Invariant.{IsValid}
use qlforth.Chip.Literal.{with_top, step-literal_meaning}
use qlforth.Chip.Refines.{Reaches, folded, step-meaning, step-meaning_ret}
use qlforth.Chip.ReturnStack.{step-transfer_meaning}
use qlforth.Chip.Views.{Holds}
use qlforth.Machine.{Machine, meaning}
use qlforth.Opcodes.{opcode}
use qlforth.Sst.{sst_add, sst_to_r}

abbrev sample : Chip
sample = record {
  tos = 5;
  nos = 0;
  vdp = 2;
  vrp = 1;
  vpc = 2;
  dstack = λ i. 7;
  rstack = λ i. 40;
  ram = λ i. 0x6203;
}

abbrev before : Machine
before = record { stack = 5 ∷ 7 ∷ []; ret = 40 ∷ []; mem = λ i. 0x6203 }

abbrev added : Machine
added = record { stack = 12 ∷ []; ret = 40 ∷ []; mem = λ i. 0x6203 }

abbrev moved : Machine
moved = record { stack = 7 ∷ []; ret = 5 ∷ 40 ∷ []; mem = λ i. 0x6203 }

sample-IsValid : IsValid sample
sample-IsValid = record {
  tos_fits = omega arith;
  vdp_inside = omega arith;
  vrp_inside = omega arith;
  dstack_fits = λ i. omega arith;
  rstack_fits = λ i. omega arith;
  ram_fits = λ i. omega arith;
}

sample-Holds : Holds sample before
sample-Holds = record { data_stack = (refl, (refl, tt)); ret_stack = (refl, tt); memory = refl }

step-meaning_example : Returns (Reaches 3 added) (step (opcode sst_add) sample)
step-meaning_example =
    step-meaning sst_add refl (λ a. false) sample before added sample-IsValid sample-Holds
      (unfold meaning in refl) (omega arith)

step-meaning_ret_example :
    Returns (Reaches 20 (record added { ret = [] })) (step (folded sst_add) sample)
step-meaning_ret_example =
    step-meaning_ret sst_add refl (λ a. false) sample before added sample-IsValid sample-Holds
      (unfold meaning in refl) (omega arith) 40 [] refl

step-transfer_meaning_example : Returns (Reaches 3 moved) (step (opcode sst_to_r) sample)
step-transfer_meaning_example =
    step-transfer_meaning sst_to_r (λ a. false) sample before moved refl sample-IsValid sample-Holds
      (unfold meaning in refl) (omega arith) (omega arith)

step-literal_meaning_example : Returns (Reaches 3 (with_top 300 before)) (step 0x812C sample)
step-literal_meaning_example =
    step-literal_meaning 300 sample before (omega arith) sample-IsValid sample-Holds (omega arith)
