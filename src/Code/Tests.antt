-- ===== src/Code/Tests.antt =====
-- A definition of three words, `DUP 3 +`, generated and run.
use qlforth.Prelude.{
  true, ok, ℕ, suc, ◌<◌, ◌≡◌, arith, refl, false, none, some, List, [], ◌∷◌, ◌==◌, if◌then◌else◌,
  get_elem?,
}
use qlforth.Chip.{Chip}
use qlforth.Chip.Invariant.{IsValid}
use qlforth.Chip.Run.{execute, halted}
use qlforth.Chip.Views.{Holds}
use qlforth.Code.Generation.{generated, code_generation-definition}
use qlforth.Code.{code_generation, Gen}
use qlforth.Code.Definition.{execute-definition}
use qlforth.Code.Straight.{body_nodes}
use qlforth.Machine.{meaning}
use qlforth.Machine.Programs.{Item, lit, op, body_meaning, item_meaning}
use qlforth.Sst.{SstNode, sst_node, sst_end, sst_colon, spc, sst_dup, sst_add, null}
use qlforth.Functions.{no_function}
use qlforth.Symbols.{qlf_type_word, working_bucket}

abbrev dup_3 : List Item
dup_3 = op sst_dup ∷ lit 3 ∷ []

abbrev or_end : List SstNode → ℕ → SstNode
or_end ns i = elim (get_elem? ns i) [ none ↦ sst_node sst_end null | some n ↦ n ]

abbrev generator : Gen
generator = record {
  code_ptr = 4;
  code_buffer = λ i. 0;
  at = 0;
  sst_buffer = or_end (body_nodes dup_3 sst_add);
  symbols = record {
    entries =
        record { name = []; type = qlf_type_word; hidden = true; value = 0; fun = no_function }
        ∷ [];
    root = λ h. [];
    forth = λ h. [];
    working = λ h. [];
    current = working_bucket;
  };
}

abbrev code : ℕ → ℕ
code i = if i == 2 then 0x6081 else if i == 3 then 0x8003 else if i == 4 then 0x720F else 0

abbrev chip : Chip
chip = record {
  tos = 9;
  nos = 0;
  vdp = 0;
  vrp = 0xffff;
  vpc = 0xffff;
  dstack = λ i. 1;
  rstack = λ i. 0;
  ram = code;
}

code-fits : (i : ℕ) → code i < 0x10000
code-fits i = ground arith

means :
    body_meaning (λ a. false) dup_3 sst_add (record { stack = 9 ∷ []; ret = 0 ∷ []; mem = code })
    ≡ some (record { stack = 12 ∷ 9 ∷ []; ret = 0 ∷ []; mem = code })
unfolding body_meaning item_meaning meaning
means = refl

execute-definition_example :
    (d : Chip) × Holds d (record { stack = 12 ∷ 9 ∷ []; ret = []; mem = code })
    × IsValid d
    × ((fuel : ℕ) → execute (suc (suc (suc (suc (suc fuel))))) 2 chip ≡ halted d)
execute-definition_example =
    execute-definition dup_3 sst_add (λ a. false) 2 chip
      (record { stack = 9 ∷ []; ret = []; mem = code })
      (record { stack = 12 ∷ 9 ∷ []; ret = 0 ∷ []; mem = code }) (refl, (omega arith, tt)) refl
      (record {
        tos_fits = omega arith;
        vdp_inside = omega arith;
        dstack_fits = λ i. omega arith;
        rstack_fits = λ i. omega arith;
        ram_fits = code-fits;
      })
      refl (refl, tt) refl (omega arith) (omega arith) (refl, refl, (refl, refl, (refl, refl, tt)))
      means refl

-- The same words as a definition, from the third node on.
abbrev defining : Gen
defining = record generator {
  code_ptr = 2;
  sst_buffer = or_end (
      sst_node sst_end null
      ∷ sst_node sst_end null
      ∷ sst_node sst_colon (spc 0)
      ∷ body_nodes dup_3 sst_add);
}

code_generation-definition_example :
    code_generation 2 defining ≡ ok (generated 0 dup_3 sst_add 2 defining)
code_generation-definition_example =
    code_generation-definition 0 dup_3 sst_add 2 defining (refl, (omega arith, tt)) refl refl refl
      (refl, (refl, (refl, (refl, (refl, tt))))) refl (omega arith) (omega arith)
