-- ===== src/Control/Structure.antt =====
-- Structured code, as a source text nests it, the words that compile it, and the nodes that it should
-- become.
use qlforth.Prelude.{ℕ, zero, suc, ◌+◌, ◌≤◌, arith, List, [], ◌∷◌, ◌++◌, Result, ok, ◌>>=◌}
use qlforth.Compile.{Compiler, extension_word}
use qlforth.Control.{
  cfp_if, cfp_else, cfp_endif, cfp_begin, cfp_while, cfp_repeat, cfp_until, cfp_do, cfp_loop,
  cfp_for, cfp_next,
}
use qlforth.Sst.{
  SstType, Operand, null, sst, sst_0_branch, sst_branch, sst_label, sst_do, sst_loop, sst_for,
  sst_next,
}

pub data Structured : Type 0 where
  empty : Structured
  word : SstType → Structured
  then : Structured → Structured → Structured
  if_then : Structured → Structured
  if_else : Structured → Structured → Structured
  begin_until : Structured → Structured
  begin_while : Structured → Structured → Structured
  do_loop : Structured → Structured
  for_next : Structured → Structured

-- The words in the order of the text.
unfoldable pub compile : Structured → Compiler → Result Compiler
compile empty c = ok c
compile (word t) c = extension_word t c
compile (then s t) c = do c₁ ← compile s c; compile t c₁
compile (if_then s) c = do c₁ ← cfp_if c; c₂ ← compile s c₁; cfp_endif c₂
compile (if_else s t) c = do
  c₁ ← cfp_if c
  c₂ ← compile s c₁
  c₃ ← cfp_else c₂
  c₄ ← compile t c₃
  cfp_endif c₄
compile (begin_until s) c = do c₁ ← cfp_begin c; c₂ ← compile s c₁; cfp_until c₂
compile (begin_while s t) c = do
  c₁ ← cfp_begin c
  c₂ ← compile s c₁
  c₃ ← cfp_while c₂
  c₄ ← compile t c₃
  cfp_repeat c₄
compile (do_loop s) c = do c₁ ← cfp_do c; c₂ ← compile s c₁; cfp_loop c₂
compile (for_next s) c = do c₁ ← cfp_for c; c₂ ← compile s c₁; cfp_next c₂

-- How many nodes it becomes, and how many entries of the control stack are open at most.
abbrev pub size : Structured → ℕ
size empty = 0
size (word t) = 1
size (then s t) = size s + size t
size (if_then s) = size s + 2
size (if_else s t) = size s + size t + 4
size (begin_until s) = size s + 2
size (begin_while s t) = size s + size t + 4
size (do_loop s) = size s + 2
size (for_next s) = size s + 2

abbrev pub max : ℕ → ℕ → ℕ
max zero n = n
max (suc m) zero = suc m
max (suc m) (suc n) = suc (max m n)

pub max_left : (m n : ℕ) → m ≤ max m n
max_left zero n = omega arith
max_left (suc m) zero = omega arith
max_left (suc m) (suc n) = omega (arith, max_left m n)

pub max_right : (m n : ℕ) → n ≤ max m n
max_right zero n = omega arith
max_right (suc m) zero = omega arith
max_right (suc m) (suc n) = omega (arith, max_right m n)

abbrev pub depth : Structured → ℕ
depth empty = 0
depth (word t) = 0
depth (then s t) = max (depth s) (depth t)
depth (if_then s) = depth s + 1
depth (if_else s t) = max (depth s) (depth t) + 1
depth (begin_until s) = depth s + 1
depth (begin_while s t) = max (depth s) (depth t + 1) + 1
depth (do_loop s) = depth s + 1
depth (for_next s) = depth s + 1

abbrev pub Item : Type 0
Item = SstType × Operand

-- The nodes of structured code that starts at index `i`: each branch has its label.
abbrev pub layout : ℕ → Structured → List Item
layout i empty = []
layout i (word t) = (t, null) ∷ []
layout i (then s t) = layout i s ++ layout (i + size s) t
layout i (if_then s) =
    (sst_0_branch, sst (i + 1 + size s)) ∷ (layout (i + 1) s ++ (sst_label, null) ∷ [])
layout i (if_else s t) =
    (sst_0_branch, sst (i + size s + 2))
    ∷ (layout (i + 1) s
        ++ (sst_branch, sst (i + size s + size t + 3))
          ∷ (sst_label, null)
          ∷ (layout (i + size s + 3) t ++ (sst_label, null) ∷ []))
layout i (begin_until s) = (sst_label, null) ∷ (layout (i + 1) s ++ (sst_0_branch, sst i) ∷ [])
layout i (begin_while s t) =
    (sst_label, null)
    ∷ (layout (i + 1) s
        ++ (sst_0_branch, sst (i + size s + size t + 3))
          ∷ (layout (i + size s + 2) t ++ (sst_branch, sst i) ∷ (sst_label, null) ∷ []))
layout i (do_loop s) = (sst_do, null) ∷ (layout (i + 1) s ++ (sst_loop, sst i) ∷ [])
layout i (for_next s) = (sst_for, null) ∷ (layout (i + 1) s ++ (sst_next, sst i) ∷ [])
