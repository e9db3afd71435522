-- ===== src/Code/Flow/Marks.antt =====
-- What the first pass of src/code.c leaves of the nodes and of the words of structured code.
use mathlib.Core.Path.{subst}
use qlforth.Prelude.{
  ℕ, ◌+◌, ◌*◌, ◌<◌, ◌≤◌, ◌≡◌, ◌≢◌, refl, ◌∙◌, arith, true, false, List, [], ◌∷◌, length, map,
  update, update_ne,
}
use qlforth.Code.Assembler.{is_simple}
use qlforth.Code.{Gen, set_operand, set_location}
use qlforth.Code.Flow.Nodes.{FlowNode, op, label, unless_to, go_to, item_of, Simple}
use qlforth.Control.Nodes.{Nodes, Nodes-agree}
use qlforth.Opcodes.{opcode}
use qlforth.Sst.{SstType, SstNode, sst_noop, val, is_ret, is_end}
use qlforth.Symbols.{Symbols}

-- The generator with the code of the next word `a` and the node `i`.
abbrev pub gen : ℕ → ℕ → (ℕ → SstNode) → (ℕ → ℕ) → Symbols → Gen
gen a i b f y = record { code_ptr = 2 * a; code_buffer = f; at = i; sst_buffer = b; symbols = y }

-- The words of the first pass, which leaves the words of branches open.
abbrev pub skeleton : (ℕ → ℕ) → ℕ → List FlowNode → ℕ → ℕ
skeleton f a [] = f
skeleton f a (op t ∷ ns) = skeleton (update f a (opcode t)) (a + 1) ns
skeleton f a (label ∷ ns) = skeleton f a ns
skeleton f a (unless_to j ∷ ns) = skeleton f (a + 1) ns
skeleton f a (go_to j ∷ ns) = skeleton f (a + 1) ns

-- The nodes behind the first pass: a label has its address, a branch its place in the code.
abbrev pub marked : (ℕ → SstNode) → ℕ → ℕ → List FlowNode → ℕ → SstNode
marked b i a [] = b
marked b i a (op t ∷ ns) = marked b (i + 1) (a + 1) ns
marked b i a (label ∷ ns) = marked (update b i (set_operand (val a) (b i))) (i + 1) a ns
marked b i a (unless_to j ∷ ns) =
    marked (update b i (set_location (2 * a) (b i))) (i + 1) (a + 1) ns
marked b i a (go_to j ∷ ns) = marked (update b i (set_location (2 * a) (b i))) (i + 1) (a + 1) ns

-- Every other node is as it was.
pub marked_other :
    (b : ℕ → SstNode) (i a : ℕ) (ns : List FlowNode) (j : ℕ)
    → ((k : ℕ) → i ≤ k → k < i + length ns → k ≢ j)
    → marked b i a ns j ≡ b j
marked_other b i a [] j h = refl
marked_other b i a (op t ∷ ns) j h =
    marked_other b (i + 1) (a + 1) ns j (λ k p q. h k (omega arith) (omega arith))
marked_other b i a (label ∷ ns) j h =
    marked_other (update b i (set_operand (val a) (b i))) (i + 1) a ns j
      (λ k p q. h k (omega arith) (omega arith))
    ∙ update_ne b i j (set_operand (val a) (b i)) (h i (omega arith) (omega arith))
marked_other b i a (unless_to l ∷ ns) j h =
    marked_other (update b i (set_location (2 * a) (b i))) (i + 1) (a + 1) ns j
      (λ k p q. h k (omega arith) (omega arith))
    ∙ update_ne b i j (set_location (2 * a) (b i)) (h i (omega arith) (omega arith))
marked_other b i a (go_to l ∷ ns) j h =
    marked_other (update b i (set_location (2 * a) (b i))) (i + 1) (a + 1) ns j
      (λ k p q. h k (omega arith) (omega arith))
    ∙ update_ne b i j (set_location (2 * a) (b i)) (h i (omega arith) (omega arith))

-- A change of the node before them.
pub Nodes-behind :
    (b : ℕ → SstNode) (i : ℕ) (n : SstNode) (ns : List FlowNode)
    → Nodes b (i + 1) (map item_of ns)
    → Nodes (update b i n) (i + 1) (map item_of ns)
Nodes-behind b i n ns h =
    Nodes-agree b (update b i n) (i + 1) (map item_of ns) (λ j p q. update_ne b i j n (omega arith))
      h

pub simple-not_ret : (t : SstType) → is_simple t ≡ true → is_ret t ≡ false
unfolding is_ret
simple-not_ret sst_noop s = cc
simple-not_ret t s = ground arith

pub simple-not_end : (t : SstType) → is_simple t ≡ true → is_end t ≡ false
unfolding is_end
simple-not_end sst_noop s = cc
simple-not_end t s = ground arith

-- No node before one that is no return is a return.
pub head-not_ret :
    (b : ℕ → SstNode) (i : ℕ) (ns : List FlowNode)
    → Simple ns
    → Nodes b i (map item_of ns)
    → is_ret (b (i + length ns)).type ≡ false
    → is_ret (b i).type ≡ false
unfolding is_ret
head-not_ret b i [] s h r =
    let e : i + 0 ≡ i = omega arith in subst (λ j. is_ret (b j).type ≡ false) e r
head-not_ret b i (op t ∷ ns) s h r = rw h.0 (simple-not_ret t s.0)
head-not_ret b i (label ∷ ns) s h r = rw h.0 refl
head-not_ret b i (unless_to j ∷ ns) s h r = rw h.0 refl
head-not_ret b i (go_to j ∷ ns) s h r = rw h.0 refl

-- Where the same address and index are written in two ways.
pub gen-at :
    (a a' i i' : ℕ) (b : ℕ → SstNode) (f : ℕ → ℕ) (y : Symbols)
    → a ≡ a'
    → i ≡ i'
    → gen a i b f y ≡ gen a' i' b f y
gen-at a a' i i' b f y p q k = gen (p k) (q k) b f y
