-- ===== src/Code/Flow/Passes.antt =====
-- The two passes of src/code.c over the nodes of structured code, in closed form.
use mathlib.Core.Path.{subst}
use qlforth.Prelude.{
  ℕ, suc, ◌+◌, ◌*◌, ◌/◌, ◌<◌, ◌≤◌, ◌≡◌, refl, sym, ◌∙◌, ap, arith, true, false, ok, List, [], ◌∷◌,
  ◌⊎◌, Result, length, map, update, update_ne, inl, inr,
}
use qlforth.Code.Assembler.{is_simple, generate-op}
use qlforth.Code.Straight.{pass-suc}
use qlforth.Code.{Gen, node, generate_node, pass, advance, set_operand, set_location, sst_node_max}
use qlforth.Code.Flow.Nodes.{FlowNode, op, label, unless_to, go_to, item_of, total, Simple}
use qlforth.Control.Nodes.{Nodes}
use qlforth.Opcodes.{opcode}
use qlforth.Sst.{SstType, SstNode, val, sst_label, sst_0_branch, sst_branch, is_ret, is_end}
use qlforth.Symbols.{Symbols}
use qlforth.Code.Flow.Marks.{
  gen, skeleton, marked, Nodes-behind, simple-not_end, head-not_ret, gen-at,
}

generate-FlowNode_op :
    (t : SstType) (a i : ℕ) (b : ℕ → SstNode) (f : ℕ → ℕ) (y : Symbols)
    → is_simple t ≡ true
    → is_ret (b (i + 1)).type ≡ false
    → a < 0x2000
    → generate_node t (gen a i b f y) ≡ ok (gen (a + 1) i b (update f a (opcode t)) y)
generate-FlowNode_op t a i b f y s r l =
    let word : 2 * a / 2 ≡ a = omega arith in
    let ptr : 2 * a + 2 ≡ 2 * (a + 1) = omega arith in
    generate-op t (gen a i b f y) s (omega arith, omega arith) r ∙ λ k. ok (record {
      code_ptr = ptr k;
      code_buffer = update f (word k) (opcode t);
      at = i;
      sst_buffer = b;
      symbols = y;
    })

generate-FlowNode_label :
    (a i : ℕ) (b : ℕ → SstNode) (f : ℕ → ℕ) (y : Symbols)
    → generate_node sst_label (gen a i b f y)
      ≡ ok (gen a i (update b i (set_operand (val a) (b i))) f y)
unfolding generate_node
generate-FlowNode_label a i b f y =
    let word : 2 * a / 2 ≡ a = omega arith in
    λ k. ok (gen a i (update b i (set_operand (val (word k)) (b i))) f y)

generate-FlowNode_branch :
    (t : SstType) (a i : ℕ) (b : ℕ → SstNode) (f : ℕ → ℕ) (y : Symbols)
    → (t ≡ sst_branch) ⊎ (t ≡ sst_0_branch)
    → generate_node t (gen a i b f y)
      ≡ ok (gen (a + 1) i (update b i (set_location (2 * a) (b i))) f y)
unfolding generate_node
generate-FlowNode_branch t a i b f y (inl e) =
    let ptr : 2 * a + 2 ≡ 2 * (a + 1) = omega arith in
    rw e (λ k. ok (record {
      code_ptr = ptr k;
      code_buffer = f;
      at = i;
      sst_buffer = update b i (set_location (2 * a) (b i));
      symbols = y;
    }))
generate-FlowNode_branch t a i b f y (inr e) =
    let ptr : 2 * a + 2 ≡ 2 * (a + 1) = omega arith in
    rw e (λ k. ok (record {
      code_ptr = ptr k;
      code_buffer = f;
      at = i;
      sst_buffer = update b i (set_location (2 * a) (b i));
      symbols = y;
    }))

-- One round over the nodes.
pub pass-next :
    (p : SstType → Gen → Result Gen) (m n : ℕ) (g g₁ : Gen)
    → g.at ≤ sst_node_max
    → is_end (node g).type ≡ false
    → p (node g).type g ≡ ok g₁
    → pass p (suc m + n) g ≡ pass p (m + n) (advance g₁)
pass-next p m n g g₁ l e h =
    let more : suc m + n ≡ suc (m + n) = omega arith in
    ap (λ k. pass p k g) more ∙ pass-suc p (m + n) g g₁ l e h

-- The node behind them, as it stands after the first.
behind :
    (b : ℕ → SstNode) (i l : ℕ) (n : SstNode)
    → is_ret (b (i + suc l)).type ≡ false
    → is_ret (update b i n (i + 1 + l)).type ≡ false
behind b i l n r =
    let next : i + suc l ≡ i + 1 + l = omega arith in
    subst (λ x. is_ret x.type ≡ false) (ap b next ∙ sym (update_ne b i (i + 1 + l) n (omega arith)))
      r

-- The first pass over the nodes.
pub pass-generate :
    (ns : List FlowNode) (n a i : ℕ) (b : ℕ → SstNode) (f : ℕ → ℕ) (y : Symbols)
    → Simple ns
    → Nodes b i (map item_of ns)
    → is_ret (b (i + length ns)).type ≡ false
    → i + length ns ≤ suc sst_node_max
    → a + total ns ≤ 0x2000
    → pass generate_node (length ns + n) (gen a i b f y)
      ≡ pass generate_node n
          (gen (a + total ns) (i + length ns) (marked b i a ns) (skeleton f a ns) y)
unfolding is_end
pass-generate [] n a i b f y s h r l c =
    let none_left : 0 + n ≡ n = omega arith in
    ap (λ k. pass generate_node k (gen a i b f y)) none_left
    ∙ ap (pass generate_node n) (gen-at a (a + 0) i (i + 0) b f y (omega arith) (omega arith))
pass-generate (op t ∷ ns) n a i b f y s h r l c =
    let next : i + suc (length ns) ≡ i + 1 + length ns = omega arith in
    let r' : is_ret (b (i + 1 + length ns)).type ≡ false =
      subst (λ k. is_ret (b k).type ≡ false) next r in
    let f' = update f a (opcode t) in
    pass-next generate_node (length ns) n (gen a i b f y) (gen (a + 1) i b f' y) (omega arith)
      (rw h.0 (simple-not_end t s.0))
      (rw h.0
        (generate-FlowNode_op t a i b f y s.0 (head-not_ret b (i + 1) ns s.1 h.2 r') (omega arith)))
    ∙ pass-generate ns n (a + 1) (i + 1) b f' y s.1 h.2 r' (omega arith) (omega arith)
    ∙ ap (pass generate_node n) (
        gen-at (a + 1 + total ns) (a + (1 + total ns)) (i + 1 + length ns) (i + suc (length ns))
          (marked b (i + 1) (a + 1) ns) (skeleton f' (a + 1) ns) y (omega arith) (omega arith))
pass-generate (label ∷ ns) n a i b f y s h r l c =
    let b' = update b i (set_operand (val a) (b i)) in
    pass-next generate_node (length ns) n (gen a i b f y) (gen a i b' f y) (omega arith)
      (rw h.0 refl)
      (ap (λ t. generate_node t (gen a i b f y)) h.0 ∙ generate-FlowNode_label a i b f y)
    ∙ pass-generate ns n a (i + 1) b' f y s (Nodes-behind b i (set_operand (val a) (b i)) ns h.2)
        (behind b i (length ns) (set_operand (val a) (b i)) r) (omega arith) (omega arith)
    ∙ ap (pass generate_node n) (
        gen-at (a + total ns) (a + (0 + total ns)) (i + 1 + length ns) (i + suc (length ns))
          (marked b' (i + 1) a ns) (skeleton f a ns) y (omega arith) (omega arith))
pass-generate (unless_to j ∷ ns) n a i b f y s h r l c =
    let b' = update b i (set_location (2 * a) (b i)) in
    pass-next generate_node (length ns) n (gen a i b f y) (gen (a + 1) i b' f y) (omega arith)
      (rw h.0 refl)
      (ap (λ t. generate_node t (gen a i b f y)) h.0
        ∙ generate-FlowNode_branch sst_0_branch a i b f y (inr refl))
    ∙ pass-generate ns n (a + 1) (i + 1) b' f y s
        (Nodes-behind b i (set_location (2 * a) (b i)) ns h.2)
        (behind b i (length ns) (set_location (2 * a) (b i)) r) (omega arith) (omega arith)
    ∙ ap (pass generate_node n) (
        gen-at (a + 1 + total ns) (a + (1 + total ns)) (i + 1 + length ns) (i + suc (length ns))
          (marked b' (i + 1) (a + 1) ns) (skeleton f (a + 1) ns) y (omega arith) (omega arith))
pass-generate (go_to j ∷ ns) n a i b f y s h r l c =
    let b' = update b i (set_location (2 * a) (b i)) in
    pass-next generate_node (length ns) n (gen a i b f y) (gen (a + 1) i b' f y) (omega arith)
      (rw h.0 refl)
      (ap (λ t. generate_node t (gen a i b f y)) h.0
        ∙ generate-FlowNode_branch sst_branch a i b f y (inl refl))
    ∙ pass-generate ns n (a + 1) (i + 1) b' f y s
        (Nodes-behind b i (set_location (2 * a) (b i)) ns h.2)
        (behind b i (length ns) (set_location (2 * a) (b i)) r) (omega arith) (omega arith)
    ∙ ap (pass generate_node n) (
        gen-at (a + 1 + total ns) (a + (1 + total ns)) (i + 1 + length ns) (i + suc (length ns))
          (marked b' (i + 1) (a + 1) ns) (skeleton f (a + 1) ns) y (omega arith) (omega arith))
