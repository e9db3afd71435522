-- ===== src/Control/Nodes.antt =====
-- A stretch of the SST buffer, and what a change of the buffer leaves of it.
use qlforth.Prelude.{
  ℕ, suc, ◌+◌, ◌<◌, ◌≤◌, ◌≡◌, ap, ◌∙◌, sym, arith, List, [], ◌∷◌, ◌++◌, length, update, update_ne,
  update_self,
}
use mathlib.Core.Path.{subst}
use qlforth.Control.Structure.{Item}
use qlforth.Sst.{SstNode, SstType, Operand}

-- The items stand in the buffer from index `i` on.
abbrev pub Nodes : (ℕ → SstNode) → ℕ → List Item → Type 0
Nodes b i [] = Unit
Nodes b i ((t, o) ∷ ns) = ((b i).type ≡ t) × ((b i).operand ≡ o) × Nodes b (i + 1) ns

pub Nodes-agree :
    (b d : ℕ → SstNode) (i : ℕ) (ns : List Item)
    → ((j : ℕ) → i ≤ j → j < i + length ns → d j ≡ b j)
    → Nodes b i ns
    → Nodes d i ns
Nodes-agree b d i [] h n = tt
Nodes-agree b d i ((t, o) ∷ ns) h n =
    let e = h i (omega arith) (omega arith) in
    (
      ap (λ x. x.type) e ∙ n.0,
      ap (λ x. x.operand) e ∙ n.1,
      Nodes-agree b d (i + 1) ns (λ j p q. h j (omega arith) (omega arith)) n.2,
    )

pub Nodes-append :
    (b : ℕ → SstNode) (i : ℕ) (ns ms : List Item)
    → Nodes b i ns
    → Nodes b (i + length ns) ms
    → Nodes b i (ns ++ ms)
Nodes-append b i [] ms h k = let e : i + 0 ≡ i = omega arith in subst (λ x. Nodes b x ms) e k
Nodes-append b i ((t, o) ∷ ns) ms h k =
    let e : i + suc (length ns) ≡ i + 1 + length ns = omega arith in
    (h.0, h.1, Nodes-append b (i + 1) ns ms h.2 (subst (λ x. Nodes b x ms) e k))

abbrev pub set_operand : Operand → SstNode → SstNode
set_operand o n = record n { operand = o }

-- The operand of the node after `ns` is filled in.
pub Nodes-fill :
    (b : ℕ → SstNode) (i : ℕ) (ns : List Item) (t : SstType) (o p : Operand) (ms : List Item)
    → Nodes b i (ns ++ (t, o) ∷ ms)
    → Nodes (update b (i + length ns) (set_operand p (b (i + length ns)))) i (ns ++ (t, p) ∷ ms)
Nodes-fill b i [] t o p ms h =
    let e : i + 0 ≡ i = omega arith in
    subst (λ j. Nodes (update b j (set_operand p (b j))) i ((t, p) ∷ ms)) (sym e)
      (let u = update_self b i (set_operand p (b i)) in
        (
          ap (λ x. x.type) u ∙ h.0,
          ap (λ x. x.operand) u,
          Nodes-agree b (update b i (set_operand p (b i))) (i + 1) ms
              (λ j q r. update_ne b i j (set_operand p (b i)) (omega arith)) h.2,
        ))
Nodes-fill b i ((u, q) ∷ ns) t o p ms h =
    let e : i + suc (length ns) ≡ i + 1 + length ns = omega arith in
    subst (λ j. Nodes (update b j (set_operand p (b j))) i ((u, q) ∷ ns ++ (t, p) ∷ ms)) (sym e)
      (let v =
          update_ne b (i + 1 + length ns) i (set_operand p (b (i + 1 + length ns))) (omega arith) in
        (
          ap (λ x. x.type) v ∙ h.0,
          ap (λ x. x.operand) v ∙ h.1,
          Nodes-fill b (i + 1) ns t o p ms h.2,
        ))
