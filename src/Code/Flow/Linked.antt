-- ===== src/Code/Flow/Linked.antt =====
-- What the first pass of src/code.c leaves of the nodes of structured code is what the second pass links.
use mathlib.Core.Path.{subst}
use qlforth.Prelude.{
  ℕ, ◌+◌, ◌*◌, ◌≡◌, refl, sym, ◌∙◌, ap, arith, List, [], ◌∷◌, ◌++◌, length, map, update,
  update_self,
}
use qlforth.Code.{set_operand, set_location}
use qlforth.Code.Flow.Nodes.{FlowNode, op, label, unless_to, go_to, item_of, total}
use qlforth.Code.Flow.Marks.{marked, marked_other, Nodes-behind}
use qlforth.Code.Flow.Resolve.{Linked}
use qlforth.Control.Nodes.{Nodes}
use qlforth.Sst.{SstNode, val, sst, sst_label, sst_0_branch, sst_branch}

-- The nodes with what the first pass has put into labels and branches.
abbrev pub Marked : (ℕ → SstNode) → ℕ → ℕ → List FlowNode → Type 0
Marked b i a [] = Unit
Marked b i a (op t ∷ ns) = ((b i).type ≡ t) × Marked b (i + 1) (a + 1) ns
Marked b i a (label ∷ ns) =
    ((b i).type ≡ sst_label) × ((b i).operand ≡ val a) × Marked b (i + 1) a ns
Marked b i a (unless_to j ∷ ns) =
    ((b i).type ≡ sst_0_branch)
    × ((b i).operand ≡ sst j)
    × ((b i).location ≡ 2 * a)
    × Marked b (i + 1) (a + 1) ns
Marked b i a (go_to j ∷ ns) =
    ((b i).type ≡ sst_branch)
    × ((b i).operand ≡ sst j)
    × ((b i).location ≡ 2 * a)
    × Marked b (i + 1) (a + 1) ns

-- A node of a stretch, as the rest of the pass leaves it.
kept :
    (b : ℕ → SstNode) (i a : ℕ) (n : SstNode) (ns : List FlowNode)
    → marked (update b i n) (i + 1) a ns i ≡ n
kept b i a n ns =
    marked_other (update b i n) (i + 1) a ns i (λ k p q. omega arith) ∙ update_self b i n

pub marked-Marked :
    (b : ℕ → SstNode) (i a : ℕ) (ns : List FlowNode)
    → Nodes b i (map item_of ns)
    → Marked (marked b i a ns) i a ns
marked-Marked b i a [] h = tt
marked-Marked b i a (op t ∷ ns) h = (
  ap (λ x. x.type) (marked_other b (i + 1) (a + 1) ns i (λ k p q. omega arith)) ∙ h.0,
  marked-Marked b (i + 1) (a + 1) ns h.2,
)
marked-Marked b i a (label ∷ ns) h =
    let n = set_operand (val a) (b i) in
    let e = kept b i a n ns in
    (
      ap (λ x. x.type) e ∙ h.0,
      ap (λ x. x.operand) e,
      marked-Marked (update b i n) (i + 1) a ns (Nodes-behind b i n ns h.2),
    )
marked-Marked b i a (unless_to j ∷ ns) h =
    let n = set_location (2 * a) (b i) in
    let e = kept b i (a + 1) n ns in
    (
      ap (λ x. x.type) e ∙ h.0,
      ap (λ x. x.operand) e ∙ h.1,
      ap (λ x. x.location) e,
      marked-Marked (update b i n) (i + 1) (a + 1) ns (Nodes-behind b i n ns h.2),
    )
marked-Marked b i a (go_to j ∷ ns) h =
    let n = set_location (2 * a) (b i) in
    let e = kept b i (a + 1) n ns in
    (
      ap (λ x. x.type) e ∙ h.0,
      ap (λ x. x.operand) e ∙ h.1,
      ap (λ x. x.location) e,
      marked-Marked (update b i n) (i + 1) (a + 1) ns (Nodes-behind b i n ns h.2),
    )

-- The same marks, where the index and the address are written in another way.
pub Marked-at :
    (b : ℕ → SstNode) (i j a c : ℕ) (ms : List FlowNode)
    → i ≡ j
    → a ≡ c
    → Marked b i a ms
    → Marked b j c ms
Marked-at b i j a c ms p q h = subst (λ k. Marked b k c ms) p (subst (λ k. Marked b i k ms) q h)

-- The stretches of two lists, the second one at `j` and `c`.
pub Marked-append :
    (b : ℕ → SstNode) (j c : ℕ) (i a : ℕ) (ns ms : List FlowNode)
    → i + length ns ≡ j
    → a + total ns ≡ c
    → Marked b i a (ns ++ ms)
    → Marked b i a ns × Marked b j c ms
Marked-append b j c i a [] ms p q h = (tt, Marked-at b i j a c ms (omega arith) (omega arith) h)
Marked-append b j c i a (op t ∷ ns) ms p q h =
    let (x, y) = Marked-append b j c (i + 1) (a + 1) ns ms (omega arith) (omega arith) h.1 in
    ((h.0, x), y)
Marked-append b j c i a (label ∷ ns) ms p q h =
    let (x, y) = Marked-append b j c (i + 1) a ns ms (omega arith) (omega arith) h.2 in
    ((h.0, h.1, x), y)
Marked-append b j c i a (unless_to k ∷ ns) ms p q h =
    let (x, y) = Marked-append b j c (i + 1) (a + 1) ns ms (omega arith) (omega arith) h.3 in
    ((h.0, h.1, h.2, x), y)
Marked-append b j c i a (go_to k ∷ ns) ms p q h =
    let (x, y) = Marked-append b j c (i + 1) (a + 1) ns ms (omega arith) (omega arith) h.3 in
    ((h.0, h.1, h.2, x), y)

pub Linked-at :
    (b : ℕ → SstNode) (i j a c : ℕ) (ms : List FlowNode) (ws : List ℕ)
    → i ≡ j
    → a ≡ c
    → Linked b j c ms ws
    → Linked b i a ms ws
Linked-at b i j a c ms ws p q h =
    subst (λ k. Linked b k a ms ws) (sym p) (subst (λ k. Linked b j k ms ws) (sym q) h)

pub Linked-append :
    (b : ℕ → SstNode) (j c : ℕ) (ms : List FlowNode) (vs : List ℕ) (i a : ℕ) (ns : List FlowNode)
    (ws : List ℕ)
    → i + length ns ≡ j
    → a + total ns ≡ c
    → Linked b i a ns ws
    → Linked b j c ms vs
    → Linked b i a (ns ++ ms) (ws ++ vs)
Linked-append b j c ms vs i a [] [] p q h k =
    Linked-at b i j a c ms vs (omega arith) (omega arith) k
Linked-append b j c ms vs i a [] (w ∷ ws) p q h k = absurd h
Linked-append b j c ms vs i a (op t ∷ ns) [] p q h k = absurd h
Linked-append b j c ms vs i a (op t ∷ ns) (w ∷ ws) p q h k = (
  h.0,
  h.1,
  h.2,
  Linked-append b j c ms vs (i + 1) (a + 1) ns ws (omega arith) (omega arith) h.3 k,
)
Linked-append b j c ms vs i a (label ∷ ns) ws p q h k =
    (h.0, Linked-append b j c ms vs (i + 1) a ns ws (omega arith) (omega arith) h.1 k)
Linked-append b j c ms vs i a (unless_to l ∷ ns) [] p q h k = absurd h
Linked-append b j c ms vs i a (unless_to l ∷ ns) (w ∷ ws) p q h k = (
  h.0,
  h.1,
  h.2,
  h.3,
  Linked-append b j c ms vs (i + 1) (a + 1) ns ws (omega arith) (omega arith) h.4 k,
)
Linked-append b j c ms vs i a (go_to l ∷ ns) [] p q h k = absurd h
Linked-append b j c ms vs i a (go_to l ∷ ns) (w ∷ ws) p q h k = (
  h.0,
  h.1,
  h.2,
  h.3,
  Linked-append b j c ms vs (i + 1) (a + 1) ns ws (omega arith) (omega arith) h.4 k,
)

append_nil : (ws : List ℕ) → ws ++ [] ≡ ws
append_nil [] = refl
append_nil (w ∷ ws) = ap (λ (r : List ℕ). w ∷ r) (append_nil ws)

-- With a label behind them.
pub Linked-label :
    (b : ℕ → SstNode) (j i a : ℕ) (ns : List FlowNode) (ws : List ℕ)
    → i + length ns ≡ j
    → (b j).type ≡ sst_label
    → Linked b i a ns ws
    → Linked b i a (ns ++ label ∷ []) ws
Linked-label b j i a ns ws p e h =
    subst (Linked b i a (ns ++ label ∷ [])) (append_nil ws)
      (Linked-append b j (a + total ns) (label ∷ []) [] i a ns ws p refl h (e, tt))
