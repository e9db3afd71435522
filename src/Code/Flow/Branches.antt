-- ===== src/Code/Flow/Branches.antt =====
-- Every branch of structured code is linked to the address that its code has.
use qlforth.Prelude.{ℕ, ◌+◌, ◌<◌, ◌≡◌, refl, arith, List, [], ◌∷◌, ◌++◌, length}
use qlforth.Code.Flow.Nodes.{
  FlowNode, label, unless_to, go_to, total, flow_nodes, length-flow_nodes, total-flow_nodes,
}
use qlforth.Code.Flow.Resolve.{Linked, Goes}
use qlforth.Code.Flow.{width, flow_code, IsFlow}
use qlforth.Control.Structure.{
  Structured, empty, word, then, if_then, if_else, begin_until, begin_while, do_loop, for_next,
  size,
}
use qlforth.Sst.{SstNode, val}
use qlforth.Code.Flow.Linked.{
  Marked, Marked-at, Marked-append, Linked-at, Linked-append, Linked-label,
}

-- Two stretches of `k` and `k'` nodes and of `d` and `d'` words, as the parts of a branch.
module _ (b : ℕ → SstNode) (i a k d k' d' : ℕ) (ns ms : List FlowNode) (ws vs : List ℕ)
    (n : length ns ≡ k) (t : total ns ≡ d) (n' : length ms ≡ k') (t' : total ms ≡ d') where
  if_else-Linked :
      a + (d + d' + 2) < 0x2000
      → (Marked b (i + 1) (a + 1) ns → Linked b (i + 1) (a + 1) ns ws)
      → (Marked b (i + k + 3) (a + d + 2) ms → Linked b (i + k + 3) (a + d + 2) ms vs)
      → Marked b (i + 1) (a + 1) (ns ++ go_to (i + k + k' + 3) ∷ label ∷ (ms ++ label ∷ []))
      → Goes b 0x2000 (i + k + 2) (0x2000 + (a + d + 2))
        × Linked b
            (i + 1)
            (a + 1)
            (ns ++ go_to (i + k + k' + 3) ∷ label ∷ (ms ++ label ∷ []))
            (ws ++ (a + d + d' + 2) ∷ vs)
  if_else-Linked l first second m =
      let last = i + k + k' + 3 in
      let (x, y) =
        Marked-append b (i + k + 1) (a + d + 1) (i + 1) (a + 1) ns
          (go_to last ∷ label ∷ (ms ++ label ∷ [])) (omega (arith, n)) (omega (arith, t)) m in
      let z =
        Marked-at b (i + k + 1 + 1) (i + k + 2) (a + d + 1 + 1) (a + d + 2)
          (label ∷ (ms ++ label ∷ [])) (omega arith) (omega arith) y.3 in
      let (x', y') =
        Marked-append b last (a + d + d' + 2) (i + k + 3) (a + d + 2) ms (label ∷ [])
          (omega (arith, n')) (omega (arith, t'))
          (Marked-at b (i + k + 2 + 1) (i + k + 3) (a + d + 2) (a + d + 2) (ms ++ label ∷ [])
            (omega arith) refl z.2) in
      let ended =
        Linked-label b last (i + k + 3) (a + d + 2) ms vs (omega (arith, n')) y'.0 (second x') in
      let landed =
        Linked-at b (i + k + 2 + 1) (i + k + 3) (a + d + 2) (a + d + 2) (ms ++ label ∷ []) vs
          (omega arith) refl ended in
      (
        (a + d + 2, z.1, omega arith, refl),
        Linked-append b (i + k + 1) (a + d + 1) (go_to last ∷ label ∷ (ms ++ label ∷ []))
            ((a + d + d' + 2) ∷ vs) (i + 1) (a + 1) ns ws (omega (arith, n)) (omega (arith, t))
            (first x)
            (
              y.0,
              y.1,
              y.2,
              (a + d + d' + 2, y'.1, omega arith, omega arith),
              Linked-at b (i + k + 1 + 1) (i + k + 2) (a + d + 1 + 1) (a + d + 2)
                  (label ∷ (ms ++ label ∷ [])) vs (omega arith) (omega arith) (z.0, landed),
            ),
      )

  while-Linked :
      a + (d + d' + 2) < 0x2000
      → (Marked b (i + 1) a ns → Linked b (i + 1) a ns ws)
      → (Marked b (i + k + 2) (a + d + 1) ms → Linked b (i + k + 2) (a + d + 1) ms vs)
      → (b i).operand ≡ val a
      → Marked b (i + 1) a (ns ++ unless_to (i + k + k' + 3) ∷ (ms ++ go_to i ∷ label ∷ []))
      → Linked b
          (i + 1)
          a
          (ns ++ unless_to (i + k + k' + 3) ∷ (ms ++ go_to i ∷ label ∷ []))
          (ws ++ (0x2000 + (a + d + d' + 2)) ∷ (vs ++ a ∷ []))
  while-Linked l first second o m =
      let last = i + k + k' + 3 in
      let (x, y) =
        Marked-append b (i + k + 1) (a + d) (i + 1) a ns
          (unless_to last ∷ (ms ++ go_to i ∷ label ∷ [])) (omega (arith, n)) (omega (arith, t)) m in
      let (x', y') =
        Marked-append b (i + k + k' + 2) (a + d + d' + 1) (i + k + 2) (a + d + 1) ms
          (go_to i ∷ label ∷ []) (omega (arith, n')) (omega (arith, t'))
          (Marked-at b (i + k + 1 + 1) (i + k + 2) (a + d + 1) (a + d + 1)
            (ms ++ go_to i ∷ label ∷ []) (omega arith) refl y.3) in
      let z =
        Marked-at b (i + k + k' + 2 + 1) last (a + d + d' + 1 + 1) (a + d + d' + 2) (label ∷ [])
          (omega arith) (omega arith) y'.3 in
      let ended =
        Linked-at b (i + k + k' + 2 + 1) last (a + d + d' + 1 + 1) (a + d + d' + 2) (label ∷ []) []
          (omega arith) (omega arith) (z.0, tt) in
      let body =
        Linked-append b (i + k + k' + 2) (a + d + d' + 1) (go_to i ∷ label ∷ []) (a ∷ [])
          (i + k + 2) (a + d + 1) ms vs (omega (arith, n')) (omega (arith, t')) (second x')
          (y'.0, y'.1, y'.2, (a, o, omega arith, omega arith), ended) in
      Linked-append b (i + k + 1) (a + d) (unless_to last ∷ (ms ++ go_to i ∷ label ∷ []))
        ((0x2000 + (a + d + d' + 2)) ∷ (vs ++ a ∷ [])) (i + 1) a ns ws (omega (arith, n))
        (omega (arith, t)) (first x)
        (
          y.0,
          y.1,
          y.2,
          (a + d + d' + 2, z.1, omega arith, refl),
          Linked-at b (i + k + 1 + 1) (i + k + 2) (a + d + 1) (a + d + 1)
              (ms ++ go_to i ∷ label ∷ []) (vs ++ a ∷ []) (omega arith) refl body,
        )

-- The marks of structured code link every branch to the address that its code has.
pub flow_nodes-Linked :
    (b : ℕ → SstNode) (i a : ℕ) (s : Structured)
    → IsFlow s
    → a + width s < 0x2000
    → Marked b i a (flow_nodes i s)
    → Linked b i a (flow_nodes i s) (flow_code a s)
flow_nodes-Linked b i a empty h l m = tt
flow_nodes-Linked b i a (word t) h l m = (m.0, h, refl, tt)
flow_nodes-Linked b i a (then s u) h l m =
    let n = length-flow_nodes i s h.0 in
    let d = total-flow_nodes i s h.0 in
    let (x, y) =
      Marked-append b (i + size s) (a + width s) i a (flow_nodes i s) (flow_nodes (i + size s) u)
        (omega (arith, n)) (omega (arith, d)) m in
    Linked-append b (i + size s) (a + width s) (flow_nodes (i + size s) u)
      (flow_code (a + width s) u) i a (flow_nodes i s) (flow_code a s) (omega (arith, n))
      (omega (arith, d)) (flow_nodes-Linked b i a s h.0 (omega arith) x)
      (flow_nodes-Linked b (i + size s) (a + width s) u h.1 (omega arith) y)
flow_nodes-Linked b i a (if_then s) h l m =
    let n = length-flow_nodes (i + 1) s h in
    let d = total-flow_nodes (i + 1) s h in
    let j = i + 1 + size s in
    let (x, y) =
      Marked-append b j (a + width s + 1) (i + 1) (a + 1) (flow_nodes (i + 1) s) (label ∷ [])
        (omega (arith, n)) (omega (arith, d)) m.3 in
    (
      m.0,
      m.1,
      m.2,
      (a + width s + 1, y.1, omega arith, refl),
      Linked-label b j (i + 1) (a + 1) (flow_nodes (i + 1) s) (flow_code (a + 1) s)
          (omega (arith, n)) y.0 (flow_nodes-Linked b (i + 1) (a + 1) s h (omega arith) x),
    )
flow_nodes-Linked b i a (if_else s u) h l m =
    let (goes, rest) =
      if_else-Linked b i a (size s) (width s) (size u) (width u) (flow_nodes (i + 1) s)
        (flow_nodes (i + size s + 3) u) (flow_code (a + 1) s) (flow_code (a + width s + 2) u)
        (length-flow_nodes (i + 1) s h.0) (total-flow_nodes (i + 1) s h.0)
        (length-flow_nodes (i + size s + 3) u h.1) (total-flow_nodes (i + size s + 3) u h.1) l
        (flow_nodes-Linked b (i + 1) (a + 1) s h.0 (omega arith))
        (flow_nodes-Linked b (i + size s + 3) (a + width s + 2) u h.1 (omega arith)) m.3 in
    (m.0, m.1, m.2, goes, rest)
flow_nodes-Linked b i a (begin_until s) h l m =
    let n = length-flow_nodes (i + 1) s h in
    let d = total-flow_nodes (i + 1) s h in
    let (x, y) =
      Marked-append b (i + 1 + size s) (a + width s) (i + 1) a (flow_nodes (i + 1) s)
        (unless_to i ∷ []) (omega (arith, n)) (omega (arith, d)) m.2 in
    (
      m.0,
      Linked-append b (i + 1 + size s) (a + width s) (unless_to i ∷ []) ((0x2000 + a) ∷ []) (i + 1)
          a (flow_nodes (i + 1) s) (flow_code a s) (omega (arith, n)) (omega (arith, d))
          (flow_nodes-Linked b (i + 1) a s h (omega arith) x)
          (y.0, y.1, y.2, (a, m.1, omega arith, refl), tt),
    )
flow_nodes-Linked b i a (begin_while s u) h l m = (
  m.0,
  while-Linked b i a (size s) (width s) (size u) (width u) (flow_nodes (i + 1) s)
      (flow_nodes (i + size s + 2) u) (flow_code a s) (flow_code (a + width s + 1) u)
      (length-flow_nodes (i + 1) s h.0) (total-flow_nodes (i + 1) s h.0)
      (length-flow_nodes (i + size s + 2) u h.1) (total-flow_nodes (i + size s + 2) u h.1) l
      (flow_nodes-Linked b (i + 1) a s h.0 (omega arith))
      (flow_nodes-Linked b (i + size s + 2) (a + width s + 1) u h.1 (omega arith)) m.1 m.2,
)
flow_nodes-Linked b i a (do_loop s) h l m = absurd h
flow_nodes-Linked b i a (for_next s) h l m = absurd h
