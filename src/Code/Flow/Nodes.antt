-- ===== src/Code/Flow/Nodes.antt =====
-- The nodes of structured code, as the two passes of src/code.c meet them.
use qlforth.Prelude.{ℕ, suc, ◌+◌, ◌≡◌, refl, ap, arith, true, List, [], ◌∷◌, ◌++◌, length, map}
use qlforth.Code.Assembler.{is_simple}
use qlforth.Code.Flow.{width, IsFlow}
use qlforth.Control.Steps.{length-layout}
use qlforth.Control.Structure.{
  Structured, empty, word, then, if_then, if_else, begin_until, begin_while, do_loop, for_next,
  layout, size, Item,
}
use qlforth.Sst.{SstType, null, sst, sst_label, sst_0_branch, sst_branch}

-- A word of one instruction, a label, a branch on zero to a node, and a branch to a node.
pub data FlowNode : Type 0 where
  op : SstType → FlowNode
  label : FlowNode
  unless_to go_to : ℕ → FlowNode

abbrev pub item_of : FlowNode → Item
item_of (op t) = (t, null)
item_of label = (sst_label, null)
item_of (unless_to j) = (sst_0_branch, sst j)
item_of (go_to j) = (sst_branch, sst j)

-- The nodes of the layout.
abbrev pub flow_nodes : ℕ → Structured → List FlowNode
flow_nodes i empty = []
flow_nodes i (word t) = op t ∷ []
flow_nodes i (then s u) = flow_nodes i s ++ flow_nodes (i + size s) u
flow_nodes i (if_then s) = unless_to (i + 1 + size s) ∷ (flow_nodes (i + 1) s ++ label ∷ [])
flow_nodes i (if_else s u) =
    unless_to (i + size s + 2)
    ∷ (flow_nodes (i + 1) s
        ++ go_to (i + size s + size u + 3) ∷ label ∷ (flow_nodes (i + size s + 3) u ++ label ∷ []))
flow_nodes i (begin_until s) = label ∷ (flow_nodes (i + 1) s ++ unless_to i ∷ [])
flow_nodes i (begin_while s u) =
    label
    ∷ (flow_nodes (i + 1) s
        ++ unless_to (i + size s + size u + 3)
          ∷ (flow_nodes (i + size s + 2) u ++ go_to i ∷ label ∷ []))
flow_nodes i (do_loop s) = []
flow_nodes i (for_next s) = []

map-append : (ns ms : List FlowNode) → map item_of (ns ++ ms) ≡ map item_of ns ++ map item_of ms
map-append [] ms = refl
map-append (n ∷ ns) ms = ap (λ (r : List Item). item_of n ∷ r) (map-append ns ms)

pub layout-flow_nodes :
    (i : ℕ) (s : Structured) → IsFlow s → layout i s ≡ map item_of (flow_nodes i s)
layout-flow_nodes i empty h = refl
layout-flow_nodes i (word t) h = refl
layout-flow_nodes i (then s u) h =
    rw
      (
        map-append (flow_nodes i s) (flow_nodes (i + size s) u),
        layout-flow_nodes i s h.0,
        layout-flow_nodes (i + size s) u h.1,
      )
      refl
layout-flow_nodes i (if_then s) h =
    rw (map-append (flow_nodes (i + 1) s) (label ∷ []), layout-flow_nodes (i + 1) s h) refl
layout-flow_nodes i (if_else s u) h =
    let inner = flow_nodes (i + size s + 3) u in
    rw
      (
        map-append (flow_nodes (i + 1) s)
            (go_to (i + size s + size u + 3) ∷ label ∷ (inner ++ label ∷ [])),
        map-append inner (label ∷ []),
        layout-flow_nodes (i + 1) s h.0,
        layout-flow_nodes (i + size s + 3) u h.1,
      )
      refl
layout-flow_nodes i (begin_until s) h =
    rw (map-append (flow_nodes (i + 1) s) (unless_to i ∷ []), layout-flow_nodes (i + 1) s h) refl
layout-flow_nodes i (begin_while s u) h =
    let inner = flow_nodes (i + size s + 2) u in
    rw
      (
        map-append (flow_nodes (i + 1) s)
            (unless_to (i + size s + size u + 3) ∷ (inner ++ go_to i ∷ label ∷ [])),
        map-append inner (go_to i ∷ label ∷ []),
        layout-flow_nodes (i + 1) s h.0,
        layout-flow_nodes (i + size s + 2) u h.1,
      )
      refl
layout-flow_nodes i (do_loop s) h = absurd h
layout-flow_nodes i (for_next s) h = absurd h

-- The words that a node takes.
abbrev pub node_width : FlowNode → ℕ
node_width (op t) = 1
node_width label = 0
node_width (unless_to j) = 1
node_width (go_to j) = 1

abbrev pub total : List FlowNode → ℕ
total [] = 0
total (n ∷ ns) = node_width n + total ns

pub total-append : (ns ms : List FlowNode) → total (ns ++ ms) ≡ total ns + total ms
total-append [] ms = omega arith
total-append (n ∷ ns) ms = omega (arith, total-append ns ms)

pub length-flow_nodes : (i : ℕ) (s : Structured) → IsFlow s → length (flow_nodes i s) ≡ size s
length-flow_nodes i s h =
    omega
      (arith, length-map (flow_nodes i s), ap length (layout-flow_nodes i s h), length-layout i s)
  where
    length-map : (ns : List FlowNode) → length (map item_of ns) ≡ length ns
    length-map [] = refl
    length-map (n ∷ ns) = ap suc (length-map ns)

pub total-flow_nodes : (i : ℕ) (s : Structured) → IsFlow s → total (flow_nodes i s) ≡ width s
total-flow_nodes i empty h = refl
total-flow_nodes i (word t) h = refl
total-flow_nodes i (then s u) h = omega (
  arith,
  total-append (flow_nodes i s) (flow_nodes (i + size s) u),
  total-flow_nodes i s h.0,
  total-flow_nodes (i + size s) u h.1,
)
total-flow_nodes i (if_then s) h =
    omega (arith, total-append (flow_nodes (i + 1) s) (label ∷ []), total-flow_nodes (i + 1) s h)
total-flow_nodes i (if_else s u) h =
    let body = flow_nodes (i + size s + 3) u in
    let rest = go_to (i + size s + size u + 3) ∷ label ∷ (body ++ label ∷ []) in
    omega (
      arith,
      total-append (flow_nodes (i + 1) s) rest,
      total-append body (label ∷ []),
      total-flow_nodes (i + 1) s h.0,
      total-flow_nodes (i + size s + 3) u h.1,
    )
total-flow_nodes i (begin_until s) h =
    omega
      (arith, total-append (flow_nodes (i + 1) s) (unless_to i ∷ []), total-flow_nodes (i + 1) s h)
total-flow_nodes i (begin_while s u) h =
    let body = flow_nodes (i + size s + 2) u in
    let rest = unless_to (i + size s + size u + 3) ∷ (body ++ go_to i ∷ label ∷ []) in
    omega (
      arith,
      total-append (flow_nodes (i + 1) s) rest,
      total-append body (go_to i ∷ label ∷ []),
      total-flow_nodes (i + 1) s h.0,
      total-flow_nodes (i + size s + 2) u h.1,
    )
total-flow_nodes i (do_loop s) h = absurd h
total-flow_nodes i (for_next s) h = absurd h

-- Every word of the nodes is one instruction.
abbrev pub Simple : List FlowNode → Type 0
Simple [] = Unit
Simple (op t ∷ ns) = (is_simple t ≡ true) × Simple ns
Simple (label ∷ ns) = Simple ns
Simple (unless_to j ∷ ns) = Simple ns
Simple (go_to j ∷ ns) = Simple ns

Simple-append : (ns ms : List FlowNode) → Simple ns → Simple ms → Simple (ns ++ ms)
Simple-append [] ms h k = k
Simple-append (op t ∷ ns) ms h k = (h.0, Simple-append ns ms h.1 k)
Simple-append (label ∷ ns) ms h k = Simple-append ns ms h k
Simple-append (unless_to j ∷ ns) ms h k = Simple-append ns ms h k
Simple-append (go_to j ∷ ns) ms h k = Simple-append ns ms h k

pub flow_nodes-Simple : (i : ℕ) (s : Structured) → IsFlow s → Simple (flow_nodes i s)
flow_nodes-Simple i empty h = tt
flow_nodes-Simple i (word t) h = (h, tt)
flow_nodes-Simple i (then s u) h =
    Simple-append (flow_nodes i s) (flow_nodes (i + size s) u) (flow_nodes-Simple i s h.0)
      (flow_nodes-Simple (i + size s) u h.1)
flow_nodes-Simple i (if_then s) h =
    Simple-append (flow_nodes (i + 1) s) (label ∷ []) (flow_nodes-Simple (i + 1) s h) tt
flow_nodes-Simple i (if_else s u) h =
    let body = flow_nodes (i + size s + 3) u in
    Simple-append (flow_nodes (i + 1) s)
      (go_to (i + size s + size u + 3) ∷ label ∷ (body ++ label ∷ []))
      (flow_nodes-Simple (i + 1) s h.0)
      (Simple-append body (label ∷ []) (flow_nodes-Simple (i + size s + 3) u h.1) tt)
flow_nodes-Simple i (begin_until s) h =
    Simple-append (flow_nodes (i + 1) s) (unless_to i ∷ []) (flow_nodes-Simple (i + 1) s h) tt
flow_nodes-Simple i (begin_while s u) h =
    let body = flow_nodes (i + size s + 2) u in
    Simple-append (flow_nodes (i + 1) s)
      (unless_to (i + size s + size u + 3) ∷ (body ++ go_to i ∷ label ∷ []))
      (flow_nodes-Simple (i + 1) s h.0)
      (Simple-append body (go_to i ∷ label ∷ []) (flow_nodes-Simple (i + size s + 2) u h.1) tt)
flow_nodes-Simple i (do_loop s) h = absurd h
flow_nodes-Simple i (for_next s) h = absurd h
