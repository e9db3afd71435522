-- ===== src/Control/Grown.antt =====
-- What the control words have in common in the compile state: the SST grows behind its end, and the
-- entries of the control stack that were there stay.
use qlforth.Prelude.{
  ℕ, ◌+◌, ◌<◌, ◌≤◌, ◌≡◌, ap, ◌∙◌, arith, refl, List, [], ◌∷◌, ◌++◌, length, length-append, update,
  update_ne, update_self, ok,
}
use mathlib.Core.Path.{subst}
use qlforth.Compile.{Csid, Link, Control, Compiler, sst_append, fill_node}
use qlforth.Control.{open_entry}
use qlforth.Control.Nodes.{Nodes, Nodes-agree, Nodes-append, Nodes-fill, set_operand}
use qlforth.Control.Structure.{Item}
use qlforth.Sst.{SstType, Operand, SstNode}

-- From `c` to `d`, where the entries below `k` are kept, the items are appended.
pub record Grown (k : ℕ) (c : Compiler) (ns : List Item) (d : Compiler) : Type 0 where
  pub state : d.state ≡ c.state
  pub current : d.sst_current ≡ c.sst_current + length ns
  pub older : (i : ℕ) → i < c.sst_current → d.sst_buffer i ≡ c.sst_buffer i
  pub nodes : Nodes d.sst_buffer c.sst_current ns
  pub entries : (i : ℕ) → i < k → d.cs_stack i ≡ c.cs_stack i

pub Grown-none : (k : ℕ) (c : Compiler) → Grown k c [] c
Grown-none k c = record {
  state = refl;
  current = omega arith;
  older = λ i h. refl;
  nodes = tt;
  entries = λ i h. refl;
}

pub Grown-trans :
    (k l : ℕ) (c d e : Compiler) (ns ms : List Item)
    → k ≤ l
    → Grown k c ns d
    → Grown l d ms e
    → Grown k c (ns ++ ms) e
Grown-trans k l c d e ns ms h g f =
    let n = length-append ns ms in
    record {
      state = f.state ∙ g.state;
      current = omega (arith, g.current, f.current);
      older = λ i p. f.older i (omega (arith, g.current)) ∙ g.older i p;
      nodes =
          Nodes-append e.sst_buffer c.sst_current ns ms
            (Nodes-agree d.sst_buffer e.sst_buffer c.sst_current ns
              (λ j p q. f.older j (omega (arith, g.current))) g.nodes)
            (subst (λ x. Nodes e.sst_buffer x ms) g.current f.nodes);
      entries = λ i p. f.entries i (omega arith) ∙ g.entries i p;
    }

-- `sst_append` where the buffer has room.
abbrev pub appended : SstType → Operand → Compiler → Compiler
appended t o c = record c {
  sst_buffer =
      update c.sst_buffer c.sst_current
        (record (c.sst_buffer c.sst_current) { type = t; operand = o });
  sst_current = c.sst_current + 1;
}

pub sst_append-ok :
    (t : SstType) (o : Operand) (c : Compiler)
    → c.sst_current ≤ 65535
    → sst_append t o c ≡ ok (appended t o c)
unfolding sst_append
sst_append-ok t o c h = ground arith

pub appended-Grown :
    (k : ℕ) (t : SstType) (o : Operand) (c : Compiler) → Grown k c ((t, o) ∷ []) (appended t o c)
appended-Grown k t o c =
    let n : SstNode = record (c.sst_buffer c.sst_current) { type = t; operand = o } in
    let u = update_self c.sst_buffer c.sst_current n in
    record {
      state = refl;
      current = refl;
      older = λ i h. update_ne c.sst_buffer c.sst_current i n (omega arith);
      nodes = (ap (λ x. x.type) u, ap (λ x. x.operand) u, tt);
      entries = λ i h. refl;
    }

-- The entry that is opened.
abbrev pub opened : Csid → Link → Compiler → Compiler
opened id l c = record c {
  cs_stack = update c.cs_stack c.cs_ptr (record { id = id; link = l });
  cs_ptr = c.cs_ptr + 1;
}

pub open_entry-ok :
    (id : Csid) (l : Link) (c : Compiler) → c.cs_ptr < 129 → open_entry id l c ≡ ok (opened id l c)
unfolding open_entry
open_entry-ok id l c h = ground arith

pub opened-Grown :
    (id : Csid) (l : Link) (c d : Compiler) (ns : List Item)
    → d.cs_ptr ≡ c.cs_ptr
    → Grown c.cs_ptr c ns d
    → Grown c.cs_ptr c ns (opened id l d)
opened-Grown id l c d ns e g = record {
  state = g.state;
  current = g.current;
  older = g.older;
  nodes = g.nodes;
  entries = λ i h.
      update_ne d.cs_stack d.cs_ptr i (record { id = id; link = l }) (omega arith) ∙ g.entries i h;
}

-- A node of the stretch gets its operand.
pub fill_node-Grown :
    (k : ℕ) (c d : Compiler) (ns : List Item) (t : SstType) (o p : Operand) (ms : List Item)
    → Grown k c (ns ++ (t, o) ∷ ms) d
    → Grown k c (ns ++ (t, p) ∷ ms) (fill_node (c.sst_current + length ns) p d)
unfolding fill_node
fill_node-Grown k c d ns t o p ms g =
    let i = c.sst_current + length ns in
    let a = length-append ns ((t, o) ∷ ms) in
    let b = length-append ns ((t, p) ∷ ms) in
    record {
      state = g.state;
      current = omega (arith, g.current);
      older = λ j h.
          update_ne d.sst_buffer i j (set_operand p (d.sst_buffer i)) (omega arith) ∙ g.older j h;
      nodes = Nodes-fill d.sst_buffer c.sst_current ns t o p ms g.nodes;
      entries = g.entries;
    }

-- What is not kept in a change of the control stack from `k` on.
pub Grown-control :
    (k : ℕ) (c d : Compiler) (ns : List Item) (s : ℕ → Control) (p : ℕ)
    → ((i : ℕ) → i < k → s i ≡ d.cs_stack i)
    → Grown k c ns d
    → Grown k c ns (record d { cs_stack = s; cs_ptr = p })
Grown-control k c d ns s p h g = record {
  state = g.state;
  current = g.current;
  older = g.older;
  nodes = g.nodes;
  entries = λ i q. h i q ∙ g.entries i q;
}
