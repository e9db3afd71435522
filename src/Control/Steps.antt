-- ===== src/Control/Steps.antt =====
-- The parts of structured code and of what it compiles to, put together.
use qlforth.Prelude.{
  ℕ, suc, ◌+◌, ◌-◌, ◌≤◌, ◌≡◌, ap, ◌∙◌, sym, arith, refl, List, [], ◌∷◌, ◌++◌, length, length-append,
  update_ne, update_self,
}
use mathlib.Core.Path.{subst}
use mathlib.Core.List.{append_assoc}
use qlforth.Compile.{Csid, csid_if, sst_link, Control, Compiler, fill_node}
use qlforth.Control.{close_entry}
use qlforth.Control.Grown.{
  Grown, Grown-trans, appended, appended-Grown, opened-Grown, fill_node-Grown, Grown-control,
}
use qlforth.Control.Structure.{
  Structured, empty, word, then, if_then, if_else, begin_until, begin_while, do_loop, for_next,
  size, layout, Item,
}
use qlforth.Control.Words.{Open, starts, linked, branched}
use qlforth.Sst.{
  SstType, Operand, null, sst, sst_0_branch, sst_branch, sst_label, sst_loop, sst_next,
}

pub length-layout : (i : ℕ) (s : Structured) → length (layout i s) ≡ size s
length-layout i empty = refl
length-layout i (word t) = refl
length-layout i (then s t) = omega (
  arith,
  length-append (layout i s) (layout (i + size s) t),
  length-layout i s,
  length-layout (i + size s) t,
)
length-layout i (if_then s) =
    omega
      (arith, length-append (layout (i + 1) s) ((sst_label, null) ∷ []), length-layout (i + 1) s)
length-layout i (if_else s t) =
    let j = i + size s + 3 in
    let b =
      (sst_branch, sst (i + size s + size t + 3))
      ∷ (sst_label, null)
      ∷ (layout j t ++ (sst_label, null) ∷ []) in
    omega (
      arith,
      length-append (layout (i + 1) s) b,
      length-append (layout j t) ((sst_label, null) ∷ []),
      length-layout (i + 1) s,
      length-layout j t,
    )
length-layout i (begin_until s) =
    omega (
      arith,
      length-append (layout (i + 1) s) ((sst_0_branch, sst i) ∷ []),
      length-layout (i + 1) s,
    )
length-layout i (begin_while s t) =
    let j = i + size s + 2 in
    let b =
      (sst_0_branch, sst (i + size s + size t + 3))
      ∷ (layout j t ++ (sst_branch, sst i) ∷ (sst_label, null) ∷ []) in
    omega (
      arith,
      length-append (layout (i + 1) s) b,
      length-append (layout j t) ((sst_branch, sst i) ∷ (sst_label, null) ∷ []),
      length-layout (i + 1) s,
      length-layout j t,
    )
length-layout i (do_loop s) =
    omega
      (arith, length-append (layout (i + 1) s) ((sst_loop, sst i) ∷ []), length-layout (i + 1) s)
length-layout i (for_next s) =
    omega
      (arith, length-append (layout (i + 1) s) ((sst_next, sst i) ∷ []), length-layout (i + 1) s)

-- A node more at the end.
pub append-at :
    (k : ℕ) (c d : Compiler) (ns : List Item) (t : SstType) (o : Operand)
    → Grown k c ns d
    → Grown k c (ns ++ (t, o) ∷ []) (appended t o d)
append-at k c d ns t o g =
    Grown-trans k k c d (appended t o d) ns ((t, o) ∷ []) (omega arith) g (appended-Grown k t o d)

pub fill-at :
    (k : ℕ) (c d : Compiler) (ns : List Item) (t : SstType) (o p : Operand) (ms : List Item)
    (i j m : ℕ)
    → i ≡ c.sst_current + length ns
    → j ≡ m
    → Grown k c (ns ++ (t, o) ∷ ms) d
    → Grown k c (ns ++ (t, sst m) ∷ ms) (fill_node i (sst j) d)
fill-at k c d ns t o p ms i j m e f g = rw (e, sym f) (fill_node-Grown k c d ns t o (sst j) ms g)

-- An entry that was opened before `d` is still there.
pub enclosed :
    (t : SstType) (id : Csid) (c d : Compiler) (ns : List Item)
    → d.cs_ptr ≡ c.cs_ptr + 1
    → Grown (c.cs_ptr + 1) (starts t id c) ns d
    → Open c.cs_ptr id c.sst_current d × Grown c.cs_ptr c ((t, null) ∷ ns) d
enclosed t id c d ns e g = (
  record {
    ptr = omega (arith, e);
    entry =
        g.entries c.cs_ptr (omega arith)
        ∙ update_self c.cs_stack c.cs_ptr (record { id = id; link = sst_link c.sst_current });
  },
  Grown-trans c.cs_ptr (c.cs_ptr + 1) c (starts t id c) d ((t, null) ∷ []) ns (omega arith)
      (opened-Grown id (sst_link c.sst_current) c (appended t null c) ((t, null) ∷ []) refl
        (appended-Grown c.cs_ptr t null c))
      g,
)

-- What structured code leaves: the control stack as it was, and its nodes.
abbrev pub Compiled : Compiler → List Item → Compiler → Type 0
Compiled c ns d = (d.cs_ptr ≡ c.cs_ptr) × Grown c.cs_ptr c ns d

-- The closing words, after the code between.
pub closed :
    (id : Csid) (i : ℕ) (c d : Compiler) (ns : List Item)
    → Open c.cs_ptr id i d
    → Grown c.cs_ptr c ns d
    → Compiled c ns (close_entry d)
closed id i c d ns o g =
    (omega (arith, o.ptr), Grown-control c.cs_ptr c d ns d.cs_stack (d.cs_ptr - 1) (λ i h. refl) g)

pub branched-Grown :
    (k : ℕ) (d : Compiler) → Grown k d ((sst_branch, null) ∷ (sst_label, null) ∷ []) (branched d)
branched-Grown k d =
    append-at k d (appended sst_branch null d) ((sst_branch, null) ∷ []) sst_label null
      (appended-Grown k sst_branch null d)

pub linked-Open :
    (k : ℕ) (id : Csid) (i j : ℕ) (c : Compiler) → Open k id i c → Open k id j (linked j c)
linked-Open k id i j c o =
    let e : c.cs_ptr - 1 ≡ k = omega (arith, o.ptr) in
    record {
      ptr = o.ptr;
      entry = rw e (
          update_self c.cs_stack k (record (c.cs_stack k) { link = sst_link j })
          ∙ ap (λ x. record { id = Control.id x; link = sst_link j }) o.entry);
    }

pub Compiled-Open :
    (k : ℕ) (id : Csid) (i : ℕ) (c d : Compiler) (ns : List Item)
    → Open k id i c
    → Compiled c ns d
    → Open k id i d
Compiled-Open k id i c d ns o p = record {
  ptr = p.0 ∙ o.ptr;
  entry = (p.1).entries k (omega (arith, o.ptr)) ∙ o.entry;
}

-- ELSE closes the first part: the test goes to the new label, and the new branch is open.
pub else-Grown :
    (c d : Compiler) (ns : List Item) (m : ℕ)
    → d.sst_current + 1 ≡ m
    → Open c.cs_ptr csid_if c.sst_current d
    → Grown c.cs_ptr c ((sst_0_branch, null) ∷ ns) d
    → Grown c.cs_ptr c
        ((sst_0_branch, sst m) ∷ (ns ++ (sst_branch, null) ∷ (sst_label, null) ∷ []))
        (linked d.sst_current (fill_node c.sst_current (sst (d.sst_current + 1)) (branched d)))
unfolding fill_node
else-Grown c d ns m e o g =
    let k = c.cs_ptr in
    let ms = ns ++ (sst_branch, null) ∷ (sst_label, null) ∷ [] in
    let f = fill_node c.sst_current (sst (d.sst_current + 1)) (branched d) in
    Grown-control k c f ((sst_0_branch, sst m) ∷ ms) (linked d.sst_current f).cs_stack d.cs_ptr
      (λ i h.
        update_ne d.cs_stack (d.cs_ptr - 1) i
          (record (d.cs_stack (d.cs_ptr - 1)) { link = sst_link d.sst_current })
          (omega (arith, o.ptr)))
      (fill-at k c (branched d) [] sst_0_branch null null ms c.sst_current (d.sst_current + 1) m
        (omega arith) e
        (Grown-trans k k c d (branched d) ((sst_0_branch, null) ∷ ns)
          ((sst_branch, null) ∷ (sst_label, null) ∷ []) (omega arith) g (branched-Grown k d)))

-- THEN closes the second part.
pub endif-Grown :
    (k : ℕ) (c d e : Compiler) (o : Operand) (ns ms : List Item) (i m : ℕ)
    → k ≤ d.cs_ptr
    → i ≡ c.sst_current + suc (length ns)
    → e.sst_current ≡ m
    → Grown k c ((sst_0_branch, o) ∷ (ns ++ (sst_branch, null) ∷ (sst_label, null) ∷ [])) d
    → Grown d.cs_ptr d ms e
    → Grown k c
        ((sst_0_branch, o)
          ∷ (ns ++ (sst_branch, sst m) ∷ (sst_label, null) ∷ (ms ++ (sst_label, null) ∷ [])))
        (fill_node i (sst e.sst_current) (appended sst_label null e))
endif-Grown k c d e o ns ms i m h f r g l =
    let end = ms ++ (sst_label, null) ∷ [] in
    let first = (sst_0_branch, o) ∷ ns in
    let two = (sst_branch, null) ∷ (sst_label, null) ∷ [] in
    let all =
      Grown-trans k d.cs_ptr c d (appended sst_label null e) (first ++ two) end h g
        (append-at d.cs_ptr d e ms sst_label null l) in
    fill-at k c (appended sst_label null e) first sst_branch null null ((sst_label, null) ∷ end) i
      e.sst_current m f r
      (subst (λ x. Grown k c x (appended sst_label null e)) (append_assoc first two end) all)

-- REPEAT: the test goes behind the loop, the branch back to its beginning.
pub repeat-Grown :
    (k : ℕ) (c d : Compiler) (ns : List Item) (i m b : ℕ)
    → d.sst_current ≡ c.sst_current + suc (length ns)
    → d.sst_current + 1 ≡ m
    → Grown k c ((sst_0_branch, null) ∷ ns) d
    → Grown k c ((sst_0_branch, sst m) ∷ (ns ++ (sst_branch, sst b) ∷ (sst_label, null) ∷ [])) (
        fill_node d.sst_current
          (sst b)
          (fill_node c.sst_current (sst (d.sst_current + 1)) (branched d)))
repeat-Grown k c d ns i m b e f g =
    let ms = ns ++ (sst_branch, null) ∷ (sst_label, null) ∷ [] in
    let h = fill_node c.sst_current (sst (d.sst_current + 1)) (branched d) in
    fill-at k c h ((sst_0_branch, sst m) ∷ ns) sst_branch null null ((sst_label, null) ∷ [])
      d.sst_current b b e refl
      (fill-at k c (branched d) [] sst_0_branch null null ms c.sst_current (d.sst_current + 1) m
        (omega arith) f
        (Grown-trans k k c d (branched d) ((sst_0_branch, null) ∷ ns)
          ((sst_branch, null) ∷ (sst_label, null) ∷ []) (omega arith) g (branched-Grown k d)))
