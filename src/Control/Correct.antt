-- ===== src/Control/Correct.antt =====
-- Structured code compiles to its layout.
use qlforth.Prelude.{
  ◌+◌, ◌-◌, ◌≤◌, ◌≡◌, ◌∙◌, arith, refl, true, [], ◌∷◌, ◌++◌, length, ◌>>=◌, Returns, Returns-bind,
  Returns-map,
}
use mathlib.Core.Path.{subst}
use qlforth.Compile.{
  csid_if, csid_begin, csid_while, csid_do, csid_for, Compiler, fill_node, extension_word,
}
use qlforth.Control.{
  compiling, close_entry, cfp_else, cfp_endif, cfp_while, cfp_repeat, cfp_until, cfp_loop, cfp_next,
}
use qlforth.Control.Grown.{
  Grown, Grown-none, Grown-trans, appended, sst_append-ok, appended-Grown, Grown-control,
}
use qlforth.Control.Structure.{
  Structured, empty, word, then, if_then, if_else, begin_until, begin_while, do_loop, for_next,
  compile, size, depth, layout, max_left, max_right,
}
use qlforth.Control.Words.{
  Open, starts, linked, branched, compiling-kept, cfp_if_lem, cfp_begin_lem, cfp_do_lem,
  cfp_for_lem, cfp_while_lem, cfp_endif_lem, cfp_until_lem, cfp_loop_lem, cfp_next_lem,
  cfp_else_lem, cfp_repeat_lem,
}
use qlforth.Sst.{
  null, sst, sst_0_branch, sst_branch, sst_label, sst_do, sst_loop, sst_for, sst_next,
}
use qlforth.Control.Steps.{
  length-layout, append-at, fill-at, enclosed, Compiled, closed, linked-Open, Compiled-Open,
  else-Grown, endif-Grown, repeat-Grown,
}

-- In the compile state, where the SST buffer has room for the nodes of structured code and the control stack
-- for its depth, the words that compile it, in the order of the text, all succeed. They leave the state and
-- `cs_ptr` as they were, with the entries below, leave the nodes that were there, and append the layout
-- of the code: every test and every branch points to the label where the source text says it goes.
pub compile-Compiled :
    (s : Structured) (c : Compiler)
    → compiling c ≡ true
    → c.sst_current + size s ≤ 65536
    → c.cs_ptr + depth s ≤ 129
    → Returns (Compiled c (layout c.sst_current s)) (compile s c)
unfolding compile extension_word fill_node
compile-Compiled empty c h r q = (refl, Grown-none c.cs_ptr c)
compile-Compiled (word t) c h r q =
    rw (sst_append-ok t null c (omega arith)) (refl, appended-Grown c.cs_ptr t null c)
compile-Compiled (then s t) c h r q =
    Returns-bind (Compiled c (layout c.sst_current s))
      (Compiled c (layout c.sst_current (then s t))) (compile s c) (compile t)
      (compile-Compiled s c h (omega arith) (omega (arith, max_left (depth s) (depth t))))
      (λ d p.
        let n = length-layout c.sst_current s in
        let f : d.sst_current ≡ c.sst_current + size s = omega (arith, (p.1).current, n) in
        Returns-map (compile t d)
          (λ e q. (
            q.0 ∙ p.0,
            Grown-trans c.cs_ptr d.cs_ptr c d e (layout c.sst_current s)
                (layout (c.sst_current + size s) t) (omega (arith, p.0)) p.1
                (subst (λ x. Grown d.cs_ptr d (layout x t) e) f q.1),
          ))
          (compile-Compiled t d (compiling-kept c d (p.1).state h) (omega (arith, f))
            (omega (arith, p.0, max_right (depth s) (depth t)))))
compile-Compiled (if_then s) c h r q =
    let c₁ = starts sst_0_branch csid_if c in
    rw (cfp_if_lem c h (omega arith) (omega arith)) (
      Returns-bind (Compiled c₁ (layout c₁.sst_current s))
        (Compiled c (layout c.sst_current (if_then s))) (compile s c₁) cfp_endif
        (compile-Compiled s c₁ (compiling-kept c c₁ refl h) (omega arith) (omega arith))
        (λ d p.
          let g = enclosed sst_0_branch csid_if c d (layout c₁.sst_current s) p.0 p.1 in
          let n = length-layout c₁.sst_current s in
          let ns = (sst_0_branch, null) ∷ layout c₁.sst_current s in
          let target = c.sst_current + 1 + size s in
          rw
            (cfp_endif_lem d (compiling-kept c d (p.1).state h) (omega (arith, (p.1).current, n))
              c.cs_ptr c.sst_current g.0)
            (closed csid_if c.sst_current c
              (fill_node c.sst_current (sst d.sst_current) (appended sst_label null d))
              ((sst_0_branch, sst target) ∷ (layout c₁.sst_current s ++ (sst_label, null) ∷ []))
              (record { ptr = (g.0).ptr; entry = (g.0).entry })
              (fill-at c.cs_ptr c (appended sst_label null d) [] sst_0_branch null null
                (layout c₁.sst_current s ++ (sst_label, null) ∷ []) c.sst_current d.sst_current
                target (omega arith) (omega (arith, (p.1).current, n))
                (append-at c.cs_ptr c d ns sst_label null g.1)))))
compile-Compiled (if_else s t) c h r q =
    let c₁ = starts sst_0_branch csid_if c in
    rw (cfp_if_lem c h (omega arith) (omega (arith))) (
      Returns-bind (Compiled c₁ (layout c₁.sst_current s))
        (Compiled c (layout c.sst_current (if_else s t))) (compile s c₁)
        (λ c₂. cfp_else c₂ >>= (λ c₃. compile t c₃ >>= cfp_endif))
        (compile-Compiled s c₁ (compiling-kept c c₁ refl h) (omega arith)
          (omega (arith, max_left (depth s) (depth t))))
        (λ d p.
          let k = c.cs_ptr in
          let i = c.sst_current in
          let ns = layout c₁.sst_current s in
          let g = enclosed sst_0_branch csid_if c d ns p.0 p.1 in
          let n : d.sst_current ≡ i + 1 + size s =
            omega (arith, (p.1).current, length-layout c₁.sst_current s) in
          let f = fill_node i (sst (d.sst_current + 1)) (branched d) in
          let c₃ = linked d.sst_current f in
          let o =
            linked-Open k csid_if i d.sst_current f
              (record { ptr = (g.0).ptr; entry = (g.0).entry }) in
          rw (cfp_else_lem d (compiling-kept c d (p.1).state h) (omega (arith, n)) k i g.0) (
            Returns-bind (Compiled c₃ (layout c₃.sst_current t))
              (Compiled c (layout i (if_else s t))) (compile t c₃) cfp_endif
              (compile-Compiled t c₃ (compiling-kept c c₃ (p.1).state h) (omega (arith, n))
                (omega (arith, p.0, max_right (depth s) (depth t))))
              (λ e q.
                let ms = layout (i + size s + 3) t in
                let at : d.sst_current + 1 + 1 ≡ i + size s + 3 = omega (arith, n) in
                let l = subst (λ x. Grown c₃.cs_ptr c₃ (layout x t) e) at (q.1) in
                let v = Compiled-Open k csid_if d.sst_current c₃ e (layout c₃.sst_current t) o q in
                let j = d.sst_current + 1 + 1 in
                let b : e.sst_current ≡ j + length (layout j t) = (q.1).current in
                let a : e.sst_current ≡ i + size s + size t + 3 =
                  omega (arith, b, n, length-layout j t) in
                rw
                  (cfp_endif_lem e (compiling-kept c e ((q.1).state ∙ (p.1).state) h)
                    (omega (arith, a)) k d.sst_current v)
                  (closed csid_if d.sst_current c
                    (fill_node d.sst_current (sst e.sst_current) (appended sst_label null e))
                    (layout i (if_else s t)) (record { ptr = v.ptr; entry = v.entry })
                    (endif-Grown k c c₃ e (sst (i + size s + 2)) ns ms d.sst_current
                      (i + size s + size t + 3) (omega (arith, p.0))
                      (omega (arith, n, length-layout c₁.sst_current s)) a
                      (else-Grown c d ns (i + size s + 2) (omega (arith, n)) g.0 g.1) l))))))
compile-Compiled (begin_until s) c h r q =
    let c₁ = starts sst_label csid_begin c in
    rw (cfp_begin_lem c h (omega arith) (omega arith)) (
      Returns-bind (Compiled c₁ (layout c₁.sst_current s))
        (Compiled c (layout c.sst_current (begin_until s))) (compile s c₁) cfp_until
        (compile-Compiled s c₁ (compiling-kept c c₁ refl h) (omega arith) (omega arith))
        (λ d p.
          let g = enclosed sst_label csid_begin c d (layout c₁.sst_current s) p.0 p.1 in
          rw
            (cfp_until_lem d (compiling-kept c d (p.1).state h)
              (omega (arith, (p.1).current, length-layout c₁.sst_current s)) c.cs_ptr c.sst_current
              g.0)
            (closed csid_begin c.sst_current c (appended sst_0_branch (sst c.sst_current) d)
              ((((sst_label, null)) ∷ layout c₁.sst_current s)
                ++ (sst_0_branch, sst c.sst_current) ∷ [])
              (record { ptr = (g.0).ptr; entry = (g.0).entry })
              (append-at c.cs_ptr c d ((sst_label, null) ∷ layout c₁.sst_current s) sst_0_branch
                (sst c.sst_current) g.1))))
compile-Compiled (begin_while s t) c h r q =
    let c₁ = starts sst_label csid_begin c in
    rw (cfp_begin_lem c h (omega arith) (omega (arith))) (
      Returns-bind (Compiled c₁ (layout c₁.sst_current s))
        (Compiled c (layout c.sst_current (begin_while s t))) (compile s c₁)
        (λ c₂. cfp_while c₂ >>= (λ c₃. compile t c₃ >>= cfp_repeat))
        (compile-Compiled s c₁ (compiling-kept c c₁ refl h) (omega arith)
          (omega (arith, max_left (depth s) (depth t + 1))))
        (λ d p.
          let k = c.cs_ptr in
          let i = c.sst_current in
          let ns = layout c₁.sst_current s in
          let g = enclosed sst_label csid_begin c d ns p.0 p.1 in
          let n : d.sst_current ≡ i + 1 + size s =
            omega (arith, (p.1).current, length-layout c₁.sst_current s) in
          let c₃ = starts sst_0_branch csid_while d in
          rw
            (cfp_while_lem d (compiling-kept c d (p.1).state h) (omega (arith, n)) k i g.0
              (omega (arith, p.0, max_right (depth s) (depth t + 1))))
            (Returns-bind (Compiled c₃ (layout c₃.sst_current t))
              (Compiled c (layout i (begin_while s t))) (compile t c₃) cfp_repeat
              (compile-Compiled t c₃ (compiling-kept c c₃ (p.1).state h) (omega (arith, n))
                (omega (arith, p.0, max_right (depth s) (depth t + 1))))
              (λ e q.
                let ms = layout (i + size s + 2) t in
                let at : d.sst_current + 1 ≡ i + size s + 2 = omega (arith, n) in
                let m = i + size s + size t + 3 in
                let l = subst (λ x. Grown c₃.cs_ptr c₃ (layout x t) e) at (q.1) in
                let w = enclosed sst_0_branch csid_while d e ms q.0 l in
                let u : Open k csid_begin i (close_entry e) = record {
                  ptr = omega (arith, q.0, p.0);
                  entry = (w.1).entries k (omega (arith, p.0)) ∙ (g.0).entry;
                } in
                let a : e.sst_current ≡ i + size s + size t + 2 =
                  omega (arith, (q.1).current, n, length-layout c₃.sst_current t) in
                let x =
                  fill_node e.sst_current (sst i)
                    (fill_node d.sst_current (sst (e.sst_current + 1)) (branched e)) in
                rw
                  (cfp_repeat_lem e (compiling-kept c e ((q.1).state ∙ (p.1).state) h)
                    (omega (arith, a)) d.cs_ptr d.sst_current k i w.0 u)
                  (closed csid_begin i c (close_entry x) (layout i (begin_while s t))
                    (record { ptr = u.ptr; entry = u.entry })
                    (Grown-control k c x (layout i (begin_while s t)) x.cs_stack (x.cs_ptr - 1)
                      (λ j b. refl)
                      (Grown-trans k d.cs_ptr c d x ((sst_label, null) ∷ ns)
                        ((sst_0_branch, sst m)
                          ∷ (ms ++ (sst_branch, sst i) ∷ (sst_label, null) ∷ []))
                        (omega (arith, p.0)) g.1
                        (repeat-Grown d.cs_ptr d e ms i m i
                          (omega (arith, a, n, length-layout (i + size s + 2) t)) (omega (arith, a))
                          w.1))))))))
compile-Compiled (do_loop s) c h r q =
    let c₁ = starts sst_do csid_do c in
    rw (cfp_do_lem c h (omega arith) (omega arith)) (
      Returns-bind (Compiled c₁ (layout c₁.sst_current s))
        (Compiled c (layout c.sst_current (do_loop s))) (compile s c₁) cfp_loop
        (compile-Compiled s c₁ (compiling-kept c c₁ refl h) (omega arith) (omega arith))
        (λ d p.
          let g = enclosed sst_do csid_do c d (layout c₁.sst_current s) p.0 p.1 in
          rw
            (cfp_loop_lem d (compiling-kept c d (p.1).state h)
              (omega (arith, (p.1).current, length-layout c₁.sst_current s)) c.cs_ptr c.sst_current
              g.0)
            (closed csid_do c.sst_current c (appended sst_loop (sst c.sst_current) d)
              ((((sst_do, null)) ∷ layout c₁.sst_current s) ++ (sst_loop, sst c.sst_current) ∷ [])
              (record { ptr = (g.0).ptr; entry = (g.0).entry })
              (append-at c.cs_ptr c d ((sst_do, null) ∷ layout c₁.sst_current s) sst_loop
                (sst c.sst_current) g.1))))
compile-Compiled (for_next s) c h r q =
    let c₁ = starts sst_for csid_for c in
    rw (cfp_for_lem c h (omega arith) (omega arith)) (
      Returns-bind (Compiled c₁ (layout c₁.sst_current s))
        (Compiled c (layout c.sst_current (for_next s))) (compile s c₁) cfp_next
        (compile-Compiled s c₁ (compiling-kept c c₁ refl h) (omega arith) (omega arith))
        (λ d p.
          let g = enclosed sst_for csid_for c d (layout c₁.sst_current s) p.0 p.1 in
          rw
            (cfp_next_lem d (compiling-kept c d (p.1).state h)
              (omega (arith, (p.1).current, length-layout c₁.sst_current s)) c.cs_ptr c.sst_current
              g.0)
            (closed csid_for c.sst_current c (appended sst_next (sst c.sst_current) d)
              ((((sst_for, null)) ∷ layout c₁.sst_current s) ++ (sst_next, sst c.sst_current) ∷ [])
              (record { ptr = (g.0).ptr; entry = (g.0).entry })
              (append-at c.cs_ptr c d ((sst_for, null) ∷ layout c₁.sst_current s) sst_next
                (sst c.sst_current) g.1))))
