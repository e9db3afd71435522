-- ===== src/Code/Flow/Generation.antt =====
-- `Code_generation` on the nodes of one definition of structured code.
use mathlib.Core.Path.{subst}
use qlforth.Prelude.{
  ℕ, suc, ◌+◌, ◌-◌, ◌*◌, ◌/◌, ◌≤◌, ◌≡◌, refl, sym, ap, ◌∙◌, arith, true, false, ok, List, [], ◌∷◌,
  ◌++◌, length, ◌>>=◌, map, update,
}
use qlforth.Chip.Refines.{folded}
use qlforth.Code.Assembler.{generate-last, write_words}
use qlforth.Code.Flow.Branches.{flow_nodes-Linked}
use qlforth.Code.Flow.Linked.{marked-Marked}
use qlforth.Code.Flow.Nodes.{
  item_of, flow_nodes, total, layout-flow_nodes, length-flow_nodes, total-flow_nodes,
  flow_nodes-Simple,
}
use qlforth.Code.Flow.Passes.{pass-generate}
use qlforth.Code.Flow.Marks.{
  gen, gen-at, skeleton, marked, marked_other, simple-not_end, simple-not_ret,
}
use qlforth.Code.Flow.Resolve.{
  Linked, patch, pass-resolve, patch-skeleton, patch-update, resolve-op,
}
use qlforth.Code.Flow.{width, flow_code, IsFlow, length-flow_code}
use qlforth.Code.Generation.{pass-end}
use qlforth.Code.Straight.{pass-suc, write_words-append, plain-simple}
use qlforth.Code.{
  Gen, node, generate_node, resolve_node, pass, define, code_generation, buffer_rounds, set_value,
}
use qlforth.Control.Nodes.{Nodes}
use qlforth.Control.Steps.{length-layout}
use qlforth.Control.Structure.{Structured, Item, layout, size}
use qlforth.Opcodes.{is_plain}
use qlforth.Sst.{
  SstType, SstNode, null, spc, sst_colon, sst_ret, sst_semicolon, sst_end, is_ret, is_end,
}
use qlforth.Symbols.{Symbols, modify}

-- The nodes of the definition of the symbol `id`: `:`, the body, its last word, the return, and `;`.
abbrev pub definition_items : ℕ → ℕ → Structured → SstType → List Item
definition_items id start s t =
    (sst_colon, spc id)
    ∷ (layout (start + 1) s ++ (t, null) ∷ (sst_ret, null) ∷ (sst_semicolon, null) ∷ [])

-- Its words.
abbrev pub definition_code : ℕ → Structured → SstType → List ℕ
definition_code a s t = flow_code a s ++ folded t ∷ []

abbrev pub defined : ℕ → Symbols → Symbols
defined id y = record y { entries = modify (set_value 1) y.entries id }

Nodes-parts :
    (b : ℕ → SstNode) (i : ℕ) (xs ys : List Item)
    → Nodes b i (xs ++ ys)
    → Nodes b i xs × Nodes b (i + length xs) ys
Nodes-parts b i [] ys h = let e : i ≡ i + 0 = omega arith in (tt, subst (λ j. Nodes b j ys) e h)
Nodes-parts b i ((t, o) ∷ xs) ys h =
    let (x, y) = Nodes-parts b (i + 1) xs ys h.2 in
    let e : i + 1 + length xs ≡ i + suc (length xs) = omega arith in
    ((h.0, h.1, x), subst (λ j. Nodes b j ys) e y)

-- Such a definition, with its nodes in the buffer and room for its code.
record IsDefinition (id start : ℕ) (s : Structured) (t : SstType) (b : ℕ → SstNode) : Type 0 where
  flow : IsFlow s
  plain : is_plain t ≡ true
  nodes : Nodes b start (definition_items id start s t)
  end_ : (b (start + size s + 4)).type ≡ sst_end
  fits : start + size s + 4 ≤ 65535
  room : width s + 2 ≤ 0x2000

-- The state after both passes.
abbrev pub generated_state : ℕ → ℕ → Structured → SstType → (ℕ → SstNode) → (ℕ → ℕ) → Symbols → Gen
generated_state id start s t b f y =
    gen (width s + 2) (start + size s + 1 + 1 + 1 + 1)
      (marked b (start + 1) 1 (flow_nodes (start + 1) s)) (write_words f 1 (definition_code 1 s t))
      (defined id y)

module _ (id start : ℕ) (s : Structured) (t : SstType) (b : ℕ → SstNode) (f : ℕ → ℕ) (y : Symbols)
    (h : IsDefinition id start s t b) where
  abbrev placed : ℕ → SstNode
  placed = marked b (start + 1) 1 (flow_nodes (start + 1) s)

  abbrev last : ℕ
  last = start + size s + 1

  -- The nodes of the body, and those behind it.
  body :
      Nodes b (start + 1) (map item_of (flow_nodes (start + 1) s))
      × Nodes b last ((t, null) ∷ (sst_ret, null) ∷ (sst_semicolon, null) ∷ [])
  body =
      let (x, z) =
        Nodes-parts b (start + 1) (layout (start + 1) s)
          ((t, null) ∷ (sst_ret, null) ∷ (sst_semicolon, null) ∷ []) h.nodes.2 in
      let e : start + 1 + length (layout (start + 1) s) ≡ last =
        omega (arith, length-layout (start + 1) s) in
      (
        subst (Nodes b (start + 1)) (layout-flow_nodes (start + 1) s h.flow) x,
        subst (λ j. Nodes b j ((t, null) ∷ (sst_ret, null) ∷ (sst_semicolon, null) ∷ [])) e z,
      )

  placed-type : (j : ℕ) → last ≤ j → (placed j).type ≡ (b j).type
  placed-type j l =
      ap (λ x. x.type)
        (marked_other b (start + 1) 1 (flow_nodes (start + 1) s) j
          (λ k p q. omega (arith, length-flow_nodes (start + 1) s h.flow)))

  linked : Linked placed (start + 1) 1 (flow_nodes (start + 1) s) (flow_code 1 s)
  linked =
      let (x, _) = body in
      flow_nodes-Linked placed (start + 1) 1 s h.flow (omega (arith, h.room))
        (marked-Marked b (start + 1) 1 (flow_nodes (start + 1) s) x)

  ended : is_end (placed (last + 1 + 1 + 1)).type ≡ true
  ended =
      let e : start + size s + 4 ≡ last + 1 + 1 + 1 = omega arith in
      rw (placed-type (last + 1 + 1 + 1) (omega arith))
        (subst (λ j. is_end (b j).type ≡ true) e (rw h.end_ (unfold is_end in refl)))

  -- The words of the first pass.
  abbrev first_words : ℕ → ℕ
  first_words = update (skeleton f 1 (flow_nodes (start + 1) s)) (width s + 1) (folded t)

  abbrev at_last : Gen
  at_last = gen (width s + 1) last placed (skeleton f 1 (flow_nodes (start + 1) s)) (defined id y)

  abbrev behind_last : ℕ → Gen
  behind_last i = gen (width s + 2) i placed first_words (defined id y)

  generate-last_word : generate_node (node at_last).type at_last ≡ ok (behind_last (last + 1))
  generate-last_word =
      let (_, z) = body in
      let ret : is_ret (placed (last + 1)).type ≡ true =
        rw (placed-type (last + 1) (omega arith), z.2.0) (unfold is_ret in refl) in
      let word : 2 * (width s + 1) / 2 ≡ width s + 1 = omega arith in
      let ptr : 2 * (width s + 1) + 2 * 1 ≡ 2 * (width s + 2) = omega arith in
      ap (λ u. generate_node u at_last) (placed-type last (omega arith) ∙ z.0)
      ∙ generate-last t at_last h.plain (omega arith, omega (arith, h.room)) ret
      ∙ λ k. ok (record {
        code_ptr = ptr k;
        code_buffer = update (skeleton f 1 (flow_nodes (start + 1) s)) (word k) (folded t);
        at = last + 1;
        sst_buffer = placed;
        symbols = defined id y;
      })

  not_end : (u : SstType) → is_plain u ≡ true → is_end u ≡ false
  not_end u p = simple-not_end u (plain-simple u p)

  first-pass :
      pass generate_node buffer_rounds (gen 1 start b f y) ≡ ok (behind_last (last + 1 + 1 + 1))
  unfolding define
  first-pass =
      let ns = flow_nodes (start + 1) s in
      let (x, z) = body in
      let long = length-flow_nodes (start + 1) s h.flow in
      let wide = total-flow_nodes (start + 1) s h.flow in
      let r = 65532 - size s in
      let n : 65536 ≡ suc (length ns + suc (suc (suc r))) = omega (arith, h.fits, long) in
      let there : start + 1 + length ns ≡ last = omega (arith, long) in
      let no_ret : is_ret (b (start + 1 + length ns)).type ≡ false =
        subst (λ j. is_ret (b j).type ≡ false) (sym there)
          (rw z.0 (simple-not_ret t (plain-simple t h.plain))) in
      ap (λ k. pass generate_node k (gen 1 start b f y)) n
      ∙ pass-suc generate_node (length ns + suc (suc (suc r))) (gen 1 start b f y)
          (gen 1 start b f (defined id y)) (omega (arith, h.fits))
          (rw h.nodes.0 (unfold is_end in refl))
          (rw h.nodes.0 (unfold generate_node in rw h.nodes.1 refl))
      ∙ pass-generate ns (suc (suc (suc r))) 1 (start + 1) b f (defined id y)
          (flow_nodes-Simple (start + 1) s h.flow) x no_ret (omega (arith, h.fits, long))
          (omega (arith, h.room, wide))
      ∙ ap (pass generate_node (suc (suc (suc r)))) (
          gen-at (1 + total ns) (width s + 1) (start + 1 + length ns) last placed (skeleton f 1 ns)
            (defined id y) (omega (arith, wide)) there)
      ∙ pass-suc generate_node (suc (suc r)) at_last (behind_last (last + 1))
          (omega (arith, h.fits)) (rw (placed-type last (omega arith), z.0) (not_end t h.plain))
          generate-last_word
      ∙ pass-suc generate_node (suc r) (behind_last (last + 1 + 1)) (behind_last (last + 1 + 1))
          (omega (arith, h.fits))
          (rw (placed-type (last + 1 + 1) (omega arith), z.2.2.0) (unfold is_end in refl))
          (rw (placed-type (last + 1 + 1) (omega arith), z.2.2.0) (unfold generate_node in refl))
      ∙ pass-end generate_node r (behind_last (last + 1 + 1 + 1)) (omega (arith, h.fits)) ended

  -- The words of both passes.
  all_words :
      patch first_words 1 (flow_nodes (start + 1) s) (flow_code 1 s)
      ≡ write_words f 1 (definition_code 1 s t)
  all_words =
      let ns = flow_nodes (start + 1) s in
      let wide = total-flow_nodes (start + 1) s h.flow in
      let long = length-flow_code 1 s h.flow in
      let next : width s + 1 ≡ 1 + length (flow_code 1 s) = omega (arith, long) in
      patch-update (skeleton f 1 ns) 1 (width s + 1) (folded t) ns (flow_code 1 s)
        (omega (arith, wide))
      ∙ ap (λ g. update g (width s + 1) (folded t))
          (patch-skeleton placed (start + 1) f 1 ns (flow_code 1 s) linked)
      ∙ ap (λ a. update (write_words f 1 (flow_code 1 s)) a (folded t)) next
      ∙ sym (write_words-append f 1 (flow_code 1 s) (folded t ∷ []))

  second-pass :
      pass resolve_node buffer_rounds (behind_last start) ≡ ok (generated_state id start s t b f y)
  second-pass =
      let ns = flow_nodes (start + 1) s in
      let (_, z) = body in
      let long = length-flow_nodes (start + 1) s h.flow in
      let wide = total-flow_nodes (start + 1) s h.flow in
      let r = 65531 - size s in
      let n : 65536 ≡ suc (length ns + suc (suc (suc (suc r)))) = omega (arith, h.fits, long) in
      let there : start + 1 + length ns ≡ last = omega (arith, long) in
      let code = patch first_words 1 ns (flow_code 1 s) in
      let after : ℕ → Gen = λ i. gen (width s + 2) i placed code (defined id y) in
      let colon : (placed start).type ≡ sst_colon =
        ap (λ x. x.type) (marked_other b (start + 1) 1 ns start (λ k p q. omega arith))
        ∙ h.nodes.0 in
      ap (λ k. pass resolve_node k (behind_last start)) n
      ∙ pass-suc resolve_node (length ns + suc (suc (suc (suc r)))) (behind_last start)
          (behind_last start) (omega (arith, h.fits)) (rw colon (unfold is_end in refl))
          (rw colon (unfold resolve_node in refl))
      ∙ pass-resolve ns (flow_code 1 s) (suc (suc (suc (suc r)))) (width s + 2) (start + 1) 1 placed
          first_words (defined id y) linked (omega (arith, h.fits, long))
          (omega (arith, h.room, wide))
      ∙ ap (λ i. pass resolve_node (suc (suc (suc (suc r)))) (after i)) there
      ∙ pass-suc resolve_node (suc (suc (suc r))) (after last) (after last) (omega (arith, h.fits))
          (rw (placed-type last (omega arith), z.0) (not_end t h.plain))
          (rw (placed-type last (omega arith), z.0)
            (resolve-op t (after last) (plain-simple t h.plain)))
      ∙ pass-suc resolve_node (suc (suc r)) (after (last + 1)) (after (last + 1))
          (omega (arith, h.fits))
          (rw (placed-type (last + 1) (omega arith), z.2.0) (unfold is_end in refl))
          (rw (placed-type (last + 1) (omega arith), z.2.0) (unfold resolve_node in refl))
      ∙ pass-suc resolve_node (suc r) (after (last + 1 + 1)) (after (last + 1 + 1))
          (omega (arith, h.fits))
          (rw (placed-type (last + 1 + 1) (omega arith), z.2.2.0) (unfold is_end in refl))
          (rw (placed-type (last + 1 + 1) (omega arith), z.2.2.0) (unfold resolve_node in refl))
      ∙ pass-end resolve_node r (after (last + 1 + 1 + 1)) (omega (arith, h.fits)) ended
      ∙ ap (λ g. ok (gen (width s + 2) (last + 1 + 1 + 1) placed g (defined id y))) all_words

-- Let the nodes of a definition of structured code stand in the buffer, `SST_END` behind them: `:` with the symbol, the
-- body of one-instruction words, IF, ELSE, ENDIF, BEGIN, UNTIL, WHILE and REPEAT, a last plain word, the return, and
-- `;`, with room for the code below 0x2000. Then the two passes succeed: the symbol's value is 1, the words from 1 on
-- are the code of the body with every branch at its address and the last word with the return in it, all other words
-- are as before, and the code pointer stands behind them.
pub code_generation-flow :
    (id start : ℕ) (s : Structured) (t : SstType) (b : ℕ → SstNode) (i : ℕ) (f : ℕ → ℕ)
    (y : Symbols)
    → IsFlow s
    → is_plain t ≡ true
    → Nodes b start (definition_items id start s t)
    → (b (start + size s + 4)).type ≡ sst_end
    → start + size s + 4 ≤ 65535
    → width s + 2 ≤ 0x2000
    → code_generation start (gen 1 i b f y) ≡ ok (generated_state id start s t b f y)
unfolding code_generation
code_generation-flow id start s t b i f y flow plain nodes end_ fits room =
    let h : IsDefinition id start s t b = record {
      flow = flow;
      plain = plain;
      nodes = nodes;
      end_ = end_;
      fits = fits;
      room = room;
    } in
    rw (first-pass id start s t b f y h, ◌>>=◌) (second-pass id start s t b f y h)
