-- ===== src/Code/Generation.antt =====
-- `Code_generation` on the nodes of one straight-line definition.
use qlforth.Prelude.{
  ℕ, suc, ◌+◌, ◌-◌, ◌*◌, ◌/◌, ◌≤◌, ◌≡◌, refl, ap, ◌∙◌, arith, true, false, ok, List, [], ◌∷◌,
  length, ltb, ◌==◌, ◌>>=◌, Result,
}
use qlforth.Code.{
  Gen, node, generate_node, resolve_node, pass, advance, define, code_generation, sst_node_max,
  code_start, buffer_rounds,
}
use qlforth.Code.Assembler.{IsSimple, item_node, emit, write_words}
use qlforth.Code.Straight.{
  AllSimple, Loaded, body_nodes, assemble, rounds, pass-suc, pass-body, after_body, simple-not_end,
  plain-simple,
}
use qlforth.Machine.Programs.{Item, lit, op}
use qlforth.Opcodes.{is_plain}
use qlforth.Symbols.{Symbol, modify}
use qlforth.Sst.{SstType, sst_node, spc, sst_colon, sst_end, sst_noop, is_end}

-- A pass ends at `SST_END`.
pub pass-end :
    (f : SstType → Gen → Result Gen) (n : ℕ) (g : Gen)
    → g.at ≤ sst_node_max
    → is_end (node g).type ≡ true
    → pass f (suc n) g ≡ ok g
unfolding pass
pass-end f n g l e = let below : ltb sst_node_max g.at ≡ false = ground arith in rw (below, e) refl

resolve-simple : (x : Item) (g : Gen) → IsSimple x → resolve_node (item_node x).type g ≡ ok g
unfolding resolve_node
resolve-simple (lit v) g s = refl
resolve-simple (op sst_noop) g s = cc
resolve-simple (op t) g s = ground arith

-- The second pass leaves straight-line code alone.
pass-resolve :
    (xs : List Item) (t : SstType) (f : ℕ) (g : Gen)
    → AllSimple xs
    → is_plain t ≡ true
    → Loaded g.sst_buffer g.at (body_nodes xs t)
    → g.at + length (body_nodes xs t) ≤ suc sst_node_max
    → pass resolve_node (suc (rounds xs f)) g
      ≡ pass resolve_node f (record g { at = g.at + length (body_nodes xs t) })
pass-resolve [] t f g s p l r =
    pass-suc resolve_node (suc (suc f)) g g (omega arith)
      (rw l.0 (simple-not_end (op t) (plain-simple t p)))
      (rw l.0 (resolve-simple (op t) g (plain-simple t p)))
    ∙ pass-suc resolve_node (suc f) (advance g) (advance g) (omega arith)
        (rw l.1.0 (unfold is_end in refl)) (rw l.1.0 (unfold resolve_node in refl))
    ∙ pass-suc resolve_node f (advance (advance g)) (advance (advance g)) (omega arith)
        (rw l.1.1.0 (unfold is_end in refl)) (rw l.1.1.0 (unfold resolve_node in refl))
    ∙ ap (λ a. pass resolve_node f (record g { at = a })) (omega arith)
pass-resolve (x ∷ xs) t f g s p l r =
    pass-suc resolve_node (suc (rounds xs f)) g g (omega arith) (rw l.0 (simple-not_end x s.0))
      (rw l.0 (resolve-simple x g s.0))
    ∙ pass-resolve xs t f (advance g) s.1 p l.1 (omega arith)
    ∙ ap (λ a. pass resolve_node f (record g { at = a })) (omega arith)

rounds-length :
    (xs : List Item) (t : SstType) (f : ℕ) → suc (rounds xs f) ≡ length (body_nodes xs t) + f
rounds-length [] t f = omega arith
rounds-length (x ∷ xs) t f = omega (arith, rounds-length xs t f)

-- The state after both passes over the definition of the symbol `id`, from the state at its first node.
abbrev assembled : ℕ → List Item → SstType → ℕ → Gen → Gen
assembled id xs t start g = record (emit (assemble xs t) (define id g)) {
  at = start + 1 + length (body_nodes xs t);
}

-- Such a definition, with the nodes in the buffer and room for its code.
record IsDefinition (id : ℕ) (xs : List Item) (t : SstType) (start : ℕ) (g : Gen) : Type 0 where
  simple : AllSimple xs
  plain : is_plain t ≡ true
  ptr : g.code_ptr ≡ 2
  colon : g.sst_buffer start ≡ sst_node sst_colon (spc id)
  body : Loaded g.sst_buffer (start + 1) (body_nodes xs t)
  end_ : (g.sst_buffer (start + 1 + length (body_nodes xs t))).type ≡ sst_end
  fits : start + 1 + length (body_nodes xs t) ≤ 65535
  room : 2 + 2 * length (assemble xs t) ≤ 0x4000

module _ (id : ℕ) (xs : List Item) (t : SstType) (start : ℕ) (g : Gen)
    (h : IsDefinition id xs t start g) where
  first-pass :
      pass generate_node buffer_rounds (record g { at = start }) ≡ ok (assembled id xs t start g)
  unfolding define
  first-pass =
      let b = length (body_nodes xs t) in
      let f = 65535 - b in
      let n : 65536 ≡ suc (rounds xs (suc f)) = omega (arith, h.fits, rounds-length xs t (suc f)) in
      let d = record (define id g) { at = start } in
      ap (λ k. pass generate_node k (record g { at = start })) n
      ∙ pass-suc generate_node (rounds xs (suc f)) (record g { at = start }) d
          (omega (arith, h.fits)) (rw h.colon (unfold is_end in refl))
          (rw h.colon (unfold generate_node in rw h.colon refl))
      ∙ pass-body xs t (suc f) (advance d) h.simple h.plain h.body
          (omega (arith, h.ptr), omega (arith, h.ptr, h.room)) (omega (arith, h.fits))
      ∙ pass-end generate_node f (after_body xs t (advance d)) (omega (arith, h.fits))
          (rw h.end_ (unfold is_end in refl))

  second-pass :
      pass resolve_node buffer_rounds (record (assembled id xs t start g) { at = start })
      ≡ ok (assembled id xs t start g)
  unfolding define
  second-pass =
      let b = length (body_nodes xs t) in
      let f = 65534 - b in
      let n : 65536 ≡ suc (suc (rounds xs (suc f))) =
        omega (arith, h.fits, rounds-length xs t (suc f)) in
      let d = record (assembled id xs t start g) { at = start } in
      ap (λ k. pass resolve_node k d) n
      ∙ pass-suc resolve_node (suc (rounds xs (suc f))) d d (omega (arith, h.fits))
          (rw h.colon (unfold is_end in refl)) (rw h.colon (unfold resolve_node in refl))
      ∙ pass-resolve xs t (suc f) (advance d) h.simple h.plain h.body (omega (arith, h.fits))
      ∙ pass-end resolve_node f (assembled id xs t start g) (omega (arith, h.fits))
          (rw h.end_ (unfold is_end in refl))

-- The words of the reference assembler from the word 1 on, and the symbol with the value 1.
abbrev pub generated : ℕ → List Item → SstType → ℕ → Gen → Gen
generated id xs t start g = record g {
  code_ptr = 2 + 2 * length (assemble xs t);
  code_buffer = write_words g.code_buffer 1 (assemble xs t);
  at = start + 1 + length (body_nodes xs t);
  symbols = record g.symbols {
    entries = modify (λ (s : Symbol). record s { value = 1 }) g.symbols.entries id;
  };
}

assembled-generated :
    (id : ℕ) (xs : List Item) (t : SstType) (start : ℕ) (g : Gen)
    → g.code_ptr ≡ 2
    → assembled id xs t start g ≡ generated id xs t start g
unfolding define
assembled-generated id xs t start g e =
    let half : g.code_ptr / 2 ≡ 1 = omega (arith, e) in
    λ i. record g {
      code_ptr = e i + 2 * length (assemble xs t);
      code_buffer = write_words g.code_buffer (half i) (assemble xs t);
      at = start + 1 + length (body_nodes xs t);
      symbols = record g.symbols {
        entries = modify (λ (s : Symbol). record s { value = half i }) g.symbols.entries id;
      };
    }

-- Let `code_ptr` stand where `Code_init` puts it, and let the nodes from `start` on be a colon with a symbol,
-- straight-line code of numbers below 2 ^ 32 and one-instruction words, the last of them a plain one, the return,
-- the `;`, and `SST_END`, all inside the buffer, with room for the code. Then `Code_generation` succeeds: the
-- symbol's value is 1, the address of the first word, the words of the reference assembler stand from there on,
-- `code_ptr` is behind them, and nothing else of the code or of the symbols changes.
pub code_generation-definition :
    (id : ℕ) (xs : List Item) (t : SstType) (start : ℕ) (g : Gen)
    → AllSimple xs
    → is_plain t ≡ true
    → g.code_ptr ≡ code_start + 2
    → g.sst_buffer start ≡ sst_node sst_colon (spc id)
    → Loaded g.sst_buffer (start + 1) (body_nodes xs t)
    → (g.sst_buffer (start + 1 + length (body_nodes xs t))).type ≡ sst_end
    → start + 1 + length (body_nodes xs t) ≤ sst_node_max
    → 2 + 2 * length (assemble xs t) ≤ 0x4000
    → code_generation start g ≡ ok (generated id xs t start g)
unfolding code_generation
code_generation-definition id xs t start g s p e colon body end_ fits room =
    let there : (g.code_ptr == 2) ≡ true = ground arith in
    let h : IsDefinition id xs t start g = record {
      simple = s;
      plain = p;
      ptr = e;
      colon = colon;
      body = body;
      end_ = end_;
      fits = fits;
      room = room;
    } in
    rw (there, first-pass id xs t start g h, ◌>>=◌) (second-pass id xs t start g h)
    ∙ ap ok (assembled-generated id xs t start g e)
