-- ===== src/Code/Straight.antt =====
-- The first pass over a straight-line definition writes what the reference assembler gives.
use qlforth.Prelude.{
  ℕ, suc, ◌+◌, ◌*◌, ◌/◌, ◌%◌, ◌≤◌, ◌≡◌, refl, sym, ap, ◌∙◌, arith, true, false, Result, ok, List,
  [], ◌∷◌, ◌++◌, length, length-append, ltb, update,
}
use qlforth.Chip.Refines.{folded}
use qlforth.Code.{Gen, node, generate_node, pass, advance, sst_node_max}
use qlforth.Code.Assembler.{
  is_simple, IsSimple, item_node, item_words, emit, write_words, Room, generate-item, generate-last,
}
use qlforth.Machine.Programs.{Item, lit, op}
use qlforth.Opcodes.{is_plain}
use qlforth.Sst.{SstType, SstNode, sst_node, null, sst_noop, sst_ret, sst_semicolon, is_ret, is_end}

-- The nodes of a body whose last word is `t`, and of the `;` behind it.
abbrev pub body_nodes : List Item → SstType → List SstNode
body_nodes [] t = sst_node t null ∷ sst_node sst_ret null ∷ sst_node sst_semicolon null ∷ []
body_nodes (x ∷ xs) t = item_node x ∷ body_nodes xs t

-- The code of such a definition.
abbrev pub assemble : List Item → SstType → List ℕ
assemble [] t = folded t ∷ []
assemble (x ∷ xs) t = item_words x ++ assemble xs t

abbrev pub AllSimple : List Item → Type 0
AllSimple [] = Unit
AllSimple (x ∷ xs) = IsSimple x × AllSimple xs

-- The nodes stand in the buffer from an index on.
abbrev pub Loaded : (ℕ → SstNode) → ℕ → List SstNode → Type 0
Loaded f p [] = Unit
Loaded f p (n ∷ ns) = (f p ≡ n) × Loaded f (p + 1) ns

-- The rounds of the loop that a body takes, with `f` more behind it.
abbrev pub rounds : List Item → ℕ → ℕ
rounds [] f = suc (suc f)
rounds (x ∷ xs) f = suc (rounds xs f)

pub pass-suc :
    (f : SstType → Gen → Result Gen) (n : ℕ) (g g₁ : Gen)
    → g.at ≤ sst_node_max
    → is_end (node g).type ≡ false
    → f (node g).type g ≡ ok g₁
    → pass f (suc n) g ≡ pass f n (advance g₁)
unfolding pass
pass-suc f n g g₁ l e h =
    let below : ltb sst_node_max g.at ≡ false = ground arith in rw (below, e, h)

pub write_words-append :
    (f : ℕ → ℕ) (a : ℕ) (vs ws : List ℕ)
    → write_words f a (vs ++ ws) ≡ write_words (write_words f a vs) (a + length vs) ws
write_words-append f a [] ws = let same : a + 0 ≡ a = omega arith in rw same
write_words-append f a (v ∷ vs) ws =
    let next : a + 1 + length vs ≡ a + suc (length vs) = omega arith in
    write_words-append (update f a v) (a + 1) vs ws
    ∙ ap (λ b. write_words (write_words (update f a v) (a + 1) vs) b ws) next

emit-append :
    (vs ws : List ℕ) (g : Gen) → g.code_ptr % 2 ≡ 0 → emit (vs ++ ws) g ≡ emit ws (emit vs g)
emit-append vs ws g e =
    let index : g.code_ptr / 2 + length vs ≡ (g.code_ptr + 2 * length vs) / 2 = omega arith in
    let ptr : g.code_ptr + 2 * length (vs ++ ws) ≡ g.code_ptr + 2 * length vs + 2 * length ws =
      omega (arith, length-append vs ws) in
    let words =
      write_words-append g.code_buffer (g.code_ptr / 2) vs ws
      ∙ ap (λ b. write_words (write_words g.code_buffer (g.code_ptr / 2) vs) b ws) index in
    λ i. record g { code_buffer = words i; code_ptr = ptr i }

pub assemble_pos : (xs : List Item) (t : SstType) → 1 ≤ length (assemble xs t)
assemble_pos [] t = omega arith
assemble_pos (x ∷ xs) t =
    omega (arith, length-append (item_words x) (assemble xs t), assemble_pos xs t)

pub simple-not_end : (x : Item) → IsSimple x → is_end (item_node x).type ≡ false
unfolding is_end
simple-not_end (lit v) s = refl
simple-not_end (op sst_noop) s = cc
simple-not_end (op t) s = ground arith

item_words-le : (x : Item) → (1 ≤ length (item_words x)) × (length (item_words x) ≤ 2)
item_words-le (lit v) = ground arith
item_words-le (op t) = omega arith

simple-not_ret : (x : Item) → IsSimple x → is_ret (item_node x).type ≡ false
unfolding is_ret
simple-not_ret (lit v) s = refl
simple-not_ret (op sst_noop) s = cc
simple-not_ret (op t) s = ground arith

pub plain-simple : (t : SstType) → is_plain t ≡ true → is_simple t ≡ true
plain-simple t p = rw p

-- The node at the head of a body is no return, so the word before it is not folded.
head-not_ret :
    (xs : List Item) (t : SstType) (f : ℕ → SstNode) (p : ℕ)
    → AllSimple xs
    → is_plain t ≡ true
    → Loaded f p (body_nodes xs t)
    → is_ret (f p).type ≡ false
head-not_ret [] t f p s h l = rw l.0 (simple-not_ret (op t) (plain-simple t h))
head-not_ret (x ∷ xs) t f p s h l = rw l.0 (simple-not_ret x s.0)

-- After the body: the assembler's words, and the node behind the `;`.
abbrev pub after_body : List Item → SstType → Gen → Gen
after_body xs t g = record (emit (assemble xs t) g) { at = g.at + length (body_nodes xs t) }

-- Let the nodes of a straight-line definition stand in the buffer from the current one on: numbers below
-- 2 ^ 32 and one-instruction words, the last of them a plain one, then the return and the `;`. Let `code_ptr` be
-- even and the buffers have room. Then that stretch of the first pass comes out as the state in which the words
-- of the reference assembler are written and the current node is the one behind the `;`.
pub pass-body :
    (xs : List Item) (t : SstType) (f : ℕ) (g : Gen)
    → AllSimple xs
    → is_plain t ≡ true
    → Loaded g.sst_buffer g.at (body_nodes xs t)
    → Room (length (assemble xs t)) g
    → g.at + length (body_nodes xs t) ≤ suc sst_node_max
    → pass generate_node (rounds xs f) g ≡ pass generate_node f (after_body xs t g)
pass-body [] t f g s p l r e =
    let g₁ = emit (folded t ∷ []) (advance g) in
    let skipped : g.at + 1 + 1 + 1 ≡ g.at + 3 = omega arith in
    pass-suc generate_node (suc f) g g₁ (omega arith)
      (rw l.0 (simple-not_end (op t) (plain-simple t p)))
      (rw l.0 (generate-last t g p r (rw l.1.0 (unfold is_ret in refl))))
    ∙ pass-suc generate_node f (advance g₁) (advance g₁) (omega arith)
        (rw l.1.1.0 (unfold is_end in refl)) (rw l.1.1.0 (unfold generate_node in refl))
    ∙ ap (λ a. pass generate_node f (record g₁ { at = a })) skipped
pass-body (x ∷ xs) t f g s p l r e =
    let ws = item_words x in
    let size = length-append ws (assemble xs t) in
    let short : (1 ≤ length ws) × (length ws ≤ 2) = item_words-le x in
    let some_left = assemble_pos xs t in
    let at_end : g.at + 1 + length (body_nodes xs t) ≡ g.at + suc (length (body_nodes xs t)) =
      omega arith in
    let joined = sym (emit-append ws (assemble xs t) g r.0) in
    pass-suc generate_node (rounds xs f) g (emit ws g) (omega arith) (rw l.0 (simple-not_end x s.0))
      (generate-item x g s.0 l.0 (omega arith)
        (head-not_ret xs t g.sst_buffer (g.at + 1) s.1 p l.1))
    ∙ pass-body xs t f (advance (emit ws g)) s.1 p l.1 (omega arith) (omega arith)
    ∙ ap (pass generate_node f) (λ i. record (joined i) { at = at_end i })
