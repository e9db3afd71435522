-- ===== src/Code/Assembler.antt =====
-- A reference assembler for straight-line code, and the words that `generate_node` emits for one
-- node of it.
use qlforth.Prelude.{
  ℕ, ◌+◌, ◌-◌, ◌*◌, ◌/◌, ◌%◌, ◌^◌, ◌≤◌, ◌<◌, ◌≡◌, ◌==◌, ap, ◌∙◌, arith, Bool, true, false, ◌||◌, ok,
  List, [], ◌∷◌, length, if◌then◌else◌, update, lt→ltb, Bool-cases, inl, inr,
}
use qlforth.Chip.Refines.{folded}
use qlforth.Chip.ReturnStack.{is_transfer}
use qlforth.Code.{
  Gen, node, u16, poke, code_word_only, code_with_possible_ret, code_literal, generate_node,
  advance,
}
use qlforth.Machine.Programs.{Item, lit, op}
use qlforth.Opcodes.{opcode, is_plain}
use qlforth.Sst.{SstType, sst_noop, sst_r_from, sst_literal, SstNode, sst_node, null, val, is_ret}

abbrev pub is_simple : SstType → Bool
is_simple t = is_plain t || is_transfer t

abbrev pub IsSimple : Item → Type 0
IsSimple (lit v) = v < 2 ^ 32
IsSimple (op t) = is_simple t ≡ true

abbrev pub item_node : Item → SstNode
item_node (lit v) = sst_node sst_literal (val v)
item_node (op t) = sst_node t null

-- A number below 0x8000 is one literal; any other is the literal of its complement, inverted.
abbrev pub item_words : Item → List ℕ
item_words (lit v) =
    if v / 0x8000 % 2 == 0
    then (0x8000 + v % 0x8000) ∷ []
    else (0x8000 + (2 ^ 32 - 1 - v) % 0x8000) ∷ 0x6600 ∷ []
item_words (op t) = opcode t ∷ []

-- Consecutive words of an array.
abbrev pub write_words : (ℕ → ℕ) → ℕ → List ℕ → ℕ → ℕ
write_words f a [] = f
write_words f a (w ∷ ws) = write_words (update f a w) (a + 1) ws

-- The words are appended at `code_ptr`.
abbrev pub emit : List ℕ → Gen → Gen
emit ws g = record g {
  code_buffer = write_words g.code_buffer (g.code_ptr / 2) ws;
  code_ptr = g.code_ptr + 2 * length ws;
}

-- `code_ptr` is even, and `n` more words fit the buffer.
abbrev pub Room : ℕ → Gen → Type 0
Room n g = (g.code_ptr % 2 ≡ 0) × (g.code_ptr + 2 * n ≤ 0x4000)

pub poke_lem :
    (byte w : ℕ) (g : Gen)
    → w < 0x10000
    → byte % 2 ≡ 0
    → byte < 0x4000
    → poke byte w g ≡ ok (record g { code_buffer = update g.code_buffer (byte / 2) w })
unfolding poke
poke_lem byte w g h e l = let fits : u16 w ≡ w = omega arith in rw (e, lt→ltb byte 0x4000 l, fits)

pub code_word_only-emit :
    (w : ℕ) (g : Gen) → w < 0x10000 → Room 1 g → code_word_only w g ≡ ok (emit (w ∷ []) g)
unfolding code_word_only
code_word_only-emit w g h r = rw (poke_lem g.code_ptr w g h r.0 (omega arith))

-- Without a return behind it.
code_with_possible_ret-emit :
    (w : ℕ) (g : Gen)
    → w < 0x10000
    → Room 1 g
    → is_ret (g.sst_buffer (g.at + 1)).type ≡ false
    → code_with_possible_ret w g ≡ ok (emit (w ∷ []) g)
unfolding code_with_possible_ret
code_with_possible_ret-emit w g h r e = rw e (code_word_only-emit w g h r)

pub generate-op :
    (t : SstType) (g : Gen)
    → is_simple t ≡ true
    → Room 1 g
    → is_ret (g.sst_buffer (g.at + 1)).type ≡ false
    → generate_node t g ≡ ok (emit (opcode t ∷ []) g)
unfolding generate_node
generate-op sst_noop g s r e = cc
generate-op sst_r_from g s r e = code_word_only-emit 0x6B8D g (omega arith) r
generate-op t g s r e = ground (arith, code_with_possible_ret-emit (opcode t) g)

emit_twice :
    (v w : ℕ) (g : Gen) → g.code_ptr % 2 ≡ 0 → emit (w ∷ []) (emit (v ∷ []) g) ≡ emit (v ∷ w ∷ []) g
emit_twice v w g e =
    let p : g.code_ptr + 2 + 2 ≡ g.code_ptr + 4 = omega arith in
    let q : (g.code_ptr + 2) / 2 ≡ g.code_ptr / 2 + 1 = omega arith in
    λ i. record g {
      code_buffer = update (update g.code_buffer (g.code_ptr / 2) v) (q i) w;
      code_ptr = p i;
    }

generate-lit :
    (v : ℕ) (g : Gen)
    → v < 2 ^ 32
    → Room 2 g
    → is_ret (g.sst_buffer (g.at + 1)).type ≡ false
    → code_literal v g ≡ ok (emit (item_words (lit v)) g)
unfolding code_literal
generate-lit v g h r e = elim (Bool-cases (v / 0x8000 % 2 == 0)) [
  | inl z ↦ rw z (code_word_only-emit (0x8000 + v % 0x8000) g (omega arith) (omega arith))
  | inr z ↦ rw z (
      rw (code_word_only-emit (0x8000 + (2 ^ 32 - 1 - v) % 0x8000) g (omega arith) (omega arith)) (
        code_with_possible_ret-emit 0x6600 _ (omega arith) (omega arith) e
        ∙ ap ok (emit_twice _ _ g r.0)))
]

-- One item that no return follows.
pub generate-item :
    (i : Item) (g : Gen)
    → IsSimple i
    → node g ≡ item_node i
    → Room 2 g
    → is_ret (g.sst_buffer (g.at + 1)).type ≡ false
    → generate_node (node g).type g ≡ ok (emit (item_words i) g)
generate-item (op t) g s n r e = rw n (generate-op t g s (omega arith) e)
generate-item (lit v) g s n r e = rw n (unfold generate_node in rw n (generate-lit v g s r e))

-- The last word takes the return behind it into its instruction.
pub generate-last :
    (t : SstType) (g : Gen)
    → is_plain t ≡ true
    → Room 1 g
    → is_ret (g.sst_buffer (g.at + 1)).type ≡ true
    → generate_node t g ≡ ok (emit (folded t ∷ []) (advance g))
unfolding generate_node code_with_possible_ret
generate-last sst_noop g s r e = cc
generate-last t g s r e = ground (arith, code_word_only-emit (folded t) (advance g))
