-- ===== src/Code/Flow/Resolve.antt =====
-- The second pass of src/code.c over the nodes of structured code: every branch gets the address of its label.
use qlforth.Prelude.{
  ℕ, suc, ◌+◌, ◌*◌, ◌/◌, ◌%◌, ◌<◌, ◌≤◌, ◌≡◌, refl, ◌∙◌, ap, arith, true, ok, List, [], ◌∷◌, length,
  update, update_comm, bit_or_jump, ◌>>=◌,
}
use qlforth.Code.Assembler.{is_simple, write_words, poke_lem}
use qlforth.Code.{Gen, poke, resolve_node, pass, sst_node_max}
use qlforth.Code.Flow.Nodes.{FlowNode, op, label, unless_to, go_to, total}
use qlforth.Code.Flow.Passes.{pass-next}
use qlforth.Code.Flow.Marks.{gen, gen-at, skeleton, simple-not_end}
use qlforth.Opcodes.{opcode}
use qlforth.Sst.{SstType, SstNode, sst_noop, val, sst, sst_label, sst_0_branch, sst_branch, is_end}
use qlforth.Symbols.{Symbols}

-- The word of a branch to the label `j`, with the bits `k` of its instruction.
abbrev pub Goes : (ℕ → SstNode) → ℕ → ℕ → ℕ → Type 0
Goes b k j w = (v : ℕ) × ((b j).operand ≡ val v) × (v < 0x2000) × (w ≡ k + v)

-- The nodes with the words that the two passes make of them.
abbrev pub Linked : (ℕ → SstNode) → ℕ → ℕ → List FlowNode → List ℕ → Type 0
Linked b i a [] [] = Unit
Linked b i a [] (w ∷ ws) = ⊥
Linked b i a (op t ∷ ns) [] = ⊥
Linked b i a (op t ∷ ns) (w ∷ ws) =
    ((b i).type ≡ t) × (is_simple t ≡ true) × (w ≡ opcode t) × Linked b (i + 1) (a + 1) ns ws
Linked b i a (label ∷ ns) ws = ((b i).type ≡ sst_label) × Linked b (i + 1) a ns ws
Linked b i a (unless_to j ∷ ns) [] = ⊥
Linked b i a (unless_to j ∷ ns) (w ∷ ws) =
    ((b i).type ≡ sst_0_branch)
    × ((b i).operand ≡ sst j)
    × ((b i).location ≡ 2 * a)
    × Goes b 0x2000 j w
    × Linked b (i + 1) (a + 1) ns ws
Linked b i a (go_to j ∷ ns) [] = ⊥
Linked b i a (go_to j ∷ ns) (w ∷ ws) =
    ((b i).type ≡ sst_branch)
    × ((b i).operand ≡ sst j)
    × ((b i).location ≡ 2 * a)
    × Goes b 0 j w
    × Linked b (i + 1) (a + 1) ns ws

-- The words of the branches are put into their places.
abbrev pub patch : (ℕ → ℕ) → ℕ → List FlowNode → List ℕ → ℕ → ℕ
patch f a [] ws = f
patch f a (op t ∷ ns) [] = f
patch f a (op t ∷ ns) (w ∷ ws) = patch f (a + 1) ns ws
patch f a (label ∷ ns) ws = patch f a ns ws
patch f a (unless_to j ∷ ns) [] = f
patch f a (unless_to j ∷ ns) (w ∷ ws) = patch (update f a w) (a + 1) ns ws
patch f a (go_to j ∷ ns) [] = f
patch f a (go_to j ∷ ns) (w ∷ ws) = patch (update f a w) (a + 1) ns ws

pub resolve-op : (t : SstType) (g : Gen) → is_simple t ≡ true → resolve_node t g ≡ ok g
unfolding resolve_node
resolve-op sst_noop g s = cc
resolve-op t g s = ground arith

resolve-poke :
    (w p i a : ℕ) (b : ℕ → SstNode) (f : ℕ → ℕ) (y : Symbols)
    → w < 0x10000
    → a < 0x2000
    → poke (2 * a) w (gen p i b f y) ≡ ok (gen p i b (update f a w) y)
resolve-poke w p i a b f y l h =
    let half : 2 * a / 2 ≡ a = omega arith in
    poke_lem (2 * a) w (gen p i b f y) l (omega arith) (omega arith) ∙ λ k.
    ok (gen p i b (update f (half k) w) y)

resolve-unless_to :
    (j w p i a : ℕ) (b : ℕ → SstNode) (f : ℕ → ℕ) (y : Symbols)
    → (b i).operand ≡ sst j
    → (b i).location ≡ 2 * a
    → Goes b 0x2000 j w
    → a < 0x2000
    → resolve_node sst_0_branch (gen p i b f y) ≡ ok (gen p i b (update f a w) y)
unfolding resolve_node
resolve-unless_to j w p i a b f y o l (v, e, m, q) h =
    let low : v % 0x2000 ≡ v = omega arith in
    rw (o, l, ◌>>=◌)
      (rw (e, ◌>>=◌)
        (rw (low, bit_or_jump v m, q) (resolve-poke (0x2000 + v) p i a b f y (omega arith) h)))

resolve-go_to :
    (j w p i a : ℕ) (b : ℕ → SstNode) (f : ℕ → ℕ) (y : Symbols)
    → (b i).operand ≡ sst j
    → (b i).location ≡ 2 * a
    → Goes b 0 j w
    → a < 0x2000
    → resolve_node sst_branch (gen p i b f y) ≡ ok (gen p i b (update f a w) y)
unfolding resolve_node
resolve-go_to j w p i a b f y o l (v, e, m, q) h =
    let low : v % 0x2000 ≡ w = omega arith in
    rw (o, l, ◌>>=◌) (rw (e, ◌>>=◌) (rw low (resolve-poke w p i a b f y (omega arith) h)))

-- The second pass over the nodes.
pub pass-resolve :
    (ns : List FlowNode) (ws : List ℕ) (n p i a : ℕ) (b : ℕ → SstNode) (f : ℕ → ℕ) (y : Symbols)
    → Linked b i a ns ws
    → i + length ns ≤ suc sst_node_max
    → a + total ns ≤ 0x2000
    → pass resolve_node (length ns + n) (gen p i b f y)
      ≡ pass resolve_node n (gen p (i + length ns) b (patch f a ns ws) y)
unfolding is_end
pass-resolve [] ws n p i a b f y h l c =
    let none_left : 0 + n ≡ n = omega arith in
    ap (λ k. pass resolve_node k (gen p i b f y)) none_left
    ∙ ap (pass resolve_node n) (gen-at p p i (i + 0) b f y refl (omega arith))
pass-resolve (op t ∷ ns) [] n p i a b f y h l c = absurd h
pass-resolve (op t ∷ ns) (w ∷ ws) n p i a b f y h l c =
    pass-next resolve_node (length ns) n (gen p i b f y) (gen p i b f y) (omega arith)
      (rw h.0 (simple-not_end t h.1)) (rw h.0 (resolve-op t (gen p i b f y) h.1))
    ∙ pass-resolve ns ws n p (i + 1) (a + 1) b f y h.3 (omega arith) (omega arith)
    ∙ ap (pass resolve_node n) (
        gen-at p p (i + 1 + length ns) (i + suc (length ns)) b (patch f (a + 1) ns ws) y refl
          (omega arith))
pass-resolve (label ∷ ns) ws n p i a b f y h l c =
    pass-next resolve_node (length ns) n (gen p i b f y) (gen p i b f y) (omega arith) (rw h.0 refl)
      (rw h.0 (unfold resolve_node in refl))
    ∙ pass-resolve ns ws n p (i + 1) a b f y h.1 (omega arith) (omega arith)
    ∙ ap (pass resolve_node n) (
        gen-at p p (i + 1 + length ns) (i + suc (length ns)) b (patch f a ns ws) y refl
          (omega arith))
pass-resolve (unless_to j ∷ ns) [] n p i a b f y h l c = absurd h
pass-resolve (unless_to j ∷ ns) (w ∷ ws) n p i a b f y h l c =
    pass-next resolve_node (length ns) n (gen p i b f y) (gen p i b (update f a w) y) (omega arith)
      (rw h.0 refl) (rw h.0 (resolve-unless_to j w p i a b f y h.1 h.2 h.3 (omega arith)))
    ∙ pass-resolve ns ws n p (i + 1) (a + 1) b (update f a w) y h.4 (omega arith) (omega arith)
    ∙ ap (pass resolve_node n) (
        gen-at p p (i + 1 + length ns) (i + suc (length ns)) b (patch (update f a w) (a + 1) ns ws)
          y refl (omega arith))
pass-resolve (go_to j ∷ ns) [] n p i a b f y h l c = absurd h
pass-resolve (go_to j ∷ ns) (w ∷ ws) n p i a b f y h l c =
    pass-next resolve_node (length ns) n (gen p i b f y) (gen p i b (update f a w) y) (omega arith)
      (rw h.0 refl) (rw h.0 (resolve-go_to j w p i a b f y h.1 h.2 h.3 (omega arith)))
    ∙ pass-resolve ns ws n p (i + 1) (a + 1) b (update f a w) y h.4 (omega arith) (omega arith)
    ∙ ap (pass resolve_node n) (
        gen-at p p (i + 1 + length ns) (i + suc (length ns)) b (patch (update f a w) (a + 1) ns ws)
          y refl (omega arith))

-- A word before them may be written later.
skeleton-update :
    (f : ℕ → ℕ) (a c w : ℕ) (ns : List FlowNode)
    → c < a
    → update (skeleton f a ns) c w ≡ skeleton (update f c w) a ns
skeleton-update f a c w [] l = refl
skeleton-update f a c w (op t ∷ ns) l =
    skeleton-update (update f a (opcode t)) (a + 1) c w ns (omega arith)
    ∙ ap (λ g. skeleton g (a + 1) ns) (update_comm f a c (opcode t) w (omega arith))
skeleton-update f a c w (label ∷ ns) l = skeleton-update f a c w ns l
skeleton-update f a c w (unless_to j ∷ ns) l = skeleton-update f (a + 1) c w ns (omega arith)
skeleton-update f a c w (go_to j ∷ ns) l = skeleton-update f (a + 1) c w ns (omega arith)

-- What the passes write together.
pub patch-skeleton :
    (b : ℕ → SstNode) (i : ℕ) (f : ℕ → ℕ) (a : ℕ) (ns : List FlowNode) (ws : List ℕ)
    → Linked b i a ns ws
    → patch (skeleton f a ns) a ns ws ≡ write_words f a ws
patch-skeleton b i f a [] [] h = refl
patch-skeleton b i f a [] (w ∷ ws) h = absurd h
patch-skeleton b i f a (op t ∷ ns) [] h = absurd h
patch-skeleton b i f a (op t ∷ ns) (w ∷ ws) h =
    rw h.2 (patch-skeleton b (i + 1) (update f a (opcode t)) (a + 1) ns ws h.3)
patch-skeleton b i f a (label ∷ ns) ws h = patch-skeleton b (i + 1) f a ns ws h.1
patch-skeleton b i f a (unless_to j ∷ ns) [] h = absurd h
patch-skeleton b i f a (unless_to j ∷ ns) (w ∷ ws) h =
    ap (λ g. patch g (a + 1) ns ws) (skeleton-update f (a + 1) a w ns (omega arith))
    ∙ patch-skeleton b (i + 1) (update f a w) (a + 1) ns ws h.4
patch-skeleton b i f a (go_to j ∷ ns) [] h = absurd h
patch-skeleton b i f a (go_to j ∷ ns) (w ∷ ws) h =
    ap (λ g. patch g (a + 1) ns ws) (skeleton-update f (a + 1) a w ns (omega arith))
    ∙ patch-skeleton b (i + 1) (update f a w) (a + 1) ns ws h.4

-- A word behind them may be written before.
pub patch-update :
    (f : ℕ → ℕ) (a c x : ℕ) (ns : List FlowNode) (ws : List ℕ)
    → a + total ns ≤ c
    → patch (update f c x) a ns ws ≡ update (patch f a ns ws) c x
patch-update f a c x [] ws l = refl
patch-update f a c x (op t ∷ ns) [] l = refl
patch-update f a c x (op t ∷ ns) (w ∷ ws) l = patch-update f (a + 1) c x ns ws (omega arith)
patch-update f a c x (label ∷ ns) ws l = patch-update f a c x ns ws (omega arith)
patch-update f a c x (unless_to j ∷ ns) [] l = refl
patch-update f a c x (unless_to j ∷ ns) (w ∷ ws) l =
    ap (λ g. patch g (a + 1) ns ws) (update_comm f c a x w (omega arith))
    ∙ patch-update (update f a w) (a + 1) c x ns ws (omega arith)
patch-update f a c x (go_to j ∷ ns) [] l = refl
patch-update f a c x (go_to j ∷ ns) (w ∷ ws) l =
    ap (λ g. patch g (a + 1) ns ws) (update_comm f c a x w (omega arith))
    ∙ patch-update (update f a w) (a + 1) c x ns ws (omega arith)
