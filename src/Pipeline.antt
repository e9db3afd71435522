-- ===== src/Pipeline.antt =====
-- From the words of a text to the code in the chip's memory: the defining words of src/forth.c, the words of
-- src/compiler.c, and the generator of src/code.c, as `QLForth_init` of src/qlforth.c composes them.
pub mod Load
pub mod Run
pub mod Valid
pub mod Flow
mod Tests
use qlforth.Prelude.{
  ℕ, suc, ◌+◌, ◌*◌, ◌≤◌, ◌≡◌, ◌==◌, refl, ap, ◌∙◌, arith, true, false, Bool-cases, inl, inr, List,
  [], ◌∷◌, ◌++◌, length, map, update, update_ne, update_self, length-append, some, get_elem?, ltb,
  Result, ok, Returns, Returns-bind, Returns-ok, Ensures, Ensures-bind, ◌>>=◌,
}
use mathlib.Core.Path.{subst}
use qlforth.Compile.{Compiler, sst_append, extension_word, qlforth_alloc, sst_node_max}
use qlforth.Control.Grown.{appended}
use qlforth.Control.Nodes.{Nodes, Nodes-agree}
use qlforth.Control.Steps.{length-layout}
use qlforth.Control.Structure.{Structured, word, then, compile, layout, size, depth, Item}
use qlforth.Actions.{Forth, on_compiler}
use qlforth.Code.Assembler.{write_words}
use qlforth.Code.Generation.{code_generation-definition}
use qlforth.Define.Definition.{Defined, definition-Defined, items_of, new_word, modify-last}
use qlforth.Define.Ends.{cells}
use qlforth.Interpreter.Init.{generate_code, generator}
use qlforth.Opcodes.{is_plain}
use qlforth.Define.{cfp_colon, cfp_semicolon, add_word}
use qlforth.Code.{set_value, define}
use qlforth.Symbols.Search.{get_elem?-last}
use qlforth.Symbols.{Name, root_bucket}
use qlforth.Machine.Programs.{op}
use qlforth.Code.Straight.{Loaded, body_nodes, assemble, AllSimple}
use qlforth.Sst.{
  SstType, SstNode, Operand, null, sst_ret, sst_semicolon, sst_node, sst_colon, sst_end, spc,
}

-- Words one after another.
abbrev pub straight : List SstType → SstType → Structured
straight [] t = word t
straight (o ∷ os) t = then (word o) (straight os t)

-- What the words `:`, a name, the words, and `;` do.
abbrev pub define_word : Name → List SstType → SstType → Compiler → Result Compiler
define_word name os t c =
    cfp_colon (some name) c >>= λ c₁. compile (straight os t) c₁ >>= cfp_semicolon

-- A node that has no location yet.
abbrev pub Unplaced : ℕ → Compiler → Type 0
Unplaced i c = (c.sst_buffer i).location ≡ 0

-- No node of the buffer has a location yet.
abbrev pub Fresh : (ℕ → SstNode) → Type 0
Fresh b = (i : ℕ) → (b i).location ≡ 0

module _ (i : ℕ) where
  cfp_colon-Unplaced :
      (name : Name) (c : Compiler) → Unplaced i c → Ensures (Unplaced i) (cfp_colon (some name) c)
  unfolding cfp_colon add_word qlforth_alloc sst_append
  cfp_colon-Unplaced name c h = ground arith

  cfp_semicolon-Unplaced : (c : Compiler) → Unplaced i c → Ensures (Unplaced i) (cfp_semicolon c)
  unfolding cfp_semicolon sst_append
  cfp_semicolon-Unplaced c h = ground arith

  word-Unplaced :
      (t : SstType) (c : Compiler) → Unplaced i c → Ensures (Unplaced i) (compile (word t) c)
  unfolding compile extension_word sst_append
  word-Unplaced t c h = ground arith

  straight-Unplaced :
      (os : List SstType) (t : SstType) (c : Compiler)
      → Unplaced i c
      → Ensures (Unplaced i) (compile (straight os t) c)
  unfolding compile
  straight-Unplaced [] t c h = word-Unplaced t c h
  straight-Unplaced (o ∷ os) t c h =
      Ensures-bind (Unplaced i) (Unplaced i) (compile (word o) c) (compile (straight os t))
        (word-Unplaced o c h) (straight-Unplaced os t)

  definition-Unplaced :
      (name : Name) (os : List SstType) (t : SstType) (c : Compiler)
      → Unplaced i c
      → Ensures (Unplaced i) (define_word name os t c)
  definition-Unplaced name os t c h =
      Ensures-bind (Unplaced i) (Unplaced i) (cfp_colon (some name) c)
        (λ c₁. compile (straight os t) c₁ >>= cfp_semicolon) (cfp_colon-Unplaced name c h)
        (λ c₁ h₁.
          Ensures-bind (Unplaced i) (Unplaced i) (compile (straight os t) c₁) cfp_semicolon
            (straight-Unplaced os t c₁ h₁) cfp_semicolon-Unplaced)

node-eta :
    (n : SstNode) (t : SstType) (o : Operand)
    → n.location ≡ 0
    → n.type ≡ t
    → n.operand ≡ o
    → n ≡ sst_node t o
node-eta n t o l e p = λ i. record { location = l i; operand = p i; type = e i }

Nodes-Loaded :
    (b : ℕ → SstNode) (i j : ℕ) (os : List SstType) (t : SstType)
    → Fresh b
    → Nodes b i (layout j (straight os t) ++ (sst_ret, null) ∷ (sst_semicolon, null) ∷ [])
    → Loaded b i (body_nodes (map op os) t)
Nodes-Loaded b i j [] t f n = (
  node-eta (b i) t null (f i) n.0 n.1,
  (
    node-eta (b (i + 1)) sst_ret null (f (i + 1)) n.2.0 n.2.1,
    (node-eta (b (i + 1 + 1)) sst_semicolon null (f (i + 1 + 1)) n.2.2.0 n.2.2.1, tt),
  ),
)
Nodes-Loaded b i j (o ∷ os) t f n =
    (node-eta (b i) o null (f i) n.0 n.1, Nodes-Loaded b (i + 1) (j + 1) os t f n.2)

size-straight : (os : List SstType) (t : SstType) → size (straight os t) ≡ length os + 1
size-straight [] t = refl
size-straight (o ∷ os) t = omega (arith, size-straight os t)

depth-straight : (os : List SstType) (t : SstType) → depth (straight os t) ≡ 0
depth-straight [] t = refl
depth-straight (o ∷ os) t = depth-straight os t

length-body_nodes :
    (os : List SstType) (t : SstType) → length (body_nodes (map op os) t) ≡ length os + 3
length-body_nodes [] t = refl
length-body_nodes (o ∷ os) t = omega (arith, length-body_nodes os t)

-- The nodes with `SST_END` behind them.
abbrev pub end_node : Compiler → SstNode
end_node d = record (d.sst_buffer d.sst_current) { type = sst_end }

abbrev pub with_end : Compiler → Compiler
with_end d = record d { sst_buffer = update d.sst_buffer d.sst_current (end_node d) }

with_end-Fresh : (d : Compiler) → Fresh d.sst_buffer → Fresh (with_end d).sst_buffer
with_end-Fresh d h i = elim (Bool-cases (d.sst_current == i)) [
  | inl e ↦ rw e (h d.sst_current)
  | inr e ↦ rw e (h i)
]

-- What the file leaves in the chip and in the symbol.
pub record Placed (name : Name) (os : List SstType) (t : SstType) (f g : Forth) : Type 0 where
  pub chip : g.chip ≡ record f.chip { ram = write_words (λ i. 0) 1 (assemble (map op os) t) }
  pub symbol :
      get_elem? g.compiler.symbols.entries (length f.compiler.symbols.entries)
      ≡ some (record (new_word name f.compiler) { value = 1 })

generate_code-Placed :
    (name : Name) (os : List SstType) (t : SstType) (f : Forth) (d : Compiler)
    → f.compiler.sst_current ≡ 0
    → Fresh d.sst_buffer
    → Defined name (straight os t) f.compiler d
    → AllSimple (map op os)
    → is_plain t ≡ true
    → 2 + 2 * length (assemble (map op os) t) ≤ 0x4000
    → length os ≤ 65000
    → Returns (Placed name os t f) (generate_code (record f { compiler = d }))
unfolding generate_code define
generate_code-Placed name os t f d z fresh h s p room l =
    let id = length f.compiler.symbols.entries in
    let xs = map op os in
    let current : d.sst_current ≡ length os + 4 = omega (arith, h.current, size-straight os t) in
    let body = length-body_nodes os t in
    let e = with_end d in
    let all = items_of id 0 (straight os t) in
    let tail : List Item = (sst_ret, null) ∷ (sst_semicolon, null) ∷ [] in
    let long : length all ≡ length os + 4 = omega (
      arith,
      length-append (layout 1 (straight os t)) tail,
      length-layout 1 (straight os t),
      size-straight os t,
    ) in
    let nodes =
      Nodes-agree d.sst_buffer e.sst_buffer 0 all
        (λ j p q.
          update_ne d.sst_buffer d.sst_current j (end_node d) (omega (arith, q, long, current)))
        (subst (λ i. Nodes d.sst_buffer i (items_of id i (straight os t))) z h.nodes) in
    let colon : e.sst_buffer 0 ≡ sst_node sst_colon (spc id) =
      node-eta (e.sst_buffer 0) sst_colon (spc id) (with_end-Fresh d fresh 0) nodes.0 nodes.1 in
    let last : (e.sst_buffer (0 + 1 + length (body_nodes xs t))).type ≡ sst_end =
      subst (λ j. (e.sst_buffer j).type ≡ sst_end) (omega (arith, current, body))
        (ap (λ x. x.type) (update_self d.sst_buffer d.sst_current (end_node d))) in
    let small : ltb sst_node_max d.sst_current ≡ false = ground arith in
    let made =
      code_generation-definition id xs t 0 (generator e) s p refl colon
        (Nodes-Loaded e.sst_buffer 1 1 os t (with_end-Fresh d fresh) nodes.2) last (omega arith)
        room in
    rw (small, made)
      (record {
        chip = refl;
        symbol =
            rw
              (
                h.entries,
                modify-last (set_value 1) f.compiler.symbols.entries (new_word name f.compiler),
              )
              (get_elem?-last f.compiler.symbols.entries
                (record (new_word name f.compiler) { value = 1 }));
      })

-- The first definition of a file, of words that are one instruction each, the last of them a plain one, where there is
-- room for its symbol, its nodes and its code: `:`, the name, the words and `;`, and then the generation of code at
-- the end of the file, succeed; the chip's memory is the code of the reference assembler from word 1 on, with 0 in every
-- other word, the rest of the chip is as before, and the new symbol is a visible word whose value is that address.
pub define_word-generate_code :
    (name : Name) (os : List SstType) (t : SstType) (f : Forth)
    → f.compiler.symbols.current ≡ root_bucket
    → f.compiler.here + cells name + 1 ≤ 1_048_576
    → f.compiler.sst_current ≡ 0
    → Fresh f.compiler.sst_buffer
    → AllSimple (map op os)
    → is_plain t ≡ true
    → 2 + 2 * length (assemble (map op os) t) ≤ 0x4000
    → length os ≤ 65000
    → Returns (Placed name os t f) (on_compiler (define_word name os t) f >>= generate_code)
define_word-generate_code name os t f w h z fresh s p room l =
    let c = f.compiler in
    let (d, e, k) = Returns-ok (Defined name (straight os t) c) (define_word name os t c) (
      definition-Defined name (straight os t) c w h (omega (arith, size-straight os t))
        (omega (arith, depth-straight os t))) in
    let unplaced : Fresh d.sst_buffer =
      λ i. subst (Ensures (Unplaced i)) e (definition-Unplaced i name os t c (fresh i)) in
    rw e (generate_code-Placed name os t f d z unplaced k s p room l)
