-- ===== src/Pipeline/Flow.antt =====
-- From the words of a definition with branches and loops to its code in the chip's memory.

pub mod Run
mod Tests
use mathlib.Core.Path.{subst}
use qlforth.Prelude.{
  ℕ, zero, suc, ◌+◌, ◌≤◌, ◌≡◌, refl, sym, ap, ◌∙◌, arith, true, false, List, [], ◌∷◌, ◌++◌, length,
  update_ne, update_self, length-append, some, get_elem?, ltb, Result, Returns, Returns-ok, ◌>>=◌,
}
use qlforth.Actions.{Forth, on_compiler}
use qlforth.Code.Assembler.{write_words}
use qlforth.Code.Flow.Generation.{code_generation-flow, definition_items, definition_code}
use qlforth.Code.Flow.{width, IsFlow}
use qlforth.Code.{set_value}
use qlforth.Compile.{Compiler, sst_node_max}
use qlforth.Control.Nodes.{Nodes, Nodes-agree}
use qlforth.Control.Steps.{length-layout}
use qlforth.Control.Structure.{Structured, word, then, compile, layout, size, depth, Item, max}
use qlforth.Define.Definition.{Defined, definition-Defined, items_of, new_word, modify-last}
use qlforth.Define.Ends.{cells}
use qlforth.Define.{cfp_colon, cfp_semicolon}
use qlforth.Interpreter.Init.{generate_code, generator}
use qlforth.Opcodes.{is_plain}
use qlforth.Pipeline.{end_node, with_end}
use qlforth.Sst.{SstType, null, spc, sst_colon, sst_ret, sst_semicolon, sst_end}
use qlforth.Symbols.Search.{get_elem?-last}
use qlforth.Symbols.{Name, root_bucket}

-- What the words `:`, a name, structured code, a last word, and `;` do.
abbrev pub define_flow : Name → Structured → SstType → Compiler → Result Compiler
define_flow name s t c =
    cfp_colon (some name) c >>= λ c₁. compile (then s (word t)) c₁ >>= cfp_semicolon

-- What the file leaves in the chip and in the symbol.
pub record FlowPlaced (name : Name) (s : Structured) (t : SstType) (f g : Forth) : Type 0 where
  pub chip : g.chip ≡ record f.chip { ram = write_words (λ i. 0) 1 (definition_code 1 s t) }
  pub symbol :
      get_elem? g.compiler.symbols.entries (length f.compiler.symbols.entries)
      ≡ some (record (new_word name f.compiler) { value = 1 })

max_zero : (n : ℕ) → max n 0 ≡ n
max_zero zero = refl
max_zero (suc n) = refl

append_assoc : (xs : List Item) (x : Item) (ys : List Item) → (xs ++ x ∷ []) ++ ys ≡ xs ++ x ∷ ys
append_assoc [] x ys = refl
append_assoc (z ∷ zs) x ys = ap (λ (r : List Item). z ∷ r) (append_assoc zs x ys)

items_of-last :
    (id start : ℕ) (s : Structured) (t : SstType)
    → items_of id start (then s (word t)) ≡ definition_items id start s t
items_of-last id start s t =
    ap (λ (r : List Item). (sst_colon, spc id) ∷ r)
      (append_assoc (layout (start + 1) s) (t, null) ((sst_ret, null) ∷ (sst_semicolon, null) ∷ []))

generate_code-FlowPlaced :
    (name : Name) (s : Structured) (t : SstType) (f : Forth) (d : Compiler)
    → f.compiler.sst_current ≡ 0
    → Defined name (then s (word t)) f.compiler d
    → IsFlow s
    → is_plain t ≡ true
    → width s + 2 ≤ 0x2000
    → size s + 4 ≤ 65535
    → Returns (FlowPlaced name s t f) (generate_code (record f { compiler = d }))
unfolding generate_code
generate_code-FlowPlaced name s t f d z h flow plain room fits =
    let id = length f.compiler.symbols.entries in
    let current : d.sst_current ≡ size s + 4 = omega (arith, h.current) in
    let e = with_end d in
    let items = items_of id 0 (then s (word t)) in
    let tail : List Item = (sst_ret, null) ∷ (sst_semicolon, null) ∷ [] in
    let long : length items ≡ size s + 4 =
      omega (
        arith,
        length-append (layout 1 (then s (word t))) tail,
        length-layout 1 (then s (word t)),
      ) in
    let nodes =
      Nodes-agree d.sst_buffer e.sst_buffer 0 items
        (λ j p q.
          update_ne d.sst_buffer d.sst_current j (end_node d) (omega (arith, q, long, current)))
        (subst (λ i. Nodes d.sst_buffer i (items_of id i (then s (word t)))) z h.nodes) in
    let last : (e.sst_buffer (0 + size s + 4)).type ≡ sst_end =
      subst (λ j. (e.sst_buffer j).type ≡ sst_end) (omega (arith, current))
        (ap (λ x. x.type) (update_self d.sst_buffer d.sst_current (end_node d))) in
    let small : ltb sst_node_max d.sst_current ≡ false = ground arith in
    let made =
      code_generation-flow id 0 s t e.sst_buffer 0 (λ i. 0) d.symbols flow plain
        (subst (Nodes e.sst_buffer 0) (items_of-last id 0 s t) nodes) last (omega arith) room in
    rw (small, made)
      (record {
        chip = refl;
        symbol =
            rw
              (
                h.entries,
                modify-last (set_value 1) f.compiler.symbols.entries (new_word name f.compiler),
              )
              (get_elem?-last f.compiler.symbols.entries
                (record (new_word name f.compiler) { value = 1 }));
      })

-- The first definition of a file, of one-instruction words under IF, ELSE, ENDIF, BEGIN, UNTIL, WHILE and REPEAT,
-- nested at most 127 deep, and a last plain word, where there is room for its symbol, its nodes and its code: `:`, the
-- name, the code and `;`, and then the generation of code at the end of the file, succeed; the chip's memory is the code
-- from word 1 on, with every branch at its address and the last word with the return in it, and 0 in every other word,
-- the rest of the chip is as before, and the new symbol is a visible word whose value is 1.
pub define_flow-generate_code :
    (name : Name) (s : Structured) (t : SstType) (f : Forth)
    → f.compiler.symbols.current ≡ root_bucket
    → f.compiler.here + cells name + 1 ≤ 1_048_576
    → f.compiler.sst_current ≡ 0
    → IsFlow s
    → is_plain t ≡ true
    → depth s ≤ 127
    → width s + 2 ≤ 0x2000
    → size s + 4 ≤ 65535
    → Returns (FlowPlaced name s t f) (on_compiler (define_flow name s t) f >>= generate_code)
define_flow-generate_code name s t f w h z flow plain deep room fits =
    let c = f.compiler in
    let nested : max (depth s) 0 ≤ 127 = omega (arith, max_zero (depth s)) in
    let (d, e, k) =
      Returns-ok (Defined name (then s (word t)) c) (define_flow name s t c)
        (definition-Defined name (then s (word t)) c w h (omega arith) nested) in
    rw e (generate_code-FlowPlaced name s t f d z k flow plain room fits)
