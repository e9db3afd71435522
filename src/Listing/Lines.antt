-- ===== src/Listing/Lines.antt =====
-- The listing of a definition, against its nodes.
use mathlib.Core.Path.{subst}
use qlforth.Prelude.{
  ℕ, suc, ◌+◌, ◌-◌, ◌≤◌, ◌≡◌, refl, ap, ◌∙◌, arith, true, false, some, List, [], ◌∷◌, ◌++◌, length,
  map, get_elem?, Result, ok, ◌>>=◌, ltb, length-append,
}
use qlforth.Code.Assembler.{is_simple}
use qlforth.Code.Flow.Nodes.{
  FlowNode, op, label, unless_to, go_to, item_of, Simple, flow_nodes, flow_nodes-Simple,
  layout-flow_nodes, length-flow_nodes,
}
use qlforth.Code.Flow.{IsFlow}
use qlforth.Code.{sst_node_max}
use qlforth.Compile.{Compiler}
use qlforth.Control.Nodes.{Nodes}
use qlforth.Control.Steps.{length-layout}
use qlforth.Control.Structure.{Structured, Item, size}
use qlforth.Define.Definition.{Defined, items_of, new_word}
use qlforth.Listing.{node_line, labelled, is_semicolon, list_loop, sst_list}
use qlforth.Output.{Output, chars, hex8, hex4, letters}
use qlforth.Sst.{
  SstType, SstNode, null, spc, sst_colon, sst_ret, sst_semicolon, sst_add, sst_xor, sst_and, sst_or,
  sst_invert, sst_equal, sst_lt, sst_u_lt, sst_swap, sst_dup, sst_drop, sst_over, sst_nip, sst_to_r,
  sst_r_from, sst_r_fetch, sst_lshift, sst_rshift, sst_1_sub, sst_dup_fetch, sst_dup_to_r,
  sst_2_dup_equal, sst_store_nip, sst_2_dup_store, sst_down_1, sst_copy, sst_fetch, sst_for,
}
use qlforth.Symbols.Search.{get_elem?-last}
use qlforth.Symbols.{Name, Symbols, to_upper}

-- A line for each item, the first one with the index `i`.
abbrev pub lines_of : Symbols → ℕ → List Item → Result Output
lines_of y i [] = ok []
lines_of y i ((t, o) ∷ ns) = do
  line ← node_line y t o
  more ← lines_of y (i + 1) ns
  ok (labelled i line ++ more)

abbrev NoSemicolon : List Item → Type 0
NoSemicolon [] = Unit
NoSemicolon ((t, o) ∷ ns) = (is_semicolon t ≡ false) × NoSemicolon ns

list_loop-lines :
    (y : Symbols) (b : ℕ → SstNode) (ns : List Item) (rounds i : ℕ)
    → Nodes b i (ns ++ (sst_semicolon, null) ∷ [])
    → NoSemicolon ns
    → i + length ns ≤ sst_node_max
    → list_loop y b (length ns + suc rounds) i ≡ lines_of y i ns
unfolding list_loop is_semicolon
list_loop-lines y b [] rounds i h s l =
    let more : 0 + suc rounds ≡ suc rounds = omega arith in
    let below : ltb sst_node_max i ≡ false = ground arith in rw more (rw (below, h.0) refl)
list_loop-lines y b ((t, o) ∷ ns) rounds i h s l =
    let more : suc (length ns) + suc rounds ≡ suc (length ns + suc rounds) = omega arith in
    let below : ltb sst_node_max i ≡ false = ground arith in
    rw more
      (rw (below, h.0, h.1, s.0, list_loop-lines y b ns rounds (i + 1) h.2 s.1 (omega arith)) refl)

-- The lines of the words of one instruction. `2NIP!` is shown as `2dup!`.
abbrev pub word_line : SstType → Output
word_line sst_add = chars "+" ∷ chars "\n" ∷ []
word_line sst_xor = chars "xor" ∷ chars "\n" ∷ []
word_line sst_and = chars "and" ∷ chars "\n" ∷ []
word_line sst_or = chars "or" ∷ chars "\n" ∷ []
word_line sst_invert = chars "invert" ∷ chars "\n" ∷ []
word_line sst_equal = chars "=" ∷ chars "\n" ∷ []
word_line sst_lt = chars "<" ∷ chars "\n" ∷ []
word_line sst_u_lt = chars "u<" ∷ chars "\n" ∷ []
word_line sst_swap = chars "swap" ∷ chars "\n" ∷ []
word_line sst_dup = chars "dup" ∷ chars "\n" ∷ []
word_line sst_drop = chars "drop" ∷ chars "\n" ∷ []
word_line sst_over = chars "over" ∷ chars "\n" ∷ []
word_line sst_nip = chars "nip" ∷ chars "\n" ∷ []
word_line sst_to_r = chars ">r" ∷ chars "\n" ∷ []
word_line sst_r_from = chars "r>" ∷ chars "\n" ∷ []
word_line sst_r_fetch = chars "r@" ∷ chars "\n" ∷ []
word_line sst_lshift = chars "lshift" ∷ chars "\n" ∷ []
word_line sst_rshift = chars "rshift" ∷ chars "\n" ∷ []
word_line sst_1_sub = chars "1-" ∷ chars "\n" ∷ []
word_line sst_dup_fetch = chars "dup@" ∷ chars "\n" ∷ []
word_line sst_dup_to_r = chars "dup>r" ∷ chars "\n" ∷ []
word_line sst_2_dup_equal = chars "2dup=" ∷ chars "\n" ∷ []
word_line sst_store_nip = chars "!nip" ∷ chars "\n" ∷ []
word_line sst_2_dup_store = chars "2dup!" ∷ chars "\n" ∷ []
word_line sst_down_1 = chars "DOWN1" ∷ chars "\n" ∷ []
word_line sst_copy = chars "COPY" ∷ chars "\n" ∷ []
word_line sst_fetch = chars "@\n" ∷ []
word_line sst_for = chars "FOR\n" ∷ []
word_line _ = []

abbrev pub flow_line : FlowNode → Output
flow_line (op t) = word_line t
flow_line label = chars "LABEL @ L_" ∷ hex8 0 ∷ chars "\n" ∷ []
flow_line (unless_to j) = chars "ZERO BRANCH \tL_" ∷ hex8 j ∷ chars "\n" ∷ []
flow_line (go_to j) = chars "BRANCH \t\tL_" ∷ hex8 j ∷ chars "\n" ∷ []

-- The lines of the nodes of structured code, and the rest behind them.
abbrev pub flow_lines : ℕ → List FlowNode → Output → Output
flow_lines i [] rest = rest
flow_lines i (n ∷ ns) rest = labelled i (flow_line n) ++ flow_lines (i + 1) ns rest

node_line-word :
    (y : Symbols) (t : SstType) → is_simple t ≡ true → node_line y t null ≡ ok (word_line t)
unfolding node_line
node_line-word y t h = ground arith

lines_of-flow :
    (y : Symbols) (i : ℕ) (ns : List FlowNode) (items : List Item) (rest : Output)
    → Simple ns
    → lines_of y (i + length ns) items ≡ ok rest
    → lines_of y i (map item_of ns ++ items) ≡ ok (flow_lines i ns rest)
unfolding node_line
lines_of-flow y i [] items rest s e =
    let same : i + 0 ≡ i = omega arith in subst (λ j. lines_of y j items ≡ ok rest) same e
lines_of-flow y i (op t ∷ ns) items rest s e =
    let next : i + suc (length ns) ≡ i + 1 + length ns = omega arith in
    let e' = subst (λ j. lines_of y j items ≡ ok rest) next e in
    rw (node_line-word y t s.0, lines_of-flow y (i + 1) ns items rest s.1 e') refl
lines_of-flow y i (label ∷ ns) items rest s e =
    let next : i + suc (length ns) ≡ i + 1 + length ns = omega arith in
    let e' = subst (λ j. lines_of y j items ≡ ok rest) next e in
    rw (lines_of-flow y (i + 1) ns items rest s e') refl
lines_of-flow y i (unless_to j ∷ ns) items rest s e =
    let next : i + suc (length ns) ≡ i + 1 + length ns = omega arith in
    let e' = subst (λ j. lines_of y j items ≡ ok rest) next e in
    rw (lines_of-flow y (i + 1) ns items rest s e') refl
lines_of-flow y i (go_to j ∷ ns) items rest s e =
    let next : i + suc (length ns) ≡ i + 1 + length ns = omega arith in
    let e' = subst (λ j. lines_of y j items ≡ ok rest) next e in
    rw (lines_of-flow y (i + 1) ns items rest s e') refl

no_semicolon :
    (ns : List FlowNode) → Simple ns → NoSemicolon (map item_of ns ++ (sst_ret, null) ∷ [])
unfolding is_semicolon
no_semicolon [] s = (refl, tt)
no_semicolon (op t ∷ ns) s = (not_semicolon t s.0, no_semicolon ns s.1)
  where
    not_semicolon : (u : SstType) → is_simple u ≡ true → is_semicolon u ≡ false
    not_semicolon u h = ground arith
no_semicolon (label ∷ ns) s = (refl, no_semicolon ns s)
no_semicolon (unless_to j ∷ ns) s = (refl, no_semicolon ns s)
no_semicolon (go_to j ∷ ns) s = (refl, no_semicolon ns s)

append_assoc : (xs ys zs : List Item) → xs ++ (ys ++ zs) ≡ (xs ++ ys) ++ zs
append_assoc [] ys zs = refl
append_assoc (x ∷ xs) ys zs = ap (λ (r : List Item). x ∷ r) (append_assoc xs ys zs)

-- The whole listing: the name, the nodes of the code, and the return.
abbrev pub definition_lines : Name → ℕ → Structured → Output
definition_lines name i s =
    labelled i
      (chars " ...... " ∷ letters name ∷ chars " ( 0x" ∷ hex4 0 ∷ chars " ) .......\n" ∷ [])
    ++ flow_lines (i + 1) (flow_nodes (i + 1) s) (labelled (i + 1 + size s) (chars "RETURN\n" ∷ []))

-- Let a definition of one-instruction words, IF, ELSE, ENDIF, BEGIN, UNTIL, WHILE and REPEAT have left its nodes and its
-- symbol, in a buffer that has room for them, and let no code be generated for them yet. Then the listing of the SST
-- from its first node is: the name in upper case with the value 0, a line for every node of the layout of the code, each
-- with its index, a word with its name, a label with the location 0, a branch with the index of its label, and the
-- return; it ends at the `;`, which it does not list.
pub sst_list-definition :
    (name : Name) (s : Structured) (c d : Compiler)
    → Defined name s c d
    → IsFlow s
    → c.sst_current + size s + 2 ≤ 65535
    → sst_list c.sst_current d.sst_buffer d.symbols
      ≡ ok (definition_lines (map to_upper name) c.sst_current s)
unfolding sst_list node_line is_semicolon
sst_list-definition name s c d h flow l =
    let i = c.sst_current in
    let id = length c.symbols.entries in
    let ns = flow_nodes (i + 1) s in
    let items = map item_of ns ++ (sst_ret, null) ∷ [] in
    let long = length-flow_nodes (i + 1) s flow in
    let simple = flow_nodes-Simple (i + 1) s flow in
    let all : List Item = (sst_colon, spc id) ∷ items in
    let tail : List Item = (sst_ret, null) ∷ [] in
    let behind : List Item = (sst_semicolon, null) ∷ [] in
    let same : items_of id i s ≡ all ++ behind =
      ap (λ (r : List Item). (sst_colon, spc id) ∷ (r ++ (sst_ret, null) ∷ behind))
        (layout-flow_nodes (i + 1) s flow)
      ∙ ap (λ (r : List Item). (sst_colon, spc id) ∷ r)
          (append_assoc (map item_of ns) tail behind) in
    let size_all : length all ≡ size s + 2 = omega (
      arith,
      length-append (map item_of ns) tail,
      ap length (layout-flow_nodes (i + 1) s flow),
      length-layout (i + 1) s,
    ) in
    let rounds = 65533 - size s in
    let n : 65536 ≡ length all + suc rounds = omega (arith, l, size_all) in
    let symbol : get_elem? d.symbols.entries id ≡ some (new_word name c) =
      rw h.entries (get_elem?-last c.symbols.entries (new_word name c)) in
    let ret : lines_of d.symbols (i + 1 + length ns) tail
        ≡ ok (labelled (i + 1 + size s) (chars "RETURN\n" ∷ [])) =
      rw long refl in
    ap (λ k. list_loop d.symbols d.sst_buffer k i) n
    ∙ list_loop-lines d.symbols d.sst_buffer all rounds i
        (subst (Nodes d.sst_buffer i) same h.nodes) (refl, no_semicolon ns simple)
        (omega (arith, l, size_all))
    ∙ rw
        (
          symbol,
          lines_of-flow d.symbols (i + 1) ns tail
              (labelled (i + 1 + size s) (chars "RETURN\n" ∷ [])) simple ret,
        )
        refl
