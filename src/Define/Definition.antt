-- ===== src/Define/Definition.antt =====
-- A definition from `:` to `;`.
use qlforth.Prelude.{
  ℕ, ◌+◌, ◌≤◌, ◌<◌, ◌≡◌, ◌==◌, ap, refl, arith, true, false, none, some, List, [], ◌∷◌, ◌++◌,
  length, map, ◌>>=◌, Returns, Returns-bind, Returns-ok, Ensures,
}
use mathlib.Core.Path.{subst}
use qlforth.Compile.{Compiler, qlf_state_interpret}
use qlforth.Control.Correct.{compile-Compiled}
use qlforth.Control.Grown.{Grown, Grown-trans, appended, appended-Grown}
use qlforth.Control.Kept.{Keeps, compile-Keeps}
use qlforth.Control.Nodes.{Nodes}
use qlforth.Control.Steps.{Compiled, append-at, length-layout}
use qlforth.Control.Structure.{Structured, Item, compile, layout, size, depth}
use qlforth.Control.{compiling}
use qlforth.Define.{cfp_colon, cfp_semicolon}
use qlforth.Functions.{sst_start, no_function}
use qlforth.Sst.{null, spc, sst_colon, sst_ret, sst_semicolon}
use qlforth.Symbols.Search.{answers-new}
use qlforth.Symbols.{
  Name, Symbol, qlf_type_word, symbol_add, qlforth_root_search, chain_search, hash_bucket, Symbols,
  root_bucket, qlf_type_command, to_upper, modify,
}
use qlforth.Define.Ends.{cells, begun, cfp_colon-ok, ended, cfp_semicolon-ok}

-- The symbol at the end of the table.
pub modify-last :
    (f : Symbol → Symbol) (ss : List Symbol) (s : Symbol)
    → modify f (ss ++ s ∷ []) (length ss) ≡ ss ++ f s ∷ []
unfolding modify
modify-last f [] s = refl
modify-last f (x ∷ xs) s = ap (λ (r : List Symbol). x ∷ r) (modify-last f xs s)

abbrev pub items_of : ℕ → ℕ → Structured → List Item
items_of id i s =
    (sst_colon, spc id) ∷ (layout (i + 1) s ++ (sst_ret, null) ∷ (sst_semicolon, null) ∷ [])

-- What a definition leaves.
pub record Defined (name : Name) (s : Structured) (c d : Compiler) : Type 0 where
  pub state : d.state ≡ qlf_state_interpret
  pub closed : d.cs_ptr ≡ 0
  pub no_word : d.this_create_word ≡ none
  pub current : d.sst_current ≡ c.sst_current + size s + 3
  pub older : (i : ℕ) → i < c.sst_current → d.sst_buffer i ≡ c.sst_buffer i
  pub nodes : Nodes d.sst_buffer c.sst_current (items_of (length c.symbols.entries) c.sst_current s)
  pub entries :
      d.symbols.entries
      ≡ c.symbols.entries
        ++ record {
          name = map to_upper name;
          type = qlf_type_word;
          hidden = false;
          value = 0;
          fun = sst_start c.sst_current;
        }
          ∷ []
  pub found : qlforth_root_search d.symbols (map to_upper name) ≡ some (length c.symbols.entries)

abbrev pub new_word : Name → Compiler → Symbol
new_word name c = record {
  name = map to_upper name;
  type = qlf_type_word;
  hidden = false;
  value = 0;
  fun = sst_start c.sst_current;
}

abbrev revealed : Name → Compiler → Symbols
revealed name c =
    let t = (begun name c).symbols in
    record t {
      entries = modify (λ s. record s { hidden = false }) t.entries (length c.symbols.entries);
    }

revealed-entries :
    (name : Name) (c : Compiler)
    → c.symbols.current ≡ root_bucket
    → (revealed name c).entries ≡ c.symbols.entries ++ new_word name c ∷ []
unfolding symbol_add
revealed-entries name c e =
    let es = c.symbols.entries in
    let blank : Symbol = record (new_word name c) { type = qlf_type_command; fun = no_function } in
    let f : Symbol → Symbol = λ s. record s {
      type = qlf_type_word;
      fun = sst_start c.sst_current;
      value = 0;
      hidden = true;
    } in
    rw (e, modify-last f es blank) (modify-last (λ s. record s { hidden = false }) es (f blank))

revealed-found :
    (name : Name) (c : Compiler)
    → c.symbols.current ≡ root_bucket
    → qlforth_root_search (revealed name c) (map to_upper name) ≡ some (length c.symbols.entries)
unfolding qlforth_root_search chain_search symbol_add
revealed-found name c e =
    let es = c.symbols.entries in
    let upper = map to_upper name in
    let bucket : (hash_bucket upper == hash_bucket upper) ≡ true = ground arith in
    let blank : Symbol = record (new_word name c) { type = qlf_type_command; fun = no_function } in
    let f : Symbol → Symbol = λ s. record s {
      type = qlf_type_word;
      fun = sst_start c.sst_current;
      value = 0;
      hidden = true;
    } in
    rw
      (
        e,
        modify-last f es blank,
        modify-last (λ s. record s { hidden = false }) es (f blank),
        bucket,
        answers-new es (new_word name c) refl,
      )
      refl

-- The names of structured code and of what it compiles to, from the state behind `:`.
body-Kept :
    (s : Structured) (c : Compiler)
    → compiling c ≡ true
    → c.sst_current + size s ≤ 65536
    → c.cs_ptr + depth s ≤ 129
    → Returns
        (λ d. Compiled c (layout c.sst_current s) d × Keeps c.this_create_word c.symbols d)
        (compile s c)
body-Kept s c h l p =
    let (d, e, k) =
      Returns-ok (Compiled c (layout c.sst_current s)) (compile s c) (compile-Compiled s c h l p) in
    rw e (k, subst (Ensures (Keeps c.this_create_word c.symbols)) e (compile-Keeps s c))

-- The state behind `:`, but for the node.
abbrev before : Name → Compiler → Compiler
before name c = record (begun name c) { sst_buffer = c.sst_buffer; sst_current = c.sst_current }

ended-Defined :
    (name : Name) (s : Structured) (c d : Compiler)
    → c.symbols.current ≡ root_bucket
    → Grown 2 (begun name c) (layout (c.sst_current + 1) s) d
    → d.symbols ≡ (begun name c).symbols
    → Defined name s c (ended (length c.symbols.entries) d)
unfolding symbol_add
ended-Defined name s c d w g k =
    let n = length-layout (c.sst_current + 1) s in
    let id = length c.symbols.entries in
    let start = appended-Grown 2 sst_colon (spc id) (before name c) in
    let all =
      Grown-trans 2 2 (before name c) (begun name c)
        (appended sst_semicolon null (appended sst_ret null d)) ((sst_colon, spc id) ∷ [])
        (layout (c.sst_current + 1) s ++ (sst_ret, null) ∷ (sst_semicolon, null) ∷ []) (omega arith)
        start
        (Grown-trans 2 2 (begun name c) d (appended sst_semicolon null (appended sst_ret null d))
          (layout (c.sst_current + 1) s) ((sst_ret, null) ∷ (sst_semicolon, null) ∷ [])
          (omega arith) g
          (append-at 2 d (appended sst_ret null d) ((sst_ret, null) ∷ []) sst_semicolon null
            (appended-Grown 2 sst_ret null d))) in
    record {
      state = refl;
      closed = refl;
      no_word = refl;
      current = omega (arith, g.current, n);
      older = all.older;
      nodes = all.nodes;
      entries = rw k (revealed-entries name c w);
      found = rw k (revealed-found name c w);
    }

-- While the root vocabulary grows, as it does when a file is loaded, and where the dictionary has room for the
-- symbol, the SST buffer for the nodes and the control stack for the depth, `:` with a name, structured code and `;`
-- succeed. The nodes between the end of the SST before and after are COLON of the new symbol, the layout of the code
-- with its branches at their labels, RET and SEMICOLON; the nodes before stay; the new symbol, at the end of the
-- table, is a visible word that starts at those nodes, and the search of the root vocabulary for its name in upper
-- case finds it; the interpret state is back.
pub definition-Defined :
    (name : Name) (s : Structured) (c : Compiler)
    → c.symbols.current ≡ root_bucket
    → c.here + cells name + 1 ≤ 1_048_576
    → c.sst_current + size s + 3 ≤ 65536
    → depth s ≤ 127
    → Returns (Defined name s c) (cfp_colon (some name) c >>= λ c₁. compile s c₁ >>= cfp_semicolon)
unfolding symbol_add
definition-Defined name s c w h l p =
    let id = length c.symbols.entries in
    let b = begun name c in
    rw (cfp_colon-ok name c h (omega arith)) (
      Returns-bind
        (λ d. Compiled b (layout b.sst_current s) d × Keeps b.this_create_word b.symbols d)
        (Defined name s c) (compile s b) cfp_semicolon
        (body-Kept s b (unfold compiling in refl) (omega arith) (omega arith))
        (λ d q.
          let g = q.0.1 in
          rw
            (cfp_semicolon-ok id d q.0.0 (ap (λ x. x.id) (g.entries 0 (omega arith))) g.state q.1.0
              (omega (arith, g.current, length-layout b.sst_current s)))
            (ended-Defined name s c d w g q.1.1)))
