-- ===== src/Symbols/Frame.antt =====
-- A new symbol changes no search but those for its own name.
use qlforth.Prelude.{
  ℕ, zero, suc, ◌+◌, ◌<◌, ◌≤◌, ◌≡◌, refl, arith, false, Bool-cases, inl, inr, ◌==◌, List, [], ◌∷◌,
  ◌++◌, length, get_elem?, map, update, length-append,
}
use mathlib.Core.Path.{subst}
use qlforth.Functions.{no_function}
use qlforth.Symbols.Search.{get_elem?-last}
use qlforth.Symbols.{
  Name, Symbol, Symbols, Bucket, root_bucket, forth_bucket, working_bucket, qlf_type_command,
  same_name, answers, chain_search, symbol_search, symbol_add, to_upper, hash_bucket, put,
}

abbrev pub AllBelow : ℕ → List ℕ → Type 0
AllBelow n [] = Unit
AllBelow n (id ∷ ids) = (id < n) × AllBelow n ids

abbrev pub Chains : ℕ → (ℕ → List ℕ) → Type 0
Chains n f = (h : ℕ) → AllBelow n (f h)

-- The chains hold symbols of the table.
pub record IsValid (t : Symbols) : Type 0 where
  pub root : Chains (length t.entries) t.root
  pub forth : Chains (length t.entries) t.forth
  pub working : Chains (length t.entries) t.working

AllBelow-suc : (n m : ℕ) (ids : List ℕ) → n ≤ m → AllBelow n ids → AllBelow m ids
AllBelow-suc n m [] l h = tt
AllBelow-suc n m (id ∷ ids) l h = (omega (arith, h.0), AllBelow-suc n m ids l h.1)

get_elem?-before :
    (ss : List Symbol) (s : Symbol) (id : ℕ)
    → id < length ss
    → get_elem? (ss ++ s ∷ []) id ≡ get_elem? ss id
get_elem?-before [] s id l = absurd (omega arith)
get_elem?-before (x ∷ xs) s zero l = refl
get_elem?-before (x ∷ xs) s (suc id) l = get_elem?-before xs s id (omega arith)

module _ (ss : List Symbol) (s : Symbol) (other : Name) where
  pub chain_search-before :
      (ids : List ℕ)
      → AllBelow (length ss) ids
      → chain_search (ss ++ s ∷ []) other ids ≡ chain_search ss other ids
  unfolding chain_search answers
  chain_search-before [] h = refl
  chain_search-before (id ∷ ids) h =
      rw (get_elem?-before ss s id h.0, answers, chain_search-before ids h.1) refl

  module _ (differ : same_name s.name other ≡ false) where
    answers-last : answers (ss ++ s ∷ []) other (length ss) ≡ false
    unfolding answers
    answers-last = elim (Bool-cases s.hidden) [
      | inl e ↦ rw (get_elem?-last ss s, answers, e) refl
      | inr e ↦ rw (get_elem?-last ss s, answers, e, differ) refl
    ]

    -- The chain that the new symbol is put at the head of, or another one.
    chain_search-update :
        (f : ℕ → List ℕ) (h k : ℕ)
        → Chains (length ss) f
        → chain_search (ss ++ s ∷ []) other (update f h (length ss ∷ f h) k)
          ≡ chain_search ss other (f k)
    unfolding chain_search
    chain_search-update f h k c = elim (Bool-cases (h == k)) [
      | inl e ↦
          let same : h ≡ k = ground arith in
          rw (e, answers-last, same) (chain_search-before (f k) (c k))
      | inr e ↦ rw e (chain_search-before (f k) (c k))
    ]

-- The three searches, one after another.
search-same :
    (t u : Symbols) (other : Name)
    → ((h : ℕ)
        → chain_search u.entries other (u.working h) ≡ chain_search t.entries other (t.working h))
    → ((h : ℕ)
        → chain_search u.entries other (u.forth h) ≡ chain_search t.entries other (t.forth h))
    → ((h : ℕ) → chain_search u.entries other (u.root h) ≡ chain_search t.entries other (t.root h))
    → symbol_search u other ≡ symbol_search t other
unfolding symbol_search
search-same t u other w f r =
    rw (w (hash_bucket other), f (hash_bucket other), r (hash_bucket other)) refl

abbrev pub blank_symbol : Name → Symbol
blank_symbol name = record {
  name = map to_upper name;
  type = qlf_type_command;
  hidden = false;
  value = 0;
  fun = no_function;
}

put-search :
    (b : Bucket) (t : Symbols) (name other : Name)
    → IsValid t
    → same_name (map to_upper name) other ≡ false
    → symbol_search
        (put b
          (hash_bucket (map to_upper name))
          (length t.entries)
          (record t { entries = t.entries ++ blank_symbol name ∷ [] }))
        other
      ≡ symbol_search t other
put-search root_bucket t name other v d =
    search-same t
      (put root_bucket (hash_bucket (map to_upper name)) (length t.entries)
        (record t { entries = t.entries ++ blank_symbol name ∷ [] }))
      other
      (λ k. chain_search-before t.entries (blank_symbol name) other (t.working k) (v.working k))
      (λ k. chain_search-before t.entries (blank_symbol name) other (t.forth k) (v.forth k))
      (λ k.
        chain_search-update t.entries (blank_symbol name) other d t.root
          (hash_bucket (map to_upper name)) k v.root)
put-search forth_bucket t name other v d =
    search-same t
      (put forth_bucket (hash_bucket (map to_upper name)) (length t.entries)
        (record t { entries = t.entries ++ blank_symbol name ∷ [] }))
      other
      (λ k. chain_search-before t.entries (blank_symbol name) other (t.working k) (v.working k))
      (λ k.
        chain_search-update t.entries (blank_symbol name) other d t.forth
          (hash_bucket (map to_upper name)) k v.forth)
      (λ k. chain_search-before t.entries (blank_symbol name) other (t.root k) (v.root k))
put-search working_bucket t name other v d =
    search-same t
      (put working_bucket (hash_bucket (map to_upper name)) (length t.entries)
        (record t { entries = t.entries ++ blank_symbol name ∷ [] }))
      other
      (λ k.
        chain_search-update t.entries (blank_symbol name) other d t.working
          (hash_bucket (map to_upper name)) k v.working)
      (λ k. chain_search-before t.entries (blank_symbol name) other (t.forth k) (v.forth k))
      (λ k. chain_search-before t.entries (blank_symbol name) other (t.root k) (v.root k))

-- In a valid table, whatever vocabulary grows, a new symbol leaves the search for every name but its own, which is
-- the given one in upper case, as it was.
pub symbol_add-other :
    (t : Symbols) (name other : Name)
    → IsValid t
    → same_name (map to_upper name) other ≡ false
    → symbol_search (symbol_add t name).0 other ≡ symbol_search t other
unfolding symbol_add
symbol_add-other t name other v d = put-search t.current t name other v d

put-Chains : (n h : ℕ) (f : ℕ → List ℕ) → Chains n f → Chains (n + 1) (update f h (n ∷ f h))
put-Chains n h f c k = elim (Bool-cases (h == k)) [
  | inl e ↦ rw e (omega arith, AllBelow-suc n (n + 1) (f h) (omega arith) (c h))
  | inr e ↦ rw e (AllBelow-suc n (n + 1) (f k) (omega arith) (c k))
]

kept-Chains : (n : ℕ) (f : ℕ → List ℕ) → Chains n f → Chains (n + 1) f
kept-Chains n f c k = AllBelow-suc n (n + 1) (f k) (omega arith) (c k)

put-IsValid :
    (b : Bucket) (h : ℕ) (s : Symbol) (t : Symbols)
    → IsValid t
    → IsValid (put b h (length t.entries) (record t { entries = t.entries ++ s ∷ [] }))
put-IsValid root_bucket h s t v =
    let more : length t.entries + 1 ≡ length (t.entries ++ s ∷ []) =
      omega (arith, length-append t.entries (s ∷ [])) in
    record {
      root =
          subst (λ n. Chains n (update t.root h (length t.entries ∷ t.root h))) more
            (put-Chains (length t.entries) h t.root v.root);
      forth = subst (λ n. Chains n t.forth) more (kept-Chains (length t.entries) t.forth v.forth);
      working =
          subst (λ n. Chains n t.working) more (kept-Chains (length t.entries) t.working v.working);
    }
put-IsValid forth_bucket h s t v =
    let more : length t.entries + 1 ≡ length (t.entries ++ s ∷ []) =
      omega (arith, length-append t.entries (s ∷ [])) in
    record {
      root = subst (λ n. Chains n t.root) more (kept-Chains (length t.entries) t.root v.root);
      forth =
          subst (λ n. Chains n (update t.forth h (length t.entries ∷ t.forth h))) more
            (put-Chains (length t.entries) h t.forth v.forth);
      working =
          subst (λ n. Chains n t.working) more (kept-Chains (length t.entries) t.working v.working);
    }
put-IsValid working_bucket h s t v =
    let more : length t.entries + 1 ≡ length (t.entries ++ s ∷ []) =
      omega (arith, length-append t.entries (s ∷ [])) in
    record {
      root = subst (λ n. Chains n t.root) more (kept-Chains (length t.entries) t.root v.root);
      forth = subst (λ n. Chains n t.forth) more (kept-Chains (length t.entries) t.forth v.forth);
      working =
          subst (λ n. Chains n (update t.working h (length t.entries ∷ t.working h))) more
            (put-Chains (length t.entries) h t.working v.working);
    }

-- Adding a symbol keeps the table valid.
pub symbol_add-IsValid : (t : Symbols) (name : Name) → IsValid t → IsValid (symbol_add t name).0
unfolding symbol_add
symbol_add-IsValid t name v =
    put-IsValid t.current (hash_bucket (map to_upper name)) (blank_symbol name) t v
