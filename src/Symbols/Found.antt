-- ===== src/Symbols/Found.antt =====
-- What a search of the symbol table finds after a symbol was added, whatever vocabulary grows.
use qlforth.Prelude.{◌≡◌, arith, refl, ◌==◌, true, none, some, List, [], ◌∷◌, ◌++◌, length, map, ℕ}
use qlforth.Symbols.Frame.{IsValid, chain_search-before, blank_symbol}
use qlforth.Symbols.Search.{answers-new}
use qlforth.Symbols.{
  Name, Symbol, Symbols, Bucket, root_bucket, forth_bucket, working_bucket, chain_search,
  symbol_search, symbol_add, to_upper, hash_bucket, put,
}

-- The vocabularies that are searched before the one that grows have no visible symbol of the name.
abbrev pub NotAhead : Bucket → Symbols → Name → Type 0
NotAhead working_bucket t name = Unit
NotAhead forth_bucket t name = chain_search t.entries name (t.working (hash_bucket name)) ≡ none
NotAhead root_bucket t name =
    (chain_search t.entries name (t.working (hash_bucket name)) ≡ none)
    × (chain_search t.entries name (t.forth (hash_bucket name)) ≡ none)

-- The newest symbol of its chain.
chain_search-head :
    (ss : List Symbol) (name : Name) (ids : List ℕ)
    → chain_search (ss ++ blank_symbol name ∷ []) (map to_upper name) (length ss ∷ ids)
      ≡ some (length ss)
unfolding chain_search
chain_search-head ss name ids = rw (answers-new ss (blank_symbol name) refl) refl

put-found :
    (b : Bucket) (t : Symbols) (name : Name)
    → IsValid t
    → NotAhead b t (map to_upper name)
    → symbol_search
        (put b
          (hash_bucket (map to_upper name))
          (length t.entries)
          (record t { entries = t.entries ++ blank_symbol name ∷ [] }))
        (map to_upper name)
      ≡ some (length t.entries)
unfolding symbol_search
put-found working_bucket t name v a =
    let h = hash_bucket (map to_upper name) in
    let here : (h == h) ≡ true = ground arith in
    rw (here, chain_search-head t.entries name (t.working h)) refl
put-found forth_bucket t name v a =
    let h = hash_bucket (map to_upper name) in
    let here : (h == h) ≡ true = ground arith in
    let before = chain_search-before t.entries (blank_symbol name) (map to_upper name) in
    rw (here, before (t.working h) (v.working h), a, chain_search-head t.entries name (t.forth h))
      refl
put-found root_bucket t name v a =
    let h = hash_bucket (map to_upper name) in
    let here : (h == h) ≡ true = ground arith in
    let before = chain_search-before t.entries (blank_symbol name) (map to_upper name) in
    rw
      (
        here,
        before (t.working h) (v.working h),
        a.0,
        before (t.forth h) (v.forth h),
        a.1,
        chain_search-head t.entries name (t.root h),
      )
      refl

-- In a valid table, whatever vocabulary grows: if those that are searched before it have no visible symbol of the name
-- in upper case, a new symbol is what a search for that name finds. It hides every older symbol of the name, those of
-- its own vocabulary and of the ones behind it.
pub symbol_add-search :
    (t : Symbols) (name : Name)
    → IsValid t
    → NotAhead t.current t (map to_upper name)
    → symbol_search (symbol_add t name).0 (map to_upper name) ≡ some (length t.entries)
unfolding symbol_add
symbol_add-search t name v a = put-found t.current t name v a
