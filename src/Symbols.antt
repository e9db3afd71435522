-- ===== src/Symbols.antt =====
-- The symbol table of src/qlforth.c: `Symbol` of src/QLForth.h, the hash of a name, the three
-- arrays of buckets, and the search through them. A symbol is known by its number in the order
-- of creation (the address of its record in the dictionary), and a name is a list of bytes.
pub mod Search
pub mod Frame
pub mod Found
mod Tests
use qlforth.Functions.{Function, no_function}
use qlforth.Prelude.{
  ℕ, zero, suc, ◌+◌, ◌-◌, ◌%◌, Bool, true, false, ◌&&◌, not, Option, none, some, List, [], ◌∷◌,
  ◌++◌, leb, ◌==◌, if◌then◌else◌, length, get_elem?, update, map,
}

abbrev pub Name : Type 0
Name = List ℕ

pub data SymbolType : Type 0 where
  qlf_type_command qlf_type_define qlf_type_primitive : SymbolType
  qlf_type_immediate qlf_type_compile qlf_type_word : SymbolType
  qlf_type_variable qlf_type_constant qlf_type_macro : SymbolType

-- `value` is the union of `pname`, `text`, `dfa` and `value`, as the number in `value.ival`.
pub record Symbol : Type 0 where
  pub name : Name
  pub type : SymbolType
  pub hidden : Bool
  pub value : ℕ
  pub fun : Function

-- `current` is one of the three arrays.
pub data Bucket : Type 0 where
  root_bucket forth_bucket working_bucket : Bucket

-- A bucket is the chain of its symbols, the newest first.
pub record Symbols : Type 0 where
  pub entries : List Symbol
  pub root : ℕ → List ℕ
  pub forth : ℕ → List ℕ
  pub working : ℕ → List ℕ
  pub current : Bucket

abbrev pub hash_size : ℕ
hash_size = 127

unfoldable pub sum_bytes : Name → ℕ → ℕ
sum_bytes [] h = h
sum_bytes (b ∷ bs) h = sum_bytes bs ((h + b) % 0x1_0000_0000)

unfoldable pub hash_bucket : Name → ℕ
unfolding sum_bytes
hash_bucket name = sum_bytes name 0 % hash_size

-- `strcmp (a, b) == 0`.
unfoldable pub same_name : Name → Name → Bool
same_name [] [] = true
same_name [] (b ∷ bs) = false
same_name (a ∷ as') [] = false
same_name (a ∷ as') (b ∷ bs) = a == b && same_name as' bs

-- Whether a search for `name` stops at this entry.
unfoldable pub answers : List Symbol → Name → ℕ → Bool
unfolding same_name
answers entries name id = elim (get_elem? entries id) [
  | none ↦ false
  | some spc ↦ not spc.hidden && same_name spc.name name
]

-- The walk along one chain.
unfoldable pub chain_search : List Symbol → Name → List ℕ → Option ℕ
unfolding answers
chain_search entries name [] = none
chain_search entries name (id ∷ chain) =
    if answers entries name id then some id else chain_search entries name chain

abbrev pub or_else {ℓ} : {A : Type ℓ} → Option A → Option A → Option A
or_else none y = y
or_else (some a) y = some a

unfoldable pub qlforth_root_search : Symbols → Name → Option ℕ
unfolding hash_bucket chain_search
qlforth_root_search t name = chain_search t.entries name (t.root (hash_bucket name))

-- `search_order`: the working words, then the target's, then the host's.
unfoldable pub symbol_search : Symbols → Name → Option ℕ
unfolding hash_bucket chain_search
symbol_search t name =
    let h = hash_bucket name in
    or_else (chain_search t.entries name (t.working h))
      (or_else (chain_search t.entries name (t.forth h)) (chain_search t.entries name (t.root h)))

-- `toupper` in the C locale.
unfoldable pub to_upper : ℕ → ℕ
to_upper c = if leb b'a' c && leb c b'z' then c - 32 else c

abbrev pub put : Bucket → ℕ → ℕ → Symbols → Symbols
put root_bucket h id t = record t { root = update t.root h (id ∷ t.root h) }
put forth_bucket h id t = record t { forth = update t.forth h (id ∷ t.forth h) }
put working_bucket h id t = record t { working = update t.working h (id ∷ t.working h) }

-- The new symbol goes to the head of its chain in `current`; its record is cleared memory, so
-- it is a visible command until its creator sets the fields. The space in the dictionary is the
-- caller's concern.
unfoldable pub symbol_add : Symbols → Name → Symbols × ℕ
unfolding hash_bucket to_upper
symbol_add t name =
    let upper = map to_upper name in
    let id = length t.entries in
    let spc : Symbol = record {
      name = upper;
      type = qlf_type_command;
      hidden = false;
      value = 0;
      fun = no_function;
    } in
    (put t.current (hash_bucket upper) id (record t { entries = t.entries ++ spc ∷ [] }), id)

-- A change of one symbol's record.
unfoldable pub modify : (Symbol → Symbol) → List Symbol → ℕ → List Symbol
modify f [] id = []
modify f (s ∷ ss) zero = f s ∷ ss
modify f (s ∷ ss) (suc id) = s ∷ modify f ss id
