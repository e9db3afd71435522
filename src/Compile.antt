-- ===== src/Compile.antt =====
-- The compiling state of src/qlforth.c and src/forth.c: the buffer of SST nodes, the control stack,
-- the dictionary, and the words of src/compiler.c, each of which appends one node.
use qlforth.Prelude.{
  ℕ, ◌+◌, ◌-◌, ◌/◌, Option, List, [], ◌∷◌, leb, ltb, if◌then◌else◌, Result, ok, error, fault,
  memory_full, out_of_sst_node, update,
}
use Prim.Native.String.{String}
use qlforth.Host.{Vm}
use qlforth.Sst
use qlforth.Sst.{SstType, SstNode, Operand, null, sst_node}
use qlforth.Symbols.{Symbols}

-- `ql4thvm_state`.
pub data State : Type 0 where
  qlf_state_interactive qlf_state_interpret qlf_state_compile qlf_state_macro : State

-- The identifier of an entry of the control stack; `csid_none` is the 0 of cleared memory.
pub data Csid : Type 0 where
  csid_none csid_colon csid_macro csid_if csid_begin csid_while csid_do csid_for : Csid

-- The union of an entry: a node, a place in the dictionary, or what is not yet set.
pub data Link : Type 0 where
  unset : Link
  sst_link pos_link : ℕ → Link

pub record Control : Type 0 where
  pub id : Csid
  pub link : Link

-- The static `Symbol`s of the routines that macros are made of.
pub data Routine : Type 0 where
  symbol_0branch symbol_branch symbol_do_loop symbol_do_exit : Routine
  symbol_do_for_next symbol_do_next symbol_do_literal : Routine

-- A cell of the dictionary: cleared or a number, a pointer to a routine, to a symbol, or to a cell.
pub data Cell : Type 0 where
  ival symbol_cell address : ℕ → Cell
  routine : Routine → Cell

-- `ql4thvm_rp` and the return addresses of running macros (`none` is NULL) are the upper part of `data_stack`.
-- `sst_current`, `here` and the addresses are indices; `cs_ptr` is the index of its entry plus 1, since
-- `;` leaves it in front of the array.
pub record Compiler : Type 0 where
  pub sst_buffer : ℕ → SstNode
  pub sst_current : ℕ
  pub cs_stack : ℕ → Control
  pub cs_ptr : ℕ
  pub dict_buffer : ℕ → Cell
  pub here : ℕ
  pub state : State
  pub this_create_word : Option ℕ
  pub symbols : Symbols
  pub vm : Vm
  pub rp : ℕ
  pub ret_stack : ℕ → Option ℕ

abbrev pub sst_node_max : ℕ
sst_node_max = 65535

-- The buffer has `SST_NODE_MAX + 1` nodes. The new node is at the old `sst_current`; its location is
-- what the record had.
unfoldable pub sst_append : SstType → Operand → Compiler → Result Compiler
sst_append t o c = if ltb sst_node_max c.sst_current then error out_of_sst_node else do
  let n = record (c.sst_buffer c.sst_current) { type = t; operand = o }
  ok (record c {
    sst_buffer = update c.sst_buffer c.sst_current n;
    sst_current = c.sst_current + 1;
  })

-- `node->sst = p`.
unfoldable pub fill_node : ℕ → Operand → Compiler → Compiler
fill_node i o c = record c {
  sst_buffer = update c.sst_buffer i (record (c.sst_buffer i) { operand = o });
}

abbrev pub dict_cells : ℕ
dict_cells = 1_048_576 + 4

-- `*ql4thvm_here++ = x`: there is no test, and behind `dict_buffer` is no memory of the dictionary.
unfoldable pub comma : Cell → Compiler → Result Compiler
comma x c =
    if ltb c.here dict_cells
    then ok (record c { dict_buffer = update c.dict_buffer c.here x; here = c.here + 1 })
    else fault

-- A cell is of 8 bytes; `clear` is the `memset`.
abbrev pub clear : ℕ → ℕ → (ℕ → Cell) → ℕ → Cell
clear at n d p = if leb at p then if ltb p (at + n) then ival 0 else d p else d p

unfoldable pub qlforth_alloc : ℕ → Compiler → Result Compiler
qlforth_alloc size_in_byte c =
    let n = (size_in_byte - 1) / 8 + 1 in
    if ltb 1_048_576 (c.here + n + 1)
    then error memory_full
    else ok (record c { dict_buffer = clear c.here (n + 1) c.dict_buffer; here = c.here + n })

-- The words of the target's own vocabulary, with the node that each appends.
abbrev pub extension_table : List (String × SstType)
extension_table =
    ("-;", Sst.sst_ret)
    ∷ ("NOOP", Sst.sst_noop)
    ∷ ("+", Sst.sst_add)
    ∷ ("XOR", Sst.sst_xor)
    ∷ ("AND", Sst.sst_and)
    ∷ ("OR", Sst.sst_or)
    ∷ ("INVERT", Sst.sst_invert)
    ∷ ("=", Sst.sst_equal)
    ∷ ("<", Sst.sst_lt)
    ∷ ("U<", Sst.sst_u_lt)
    ∷ ("SWAP", Sst.sst_swap)
    ∷ ("DUP", Sst.sst_dup)
    ∷ ("DROP", Sst.sst_drop)
    ∷ ("OVER", Sst.sst_over)
    ∷ ("NIP", Sst.sst_nip)
    ∷ (">R", Sst.sst_to_r)
    ∷ ("R>", Sst.sst_r_from)
    ∷ ("R@", Sst.sst_r_fetch)
    ∷ ("!", Sst.sst_store)
    ∷ ("@", Sst.sst_fetch)
    ∷ ("DSP", Sst.sst_dsp)
    ∷ ("LSHIFT", Sst.sst_lshift)
    ∷ ("RSHIFT", Sst.sst_rshift)
    ∷ ("1-", Sst.sst_1_sub)
    ∷ ("2R>", Sst.sst_2_r_from)
    ∷ ("2>R", Sst.sst_2_to_r)
    ∷ ("2R@", Sst.sst_2_r_fetch)
    ∷ ("UNLOOP", Sst.sst_unloop)
    ∷ ("DUP@", Sst.sst_dup_fetch)
    ∷ ("DUP>R", Sst.sst_dup_to_r)
    ∷ ("2DUPXOR", Sst.sst_2_dup_xor)
    ∷ ("2DUP=", Sst.sst_2_dup_equal)
    ∷ ("!NIP", Sst.sst_store_nip)
    ∷ ("2NIP!", Sst.sst_2_dup_store)
    ∷ ("UP1", Sst.sst_up_1)
    ∷ ("DOWN1", Sst.sst_down_1)
    ∷ ("COPY", Sst.sst_copy)
    ∷ []

-- What the function of such a word does.
unfoldable pub extension_word : SstType → Compiler → Result Compiler
unfolding sst_append
extension_word t c = sst_append t null c
