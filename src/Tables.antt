-- ===== src/Tables.antt =====
-- The tables of src/forth.c and src/qlforth.c from which the vocabularies are filled, and the symbols that
-- `QLForth_init` makes of them. `QLForth_init`'s tables of immediate and primitive words are empty.
use Prim.Native.String.{String}
use qlforth.Prelude.{List, [], ◌∷◌, Result, ok, ◌>>=◌}
use qlforth.Code.{bytes}
use qlforth.Compile.{Compiler, extension_table}
use qlforth.Define.{add_word, set_symbol}
use qlforth.Functions.{
  Function, command, defining, primitive, float, immediate, extension, forth_make, forth_quit,
  cfp_dot_s, cfp_see, forth_clear, word_colon, word_variable, word_macro, word_constant, word_allot,
  word_begin, word_do, word_else, word_endif, word_for, word_if, word_leave, word_loop,
  word_macro_semicolon, word_next, word_repeat, word_semicolon, word_sharp, word_tick, word_until,
  word_while, float_abs, float_acos, float_asin, float_atan, float_atan2, float_cos, float_div,
  float_eq, float_exp, float_float, float_ge, float_gt, float_le, float_log, float_log10, float_lt,
  float_max, float_min, float_minus, float_mul, float_ne, float_negate, float_plus, float_pow,
  float_sin, float_sqrt, float_tan, prim_1_add, prim_1_sub, prim_2_add, prim_2_div, prim_2_mul,
  prim_2_sub, prim_4_add, prim_4_sub, prim_abs, prim_and, prim_cmp_0_eq, prim_cmp_0_gt,
  prim_cmp_0_lt, prim_cmp_eq, prim_cmp_ge, prim_cmp_gt, prim_cmp_le, prim_cmp_lt, prim_cmp_ne,
  prim_depth, prim_div, prim_divmod, prim_drop, prim_dup, prim_max, prim_min, prim_minus, prim_mod,
  prim_mrot, prim_mul, prim_negate, prim_not, prim_or, prim_over, prim_pick, prim_plus, prim_qdup,
  prim_roll, prim_rot, prim_swap, prim_xor,
}
use qlforth.Sst.{SstType}
use qlforth.Symbols.{
  SymbolType, qlf_type_command, qlf_type_define, qlf_type_primitive, qlf_type_immediate,
  qlf_type_compile, Bucket, root_bucket, forth_bucket,
}

abbrev pub Table : Type 0
Table = List (String × Function)

abbrev pub command_table : Table
command_table =
    ("MAKE", command forth_make)
    ∷ ("QUIT", command forth_quit)
    ∷ (".S", command cfp_dot_s)
    ∷ ("SEE", command cfp_see)
    ∷ ("CLEAR", command forth_clear)
    ∷ []

abbrev pub constant_table : Table
constant_table = ("CONSTANT", defining word_constant) ∷ []

abbrev pub define_table : Table
define_table =
    (":", defining word_colon)
    ∷ ("VARIABLE", defining word_variable)
    ∷ ("::", defining word_macro)
    ∷ []

abbrev pub immediate_table : Table
immediate_table =
    (";", immediate word_semicolon)
    ∷ (";;", immediate word_macro_semicolon)
    ∷ ("'", immediate word_tick)
    ∷ ("#", immediate word_sharp)
    ∷ ("ALLOT", immediate word_allot)
    ∷ ("IF", immediate word_if)
    ∷ ("ELSE", immediate word_else)
    ∷ ("ENDIF", immediate word_endif)
    ∷ ("THEN", immediate word_endif)
    ∷ ("BEGIN", immediate word_begin)
    ∷ ("WHILE", immediate word_while)
    ∷ ("REPEAT", immediate word_repeat)
    ∷ ("UNTIL", immediate word_until)
    ∷ ("DO", immediate word_do)
    ∷ ("LOOP", immediate word_loop)
    ∷ ("LEAVE", immediate word_leave)
    ∷ ("FOR", immediate word_for)
    ∷ ("NEXT", immediate word_next)
    ∷ []

abbrev pub primitive_table : Table
primitive_table =
    ("DROP", primitive prim_drop)
    ∷ ("DUP", primitive prim_dup)
    ∷ ("?DUP", primitive prim_qdup)
    ∷ ("OVER", primitive prim_over)
    ∷ ("SWAP", primitive prim_swap)
    ∷ ("ROT", primitive prim_rot)
    ∷ ("-ROT", primitive prim_mrot)
    ∷ ("PICK", primitive prim_pick)
    ∷ ("ROLL", primitive prim_roll)
    ∷ ("DEPTH", primitive prim_depth)
    ∷ ("+", primitive prim_plus)
    ∷ ("-", primitive prim_minus)
    ∷ ("*", primitive prim_mul)
    ∷ ("/", primitive prim_div)
    ∷ ("MOD", primitive prim_mod)
    ∷ ("/MOD", primitive prim_divmod)
    ∷ ("1+", primitive prim_1_add)
    ∷ ("1-", primitive prim_1_sub)
    ∷ ("2+", primitive prim_2_add)
    ∷ ("2-", primitive prim_2_sub)
    ∷ ("2*", primitive prim_2_mul)
    ∷ ("2/", primitive prim_2_div)
    ∷ ("4+", primitive prim_4_add)
    ∷ ("4-", primitive prim_4_sub)
    ∷ ("MIN", primitive prim_min)
    ∷ ("MAX", primitive prim_max)
    ∷ ("ABS", primitive prim_abs)
    ∷ ("NEGATE", primitive prim_negate)
    ∷ ("<", primitive prim_cmp_lt)
    ∷ ("<=", primitive prim_cmp_le)
    ∷ ("<>", primitive prim_cmp_ne)
    ∷ ("=", primitive prim_cmp_eq)
    ∷ (">", primitive prim_cmp_gt)
    ∷ (">=", primitive prim_cmp_ge)
    ∷ ("0<", primitive prim_cmp_0_lt)
    ∷ ("0=", primitive prim_cmp_0_eq)
    ∷ ("0>", primitive prim_cmp_0_gt)
    ∷ ("AND", primitive prim_and)
    ∷ ("OR", primitive prim_or)
    ∷ ("XOR", primitive prim_xor)
    ∷ ("NOT", primitive prim_not)
    ∷ ("F+", float float_plus)
    ∷ ("F-", float float_minus)
    ∷ ("F*", float float_mul)
    ∷ ("F/", float float_div)
    ∷ ("F<", float float_lt)
    ∷ ("F<=", float float_le)
    ∷ ("F<>", float float_ne)
    ∷ ("F=", float float_eq)
    ∷ ("F>", float float_gt)
    ∷ ("F>=", float float_ge)
    ∷ ("FABS", float float_abs)
    ∷ ("ACOS", float float_acos)
    ∷ ("ASIN", float float_asin)
    ∷ ("ATAN", float float_atan)
    ∷ ("ATAN2", float float_atan2)
    ∷ ("COS", float float_cos)
    ∷ ("EXP", float float_exp)
    ∷ ("FLOAT", float float_float)
    ∷ ("LOG", float float_log)
    ∷ ("LOG10", float float_log10)
    ∷ ("FMAX", float float_max)
    ∷ ("FMIN", float float_min)
    ∷ ("FNEGATE", float float_negate)
    ∷ ("POW", float float_pow)
    ∷ ("SIN", float float_sin)
    ∷ ("SQRT", float float_sqrt)
    ∷ ("TAN", float float_tan)
    ∷ []

abbrev pub target_table : List (String × SstType) → Table
target_table [] = []
target_table ((name, t) ∷ ts) = (name, extension t) ∷ target_table ts

-- One loop over a table: a symbol of the type for each entry.
unfoldable pub add_table : SymbolType → Table → Compiler → Result Compiler
unfolding add_word
add_table t [] c = ok c
add_table t ((name, fun) ∷ es) c = do
  (c₁, id) ← add_word (bytes name) c
  add_table t es (set_symbol (λ s. record s { fun = fun; type = t }) id c₁)

unfoldable pub forth_init : Compiler → Result Compiler
unfolding add_table
forth_init c = do
  c₁ ← add_table qlf_type_define define_table c
  c₂ ← add_table qlf_type_immediate immediate_table c₁
  add_table qlf_type_primitive primitive_table c₂

unfoldable pub compile_init : Compiler → Result Compiler
unfolding add_table
compile_init c = add_table qlf_type_compile (target_table extension_table) c

-- `current = b`.
abbrev pub into : Bucket → Compiler → Compiler
into b c = record c { symbols = record c.symbols { current = b } }

-- `QLForth_init` up to the file: the host's words in the root vocabulary, the target's in their own.
unfoldable pub add_vocabularies : Compiler → Result Compiler
unfolding add_table forth_init compile_init
add_vocabularies c = do
  c₁ ← add_table qlf_type_command command_table (into root_bucket c)
  c₂ ← add_table qlf_type_define constant_table c₁
  c₃ ← forth_init c₂
  c₄ ← compile_init (into forth_bucket c₃)
  ok (into root_bucket c₄)
