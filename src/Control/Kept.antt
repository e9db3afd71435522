-- ===== src/Control/Kept.antt =====
-- What the control words leave alone: the symbols, and the word that is being defined.
use qlforth.Prelude.{ℕ, ◌≡◌, refl, arith, Option, Result, ◌>>=◌, Ensures, Ensures-bind}
use qlforth.Compile.{Compiler, extension_word, sst_append, fill_node, comma}
use qlforth.Control.{
  cfp_if, cfp_else, cfp_endif, cfp_begin, cfp_while, cfp_repeat, cfp_until, cfp_do, cfp_loop,
  cfp_for, cfp_next, open_entry, expect, top,
}
use qlforth.Control.Structure.{
  Structured, empty, word, then, if_then, if_else, begin_until, begin_while, do_loop, for_next,
  compile,
}
use qlforth.Sst.{SstType}
use qlforth.Symbols.{Symbols}

abbrev pub Keeps : Option ℕ → Symbols → Compiler → Type 0
Keeps w t d = (d.this_create_word ≡ w) × (d.symbols ≡ t)

module _ (w : Option ℕ) (t : Symbols) where
  Word : (Compiler → Result Compiler) → Type 0
  Word f = (c : Compiler) → Keeps w t c → Ensures (Keeps w t) (f c)

  if-Keeps : Word cfp_if
  unfolding Word cfp_if sst_append open_entry comma fill_node expect top
  if-Keeps c h = ground arith

  else-Keeps : Word cfp_else
  unfolding Word cfp_else sst_append open_entry comma fill_node expect top
  else-Keeps c h = ground arith

  endif-Keeps : Word cfp_endif
  unfolding Word cfp_endif sst_append open_entry comma fill_node expect top
  endif-Keeps c h = ground arith

  begin-Keeps : Word cfp_begin
  unfolding Word cfp_begin sst_append open_entry comma fill_node expect top
  begin-Keeps c h = ground arith

  while-Keeps : Word cfp_while
  unfolding Word cfp_while sst_append open_entry comma fill_node expect top
  while-Keeps c h = ground arith

  repeat-Keeps : Word cfp_repeat
  unfolding Word cfp_repeat sst_append open_entry comma fill_node expect top
  repeat-Keeps c h = ground arith

  until-Keeps : Word cfp_until
  unfolding Word cfp_until sst_append open_entry comma fill_node expect top
  until-Keeps c h = ground arith

  do-Keeps : Word cfp_do
  unfolding Word cfp_do sst_append open_entry comma fill_node expect top
  do-Keeps c h = ground arith

  loop-Keeps : Word cfp_loop
  unfolding Word cfp_loop sst_append open_entry comma fill_node expect top
  loop-Keeps c h = ground arith

  for-Keeps : Word cfp_for
  unfolding Word cfp_for sst_append open_entry comma fill_node expect top
  for-Keeps c h = ground arith

  next-Keeps : Word cfp_next
  unfolding Word cfp_next sst_append open_entry comma fill_node expect top
  next-Keeps c h = ground arith

  word-Keeps : (x : SstType) → Word (extension_word x)
  unfolding Word extension_word sst_append
  word-Keeps x c h = ground arith

  -- One word after another.
  both-Keeps : (f g : Compiler → Result Compiler) → Word f → Word g → Word (λ c. f c >>= g)
  unfolding Word
  both-Keeps f g p q c h = Ensures-bind (Keeps w t) (Keeps w t) (f c) g (p c h) q

  structured-Keeps : (s : Structured) → Word (compile s)
  unfolding Word compile
  structured-Keeps empty c h = h
  structured-Keeps (word x) c h = word-Keeps x c h
  structured-Keeps (then a b) c h =
      both-Keeps (compile a) (compile b) (structured-Keeps a) (structured-Keeps b) c h
  structured-Keeps (if_then a) c h =
      both-Keeps cfp_if (λ d. compile a d >>= cfp_endif) if-Keeps
        (both-Keeps (compile a) cfp_endif (structured-Keeps a) endif-Keeps) c h
  structured-Keeps (if_else a b) c h =
      let tail = both-Keeps (compile b) cfp_endif (structured-Keeps b) endif-Keeps in
      let middle = both-Keeps cfp_else (λ d. compile b d >>= cfp_endif) else-Keeps tail in
      both-Keeps cfp_if (λ d. compile a d >>= λ e. cfp_else e >>= λ f. compile b f >>= cfp_endif)
        if-Keeps
        (both-Keeps (compile a) (λ e. cfp_else e >>= λ f. compile b f >>= cfp_endif)
          (structured-Keeps a) middle)
        c h
  structured-Keeps (begin_until a) c h =
      both-Keeps cfp_begin (λ d. compile a d >>= cfp_until) begin-Keeps
        (both-Keeps (compile a) cfp_until (structured-Keeps a) until-Keeps) c h
  structured-Keeps (begin_while a b) c h =
      let tail = both-Keeps (compile b) cfp_repeat (structured-Keeps b) repeat-Keeps in
      let middle = both-Keeps cfp_while (λ d. compile b d >>= cfp_repeat) while-Keeps tail in
      both-Keeps cfp_begin
        (λ d. compile a d >>= λ e. cfp_while e >>= λ f. compile b f >>= cfp_repeat) begin-Keeps
        (both-Keeps (compile a) (λ e. cfp_while e >>= λ f. compile b f >>= cfp_repeat)
          (structured-Keeps a) middle)
        c h
  structured-Keeps (do_loop a) c h =
      both-Keeps cfp_do (λ d. compile a d >>= cfp_loop) do-Keeps
        (both-Keeps (compile a) cfp_loop (structured-Keeps a) loop-Keeps) c h
  structured-Keeps (for_next a) c h =
      both-Keeps cfp_for (λ d. compile a d >>= cfp_next) for-Keeps
        (both-Keeps (compile a) cfp_next (structured-Keeps a) next-Keeps) c h

pub compile-Keeps :
    (s : Structured) (c : Compiler) → Ensures (Keeps c.this_create_word c.symbols) (compile s c)
unfolding Word
compile-Keeps s c = structured-Keeps c.this_create_word c.symbols s c (refl, refl)
