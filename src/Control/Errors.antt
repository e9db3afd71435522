-- ===== src/Control/Errors.antt =====
-- What the closing words report where the structure is another one.
use qlforth.Prelude.{
  ℕ, suc, ◌≡◌, refl, false, Result, error, Message, no_if_for_else, no_if_for_endif,
  no_begin_for_while, no_while_for_repeat, no_while_for_until, no_do_for_loop, no_for_for_next,
}
use qlforth.Compile.{Compiler, Csid, csid_if, csid_begin, csid_while, csid_do, csid_for}
use qlforth.Control.{
  same_csid, top, expect, cfp_else, cfp_endif, cfp_while, cfp_repeat, cfp_until, cfp_loop, cfp_next,
}

pub data Closer : Type 0 where
  an_else an_endif a_while a_repeat an_until a_loop a_next : Closer

abbrev pub close_word : Closer → Compiler → Result Compiler
close_word an_else = cfp_else
close_word an_endif = cfp_endif
close_word a_while = cfp_while
close_word a_repeat = cfp_repeat
close_word an_until = cfp_until
close_word a_loop = cfp_loop
close_word a_next = cfp_next

-- The structure that it goes on with or ends.
abbrev pub wants : Closer → Csid
wants an_else = csid_if
wants an_endif = csid_if
wants a_while = csid_begin
wants a_repeat = csid_while
wants an_until = csid_begin
wants a_loop = csid_do
wants a_next = csid_for

abbrev pub complaint : Closer → Message
complaint an_else = no_if_for_else
complaint an_endif = no_if_for_endif
complaint a_while = no_begin_for_while
complaint a_repeat = no_while_for_repeat
complaint an_until = no_while_for_until
complaint a_loop = no_do_for_loop
complaint a_next = no_for_for_next

-- The entry on top of the control stack is of another structure.
pub close_word-mismatch :
    (x : Closer) (i : ℕ) (c : Compiler)
    → c.cs_ptr ≡ suc i
    → same_csid (c.cs_stack i).id (wants x) ≡ false
    → close_word x c ≡ error (complaint x)
unfolding cfp_else cfp_endif cfp_while cfp_repeat cfp_until cfp_loop cfp_next expect top
close_word-mismatch an_else i c p e = rw (p, e) refl
close_word-mismatch an_endif i c p e = rw (p, e) refl
close_word-mismatch a_while i c p e = rw (p, e) refl
close_word-mismatch a_repeat i c p e = rw (p, e) refl
close_word-mismatch an_until i c p e = rw (p, e) refl
close_word-mismatch a_loop i c p e = rw (p, e) refl
close_word-mismatch a_next i c p e = rw (p, e) refl
