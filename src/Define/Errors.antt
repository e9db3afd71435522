-- ===== src/Define/Errors.antt =====
-- `;`, or the closing word of another structure, in code that is not closed.
use qlforth.Prelude.{
  ◌+◌, ◌≤◌, ◌<◌, ◌≡◌, ◌==◌, refl, ap, ◌∙◌, update_self, arith, true, false, Result, ok, error,
  ◌>>=◌, Returns-ok, structure_mismatched,
}
use qlforth.Compile.{Compiler, Csid, Control, sst_link, csid_if, csid_begin, csid_do, csid_for}
use qlforth.Control.Errors.{Closer, close_word, wants, complaint, close_word-mismatch}
use qlforth.Control.Correct.{compile-Compiled}
use qlforth.Control.Steps.{Compiled, length-layout}
use qlforth.Control.Structure.{Structured, compile, layout, size, depth}
use qlforth.Control.Words.{
  starts, compiling-kept, cfp_if_lem, cfp_begin_lem, cfp_do_lem, cfp_for_lem,
}
use qlforth.Control.{compiling, same_csid, cfp_if, cfp_begin, cfp_do, cfp_for}
use qlforth.Define.{cfp_semicolon}
use qlforth.Sst.{SstType, sst_0_branch, sst_label, sst_do, sst_for}

pub data Opener : Type 0 where
  an_if a_begin a_do a_for : Opener

abbrev pub open_word : Opener → Compiler → Result Compiler
open_word an_if = cfp_if
open_word a_begin = cfp_begin
open_word a_do = cfp_do
open_word a_for = cfp_for

abbrev pub opens : Opener → Csid
opens an_if = csid_if
opens a_begin = csid_begin
opens a_do = csid_do
opens a_for = csid_for

abbrev begun : Opener → Compiler → Compiler
begun an_if = starts sst_0_branch csid_if
begun a_begin = starts sst_label csid_begin
begun a_do = starts sst_do csid_do
begun a_for = starts sst_for csid_for

open_word-ok :
    (x : Opener) (c : Compiler)
    → compiling c ≡ true
    → c.sst_current ≤ 65535
    → c.cs_ptr < 129
    → open_word x c ≡ ok (begun x c)
open_word-ok an_if c h l p = cfp_if_lem c h l p
open_word-ok a_begin c h l p = cfp_begin_lem c h l p
open_word-ok a_do c h l p = cfp_do_lem c h l p
open_word-ok a_for c h l p = cfp_for_lem c h l p

record IsBegun (x : Opener) (c d : Compiler) : Type 0 where
  entry : (d.cs_stack c.cs_ptr).id ≡ opens x
  mode : compiling d ≡ true
  current : d.sst_current ≡ c.sst_current + 1
  ptr : d.cs_ptr ≡ c.cs_ptr + 1

starts-id : (t : SstType) (k : Csid) (c : Compiler) → ((starts t k c).cs_stack c.cs_ptr).id ≡ k
starts-id t k c =
    let made : Control = record { id = k; link = sst_link c.sst_current } in
    ap (λ (e : Control). e.id) (update_self c.cs_stack c.cs_ptr made)

begun-IsBegun : (x : Opener) (c : Compiler) → compiling c ≡ true → IsBegun x c (begun x c)
begun-IsBegun an_if c h = record {
  entry = starts-id sst_0_branch csid_if c;
  mode = compiling-kept c (begun an_if c) refl h;
  current = refl;
  ptr = refl;
}
begun-IsBegun a_begin c h = record {
  entry = starts-id sst_label csid_begin c;
  mode = compiling-kept c (begun a_begin c) refl h;
  current = refl;
  ptr = refl;
}
begun-IsBegun a_do c h = record {
  entry = starts-id sst_do csid_do c;
  mode = compiling-kept c (begun a_do c) refl h;
  current = refl;
  ptr = refl;
}
begun-IsBegun a_for c h = record {
  entry = starts-id sst_for csid_for c;
  mode = compiling-kept c (begun a_for c) refl h;
  current = refl;
  ptr = refl;
}

cfp_semicolon-above : (d : Compiler) → 2 < d.cs_ptr → cfp_semicolon d ≡ error structure_mismatched
unfolding cfp_semicolon
cfp_semicolon-above d h = let e : (d.cs_ptr == 2) ≡ false = ground arith in rw e refl

-- In the compile state, with at least the two entries of a definition on the control stack and room for the nodes and
-- the depth, code with an IF, a BEGIN, a DO or a FOR that nothing closes, between structured code before and
-- after it, ends at `;` with the report of a mismatched structure.
pub open_word-cfp_semicolon :
    (x : Opener) (s t : Structured) (c : Compiler)
    → compiling c ≡ true
    → 2 ≤ c.cs_ptr
    → c.sst_current + size s + size t + 1 ≤ 65536
    → c.cs_ptr + depth s ≤ 129
    → c.cs_ptr + depth t + 1 ≤ 129
    → (compile s c >>= λ c₁. open_word x c₁ >>= λ c₂. compile t c₂ >>= cfp_semicolon)
      ≡ error structure_mismatched
open_word-cfp_semicolon x s t c h b l p q =
    let (d, e, k) =
      Returns-ok (Compiled c (layout c.sst_current s)) (compile s c)
        (compile-Compiled s c h (omega arith) p) in
    let n : d.sst_current ≡ c.sst_current + size s =
      omega (arith, k.1.current, length-layout c.sst_current s) in
    let m = compiling-kept c d k.1.state h in
    let o = begun-IsBegun x d m in
    let (d₂, e₂, k₂) =
      Returns-ok (Compiled (begun x d) (layout (begun x d).sst_current t)) (compile t (begun x d)) (
        compile-Compiled t (begun x d) o.mode (omega (arith, o.current, n))
          (omega (arith, o.ptr, k.0))) in
    rw (e, open_word-ok x d m (omega (arith, n)) (omega (arith, k.0)), e₂)
      (cfp_semicolon-above d₂ (omega (arith, k₂.0, o.ptr, k.0)))

-- In the compile state, with room for the nodes and the depth: an IF, a BEGIN, a DO or a FOR that nothing closes, between
-- structured code before and after it, and then an ELSE, ENDIF, WHILE, REPEAT, UNTIL, LOOP or NEXT that belongs to another
-- structure, end with the report of that word.
pub open_word-close_word :
    (x : Opener) (y : Closer) (s t : Structured) (c : Compiler)
    → compiling c ≡ true
    → same_csid (opens x) (wants y) ≡ false
    → c.sst_current + size s + size t + 1 ≤ 65536
    → c.cs_ptr + depth s ≤ 129
    → c.cs_ptr + depth t + 1 ≤ 129
    → (compile s c >>= λ c₁. open_word x c₁ >>= λ c₂. compile t c₂ >>= close_word y)
      ≡ error (complaint y)
open_word-close_word x y s t c h differ l p q =
    let (d, e, k) =
      Returns-ok (Compiled c (layout c.sst_current s)) (compile s c)
        (compile-Compiled s c h (omega arith) p) in
    let n : d.sst_current ≡ c.sst_current + size s =
      omega (arith, k.1.current, length-layout c.sst_current s) in
    let m = compiling-kept c d k.1.state h in
    let o = begun-IsBegun x d m in
    let (d₂, e₂, k₂) =
      Returns-ok (Compiled (begun x d) (layout (begun x d).sst_current t)) (compile t (begun x d)) (
        compile-Compiled t (begun x d) o.mode (omega (arith, o.current, n))
          (omega (arith, o.ptr, k.0))) in
    let top_id : (d₂.cs_stack d.cs_ptr).id ≡ opens x =
      ap (λ (e : Control). e.id) (k₂.1.entries d.cs_ptr (omega (arith, o.ptr))) ∙ o.entry in
    rw (e, open_word-ok x d m (omega (arith, n)) (omega (arith, k.0)), e₂)
      (close_word-mismatch y d.cs_ptr d₂ (omega (arith, k₂.0, o.ptr))
        (ap (λ i. same_csid i (wants y)) top_id ∙ differ))
