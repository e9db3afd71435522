-- ===== src/Control/Words.antt =====
-- The control words in the compile state, where the entry that they need is open.
use qlforth.Prelude.{ℕ, Bool, true, false, suc, ◌+◌, ◌<◌, ◌≤◌, ◌≡◌, ap, ◌∙◌, arith, refl, ok, ◌>>=◌}
use qlforth.Compile.{
  qlf_state_compile, Csid, csid_if, csid_begin, csid_while, csid_do, csid_for, sst_link, Compiler,
  sst_append, fill_node,
}
use qlforth.Control.{
  compiling, top, expect, close_entry, open_entry, set_link, cfp_if, cfp_else, cfp_endif, cfp_begin,
  cfp_while, cfp_repeat, cfp_until, cfp_do, cfp_loop, cfp_for, cfp_next,
}
use qlforth.Control.Grown.{appended, sst_append-ok, opened, open_entry-ok}
use qlforth.Sst.{
  SstType, null, sst, sst_0_branch, sst_branch, sst_label, sst_do, sst_loop, sst_for, sst_next,
}

-- The entry at `cs_ptr` is number `k`, of the kind `id` and with the node `i`.
pub record Open (k : ℕ) (id : Csid) (i : ℕ) (c : Compiler) : Type 0 where
  pub ptr : c.cs_ptr ≡ suc k
  pub entry : c.cs_stack k ≡ record { id = id; link = sst_link i }

pub top-Open :
    (k : ℕ) (id : Csid) (i : ℕ) (c : Compiler)
    → Open k id i c
    → top c ≡ ok (record { id = id; link = sst_link i })
unfolding top
top-Open k id i c h = rw h.ptr (ap ok h.entry)

pub compiling-kept : (c d : Compiler) → d.state ≡ c.state → compiling c ≡ true → compiling d ≡ true
unfolding compiling
compiling-kept c d e h =
    ap (λ s. elim s as (λ x. Bool) [ qlf_state_compile ↦ true | _ ↦ false ]) e ∙ h

-- The node at the end of the buffer, and an entry for it.
abbrev pub starts : SstType → Csid → Compiler → Compiler
starts t id c = opened id (sst_link c.sst_current) (appended t null c)

-- The link of the entry at `cs_ptr` becomes that of another node.
abbrev pub linked : ℕ → Compiler → Compiler
linked i c = set_link (sst_link i) c

module _ (c : Compiler) (s : compiling c ≡ true) (room : c.sst_current ≤ 65535) where
  starts_lem :
      (t : SstType) (id : Csid)
      → c.cs_ptr < 129
      → (sst_append t null c >>= open_entry id (sst_link c.sst_current)) ≡ ok (starts t id c)
  starts_lem t id h =
      rw (sst_append-ok t null c room, ◌>>=◌)
        (open_entry-ok id (sst_link c.sst_current) (appended t null c) h)

  pub cfp_if_lem : c.cs_ptr < 129 → cfp_if c ≡ ok (starts sst_0_branch csid_if c)
  unfolding cfp_if
  cfp_if_lem h = rw s (starts_lem sst_0_branch csid_if h)

  pub cfp_begin_lem : c.cs_ptr < 129 → cfp_begin c ≡ ok (starts sst_label csid_begin c)
  unfolding cfp_begin
  cfp_begin_lem h = rw s (starts_lem sst_label csid_begin h)

  pub cfp_do_lem : c.cs_ptr < 129 → cfp_do c ≡ ok (starts sst_do csid_do c)
  unfolding cfp_do
  cfp_do_lem h = rw s (starts_lem sst_do csid_do h)

  pub cfp_for_lem : c.cs_ptr < 129 → cfp_for c ≡ ok (starts sst_for csid_for c)
  unfolding cfp_for
  cfp_for_lem h = rw s (starts_lem sst_for csid_for h)

  module _ (k i : ℕ) where
    pub cfp_while_lem :
        Open k csid_begin i c → c.cs_ptr < 129 → cfp_while c ≡ ok (starts sst_0_branch csid_while c)
    unfolding cfp_while expect
    cfp_while_lem o h = rw (top-Open k csid_begin i c o, s) (starts_lem sst_0_branch csid_while h)

    pub cfp_endif_lem :
        Open k csid_if i c
        → cfp_endif c
          ≡ ok (close_entry (fill_node i (sst c.sst_current) (appended sst_label null c)))
    unfolding cfp_endif expect
    cfp_endif_lem o =
        rw (top-Open k csid_if i c o, s, sst_append-ok sst_label null c room, ◌>>=◌) refl

    pub cfp_until_lem :
        Open k csid_begin i c → cfp_until c ≡ ok (close_entry (appended sst_0_branch (sst i) c))
    unfolding cfp_until expect
    cfp_until_lem o =
        rw (top-Open k csid_begin i c o, s, sst_append-ok sst_0_branch (sst i) c room, ◌>>=◌) refl

    pub cfp_loop_lem :
        Open k csid_do i c → cfp_loop c ≡ ok (close_entry (appended sst_loop (sst i) c))
    unfolding cfp_loop expect
    cfp_loop_lem o =
        rw (top-Open k csid_do i c o, s, sst_append-ok sst_loop (sst i) c room, ◌>>=◌) refl

    pub cfp_next_lem :
        Open k csid_for i c → cfp_next c ≡ ok (close_entry (appended sst_next (sst i) c))
    unfolding cfp_next expect
    cfp_next_lem o =
        rw (top-Open k csid_for i c o, s, sst_append-ok sst_next (sst i) c room, ◌>>=◌) refl

-- The two words that append two nodes: a branch, and the label of the test that is open.
abbrev pub branched : Compiler → Compiler
branched c = appended sst_label null (appended sst_branch null c)

module _ (c : Compiler) (s : compiling c ≡ true) (room : c.sst_current ≤ 65534) (k i : ℕ) where
  pub cfp_else_lem :
      Open k csid_if i c
      → cfp_else c ≡ ok (linked c.sst_current (fill_node i (sst (c.sst_current + 1)) (branched c)))
  unfolding cfp_else expect
  cfp_else_lem o =
      rw
        (
          top-Open k csid_if i c o,
          s,
          sst_append-ok sst_branch null c (omega arith),
          ◌>>=◌,
          sst_append-ok sst_label null (appended sst_branch null c) (omega arith),
          ◌>>=◌,
        )
        refl

  pub cfp_repeat_lem :
      (j b : ℕ)
      → Open k csid_while i c
      → Open j csid_begin b (close_entry c)
      → cfp_repeat c
        ≡ ok (
            close_entry (
              close_entry (
                fill_node c.sst_current
                  (sst b)
                  (fill_node i (sst (c.sst_current + 1)) (branched c)))))
  unfolding cfp_repeat expect
  cfp_repeat_lem j b o p =
      rw
        (
          top-Open k csid_while i c o,
          ◌>>=◌,
          top-Open j csid_begin b (close_entry c) p,
          s,
          sst_append-ok sst_branch null c (omega arith),
          ◌>>=◌,
          sst_append-ok sst_label null (appended sst_branch null c) (omega arith),
          ◌>>=◌,
        )
        refl
