-- ===== src/Host/Lists/Moves.antt =====
-- The words of the host that move numbers, on a list.
use mathlib.Core.Option.{some_inj}
use mathlib.Core.Path.{subst}
use qlforth.Prelude.{
  ℕ, suc, ◌+◌, ◌-◌, ◌≤◌, ◌≡◌, ◌==◌, refl, sym, ap, ◌∙◌, arith, true, false, List, [], ◌∷◌, length,
  update, update_self, update_ne, update_comm, Returns, Bool-cases, inl, inr,
}
use qlforth.Functions.{
  prim_dup, prim_qdup, prim_drop, prim_over, prim_swap, prim_rot, prim_mrot, prim_depth,
}
use qlforth.Host.Inverses.{peek-ok, push-ok}
use qlforth.Host.{
  Vm, poke, qlforth_push, cfp_dup, cfp_qdup, cfp_drop, cfp_over, cfp_swap, cfp_rot, cfp_mrot,
  cfp_depth,
}
use qlforth.Host.Lists.{Cells, Stands, computed, Refines}

pub Cells-length : (xs : List ℕ) (n : ℕ) (f : ℕ → ℕ) → Cells xs n f → n ≡ length xs
Cells-length [] n f h = h
Cells-length (x ∷ xs) n f h = omega (arith, h.0, Cells-length xs (n - 1) f h.2)

pub Cells-update :
    (xs : List ℕ) (n : ℕ) (f : ℕ → ℕ) (i v : ℕ) → n ≤ i → Cells xs n f → Cells xs n (update f i v)
Cells-update [] n f i v l h = h
Cells-update (x ∷ xs) n f i v l h = (
  h.0,
  update_ne f i (n - 1) v (omega (arith, h.0)) ∙ h.1,
  Cells-update xs (n - 1) f i v (omega arith) h.2,
)

-- A number that is pushed.
push-Stands :
    (v : ℕ) (s s' : List ℕ) (vm : Vm)
    → v ∷ s ≡ s'
    → length s' ≤ 259
    → Stands s vm
    → Returns (Stands s') (qlforth_push v vm)
push-Stands v [] s' vm e l h = absurd h
push-Stands v (x ∷ s) s' vm e l h =
    let deep : vm.dp ≡ length s = Cells-length s vm.dp vm.data_stack h.1 in
    let long : length s' ≡ suc (suc (length s)) = ap length (sym e) in
    let below : vm.dp + 1 - 1 ≡ vm.dp = omega arith in
    let pushed : Vm = record {
      tos = v;
      data_stack = update vm.data_stack vm.dp vm.tos;
      dp = vm.dp + 1;
    } in
    rw (push-ok v vm (omega (arith, deep, long))) (
      subst (λ r. Stands r pushed) e
        (
          refl,
          (
            omega arith,
            ap (update vm.data_stack vm.dp vm.tos) below
                ∙ update_self vm.data_stack vm.dp vm.tos
                ∙ h.0,
            subst (λ n. Cells s n (update vm.data_stack vm.dp vm.tos)) (sym below)
                (Cells-update s vm.dp vm.data_stack vm.dp vm.tos (omega arith) h.1),
          ),
        ))

pub dup-Refines : Refines (computed prim_dup) cfp_dup
unfolding cfp_dup
dup-Refines [] s' vm e l h = absurd h
dup-Refines (x ∷ s) s' vm e l h =
    push-Stands vm.tos (x ∷ s) s' vm (ap (λ (v : ℕ). v ∷ x ∷ s) h.0 ∙ some_inj.0 e) l h

pub qdup-Refines : Refines (computed prim_qdup) cfp_qdup
unfolding cfp_qdup
qdup-Refines [] s' vm e l h = absurd h
qdup-Refines (x ∷ s) s' vm e l h = elim (Bool-cases (x == 0)) [
  | inl z ↦
      let zero_top : (vm.tos == 0) ≡ true = ap (λ v. v == 0) h.0 ∙ z in
      let same : x ∷ s ≡ s' = some_inj.0 (sym (rw z refl) ∙ e) in
      rw zero_top (subst (λ r. Stands r vm) same h)
  | inr z ↦
      let other : (vm.tos == 0) ≡ false = ap (λ v. v == 0) h.0 ∙ z in
      let twice : x ∷ x ∷ s ≡ s' = some_inj.0 (sym (rw z refl) ∙ e) in
      rw other (push-Stands vm.tos (x ∷ s) s' vm (ap (λ (v : ℕ). v ∷ x ∷ s) h.0 ∙ twice) l h)
]

pub over-Refines : Refines (computed prim_over) cfp_over
unfolding cfp_over
over-Refines [] s' vm e l h = absurd h
over-Refines (x ∷ []) s' vm e l h = cc
over-Refines (x ∷ y ∷ s) s' vm e l h =
    rw (peek-ok 1 vm (omega arith) h.1.0, h.1.1)
      (push-Stands y (x ∷ y ∷ s) s' vm (some_inj.0 e) l h)

pub depth-Refines : Refines (computed prim_depth) cfp_depth
unfolding cfp_depth
depth-Refines [] s' vm e l h = absurd h
depth-Refines (x ∷ s) s' vm e l h =
    let deep = Cells-length s vm.dp vm.data_stack h.1 in
    push-Stands vm.dp (x ∷ s) s' vm (ap (λ (v : ℕ). v ∷ x ∷ s) deep ∙ some_inj.0 e) l h

pub drop-Refines : Refines (computed prim_drop) cfp_drop
unfolding cfp_drop
drop-Refines [] s' vm e l h = absurd h
drop-Refines (x ∷ []) s' vm e l h = cc
drop-Refines (x ∷ y ∷ s) s' vm e l h = rw (peek-ok 1 vm (omega arith) h.1.0) (
    subst (λ r. Stands r (record vm { tos = vm.data_stack (vm.dp - 1); dp = vm.dp - 1 }))
      (some_inj.0 e) (h.1.1, h.1.2))

pub swap-Refines : Refines (computed prim_swap) cfp_swap
unfolding cfp_swap
swap-Refines [] s' vm e l h = absurd h
swap-Refines (x ∷ []) s' vm e l h = cc
swap-Refines (x ∷ y ∷ s) s' vm e l h =
    let swapped = record (poke 1 vm.tos vm) { tos = vm.data_stack (vm.dp - 1) } in
    rw (peek-ok 1 vm (omega arith) h.1.0) (
      subst (λ r. Stands r swapped) (some_inj.0 e)
        (
          h.1.1,
          (
            h.1.0,
            update_self vm.data_stack (vm.dp - 1) vm.tos ∙ h.0,
            Cells-update s (vm.dp - 1) vm.data_stack (vm.dp - 1) vm.tos (omega arith) h.1.2,
          ),
        ))

-- Two cells that are written below the top.
rotated :
    (s : List ℕ) (vm : Vm) (v w : ℕ)
    → 1 ≤ vm.dp
    → 1 ≤ vm.dp - 1
    → Cells s (vm.dp - 1 - 1) vm.data_stack
    → Cells (v ∷ w ∷ s) vm.dp (update (update vm.data_stack (vm.dp - 2) w) (vm.dp - 1) v)
rotated s vm v w l m h =
    let f = update vm.data_stack (vm.dp - 2) w in
    let second : vm.dp - 1 - 1 ≡ vm.dp - 2 = omega arith in
    (
      l,
      update_self f (vm.dp - 1) v,
      (
        m,
        update_ne f (vm.dp - 1) (vm.dp - 1 - 1) v (omega arith)
            ∙ ap f second
            ∙ update_self vm.data_stack (vm.dp - 2) w,
        Cells-update s (vm.dp - 1 - 1) f (vm.dp - 1) v (omega arith)
            (Cells-update s (vm.dp - 1 - 1) vm.data_stack (vm.dp - 2) w (omega arith) h),
      ),
    )

pub rot-Refines : Refines (computed prim_rot) cfp_rot
unfolding cfp_rot
rot-Refines [] s' vm e l h = absurd h
rot-Refines (x ∷ []) s' vm e l h = cc
rot-Refines (x ∷ y ∷ []) s' vm e l h = cc
rot-Refines (x ∷ y ∷ z ∷ s) s' vm e l h =
    let third : vm.data_stack (vm.dp - 2) ≡ z = ap vm.data_stack (omega arith) ∙ h.1.2.1 in
    rw
      (
        peek-ok 1 vm (omega arith) h.1.0,
        peek-ok 2 vm (omega arith) (omega arith),
        h.0,
        h.1.1,
        third,
      )
      (subst (λ r. Stands r (record (poke 1 x (poke 2 y vm)) { tos = z })) (some_inj.0 e)
        (refl, rotated s vm x y h.1.0 h.1.2.0 h.1.2.2))

pub mrot-Refines : Refines (computed prim_mrot) cfp_mrot
unfolding cfp_mrot
mrot-Refines [] s' vm e l h = absurd h
mrot-Refines (x ∷ []) s' vm e l h = cc
mrot-Refines (x ∷ y ∷ []) s' vm e l h = cc
mrot-Refines (x ∷ y ∷ z ∷ s) s' vm e l h =
    let third : vm.data_stack (vm.dp - 2) ≡ z = ap vm.data_stack (omega arith) ∙ h.1.2.1 in
    let cells = rotated s vm z x h.1.0 h.1.2.0 h.1.2.2 in
    let written = update_comm vm.data_stack (vm.dp - 2) (vm.dp - 1) x z (omega arith) in
    rw
      (
        peek-ok 1 vm (omega arith) h.1.0,
        peek-ok 2 vm (omega arith) (omega arith),
        h.0,
        h.1.1,
        third,
      )
      (subst (λ r. Stands r (record (poke 2 x (poke 1 z vm)) { tos = y })) (some_inj.0 e)
        (refl, subst (Cells (z ∷ x ∷ s) vm.dp) written cells))
