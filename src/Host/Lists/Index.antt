-- ===== src/Host/Lists/Index.antt =====
-- PICK and ROLL on a list.
use mathlib.Core.Option.{some_inj}
use mathlib.Core.Path.{subst}
use qlforth.Prelude.{
  ℕ, zero, suc, ◌+◌, ◌-◌, ◌<◌, ◌≤◌, ◌≡◌, ◌==◌, refl, sym, ap, ◌∙◌, arith, ltb, none, some, List, [],
  ◌∷◌, get_elem?, length, update, update_self, update_ne, ltb→lt, ◌≢◌, Bool-cases, inl, inr,
}
use qlforth.Functions.{prim_pick, prim_roll}
use qlforth.Host.Inverses.{peek-ok}
use qlforth.Host.{negative, cfp_pick, cfp_roll, shift_down}
use qlforth.Host.Lists.{Cells, Stands, remove, computed, Refines}
use qlforth.Host.Lists.Moves.{Cells-length}

-- The cell of a number.
Cells-get :
    (s : List ℕ) (n : ℕ) (f : ℕ → ℕ) (k y : ℕ)
    → Cells s n f
    → get_elem? s k ≡ some y
    → f (n - (k + 1)) ≡ y
Cells-get [] n f k y h e = cc
Cells-get (x ∷ s) n f zero y h e = h.1 ∙ some_inj.0 e
Cells-get (x ∷ s) n f (suc k) y h e = ap f (omega arith) ∙ Cells-get s (n - 1) f k y h.2 e

get-some : (s : List ℕ) (k : ℕ) → k < length s → (y : ℕ) × (get_elem? s k ≡ some y)
get-some [] k l = absurd (omega arith)
get-some (x ∷ s) zero l = (x, refl)
get-some (x ∷ s) (suc k) l = get-some s k (omega arith)

get-none : (s : List ℕ) (k : ℕ) → length s ≤ k → get_elem? s k ≡ none
get-none [] k l = refl
get-none (x ∷ s) zero l = absurd (omega arith)
get-none (x ∷ s) (suc k) l = get-none s k (omega arith)

pub pick-Refines : Refines (computed prim_pick) cfp_pick
unfolding cfp_pick
pick-Refines [] s' vm e l h = absurd h
pick-Refines (k ∷ s) s' vm e l h = elim (Bool-cases (negative k)) [
  | inl z ↦ let stuck : none ≡ some s' = sym (rw z refl) ∙ e in cc
  | inr z ↦ elim (Bool-cases (ltb k vm.dp)) [
    | inl d ↦
        let (y, q) =
          get-some s k (omega (arith, ltb→lt k vm.dp d, Cells-length s vm.dp vm.data_stack h.1)) in
        let means : y ∷ s ≡ s' = some_inj.0 (sym (rw (z, q) refl) ∙ e) in
        let inside : k < vm.dp = ltb→lt k vm.dp d in
        rw (h.0, z, d, peek-ok (k + 1) (record vm { tos = k }) (omega arith) (omega arith))
          (subst (λ r. Stands r (record vm { tos = vm.data_stack (vm.dp - (k + 1)) })) means
            (Cells-get s vm.dp vm.data_stack k y h.1 q, h.1))
    | inr d ↦
        let deep = Cells-length s vm.dp vm.data_stack h.1 in
        let outside : vm.dp ≤ k = ground arith in
        let means : k ∷ s ≡ s' =
          some_inj.0 (sym (rw (z, get-none s k (omega (arith, deep))) refl) ∙ e) in
        rw (h.0, z, d) (subst (λ r. Stands r (record vm { tos = k })) means (refl, h.1))
  ]
]

-- The cells that ROLL moves down.
shifted :
    (n at : ℕ) (f : ℕ → ℕ) (i : ℕ)
    → (i < at → shift_down n at f i ≡ f i) × (at ≤ i → i < at + n → shift_down n at f i ≡ f (i + 1))
unfolding shift_down
shifted zero at f i = (λ l. refl, λ l m. absurd (omega arith))
shifted (suc n) at f i =
    let g = update f at (f (at + 1)) in
    (
      λ l. (shifted n (at + 1) g i).0 (omega arith) ∙ update_ne f at i (f (at + 1)) (omega arith),
      λ l m. elim (Bool-cases (at == i)) [
        | inl z ↦
            let here : at ≡ i = ground arith in
            (shifted n (at + 1) g i).0 (omega arith)
            ∙ ap g (sym here)
            ∙ update_self f at (f (at + 1))
            ∙ ap f (omega arith)
        | inr z ↦
            let past : at ≢ i = ground arith in
            (shifted n (at + 1) g i).1 (omega arith) (omega arith)
            ∙ update_ne f at (i + 1) (f (at + 1)) (omega arith)
      ],
    )

Cells-agree :
    (s : List ℕ) (n : ℕ) (f g : ℕ → ℕ) → ((i : ℕ) → i < n → g i ≡ f i) → Cells s n f → Cells s n g
Cells-agree [] n f g a h = h
Cells-agree (x ∷ s) n f g a h = (
  h.0,
  a (n - 1) (omega (arith, h.0)) ∙ h.1,
  Cells-agree s (n - 1) f g (λ i l. a i (omega arith)) h.2,
)

Cells-remove :
    (s : List ℕ) (n : ℕ) (f g : ℕ → ℕ) (k : ℕ)
    → k < n
    → ((i : ℕ) → i < n - 1 - k → g i ≡ f i)
    → ((i : ℕ) → n - 1 - k ≤ i → i < n - 1 → g i ≡ f (i + 1))
    → Cells s n f
    → Cells (remove k s) (n - 1) g
Cells-remove [] n f g k l a b h = omega arith
Cells-remove (x ∷ s) n f g zero l a b h = Cells-agree s (n - 1) f g (λ i m. a i (omega arith)) h.2
Cells-remove (x ∷ s) n f g (suc k) l a b h = (
  omega arith,
  b (n - 1 - 1) (omega arith) (omega arith) ∙ ap f (omega arith) ∙ h.1,
  Cells-remove s (n - 1) f g k (omega arith) (λ i m. a i (omega arith))
      (λ i m o. b i (omega arith) (omega arith)) h.2,
)

pub roll-Refines : Refines (computed prim_roll) cfp_roll
unfolding cfp_roll
roll-Refines [] s' vm e l h = absurd h
roll-Refines (k ∷ s) s' vm e l h = elim (Bool-cases (negative k)) [
  | inl z ↦ let stuck : none ≡ some s' = sym (rw z refl) ∙ e in cc
  | inr z ↦ elim (Bool-cases (ltb k vm.dp)) [
    | inl d ↦
        let (y, q) =
          get-some s k (omega (arith, ltb→lt k vm.dp d, Cells-length s vm.dp vm.data_stack h.1)) in
        let means : y ∷ remove k s ≡ s' = some_inj.0 (sym (rw (z, q) refl) ∙ e) in
        let inside : k < vm.dp = ltb→lt k vm.dp d in
        rw (h.0, z, d, peek-ok (k + 1) (record vm { tos = k }) (omega arith) (omega arith))
          (subst
            (λ r. Stands r (record {
              tos = vm.data_stack (vm.dp - (k + 1));
              data_stack = shift_down (k + 1) (vm.dp - k - 1) vm.data_stack;
              dp = vm.dp - 1;
            }))
            means
            (
              Cells-get s vm.dp vm.data_stack k y h.1 q,
              Cells-remove s vm.dp vm.data_stack (shift_down (k + 1) (vm.dp - k - 1) vm.data_stack)
                  k inside
                  (λ i m. (shifted (k + 1) (vm.dp - k - 1) vm.data_stack i).0 (omega arith))
                  (λ i m o.
                    (shifted (k + 1) (vm.dp - k - 1) vm.data_stack i).1 (omega arith) (omega arith))
                  h.1,
            ))
    | inr d ↦
        let deep = Cells-length s vm.dp vm.data_stack h.1 in
        let outside : vm.dp ≤ k = ground arith in
        let means : k ∷ s ≡ s' =
          some_inj.0 (sym (rw (z, get-none s k (omega (arith, deep))) refl) ∙ e) in
        rw (h.0, z, d) (subst (λ r. Stands r (record vm { tos = k })) means (refl, h.1))
  ]
]
