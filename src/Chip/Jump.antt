-- ===== src/Chip/Jump.antt =====
-- The two jumps of the J1 against the abstract machine.
use qlforth.Prelude.{
  ℕ, ◌+◌, ◌%◌, ◌<◌, ◌≡◌, ◌==◌, refl, ap, arith, if◌then◌else◌, List, [], ◌∷◌, Returns, Returns-map,
}
use mathlib.Core.Path.{subst}
use qlforth.Chip.Decode.{step-jump, step-conditional_jump}
use qlforth.Chip.Invariant.{IsValid}
use qlforth.Chip.Refines.{Reaches, with_IsValid}
use qlforth.Chip.Views.{Data, Holds}
use qlforth.Chip.{Chip, u16, step, conditional_jump}
use qlforth.Machine.{Machine}

-- A jump to `a` changes nothing else.
pub step-jump_meaning :
    (a : ℕ) (c : Chip) (m : Machine)
    → a < 0x2000
    → IsValid c
    → Holds c m
    → Returns (Reaches a m) (step a c)
step-jump_meaning a c m l valid holds =
    Returns-map (step a c) (λ r (e, v). (e.0, e.1, v, e.2))
      (with_IsValid a c Jumped valid (
        rw (step-jump c a l) (
          omega arith,
          ap u16 (omega arith),
          record {
            data_stack = holds.data_stack;
            ret_stack = holds.ret_stack;
            memory = holds.memory;
          },
        )))
  where
    Jumped : ℕ × Chip → Type 0
    Jumped r = (r.0 ≡ a) × (r.1.vpc ≡ u16 a) × Holds r.1 m

Data-pop :
    (tos x : ℕ) (f : ℕ → ℕ) (p : ℕ) (s : List ℕ)
    → Data tos f p (x ∷ s)
    → Data (f p) f ((p + 31) % 32) s
Data-pop tos x f p [] d = tt
Data-pop tos x f p (y ∷ s) d = d.1

-- A conditional jump takes the top off the stack and goes to `a` where it is 0.
pub step-conditional_jump_meaning :
    (a x : ℕ) (s : List ℕ) (c : Chip) (m : Machine)
    → a < 0x2000
    → IsValid c
    → Holds c m
    → m.stack ≡ x ∷ s
    → Returns
        (Reaches (if x == 0 then a else c.vpc + 1) (record m { stack = s }))
        (step (0x2000 + a) c)
unfolding conditional_jump
step-conditional_jump_meaning a x s c m l valid holds e =
    let d : Data c.tos c.dstack c.vdp (x ∷ s) =
      subst (Data c.tos c.dstack c.vdp) e holds.data_stack in
    let target : (0x2000 + a) % 0x2000 ≡ a = omega arith in
    Returns-map (step (0x2000 + a) c) (λ r (q, v). (q.0, q.1, v, q.2))
      (with_IsValid (0x2000 + a) c Jumped valid (
        rw (step-conditional_jump c (0x2000 + a) (omega arith) (omega arith), target, d.0)
          (
            refl,
            refl,
            record {
              data_stack = Data-pop c.tos x c.dstack c.vdp s d;
              ret_stack = holds.ret_stack;
              memory = holds.memory;
            },
          )))
  where
    next : ℕ
    next = if x == 0 then a else c.vpc + 1

    Jumped : ℕ × Chip → Type 0
    Jumped r = (r.0 ≡ next) × (r.1.vpc ≡ u16 next) × Holds r.1 (record m { stack = s })
