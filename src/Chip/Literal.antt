-- ===== src/Chip/Literal.antt =====
-- The literal instruction, and one round of a run as a step between chips.
use mathlib.Core.Path.{subst}
use qlforth.Prelude.{
  ℕ, suc, ◌+◌, ◌%◌, ◌≤◌, ◌<◌, ◌≡◌, ◌≢◌, ◌==◌, refl, sym, ◌∙◌, arith, false, List, [], ◌∷◌, length,
  Returns, Returns-map, Returns-ok, update,
}
use qlforth.Chip.{Chip, u16, push, step, ram_words}
use qlforth.Chip.Decode.{step-literal}
use qlforth.Chip.Invariant.{IsValid}
use qlforth.Chip.Loop.{execute_loop-step}
use qlforth.Chip.Refines.{Reaches, with_IsValid}
use qlforth.Chip.Run.{Run, execute_loop}
use qlforth.Chip.Views.{Data, Holds, Below-push}
use qlforth.Machine.{Machine}

abbrev pub with_top : ℕ → Machine → Machine
with_top v m = record m { stack = v ∷ m.stack }

Data-push :
    (c : Chip) (v : ℕ) (s : List ℕ)
    → c.vdp < 32
    → length s ≤ 32
    → Data c.tos c.dstack c.vdp s
    → Data v (update c.dstack ((c.vdp + 1) % 32) c.tos) ((c.vdp + 1) % 32) (v ∷ s)
Data-push c v [] h l d = (refl, tt)
Data-push c v (t ∷ s) h l d =
    let pushed = Below-push c.dstack c.vdp c.tos s h (omega arith) d.1 in
    (refl, (pushed.0 ∙ d.0, pushed.1))

-- A round with the instruction of a literal below 0x8000, on a valid chip that holds a stack of at most 32
-- numbers, ends without a fault: it stands at `vpc + 1`, is valid, and holds the machine with the number pushed.
pub step-literal_meaning :
    (x : ℕ) (c : Chip) (m : Machine)
    → x < 0x8000
    → IsValid c
    → Holds c m
    → length m.stack ≤ 32
    → Returns (Reaches (c.vpc + 1) (with_top x m)) (step (0x8000 + x) c)
unfolding push
step-literal_meaning x c m h valid holds fits =
    Returns-map (step (0x8000 + x) c) (λ r (e, v). (e.0, e.1, v, e.2))
      (with_IsValid (0x8000 + x) c Pushed valid (
        rw (step-literal c (0x8000 + x) (omega arith) (omega arith)) (
          refl,
          refl,
          record {
            data_stack =
                subst
                  (λ a.
                    Data a (update c.dstack ((c.vdp + 1) % 32) c.tos) ((c.vdp + 1) % 32)
                      (x ∷ m.stack))
                  value (Data-push c x m.stack valid.vdp_inside fits holds.data_stack);
            ret_stack = holds.ret_stack;
            memory = holds.memory;
          },
        )))
  where
    Pushed : ℕ × Chip → Type 0
    Pushed r = (r.0 ≡ c.vpc + 1) × (r.1.vpc ≡ u16 (c.vpc + 1)) × Holds r.1 (with_top x m)

    value : x ≡ u16 ((0x8000 + x) % 0x8000)
    value = omega arith

-- A run that stands before the instruction at `vpc`.
abbrev pub loop : ℕ → Chip → Run Chip
loop fuel c = execute_loop fuel c.vpc (c.ram c.vpc) c

-- The run comes to a chip that holds `m` and stands at `pc`, when `more` gives the rounds of it
-- and of the rest.
pub record Comes (more : ℕ → ℕ) (pc : ℕ) (m : Machine) (c : Chip) : Type 0 where
  pub chip : Chip
  pub valid : IsValid chip
  pub holds : Holds chip m
  pub stands : chip.vpc ≡ pc
  pub runs : (fuel : ℕ) → loop (more fuel) c ≡ loop fuel chip

pub Comes-step :
    (insn pc : ℕ) (m : Machine) (c : Chip)
    → c.vpc ≢ 0
    → c.ram c.vpc ≡ insn
    → pc < ram_words
    → Returns (Reaches pc m) (step insn c)
    → Comes suc pc m c
Comes-step insn pc m c nz here l h =
    let (r, e, p) = Returns-ok (Reaches pc m) (step insn c) h in
    let at_pc : r.1.vpc ≡ pc = omega (arith, p.1) in
    let going : (c.vpc == 0) ≡ false = ground arith in
    let same : u16 (r.1.ram r.1.vpc) ≡ r.1.ram r.1.vpc = omega (arith, p.2.ram_fits r.1.vpc) in
    record {
      chip = r.1;
      valid = p.2;
      holds = p.3;
      stands = at_pc;
      runs = λ fuel.
          execute_loop-step fuel c.vpc (c.ram c.vpc) c r.0 r.1 going (rw here e) (omega arith)
          ∙ (λ i. execute_loop fuel ((p.0 ∙ sym at_pc) i) (same i) r.1);
    }

pub Comes-trans :
    (f g : ℕ → ℕ) (pc pc' : ℕ) (m m' : Machine) (c : Chip)
    → (a : Comes f pc m c) → Comes g pc' m' a.chip
    → Comes (λ n. f (g n)) pc' m' c
Comes-trans f g pc pc' m m' c a b = record {
  chip = b.chip;
  valid = b.valid;
  holds = b.holds;
  stands = b.stands;
  runs = λ n. a.runs (g n) ∙ b.runs n;
}
