-- ===== src/Code/Flow/Run.antt =====
-- The code of structured code on the chip does what the code means.
use mathlib.Core.Option.{some_inj}
use mathlib.Core.Path.{subst}
use qlforth.Prelude.{
  ℕ, zero, suc, ◌+◌, ◌<◌, ◌≡◌, ◌==◌, refl, ◌∙◌, ap, arith, Option, some, List, [], ◌∷◌, ◌++◌,
  length, Returns, inl, inr, if◌then◌else◌,
}
use qlforth.Chip.Invariant.{IsValid}
use qlforth.Chip.Jump.{step-jump_meaning, step-conditional_jump_meaning}
use qlforth.Chip.Literal.{Comes, Comes-step, loop}
use qlforth.Chip.Refines.{Reaches}
use qlforth.Chip.Views.{Holds}
use qlforth.Chip.{Chip, step, ram_words}
use qlforth.Code.Execute.{Resident, Resident-append, Resident-keep}
use qlforth.Machine.Flow.Laws.{test-cases, Keeps}
use qlforth.Machine.Flow.{test, until}
use qlforth.Machine.Programs.{and_then-some}
use qlforth.Machine.{Machine, Writable}

-- The chip stands at an address and holds a machine.
pub record At (a : ℕ) (m : Machine) (c : Chip) : Type 0 where
  pub valid : IsValid c
  pub holds : Holds c m
  pub stands : c.vpc ≡ a

-- The run comes there after a number of rounds.
pub record Arrives (a : ℕ) (m : Machine) (c : Chip) : Type 0 where
  pub chip : Chip
  pub there : At a m chip
  pub rounds : ℕ
  pub runs : (fuel : ℕ) → loop (rounds + fuel) c ≡ loop fuel chip

pub Arrives-here : (a : ℕ) (m : Machine) (c : Chip) → At a m c → Arrives a m c
Arrives-here a m c h = record {
  chip = c;
  there = h;
  rounds = 0;
  runs = λ f. ap (λ n. loop n c) (omega arith);
}

pub Arrives-then :
    (a b : ℕ) (m k : Machine) (c : Chip) → (x : Arrives a m c) → Arrives b k x.chip → Arrives b k c
Arrives-then a b m k c x y = record {
  chip = y.chip;
  there = y.there;
  rounds = x.rounds + y.rounds;
  runs = λ f. ap (λ n. loop n c) (omega arith) ∙ x.runs (y.rounds + f) ∙ y.runs f;
}

-- One round.
pub Arrives-step : (b : ℕ) (k : Machine) (c : Chip) → Comes suc b k c → Arrives b k c
Arrives-step b k c x = record {
  chip = x.chip;
  there = record { valid = x.valid; holds = x.holds; stands = x.stands };
  rounds = 1;
  runs = λ f. ap (λ n. loop n c) (omega arith) ∙ x.runs f;
}

-- Where the same address is written in two ways.
pub Arrives-at : (a b : ℕ) (m : Machine) (c : Chip) → a ≡ b → Arrives a m c → Arrives b m c
Arrives-at a b m c e x = subst (λ p. Arrives p m c) e x

module _ (a : ℕ) (m : Machine) (c : Chip) (at : At a m c) (pos : 0 < a) where
  word_at : (insn : ℕ) → m.mem a ≡ insn → c.ram c.vpc ≡ insn
  word_at insn e = ap (λ f. f c.vpc) at.holds.memory ∙ ap m.mem at.stands ∙ e

  pub jump-Arrives : (t : ℕ) → t < ram_words → m.mem a ≡ t → Arrives t m c
  jump-Arrives t l e = Arrives-step t m c (
      Comes-step t t m c (omega (arith, at.stands)) (word_at t e) l
        (step-jump_meaning t c m l at.valid at.holds))

  pub conditional_jump-Arrives :
      (t x : ℕ) (s : List ℕ)
      → t < ram_words
      → a + 1 < ram_words
      → m.mem a ≡ 0x2000 + t
      → m.stack ≡ x ∷ s
      → Arrives (if x == 0 then t else a + 1) (record m { stack = s }) c
  conditional_jump-Arrives t x s l k e q =
      let next = if x == 0 then t else a + 1 in
      let inside : next < ram_words = ground arith in
      Arrives-step next (record m { stack = s }) c
        (Comes-step (0x2000 + t) next (record m { stack = s }) c (omega (arith, at.stands))
          (word_at (0x2000 + t) e) inside
          (subst
            (λ b.
              Returns (Reaches (if x == 0 then t else b + 1) (record m { stack = s }))
                (step (0x2000 + t) c))
            at.stands (step-conditional_jump_meaning t x s c m l at.valid at.holds q)))

module _ (w : Writable) where
  -- A stretch of words and the one behind it.
  pub parts :
      (f : ℕ → ℕ) (a d : ℕ) (vs ws : List ℕ)
      → length vs ≡ d
      → Resident w f a (vs ++ ws)
      → Resident w f a vs × Resident w f (a + d) ws
  parts f a d vs ws e r =
      let (x, y) = Resident-append w f a vs ws r in (x, subst (λ n. Resident w f (a + n) ws) e y)

  -- Words at `a` that do what `f` does, and end behind them.
  abbrev pub Does : ℕ → ℕ → List ℕ → (Machine → Option Machine) → Type 0
  Does a d ws f =
      (m k : Machine) (c : Chip)
      → At a m c
      → Resident w m.mem a ws
      → f m ≡ some k
      → Arrives (a + d) k c

  module _ (a d : ℕ) (ws : List ℕ) (f : Machine → Option Machine) (pos : 0 < a)
      (long : length ws ≡ d) (does : Does a d ws f) (keeps : Keeps w f) where
    pub until-Does :
        (n : ℕ) → a + d + 1 < ram_words → Does a (d + 1) (ws ++ (0x2000 + a) ∷ []) (until n f)
    unfolding until
    until-Does zero l m k c at r e = cc
    until-Does (suc n) l m k c at r e =
        let (m₁, e₁, e₂) = and_then-some (f m) (test some (until n f)) k e in
        let (r₁, r₂) = parts m.mem a d ws ((0x2000 + a) ∷ []) long r in
        let first = does m m₁ c at r₁ e₁ in
        let kept = keeps m m₁ e₁ in
        let (x, s, q, t) = test-cases some (until n f) m₁ k e₂ in
        let m₂ = record m₁ { stack = s } in
        let jumped =
          conditional_jump-Arrives (a + d) m₁ first.chip first.there (omega arith) a x s
            (omega arith) l (kept (a + d) r₂.1 ∙ r₂.0) q in
        Arrives-then (a + d) (a + (d + 1)) m₁ k c first (elim t [
          | inl (z, h) ↦
              let back =
                Arrives-at (if x == 0 then a else a + d + 1) a m₂ first.chip (rw z refl) jumped in
              Arrives-then a (a + (d + 1)) m₂ k first.chip back (
                until-Does n l m₂ k back.chip back.there
                  (Resident-keep w m.mem m₁.mem a (ws ++ (0x2000 + a) ∷ []) kept r) h)
          | inr (z, h) ↦
              subst (λ o. Arrives (a + (d + 1)) o first.chip) (some_inj.0 h)
                (Arrives-at (if x == 0 then a else a + d + 1) (a + (d + 1)) m₂ first.chip
                  (rw z (omega arith)) jumped)
        ])
