-- ===== src/Code/Flow/Parts.antt =====
-- Loops with a test in the middle and choices on the chip.
use mathlib.Core.Option.{some_inj}
use mathlib.Core.Path.{subst}
use qlforth.Prelude.{
  ℕ, zero, suc, ◌+◌, ◌<◌, ◌≡◌, ◌==◌, refl, ◌∙◌, ap, arith, true, Option, some, List, [], ◌∷◌, ◌++◌,
  length, inl, inr, if◌then◌else◌,
}
use qlforth.Chip.{ram_words}
use qlforth.Code.Execute.{Resident, Resident-keep, run-op}
use qlforth.Code.Flow.Run.{
  Arrives, Arrives-then, Arrives-step, Arrives-at, jump-Arrives, conditional_jump-Arrives, parts,
  Does,
}
use qlforth.Code.Assembler.{is_simple}
use qlforth.Opcodes.{opcode}
use qlforth.Sst.{SstType}
use qlforth.Machine.Flow.Laws.{test-cases, Keeps}
use qlforth.Machine.Flow.{test, while}
use qlforth.Machine.Programs.{within, and_then, and_then-some}
use qlforth.Machine.{Machine, Writable, meaning}

module _ (w : Writable) (a d b : ℕ) (vs ws : List ℕ) (f g : Machine → Option Machine) (pos : 0 < a)
    (keeps : Keeps w f) (keeps_body : Keeps w g) where
  -- What a loop with a test in the middle becomes, with its end at `a + d + b + 2`.
  abbrev pub while_code : List ℕ
  while_code = vs ++ (0x2000 + (a + d + b + 2)) ∷ (ws ++ a ∷ [])

  module _ (long : length vs ≡ d) (long_body : length ws ≡ b) (does : Does w a d vs f)
      (does_body : Does w (a + d + 1) b ws g) where
    pub while-Does :
        (n : ℕ) → a + d + b + 2 < ram_words → Does w a (d + b + 2) while_code (while n f g)
    unfolding while
    while-Does zero l m k c at r e = cc
    while-Does (suc n) l m k c at r e =
        let next : Machine → Option Machine = λ m'. and_then (g m') (while n f g) in
        let (m₁, e₁, e₂) = and_then-some (f m) (test next some) k e in
        let (r₁, r₂) = parts w m.mem a d vs ((0x2000 + (a + d + b + 2)) ∷ (ws ++ a ∷ [])) long r in
        let first = does m m₁ c at r₁ e₁ in
        let kept = keeps m m₁ e₁ in
        let (x, s, q, t) = test-cases next some m₁ k e₂ in
        let m₂ : Machine = record m₁ { stack = s } in
        let end_ = a + d + b + 2 in
        let jumped =
          conditional_jump-Arrives (a + d) m₁ first.chip first.there (omega arith) end_ x s l
            (omega arith) (kept (a + d) r₂.1 ∙ r₂.0) q in
        Arrives-then (a + d) (a + (d + b + 2)) m₁ k c first (elim t [
          | inl (z, h) ↦
              subst (λ o. Arrives (a + (d + b + 2)) o first.chip) (some_inj.0 h)
                (Arrives-at (if x == 0 then end_ else a + d + 1) (a + (d + b + 2)) m₂ first.chip
                  (rw z (omega arith)) jumped)
          | inr (z, h) ↦
              let (m₃, e₃, e₄) = and_then-some (g m₂) (while n f g) k h in
              let kept₃ = keeps_body m₂ m₃ e₃ in
              let inside =
                Arrives-at (if x == 0 then end_ else a + d + 1) (a + d + 1) m₂ first.chip
                  (rw z refl) jumped in
              let (r₃, r₄) = parts w m.mem (a + d + 1) b ws (a ∷ []) long_body r₂.2 in
              let body =
                does_body m₂ m₃ inside.chip inside.there
                  (Resident-keep w m.mem m₁.mem (a + d + 1) ws kept r₃) e₃ in
              let back =
                jump-Arrives (a + d + 1 + b) m₃ body.chip body.there (omega arith) a (omega arith)
                  (kept₃ (a + d + 1 + b) r₄.1 ∙ kept (a + d + 1 + b) r₄.1 ∙ r₄.0) in
              Arrives-then (a + d + 1) (a + (d + b + 2)) m₂ k first.chip inside (
                Arrives-then (a + d + 1 + b) (a + (d + b + 2)) m₃ k inside.chip body (
                  Arrives-then a (a + (d + b + 2)) m₃ k body.chip back (
                    while-Does n l m₃ k back.chip back.there
                      (Resident-keep w m.mem m₃.mem a while_code (λ i p. kept₃ i p ∙ kept i p) r)
                      e₄)))
        ])

-- A choice with one part, and with two.
module _ (w : Writable) (a d : ℕ) (vs : List ℕ) (f : Machine → Option Machine) (pos : 0 < a)
    (does : Does w (a + 1) d vs f) where
  pub if_then-Does :
      a + d + 1 < ram_words → Does w a (d + 1) ((0x2000 + (a + d + 1)) ∷ vs) (test f some)
  if_then-Does l m k c at r e =
      let (x, s, q, t) = test-cases f some m k e in
      let m₁ : Machine = record m { stack = s } in
      let end_ = a + d + 1 in
      let jumped = conditional_jump-Arrives a m c at pos end_ x s l (omega arith) r.0 q in
      elim t [
        | inl (z, h) ↦
            subst (λ o. Arrives (a + (d + 1)) o c) (some_inj.0 h)
              (Arrives-at (if x == 0 then end_ else a + 1) (a + (d + 1)) m₁ c (rw z (omega arith))
                jumped)
        | inr (z, h) ↦
            let inside =
              Arrives-at (if x == 0 then end_ else a + 1) (a + 1) m₁ c (rw z refl) jumped in
            Arrives-then (a + 1) (a + (d + 1)) m₁ k c inside (
              Arrives-at (a + 1 + d) (a + (d + 1)) k inside.chip (omega arith)
                (does m₁ k inside.chip inside.there r.2 h))
      ]

  module _ (b : ℕ) (ws : List ℕ) (g : Machine → Option Machine) (long : length vs ≡ d)
      (keeps : Keeps w f) (does_else : Does w (a + d + 2) b ws g) where
    pub if_else-Does :
        a + d + b + 2 < ram_words
        → Does w a (d + b + 2) ((0x2000 + (a + d + 2)) ∷ (vs ++ (a + d + b + 2) ∷ ws)) (test f g)
    if_else-Does l m k c at r e =
        let (x, s, q, t) = test-cases f g m k e in
        let m₁ : Machine = record m { stack = s } in
        let other = a + d + 2 in
        let end_ = a + d + b + 2 in
        let jumped =
          conditional_jump-Arrives a m c at pos other x s (omega arith) (omega arith) r.0 q in
        let (r₁, r₂) = parts w m.mem (a + 1) d vs (end_ ∷ ws) long r.2 in
        let r₃ = subst (λ p. Resident w m.mem p ws) (omega arith) r₂.2 in
        elim t [
          | inl (z, h) ↦
              let there =
                Arrives-at (if x == 0 then other else a + 1) other m₁ c (rw z refl) jumped in
              Arrives-then other (a + (d + b + 2)) m₁ k c there (
                Arrives-at (a + d + 2 + b) (a + (d + b + 2)) k there.chip (omega arith)
                  (does_else m₁ k there.chip there.there r₃ h))
          | inr (z, h) ↦
              let inside =
                Arrives-at (if x == 0 then other else a + 1) (a + 1) m₁ c (rw z refl) jumped in
              let part = does m₁ k inside.chip inside.there r₁ h in
              let past =
                jump-Arrives (a + 1 + d) k part.chip part.there (omega arith) end_ l
                  (keeps m₁ k h (a + 1 + d) r₂.1 ∙ r₂.0) in
              Arrives-then (a + 1) (a + (d + b + 2)) m₁ k c inside (
                Arrives-then (a + 1 + d) (a + (d + b + 2)) k k inside.chip part
                  (Arrives-at end_ (a + (d + b + 2)) k part.chip (omega arith) past))
        ]

pub word-Does :
    (w : Writable) (a : ℕ) (t : SstType)
    → 0 < a
    → is_simple t ≡ true
    → a + 1 < ram_words
    → Does w a 1 (opcode t ∷ []) (λ m. within (meaning w t m))
word-Does w a t pos s l m k c at r e =
    let here : m.mem c.vpc ≡ opcode t = ap m.mem at.stands ∙ r.0 in
    Arrives-at (c.vpc + 1) (a + 1) k c (omega (arith, at.stands)) (
      Arrives-step (c.vpc + 1) k c (
        run-op w c m k at.valid at.holds (omega (arith, at.stands)) t s e here
          (omega (arith, at.stands))))
