-- ===== src/Machine/Flow/Laws.antt =====
-- Structured code leaves protected words of the memory alone.
use qlforth.Prelude.{
  ℕ, zero, suc, ◌≡◌, ◌==◌, refl, sym, ◌∙◌, ap, true, false, Bool-cases, Option, some, List, [], ◌∷◌,
  ◌⊎◌, inl, inr,
}
use qlforth.Control.Structure.{
  Structured, empty, word, then, if_then, if_else, begin_until, begin_while, do_loop, for_next,
}
use qlforth.Machine.Flow.{test, until, while, flow_meaning}
use qlforth.Machine.Laws.{meaning-mem}
use qlforth.Machine.Programs.{and_then, within-some, and_then-some}
use qlforth.Machine.{Machine, Writable, meaning}
use mathlib.Core.Option.{some_inj}

-- What a test found, and where it went.
abbrev pub Tested :
    (Machine → Option Machine) → (Machine → Option Machine) → Machine → Machine → Type 0
Tested f g m k =
    (x : ℕ) × (s : List ℕ) × (m.stack ≡ x ∷ s)
    × (((x == 0) ≡ true) × (g (record m { stack = s }) ≡ some k)
        ⊎ ((x == 0) ≡ false) × (f (record m { stack = s }) ≡ some k))

pub test-cases :
    (f g : Machine → Option Machine) (m k : Machine) → test f g m ≡ some k → Tested f g m k
test-cases f g m k e = split m.stack e
  where
    split :
        (l : List ℕ)
        → test f g (record m { stack = l }) ≡ some k
        → Tested f g (record m { stack = l }) k
    split [] h = cc
    split (x ∷ s) h = elim (Bool-cases (x == 0)) [
      | inl z ↦ (x, s, refl, inl (z, rw (test, z) at h))
      | inr z ↦ (x, s, refl, inr (z, rw (test, z) at h))
    ]

module _ (w : Writable) where
  -- The words that no store may change are the same.
  abbrev pub Kept : Machine → Machine → Type 0
  Kept m k = (i : ℕ) → w i ≡ false → k.mem i ≡ m.mem i

  abbrev pub Keeps : (Machine → Option Machine) → Type 0
  Keeps f = (m k : Machine) → f m ≡ some k → Kept m k

  test-Keeps : (f g : Machine → Option Machine) → Keeps f → Keeps g → Keeps (test f g)
  test-Keeps f g p q m k e = elim (test-cases f g m k e).3 [ inl h ↦ q _ k h.1 | inr h ↦ p _ k h.1 ]

  some-Keeps : Keeps some
  some-Keeps m k e i z = ap (λ (n : Machine). n.mem i) (sym (some_inj.0 e))

  and_then-Keeps :
      (f g : Machine → Option Machine) → Keeps f → Keeps g → Keeps (λ m. and_then (f m) g)
  and_then-Keeps f g p q m k e i z =
      let (n, e₁, e₂) = and_then-some (f m) g k e in q n k e₂ i z ∙ p m n e₁ i z

  until-Keeps : (n : ℕ) (f : Machine → Option Machine) → Keeps f → Keeps (until n f)
  unfolding until
  until-Keeps zero f p m k e = cc
  until-Keeps (suc n) f p m k e =
      and_then-Keeps f (test some (until n f)) p
        (test-Keeps some (until n f) some-Keeps (until-Keeps n f p)) m k e

  while-Keeps : (n : ℕ) (f g : Machine → Option Machine) → Keeps f → Keeps g → Keeps (while n f g)
  unfolding while
  while-Keeps zero f g p q m k e = cc
  while-Keeps (suc n) f g p q m k e =
      and_then-Keeps f (test (λ l. and_then (g l) (while n f g)) some) p
        (test-Keeps (λ l. and_then (g l) (while n f g)) some
          (and_then-Keeps g (while n f g) q (while-Keeps n f g p q)) some-Keeps)
        m k e

  pub flow-Kept :
      (n : ℕ) (s : Structured) (m k : Machine) → flow_meaning n w s m ≡ some k → Kept m k
  unfolding flow_meaning
  flow-Kept n empty m k e = some-Keeps m k e
  flow-Kept n (word t) m k e = λ i z. meaning-mem t w m k i (within-some (meaning w t m) k e).0 z
  flow-Kept n (then s u) m k e =
      and_then-Keeps (flow_meaning n w s) (flow_meaning n w u) (flow-Kept n s) (flow-Kept n u) m k e
  flow-Kept n (if_then s) m k e =
      test-Keeps (flow_meaning n w s) some (flow-Kept n s) some-Keeps m k e
  flow-Kept n (if_else s u) m k e =
      test-Keeps (flow_meaning n w s) (flow_meaning n w u) (flow-Kept n s) (flow-Kept n u) m k e
  flow-Kept n (begin_until s) m k e = until-Keeps n (flow_meaning n w s) (flow-Kept n s) m k e
  flow-Kept n (begin_while s u) m k e =
      while-Keeps n (flow_meaning n w s) (flow_meaning n w u) (flow-Kept n s) (flow-Kept n u) m k e
  flow-Kept n (do_loop s) m k e = cc
  flow-Kept n (for_next s) m k e = cc
