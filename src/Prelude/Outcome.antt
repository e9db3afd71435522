-- ===== src/Prelude/Outcome.antt =====
-- What a C function of the program ends with: a value, a report by `QLForth_error` (which
-- leaves by `longjmp`), a fault, which stands for what C leaves undefined, or a timeout, a run that is longer
-- than the fuel.
use mathlib.Core.Path.{◌≡◌, refl, subst}

-- The messages that `QLForth_error` is called with.
pub data Message : Type 0 where
  memory_full out_of_sst_node expect_a_word word_not_found : Message
  not_in_interactive not_in_interpret not_in_compile not_in_macro : Message
  no_if_for_else no_if_for_endif no_begin_for_while no_while_for_repeat : Message
  no_while_for_until no_do_for_loop no_do_for_leave no_for_for_next : Message
  structure_mismatched state_changed unexpected_end_of_file : Message
  primitive_not_found not_implemented : Message

pub data Result {ℓ} (A : Type ℓ) : Type ℓ where
  ok : A → Result A
  error : Message → Result A
  fault : Result A
  timeout : Result A

infixl 5 ◌>>=◌
abbrev pub ◌>>=◌ {ℓ κ} : {A : Type ℓ} {B : Type κ} → Result A → (A → Result B) → Result B
ok a >>= f = f a
error m >>= f = error m
fault >>= f = fault
timeout >>= f = timeout

-- `P` holds of the value, if there is one.
abbrev pub Ensures {ℓ κ} : {A : Type ℓ} → (A → Type κ) → Result A → Type κ
Ensures P (ok a) = P a
Ensures P (error m) = Unit
Ensures P fault = Unit
Ensures P timeout = Unit

-- There is a value, and `P` holds of it.
abbrev pub Returns {ℓ} : {A : Type ℓ} → (A → Type 0) → Result A → Type 0
Returns P (ok a) = P a
Returns P (error m) = ⊥
Returns P fault = ⊥
Returns P timeout = ⊥

module _ {ℓ} {A : Type ℓ} where
  pub Ensures-bind {κ μ} :
      {B : Type κ} (P : A → Type μ) (Q : B → Type μ) (r : Result A) (k : A → Result B)
      → Ensures P r
      → ((a : A) → P a → Ensures Q (k a))
      → Ensures Q (r >>= k)
  Ensures-bind P Q (ok a) k h g = g a h
  Ensures-bind P Q (error m) k h g = tt
  Ensures-bind P Q fault k h g = tt
  Ensures-bind P Q timeout k h g = tt

  pub Ensures-ok {κ} : (P : A → Type κ) (r : Result A) {a : A} → Ensures P r → r ≡ ok a → P a
  Ensures-ok P (ok b) h e = subst P (cc) h
  Ensures-ok P (error m) h e = cc
  Ensures-ok P fault h e = cc
  Ensures-ok P timeout h e = cc

  pub Returns-bind {κ} :
      {B : Type κ} (P : A → Type 0) (Q : B → Type 0) (r : Result A) (k : A → Result B)
      → Returns P r
      → ((a : A) → P a → Returns Q (k a))
      → Returns Q (r >>= k)
  Returns-bind P Q (ok a) k h g = g a h
  Returns-bind P Q (error m) k h g = absurd h
  Returns-bind P Q fault k h g = absurd h
  Returns-bind P Q timeout k h g = absurd h

  pub Returns-ok : (P : A → Type 0) (r : Result A) → Returns P r → (a : A) × (r ≡ ok a) × P a
  Returns-ok P (ok a) h = (a, refl, h)
  Returns-ok P (error m) h = absurd h
  Returns-ok P fault h = absurd h
  Returns-ok P timeout h = absurd h

  pub Returns-map :
      {P Q : A → Type 0} (r : Result A) → ((a : A) → P a → Q a) → Returns P r → Returns Q r
  Returns-map (ok a) g h = g a h
  Returns-map (error m) g h = h
  Returns-map fault g h = h
  Returns-map timeout g h = h
