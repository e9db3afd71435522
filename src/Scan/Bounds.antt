-- ===== src/Scan/Bounds.antt =====
-- How much of a text a word takes, and how long it is.
use qlforth.Prelude.{
  ℕ, zero, suc, ◌+◌, ◌<◌, ◌≤◌, ◌≡◌, sym, ◌∙◌, arith, refl, false, Option, none, some, [], ◌∷◌,
  length, Bool-cases, inl, inr, ◌⊎◌,
}
use mathlib.Core.Path.{subst}
use mathlib.Core.Option.{some_inj}
use qlforth.Scan.{
  Text, is_space, skip_spaces, take_word, skip_paren, skip_line, is_byte, word_room, token_round,
  token_loop, qlforth_token,
}
use qlforth.Symbols.{Name}

abbrev pub AllWord : Name → Type 0
AllWord [] = Unit
AllWord (c ∷ cs) = (is_space c ≡ false) × AllWord cs

pub skip_spaces-le : (t : Text) → length (skip_spaces t) ≤ length t
unfolding skip_spaces
skip_spaces-le [] = omega arith
skip_spaces-le (c ∷ cs) = ground (arith, skip_spaces-le cs)

skip_paren-le : (t : Text) → length (skip_paren t) ≤ length t
unfolding skip_paren
skip_paren-le [] = omega arith
skip_paren-le (c ∷ cs) = ground (arith, skip_paren-le cs)

skip_line-le : (t : Text) → length (skip_line t) ≤ length t
unfolding skip_line
skip_line-le [] = omega arith
skip_line-le (c ∷ cs) = ground (arith, skip_line-le cs)

-- What the filling of `token_word` takes from the text.
pub take_word-bounds :
    (room : ℕ) (t : Text)
    → (length (take_word room t).0 ≤ room)
      × (length (take_word room t).0 + length (take_word room t).1 ≡ length t)
      × AllWord (take_word room t).0
unfolding take_word
take_word-bounds zero t = (omega arith, omega arith, tt)
take_word-bounds (suc room) [] = (omega arith, omega arith, tt)
take_word-bounds (suc room) (c ∷ cs) = elim (Bool-cases (is_space c)) [
  | inl e ↦ rw e (omega arith, omega arith, tt)
  | inr e ↦ let h = take_word-bounds room cs in rw e (omega arith, omega arith, (e, h.2))
]

-- The first byte behind the spaces is none.
Starts : Text → Type 0
Starts [] = Unit
Starts (c ∷ cs) = is_space c ≡ false

skip_spaces-Starts : (t : Text) → Starts (skip_spaces t)
unfolding Starts skip_spaces
skip_spaces-Starts [] = tt
skip_spaces-Starts (c ∷ cs) = elim (Bool-cases (is_space c)) [
  | inl e ↦ rw e (skip_spaces-Starts cs)
  | inr e ↦ rw e e
]

take_word_pos :
    (room c : ℕ) (cs : Text)
    → 1 ≤ room
    → is_space c ≡ false
    → 1 ≤ length (take_word room (c ∷ cs)).0
unfolding take_word
take_word_pos zero c cs l e = l
take_word_pos (suc room) c cs l e = rw e (omega arith)

-- A word, and what is left of a text of `n` bytes.
abbrev pub IsToken : ℕ → ℕ → Name × Text → Type 0
IsToken room n r =
    (1 ≤ length r.0) × (length r.0 ≤ room) × AllWord r.0 × (length r.0 + length r.1 ≤ n)

-- What a round does: it goes on with a shorter text, or it finds a word.
RoundOf : ℕ → ℕ → Text → Type 0
RoundOf room c cs =
    ((u : Text) × (length u < length (c ∷ cs))
      × ((f : Text → Option (Name × Text)) → token_round room f (c ∷ cs) ≡ f u))
    ⊎ ((r : Name × Text) × IsToken room (length (c ∷ cs)) r
        × ((f : Text → Option (Name × Text)) → token_round room f (c ∷ cs) ≡ some r))

module _ (room : ℕ) (l : 1 ≤ room) where
  token_round-cases : (c : ℕ) (cs : Text) → is_space c ≡ false → RoundOf room c cs
  unfolding token_round RoundOf
  token_round-cases c cs e =
      let r = take_word room (c ∷ cs) in
      let h = take_word-bounds room (c ∷ cs) in
      let some_taken = take_word_pos room c cs l e in
      elim (Bool-cases (is_byte b'(' r.0)) [
        | inl p ↦ inl (skip_paren r.1, omega (arith, skip_paren-le r.1, h.1), λ f. rw p refl)
        | inr p ↦ elim (Bool-cases (is_byte b'\\' r.0)) [
          | inl q ↦ inl (skip_line r.1, omega (arith, skip_line-le r.1, h.1), λ f. rw (p, q) refl)
          | inr q ↦ inr (r, (some_taken, h.0, h.2, omega (arith, h.1)), λ f. rw (p, q) refl)
        ]
      ]

  no_word : {P : Type 0} {r : Name × Text} → ◌≡◌ {A = Option (Name × Text)} none (some r) → P
  no_word h = cc

  round_end : (again : Text → Option (Name × Text)) → token_round room again [] ≡ none
  unfolding token_round
  round_end again = refl

  -- The word that a round finds, if the rounds after it find words.
  round-IsToken :
      (again : Text → Option (Name × Text)) (t s : Text) (r : Name × Text)
      → Starts s
      → length s ≤ length t
      → ((u : Text) → length u < length s → again u ≡ some r → IsToken room (length u) r)
      → token_round room again s ≡ some r
      → IsToken room (length t) r
  unfolding Starts RoundOf
  round-IsToken again t [] r st le ih h = no_word (sym (round_end again) ∙ h)
  round-IsToken again t (c ∷ cs) r st le ih h = elim (token_round-cases c cs st) [
    | inl (u, shorter, e) ↦
        let k = ih u shorter (sym (e again) ∙ h) in (k.0, k.1, k.2, omega (arith, k.3))
    | inr (q, k, e) ↦
        let same = some_inj.0 (sym (e again) ∙ h) in
        subst (IsToken room (length t)) same (k.0, k.1, k.2, omega (arith, k.3))
  ]

  token_loop-IsToken :
      (fuel : ℕ) (t : Text) (r : Name × Text)
      → token_loop room fuel t ≡ some r
      → IsToken room (length t) r
  unfolding token_loop
  token_loop-IsToken zero t r h = cc
  token_loop-IsToken (suc fuel) t r h =
      round-IsToken (token_loop room fuel) t (skip_spaces t) r (skip_spaces-Starts t)
        (skip_spaces-le t) (λ u l. token_loop-IsToken fuel u r) h

  -- Two rounds that go on alike on shorter texts.
  round-same :
      (f g : Text → Option (Name × Text)) (s : Text)
      → Starts s
      → ((u : Text) → length u < length s → f u ≡ g u)
      → token_round room f s ≡ token_round room g s
  unfolding Starts RoundOf
  round-same f g [] st ih = round_end f ∙ sym (round_end g)
  round-same f g (c ∷ cs) st ih = elim (token_round-cases c cs st) [
    | inl (u, shorter, e) ↦ e f ∙ ih u shorter ∙ sym (e g)
    | inr (q, k, e) ↦ e f ∙ sym (e g)
  ]

  -- With room for one byte at least, the fuel, once it is more than the text is long, makes no difference.
  pub token_loop-fuel :
      (f g : ℕ) (t : Text) → length t < f → length t < g → token_loop room f t ≡ token_loop room g t
  unfolding token_loop
  token_loop-fuel zero g t l₁ l₂ = absurd (omega arith)
  token_loop-fuel (suc f) zero t l₁ l₂ = absurd (omega arith)
  token_loop-fuel (suc f) (suc g) t l₁ l₂ =
      round-same (token_loop room f) (token_loop room g) (skip_spaces t) (skip_spaces-Starts t)
        (λ u l.
          token_loop-fuel f g u (omega (arith, skip_spaces-le t)) (omega (arith, skip_spaces-le t)))

-- A word that `QLForth_token` finds is of 1 to 126 bytes, none of them a space, so that it fits
-- `token_word` with its 0, and the text behind it is shorter than the text by the word at least.
pub qlforth_token-IsToken :
    (t : Text) (r : Name × Text) → qlforth_token t ≡ some r → IsToken word_room (length t) r
unfolding qlforth_token
qlforth_token-IsToken t r h = token_loop-IsToken word_room (omega arith) (length t + 1) t r h
