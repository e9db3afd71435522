-- ===== src/Scan/Words.antt =====
-- A text that is written word by word is read back word by word.
use qlforth.Prelude.{
  ℕ, zero, suc, ◌+◌, ◌≤◌, ◌≡◌, ap, ◌∙◌, arith, refl, false, true, Option, none, some, List, [], ◌∷◌,
  ◌++◌, length,
}
use qlforth.Scan.{
  Text, is_space, skip_spaces, take_word, is_byte, word_room, token_round, token_loop,
  qlforth_token,
}
use qlforth.Scan.Bounds.{AllWord, token_loop-fuel}
use qlforth.Symbols.{Name}

pub take_word-append :
    (room : ℕ) (word rest : Text)
    → length word ≤ room
    → AllWord word
    → take_word room (word ++ b' ' ∷ rest) ≡ (word, b' ' ∷ rest)
unfolding take_word
take_word-append zero [] rest l h = refl
take_word-append zero (c ∷ cs) rest l h = absurd (omega arith)
take_word-append (suc room) [] rest l h = unfold is_space in refl
take_word-append (suc room) (c ∷ cs) rest l h =
    rw (h.0, take_word-append room cs rest (omega arith) h.1) refl

-- A word that is no comment's beginning.
pub record IsWord (word : Name) : Type 0 where
  pub not_empty : 1 ≤ length word
  pub short : length word ≤ 126
  pub no_space : AllWord word
  pub no_paren : is_byte b'(' word ≡ false
  pub no_backslash : is_byte b'\\' word ≡ false

-- With the fuel and the room as variables, which keeps them from being counted out.
loop_word :
    (room fuel : ℕ) (word rest : Text)
    → 1 ≤ length word
    → length word ≤ room
    → AllWord word
    → is_byte b'(' word ≡ false
    → is_byte b'\\' word ≡ false
    → token_loop room (suc fuel) (word ++ b' ' ∷ rest) ≡ some (word, b' ' ∷ rest)
unfolding token_loop skip_spaces token_round
loop_word room fuel [] rest n l h p b = absurd (omega arith)
loop_word room fuel (c ∷ cs) rest n l h p b =
    rw (h.0, take_word-append room (c ∷ cs) rest l h, p, b) refl

pub loop_space :
    (room fuel : ℕ) (c : ℕ) (t : Text)
    → is_space c ≡ true
    → token_loop room (suc fuel) (c ∷ t) ≡ token_loop room (suc fuel) t
unfolding token_loop skip_spaces
loop_space room fuel c t e = rw e refl

pub token-word :
    (word rest : Text)
    → IsWord word
    → qlforth_token (word ++ b' ' ∷ rest) ≡ some (word, b' ' ∷ rest)
unfolding qlforth_token
token-word word rest h =
    let n = length (word ++ b' ' ∷ rest) in
    let e : n + 1 ≡ suc n = omega arith in
    ap (λ f. token_loop word_room f (word ++ b' ' ∷ rest)) e
    ∙ loop_word word_room n word rest h.not_empty h.short h.no_space h.no_paren h.no_backslash

pub token-space : (c : ℕ) (t : Text) → is_space c ≡ true → qlforth_token (c ∷ t) ≡ qlforth_token t
unfolding qlforth_token
token-space c t e =
    let n : length (c ∷ t) + 1 ≡ suc (suc (length t)) = omega arith in
    ap (λ f. token_loop word_room f (c ∷ t)) n
    ∙ loop_space word_room (suc (length t)) c t e
    ∙ token_loop-fuel word_room (omega arith) (suc (suc (length t))) (length t + 1) t (omega arith)
        (omega arith)

pub token_end : qlforth_token [] ≡ none
unfolding qlforth_token token_loop skip_spaces token_round
token_end = refl

-- The words that the loop of `ql4th_interpreter` reads.
abbrev pub next_words : (Text → List Name) → Option (Name × Text) → List Name
next_words again none = []
next_words again (some (word, rest)) = word ∷ again rest

unfoldable pub words : ℕ → Text → List Name
words zero text = []
words (suc fuel) text = next_words (words fuel) (qlforth_token text)

abbrev pub text_of : List Name → Text
text_of [] = []
text_of (word ∷ ws) = word ++ b' ' ∷ text_of ws

abbrev pub AllWords : List Name → Type 0
AllWords [] = Unit
AllWords (word ∷ ws) = IsWord word × AllWords ws

words-space : (n : ℕ) (t : Text) → words (suc n) (b' ' ∷ t) ≡ words (suc n) t
unfolding words
words-space n t = ap (next_words (words n)) (token-space b' ' t (unfold is_space in refl))

-- Words of at most 126 bytes, without spaces and none of them the beginning of a comment, that are written
-- with a space behind each, are read back by as many calls of `QLForth_token`, and one more finds the end.
pub words-text_of : (ws : List Name) → AllWords ws → words (suc (length ws)) (text_of ws) ≡ ws
unfolding words
words-text_of [] h = rw token_end refl
words-text_of (word ∷ ws) h =
    rw (token-word word (text_of ws) h.0) (
      ap (λ (r : List Name). word ∷ r)
        (words-space (length ws) (text_of ws) ∙ words-text_of ws h.1))
