-- ===== src/Scan/Comments.antt =====
-- A comment is no part of what is read.
use qlforth.Prelude.{
  ℕ, suc, ◌+◌, ◌≡◌, ap, ◌∙◌, arith, refl, false, ◌||◌, [], ◌∷◌, ◌++◌, length, length-append, ◌==◌,
}
use qlforth.Scan.{
  Text, is_space, skip_spaces, take_word, is_byte, skip_paren, skip_line, word_room, token_round,
  token_loop, qlforth_token,
}
use qlforth.Scan.Bounds.{token_loop-fuel}
use qlforth.Scan.Words.{loop_space}

abbrev pub AllBut : (ℕ → Type 0) → Text → Type 0
AllBut P [] = Unit
AllBut P (c ∷ cs) = P c × AllBut P cs

abbrev pub NotParen : ℕ → Type 0
NotParen c = (c == b')') ≡ false

abbrev pub NotNewline : ℕ → Type 0
NotNewline c = (c == b'\r' || c == b'\n') ≡ false

skip_paren-append :
    (comment rest : Text) → AllBut NotParen comment → skip_paren (comment ++ b')' ∷ rest) ≡ rest
unfolding skip_paren
skip_paren-append [] rest h = refl
skip_paren-append (c ∷ cs) rest h = rw (h.0) (skip_paren-append cs rest h.1)

skip_line-append :
    (comment rest : Text)
    → AllBut NotNewline comment
    → skip_line (comment ++ b'\n' ∷ rest) ≡ b'\n' ∷ rest
unfolding skip_line
skip_line-append [] rest h = refl
skip_line-append (c ∷ cs) rest h = rw (h.0) (skip_line-append cs rest h.1)

loop_paren :
    (room fuel : ℕ) (t : Text)
    → token_loop (suc (suc room)) (suc fuel) (b'(' ∷ b' ' ∷ t)
      ≡ token_loop (suc (suc room)) fuel (skip_paren (b' ' ∷ t))
unfolding token_loop skip_spaces token_round take_word is_space is_byte
loop_paren room fuel t = refl

loop_backslash :
    (room fuel : ℕ) (t : Text)
    → token_loop (suc (suc room)) (suc fuel) (b'\\' ∷ b' ' ∷ t)
      ≡ token_loop (suc (suc room)) fuel (skip_line (b' ' ∷ t))
unfolding token_loop skip_spaces token_round take_word is_space is_byte
loop_backslash room fuel t = refl

-- A `(` as a word of its own, text without `)`, and a `)`, also without a space before it, are skipped.
pub token-paren :
    (comment rest : Text)
    → AllBut NotParen comment
    → qlforth_token (b'(' ∷ b' ' ∷ (comment ++ b')' ∷ rest)) ≡ qlforth_token rest
unfolding qlforth_token
token-paren comment rest h =
    let t = comment ++ b')' ∷ rest in
    let size = length-append comment (b')' ∷ rest) in
    let n : length (b'(' ∷ b' ' ∷ t) + 1 ≡ suc (suc (suc (length t))) = omega arith in
    ap (λ f. token_loop word_room f (b'(' ∷ b' ' ∷ t)) n
    ∙ loop_paren 124 (suc (suc (length t))) t
    ∙ ap (token_loop word_room (suc (suc (length t))))
        (skip_paren-append (b' ' ∷ comment) rest (refl, h))
    ∙ token_loop-fuel word_room (omega arith) (suc (suc (length t))) (length rest + 1) rest
        (omega arith) (omega arith)

-- A `\` as a word of its own and the text behind it are skipped to the end of the line.
pub token-backslash :
    (comment rest : Text)
    → AllBut NotNewline comment
    → qlforth_token (b'\\' ∷ b' ' ∷ (comment ++ b'\n' ∷ rest)) ≡ qlforth_token rest
unfolding qlforth_token
token-backslash comment rest h =
    let t = comment ++ b'\n' ∷ rest in
    let size = length-append comment (b'\n' ∷ rest) in
    let n : length (b'\\' ∷ b' ' ∷ t) + 1 ≡ suc (suc (suc (length t))) = omega arith in
    ap (λ f. token_loop word_room f (b'\\' ∷ b' ' ∷ t)) n
    ∙ loop_backslash 124 (suc (suc (length t))) t
    ∙ ap (token_loop word_room (suc (suc (length t))))
        (skip_line-append (b' ' ∷ comment) rest (refl, h))
    ∙ loop_space word_room (suc (length t)) b'\n' rest (unfold is_space in refl)
    ∙ token_loop-fuel word_room (omega arith) (suc (suc (length t))) (length rest + 1) rest
        (omega arith) (omega arith)
