-- ===== src/Scan.antt =====
-- The scanner of src/qlforth.c. A text is the list of its bytes up to the 0 at its end, and `scan_ptr` is
-- what is left of it.
pub mod Bounds
pub mod Words
pub mod Comments
mod Tests
use qlforth.Prelude.{
  ℕ, zero, suc, ◌+◌, Bool, true, false, ◌||◌, not, Option, none, some, List, [], ◌∷◌, length, ◌==◌,
  if◌then◌else◌,
}
use qlforth.Symbols.{Name}

abbrev pub Text : Type 0
Text = List ℕ

unfoldable pub is_space : ℕ → Bool
is_space ch = ch == b' ' || ch == b'\t' || ch == b'\r' || ch == b'\n'

unfoldable pub skip_spaces : Text → Text
skip_spaces [] = []
skip_spaces (c ∷ cs) = let rest = skip_spaces cs in if is_space c then rest else c ∷ cs

-- The loop that fills `token_word`, with the room that is left in it.
unfoldable pub take_word : ℕ → Text → Name × Text
take_word zero cs = ([], cs)
take_word (suc room) [] = ([], [])
take_word (suc room) (c ∷ cs) =
    let (word, rest) = take_word room cs in if is_space c then ([], c ∷ cs) else (c ∷ word, rest)

-- Behind the next `)`, or at the end.
unfoldable pub skip_paren : Text → Text
skip_paren [] = []
skip_paren (c ∷ cs) = let rest = skip_paren cs in if c == b')' then cs else rest

-- At the end of the line.
unfoldable pub skip_line : Text → Text
skip_line [] = []
skip_line (c ∷ cs) = let rest = skip_line cs in if c == b'\r' || c == b'\n' then c ∷ cs else rest

-- `idx == 1 && token_word[0] == c`.
unfoldable pub is_byte : ℕ → Name → Bool
is_byte c [] = false
is_byte c (b ∷ []) = b == c
is_byte c (b ∷ d ∷ bs) = false

-- The body of the loop of `QLForth_token`, with the room of `token_word`, on a text that starts with no
-- space; `again` is `continue`.
unfoldable pub token_round : ℕ → (Text → Option (Name × Text)) → Text → Option (Name × Text)
unfolding take_word is_byte skip_paren skip_line
token_round room again [] = none
token_round room again (c ∷ cs) =
    let (word, rest) = take_word room (c ∷ cs) in
    if is_byte b'(' word
    then again (skip_paren rest)
    else if is_byte b'\\' word
    then again (skip_line rest)
    else some (word, rest)

-- Each round of the loop takes at least one byte of the text, so its length is fuel enough.
unfoldable pub token_loop : ℕ → ℕ → Text → Option (Name × Text)
unfolding skip_spaces token_round
token_loop room zero text = none
token_loop room (suc fuel) text = token_round room (token_loop room fuel) (skip_spaces text)

-- `TEXT_LINE_SIZE - 2`.
abbrev pub word_room : ℕ
word_room = 126

-- The next word and the text behind it; `none` is the end of the text.
unfoldable pub qlforth_token : Text → Option (Name × Text)
unfolding token_loop
qlforth_token text = token_loop word_room (length text + 1) text
