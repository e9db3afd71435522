-- ===== src/Scan/Tests.antt =====
-- The scanner on small texts.
use qlforth.Prelude.{◌≡◌, refl, arith, some, List, [], ◌∷◌, length, ◌++◌}
use qlforth.Code.{bytes}
use qlforth.Scan.Bounds.{IsToken, qlforth_token-IsToken}
use qlforth.Scan.Comments.{token-paren, token-backslash}
use qlforth.Scan.Words.{AllWords, words, text_of, words-text_of}
use qlforth.Scan.{Text, is_space, is_byte, word_room, qlforth_token}
use qlforth.Symbols.{Name}

abbrev line : Text
line = bytes "  ( a b ) DUP +"

first_word : qlforth_token line ≡ some (bytes "DUP", bytes " +")
unfolding qlforth_token is_space
first_word = refl

qlforth_token-IsToken_example : IsToken word_room (length line) (bytes "DUP", bytes " +")
qlforth_token-IsToken_example = qlforth_token-IsToken line (bytes "DUP", bytes " +") first_word

abbrev two_words : List Name
two_words = bytes "DUP" ∷ bytes "+" ∷ []

two_words-AllWords : AllWords two_words
unfolding is_space is_byte
two_words-AllWords = (
  record {
    not_empty = omega arith;
    short = omega arith;
    no_space = (refl, (refl, (refl, tt)));
    no_paren = refl;
    no_backslash = refl;
  },
  (
    record {
      not_empty = omega arith;
      short = omega arith;
      no_space = (refl, tt);
      no_paren = refl;
      no_backslash = refl;
    },
    tt,
  ),
)

words-text_of_example : words 3 (text_of two_words) ≡ two_words
words-text_of_example = words-text_of two_words two_words-AllWords

token-paren_example :
    qlforth_token (b'(' ∷ b' ' ∷ (bytes "a -- b " ++ b')' ∷ bytes " DUP"))
    ≡ qlforth_token (bytes " DUP")
token-paren_example =
    token-paren (bytes "a -- b ") (bytes " DUP")
      (refl, (refl, (refl, (refl, (refl, (refl, (refl, tt)))))))

token-backslash_example :
    qlforth_token (b'\\' ∷ b' ' ∷ (bytes "add" ++ b'\n' ∷ bytes "DUP"))
    ≡ qlforth_token (bytes "DUP")
token-backslash_example = token-backslash (bytes "add") (bytes "DUP") (refl, (refl, (refl, tt)))
