-- ===== src/Symbols/Tests.antt =====
-- A symbol added to a table in which its name has a symbol already.
use qlforth.Prelude.{◌≡◌, arith, refl, false, some, [], ◌∷◌, map}
use qlforth.Functions.{no_function}
use qlforth.Symbols.{
  Name, Symbols, working_bucket, root_bucket, chain_search, qlf_type_word, symbol_add,
  symbol_search, same_name, to_upper,
}
use qlforth.Symbols.Frame.{IsValid, symbol_add-other}
use qlforth.Symbols.Found.{symbol_add-search}

abbrev dup : Name
dup = b'd' ∷ b'u' ∷ b'p' ∷ []

abbrev one_word : Symbols
one_word = record {
  entries =
      record {
        name = b'D' ∷ b'U' ∷ b'P' ∷ [];
        type = qlf_type_word;
        hidden = false;
        value = 3;
        fun = no_function;
      }
      ∷ [];
  root = λ h. [];
  forth = λ h. 0 ∷ [];
  working = λ h. 0 ∷ [];
  current = working_bucket;
}

one_word-IsValid : IsValid one_word
one_word-IsValid = record {
  root = λ h. tt;
  forth = λ h. (omega arith, tt);
  working = λ h. (omega arith, tt);
}

-- As while a file is read: the words of the host grow, and the target has no `DUP` that is seen.
abbrev reading : Symbols
reading = record {
  entries = one_word.entries;
  root = λ h. 0 ∷ [];
  forth = λ h. [];
  working = λ h. [];
  current = root_bucket;
}

symbol_add-search_example : symbol_search (symbol_add reading dup).0 (map to_upper dup) ≡ some 1
symbol_add-search_example =
    symbol_add-search reading dup
      (record { root = λ h. (omega arith, tt); forth = λ h. tt; working = λ h. tt })
      (unfold chain_search in refl, unfold chain_search in refl)

symbol_add-other_example :
    symbol_search (symbol_add one_word (b'x' ∷ [])).0 (map to_upper dup)
    ≡ symbol_search one_word (map to_upper dup)
symbol_add-other_example =
    symbol_add-other one_word (b'x' ∷ []) (map to_upper dup) one_word-IsValid
      (unfold same_name in unfold to_upper in refl)
