-- ===== src/Symbols/Search.antt =====
-- The new symbol at the end of the table answers to its name.
use qlforth.Prelude.{
  ◌≡◌, arith, refl, true, false, ◌==◌, some, List, [], ◌∷◌, ◌++◌, length, get_elem?,
}
use qlforth.Symbols.{Name, Symbol, same_name, answers}

same_name_self : (name : Name) → same_name name name ≡ true
unfolding same_name
same_name_self [] = refl
same_name_self (b ∷ bs) = let e : (b == b) ≡ true = ground arith in rw (e, same_name_self bs) refl

pub get_elem?-last : (ss : List Symbol) (s : Symbol) → get_elem? (ss ++ s ∷ []) (length ss) ≡ some s
get_elem?-last [] s = refl
get_elem?-last (x ∷ xs) s = get_elem?-last xs s

pub answers-new :
    (ss : List Symbol) (s : Symbol)
    → s.hidden ≡ false
    → answers (ss ++ s ∷ []) s.name (length ss) ≡ true
unfolding answers
answers-new ss s h = rw (get_elem?-last ss s, answers, h, same_name_self s.name) refl
