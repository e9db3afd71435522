-- ===== src/Report/Lines.antt =====
-- How many lines are counted.
use qlforth.Prelude.{
  ℕ, ◌+◌, ◌≡◌, refl, ap, ◌∙◌, arith, true, false, List, [], ◌∷◌, ◌++◌, length, ◌==◌,
}
use qlforth.Report.{count_lines, error_line}
use qlforth.Scan.Comments.{AllBut}
use qlforth.Scan.{Text}

-- A byte of a line.
abbrev pub Inner : ℕ → Type 0
Inner c = ((c == 0x0a) ≡ false) × ((c == 0x0d) ≡ false)

-- The bytes of a line count nothing.
count_rest :
    (line rest : Text)
    → AllBut Inner line
    → count_lines false (length (line ++ rest)) (line ++ rest)
      ≡ count_lines false (length rest) rest
unfolding count_lines
count_rest [] rest h = refl
count_rest (c ∷ cs) rest h = rw (h.0.0, h.0.1) (omega (arith, count_rest cs rest h.1))

abbrev pub Lines : List Text → Type 0
Lines [] = Unit
Lines (l ∷ ls) = AllBut Inner l × Lines ls

abbrev pub with_crlf : List Text → Text
with_crlf [] = []
with_crlf (l ∷ ls) = l ++ 0x0d ∷ 0x0a ∷ with_crlf ls

crlf-count :
    (ls : List Text)
    → Lines ls
    → count_lines false (length (with_crlf ls)) (with_crlf ls) ≡ length ls
unfolding count_lines
crlf-count [] h = refl
crlf-count (l ∷ ls) h =
    count_rest l (0x0d ∷ 0x0a ∷ with_crlf ls) h.0
    ∙ ap (λ n. 1 + n) (crlf-count ls h.1)
    ∙ omega arith

-- Where all that is scanned are lines that end in a carriage return and a line feed, empty ones too, the line of the
-- report is the one behind them.
pub error_line-with_crlf :
    (ls : List Text) → Lines ls → error_line (length (with_crlf ls)) (with_crlf ls) ≡ length ls + 1
unfolding error_line
error_line-with_crlf ls h = ap (λ n. 1 + n) (crlf-count ls h) ∙ omega arith

abbrev pub with_lf : List Text → Text
with_lf [] = []
with_lf (l ∷ ls) = l ++ 0x0a ∷ with_lf ls

-- Lines that are not empty.
abbrev pub FullLines : List Text → Type 0
FullLines [] = Unit
FullLines ([] ∷ ls) = ⊥
FullLines ((c ∷ cs) ∷ ls) = Inner c × AllBut Inner cs × FullLines ls

-- The byte that is passed over behind a line feed is one that counts nothing.
skipped-count :
    (ls : List Text)
    → FullLines ls
    → count_lines true (length (with_lf ls)) (with_lf ls)
      ≡ count_lines false (length (with_lf ls)) (with_lf ls)
unfolding count_lines
skipped-count [] h = refl
skipped-count ([] ∷ ls) h = absurd h
skipped-count ((c ∷ cs) ∷ ls) h = rw (h.0.0, h.0.1) (omega arith)

lf-count :
    (ls : List Text)
    → FullLines ls
    → count_lines false (length (with_lf ls)) (with_lf ls) ≡ length ls
unfolding count_lines
lf-count [] h = refl
lf-count ([] ∷ ls) h = absurd h
lf-count ((c ∷ cs) ∷ ls) h =
    count_rest (c ∷ cs) (0x0a ∷ with_lf ls) (h.0, h.1)
    ∙ ap (λ n. 1 + n) (skipped-count ls h.2 ∙ lf-count ls h.2)
    ∙ omega arith

-- Where all that is scanned are lines that end in a line feed, none of them empty, the line of the report is the one
-- behind them.
pub error_line-with_lf :
    (ls : List Text) → FullLines ls → error_line (length (with_lf ls)) (with_lf ls) ≡ length ls + 1
unfolding error_line
error_line-with_lf ls h = ap (λ n. 1 + n) (lf-count ls h) ∙ omega arith
