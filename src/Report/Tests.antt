-- ===== src/Report/Tests.antt =====
-- Lines of both kinds, and an empty line that is not counted.
use qlforth.Prelude.{◌≡◌, refl, List, [], ◌∷◌, length}
use qlforth.Code.{bytes}
use qlforth.Report.Lines.{with_crlf, with_lf, error_line-with_crlf, error_line-with_lf}
use qlforth.Report.{error_line}
use qlforth.Scan.{Text}

abbrev with_empty : List Text
with_empty = bytes "A" ∷ [] ∷ bytes "B" ∷ []

error_line-with_crlf_example : error_line (length (with_crlf with_empty)) (with_crlf with_empty) ≡ 4
error_line-with_crlf_example =
    error_line-with_crlf with_empty (((refl, refl), tt), (tt, (((refl, refl), tt), tt)))

abbrev full : List Text
full = bytes "A" ∷ bytes "B" ∷ []

error_line-with_lf_example : error_line (length (with_lf full)) (with_lf full) ≡ 3
error_line-with_lf_example = error_line-with_lf full ((refl, refl), tt, ((refl, refl), tt, tt))

empty-line : error_line (length (with_lf with_empty)) (with_lf with_empty) ≡ 3
unfolding error_line
empty-line = refl
