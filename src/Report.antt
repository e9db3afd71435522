-- ===== src/Report.antt =====
-- The line that `QLForth_error` of src/qlforth.c finds for its report.
pub mod Lines
mod Tests
use qlforth.Prelude.{ℕ, zero, suc, ◌+◌, Bool, true, false, ◌||◌, [], ◌∷◌, ◌==◌, if◌then◌else◌}
use qlforth.Scan.{Text}

-- `* (pc + 1) == 0x0a`.
abbrev pub starts_with_lf : Text → Bool
starts_with_lf [] = false
starts_with_lf (c ∷ cs) = c == 0x0a

-- Whether the loop's body moves `pc` on by one more: behind every line feed, and from a carriage return to its
-- line feed.
abbrev pub skips : ℕ → Text → Bool
skips c cs = if c == 0x0a then true else if c == 0x0d then starts_with_lf cs else false

abbrev pub line_end : ℕ → ℕ
line_end c = if c == 0x0a || c == 0x0d then 1 else 0

-- The loop, with the bytes that are left before `scan_ptr`, and whether the byte at `pc` is passed over.
unfoldable pub count_lines : Bool → ℕ → Text → ℕ
count_lines skip zero text = 0
count_lines skip (suc n) [] = 0
count_lines true (suc n) (c ∷ cs) = count_lines false n cs
count_lines false (suc n) (c ∷ cs) = line_end c + count_lines (skips c cs) n cs

-- `err_flag`, where `scanned` bytes of the text are behind `scan_ptr`.
unfoldable pub error_line : ℕ → Text → ℕ
unfolding count_lines
error_line scanned text = 1 + count_lines false scanned text
