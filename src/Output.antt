-- ===== src/Output.antt =====
-- What the program prints: the texts and conversions of its printf calls, in their order.
use Prim.Native.String.{String}
use qlforth.Prelude.{ℕ, List}
use qlforth.Symbols.{Name}

-- A text, a number in the conversion of its name (%d, %08X, %04x, %6.2f), a word, and the name of the file.
pub data Piece : Type 0 where
  chars : String → Piece
  decimal hex8 hex4 fixed2 : ℕ → Piece
  letters : Name → Piece
  file_name : Piece

abbrev pub Output : Type 0
Output = List Piece
