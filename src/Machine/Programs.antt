-- ===== src/Machine/Programs.antt =====
-- The meaning of a straight-line definition: its words in order, each of which must leave the
-- two stacks within the arrays of the chip.
use qlforth.Prelude.{
  ℕ, ◌%◌, ◌^◌, ◌≡◌, refl, ◌≤◌, arith, ◌&&◌, Option, none, some, List, [], ◌∷◌, length, leb,
  if◌then◌else◌,
}
use qlforth.Machine.{Machine, Writable, meaning}
use qlforth.Sst.{SstType}

-- A word of straight-line code: a number, or a word that is one instruction.
pub data Item : Type 0 where
  lit : ℕ → Item
  op : SstType → Item

unfoldable pub item_meaning : Writable → Item → Machine → Option Machine
item_meaning w (lit v) m = some (record m { stack = v % 2 ^ 16 ∷ m.stack })
item_meaning w (op t) m = meaning w t m

-- A register and 32 cells, and 32 cells.
abbrev pub within : Option Machine → Option Machine
within none = none
within (some m) = if leb (length m.stack) 33 && leb (length m.ret) 32 then some m else none

abbrev pub and_then : Option Machine → (Machine → Option Machine) → Option Machine
and_then none k = none
and_then (some m) k = k m

unfoldable pub body_meaning : Writable → List Item → SstType → Machine → Option Machine
unfolding item_meaning meaning
body_meaning w [] t m = within (meaning w t m)
body_meaning w (x ∷ xs) t m = and_then (within (item_meaning w x m)) (body_meaning w xs t)

pub within-some :
    (o : Option Machine) (m : Machine)
    → within o ≡ some m
    → (o ≡ some m) × (length m.stack ≤ 33) × (length m.ret ≤ 32)
within-some none m e = cc
within-some (some n) m e = ground arith

pub and_then-some :
    (o : Option Machine) (k : Machine → Option Machine) (m : Machine)
    → and_then o k ≡ some m
    → (n : Machine) × (o ≡ some n) × (k n ≡ some m)
and_then-some none k m e = cc
and_then-some (some n) k m e = (n, refl, e)
