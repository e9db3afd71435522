-- ===== src/Chip/Views.antt =====
-- The circular stacks of the chip as lists, the top first.
use qlforth.Prelude.{
  ℕ, ◌+◌, ◌-◌, ◌%◌, ◌≤◌, ◌<◌, ◌≡◌, ◌∙◌, arith, List, [], ◌∷◌, length, update, update_ne,
  update_self,
}
use qlforth.Chip.{Chip}
use qlforth.Machine.{Machine}

-- `xs` stands in the array `f` from index `p` downwards.
abbrev pub Below : (ℕ → ℕ) → ℕ → List ℕ → Type 0
Below f p [] = Unit
Below f p (x ∷ xs) = (f p ≡ x) × Below f ((p + 31) % 32) xs

-- The top of the data stack is a register.
abbrev pub Data : ℕ → (ℕ → ℕ) → ℕ → List ℕ → Type 0
Data tos f p [] = Unit
Data tos f p (x ∷ xs) = (tos ≡ x) × Below f p xs

pub record Holds (c : Chip) (m : Machine) : Type 0 where
  pub data_stack : Data c.tos c.dstack c.vdp m.stack
  pub ret_stack : Below c.rstack c.vrp m.ret
  pub memory : c.ram ≡ m.mem

-- A write outside the cells that hold the list leaves it alone.
pub Below-update :
    (f : ℕ → ℕ) (p q v : ℕ) (xs : List ℕ)
    → p < 32
    → q < 32
    → length xs ≤ (p + 32 - q) % 32
    → Below f p xs
    → Below (update f q v) p xs
Below-update f p q v [] hp hq h b = tt
Below-update f p q v (x ∷ xs) hp hq h b = (
  update_ne f q p v (omega arith) ∙ b.0,
  Below-update f ((p + 31) % 32) q v xs (omega arith) hq (omega arith) b.1,
)

-- A write at `q` over the list that ends just below.
pub Below-write :
    (f : ℕ → ℕ) (q v : ℕ) (xs : List ℕ)
    → q < 32
    → length xs ≤ 31
    → Below f ((q + 31) % 32) xs
    → Below (update f q v) q (v ∷ xs)
Below-write f q v xs hq h b =
    (update_self f q v, Below-update f ((q + 31) % 32) q v xs (omega arith) hq (omega arith) b)

-- A push moves the pointer up and writes there.
pub Below-push :
    (f : ℕ → ℕ) (p v : ℕ) (xs : List ℕ)
    → p < 32
    → length xs ≤ 31
    → Below f p xs
    → Below (update f ((p + 1) % 32) v) ((p + 1) % 32) (v ∷ xs)
Below-push f p v xs hp h b =
    let e : ((p + 1) % 32 + 31) % 32 ≡ p = omega arith in
    Below-write f ((p + 1) % 32) v xs (omega arith) h (rw e b)
