-- ===== src/Chip/Effects.antt =====
-- What one round of an ALU instruction does to the cells of the data stack.
use qlforth.Prelude.{
  ℕ, ◌+◌, ◌/◌, ◌%◌, ◌^◌, ◌≤◌, ◌<◌, ◌≡◌, sym, arith, Bool, false, Option, none, some, Result, List,
  [], ◌∷◌, length, if◌then◌else◌, update,
}
use mathlib.Core.Path.{subst}
use qlforth.Chip.{Chip, u16, move, bit}
use qlforth.Chip.Fields.{alu_fields}
use qlforth.Chip.Invariant.{IsValid}
use qlforth.Chip.Views.{Below, Data, Below-write, Below-push}
use qlforth.Machine.{Machine, on_1, on_2}
use qlforth.Opcodes.{opcode}
use qlforth.Sst.{SstType}

-- `P` holds of the specified effect, if there is one.
abbrev pub Each : (Machine → Type 0) → Option Machine → Type 0
Each P none = Unit
Each P (some m) = P m

-- What a round leaves, when the word leaves `m`: `x` says whether it returns, and `j` moves the
-- return stack.
abbrev pub Effect : Chip → ℕ → Bool → Machine → ℕ × Chip → Type 0
Effect c j x m r =
    (r.0 ≡ (if x then c.rstack c.vrp / 2 else c.vpc + 1))
    × (r.1.vpc ≡ u16 r.0)
    × (r.1.vrp ≡ move c.vrp j)
    × (r.1.rstack ≡ c.rstack)
    × Data r.1.tos r.1.dstack r.1.vdp m.stack
    × (r.1.ram ≡ m.mem)

-- The instruction of `op`, with the fields for the return stack and the return given anew.
abbrev pub round : SstType → ℕ → Bool → Chip → Result (ℕ × Chip)
round op j x c =
    alu_fields (opcode op / 2 ^ 8 % 16) (opcode op % 4) j (bit (opcode op) 7) false
      (bit (opcode op) 5) x c

module _ (c : Chip) (valid : IsValid c) where
  pub Data-pop :
      (xs : List ℕ)
      → Below c.dstack c.vdp xs
      → Data (u16 (c.dstack c.vdp)) c.dstack ((c.vdp + 31) % 32) xs
  Data-pop [] h = tt
  Data-pop (x ∷ xs) h = (omega (arith, valid.dstack_fits c.vdp, h.0), h.1)

  -- The top is the register, the next the cell at `vdp`.
  pub Each-on_1 :
      (P : Machine → Type 0) (k : ℕ → List ℕ → Option Machine) (s : List ℕ)
      → ((s' : List ℕ) → Below c.dstack c.vdp s' → Each P (k c.tos s'))
      → Data c.tos c.dstack c.vdp s
      → Each P (on_1 k s)
  Each-on_1 P k [] g d = tt
  Each-on_1 P k (t ∷ s) g d = subst (λ a. Each P (k a s)) d.0 (g s d.1)

  pub Each-on_2 :
      (P : Machine → Type 0) (k : ℕ → ℕ → List ℕ → Option Machine) (s : List ℕ)
      → ((s' : List ℕ)
          → Below c.dstack ((c.vdp + 31) % 32) s'
          → Each P (k (c.dstack c.vdp) c.tos s'))
      → Data c.tos c.dstack c.vdp s
      → Each P (on_2 k s)
  Each-on_2 P k [] g d = tt
  Each-on_2 P k (t ∷ []) g d = tt
  Each-on_2 P k (t ∷ n ∷ s) g d =
      subst (λ a. Each P (k n a s)) d.0 (subst (λ b. Each P (k b c.tos s)) d.1.0 (g s d.1.1))

  pub Each-on_ret :
      (P : Machine → Type 0) (k : ℕ → List ℕ → Option Machine) (r : List ℕ)
      → ((rs : List ℕ) → Below c.rstack ((c.vrp + 31) % 32) rs → Each P (k (c.rstack c.vrp) rs))
      → Below c.rstack c.vrp r
      → Each P (on_1 k r)
  Each-on_ret P k [] g b = tt
  Each-on_ret P k (a ∷ rs) g b = subst (λ v. Each P (k v rs)) b.0 (g rs b.1)

  pub stay : move c.vdp 0 ≡ c.vdp
  stay = omega (arith, valid.vdp_inside)

  -- The three ways in which the cells below the register move.
  pub keep : (s : List ℕ) → Below c.dstack c.vdp s → Below c.dstack (move c.vdp 0) s
  keep s d = subst (λ p. Below c.dstack p s) (sym stay) d

  pub exchange :
      (s : List ℕ)
      → length s ≤ 31
      → Below c.dstack ((c.vdp + 31) % 32) s
      → Below (update c.dstack (move c.vdp 0) c.tos) (move c.vdp 0) (c.tos ∷ s)
  exchange s l d =
      subst (λ p. Below (update c.dstack p c.tos) p (c.tos ∷ s)) (sym stay)
        (Below-write c.dstack c.vdp c.tos s valid.vdp_inside l d)

  pub raise :
      (s : List ℕ)
      → length s ≤ 31
      → Below c.dstack c.vdp s
      → Below (update c.dstack (move c.vdp 1) c.tos) (move c.vdp 1) (c.tos ∷ s)
  raise s l d = Below-push c.dstack c.vdp c.tos s valid.vdp_inside l d

  pub top : c.tos < 2 ^ 16
  top = valid.tos_fits

  pub next : c.dstack c.vdp < 2 ^ 16
  next = valid.dstack_fits c.vdp
