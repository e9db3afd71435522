-- ===== src/Chip/Refines.antt =====
-- The J1 instruction of a plain word, alone and with the return folded into it, against the
-- meaning of the word.
use mathlib.Core.Path.{subst, subst₃}
use qlforth.Prelude.{
  timeout, ℕ, ◌+◌, ◌/◌, ◌%◌, ◌^◌, ◌≤◌, ◌<◌, ◌≡◌, refl, sym, ap, ◌∙◌, arith, Bool, true, false, some,
  Result, ok, List, ◌∷◌, length, Returns, Ensures, bit_or, error, fault, Returns-map,
}
use qlforth.Chip.{Chip, u16, move, bit, step}
use qlforth.Chip.Decode.{step-alu}
use qlforth.Chip.Effects.{Effect, Each, round}
use qlforth.Chip.Fields.{alu_step-fields}
use qlforth.Chip.Invariant.{IsValid, step-IsValid}
use qlforth.Chip.Views.{Below, Holds}
use qlforth.Chip.Words.{plain_lem}
use qlforth.Machine.{Machine, Writable, meaning}
use qlforth.Machine.Laws.{plain-ret}
use qlforth.Opcodes.{opcode, is_plain}
use qlforth.Sst.{SstType, sst_noop}

-- The word of `op` with the bits that return.
abbrev pub folded : SstType → ℕ
folded op = bit_or (opcode op) 0x100C

-- The fields of an instruction word, the return-stack fields and the return bit left out.
abbrev SameFields : ℕ → ℕ → Type 0
SameFields a b =
    (a / 2 ^ 8 % 16 ≡ b / 2 ^ 8 % 16)
    × (a % 4 ≡ b % 4)
    × (bit a 7 ≡ bit b 7)
    × (bit a 6 ≡ false)
    × (bit a 5 ≡ bit b 5)

opcode_fields :
    (op : SstType)
    → is_plain op ≡ true
    → (0x6000 ≤ opcode op)
      × (opcode op < 0x8000)
      × (opcode op / 4 % 4 ≡ 0)
      × (bit (opcode op) 6 ≡ false)
      × (bit (opcode op) 12 ≡ false)
opcode_fields sst_noop p = cc
opcode_fields _ p = ground arith

folded_fields :
    (op : SstType)
    → is_plain op ≡ true
    → (0x6000 ≤ folded op)
      × (folded op < 0x8000)
      × (folded op / 4 % 4 ≡ 3)
      × (bit (folded op) 12 ≡ true)
      × SameFields (folded op) (opcode op)
folded_fields sst_noop p = cc
folded_fields _ p = ground arith

step-opcode :
    (op : SstType) (c : Chip) → is_plain op ≡ true → step (opcode op) c ≡ round op 0 false c
step-opcode op c p =
    let h = opcode_fields op p in
    step-alu c (opcode op) h.0 h.1 ∙ alu_step-fields (opcode op) c ∙ rw (h.2, h.3, h.4)

step-folded :
    (op : SstType) (c : Chip) → is_plain op ≡ true → step (folded op) c ≡ round op 3 true c
step-folded op c p =
    let h = folded_fields op p in
    step-alu c (folded op) h.0 h.1
    ∙ alu_step-fields (folded op) c
    ∙ rw (h.2, h.3, h.4.0, h.4.1, h.4.2, h.4.3, h.4.4)

-- A round that goes on at `next` and leaves what the machine `m` has.
abbrev pub Reaches : ℕ → Machine → ℕ × Chip → Type 0
Reaches next m r = (r.0 ≡ next) × (r.1.vpc ≡ u16 next) × IsValid r.1 × Holds r.1 m

pub with_IsValid :
    (insn : ℕ) (c : Chip) (P : ℕ × Chip → Type 0)
    → IsValid c
    → Returns P (step insn c)
    → Returns (λ r. P r × IsValid r.1) (step insn c)
with_IsValid insn c P v h = both (step insn c) h (step-IsValid insn c v)
  where
    both :
        (r : Result (ℕ × Chip))
        → Returns P r
        → Ensures (λ q. IsValid q.1) r
        → Returns (λ q. P q × IsValid q.1) r
    both (ok a) h g = (h, g)
    both (error m) h g = h
    both fault h g = h
    both timeout h g = h

module _ (op : SstType) (plain : is_plain op ≡ true) (w : Writable) (c : Chip) (m m' : Machine)
    (valid : IsValid c) (holds : Holds c m) (means : meaning w op m ≡ some m')
    (fits : length m'.stack ≤ 33) where
  effect : (j : ℕ) (x : Bool) → Returns (Effect c j x m') (round op j x c)
  effect j x =
      subst (Each Claim) means
        (subst (λ f. Each Claim (meaning w op (record { stack = m.stack; ret = m.ret; mem = f })))
          holds.memory
          (plain_lem c valid w j x m.ret holds.ret_stack op plain m.stack holds.data_stack))
        fits
    where
      Claim : Machine → Type 0
      Claim n = length n.stack ≤ 33 → Returns (Effect c j x n) (round op j x c)

  same_ret : m'.ret ≡ m.ret
  same_ret = plain-ret op w m m' plain means

  -- For a plain word that has a meaning at `m`, with at most 33 numbers left on the stack, a round with
  -- the word's instruction, on a valid chip that holds `m`, ends without a fault: it stands at `vpc + 1`, is
  -- valid, and holds what the word makes of `m`.
  pub step-meaning : Returns (Reaches (c.vpc + 1) m') (step (opcode op) c)
  step-meaning =
      Returns-map (step (opcode op) c)
        (λ r (e, v). (
          e.0,
          e.1 ∙ ap u16 e.0,
          v,
          record {
            data_stack = e.4;
            ret_stack =
                subst₃ Below (sym e.3) (sym (e.2 ∙ ret_stay)) (sym same_ret) holds.ret_stack;
            memory = e.5;
          },
        ))
        (with_IsValid (opcode op) c (Effect c 0 false m') valid
          (rw (step-opcode op c plain) (effect 0 false)))
    where
      ret_stay : move c.vrp 0 ≡ c.vrp
      ret_stay = omega (arith, valid.vrp_inside)

  -- Under the same conditions, and with `a` on top of the return stack of the outcome, a round with the
  -- return folded into the instruction ends without a fault, stands at `a / 2`, is valid, and holds the
  -- outcome without that return address.
  pub step-meaning_ret :
      (a : ℕ) (rs : List ℕ)
      → m.ret ≡ a ∷ rs
      → Returns (Reaches (a / 2) (record m' { ret = rs })) (step (folded op) c)
  step-meaning_ret a rs e₀ =
      let below = subst (Below c.rstack c.vrp) e₀ holds.ret_stack in
      Returns-map (step (folded op) c)
        (λ r (e, v). (
          e.0 ∙ ap (λ (t : ℕ). t / 2) below.0,
          e.1 ∙ ap u16 (e.0 ∙ ap (λ (t : ℕ). t / 2) below.0),
          v,
          record {
            data_stack = e.4;
            ret_stack = subst₃ Below (sym e.3) (sym e.2) refl below.1;
            memory = e.5;
          },
        ))
        (with_IsValid (folded op) c (Effect c 3 true m') valid
          (rw (step-folded op c plain) (effect 3 true)))
