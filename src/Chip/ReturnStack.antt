-- ===== src/Chip/ReturnStack.antt =====
-- The words that move cells between the two stacks: `>R`, `FOR`, `R>` and `DUP>R`.
use mathlib.Core.Path.{subst}
use qlforth.Prelude.{
  ℕ, ◌+◌, ◌/◌, ◌%◌, ◌^◌, ◌≤◌, ◌<◌, ◌≡◌, refl, ap, ◌∙◌, arith, Bool, true, false, some, Result, List,
  ◌∷◌, length, Returns, Returns-map, update,
}
use qlforth.Chip.{Chip, u16, move, bit, step}
use qlforth.Chip.Decode.{step-alu}
use qlforth.Chip.Effects.{Each, Each-on_1, Each-on_ret, Data-pop, keep, raise, top}
use qlforth.Chip.Fields.{alu_fields, alu_step-fields}
use qlforth.Chip.Invariant.{IsValid}
use qlforth.Chip.Memory.{word}
use qlforth.Chip.Refines.{Reaches, with_IsValid}
use qlforth.Chip.Views.{Below, Data, Holds, Below-push}
use qlforth.Machine.{Machine, Writable, meaning}
use qlforth.Opcodes.{opcode}
use qlforth.Sst.{SstType, sst_noop, sst_to_r, sst_for, sst_r_from, sst_dup_to_r}

abbrev pub is_transfer : SstType → Bool
is_transfer sst_to_r = true
is_transfer sst_for = true
is_transfer sst_r_from = true
is_transfer sst_dup_to_r = true
is_transfer _ = false

-- The whole instruction, by its fields.
abbrev transfer : SstType → Chip → Result (ℕ × Chip)
transfer op c =
    alu_fields (opcode op / 2 ^ 8 % 16) (opcode op % 4) (opcode op / 4 % 4) (bit (opcode op) 7)
      (bit (opcode op) 6) (bit (opcode op) 5) (bit (opcode op) 12) c

abbrev Moved : Chip → Machine → ℕ × Chip → Type 0
Moved c m r =
    (r.0 ≡ c.vpc + 1)
    × (r.1.vpc ≡ u16 r.0)
    × Data r.1.tos r.1.dstack r.1.vdp m.stack
    × Below r.1.rstack r.1.vrp m.ret
    × (r.1.ram ≡ m.mem)

module _ (c : Chip) (valid : IsValid c) (w : Writable) where
  abbrev Claim : SstType → Machine → Type 0
  Claim op m = length m.stack ≤ 33 → length m.ret ≤ 32 → Returns (Moved c m) (transfer op c)

  -- A cell is pushed onto the return stack.
  pushed :
      (r : List ℕ)
      → length r ≤ 31
      → Below c.rstack c.vrp r
      → Below (update c.rstack (move c.vrp 1) c.tos) (move c.vrp 1) (c.tos ∷ r)
  pushed r l b = Below-push c.rstack c.vrp c.tos r valid.vrp_inside l b

  transfer_lem :
      (op : SstType) (s r : List ℕ)
      → is_transfer op ≡ true
      → Data c.tos c.dstack c.vdp s
      → Below c.rstack c.vrp r
      → Each (Claim op) (meaning w op (record { stack = s; ret = r; mem = c.ram }))
  unfolding alu_fields meaning
  transfer_lem sst_to_r s r p d b =
      Each-on_1 c valid _ _ s
        (λ s' d' _ fits. (refl, refl, Data-pop c valid s' d', pushed r (omega arith) b, refl)) d
  transfer_lem sst_for s r p d b =
      Each-on_1 c valid _ _ s
        (λ s' d' _ fits. (refl, refl, Data-pop c valid s' d', pushed r (omega arith) b, refl)) d
  transfer_lem sst_dup_to_r s r p d b =
      Each-on_1 c valid _ _ s
        (λ s' d' _ fits.
          (refl, refl, (word _ (top c valid), keep c valid s' d'), pushed r (omega arith) b, refl))
        d
  transfer_lem sst_r_from s r p d b =
      Each-on_1 c valid _ _ s
        (λ s' d'.
          Each-on_ret c valid _ _ r
            (λ rs b' fits _. (
              refl,
              refl,
              (word _ (valid.rstack_fits c.vrp), raise c valid s' (omega arith) d'),
              b',
              refl,
            ))
            b)
        d
  transfer_lem _ s r p d b = cc

transfer_fields :
    (op : SstType) → is_transfer op ≡ true → (0x6000 ≤ opcode op) × (opcode op < 0x8000)
transfer_fields sst_noop p = cc
transfer_fields _ p = ground arith

step-transfer :
    (op : SstType) (c : Chip) → is_transfer op ≡ true → step (opcode op) c ≡ transfer op c
step-transfer op c p =
    let h = transfer_fields op p in step-alu c (opcode op) h.0 h.1 ∙ alu_step-fields (opcode op) c

-- For `>R`, `FOR`, `R>` and `DUP>R`, where the word has a meaning at `m` whose stacks have at most 33 and 32
-- numbers, a round with the word's instruction, on a valid chip that holds `m`, ends without a fault: it stands at
-- `vpc + 1`, is valid, and holds what the word makes of `m`.
pub step-transfer_meaning :
    (op : SstType) (w : Writable) (c : Chip) (m m' : Machine)
    → is_transfer op ≡ true
    → IsValid c
    → Holds c m
    → meaning w op m ≡ some m'
    → length m'.stack ≤ 33
    → length m'.ret ≤ 32
    → Returns (Reaches (c.vpc + 1) m') (step (opcode op) c)
step-transfer_meaning op w c m m' p valid holds means fits₁ fits₂ =
    Returns-map (step (opcode op) c)
      (λ r (e, v).
        (e.0, e.1 ∙ ap u16 e.0, v, record { data_stack = e.2; ret_stack = e.3; memory = e.4 }))
      (with_IsValid (opcode op) c (Moved c m') valid (rw (step-transfer op c p) moved))
  where
    moved : Returns (Moved c m') (transfer op c)
    moved =
        subst (Each (Claim c valid w op)) means
          (subst
            (λ f.
              Each (Claim c valid w op)
                (meaning w op (record { stack = m.stack; ret = m.ret; mem = f })))
            holds.memory
            (transfer_lem c valid w op m.stack m.ret p holds.data_stack holds.ret_stack))
          fits₁ fits₂
