-- ===== src/Chip/Words.antt =====
-- Each J1 instruction that a word of the target compiles to does what the word means.
use qlforth.Prelude.{
  ℕ, ◌≤◌, ◌<◌, ◌≡◌, ◌==◌, refl, ap, ◌∙◌, arith, Bool, true, false, List, ◌∷◌, length, ltb, Returns,
  Option-cases, Bool-cases, ltb→lt, inl, inr, bit_and-lt, bit_or-lt, bit_xor-lt,
}
use qlforth.Chip.Effects.{
  Effect, Each, round, Data-pop, Each-on_1, Each-on_2, Each-on_ret, keep, exchange, raise, top,
  next,
}
use qlforth.Chip.Memory.{
  word, mem_fetch-read, mem_store-write, read-lt, div-lt, shift_left-defined, shift_right-defined,
}
use qlforth.Chip.{Chip, u16, move, lt_s16, minus_flag}
use qlforth.Chip.Fields.{alu_fields}
use qlforth.Chip.Invariant.{IsValid}
use qlforth.Chip.Views.{Below, Data}
use qlforth.Machine.{Machine, Writable, meaning, signed_lt, flag, read, write}
use qlforth.Opcodes.{is_plain}
use qlforth.Sst.{
  SstType, sst_add, sst_xor, sst_and, sst_or, sst_invert, sst_equal, sst_lt, sst_u_lt, sst_swap,
  sst_dup, sst_drop, sst_over, sst_nip, sst_r_fetch, sst_lshift, sst_rshift, sst_1_sub,
  sst_dup_fetch, sst_2_dup_equal, sst_store_nip, sst_2_dup_store, sst_down_1, sst_copy, sst_fetch,
}

-- Reading the sign bits or flipping them gives the same order.
lt_s16_signed : (a b : ℕ) → a < 0x10000 → b < 0x10000 → lt_s16 a b ≡ signed_lt a b
lt_s16_signed a b ha hb = ground arith

u16-flag : (b : Bool) → u16 (minus_flag b) ≡ flag b
u16-flag true = refl
u16-flag false = refl

abbrev latched : Chip → Chip
latched c = record c { nos = c.dstack c.vdp }

abbrev moved : ℕ → ℕ → Chip → Chip
moved k j c = record c { nos = c.dstack c.vdp; vdp = move c.vdp k; vrp = move c.vrp j }

module _ (c : Chip) (valid : IsValid c) where
  module _ (w : Writable) (j : ℕ) (x : Bool) (r : List ℕ) (b : Below c.rstack c.vrp r) where
    abbrev pub Goal : SstType → Machine → Type 0
    Goal op m = length m.stack ≤ 33 → Returns (Effect c j x m) (round op j x c)

    abbrev pub Sound : SstType → Type 0
    Sound op =
        (s : List ℕ)
        → Data c.tos c.dstack c.vdp s
        → Each (Goal op) (meaning w op (record { stack = s; ret = r; mem = c.ram }))

    -- Two cells give one.
    binary_xor : Sound sst_xor
    unfolding alu_fields meaning
    binary_xor s d =
        Each-on_2 c valid _ _ s
          (λ s' d' fits. (
            refl,
            refl,
            refl,
            refl,
            (word _ (bit_xor-lt 16 c.tos _ (top c valid) (next c valid)), d'),
            refl,
          ))
          d

    binary_and : Sound sst_and
    unfolding alu_fields meaning
    binary_and s d =
        Each-on_2 c valid _ _ s
          (λ s' d' fits. (
            refl,
            refl,
            refl,
            refl,
            (word _ (bit_and-lt 16 c.tos _ (top c valid) (next c valid)), d'),
            refl,
          ))
          d

    binary_or : Sound sst_or
    unfolding alu_fields meaning
    binary_or s d =
        Each-on_2 c valid _ _ s
          (λ s' d' fits. (
            refl,
            refl,
            refl,
            refl,
            (word _ (bit_or-lt 16 c.tos _ (top c valid) (next c valid)), d'),
            refl,
          ))
          d

    flag_equal : u16 (minus_flag (c.tos == c.dstack c.vdp)) ≡ flag (c.dstack c.vdp == c.tos)
    flag_equal = ground arith

    flag_lt :
        u16 (minus_flag (lt_s16 (c.dstack c.vdp) c.tos)) ≡ flag (signed_lt (c.dstack c.vdp) c.tos)
    flag_lt = u16-flag _ ∙ ap flag (lt_s16_signed _ _ (next c valid) (top c valid))

    shifts_right : Sound sst_rshift
    unfolding alu_fields meaning
    shifts_right s d =
        Each-on_2 c valid _ _ s
          (λ s' d'. elim (Bool-cases (ltb c.tos 32)) [
            | inl e ↦ rw e (λ fits.
                rw (shift_right-defined _ c.tos (ltb→lt _ _ e), alu_fields)
                  (refl, refl, refl, refl, (word _ (div-lt _ c.tos (next c valid)), d'), refl))
            | inr e ↦ rw e tt
          ])
          d

    shifts_left : Sound sst_lshift
    unfolding alu_fields meaning
    shifts_left s d =
        Each-on_2 c valid _ _ s
          (λ s' d'. elim (Bool-cases (ltb c.tos 16)) [
            | inl e ↦ rw e (λ fits.
                rw (shift_left-defined _ c.tos (next c valid) (ltb→lt _ _ e), alu_fields)
                  (refl, refl, refl, refl, (refl, d'), refl))
            | inr e ↦ rw e tt
          ])
          d

    fetches : Sound sst_fetch
    unfolding alu_fields meaning
    fetches s d =
        Each-on_1 c valid _ _ s
          (λ s' d'. elim (Option-cases (read c.ram c.tos)) [
            | inl e ↦ rw e tt
            | inr (v, e) ↦ rw e (λ fits.
                rw (mem_fetch-read (latched c) c.tos v valid.ram_fits e, alu_fields)
                  (
                    refl,
                    refl,
                    refl,
                    refl,
                    (word v (read-lt c.ram c.tos v valid.ram_fits e), keep c valid s' d'),
                    refl,
                  ))
          ])
          d

    dup_fetches : Sound sst_dup_fetch
    unfolding alu_fields meaning
    dup_fetches s d =
        Each-on_1 c valid _ _ s
          (λ s' d'. elim (Option-cases (read c.ram c.tos)) [
            | inl e ↦ rw e tt
            | inr (v, e) ↦ rw e (λ fits.
                rw (mem_fetch-read (latched c) c.tos v valid.ram_fits e, alu_fields)
                  (
                    refl,
                    refl,
                    refl,
                    refl,
                    (
                      word v (read-lt c.ram c.tos v valid.ram_fits e),
                      raise c valid s' (omega arith) d',
                    ),
                    refl,
                  ))
          ])
          d

    stores_nip : Sound sst_store_nip
    unfolding alu_fields meaning
    stores_nip s d =
        Each-on_2 c valid _ _ s
          (λ s' d'. elim (Option-cases (write w c.ram c.tos (c.dstack c.vdp))) [
            | inl e ↦ rw e tt
            | inr (f, e) ↦ rw e (λ fits.
                rw
                  (
                    mem_store-write w (moved 3 j c) c.tos (c.dstack c.vdp) f (next c valid) e,
                    alu_fields,
                  )
                  (refl, refl, refl, refl, (word _ (top c valid), d'), refl))
          ])
          d

    dup_stores : Sound sst_2_dup_store
    unfolding alu_fields meaning
    dup_stores s d =
        Each-on_2 c valid _ _ s
          (λ s' d'. elim (Option-cases (write w c.ram c.tos (c.dstack c.vdp))) [
            | inl e ↦ rw e tt
            | inr (f, e) ↦ rw e (λ fits.
                rw
                  (
                    mem_store-write w (moved 0 j c) c.tos (c.dstack c.vdp) f (next c valid) e,
                    alu_fields,
                  )
                  (
                    refl,
                    refl,
                    refl,
                    refl,
                    (word _ (top c valid), keep c valid (c.dstack c.vdp ∷ s') (refl, d')),
                    refl,
                  ))
          ])
          d

    fetched_ret : Sound sst_r_fetch
    unfolding alu_fields meaning
    fetched_ret s d =
        Each-on_1 c valid _ _ s
          (λ s' d'.
            Each-on_ret c valid _ _ r
              (λ rs b' fits. (
                refl,
                refl,
                refl,
                refl,
                (word _ (valid.rstack_fits c.vrp), raise c valid s' (omega arith) d'),
                refl,
              ))
              b)
          d

    pub plain_lem : (op : SstType) → is_plain op ≡ true → Sound op
    unfolding alu_fields meaning
    plain_lem sst_add p s d =
        Each-on_2 c valid _ _ s (λ s' d' fits. (refl, refl, refl, refl, (omega arith, d'), refl)) d
    plain_lem sst_xor p s d = binary_xor s d
    plain_lem sst_and p s d = binary_and s d
    plain_lem sst_or p s d = binary_or s d
    plain_lem sst_invert p s d =
        Each-on_1 c valid _ _ s
          (λ s' d' fits.
            (refl, refl, refl, refl, (omega (arith, (top c valid)), keep c valid s' d'), refl))
          d
    plain_lem sst_equal p s d =
        Each-on_2 c valid _ _ s (λ s' d' fits. (refl, refl, refl, refl, (flag_equal, d'), refl)) d
    plain_lem sst_lt p s d =
        Each-on_2 c valid _ _ s (λ s' d' fits. (refl, refl, refl, refl, (flag_lt, d'), refl)) d
    plain_lem sst_u_lt p s d =
        Each-on_2 c valid _ _ s (λ s' d' fits. (refl, refl, refl, refl, (u16-flag _, d'), refl)) d
    plain_lem sst_swap p s d =
        Each-on_2 c valid _ _ s
          (λ s' d' fits. (
            refl,
            refl,
            refl,
            refl,
            (word _ (next c valid), exchange c valid s' (omega arith) d'),
            refl,
          ))
          d
    plain_lem sst_dup p s d =
        Each-on_1 c valid _ _ s
          (λ s' d' fits. (
            refl,
            refl,
            refl,
            refl,
            (word _ (top c valid), raise c valid s' (omega arith) d'),
            refl,
          ))
          d
    plain_lem sst_drop p s d =
        Each-on_1 c valid _ _ s
          (λ s' d' fits. (refl, refl, refl, refl, Data-pop c valid s' d', refl)) d
    plain_lem sst_over p s d =
        Each-on_2 c valid _ _ s
          (λ s' d' fits. (
            refl,
            refl,
            refl,
            refl,
            (word _ (next c valid), raise c valid (c.dstack c.vdp ∷ s') (omega arith) (refl, d')),
            refl,
          ))
          d
    plain_lem sst_nip p s d =
        Each-on_2 c valid _ _ s
          (λ s' d' fits. (refl, refl, refl, refl, (word _ (top c valid), d'), refl)) d
    plain_lem sst_down_1 p s d =
        Each-on_2 c valid _ _ s
          (λ s' d' fits. (refl, refl, refl, refl, (word _ (top c valid), d'), refl)) d
    plain_lem sst_copy p s d =
        Each-on_2 c valid _ _ s
          (λ s' d' fits. (
            refl,
            refl,
            refl,
            refl,
            (word _ (next c valid), keep c valid (c.dstack c.vdp ∷ s') (refl, d')),
            refl,
          ))
          d
    plain_lem sst_1_sub p s d =
        Each-on_1 c valid _ _ s
          (λ s' d' fits.
            (refl, refl, refl, refl, (omega (arith, (top c valid)), keep c valid s' d'), refl))
          d
    plain_lem sst_2_dup_equal p s d =
        Each-on_2 c valid _ _ s
          (λ s' d' fits. (
            refl,
            refl,
            refl,
            refl,
            (flag_equal, raise c valid (c.dstack c.vdp ∷ s') (omega arith) (refl, d')),
            refl,
          ))
          d
    plain_lem sst_rshift p s d = shifts_right s d
    plain_lem sst_lshift p s d = shifts_left s d
    plain_lem sst_fetch p s d = fetches s d
    plain_lem sst_dup_fetch p s d = dup_fetches s d
    plain_lem sst_store_nip p s d = stores_nip s d
    plain_lem sst_2_dup_store p s d = dup_stores s d
    plain_lem sst_r_fetch p s d = fetched_ret s d
    plain_lem _ p s d = cc
