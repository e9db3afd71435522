-- ===== src/Machine.antt =====
-- An abstract Forth machine, the specification of the words that src/code.c turns into J1
-- instructions: two stacks as lists, the top first, and a memory of 16-bit words. `none` is a
-- word whose effect is not specified: a stack that is too short, an address behind the memory,
-- a write to a protected word (such as one of the running code), or a shift that is too far.
pub mod Laws
pub mod Programs
pub mod Flow
use qlforth.Prelude.{
  ℕ, ◌+◌, ◌-◌, ◌*◌, ◌/◌, ◌%◌, ◌^◌, Bool, true, false, Option, none, some, List, [], ◌∷◌, ltb, ◌==◌,
  if◌then◌else◌, update, bit_and, bit_or, bit_xor, ◌&&◌, not,
}
use qlforth.Sst
use qlforth.Sst.{
  SstType, sst_noop, sst_add, sst_xor, sst_and, sst_or, sst_invert, sst_equal, sst_lt, sst_u_lt,
  sst_swap, sst_dup, sst_drop, sst_over, sst_nip, sst_to_r, sst_r_from, sst_r_fetch, sst_lshift,
  sst_rshift, sst_1_sub, sst_unloop, sst_dup_fetch, sst_dup_to_r, sst_2_dup_xor, sst_2_dup_equal,
  sst_store_nip, sst_2_dup_store, sst_down_1, sst_copy, sst_for, sst_fetch, sst_store,
}

pub record Machine : Type 0 where
  pub stack : List ℕ
  pub ret : List ℕ
  pub mem : ℕ → ℕ

-- The words of the memory that a store may change.
abbrev pub Writable : Type 0
Writable = ℕ → Bool

abbrev pub on_1 : (ℕ → List ℕ → Option Machine) → List ℕ → Option Machine
on_1 k [] = none
on_1 k (t ∷ s) = k t s

abbrev pub on_2 : (ℕ → ℕ → List ℕ → Option Machine) → List ℕ → Option Machine
on_2 k [] = none
on_2 k (t ∷ []) = none
on_2 k (t ∷ n ∷ s) = k n t s

-- A truth value is all ones or zero.
abbrev pub flag : Bool → ℕ
flag b = if b then 0xffff else 0

-- The order of two 16-bit words read as signed numbers.
abbrev pub signed_lt : ℕ → ℕ → Bool
signed_lt a b =
    if ltb a 0x8000 then ltb b 0x8000 && ltb a b else if ltb b 0x8000 then true else ltb a b

-- The memory proper, and above it the region of the devices, which reads as 0.
abbrev pub read : (ℕ → ℕ) → ℕ → Option ℕ
read mem a = if ltb a 0x2000 then some (mem a) else if ltb a 0x4000 then none else some 0

abbrev pub write : Writable → (ℕ → ℕ) → ℕ → ℕ → Option (ℕ → ℕ)
write w mem a v =
    if ltb a 0x2000
    then if w a then some (update mem a v) else none
    else if ltb a 0x4000
    then none
    else some mem

abbrev pub with_value : Option ℕ → (ℕ → Machine) → Option Machine
with_value none k = none
with_value (some v) k = some (k v)

abbrev pub with_memory : Option (ℕ → ℕ) → ((ℕ → ℕ) → Machine) → Option Machine
with_memory none k = none
with_memory (some f) k = some (k f)

module _ (w : Writable) (m : Machine) where
  -- Only the data stack changes.
  abbrev pub leave : List ℕ → Option Machine
  leave s = some (record m { stack = s })

  abbrev pub store_to : ℕ → ℕ → List ℕ → Option Machine
  store_to a v s = with_memory (write w m.mem a v) (λ f. record m { stack = s; mem = f })

-- The effect of one word.
unfoldable pub meaning : Writable → SstType → Machine → Option Machine
meaning w sst_noop m = some m
meaning w sst_add m = on_2 (λ n t s. leave w m ((n + t) % 2 ^ 16 ∷ s)) m.stack
meaning w sst_xor m = on_2 (λ n t s. leave w m (bit_xor t n ∷ s)) m.stack
meaning w sst_and m = on_2 (λ n t s. leave w m (bit_and t n ∷ s)) m.stack
meaning w sst_or m = on_2 (λ n t s. leave w m (bit_or t n ∷ s)) m.stack
meaning w sst_invert m = on_1 (λ t s. leave w m ((0xffff - t) ∷ s)) m.stack
meaning w sst_equal m = on_2 (λ n t s. leave w m (flag (n == t) ∷ s)) m.stack
meaning w sst_lt m = on_2 (λ n t s. leave w m (flag (signed_lt n t) ∷ s)) m.stack
meaning w sst_u_lt m = on_2 (λ n t s. leave w m (flag (ltb n t) ∷ s)) m.stack
meaning w sst_swap m = on_2 (λ n t s. leave w m (n ∷ t ∷ s)) m.stack
meaning w sst_dup m = on_1 (λ t s. leave w m (t ∷ t ∷ s)) m.stack
meaning w sst_drop m = on_1 (λ t s. leave w m s) m.stack
meaning w sst_over m = on_2 (λ n t s. leave w m (n ∷ t ∷ n ∷ s)) m.stack
meaning w sst_nip m = on_2 (λ n t s. leave w m (t ∷ s)) m.stack
meaning w sst_to_r m = on_1 (λ t s. some (record m { stack = s; ret = t ∷ m.ret })) m.stack
meaning w sst_for m = on_1 (λ t s. some (record m { stack = s; ret = t ∷ m.ret })) m.stack
meaning w sst_r_from m =
    on_1 (λ t s. on_1 (λ r rs. some (record m { stack = r ∷ t ∷ s; ret = rs })) m.ret) m.stack
meaning w sst_r_fetch m = on_1 (λ t s. on_1 (λ r rs. leave w m (r ∷ t ∷ s)) m.ret) m.stack
meaning w sst_lshift m =
    on_2 (λ n t s. if ltb t 16 then leave w m (n * 2 ^ t % 2 ^ 16 ∷ s) else none) m.stack
meaning w sst_rshift m =
    on_2 (λ n t s. if ltb t 32 then leave w m (n / 2 ^ t ∷ s) else none) m.stack
meaning w sst_1_sub m = on_1 (λ t s. leave w m ((t + 0xffff) % 2 ^ 16 ∷ s)) m.stack
meaning w sst_unloop m = on_2 (λ n t rs. some (record m { ret = rs })) m.ret
meaning w sst_dup_fetch m =
    on_1 (λ t s. with_value (read m.mem t) (λ v. record m { stack = v ∷ t ∷ s })) m.stack
meaning w sst_dup_to_r m = on_1 (λ t s. some (record m { stack = t ∷ s; ret = t ∷ m.ret })) m.stack
meaning w sst_2_dup_xor m = on_2 (λ n t s. leave w m (bit_xor t n ∷ t ∷ n ∷ s)) m.stack
meaning w sst_2_dup_equal m = on_2 (λ n t s. leave w m (flag (n == t) ∷ t ∷ n ∷ s)) m.stack
meaning w sst_store_nip m = on_2 (λ n t s. store_to w m t n (t ∷ s)) m.stack
meaning w sst_2_dup_store m = on_2 (λ n t s. store_to w m t n (t ∷ n ∷ s)) m.stack
meaning w sst_down_1 m = on_2 (λ n t s. leave w m (t ∷ s)) m.stack
meaning w sst_copy m = on_2 (λ n t s. leave w m (n ∷ n ∷ s)) m.stack
meaning w sst_fetch m =
    on_1 (λ t s. with_value (read m.mem t) (λ v. record m { stack = v ∷ s })) m.stack
meaning w sst_store m = on_2 (λ n t s. store_to w m t n s) m.stack
meaning w _ m = none
