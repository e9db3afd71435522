-- ===== src/Chip/Memory.antt =====
-- The accesses of the chip to its memory and its shifts, where they are defined.
use native.Mathlib.Nat.{pow-le-pow_right}
use qlforth.Prelude.{ℕ, ◌*◌, ◌/◌, ◌^◌, ◌≤◌, ◌<◌, ◌≡◌, arith, some, ok, lt→ltb}
use qlforth.Chip.{Chip, u16, mem_fetch, mem_store, shift_left, shift_right}
use qlforth.Chip.Invariant.{Words}
use qlforth.Machine.{Writable, read, write}

pub word : (v : ℕ) → v < 0x10000 → u16 v ≡ v
word v h = omega arith

-- A specified read is what the chip reads.
pub mem_fetch-read :
    (c : Chip) (a v : ℕ) → Words c.ram → read c.ram a ≡ some v → mem_fetch a c ≡ ok v
unfolding mem_fetch
mem_fetch-read c a v fits e = ground (arith, fits a, word (c.ram a))

-- A specified write is what the chip writes.
pub mem_store-write :
    (w : Writable) (c : Chip) (a v : ℕ) (f : ℕ → ℕ)
    → v < 0x10000
    → write w c.ram a v ≡ some f
    → mem_store a v c ≡ ok (record c { ram = f })
unfolding mem_store
mem_store-write w c a v f fits e = ground (arith, word v)

pub read-lt : (m : ℕ → ℕ) (a v : ℕ) → Words m → read m a ≡ some v → v < 0x10000
read-lt m a v fits e = ground (arith, fits a)

pub div-lt : (n t : ℕ) → n < 0x10000 → n / 2 ^ t < 0x10000
div-lt n t h = grind arith

pub shift_left-defined : (n t : ℕ) → n < 0x10000 → t < 16 → shift_left n t ≡ ok (n * 2 ^ t)
unfolding shift_left
shift_left-defined n t h g =
    let p : 2 ^ t ≤ 2 ^ 15 =
      pow-le-pow_right {n = 2} (omega arith) {i = t} {j = 15} (omega arith) in
    let q : n * 2 ^ t < 2 ^ 31 = grind arith in
    rw (lt→ltb t 32 (omega arith), lt→ltb (n * 2 ^ t) (2 ^ 31) q)

pub shift_right-defined : (n t : ℕ) → t < 32 → shift_right n t ≡ ok (n / 2 ^ t)
unfolding shift_right
shift_right-defined n t h = rw (lt→ltb t 32 h)
