-- ===== src/Chip.antt =====
-- src/simulator.c: the simulator of the J1 chip. Its static variables are a record; an
-- `unsigned short` is a number that is cut to 16 bits where the source assigns it, and an `int`
-- that may be negative is its 32-bit pattern. The trace printed by `mem_fetch` and `mem_store`
-- is left out.
pub mod Run
pub mod Loop
pub mod Views
pub mod Fields
pub mod Effects
pub mod Memory
pub mod Words
pub mod Refines
pub mod ReturnStack
pub mod Literal
pub mod Invariant
pub mod Decode
pub mod Jump
mod Tests
use qlforth.Prelude.{
  ℕ, ◌+◌, ◌-◌, ◌*◌, ◌/◌, ◌%◌, ◌^◌, bit_and, bit_or, bit_xor, Bool, true, false, Result, ok, fault,
  ◌>>=◌, ltb, ◌==◌, if◌then◌else◌, update, ◌&&◌,
}

pub record Chip : Type 0 where
  pub tos : ℕ
  pub nos : ℕ
  pub vdp : ℕ
  pub vrp : ℕ
  pub vpc : ℕ
  pub dstack : ℕ → ℕ
  pub rstack : ℕ → ℕ
  pub ram : ℕ → ℕ

abbrev pub mem_size_in_byte : ℕ
mem_size_in_byte = 0x4000

-- `ram` points to `code_buffer`, an array of `mem_size_in_byte + 1` bytes, which is this many
-- whole 16-bit words.
abbrev pub ram_words : ℕ
ram_words = 0x2000

abbrev pub u16 : ℕ → ℕ
u16 n = n % 2 ^ 16

-- The 32-bit pattern of `-b` for the value `b` of a comparison.
abbrev pub minus_flag : Bool → ℕ
minus_flag b = if b then 2 ^ 32 - 1 else 0

-- `(signed short) a < (signed short) b`: flipping the sign bit turns it into an unsigned test.
abbrev pub lt_s16 : ℕ → ℕ → Bool
lt_s16 a b = ltb ((a + 0x8000) % 2 ^ 16) ((b + 0x8000) % 2 ^ 16)

unfoldable pub push : ℕ → Chip → Chip
push v c =
    let vdp = (c.vdp + 1) % 32 in
    record c { vdp = vdp; dstack = update c.dstack vdp c.tos; tos = u16 v }

-- `vdp - 1` is taken in `int` and masked, so 0 goes to 31.
unfoldable pub pop : Chip → ℕ × Chip
pop c = (c.tos, record c { tos = c.dstack c.vdp; vdp = (c.vdp + 31) % 32 })

-- The guard of the source compares a word index with the size in bytes; an index that passes it
-- and lies behind the array is a fault.
unfoldable pub mem_fetch : ℕ → Chip → Result ℕ
mem_fetch addr c =
    if ltb addr mem_size_in_byte
    then if ltb addr ram_words then ok (u16 (c.ram addr)) else fault
    else ok 0

unfoldable pub mem_store : ℕ → ℕ → Chip → Result Chip
mem_store addr val c =
    if ltb addr mem_size_in_byte
    then if ltb addr ram_words then ok (record c { ram = update c.ram addr (u16 val) }) else fault
    else ok c

-- A shift of an `int` by 32 or more, or one that overflows it, is undefined.
unfoldable pub shift_right : ℕ → ℕ → Result ℕ
shift_right n t = if ltb t 32 then ok (n / 2 ^ t) else fault

unfoldable pub shift_left : ℕ → ℕ → Result ℕ
shift_left n t = if ltb t 32 && ltb (n * 2 ^ t) (2 ^ 31) then ok (n * 2 ^ t) else fault

-- The inner `switch` on bits 8 to 11: the value of `tmp_tos`, an `int`.
unfoldable pub alu : ℕ → Chip → Result ℕ
alu code c =
    if code == 0
    then ok c.tos
    else if code == 1
    then ok c.nos
    else if code == 2
    then ok (c.tos + c.nos)
    else if code == 3
    then ok (bit_and c.tos c.nos)
    else if code == 4
    then ok (bit_or c.tos c.nos)
    else if code == 5
    then ok (bit_xor c.tos c.nos)
    else if code == 6
    then ok (2 ^ 32 - 1 - c.tos)
    else if code == 7
    then ok (minus_flag (c.tos == c.nos))
    else if code == 8
    then ok (minus_flag (lt_s16 c.nos c.tos))
    else if code == 9
    then shift_right c.nos c.tos
    else if code == 10
    then ok ((c.tos + (2 ^ 32 - 1)) % 2 ^ 32)
    else if code == 11
    then ok (c.rstack c.vrp)
    else if code == 12
    then mem_fetch c.tos c
    else if code == 13
    then shift_left c.nos c.tos
    else if code == 14
    then ok (c.vrp * 2 ^ 8 + c.vdp)
    else ok (minus_flag (ltb c.nos c.tos))

-- `x + signed_extension[k]`, masked to five bits.
abbrev pub move : ℕ → ℕ → ℕ
move x k = (x + (if k == 0 then 0 else if k == 1 then 1 else if k == 2 then 30 else 31)) % 32

abbrev pub bit : ℕ → ℕ → Bool
bit insn k = insn / 2 ^ k % 2 == 1

-- `case 3`: the pointers move, then the three writes, then `tos`.
unfoldable pub alu_writes : ℕ → ℕ → Chip → Result Chip
alu_writes insn tmp_tos c = do
  let vdp = move c.vdp (insn % 4)
  let vrp = move c.vrp (insn / 4 % 4)
  let c₁ = record c {
    vdp = vdp;
    vrp = vrp;
    dstack = if bit insn 7 then update c.dstack vdp c.tos else c.dstack;
    rstack = if bit insn 6 then update c.rstack vrp c.tos else c.rstack;
  }
  c₂ ← if bit insn 5 then mem_store c.tos c.nos c₁ else ok c₁
  ok (record c₂ { tos = u16 tmp_tos })

-- The end of a round: `tmp_pc` and the chip with its new `vpc`.
abbrev pub to_pc : ℕ → Chip → ℕ × Chip
to_pc tmp_pc c = (tmp_pc, record c { vpc = u16 tmp_pc })

unfoldable pub conditional_jump : ℕ → Chip → ℕ × Chip
unfolding pop
conditional_jump target c = let (v, c₁) = pop c in to_pc (if v == 0 then target else c.vpc + 1) c₁

unfoldable pub call : ℕ → Chip → ℕ × Chip
call target c =
    let vrp = (c.vrp + 1) % 32 in
    let ret = u16 ((c.vpc + 1) * 2) in
    to_pc target (record c { vrp = vrp; rstack = update c.rstack vrp ret })

unfoldable pub alu_step : ℕ → Chip → Result (ℕ × Chip)
unfolding alu alu_writes
alu_step insn c = do
  let next = if bit insn 12 then c.rstack c.vrp / 2 else c.vpc + 1
  let c₁ = record c { nos = c.dstack c.vdp }
  tmp_tos ← alu (insn / 2 ^ 8 % 16) c₁
  c₂ ← alu_writes insn tmp_tos c₁
  ok (to_pc next c₂)

-- One round of the loop of `execute`, up to the new `vpc`: the value of `tmp_pc`, and the chip.
unfoldable pub step : ℕ → Chip → Result (ℕ × Chip)
unfolding push conditional_jump call alu_step
step insn c =
    let target = insn % 0x2000 in
    let select = insn / 2 ^ 13 in
    if bit insn 15
    then ok (to_pc (c.vpc + 1) (push (insn % 0x8000) c))
    else if select == 0
    then ok (to_pc target c)
    else if select == 1
    then ok (conditional_jump target c)
    else if select == 2
    then ok (call target c)
    else if select == 3
    then alu_step insn c
    else ok (to_pc (c.vpc + 1) c)
