-- ===== src/Chip/Invariant.antt =====
-- The static variables of src/simulator.c stay in the range of their types, and the two stack
-- pointers stay inside the arrays, through every instruction.
use qlforth.Prelude.{
  timeout, ℕ, zero, suc, ◌+◌, ◌/◌, ◌%◌, ◌^◌, ◌<◌, arith, Bool, true, false, Result, ok, error,
  fault, ◌>>=◌, ltb, ◌==◌, if◌then◌else◌, update, Ensures, Ensures-bind, Bool-cases, inl, inr,
}
use qlforth.Chip.{
  Chip, u16, move, bit, push, pop, mem_store, alu, alu_writes, to_pc, conditional_jump, call,
  alu_step, step, ram_words, mem_size_in_byte,
}
use qlforth.Chip.Loop.{execute_loop-halt, execute_loop-suc}
use qlforth.Chip.Run.{Run, halted, stopped, out_of_fuel, fetch, cycle, resume, execute_loop}

-- Every cell of an array is a 16-bit word.
abbrev pub Words : (ℕ → ℕ) → Type 0
Words f = (i : ℕ) → f i < 0x10000

pub record IsValid (c : Chip) : Type 0 where
  pub tos_fits : c.tos < 0x10000
  pub vdp_inside : c.vdp < 32
  pub vrp_inside : c.vrp < 32
  pub dstack_fits : Words c.dstack
  pub rstack_fits : Words c.rstack
  pub ram_fits : Words c.ram

pub Words-update : (f : ℕ → ℕ) (p v : ℕ) → Words f → v < 0x10000 → Words (update f p v)
Words-update f p v h l i = ground (arith, h i)

if-Words :
    (b : Bool) (f : ℕ → ℕ) (p v : ℕ) → Words f → v < 0x10000 → Words (if b then update f p v else f)
if-Words true f p v h l = Words-update f p v h l
if-Words false f p v h l = h

move-lt : (x k : ℕ) → move x k < 32
move-lt x k = omega arith

push-IsValid : (v : ℕ) (c : Chip) → IsValid c → IsValid (push v c)
unfolding push
push-IsValid v c h = record {
  tos_fits = omega arith;
  vdp_inside = omega arith;
  vrp_inside = h.vrp_inside;
  dstack_fits = Words-update c.dstack _ c.tos h.dstack_fits h.tos_fits;
  rstack_fits = h.rstack_fits;
  ram_fits = h.ram_fits;
}

pop-IsValid : (c : Chip) → IsValid c → IsValid (pop c).1
unfolding pop
pop-IsValid c h = record {
  tos_fits = h.dstack_fits c.vdp;
  vdp_inside = omega arith;
  vrp_inside = h.vrp_inside;
  dstack_fits = h.dstack_fits;
  rstack_fits = h.rstack_fits;
  ram_fits = h.ram_fits;
}

to_pc-IsValid : (pc : ℕ) (c : Chip) → IsValid c → IsValid (to_pc pc c).1
to_pc-IsValid pc c h = record {
  tos_fits = h.tos_fits;
  vdp_inside = h.vdp_inside;
  vrp_inside = h.vrp_inside;
  dstack_fits = h.dstack_fits;
  rstack_fits = h.rstack_fits;
  ram_fits = h.ram_fits;
}

conditional_jump-IsValid :
    (target : ℕ) (c : Chip) → IsValid c → IsValid (conditional_jump target c).1
unfolding conditional_jump
conditional_jump-IsValid target c h = to_pc-IsValid _ _ (pop-IsValid c h)

pub call-IsValid_any :
    (target : ℕ) (c : Chip)
    → c.tos < 0x10000
    → c.vdp < 32
    → Words c.dstack
    → Words c.rstack
    → Words c.ram
    → IsValid (call target c).1
unfolding call
call-IsValid_any target c t d ds rs r = record {
  tos_fits = t;
  vdp_inside = d;
  vrp_inside = omega arith;
  dstack_fits = ds;
  rstack_fits = Words-update c.rstack _ _ rs (omega arith);
  ram_fits = r;
}

call-IsValid : (target : ℕ) (c : Chip) → IsValid c → IsValid (call target c).1
call-IsValid target c h =
    call-IsValid_any target c h.tos_fits h.vdp_inside h.dstack_fits h.rstack_fits h.ram_fits

mem_store-IsValid : (addr val : ℕ) (c : Chip) → IsValid c → Ensures IsValid (mem_store addr val c)
unfolding mem_store
mem_store-IsValid addr val c h = stored (ltb addr mem_size_in_byte) (ltb addr ram_words)
  where
    stored :
        (b₁ b₂ : Bool)
        → Ensures IsValid (
            if b₁
            then if b₂ then ok (record c { ram = update c.ram addr (u16 val) }) else fault
            else ok c)
    stored true true = record {
      tos_fits = h.tos_fits;
      vdp_inside = h.vdp_inside;
      vrp_inside = h.vrp_inside;
      dstack_fits = h.dstack_fits;
      rstack_fits = h.rstack_fits;
      ram_fits = Words-update c.ram addr (u16 val) h.ram_fits (omega arith);
    }
    stored true false = tt
    stored false _ = h

set_tos-IsValid : (v : ℕ) (c : Chip) → IsValid c → IsValid (record c { tos = u16 v })
set_tos-IsValid v c h = record {
  tos_fits = omega arith;
  vdp_inside = h.vdp_inside;
  vrp_inside = h.vrp_inside;
  dstack_fits = h.dstack_fits;
  rstack_fits = h.rstack_fits;
  ram_fits = h.ram_fits;
}

if-Ensures {ℓ} :
    {A : Type ℓ} (P : A → Type 0) (b : Bool) (r s : Result A)
    → Ensures P r
    → Ensures P s
    → Ensures P (if b then r else s)
if-Ensures P true r s h g = h
if-Ensures P false r s h g = g

alu_writes-IsValid : (insn v : ℕ) (c : Chip) → IsValid c → Ensures IsValid (alu_writes insn v c)
unfolding alu_writes
alu_writes-IsValid insn v c h =
    Ensures-bind IsValid IsValid _ _
      (if-Ensures IsValid (bit insn 5) _ _ (mem_store-IsValid c.tos c.nos _ moved) moved)
      λ c₂ h₂. set_tos-IsValid v c₂ h₂
  where
    moved : IsValid (record c {
      vdp = move c.vdp (insn % 4);
      vrp = move c.vrp (insn / 4 % 4);
      dstack = if bit insn 7 then update c.dstack (move c.vdp (insn % 4)) c.tos else c.dstack;
      rstack = if bit insn 6 then update c.rstack (move c.vrp (insn / 4 % 4)) c.tos else c.rstack;
    })
    moved = record {
      tos_fits = h.tos_fits;
      vdp_inside = move-lt c.vdp (insn % 4);
      vrp_inside = move-lt c.vrp (insn / 4 % 4);
      dstack_fits = if-Words (bit insn 7) c.dstack _ c.tos h.dstack_fits h.tos_fits;
      rstack_fits = if-Words (bit insn 6) c.rstack _ c.tos h.rstack_fits h.tos_fits;
      ram_fits = h.ram_fits;
    }

latch-IsValid : (c : Chip) (n : ℕ) → IsValid c → IsValid (record c { nos = n })
latch-IsValid c n h = record {
  tos_fits = h.tos_fits;
  vdp_inside = h.vdp_inside;
  vrp_inside = h.vrp_inside;
  dstack_fits = h.dstack_fits;
  rstack_fits = h.rstack_fits;
  ram_fits = h.ram_fits;
}

any-Ensures {ℓ} : {A : Type ℓ} (r : Result A) → Ensures (λ _. Unit {0}) r
any-Ensures (ok a) = tt
any-Ensures (error m) = tt
any-Ensures fault = tt
any-Ensures timeout = tt

abbrev pub ValidNext : ℕ × Chip → Type 0
ValidNext r = IsValid r.1

alu_step-IsValid : (insn : ℕ) (c : Chip) → IsValid c → Ensures ValidNext (alu_step insn c)
unfolding alu_step
alu_step-IsValid insn c h =
    let c₁ = record c { nos = c.dstack c.vdp } in
    let next = if bit insn 12 then c.rstack c.vrp / 2 else c.vpc + 1 in
    Ensures-bind (λ _. Unit) ValidNext (alu (insn / 2 ^ 8 % 16) c₁)
      (λ v. alu_writes insn v c₁ >>= λ c₂. ok (to_pc next c₂))
      (any-Ensures (alu (insn / 2 ^ 8 % 16) c₁))
      λ v _.
        Ensures-bind IsValid ValidNext (alu_writes insn v c₁) (λ c₂. ok (to_pc next c₂))
          (alu_writes-IsValid insn v c₁ (latch-IsValid c (c.dstack c.vdp) h))
          λ c₂ h₂. to_pc-IsValid next c₂ h₂

pub step-IsValid : (insn : ℕ) (c : Chip) → IsValid c → Ensures ValidNext (step insn c)
unfolding step
step-IsValid insn c h =
    if-Ensures ValidNext (bit insn 15) _ _ (to_pc-IsValid _ _ (push-IsValid _ c h)) (
      if-Ensures ValidNext (insn / 2 ^ 13 == 0) _ _ (to_pc-IsValid _ c h) (
        if-Ensures ValidNext (insn / 2 ^ 13 == 1) _ _ (conditional_jump-IsValid _ c h) (
          if-Ensures ValidNext (insn / 2 ^ 13 == 2) _ _ (call-IsValid _ c h) (
            if-Ensures ValidNext (insn / 2 ^ 13 == 3) _ _ (alu_step-IsValid insn c h)
              (to_pc-IsValid _ c h)))))

-- The state of `execute` before its first instruction: the pointers are not yet valid.
pub record IsLoaded (c : Chip) : Type 0 where
  pub tos_fits : c.tos < 0x10000
  pub vdp_inside : c.vdp < 32
  pub dstack_fits : Words c.dstack
  pub rstack_fits : Words c.rstack
  pub ram_fits : Words c.ram

abbrev pub HaltsIn {ℓ} : {A : Type ℓ} → (A → Type 0) → Run A → Type 0
HaltsIn P (halted a) = P a
HaltsIn P stopped = Unit
HaltsIn P out_of_fuel = Unit

cycle-IsValid :
    (insn : ℕ) (c : Chip)
    → Ensures ValidNext (step insn c)
    → Ensures (λ (r : ℕ × ℕ × Chip). IsValid r.2) (cycle insn c)
unfolding cycle
cycle-IsValid insn c h =
    Ensures-bind ValidNext (λ r. IsValid r.2) (step insn c) _ h
      λ r v.
        Ensures-bind (λ _. Unit) (λ r. IsValid r.2) (fetch r.1) _ (any-Ensures (fetch r.1)) λ w _. v

resume-HaltsIn :
    (k : ℕ → ℕ → Chip → Run Chip) (r : Result (ℕ × ℕ × Chip))
    → ((pc insn : ℕ) (c : Chip) → IsValid c → HaltsIn IsValid (k pc insn c))
    → Ensures (λ (r : ℕ × ℕ × Chip). IsValid r.2) r
    → HaltsIn IsValid (resume k r)
resume-HaltsIn k (ok (pc, insn, c)) g h = g pc insn c h
resume-HaltsIn k (error m) g h = tt
resume-HaltsIn k fault g h = tt
resume-HaltsIn k timeout g h = tt

-- Whatever the program, the fuel and the instruction it starts with are, a run from a valid chip that halts
-- ends in a valid chip: registers and cells are 16-bit words and both stack pointers below 32.
pub execute_loop-IsValid :
    (fuel pc insn : ℕ) (c : Chip) → IsValid c → HaltsIn IsValid (execute_loop fuel pc insn c)
unfolding execute_loop
execute_loop-IsValid zero pc insn c h = tt
execute_loop-IsValid (suc fuel) pc insn c h = elim (Bool-cases (pc == 0)) [
  | inl e ↦ rw (execute_loop-halt fuel pc insn c e) h
  | inr e ↦ rw (execute_loop-suc fuel pc insn c e) (
      resume-HaltsIn (execute_loop fuel) (cycle insn c) (execute_loop-IsValid fuel)
        (cycle-IsValid insn c (step-IsValid insn c h)))
]
