-- ===== src/Pipeline/Load.antt =====
-- What stands in the chip's memory and on its stack when the host runs a definition.
use qlforth.Prelude.{
  ℕ, zero, suc, ◌+◌, ◌%◌, ◌<◌, ◌≤◌, ◌≡◌, refl, ◌∙◌, arith, true, false, List, [], ◌∷◌, ◌++◌, length,
  map, update, update_ne, update_self, lt→ltb,
}
use qlforth.Chip.Invariant.{Words, Words-update, IsLoaded}
use qlforth.Chip.Refines.{folded}
use qlforth.Chip.Run.{load_stack, chip_load}
use qlforth.Chip.Views.{Below, Data}
use qlforth.Chip.{Chip, u16}
use qlforth.Code.Assembler.{write_words, is_simple}
use qlforth.Code.Execute.{Resident}
use qlforth.Code.Straight.{assemble, AllSimple}
use qlforth.Machine.Programs.{op}
use qlforth.Machine.{Writable}
use qlforth.Opcodes.{opcode, is_plain}
use qlforth.Sst.{SstType}

pub opcode-fits : (t : SstType) → is_simple t ≡ true → opcode t < 0x10000
opcode-fits t h = ground arith

pub folded-fits : (t : SstType) → is_plain t ≡ true → folded t < 0x10000
folded-fits t h = ground arith

unfoldable pub AllFit : List ℕ → Type 0
AllFit [] = Unit
AllFit (x ∷ xs) = (x < 0x10000) × AllFit xs

pub AllFit-append : (vs ws : List ℕ) → AllFit vs → AllFit ws → AllFit (vs ++ ws)
unfolding AllFit
AllFit-append [] ws h k = k
AllFit-append (v ∷ vs) ws h k = (h.0, AllFit-append vs ws h.1 k)

pub assemble-AllFit :
    (os : List SstType) (t : SstType)
    → AllSimple (map op os)
    → is_plain t ≡ true
    → AllFit (assemble (map op os) t)
unfolding AllFit
assemble-AllFit [] t s p = (folded-fits t p, tt)
assemble-AllFit (o ∷ os) t s p = (opcode-fits o s.0, assemble-AllFit os t s.1 p)

pub write_words-Words :
    (f : ℕ → ℕ) (a : ℕ) (ws : List ℕ) → Words f → AllFit ws → Words (write_words f a ws)
unfolding AllFit
write_words-Words f a [] h k = h
write_words-Words f a (w ∷ ws) h k =
    write_words-Words (update f a w) (a + 1) ws (Words-update f a w h k.0) k.1

-- Below the words that are written nothing changes.
write_words-below : (f : ℕ → ℕ) (a : ℕ) (ws : List ℕ) (i : ℕ) → i < a → write_words f a ws i ≡ f i
write_words-below f a [] i l = refl
write_words-below f a (w ∷ ws) i l =
    write_words-below (update f a w) (a + 1) ws i (omega arith) ∙ update_ne f a i w (omega arith)

-- No store may change `n` words from `a` on.
abbrev pub Guarded : Writable → ℕ → ℕ → Type 0
Guarded w a n = (i : ℕ) → a ≤ i → i < a + n → w i ≡ false

pub write_words-Resident :
    (w : Writable) (f : ℕ → ℕ) (a : ℕ) (ws : List ℕ)
    → Guarded w a (length ws)
    → Resident w (write_words f a ws) a ws
write_words-Resident w f a [] g = tt
write_words-Resident w f a (x ∷ xs) g = (
  write_words-below (update f a x) (a + 1) xs a (omega arith) ∙ update_self f a x,
  g a (omega arith) (omega arith),
  write_words-Resident w (update f a x) (a + 1) xs (λ i l m. g i (omega arith) (omega arith)),
)

-- The host's cells 1 to `n` as the chip takes them, the last one first.
abbrev pub taken : ℕ → (ℕ → ℕ) → List ℕ
taken zero stk = []
taken (suc n) stk = u16 (stk (suc n)) ∷ taken n stk

Below-load :
    (depth : ℕ) (stk old : ℕ → ℕ) (n : ℕ)
    → n < depth
    → depth ≤ 32
    → Below (load_stack depth stk old) n (taken n stk)
unfolding load_stack
Below-load depth stk old zero l h = tt
Below-load depth stk old (suc n) l h =
    let down : (suc n + 31) % 32 ≡ n = omega arith in
    rw (lt→ltb (suc n) depth l, down) (refl, Below-load depth stk old n (omega arith) h)

pub chip_load-Data :
    (depth : ℕ) (stk : ℕ → ℕ) (c : Chip)
    → depth ≤ 32
    → Data
        (chip_load depth stk c).tos
        (chip_load depth stk c).dstack
        (chip_load depth stk c).vdp
        (taken depth stk)
unfolding chip_load
chip_load-Data zero stk c h = tt
chip_load-Data (suc n) stk c h =
    let down : (suc n + 31) % 32 ≡ n = omega arith in
    rw down (refl, Below-load (suc n) stk c.dstack n (omega arith) h)

load_stack-Words : (depth : ℕ) (stk old : ℕ → ℕ) → Words old → Words (load_stack depth stk old)
unfolding load_stack
load_stack-Words depth stk old h i = ground (arith, h i)

pub chip_load-IsLoaded :
    (depth : ℕ) (stk : ℕ → ℕ) (c : Chip)
    → Words c.dstack
    → Words c.rstack
    → Words c.ram
    → IsLoaded (chip_load depth stk c)
unfolding chip_load
chip_load-IsLoaded depth stk c d r m = record {
  tos_fits = omega arith;
  vdp_inside = omega arith;
  dstack_fits = load_stack-Words depth stk c.dstack d;
  rstack_fits = r;
  ram_fits = m;
}
