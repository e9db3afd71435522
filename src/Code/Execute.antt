-- ===== src/Code/Execute.antt =====
-- Assembled code on the chip: each item of straight-line code does what it means, and the last
-- word returns.
use mathlib.Core.Path.{subst, fun_ext}
use qlforth.Prelude.{
  ℕ, suc, ◌+◌, ◌-◌, ◌/◌, ◌%◌, ◌^◌, ◌≤◌, ◌<◌, ◌≡◌, ◌≢◌, ◌==◌, refl, sym, ap, ◌∙◌, arith, true, false,
  some, List, [], ◌∷◌, ◌++◌, length, Bool-cases, inl, inr, length-append,
}
use qlforth.Chip.{Chip, ram_words}
use qlforth.Chip.Invariant.{IsValid}
use qlforth.Chip.Literal.{Comes, Comes-step, Comes-trans, step-literal_meaning, with_top}
use qlforth.Chip.Refines.{folded, step-meaning, step-meaning_ret}
use qlforth.Chip.ReturnStack.{step-transfer_meaning}
use qlforth.Chip.Views.{Holds}
use qlforth.Code.Assembler.{IsSimple, is_simple, item_words}
use qlforth.Machine.{Machine, Writable, meaning}
use qlforth.Code.Straight.{AllSimple, assemble, assemble_pos}
use qlforth.Machine.Laws.{meaning-mem, plain-ret}
use qlforth.Machine.Programs.{
  Item, lit, op, item_meaning, within, within-some, and_then-some, body_meaning,
}
use qlforth.Opcodes.{opcode, is_plain}
use qlforth.Sst.{SstType, sst_invert}

-- The words stand in the memory from an address on, and no store may change them.
abbrev pub Resident : Writable → (ℕ → ℕ) → ℕ → List ℕ → Type 0
Resident w f a [] = Unit
Resident w f a (x ∷ xs) = (f a ≡ x) × (w a ≡ false) × Resident w f (a + 1) xs

pub Resident-keep :
    (w : Writable) (f g : ℕ → ℕ) (a : ℕ) (xs : List ℕ)
    → ((i : ℕ) → w i ≡ false → g i ≡ f i)
    → Resident w f a xs
    → Resident w g a xs
Resident-keep w f g a [] k r = tt
Resident-keep w f g a (x ∷ xs) k r = (k a r.1 ∙ r.0, r.1, Resident-keep w f g (a + 1) xs k r.2)

-- One round for each word, and then `f` more.
abbrev pub after : List ℕ → ℕ → ℕ
after [] f = f
after (x ∷ xs) f = suc (after xs f)

pub item-mem :
    (x : Item) (w : Writable) (m m' : Machine) (i : ℕ)
    → item_meaning w x m ≡ some m'
    → w i ≡ false
    → m'.mem i ≡ m.mem i
unfolding item_meaning
item-mem (lit v) w m m' i e p = ground arith
item-mem (op t) w m m' i e p = meaning-mem t w m m' i e p

module _ (w : Writable) (c : Chip) (m m' : Machine) (valid : IsValid c) (holds : Holds c m)
    (nz : c.vpc ≢ 0) where
  here : (insn : ℕ) → m.mem c.vpc ≡ insn → c.ram c.vpc ≡ insn
  here insn e = ap (λ f. f c.vpc) holds.memory ∙ e

  pub run-op :
      (t : SstType)
      → is_simple t ≡ true
      → within (meaning w t m) ≡ some m'
      → m.mem c.vpc ≡ opcode t
      → c.vpc + 1 < ram_words
      → Comes suc (c.vpc + 1) m' c
  run-op t s e h l =
      let (means, f₁, f₂) = within-some (meaning w t m) m' e in
      Comes-step (opcode t) (c.vpc + 1) m' c nz (here (opcode t) h) l
        (elim (Bool-cases (is_plain t)) [
          | inl p ↦ step-meaning t p w c m m' valid holds means f₁
          | inr p ↦ step-transfer_meaning t w c m m' (rw p at s) valid holds means f₁ f₂
        ])

  run-literal :
      (v : ℕ)
      → v < 0x8000
      → length m.stack ≤ 32
      → m.mem c.vpc ≡ 0x8000 + v
      → c.vpc + 1 < ram_words
      → Comes suc (c.vpc + 1) (with_top v m) c
  run-literal v b f h l =
      Comes-step (0x8000 + v) (c.vpc + 1) (with_top v m) c nz (here (0x8000 + v) h) l
        (step-literal_meaning v c m b valid holds f)

inverts :
    (w : Writable) (m : Machine) (v' v : ℕ)
    → 0xffff - v' ≡ v % 2 ^ 16
    → length m.stack ≤ 32
    → length m.ret ≤ 32
    → within (meaning w sst_invert (with_top v' m)) ≡ some (with_top (v % 2 ^ 16) m)
unfolding meaning
inverts w m v' v e f g = rw e (ground arith)

-- A number with bit 15 set: the complement, then `INVERT`.
run-inverted :
    (w : Writable) (c : Chip) (m : Machine) (v : ℕ)
    → IsValid c
    → Holds c m
    → c.vpc ≢ 0
    → v < 2 ^ 32
    → v / 0x8000 % 2 ≢ 0
    → length m.stack ≤ 32
    → length m.ret ≤ 32
    → Resident w m.mem c.vpc ((0x8000 + (2 ^ 32 - 1 - v) % 0x8000) ∷ 0x6600 ∷ [])
    → c.vpc + 2 < ram_words
    → Comes (λ f. suc (suc f)) (c.vpc + 2) (with_top (v % 2 ^ 16) m) c
run-inverted w c m v valid holds nz b odd f₁ f₂ r l =
    let v' = (2 ^ 32 - 1 - v) % 0x8000 in
    let first =
      run-literal w c m (with_top v' m) valid holds nz v' (omega arith) f₁ r.0 (omega arith) in
    let d = first.chip in
    let back : 0xffff - v' ≡ v % 2 ^ 16 = omega arith in
    let here : m.mem d.vpc ≡ 0x6600 = ap m.mem first.stands ∙ r.2.0 in
    let means : within (meaning w sst_invert (with_top v' m)) ≡ some (with_top (v % 2 ^ 16) m) =
      inverts w m v' v back f₁ f₂ in
    let second =
      run-op w d (with_top v' m) (with_top (v % 2 ^ 16) m) first.valid first.holds
        (omega (arith, first.stands)) sst_invert refl means here (omega (arith, first.stands)) in
    let stands : d.vpc + 1 ≡ c.vpc + 2 = omega (arith, first.stands) in
    Comes-trans suc suc (c.vpc + 1) (c.vpc + 2) (with_top v' m) (with_top (v % 2 ^ 16) m) c first
      (subst (λ pc. Comes suc pc (with_top (v % 2 ^ 16) m) d) stands second)

-- One item, wherever its words stand.
pub run-item :
    (x : Item) (w : Writable) (c : Chip) (m m' : Machine)
    → IsSimple x
    → IsValid c
    → Holds c m
    → length m.ret ≤ 32
    → c.vpc ≢ 0
    → within (item_meaning w x m) ≡ some m'
    → Resident w m.mem c.vpc (item_words x)
    → c.vpc + length (item_words x) < ram_words
    → Comes (after (item_words x)) (c.vpc + length (item_words x)) m' c
run-item (op t) w c m m' s valid holds f nz e r l =
    run-op w c m m' valid holds nz t s (unfold item_meaning in e) r.0 l
run-item (lit v) w c m m' s valid holds f nz e r l =
    let (same, f₁, _) = within-some (item_meaning w (lit v) m) m' e in
    let top : with_top (v % 2 ^ 16) m ≡ m' = unfold item_meaning in cc same in
    let fits : length m.stack ≤ 32 = unfold item_meaning in ground arith in
    elim (Bool-cases (v / 0x8000 % 2 == 0)) [
      | inl z ↦
          let words : item_words (lit v) ≡ (0x8000 + v % 0x8000) ∷ [] = rw z in
          let low : v % 0x8000 ≡ v % 2 ^ 16 = ground arith in
          subst Claim (sym words)
            (λ r' l'.
              subst (λ n. Comes suc (c.vpc + 1) n c) (ap (λ a. with_top a m) low ∙ top)
                (run-literal w c m m' valid holds nz (v % 0x8000) (omega arith) fits r'.0 l'))
            r l
      | inr z ↦
          let words : item_words (lit v) ≡ (0x8000 + (2 ^ 32 - 1 - v) % 0x8000) ∷ 0x6600 ∷ [] =
            rw z in
          let odd : v / 0x8000 % 2 ≢ 0 = ground arith in
          subst Claim (sym words)
            (λ r' l'.
              subst (λ n. Comes (λ k. suc (suc k)) (c.vpc + 2) n c) top
                (run-inverted w c m v valid holds nz s odd fits f r' l'))
            r l
    ]
  where
    Claim : List ℕ → Type 0
    Claim ws =
        Resident w m.mem c.vpc ws
        → c.vpc + length ws < ram_words
        → Comes (after ws) (c.vpc + length ws) m' c

pub Resident-append :
    (w : Writable) (f : ℕ → ℕ) (a : ℕ) (vs ws : List ℕ)
    → Resident w f a (vs ++ ws)
    → Resident w f a vs × Resident w f (a + length vs) ws
Resident-append w f a [] ws r =
    let e : a ≡ a + 0 = omega arith in (tt, subst (λ b. Resident w f b ws) e r)
Resident-append w f a (v ∷ vs) ws r =
    let rest = Resident-append w f (a + 1) vs ws r.2 in
    let e : a + 1 + length vs ≡ a + suc (length vs) = omega arith in
    ((r.0, r.1, rest.0), subst (λ b. Resident w f b ws) e rest.1)

after-append : (vs ws : List ℕ) (n : ℕ) → after (vs ++ ws) n ≡ after vs (after ws n)
after-append [] ws n = refl
after-append (v ∷ vs) ws n = ap suc (after-append vs ws n)

-- The code of a definition, entered with a return address on the return stack, does what the
-- definition means and goes on at that address.
pub run-body :
    (xs : List Item) (t : SstType) (w : Writable) (c : Chip) (m m' : Machine) (a : ℕ) (rs : List ℕ)
    → AllSimple xs
    → is_plain t ≡ true
    → IsValid c
    → Holds c m
    → length m.ret ≤ 32
    → c.vpc ≢ 0
    → body_meaning w xs t m ≡ some m'
    → m'.ret ≡ a ∷ rs
    → a / 2 < ram_words
    → Resident w m.mem c.vpc (assemble xs t)
    → c.vpc + length (assemble xs t) ≤ ram_words
    → Comes (after (assemble xs t)) (a / 2) (record m' { ret = rs }) c
run-body [] t w c m m' a rs s p valid holds f nz e q b r l =
    let (means, f₁, _) = within-some (meaning w t m) m' (unfold body_meaning in e) in
    Comes-step (folded t) (a / 2) (record m' { ret = rs }) c nz
      (ap (λ g. g c.vpc) holds.memory ∙ r.0) b
      (step-meaning_ret t p w c m m' valid holds means f₁ a rs
        (sym (plain-ret t w m m' p means) ∙ q))
run-body (x ∷ xs) t w c m m' a rs s p valid holds f nz e q b r l =
    let (m₁, e₁, e₂) =
      and_then-some (within (item_meaning w x m)) (body_meaning w xs t) m'
        (unfold body_meaning in e) in
    let (means, _, f₁) = within-some (item_meaning w x m) m₁ e₁ in
    let size = length-append (item_words x) (assemble xs t) in
    let some_left = assemble_pos xs t in
    let (here, behind) = Resident-append w m.mem c.vpc (item_words x) (assemble xs t) r in
    let first = run-item x w c m m₁ s.0 valid holds f nz e₁ here (omega arith) in
    let d = first.chip in
    let behind' =
      Resident-keep w m.mem m₁.mem d.vpc (assemble xs t) (λ i free. item-mem x w m m₁ i means free)
        (subst (λ pc. Resident w m.mem pc (assemble xs t)) (sym first.stands) behind) in
    let second =
      run-body xs t w d m₁ m' a rs s.1 p first.valid first.holds f₁ (omega (arith, first.stands)) e₂
        q b behind' (omega (arith, first.stands)) in
    subst (λ g. Comes g (a / 2) (record m' { ret = rs }) c)
      (fun_ext (λ n. sym (after-append (item_words x) (assemble xs t) n)))
      (Comes-trans (after (item_words x)) (after (assemble xs t)) (c.vpc + length (item_words x))
        (a / 2) m₁ (record m' { ret = rs }) c first second)
