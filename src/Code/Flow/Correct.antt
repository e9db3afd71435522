-- ===== src/Code/Flow/Correct.antt =====
-- Structured code on the chip does what it means.
use mathlib.Core.Option.{some_inj}
use mathlib.Core.Path.{subst}
use qlforth.Prelude.{ℕ, ◌+◌, ◌<◌, arith}
use qlforth.Chip.{ram_words}
use qlforth.Code.Execute.{Resident-keep}
use qlforth.Code.Flow.Run.{Arrives, Arrives-here, Arrives-then, Arrives-at, parts, Does, until-Does}
use qlforth.Code.Flow.{width, flow_code, IsFlow, length-flow_code}
use qlforth.Control.Structure.{
  Structured, empty, word, then, if_then, if_else, begin_until, begin_while, do_loop, for_next,
}
use qlforth.Machine.Flow.Laws.{flow-Kept}
use qlforth.Machine.Flow.{flow_meaning}
use qlforth.Machine.Programs.{and_then-some}
use qlforth.Machine.{Writable}
use qlforth.Code.Flow.Parts.{while-Does, if_then-Does, if_else-Does, word-Does}

-- Let structured code of one-instruction words, IF, ELSE, ENDIF, BEGIN, UNTIL, WHILE and REPEAT have its words at `a`
-- in the memory of a valid chip that stands there and holds `m`, where no store may change them. If the code, with
-- every loop bounded by `n` rounds, means that `m` becomes `k`, then the chip comes to the word behind the code, valid
-- and holding `k`, after some number of rounds.
pub flow_code-Does :
    (n : ℕ) (w : Writable) (s : Structured) (a : ℕ)
    → IsFlow s
    → 0 < a
    → a + width s < ram_words
    → Does w a (width s) (flow_code a s) (flow_meaning n w s)
unfolding flow_meaning
flow_code-Does n w empty a h pos l = λ m k c at r e.
    subst (λ o. Arrives (a + 0) o c) (some_inj.0 e)
      (Arrives-at a (a + 0) m c (omega arith) (Arrives-here a m c at))
flow_code-Does n w (word t) a h pos l = word-Does w a t pos h l
flow_code-Does n w (then s u) a h pos l = λ m k c at r e.
    let (m₁, e₁, e₂) = and_then-some (flow_meaning n w s m) (flow_meaning n w u) k e in
    let (r₁, r₂) =
      parts w m.mem a (width s) (flow_code a s) (flow_code (a + width s) u)
        (length-flow_code a s h.0) r in
    let first = flow_code-Does n w s a h.0 pos (omega arith) m m₁ c at r₁ e₁ in
    Arrives-then (a + width s) (a + (width s + width u)) m₁ k c first (
      Arrives-at (a + width s + width u) (a + (width s + width u)) k first.chip (omega arith) (
        flow_code-Does n w u (a + width s) h.1 (omega arith) (omega arith) m₁ k first.chip
          first.there
          (Resident-keep w m.mem m₁.mem (a + width s) (flow_code (a + width s) u)
            (flow-Kept w n s m m₁ e₁) r₂)
          e₂))
flow_code-Does n w (if_then s) a h pos l =
    if_then-Does w a (width s) (flow_code (a + 1) s) (flow_meaning n w s) pos
      (flow_code-Does n w s (a + 1) h (omega arith) (omega arith)) (omega arith)
flow_code-Does n w (if_else s u) a h pos l =
    if_else-Does w a (width s) (flow_code (a + 1) s) (flow_meaning n w s) pos
      (flow_code-Does n w s (a + 1) h.0 (omega arith) (omega arith)) (width u)
      (flow_code (a + width s + 2) u) (flow_meaning n w u) (length-flow_code (a + 1) s h.0)
      (flow-Kept w n s) (flow_code-Does n w u (a + width s + 2) h.1 (omega arith) (omega arith))
      (omega arith)
flow_code-Does n w (begin_until s) a h pos l =
    until-Does w a (width s) (flow_code a s) (flow_meaning n w s) pos (length-flow_code a s h)
      (flow_code-Does n w s a h pos (omega arith)) (flow-Kept w n s) n (omega arith)
flow_code-Does n w (begin_while s u) a h pos l =
    while-Does w a (width s) (width u) (flow_code a s) (flow_code (a + width s + 1) u)
      (flow_meaning n w s) (flow_meaning n w u) pos (flow-Kept w n s) (flow-Kept w n u)
      (length-flow_code a s h.0) (length-flow_code (a + width s + 1) u h.1)
      (flow_code-Does n w s a h.0 pos (omega arith))
      (flow_code-Does n w u (a + width s + 1) h.1 (omega arith) (omega arith)) n (omega arith)
flow_code-Does n w (do_loop s) a h pos l = absurd h
flow_code-Does n w (for_next s) a h pos l = absurd h
