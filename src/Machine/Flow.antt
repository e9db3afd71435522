-- ===== src/Machine/Flow.antt =====
-- What structured code means on the abstract machine: the tests take the top of the stack.
pub mod Laws
use qlforth.Prelude.{
  ℕ, zero, suc, ◌≡◌, refl, Bool, true, false, Option, none, some, List, [], ◌∷◌, ◌==◌,
}
use qlforth.Control.Structure.{
  Structured, empty, word, then, if_then, if_else, begin_until, begin_while, do_loop, for_next,
}
use qlforth.Machine.Programs.{within, and_then}
use qlforth.Machine.{Machine, Writable, meaning}
use qlforth.Sst.{SstType}

-- The number on top decides: 0 is false.
abbrev pub test : (Machine → Option Machine) → (Machine → Option Machine) → Machine → Option Machine
test go_on leave m = elim m.stack [
  | [] ↦ none
  | x ∷ s ↦ elim (x == 0) [
    | true ↦ leave (record m { stack = s })
    | false ↦ go_on (record m { stack = s })
  ]
]

-- BEGIN .. UNTIL, and BEGIN .. WHILE .. REPEAT with its two parts, of at most so many rounds.
unfoldable pub until : ℕ → (Machine → Option Machine) → Machine → Option Machine
until zero body m = none
until (suc n) body m = and_then (body m) (test some (until n body))

unfoldable pub while :
    ℕ → (Machine → Option Machine) → (Machine → Option Machine) → Machine → Option Machine
while zero cond body m = none
while (suc n) cond body m =
    and_then (cond m) (test (λ k. and_then (body k) (while n cond body)) some)

-- `n` is a bound for the rounds of every loop; `none` is also the meaning of DO and FOR, whose closing words
-- call words of the target that the source does not have.
unfoldable pub flow_meaning : ℕ → Writable → Structured → Machine → Option Machine
unfolding meaning until while
flow_meaning n w empty m = some m
flow_meaning n w (word t) m = within (meaning w t m)
flow_meaning n w (then s u) m = and_then (flow_meaning n w s m) (flow_meaning n w u)
flow_meaning n w (if_then s) m = test (flow_meaning n w s) some m
flow_meaning n w (if_else s u) m = test (flow_meaning n w s) (flow_meaning n w u) m
flow_meaning n w (begin_until s) m = until n (flow_meaning n w s) m
flow_meaning n w (begin_while s u) m = while n (flow_meaning n w s) (flow_meaning n w u) m
flow_meaning n w (do_loop s) m = none
flow_meaning n w (for_next s) m = none

-- Structured code and a last word, which takes the return.
abbrev pub flow_body : ℕ → Writable → Structured → SstType → Machine → Option Machine
flow_body n w s t m = and_then (flow_meaning n w s m) (λ k. within (meaning w t k))
