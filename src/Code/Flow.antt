-- ===== src/Code/Flow.antt =====
-- The code of structured code, with every jump at its address.
pub mod Nodes
pub mod Marks
pub mod Passes
pub mod Resolve
pub mod Linked
pub mod Branches
pub mod Generation
pub mod Definition
pub mod Run
pub mod Parts
pub mod Correct
use qlforth.Prelude.{ℕ, ◌+◌, ◌≡◌, true, arith, List, [], ◌∷◌, ◌++◌, length, length-append, refl}
use qlforth.Code.Assembler.{is_simple}
use qlforth.Control.Structure.{
  Structured, empty, word, then, if_then, if_else, begin_until, begin_while, do_loop, for_next,
}
use qlforth.Opcodes.{opcode}

-- The words of structured code, and their number.
abbrev pub width : Structured → ℕ
width empty = 0
width (word t) = 1
width (then s u) = width s + width u
width (if_then s) = width s + 1
width (if_else s u) = width s + width u + 2
width (begin_until s) = width s + 1
width (begin_while s u) = width s + width u + 2
width (do_loop s) = width s
width (for_next s) = width s

-- A conditional jump has its address below 0x2000 added to 0x2000; a jump is its address.
abbrev pub flow_code : ℕ → Structured → List ℕ
flow_code a empty = []
flow_code a (word t) = opcode t ∷ []
flow_code a (then s u) = flow_code a s ++ flow_code (a + width s) u
flow_code a (if_then s) = (0x2000 + (a + width s + 1)) ∷ flow_code (a + 1) s
flow_code a (if_else s u) =
    (0x2000 + (a + width s + 2))
    ∷ (flow_code (a + 1) s ++ (a + width s + width u + 2) ∷ flow_code (a + width s + 2) u)
flow_code a (begin_until s) = flow_code a s ++ (0x2000 + a) ∷ []
flow_code a (begin_while s u) =
    flow_code a s
    ++ (0x2000 + (a + width s + width u + 2)) ∷ (flow_code (a + width s + 1) u ++ a ∷ [])
flow_code a (do_loop s) = []
flow_code a (for_next s) = []

-- Code of one-instruction words and branches.
abbrev pub IsFlow : Structured → Type 0
IsFlow empty = Unit
IsFlow (word t) = is_simple t ≡ true
IsFlow (then s u) = IsFlow s × IsFlow u
IsFlow (if_then s) = IsFlow s
IsFlow (if_else s u) = IsFlow s × IsFlow u
IsFlow (begin_until s) = IsFlow s
IsFlow (begin_while s u) = IsFlow s × IsFlow u
IsFlow (do_loop s) = ⊥
IsFlow (for_next s) = ⊥

pub length-flow_code : (a : ℕ) (s : Structured) → IsFlow s → length (flow_code a s) ≡ width s
length-flow_code a empty h = refl
length-flow_code a (word t) h = refl
length-flow_code a (then s u) h = omega (
  arith,
  length-append (flow_code a s) (flow_code (a + width s) u),
  length-flow_code a s h.0,
  length-flow_code (a + width s) u h.1,
)
length-flow_code a (if_then s) h = omega (arith, length-flow_code (a + 1) s h)
length-flow_code a (if_else s u) h =
    let rest = (a + width s + width u + 2) ∷ flow_code (a + width s + 2) u in
    omega (
      arith,
      length-append (flow_code (a + 1) s) rest,
      length-flow_code (a + 1) s h.0,
      length-flow_code (a + width s + 2) u h.1,
    )
length-flow_code a (begin_until s) h =
    omega (arith, length-append (flow_code a s) ((0x2000 + a) ∷ []), length-flow_code a s h)
length-flow_code a (begin_while s u) h =
    let body = flow_code (a + width s + 1) u in
    let rest = (0x2000 + (a + width s + width u + 2)) ∷ (body ++ a ∷ []) in
    omega (
      arith,
      length-append (flow_code a s) rest,
      length-append body (a ∷ []),
      length-flow_code a s h.0,
      length-flow_code (a + width s + 1) u h.1,
    )
length-flow_code a (do_loop s) h = absurd h
length-flow_code a (for_next s) h = absurd h
