-- ===== src/Host/Inverses.antt =====
-- Words of the host that undo each other.
use qlforth.Prelude.{
  ℕ, ◌+◌, ◌-◌, ◌<◌, ◌≤◌, ◌≡◌, arith, refl, ok, ◌>>=◌, Returns, update, update_self, update_ne,
}
use qlforth.Host.{Vm, peek, poke, qlforth_push, cfp_dup, cfp_drop, cfp_swap, cfp_rot, cfp_mrot}

-- The same top and depth, and the same cells below `dp`.
abbrev pub Same : Vm → Vm → Type 0
Same vm v =
    (v.tos ≡ vm.tos) × (v.dp ≡ vm.dp) × ((i : ℕ) → i < vm.dp → v.data_stack i ≡ vm.data_stack i)

pub peek-ok : (k : ℕ) (vm : Vm) → 1 ≤ k → k ≤ vm.dp → peek k vm ≡ ok (vm.data_stack (vm.dp - k))
unfolding peek
peek-ok k vm l h = ground arith

pub push-ok :
    (v : ℕ) (vm : Vm)
    → vm.dp < 258
    → qlforth_push v vm
      ≡ ok (record { tos = v; data_stack = update vm.data_stack vm.dp vm.tos; dp = vm.dp + 1 })
unfolding qlforth_push
push-ok v vm h = ground arith

-- Where the stack has room, `DUP DROP` succeeds and leaves the top, the depth and every cell below `dp`.
pub cfp_dup-cfp_drop : (vm : Vm) → vm.dp < 258 → Returns (Same vm) (cfp_dup vm >>= cfp_drop)
unfolding cfp_dup cfp_drop
cfp_dup-cfp_drop vm h =
    rw
      (
        push-ok vm.tos vm h,
        ◌>>=◌,
        peek-ok 1
            (record {
              tos = vm.tos;
              data_stack = update vm.data_stack vm.dp vm.tos;
              dp = vm.dp + 1;
            })
            (omega arith) (omega arith),
        ◌>>=◌,
      )
      (ground arith, omega arith, λ i l. update_ne vm.data_stack vm.dp i vm.tos (omega arith))

-- Where the stack has two numbers, `SWAP SWAP` succeeds and leaves the top, the depth and every cell below
-- `dp`.
pub cfp_swap-cfp_swap : (vm : Vm) → 1 ≤ vm.dp → Returns (Same vm) (cfp_swap vm >>= cfp_swap)
unfolding cfp_swap
cfp_swap-cfp_swap vm h =
    rw
      (
        peek-ok 1 vm (omega arith) h,
        ◌>>=◌,
        peek-ok 1 (record (poke 1 vm.tos vm) { tos = vm.data_stack (vm.dp - 1) }) (omega arith) h,
        ◌>>=◌,
      )
      (update_self vm.data_stack (vm.dp - 1) vm.tos, refl, λ i l. grind arith)

-- Where the stack has three numbers, `ROT -ROT` succeeds and leaves the top, the depth and every cell below
-- `dp`.
pub cfp_rot-cfp_mrot : (vm : Vm) → 2 ≤ vm.dp → Returns (Same vm) (cfp_rot vm >>= cfp_mrot)
unfolding cfp_rot cfp_mrot
cfp_rot-cfp_mrot vm h =
    let v = record (poke 1 vm.tos (poke 2 (vm.data_stack (vm.dp - 1)) vm)) {
      tos = vm.data_stack (vm.dp - 2);
    } in
    rw
      (
        peek-ok 1 vm (omega arith) (omega arith),
        peek-ok 2 vm (omega arith) h,
        ◌>>=◌,
        peek-ok 1 v (omega arith) (omega arith),
        peek-ok 2 v (omega arith) h,
        ◌>>=◌,
      )
      (
        update_self (update vm.data_stack (vm.dp - 2) (vm.data_stack (vm.dp - 1))) (vm.dp - 1)
            vm.tos,
        refl,
        λ i l. grind arith,
      )
