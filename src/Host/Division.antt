-- ===== src/Host/Division.antt =====
-- `/MOD` of the host.
use native.Mathlib.Nat.{div-add-mod', mod-lt, div-le_self}
use qlforth.Prelude.{
  false, ◌==◌, ℕ, ◌+◌, ◌-◌, ◌*◌, ◌/◌, ◌%◌, ◌<◌, ◌≤◌, ◌≡◌, arith, refl, ok, ◌>>=◌, Returns,
  update_self,
}
use qlforth.Host.{Vm, quotient, remainder, cfp_divmod}
use qlforth.Host.Inverses.{peek-ok}

-- The outcome of a division of the two numbers on top.
abbrev pub IsDivision : Vm → Vm → Type 0
IsDivision vm v =
    (v.tos * vm.tos + v.data_stack (vm.dp - 1) ≡ vm.data_stack (vm.dp - 1))
    × (v.data_stack (vm.dp - 1) < vm.tos)
    × (v.dp ≡ vm.dp)

quotient-ok :
    (a b : ℕ) → a < 0x8000_0000 → 0 < b → b < 0x8000_0000 → a / b ≤ a → quotient a b ≡ ok (a / b)
unfolding quotient
quotient-ok a b h p l d = ground arith

remainder-ok :
    (a b : ℕ) → a < 0x8000_0000 → 0 < b → b < 0x8000_0000 → a / b ≤ a → remainder a b ≡ ok (a % b)
unfolding remainder
remainder-ok a b h p l d = rw (quotient-ok a b h p l d, ◌>>=◌) (ground arith)

-- Where the two numbers on top are `n` below `t`, neither of them negative and `t` not 0, `/MOD` leaves, in
-- their places, a remainder `r` below a quotient `q` with `n = q * t + r` and `r < t`.
pub cfp_divmod-IsDivision :
    (vm : Vm)
    → 1 ≤ vm.dp
    → vm.data_stack (vm.dp - 1) < 0x8000_0000
    → 0 < vm.tos
    → vm.tos < 0x8000_0000
    → Returns (IsDivision vm) (cfp_divmod vm)
unfolding cfp_divmod
cfp_divmod-IsDivision vm h p l d =
    let n = vm.data_stack (vm.dp - 1) in
    let some_t : (vm.tos == 0) ≡ false = ground arith in
    let le : n / vm.tos ≤ n = div-le_self n vm.tos in
    let r = n % vm.tos in
    let under = update_self vm.data_stack (vm.dp - 1) r in
    rw
      (
        some_t,
        peek-ok 1 vm (omega arith) h,
        ◌>>=◌,
        quotient-ok n vm.tos p l d le,
        ◌>>=◌,
        remainder-ok n vm.tos p l d le,
        ◌>>=◌,
      )
      (rw under (div-add-mod' n vm.tos), rw under (mod-lt n l), refl)
