-- ===== src/Machine/Laws.antt =====
-- What the words leave alone.
use qlforth.Prelude.{ℕ, ◌≡◌, arith, true, false, some}
use qlforth.Machine.{Machine, Writable, meaning}
use qlforth.Opcodes.{is_plain}
use qlforth.Sst.{SstType, sst_noop}

-- A plain word leaves the return stack alone.
pub plain-ret :
    (op : SstType) (w : Writable) (m m' : Machine)
    → is_plain op ≡ true
    → meaning w op m ≡ some m'
    → m'.ret ≡ m.ret
unfolding meaning
plain-ret sst_noop w m m' p e = cc
plain-ret _ w m m' p e = ground arith

-- A word changes the memory at most where it is writable.
pub meaning-mem :
    (op : SstType) (w : Writable) (m m' : Machine) (i : ℕ)
    → meaning w op m ≡ some m'
    → w i ≡ false
    → m'.mem i ≡ m.mem i
unfolding meaning
meaning-mem sst_noop w m m' i e p = ground arith
meaning-mem _ w m m' i e p = ground arith
