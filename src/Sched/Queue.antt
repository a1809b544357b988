-- ===== src/Sched/Queue.antt =====
-- The set of runnable functions, `bm_run_fn`: `add_runnable_fn` and `get_work`.
pub mod Laws
use bootcode.Base.{ℕ, ◌+◌, ◌*◌, ◌/◌, ◌%◌, Option, none, some, List, get_or, set, inc64}
use bootcode.Bits.{bts}
use bootcode.Claim.{Pc, scan, run, claimed}
use bootcode.Sched.State.{State}

-- `lock btsq` at word `fn >> 6`, bit `fn & 0x3F`.
unfoldable pub add_bit : List ℕ → ℕ → List ℕ
add_bit ws fn = set ws (fn / 64) (bts (fn % 64) (get_or ws (fn / 64) 0))

unfoldable pub add_runnable_fn : ℕ → State → State
add_runnable_fn fn s = record s {
  runnable_tasks = inc64 s.runnable_tasks;
  bm_run_fn = add_bit s.bm_run_fn fn;
}

-- The four words are scanned from the first; alone, nine steps are enough. `none` is the -1.
unfoldable pub take_bit : List ℕ → List ℕ × Option ℕ
take_bit ws = let (ws', pc) = run 3 9 ws (scan 0) in (ws', claimed pc)

unfoldable pub get_work : State → State × Option ℕ
get_work s = let (ws, fn) = take_bit s.bm_run_fn in (record s { bm_run_fn = ws }, fn)
