-- ===== src/Sched/Tally.antt =====
-- The counter `runnable_tasks` against the bitmap `bm_run_fn`, through every operation that changes
-- either of them.
pub mod Release
use bootcode.Base.{ℕ, ◌+◌, ◌<◌, ◌≡◌, false}
use bootcode.Claim.Word.{has}
use bootcode.Claim.Size.{size}
use bootcode.Sched.State.{State}
use bootcode.Sched.Queue.Laws.{IsBitmap}

-- The counter is the number of runnable functions, and a function with unfinished predecessors is
-- not runnable.
pub record IsTallied (s : State) : Type 0 where
  pub bitmap : IsBitmap s.bm_run_fn
  pub tasks : s.runnable_tasks ≡ size s.bm_run_fn
  pub bytes : (j : ℕ) → s.metadata.dag_in_count j < 256
  pub waiting : (j : ℕ) → 0 < s.metadata.dag_in_count j → has s.bm_run_fn j ≡ false
