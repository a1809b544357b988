-- ===== src/Sched/Tally/Release.antt =====
-- `process_sched_dag` keeps the tally.
use bootcode.Base.{ℕ, ◌<◌, ◌≡◌, arith}
use bootcode.Base.{false, List, [], ◌∷◌}
use bootcode.Claim.Word.{has}
use bootcode.Claim.Size.{size, size-le}
use bootcode.Sched.State.{State}
use bootcode.Sched.Queue.{add_runnable_fn}
use bootcode.Sched.Queue.Laws.{IsBitmap, size-add_bit}
use bootcode.Sched.Dag.{release_fn, process_sched_dag}
use bootcode.Sched.Dag.Laws.{
  IsAwaited, release_all, release_fn-IsAwaited, release_fn-IsBitmap, count-release_fn,
  has-release_fn, out_edges, process_sched_dag-release_all,
}
use bootcode.Sched.Tally.{IsTallied}

-- A function that was not runnable becomes so.
pub add_runnable_fn-tasks :
    (fn : ℕ) (s : State)
    → fn < 256
    → IsBitmap s.bm_run_fn
    → s.runnable_tasks ≡ size s.bm_run_fn
    → has s.bm_run_fn fn ≡ false
    → (add_runnable_fn fn s).runnable_tasks ≡ size (add_runnable_fn fn s).bm_run_fn
unfolding add_runnable_fn
add_runnable_fn-tasks fn s small h t new =
    ground (arith, size-add_bit s.bm_run_fn fn h small, size-le s.bm_run_fn)

module _ (e : ℕ) (s : State) (small : e < 256) (pos : 0 < s.metadata.dag_in_count e)
    (h : IsTallied s) where
  release_fn-tasks : (release_fn e s).runnable_tasks ≡ size (release_fn e s).bm_run_fn
  unfolding release_fn add_runnable_fn
  release_fn-tasks = ground (
    arith,
    size-add_bit s.bm_run_fn e h.bitmap small,
    size-le s.bm_run_fn,
    h.bitmap,
    h.tasks,
    h.waiting e pos,
  )

  release_fn-IsTallied : IsTallied (release_fn e s)
  release_fn-IsTallied = record {
    bitmap = release_fn-IsBitmap e s h.bitmap;
    tasks = release_fn-tasks;
    bytes = λ j. ground (arith, count-release_fn e s j, h.bytes j);
    waiting = λ j p. ground (
      arith,
      count-release_fn e s j,
      h.bytes j,
      h.waiting j,
      has-release_fn e s j small (h.bytes e) h.bitmap,
    );
  }

release_all-IsTallied :
    (es : List ℕ) (s : State) → IsAwaited es s → IsTallied s → IsTallied (release_all es s)
release_all-IsTallied [] s a h = h
release_all-IsTallied (e ∷ es) s a h =
    release_all-IsTallied es (release_fn e s) (release_fn-IsAwaited e es s a)
      (release_fn-IsTallied e s a.edges.0 (ground (arith, a.enough e)) h)

-- `process_sched_dag` keeps `runnable_tasks` equal to the number of runnable functions, and keeps
-- every function with unfinished predecessors from being runnable, where no function has more edges
-- from `fn` than its in-count.
pub process_sched_dag-IsTallied :
    (fn : ℕ) (s : State)
    → IsAwaited (out_edges s.metadata fn) s
    → IsTallied s
    → IsTallied (process_sched_dag fn s)
process_sched_dag-IsTallied fn s a h =
    rw (process_sched_dag-release_all fn s a)
      (release_all-IsTallied (out_edges s.metadata fn) s a h)
