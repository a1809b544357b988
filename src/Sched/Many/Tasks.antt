-- ===== src/Sched/Many/Tasks.antt =====
-- The counter `runnable_tasks` of src/sched.c, on many cpus at once.
--
-- A cpu that is about to set a bit in `add_runnable_fn` increments the counter first; one that has
-- taken a bit in `get_work` decrements it before it enters the function; the cpu that begins the graph
-- anew may reset it (the recovery code of `sched`). These accesses are steps of their own here,
-- between those of Sched/Many.
mod Count
mod Shift
mod Tally
mod Tests
use bootcode.Base.{ℕ, ◌<◌, Bool, true, false, if◌then◌else◌, ◌==◌, ◌∷◌, [], update, inc64, dec64}
use bootcode.Sched.State.{Metadata}
use bootcode.Sched.Many.{Place, resets, begins, halts, runs, adds, System, at_new_work, move}

-- `counted` says that a cpu has made the access to the counter that belongs to its place.
pub record Tasks : Type 0 where
  pub system : System
  pub runnable_tasks : ℕ
  pub counted : ℕ → Bool

module _ (g : Metadata) where
  abbrev pub pass : ℕ → Tasks → Tasks
  pass id s = record s { system = move g id s.system; counted = update s.counted id false }

  unfoldable pub task_step : Bool → ℕ → Place → Tasks → Tasks
  task_step recover id (adds fn j edges) s =
      if s.counted id
      then pass id s
      else record s { runnable_tasks = inc64 s.runnable_tasks; counted = update s.counted id true }
  task_step recover id begins s =
      if s.counted id
      then pass id s
      else record s { runnable_tasks = inc64 s.runnable_tasks; counted = update s.counted id true }
  task_step recover id (runs fn) s =
      if s.counted id
      then pass id s
      else record s { runnable_tasks = dec64 s.runnable_tasks; counted = update s.counted id true }
  task_step recover id resets s = record (pass id s) {
    runnable_tasks = if recover then 0 else s.runnable_tasks;
  }
  task_step recover id p s = pass id s

  unfoldable pub task_move : Bool → ℕ → Tasks → Tasks
  task_move recover id s = task_step recover id (s.system.at id) s

  -- The systems of `ncpus` cpus that steps in any order lead to.
  pub data TasksReachable (ncpus : ℕ) : Tasks → Type 0 where
    boots :
        (in_counts : ℕ → ℕ)
        → TasksReachable ncpus (record {
          system = record {
            dag_in_count = in_counts;
            bm_run_fn = 0 ∷ 0 ∷ 0 ∷ 0 ∷ [];
            num_fin_fn = g.num_nodes;
            at = λ id. if id == 0 then at_new_work else halts;
            entries = λ fn. 0;
            exits = λ fn. 0;
          };
          runnable_tasks = 0;
          counted = λ id. false;
        })
    steps :
        {s : Tasks} (recover : Bool) (id : ℕ)
        → id < ncpus
        → TasksReachable ncpus s
        → TasksReachable ncpus (task_move recover id s)
