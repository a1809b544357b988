-- ===== src/Sched/Many/Tasks/Tests.antt =====
-- The counter while two cpus run the graph of three functions.
use bootcode.Base.{ℕ, zero, suc, ◌+◌, ◌≡◌, refl, arith, true, false, []}
use bootcode.Bits.{bt, btr, bts, bsf}
use bootcode.Claim
use bootcode.Claim.Word.{has}
use bootcode.Sched.Queue.{add_bit}
use bootcode.Sched.Dag.{edge_start, edge_end}
use bootcode.Sched.Dag.Laws.{out_edges}
use bootcode.Sched.Tests.{metadata}
use bootcode.Sched.Order.Tests.{metadata-IsGraph}
use bootcode.Base.{number, if◌then◌else◌, ◌==◌, ◌∷◌}
use bootcode.Sched.Many.{halts, at_new_work, adds, step, move}
use bootcode.Sched.Many.Tasks.{Tasks, task_step, task_move, TasksReachable, boots, steps}
use bootcode.Sched.Many.Tasks.Count.{is_pending}
use bootcode.Sched.Many.Tasks.Tally.{tasks_counted}

abbrev booted : Tasks
booted = record {
  system = record {
    dag_in_count = λ j. 0;
    bm_run_fn = 0 ∷ 0 ∷ 0 ∷ 0 ∷ [];
    num_fin_fn = 3;
    at = λ id. if id == 0 then at_new_work else halts;
    entries = λ fn. 0;
    exits = λ fn. 0;
  };
  runnable_tasks = 0;
  counted = λ id. false;
}

-- Steps of cpu 0.
cpu_0 : ℕ → Tasks
cpu_0 zero = booted
cpu_0 (suc n) = task_move metadata true 0 (cpu_0 n)

cpu_0-Reachable : (n : ℕ) → TasksReachable metadata 2 (cpu_0 n)
unfolding cpu_0
cpu_0-Reachable zero = boots (λ j. 0)
cpu_0-Reachable (suc n) = steps true 0 (omega arith) (cpu_0-Reachable n)

-- It has counted the function 1 and is about to set its bit.
one_task : ((cpu_0 14).system.at 0 ≡ adds 0 1 (2 ∷ [])) × ((cpu_0 14).runnable_tasks ≡ 1)
unfolding cpu_0 task_move task_step move step out_edges edge_start edge_end Claim.step
    Claim.step_scan bt btr bsf bts add_bit
one_task = (refl, refl)

tasks_counted_example :
    (cpu_0 14).runnable_tasks
    ≡ number (has (cpu_0 14).system.bm_run_fn) 256
      + number (λ id. is_pending ((cpu_0 14).system.at id) ((cpu_0 14).counted id)) 2
tasks_counted_example =
    tasks_counted metadata metadata-IsGraph 2 (cpu_0 14) (omega arith) (cpu_0-Reachable 14)
