-- ===== src/Sched/Tests.antt =====
-- The scheduler on a graph of three functions and a pool of two cpus, of which cpu 0 is awake: the
-- edges are 0 to 1, 0 to 2 and 1 to 2.
use bootcode.Base.{
  ◌+◌, ℕ, ◌-◌, ◌≡◌, refl, arith, false, ◌&&◌, ◌||◌, ◌==◌, ltb, if◌then◌else◌, [], ◌∷◌, get_or,
  sub64, zero, suc, some,
}
use bootcode.Bits.{bt, btr, bsf, popcnt}
use bootcode.Claim.{step, step_scan, run}
use bootcode.Claim.Word.{has}
use bootcode.Util.{zero_pair}
use bootcode.Sched.State.{FuncInfo, Metadata, State, Machine, null_func}
use bootcode.Sched.Queue.{add_runnable_fn, take_bit, get_work}
use bootcode.Sched.Queue.Laws.{
  empty_queue, IsBitmap, Dispatches, get_work-Dispatches, add_runnable_fn_lem,
}
use bootcode.Sched.Dag.{edge_start, edge_end, process_sched_dag}
use bootcode.Sched.Dag.Laws.{uses, out_edges, IsAwaited, process_sched_dag_lem}
use bootcode.Claim.Size.{size}
use bootcode.Sched.Tally.{IsTallied}
use bootcode.Sched.Tally.Release.{process_sched_dag-IsTallied}
use bootcode.Sched.Wake.{wake_up_task, rekick_loop, try_kick, kick_loop}
use bootcode.Sched.Wake.Account.{IsAccounted, wake_up_task-IsAccounted}
use bootcode.Sched.Wake.Targets.{IsSpared, wake_up_task-IsSpared}
use bootcode.Sched.Wake.Fuel.{loops_settled}
use bootcode.Sched.Loop.{new_work, sched, after_hlt}
use bootcode.Sched.Account.{IsLoaded}
use bootcode.Sched.Main.{main, main_begins, main_joins}
use bootcode.Sched.Loop.Work.{Leaves, new_work-Leaves}
use bootcode.Sched.Account.{Returns, IsAwake, sched-IsAccounted, after_hlt-IsAccounted}

-- The counter shows how often it was read.
abbrev pub clock : Machine
clock = record { tsc = λ n. n; to_func_time = λ t. t }

abbrev graph : ℕ → ℕ
graph i = get_or (0 ∷ 1 ∷ 2 ∷ 0 ∷ 2 ∷ 3 ∷ 3 ∷ 1 ∷ 2 ∷ 2 ∷ []) i 0

abbrev in_counts : ℕ → ℕ
in_counts j = if j == 1 then 1 else (if j == 2 then 2 else 0)

abbrev info : FuncInfo
info = record {
  entry_addr = 4096;
  stack_load_addr = 8192;
  pt_addr = 12288;
  inp_off = 0;
  out_off = 64;
}

abbrev pub metadata : Metadata
metadata = record {
  num_nodes = 3;
  start_func = 0;
  dag = graph;
  dag_in_count = in_counts;
  current = λ i. null_func;
  func_info = λ fn. info;
  dag_func_time = λ fn. 0;
  dag_ts = 0;
  dag_n = 0;
  dag_tot_tsc_time = 0;
  dag_tot_proc_inp = 0;
}

-- Cpu 0 is free, cpu 1 inactive, and the functions of the bitmap's first word are runnable.
abbrev pub state : (word tasks : ℕ) → State
state word tasks = record {
  metadata = metadata;
  bm_run_fn = word ∷ 0 ∷ 0 ∷ 0 ∷ [];
  num_free_vcpu = 1;
  runnable_tasks = tasks;
  vcpu_pool_sz = 2;
  num_fin_fn = 1;
  hlt_ts = λ c. 0;
  kick_ts = λ c. 0;
  wake_num_vcpu = 0;
  sig_wake_num_vcpu_is_0 = 1;
  bm_kicked_vcpus = 0;
  bm_inactive_vcpus = 2;
  ss_reflective_bm = zero_pair;
  ss_reflective_bm1 = zero_pair;
  func_times = λ fn. 0;
  dag_start_tsc = 1;
  pg_root = λ i. 0;
  reads = 5;
  events = [];
}

take_bit_run : take_bit (6 ∷ 0 ∷ 0 ∷ 0 ∷ []) ≡ (4 ∷ 0 ∷ 0 ∷ 0 ∷ [], some 1)
unfolding take_bit run step step_scan bsf bt btr
take_bit_run = refl

get_work-Dispatches_example : Dispatches (state 6 2) (get_work (state 6 2))
get_work-Dispatches_example = get_work-Dispatches (state 6 2) refl

add_runnable_fn_lem_example :
    ((i : ℕ)
      → has (add_runnable_fn 2 (state 2 1)).bm_run_fn i ≡ ((i == 2) || has (2 ∷ 0 ∷ 0 ∷ 0 ∷ []) i))
    × ((add_runnable_fn 2 (state 2 1)).runnable_tasks ≡ 2)
    × IsBitmap (add_runnable_fn 2 (state 2 1)).bm_run_fn
add_runnable_fn_lem_example = add_runnable_fn_lem 2 (state 2 1) refl (omega arith)

pub out_edges_run : out_edges metadata 0 ≡ 1 ∷ 2 ∷ []
unfolding out_edges edge_start edge_end
out_edges_run = refl

awaited : IsAwaited (out_edges metadata 0) (state 0 0)
unfolding out_edges edge_start edge_end
awaited = record {
  edges = (omega arith, (omega arith, tt));
  bytes = λ j. ground arith;
  enough = λ j. ground arith;
  bitmap = refl;
}

process_sched_dag_lem_example :
    ((process_sched_dag 0 (state 0 0)).metadata.dag_in_count 1 ≡ 1 - uses 1 (out_edges metadata 0))
    × (has (process_sched_dag 0 (state 0 0)).bm_run_fn 1 ≡ (
        has (0 ∷ 0 ∷ 0 ∷ 0 ∷ []) 1
        || (ltb 0 (uses 1 (out_edges metadata 0)) && (1 == uses 1 (out_edges metadata 0)))))
process_sched_dag_lem_example = process_sched_dag_lem 0 (state 0 0) awaited 1

tallied : IsTallied (state 0 0)
unfolding size popcnt
tallied = record {
  bitmap = refl;
  tasks = refl;
  bytes = λ j. ground arith;
  waiting = λ j h. empty_queue j;
}

process_sched_dag-IsTallied_example : IsTallied (process_sched_dag 0 (state 0 0))
process_sched_dag-IsTallied_example = process_sched_dag-IsTallied 0 (state 0 0) awaited tallied

new_work-Leaves_example : Leaves clock 0 (state 6 2) (new_work clock 0 2 0 (state 6 2))
new_work-Leaves_example = new_work-Leaves clock 0 0 0 (state 6 2) refl (omega arith)

accounted : IsAccounted clock 1 (state 6 2)
unfolding popcnt bt
accounted = record { counted = refl; fresh = λ c e. omega arith; past = λ c n le. omega arith }

wake_up_task-IsAccounted_example : IsAccounted clock 1 (wake_up_task clock (state 6 2))
wake_up_task-IsAccounted_example = wake_up_task-IsAccounted clock 1 (state 6 2) accounted

spared : IsSpared clock 0 2 2 (state 6 2)
unfolding bt
spared = record {
  inactive = refl;
  pool_sz = refl;
  bitmap = refl;
  start = omega arith;
  unkicked = refl;
  unseen = refl;
}

awake : bt 0 2 ≡ false
unfolding bt
awake = refl

wake_up_task-IsSpared_example : IsSpared clock 0 2 2 (wake_up_task clock (state 6 2))
wake_up_task-IsSpared_example = wake_up_task-IsSpared clock 0 2 2 (state 6 2) spared awake

loops_settled_example :
    (rekick_loop clock 80 (state 6 2) ≡ rekick_loop clock 65 (state 6 2))
    × (try_kick clock 80 (state 6 2) ≡ try_kick clock 65 (state 6 2))
    × (kick_loop clock 80 (state 6 2) ≡ kick_loop clock 65 (state 6 2))
loops_settled_example = loops_settled clock 80 (state 6 2) (omega arith)

-- A third cpu runs a function: it is not true that all others are inactive.
abbrev pool_of_3 : State
pool_of_3 = record (state 0 0) { vcpu_pool_sz = 3 }

pool_of_3-IsAccounted : IsAccounted clock 1 pool_of_3
unfolding popcnt bt
pool_of_3-IsAccounted = record {
  counted = refl;
  fresh = λ c e. omega arith;
  past = λ c n le. omega arith;
}

one_of_3 : sub64 3 (popcnt 64 2) ≡ 1 → suc zero ≡ zero
unfolding popcnt
one_of_3 e = absurd (omega arith)

-- All functions have finished and none is runnable: the graph starts anew.
new_work_starts :
    Leaves clock 0
      (record (state 0 0) { num_fin_fn = 3 })
      (new_work clock 0 2 0 (record (state 0 0) { num_fin_fn = 3 }))
new_work_starts =
    new_work-Leaves clock 0 0 0 (record (state 0 0) { num_fin_fn = 3 }) refl (omega arith)

awake0 : IsAwake clock 0 2 2 0 (λ m n h. h) (λ e. refl) (state 6 2)
awake0 = record { account = accounted; spared = spared; awake = awake }

sched-IsAccounted_example : Returns (IsAccounted clock 0) (sched clock 0 (state 6 2))
sched-IsAccounted_example =
    sched-IsAccounted clock 0 2 2 0 (λ m n h. h) (λ e. refl) (state 6 2) awake0

two_left : sub64 2 (popcnt 64 0) ≡ 1 → suc zero ≡ zero
unfolding popcnt
two_left e = absurd (omega arith)

-- Cpu 1, inactive and not kicked, is woken by an interrupt while cpu 0 counts as free.
after_hlt-IsAccounted_example : Returns (IsAccounted clock 1) (after_hlt clock 1 (state 6 2))
unfolding btr
after_hlt-IsAccounted_example =
    after_hlt-IsAccounted clock 1 0 2 1 (λ m n h. h) two_left (state 6 2) (omega arith) accounted
      refl refl refl (omega arith)

-- The first pass, with three functions runnable at the start.
loaded : IsLoaded (state 7 3)
loaded = record {
  halts = λ c. refl;
  idle = refl;
  bitmap = refl;
  start = omega arith;
  unseen = refl;
}

-- The last word of the page of a stack: the number of the cpu, in a pool of 2.
abbrev stack_words : ℕ → ℕ → ℕ
stack_words id a = if a == 0x5ff8 then 0x200 + id else 0

main_begins_example : Returns (IsAccounted clock 0) (main clock (stack_words 0) 0x5fe0 (state 7 3))
main_begins_example =
    main_begins clock (λ m n h. h) (stack_words 0) 5 0 2 0x5fe0 (omega arith) (omega arith)
      (omega arith) refl (omega arith) (omega arith) (state 7 3) refl loaded

main_joins_example : Returns (IsAccounted clock 1) (main clock (stack_words 1) 0x5fe0 (state 6 2))
unfolding btr bt
main_joins_example =
    main_joins clock (λ m n h. h) (stack_words 1) 5 1 2 0x5fe0 (omega arith) (omega arith)
      (omega arith) refl (omega arith) (omega arith) 1 0 2 (state 6 2) two_left (omega arith)
      (omega arith) accounted refl refl refl refl refl (omega arith)
