-- ===== src/Sched/Many.antt =====
-- `sched` of src/sched.c on many cpus at once, over what decides which functions run: the in-counts,
-- the bitmap of runnable functions and the count of the finished ones.
--
-- A step is one access to these shared variables, `get_work` being the steps of Claim. The copy of
-- the in-counts when the graph begins anew is one step: at that time no other cpu uses them. A halted
-- cpu goes on at any time, since a kick or an interrupt may come. The counters of free cpus and of
-- tasks, the clocks and the wake-ups are in Sched/Wake and Sched/Loop.
mod Sound
mod Owing
mod Change
mod Work
mod Release
mod Counted
mod Look
mod Reset
mod Rounds
mod Runs
mod Awake
mod Tasks
mod Tests
use bootcode.Base.{
  ℕ, ◌+◌, ◌*◌, ◌-◌, Bool, true, false, if◌then◌else◌, ◌==◌, List, [], ◌∷◌, update, u8, inc64, ltb,
}
use bootcode.Claim
use bootcode.Claim.{Pc, scan, claim, found, empty}
use bootcode.Sched.State.{Metadata}
use bootcode.Sched.Queue.{add_bit}
use bootcode.Sched.Dag.Laws.{out_edges}

-- Where a cpu stands: in `get_work`; after a -1 from it, before the `CAS`; after a `CAS` that was
-- won, before the in-counts are copied; before the start function is added; in `hlt`; in the
-- function `fn`; in `process_sched_dag`, with the edges that are left; there, before it adds `out_fn`;
-- before it counts `fn` as finished.
pub data Place : Type 0 where
  looks : (pc : Pc) → Place
  stops : Place
  resets : Place
  begins : Place
  halts : Place
  runs : (fn : ℕ) → Place
  releases : (fn : ℕ) (edges : List ℕ) → Place
  adds : (fn out_fn : ℕ) (edges : List ℕ) → Place
  counts : (fn : ℕ) → Place

-- `entries` and `exits` are how often each function was entered, and has returned.
pub record System : Type 0 where
  pub dag_in_count : ℕ → ℕ
  pub bm_run_fn : List ℕ
  pub num_fin_fn : ℕ
  pub at : ℕ → Place
  pub entries : ℕ → ℕ
  pub exits : ℕ → ℕ

abbrev pub at_new_work : Place
at_new_work = looks (scan 0)

-- The step of `get_work` has led to `pc`: with a function, `jump2fn` enters it.
abbrev pub after_scan : ℕ → List ℕ → Pc → System → System
after_scan id ws (found k n) s =
    let fn = u8 (64 * k + n) in
    record s {
      bm_run_fn = ws;
      at = update s.at id (runs fn);
      entries = update s.entries fn (s.entries fn + 1);
    }
after_scan id ws empty s = record s { bm_run_fn = ws; at = update s.at id stops }
after_scan id ws pc s = record s { bm_run_fn = ws; at = update s.at id (looks pc) }

module _ (g : Metadata) where
  unfoldable pub step : ℕ → Place → System → System
  step id (looks pc) s = let (ws, pc') = Claim.step 3 s.bm_run_fn pc in after_scan id ws pc' s
  step id stops s =
      if s.num_fin_fn == g.num_nodes
      then record s { num_fin_fn = 0; at = update s.at id resets }
      else record s { at = update s.at id halts }
  step id resets s = record s {
    dag_in_count = λ j. if ltb j g.num_nodes then u8 (g.dag j) else s.dag_in_count j;
    at = update s.at id begins;
  }
  step id begins s = record s {
    bm_run_fn = add_bit s.bm_run_fn g.start_func;
    at = update s.at id at_new_work;
  }
  step id halts s = record s { at = update s.at id at_new_work }
  step id (runs fn) s = record s {
    at = update s.at id (releases fn (out_edges g fn));
    exits = update s.exits fn (s.exits fn + 1);
  }
  step id (releases fn []) s = record s { at = update s.at id (counts fn) }
  step id (releases fn (out_fn ∷ edges)) s =
      let c = u8 (s.dag_in_count out_fn + 255) in
      record s {
        dag_in_count = update s.dag_in_count out_fn c;
        at = update s.at id (if c == 0 then adds fn out_fn edges else releases fn edges);
      }
  step id (adds fn out_fn edges) s = record s {
    bm_run_fn = add_bit s.bm_run_fn out_fn;
    at = update s.at id (releases fn edges);
  }
  step id (counts fn) s = record s {
    num_fin_fn = inc64 s.num_fin_fn;
    at = update s.at id at_new_work;
  }

  unfoldable pub move : ℕ → System → System
  move id s = step id (s.at id) s

  -- The systems that steps in any order lead to, when cpu 0 begins after `scheduler_init_post`, with
  -- the other cpus in `hlt` and any in-counts.
  pub data Reachable : System → Type 0 where
    start :
        (in_counts : ℕ → ℕ)
        → Reachable (record {
          dag_in_count = in_counts;
          bm_run_fn = 0 ∷ 0 ∷ 0 ∷ 0 ∷ [];
          num_fin_fn = g.num_nodes;
          at = λ id. if id == 0 then at_new_work else halts;
          entries = λ fn. 0;
          exits = λ fn. 0;
        })
    moved : {s : System} (id : ℕ) → Reachable s → Reachable (move id s)
