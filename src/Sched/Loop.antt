-- ===== src/Sched/Loop.antt =====
-- `sched` and `jump2fn`: one cpu's way from the end of one function to the start of the next, or to
-- its halt. Run by one cpu with no other in between; `id` is what `get_id` reads.
pub mod Work
use bootcode.Base.{ℕ, zero, suc, ◌+◌, true, false, ◌&&◌, ◌==◌, ltb}
use bootcode.Base.{if◌then◌else◌, update, Option, none, some, inc64, dec64, sub64, add64, u8}
use bootcode.Base.{bit_or}
use bootcode.Base.{Bool, true, false}
use bootcode.Bits.{bts, popcnt}
use bootcode.Util.{zero_pair, cas}
use bootcode.Sched.State.{
  State, Metadata, Machine, message, jump, tick, emit, null_func, msg_waiting_for_work,
}
use bootcode.Sched.Queue.{add_runnable_fn, get_work}
use bootcode.Sched.Dag.{process_sched_dag}
use bootcode.Sched.Wake.{wake_up_task}
use bootcode.Sched.Init.{wake_up_event}

-- How a pass through `sched` ends: in user mode in a function, or halted in `hlt`.
pub data Outcome : Type 0 where
  runs : (fn : ℕ) → State → Outcome
  halts : State → Outcome

module _ (mach : Machine) (id : ℕ) where
  -- `jump2fn`: the page tables of the function are put in place, and user mode is entered.
  unfoldable pub jump2fn : ℕ → State → State
  jump2fn fn s =
      let f = s.metadata.func_info fn in
      let s1 = record s {
        metadata = record (s.metadata) { current = update s.metadata.current id fn };
        pg_root = update s.pg_root id (bit_or f.pt_addr 0x07);
        func_times = update s.func_times fn (mach.tsc s.reads);
        reads = s.reads + 1;
      } in
      emit
        (jump f.entry_addr f.stack_load_addr (add64 f.inp_off 0x80000000)
          (add64 f.out_off 0x80000000) fn)
        s1

  -- The cpu is free again, and the time of the function is taken.
  unfoldable pub stop_clock : ℕ → State → State
  stop_clock fn s =
      let took = mach.to_func_time (sub64 (mach.tsc s.reads) (s.func_times fn)) in
      record s {
        num_free_vcpu = inc64 s.num_free_vcpu;
        metadata = record (s.metadata) { dag_func_time = update s.metadata.dag_func_time fn took };
        reads = s.reads + 1;
      }

  -- The function that this cpu ran has returned to the scheduler.
  unfoldable pub finish_fn : ℕ → State → State
  finish_fn fn s =
      let s1 = process_sched_dag fn (stop_clock fn s) in
      record s1 {
        metadata = record (s1.metadata) { current = update s1.metadata.current id null_func };
      }

  -- A cpu that is alone in its pool has nobody to wake.
  unfoldable pub help_others : State → State
  help_others s = if s.vcpu_pool_sz == 1 then s else wake_up_task mach s

  -- From `start` to `new_work`; the state and `t1`.
  unfoldable pub sched_start : State → State × ℕ
  sched_start s =
      let t1 = mach.tsc s.reads in
      let fn = s.metadata.current id in
      let done = help_others (finish_fn fn (tick s)) in
      (
        if fn == null_func
            then help_others (tick s)
            else record done { num_fin_fn = inc64 done.num_fin_fn },
        t1,
      )

  -- The waiting time since `t1` goes into `dag_ts`, and one more into `dag_n`.
  unfoldable pub add_wait : ℕ → ℕ → State → State
  add_wait t1 t2 s = record s {
    metadata = record (s.metadata) {
      dag_ts = add64 s.metadata.dag_ts (sub64 t2 t1);
      dag_n = inc64 s.metadata.dag_n;
    };
  }

  -- `memcpy(dag_in_count, dag, num_nodes * sizeof(dag_in_count[0]))`
  unfoldable pub load_in_counts : Metadata → Metadata
  load_in_counts m = record m {
    dag_in_count = λ j. if ltb j m.num_nodes then u8 (m.dag j) else m.dag_in_count j;
  }

  -- The counters are put right if every other cpu is halted and none is kicked.
  unfoldable pub recover : State → State
  recover s =
      let alone = sub64 s.vcpu_pool_sz (popcnt 64 s.bm_inactive_vcpus) == 1 in
      if (s.bm_kicked_vcpus == 0) && alone
      then record s { num_free_vcpu = 1; runnable_tasks = 0 }
      else s

  -- All functions of the graph have finished: the monitor is told, and the graph starts anew when
  -- it returns. The state and the new `t1`.
  unfoldable pub restart : State → State × ℕ
  restart s =
      let timed = record (tick s) {
        metadata = record (s.metadata) {
          dag_tot_tsc_time = sub64 (mach.tsc s.reads) s.dag_start_tsc;
          dag_tot_proc_inp = s.metadata.dag_tot_proc_inp + 1;
        };
      } in
      let s1 = if s.dag_start_tsc == 0 then s else timed in
      let s2 = emit (message msg_waiting_for_work) s1 in
      let t1 = mach.tsc s2.reads in
      let s3 = record (tick s2) {
        num_free_vcpu = inc64 s2.num_free_vcpu;
        dag_start_tsc = t1;
        ss_reflective_bm = zero_pair;
        ss_reflective_bm1 = zero_pair;
      } in
      let s4 = recover s3 in
      let s5 = record s4 { metadata = load_in_counts s4.metadata } in
      (add_runnable_fn s5.metadata.start_func s5, t1)

  -- No work: the cpu goes to `hlt`, marked as inactive.
  unfoldable pub go_idle : ℕ → State → State
  go_idle t1 s =
      let t2 = mach.tsc s.reads in
      let s1 = record (tick s) { hlt_ts = update s.hlt_ts id t2 } in
      let s2 = add_wait t1 t2 s1 in record s2 { bm_inactive_vcpus = bts id s2.bm_inactive_vcpus }

  -- There is work: the cpu leaves for user mode.
  unfoldable pub dispatch : ℕ → ℕ → State → State
  dispatch fn t1 s =
      let s1 = record s {
        num_free_vcpu = dec64 s.num_free_vcpu;
        runnable_tasks = dec64 s.runnable_tasks;
      } in
      let t2 = mach.tsc s1.reads in jump2fn (u8 fn) (add_wait t1 t2 (tick s1))

  -- No work: the last cpu to see all functions finished restarts the graph and goes on as `again`,
  -- any other halts.
  unfoldable pub restart_or_halt : Bool → (ℕ → State → Option Outcome) → ℕ → State → Option Outcome
  restart_or_halt true again t1 s = let (s', t) = restart s in again t s'
  restart_or_halt false again t1 s = some (halts (go_idle t1 s))

  -- After `get_work`; `again` is the jump to `new_work`.
  unfoldable pub on_work : (ℕ → State → Option Outcome) → ℕ → State × Option ℕ → Option Outcome
  on_work again t1 (s, some fn) = some (runs fn (dispatch fn t1 s))
  on_work again t1 (s, none) =
      let s1 = record s { num_free_vcpu = dec64 s.num_free_vcpu } in
      let (count, old) = cas s1.num_fin_fn s1.metadata.num_nodes 0 in
      restart_or_halt (old == s1.metadata.num_nodes) again t1 (record s1 { num_fin_fn = count })

  -- From `new_work` on; `none` when the fuel has run out.
  unfoldable pub new_work : ℕ → ℕ → State → Option Outcome
  new_work zero t1 s = none
  new_work (suc fuel) t1 s = on_work (new_work fuel) t1 (get_work s)

  -- A pass from the entry. After a restart the start function is there: two rounds are enough.
  unfoldable pub sched : State → Option Outcome
  sched s = let (s1, t1) = sched_start s in new_work 2 t1 s1

  -- From the instruction after `hlt` on.
  unfoldable pub after_hlt : State → Option Outcome
  after_hlt s = let s1 = wake_up_event id s in new_work 2 (mach.tsc s1.reads) (tick s1)
