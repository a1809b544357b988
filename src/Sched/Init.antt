-- ===== src/Sched/Init.antt =====
-- `scheduler_init_pre`, `scheduler_init_post` and `wake_up_event`.
use bootcode.Base.{ℕ, zero, suc, ◌+◌, ◌-◌, ◌%◌, ◌^◌, if◌then◌else◌, update, inc64, sub64, u64}
use bootcode.Bits.{bt, btr}
use bootcode.Sched.State.{State, Machine, tick}

-- `((uint64_t)1 << pool_sz) - 1`. C leaves a shift by 64 or more undefined; the instruction takes
-- the count modulo 64.
unfoldable pub pool_mask : ℕ → ℕ
pool_mask pool_sz = sub64 (2 ^ (pool_sz % 64)) 1

-- Every cpu of the pool but cpu 0 starts inactive, and cpu 0 counts as free.
unfoldable pub scheduler_init_pre : ℕ → State → State
scheduler_init_pre pool_sz s = record s {
  bm_kicked_vcpus = 0;
  bm_inactive_vcpus = btr 0 (pool_mask pool_sz);
  sig_wake_num_vcpu_is_0 = 1;
  num_free_vcpu = 1;
  vcpu_pool_sz = pool_sz;
  metadata = record (s.metadata) {
    dag_ts = 0;
    dag_n = 0;
    dag_tot_tsc_time = 0;
    dag_tot_proc_inp = 0;
  };
}

-- `for(i = ...; ...; i++) hlt_ts[i] = t`, with `left` rounds to go.
unfoldable pub stamp_from : ℕ → ℕ → ℕ → (ℕ → ℕ) → ℕ → ℕ
stamp_from zero i t a = a
stamp_from (suc left) i t a = stamp_from left (i + 1) t (update a i t)

module _ (mach : Machine) where
  unfoldable pub scheduler_init_post : ℕ → State → State
  scheduler_init_post pool_sz s =
      let t = mach.tsc s.reads in
      record (tick s) {
        num_fin_fn = u64 s.metadata.num_nodes;
        hlt_ts = stamp_from (pool_sz - 1) 1 t s.hlt_ts;
        dag_start_tsc = 0;
      }

-- A cpu has woken: it is active, and counts as free unless its kicker has counted it.
unfoldable pub wake_up_event : ℕ → State → State
wake_up_event id s = record s {
  bm_inactive_vcpus = btr id s.bm_inactive_vcpus;
  bm_kicked_vcpus = btr id s.bm_kicked_vcpus;
  num_free_vcpu = if bt id s.bm_kicked_vcpus then s.num_free_vcpu else inc64 s.num_free_vcpu;
}
