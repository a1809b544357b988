-- ===== src/Sched/Main.antt =====
-- `main` of src/main.c from the end of its start barrier to its first pass of `sched`: cpu 0
-- initialises the scheduler and tells the monitor; any other has been woken from its `hlt`. `mem` is
-- the memory by 8-byte words, and `rsp` the stack pointer of the cpu.
use bootcode.Base.{
  ℕ, ◌+◌, ◌-◌, ◌*◌, ◌^◌, ◌≤◌, ◌<◌, ◌≡◌, sym, arith, true, false, if◌then◌else◌, ◌==◌, Option, sub64,
}
use bootcode.Bits.{bt, btr, popcnt}
use bootcode.Bits.Laws.{bt-btr}
use bootcode.Util.Identity.{main_ids, get_id_lem}
use bootcode.Sched.State.{State, Machine, message, msg_booted, emit, null_func}
use bootcode.Sched.Queue.Laws.{IsBitmap}
use bootcode.Sched.Init.{scheduler_init_pre, scheduler_init_post, wake_up_event}
use bootcode.Sched.Loop.{Outcome, sched}
use bootcode.Sched.Wake.Account.{IsAccounted}
use bootcode.Sched.Account.{
  Returns, IsLoaded, begun-sched-IsAccounted, sched-IsAccounted, wake_up_event-IsAccounted,
}

unfoldable pub main : Machine → (ℕ → ℕ) → ℕ → State → Option Outcome
main mach mem rsp s =
    let (id, pool_sz) = main_ids mem rsp in
    sched mach id (
      if id == 0
      then scheduler_init_post mach pool_sz
          (emit (message msg_booted) (scheduler_init_pre pool_sz s))
      else wake_up_event id s)

module _ (mach : Machine) (mono : (m n : ℕ) → m ≤ n → mach.tsc m ≤ mach.tsc n) (mem : ℕ → ℕ)
    (page id pool_sz rsp : ℕ) (place : page < 2 ^ 52 - 2) (one_byte : id < 256)
    (pool_byte : pool_sz < 256) (word : mem (page * 4096 + 4088) ≡ pool_sz * 2 ^ 8 + id)
    (above : page * 4096 < rsp) (in_page : rsp < page * 4096 + 4096) where
  ids : main_ids mem rsp ≡ (id, pool_sz)
  ids = (get_id_lem mem page id pool_sz rsp place one_byte pool_byte word above in_page).0

  -- Cpu 0, with its number and the size of the pool in the last word of the page of its stack, and the
  -- state as it is loaded: `main` initialises the scheduler, and its first pass of `sched` ends in
  -- user mode or in a halt, with `num_free_vcpu` counting the kicked cpus and no other. The counter
  -- must not run backwards.
  pub main_begins :
      (s : State) → id ≡ 0 → IsLoaded s → Returns (IsAccounted mach 0) (main mach mem rsp s)
  unfolding main scheduler_init_pre scheduler_init_post
  main_begins s z h =
      let told = emit (message msg_booted) s in
      let h' : IsLoaded told = record {
        halts = h.halts;
        idle = h.idle;
        bitmap = h.bitmap;
        start = h.start;
        unseen = h.unseen;
      } in
      rw (ids, z) (begun-sched-IsAccounted mach pool_sz mono told h')

  -- Any other cpu of a number below 64, woken from the `hlt` of `main` by a kick or an interrupt: from
  -- a right account its first pass of `sched` ends in user mode or in a halt, with an account that is
  -- right without this cpu. The other conditions are that it has run no function, that no old
  -- snapshot has it kicked, that no other cpu is free when all others are inactive, that the bitmap
  -- has its four words and the start function is below 256, and that the counter does not run
  -- backwards.
  pub main_joins :
      (free asleep pool : ℕ) (s : State)
      → (sub64 pool (popcnt 64 asleep) ≡ 1 → free ≡ 0)
      → 0 < id
      → id < 64
      → IsAccounted mach free s
      → btr id s.bm_inactive_vcpus ≡ asleep
      → s.vcpu_pool_sz ≡ pool
      → s.metadata.current id ≡ null_func
      → bt id s.ss_reflective_bm.lo ≡ false
      → IsBitmap s.bm_run_fn
      → s.metadata.start_func < 256
      → Returns (IsAccounted mach free) (main mach mem rsp s)
  unfolding main wake_up_event
  main_joins free asleep pool s alone pos small acc e p idle unseen b start =
      let other : (id == 0) ≡ false = ground (arith, pos) in
      let ran_none : (s.metadata.current id == null_func) ≡ true = ground (arith, idle) in
      rw (ids, other)
        (sched-IsAccounted mach id asleep pool free mono alone (wake_up_event id s) (record {
          account = rw ran_none (wake_up_event-IsAccounted mach id free s small acc);
          spared = record {
            inactive = e;
            pool_sz = p;
            bitmap = b;
            start = start;
            unkicked = ground (arith, bt-btr id id s.bm_kicked_vcpus);
            unseen = unseen;
          };
          awake = rw (sym e) (ground (arith, bt-btr id id s.bm_inactive_vcpus));
        }))
