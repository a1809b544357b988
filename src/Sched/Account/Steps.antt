-- ===== src/Sched/Account/Steps.antt =====
-- What each part of the pass does to the account.
use bootcode.Base.{ℕ, zero, suc, ◌+◌, ◌≤◌, ◌<◌, ◌≡◌, arith, false}
use bootcode.Base.{dec64, sub64}
use bootcode.Bits.{bt, popcnt}
use bootcode.Bits.Count.{popcnt-btr, popcnt-zero}
use bootcode.Bits.Laws.{bt-btr}
use bootcode.Sched.Wake.Targets.{IsSpared}
use bootcode.Sched.State.{State, Machine, tick}
use bootcode.Sched.Queue.{add_runnable_fn}
use bootcode.Sched.Queue.Laws.{add_bit-IsBitmap}
use bootcode.Sched.Dag.{release_fn, release_from, process_sched_dag}
use bootcode.Sched.Init.{wake_up_event}
use bootcode.Sched.Wake.Account.{IsAccounted}
use bootcode.Sched.Loop.{
  jump2fn, add_wait, load_in_counts, recover, restart, go_idle, dispatch, stop_clock, finish_fn,
}

module _ (mach : Machine) (id : ℕ) where
  -- A cpu, of number below 64, that wakes is one more free cpu, whether or not its kicker has counted
  -- it.
  pub wake_up_event-IsAccounted :
      (free : ℕ) (s : State)
      → id < 64
      → IsAccounted mach free s
      → IsAccounted mach (suc free) (wake_up_event id s)
  unfolding wake_up_event
  wake_up_event-IsAccounted free s small h = record {
    counted = ground (arith, h.counted, popcnt-btr 64 id s.bm_kicked_vcpus small);
    fresh = λ c e. ground (arith, h.fresh c, bt-btr c id s.bm_kicked_vcpus);
    past = h.past;
  }

  pub go_idle-IsAccounted :
      (free t1 : ℕ) (s : State)
      → ((m n : ℕ) → m ≤ n → mach.tsc m ≤ mach.tsc n)
      → bt id s.bm_kicked_vcpus ≡ false
      → IsAccounted mach (suc free) s
      → IsAccounted mach free
          (go_idle mach id t1 (record s { num_free_vcpu = dec64 s.num_free_vcpu }))
  unfolding go_idle add_wait
  go_idle-IsAccounted free t1 s mono own h = record {
    counted = ground (arith, h.counted);
    fresh = λ c e. ground (arith, h.fresh c, own);
    past = λ c n le. ground (arith, h.past c n, mono s.reads n);
  }

  pub dispatch-IsAccounted :
      (free fn t1 : ℕ) (s : State)
      → IsAccounted mach (suc free) s
      → IsAccounted mach free (dispatch mach id fn t1 s)
  unfolding dispatch add_wait jump2fn
  dispatch-IsAccounted free fn t1 s h = record {
    counted = ground (arith, h.counted);
    fresh = h.fresh;
    past = λ c n le. h.past c n (omega arith);
  }

  release_fn-IsAccounted :
      (free e : ℕ) (s : State) → IsAccounted mach free s → IsAccounted mach free (release_fn e s)
  unfolding release_fn add_runnable_fn
  release_fn-IsAccounted free e s h = record {
    counted = ground (arith, h.counted);
    fresh = λ c q. ground (arith, h.fresh c);
    past = λ c n le. ground (arith, h.past c n);
  }

  release_from-IsAccounted :
      (free n i : ℕ) (s : State)
      → IsAccounted mach free s
      → IsAccounted mach free (release_from n i s)
  unfolding release_from
  release_from-IsAccounted free zero i s h = h
  release_from-IsAccounted free (suc n) i s h =
      release_from-IsAccounted free n (i + 1) (release_fn _ s) (release_fn-IsAccounted free _ s h)

  pub process_sched_dag-IsAccounted :
      (free fn : ℕ) (s : State)
      → IsAccounted mach free s
      → IsAccounted mach free (process_sched_dag fn s)
  unfolding process_sched_dag
  process_sched_dag-IsAccounted free fn s h = release_from-IsAccounted free _ _ s h

  stop_clock-IsAccounted :
      (free fn : ℕ) (s : State)
      → IsAccounted mach free s
      → IsAccounted mach (suc free) (stop_clock mach id fn s)
  unfolding stop_clock
  stop_clock-IsAccounted free fn s h = record {
    counted = ground (arith, h.counted);
    fresh = h.fresh;
    past = λ c n le. h.past c n (omega arith);
  }

  pub finish_fn-IsAccounted :
      (free fn : ℕ) (s : State)
      → IsAccounted mach free s
      → IsAccounted mach (suc free) (finish_fn mach id fn s)
  unfolding finish_fn
  finish_fn-IsAccounted free fn s h =
      let mid =
        process_sched_dag-IsAccounted (suc free) fn (stop_clock mach id fn s)
          (stop_clock-IsAccounted free fn s h) in
      record { counted = mid.counted; fresh = mid.fresh; past = mid.past }

  -- A restart counts its cpu as free again, beside `free` others, and keeps the account right, also
  -- where its recovery code sets the counter to 1, provided that no other cpu is free when all others
  -- are inactive.
  pub restart-IsAccounted :
      (free : ℕ) (s : State)
      → (sub64 s.vcpu_pool_sz (popcnt 64 s.bm_inactive_vcpus) ≡ 1 → free ≡ 0)
      → IsAccounted mach free s
      → IsAccounted mach (suc free) (restart mach id s).0
  unfolding restart recover load_in_counts add_runnable_fn
  restart-IsAccounted free s alone h = record {
    counted = ground (arith, h.counted, alone, popcnt-zero 64);
    fresh = λ c e. ground (arith, h.fresh c);
    past = λ c n le. ground (arith, h.past c n);
  }

  module _ (s : State) where
    pub inactive-restart : (restart mach id s).0.bm_inactive_vcpus ≡ s.bm_inactive_vcpus
    unfolding restart recover load_in_counts add_runnable_fn
    inactive-restart = ground arith

    pub pool-restart : (restart mach id s).0.vcpu_pool_sz ≡ s.vcpu_pool_sz
    unfolding restart recover load_in_counts add_runnable_fn
    pool-restart = ground arith

    pub kicked-restart : (restart mach id s).0.bm_kicked_vcpus ≡ s.bm_kicked_vcpus
    unfolding restart recover load_in_counts add_runnable_fn
    kicked-restart = ground arith

-- The clock and the graph do not touch the account, nor whom the kicks may reach.
module _ (mach : Machine) where
  pub tick-IsAccounted :
      (free : ℕ) (s : State) → IsAccounted mach free s → IsAccounted mach free (tick s)
  tick-IsAccounted free s h = record {
    counted = h.counted;
    fresh = h.fresh;
    past = λ c n le. h.past c n (omega arith);
  }

  module _ (id asleep pool : ℕ) where
    pub tick-IsSpared :
        (s : State) → IsSpared mach id asleep pool s → IsSpared mach id asleep pool (tick s)
    tick-IsSpared s h = record {
      inactive = h.inactive;
      pool_sz = h.pool_sz;
      bitmap = h.bitmap;
      start = h.start;
      unkicked = h.unkicked;
      unseen = h.unseen;
    }

    release_fn-IsSpared :
        (e : ℕ) (s : State)
        → IsSpared mach id asleep pool s
        → IsSpared mach id asleep pool (release_fn e s)
    unfolding release_fn add_runnable_fn
    release_fn-IsSpared e s h = record {
      inactive = ground (arith, h.inactive);
      pool_sz = ground (arith, h.pool_sz);
      bitmap = ground (arith, h.bitmap, add_bit-IsBitmap s.bm_run_fn e h.bitmap);
      start = ground (arith, h.start);
      unkicked = ground (arith, h.unkicked);
      unseen = ground (arith, h.unseen);
    }

    release_from-IsSpared :
        (n i : ℕ) (s : State)
        → IsSpared mach id asleep pool s
        → IsSpared mach id asleep pool (release_from n i s)
    unfolding release_from
    release_from-IsSpared zero i s h = h
    release_from-IsSpared (suc n) i s h =
        release_from-IsSpared n (i + 1) (release_fn _ s) (release_fn-IsSpared _ s h)

    stop_clock-IsSpared :
        (fn : ℕ) (s : State)
        → IsSpared mach id asleep pool s
        → IsSpared mach id asleep pool (stop_clock mach id fn s)
    unfolding stop_clock
    stop_clock-IsSpared fn s h = record {
      inactive = h.inactive;
      pool_sz = h.pool_sz;
      bitmap = h.bitmap;
      start = h.start;
      unkicked = h.unkicked;
      unseen = h.unseen;
    }

    pub finish_fn-IsSpared :
        (fn : ℕ) (s : State)
        → IsSpared mach id asleep pool s
        → IsSpared mach id asleep pool (finish_fn mach id fn s)
    unfolding finish_fn process_sched_dag
    finish_fn-IsSpared fn s h =
        let clocked = stop_clock-IsSpared fn s h in
        let mid = release_from-IsSpared _ _ (stop_clock mach id fn s) clocked in
        record {
          inactive = mid.inactive;
          pool_sz = mid.pool_sz;
          bitmap = mid.bitmap;
          start = mid.start;
          unkicked = mid.unkicked;
          unseen = mid.unseen;
        }
