-- ===== src/Sched/Account/Begin.antt =====
-- The account at the start: what `main` of src/main.c hands to the first pass on cpu 0.
use bootcode.Base.{ℕ, zero, suc, ◌+◌, ◌-◌, ◌≤◌, ◌<◌, ◌≡◌, ◌==◌, refl, arith, true}
use bootcode.Bits.{btr}
use bootcode.Bits.Laws.{bt-btr, bt-zero}
use bootcode.Bits.Count.{popcnt-zero}
use bootcode.Sched.State.{State, Machine, null_func}
use bootcode.Sched.Queue.Laws.{IsBitmap}
use bootcode.Sched.Init.{pool_mask, scheduler_init_pre, stamp_from, scheduler_init_post}
use bootcode.Sched.Loop.{sched}
use bootcode.Sched.Wake.Account.{IsAccounted}
use bootcode.Sched.Wake.Targets.{IsSpared}
use bootcode.Sched.Account.Pass.{Returns, sched-IsAccounted}

stamp_from-le :
    (left i t c bound : ℕ) (a : ℕ → ℕ) → t ≤ bound → a c ≤ bound → stamp_from left i t a c ≤ bound
unfolding stamp_from
stamp_from-le zero i t c bound a ht ha = ha
stamp_from-le (suc left) i t c bound a ht ha =
    stamp_from-le left (i + 1) t c bound _ ht (ground (arith, ht, ha))

-- The variables as the program is loaded, and the graph as the monitor leaves it.
pub record IsLoaded (s : State) : Type 0 where
  pub halts : (c : ℕ) → s.hlt_ts c ≡ 0
  pub idle : s.metadata.current 0 ≡ null_func
  pub bitmap : IsBitmap s.bm_run_fn
  pub start : s.metadata.start_func < 256
  pub unseen : s.ss_reflective_bm.lo ≡ 0

module _ (mach : Machine) (pool_sz : ℕ) (mono : (m n : ℕ) → m ≤ n → mach.tsc m ≤ mach.tsc n) where
  abbrev pub begun : State → State
  begun s = scheduler_init_post mach pool_sz (scheduler_init_pre pool_sz s)

  begun-IsAccounted : (s : State) → IsLoaded s → IsAccounted mach 1 (begun s)
  unfolding scheduler_init_pre scheduler_init_post
  begun-IsAccounted s h = record {
    counted = ground (arith, popcnt-zero 64);
    fresh = λ c e. absurd (ground (arith, bt-zero c, e));
    past = λ c n le.
        stamp_from-le (pool_sz - 1) 1 _ c _ s.hlt_ts (mono s.reads n (omega arith))
          (omega (arith, h.halts c));
  }

  begun-IsSpared :
      (s : State) → IsLoaded s → IsSpared mach 0 (btr 0 (pool_mask pool_sz)) pool_sz (begun s)
  unfolding scheduler_init_pre scheduler_init_post
  begun-IsSpared s h = record {
    inactive = refl;
    pool_sz = refl;
    bitmap = h.bitmap;
    start = h.start;
    unkicked = bt-zero 0;
    unseen = ground (arith, h.unseen, bt-zero 0);
  }

  begun-idle : (s : State) → IsLoaded s → ((begun s).metadata.current 0 == null_func) ≡ true
  unfolding scheduler_init_pre scheduler_init_post
  begun-idle s h = ground (arith, h.idle)

  -- From the state as it is loaded, and with a counter that does not run backwards, the
  -- initialisation by cpu 0 makes the account right for its first pass of `sched`: that pass ends
  -- in user mode or in a halt, with `num_free_vcpu` counting the kicked cpus and no other.
  pub begun-sched-IsAccounted :
      (s : State) → IsLoaded s → Returns (IsAccounted mach 0) (sched mach 0 (begun s))
  begun-sched-IsAccounted s h =
      sched-IsAccounted mach 0 (btr 0 (pool_mask pool_sz)) pool_sz 0 mono (λ e. refl) (begun s)
        (record {
          account = rw (begun-idle s h) (begun-IsAccounted s h);
          spared = begun-IsSpared s h;
          awake = ground (arith, bt-btr 0 0 (pool_mask pool_sz));
        })
