-- ===== src/Sched/Account/Pass.antt =====
-- The account through a pass, from the entry or from the wake-up to user mode or to the next halt.
use bootcode.Base.{ℕ, zero, suc, ◌≤◌, ◌<◌, ◌≡◌, arith, true, false, ◌==◌, if◌then◌else◌}
use bootcode.Base.{Bool, inl, inr, Bool-cases, dec64, sub64, Option, none, some}
use bootcode.Bits.{bt, btr, popcnt}
use bootcode.Bits.Laws.{bt-btr}
use bootcode.Sched.State.{State, Machine, null_func, tick}
use bootcode.Sched.Queue.{get_work}
use bootcode.Sched.Queue.Laws.{IsBitmap}
use bootcode.Sched.Init.{wake_up_event}
use bootcode.Sched.Wake.{wake_up_task}
use bootcode.Sched.Wake.Account.{IsAccounted, wake_up_task-IsAccounted}
use bootcode.Sched.Wake.Targets.{IsSpared, wake_up_task-IsSpared}
use bootcode.Sched.Loop.{
  Outcome, runs, halts, restart, finish_fn, help_others, restart_or_halt, on_work, new_work,
  sched_start, sched, after_hlt,
}
use bootcode.Sched.Loop.Work.{Leaves, to_fn, to_halt, to_start, new_work-Leaves}
use bootcode.Sched.Account.Steps.{
  wake_up_event-IsAccounted, go_idle-IsAccounted, dispatch-IsAccounted, finish_fn-IsAccounted,
  restart-IsAccounted, inactive-restart, pool-restart, kicked-restart, tick-IsAccounted,
  tick-IsSpared, finish_fn-IsSpared,
}

-- The state that a pass ends in.
abbrev Ends : (State → Type 0) → Option Outcome → Type 0
Ends P none = Unit
Ends P (some (runs fn s)) = P s
Ends P (some (halts s)) = P s

-- The pass ends, and its last state satisfies `P`.
abbrev pub Returns : (State → Type 0) → Option Outcome → Type 0
Returns P none = ⊥
Returns P (some (runs fn s)) = P s
Returns P (some (halts s)) = P s

Leaves-Returns :
    (mach : Machine) (id : ℕ) (P : State → Type 0) {s : State} {o : Option Outcome}
    → Leaves mach id s o
    → Ends P o
    → Returns P o
Leaves-Returns mach id P (to_fn a b c d) h = h
Leaves-Returns mach id P (to_halt a b c d e) h = h
Leaves-Returns mach id P (to_start a b c d e f) h = h

module _ (mach : Machine) (id asleep pool free : ℕ)
    (mono : (m n : ℕ) → m ≤ n → mach.tsc m ≤ mach.tsc n)
    (alone : sub64 pool (popcnt 64 asleep) ≡ 1 → free ≡ 0) where
  -- At `new_work`: this cpu counts as free, beside `free` others.
  record IsLooking (s : State) : Type 0 where
    account : IsAccounted mach (suc free) s
    inactive : s.bm_inactive_vcpus ≡ asleep
    pool_sz : s.vcpu_pool_sz ≡ pool
    unkicked : bt id s.bm_kicked_vcpus ≡ false

  abbrev Again : Type 0
  Again = ℕ → State → Option Outcome

  restart-IsLooking :
      (s : State)
      → IsAccounted mach free s
      → s.bm_inactive_vcpus ≡ asleep
      → s.vcpu_pool_sz ≡ pool
      → bt id s.bm_kicked_vcpus ≡ false
      → IsLooking (restart mach id s).0
  restart-IsLooking s h e p k = record {
    account = restart-IsAccounted mach id free s (λ q. alone (ground arith)) h;
    inactive = rw (inactive-restart mach id s) e;
    pool_sz = rw (pool-restart mach id s) p;
    unkicked = rw (kicked-restart mach id s) k;
  }

  restart_or_halt-Ends :
      (last : Bool) (again : Again) (t1 count : ℕ) (s : State)
      → ((t : ℕ) (s : State) → IsLooking s → Ends (IsAccounted mach free) (again t s))
      → IsLooking s
      → Ends (IsAccounted mach free) (
          restart_or_halt mach id last again t1
            (record s { num_free_vcpu = dec64 s.num_free_vcpu; num_fin_fn = count }))
  unfolding restart_or_halt
  restart_or_halt-Ends true again t1 count s next h = next _ _ (
      restart-IsLooking (record s { num_free_vcpu = dec64 s.num_free_vcpu; num_fin_fn = count })
        (record {
          counted = ground (arith, h.account.counted);
          fresh = h.account.fresh;
          past = h.account.past;
        })
        h.inactive h.pool_sz h.unkicked)
  restart_or_halt-Ends false again t1 count s next h =
      go_idle-IsAccounted mach id free t1 (record s { num_fin_fn = count }) mono h.unkicked
        (record { counted = h.account.counted; fresh = h.account.fresh; past = h.account.past })

  on_work-Ends :
      (again : Again) (t1 : ℕ) (r : State × Option ℕ)
      → ((t : ℕ) (s : State) → IsLooking s → Ends (IsAccounted mach free) (again t s))
      → IsLooking r.0
      → Ends (IsAccounted mach free) (on_work mach id again t1 r)
  unfolding on_work
  on_work-Ends again t1 (s, some fn) next h = dispatch-IsAccounted mach id free fn t1 s h.account
  on_work-Ends again t1 (s, none) next h = restart_or_halt-Ends _ again t1 _ s next h

  get_work-IsLooking : (s : State) → IsLooking s → IsLooking (get_work s).0
  unfolding get_work
  get_work-IsLooking s h = record {
    account = record {
      counted = h.account.counted;
      fresh = h.account.fresh;
      past = h.account.past;
    };
    inactive = h.inactive;
    pool_sz = h.pool_sz;
    unkicked = h.unkicked;
  }

  new_work-Ends :
      (f t1 : ℕ) (s : State) → IsLooking s → Ends (IsAccounted mach free) (new_work mach id f t1 s)
  unfolding new_work
  new_work-Ends zero t1 s h = tt
  new_work-Ends (suc f) t1 s h =
      on_work-Ends (new_work mach id f) t1 (get_work s) (new_work-Ends f) (get_work-IsLooking s h)

  -- Before a pass: this cpu is awake and has not been kicked, nor will an old snapshot have it
  -- kicked; it counts as free if it has run no function.
  pub record IsAwake (s : State) : Type 0 where
    pub account : IsAccounted mach (if s.metadata.current id == null_func then suc free else free) s
    pub spared : IsSpared mach id asleep pool s
    pub awake : bt id asleep ≡ false

  looking :
      (s : State) → IsAccounted mach (suc free) s → IsSpared mach id asleep pool s → IsLooking s
  looking s h p = record {
    account = h;
    inactive = p.inactive;
    pool_sz = p.pool_sz;
    unkicked = p.unkicked;
  }

  -- The scheduler can go on.
  abbrev IsReady : State → Type 0
  IsReady s = IsBitmap s.bm_run_fn × (s.metadata.start_func < 256)

  help_others-IsLooking :
      (s : State)
      → IsAccounted mach (suc free) s
      → IsSpared mach id asleep pool s
      → bt id asleep ≡ false
      → IsLooking (help_others mach id s) × IsReady (help_others mach id s)
  unfolding help_others
  help_others-IsLooking s h p awake = elim (Bool-cases (s.vcpu_pool_sz == 1)) [
    | inl e ↦ rw e (looking s h p, (p.bitmap, p.start))
    | inr e ↦ rw e (
        let q = wake_up_task-IsSpared mach id asleep pool s p awake in
        (
          looking (wake_up_task mach s) (wake_up_task-IsAccounted mach (suc free) s h) q,
          (q.bitmap, q.start),
        ))
  ]

  new_work-Returns :
      (t1 : ℕ) (s : State)
      → IsLooking s
      → IsReady s
      → Returns (IsAccounted mach free) (new_work mach id 2 t1 s)
  new_work-Returns t1 s h r =
      Leaves-Returns mach id (IsAccounted mach free) (new_work-Leaves mach id 0 t1 s r.0 r.1)
        (new_work-Ends 2 t1 s h)

  sched_start-IsLooking :
      (s : State)
      → IsAwake s
      → IsLooking (sched_start mach id s).0 × IsReady (sched_start mach id s).0
  unfolding sched_start
  sched_start-IsLooking s h = elim (Bool-cases (s.metadata.current id == null_func)) [
    | inl e ↦ rw e (
        help_others-IsLooking (tick s) (tick-IsAccounted mach (suc free) s (rw e at (h.account)))
          (tick-IsSpared mach id asleep pool s h.spared) h.awake)
    | inr e ↦
        let fn = s.metadata.current id in
        let found =
          help_others-IsLooking (finish_fn mach id fn (tick s))
            (finish_fn-IsAccounted mach id free fn (tick s)
              (tick-IsAccounted mach free s (rw e at (h.account))))
            (finish_fn-IsSpared mach id asleep pool fn (tick s)
              (tick-IsSpared mach id asleep pool s h.spared))
            h.awake in
        rw e (
          record {
            account = record {
              counted = found.0.account.counted;
              fresh = found.0.account.fresh;
              past = found.0.account.past;
            };
            inactive = found.0.inactive;
            pool_sz = found.0.pool_sz;
            unkicked = found.0.unkicked;
          },
          found.1,
        )
  ]

  wake_up_event-IsReady :
      (s : State)
      → IsBitmap s.bm_run_fn
      → s.metadata.start_func < 256
      → IsReady (tick (wake_up_event id s))
  unfolding wake_up_event
  wake_up_event-IsReady s b start = (b, start)

  woken-IsLooking :
      (s : State)
      → btr id s.bm_inactive_vcpus ≡ asleep
      → s.vcpu_pool_sz ≡ pool
      → IsAccounted mach (suc free) (wake_up_event id s)
      → IsLooking (tick (wake_up_event id s))
  unfolding wake_up_event
  woken-IsLooking s e p h = record {
    account = tick-IsAccounted mach (suc free) (wake_up_event id s) h;
    inactive = e;
    pool_sz = p;
    unkicked = ground (arith, bt-btr id id s.bm_kicked_vcpus);
  }

  -- A pass of `sched` ends in user mode or in a halt, with `num_free_vcpu` counting the other free
  -- cpus and the kicked ones: the cpu of the pass has left the count. The conditions are that the
  -- account was right before, that the counter does not run backwards, that this cpu is awake and
  -- not kicked, also by an old snapshot, that no other cpu is free when all others are inactive,
  -- and that the bitmap has its four words and the start function is below 256.
  pub sched-IsAccounted :
      (s : State) → IsAwake s → Returns (IsAccounted mach free) (sched mach id s)
  unfolding sched
  sched-IsAccounted s h =
      let (looks, ready) = sched_start-IsLooking s h in
      new_work-Returns (sched_start mach id s).1 (sched_start mach id s).0 looks ready

  -- A cpu that comes out of `hlt` counts as free, whoever has woken it, until it enters a function
  -- or halts again, which it does: from a right account the pass ends with one that is right
  -- without this cpu, under the same conditions on the counter, the other cpus and the graph.
  pub after_hlt-IsAccounted :
      (s : State)
      → id < 64
      → IsAccounted mach free s
      → btr id s.bm_inactive_vcpus ≡ asleep
      → s.vcpu_pool_sz ≡ pool
      → IsBitmap s.bm_run_fn
      → s.metadata.start_func < 256
      → Returns (IsAccounted mach free) (after_hlt mach id s)
  unfolding after_hlt
  after_hlt-IsAccounted s small h e p b start =
      new_work-Returns (mach.tsc (wake_up_event id s).reads) (tick (wake_up_event id s))
        (woken-IsLooking s e p (wake_up_event-IsAccounted mach id free s small h))
        (wake_up_event-IsReady s b start)
