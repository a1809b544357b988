-- ===== src/Sched/Wake/Targets.antt =====
-- Whom `wake_up_task` marks as kicked.
use bootcode.Base.{ℕ, zero, suc, ◌<◌, ◌≡◌, refl, arith, true, false, ◌==◌, ltb}
use bootcode.Base.{Bool, inl, inr, Bool-cases, Option-cases, some, positive64}
use bootcode.Bits.{bt, bsf}
use bootcode.Bits.Laws.{bt-bts, bt-btr}
use bootcode.Bits.Scan.{bsf-bt}
use bootcode.Util.{Pair, zero_pair, dcas}
use bootcode.Sched.Queue.Laws.{IsBitmap}
use bootcode.Sched.State.{State, Machine}
use bootcode.Sched.Wake.Rounds.{
  rest1, rest, rekick_loop-none, rekick_loop-some, try_kick-none, try_kick-some, kick_loop-suc,
}
use bootcode.Sched.Wake.{
  rekick, rekick_loop, first_kick, try_kick, count_down, pass_over, kick_next, kick_loop,
  rekick_lost, set_target, kick_inactive, wake_up_task,
}

module _ (mach : Machine) (c asleep pool : ℕ) where
  -- `c` is neither kicked nor in the snapshot of the cpus to kick; `asleep` are the inactive cpus;
  -- and the scheduler can go on, with four words in its bitmap and a start function in range.
  pub record IsSpared (s : State) : Type 0 where
    pub inactive : s.bm_inactive_vcpus ≡ asleep
    pub pool_sz : s.vcpu_pool_sz ≡ pool
    pub bitmap : IsBitmap s.bm_run_fn
    pub start : s.metadata.start_func < 256
    pub unkicked : bt c s.bm_kicked_vcpus ≡ false
    pub unseen : bt c s.ss_reflective_bm.lo ≡ false

  first_kick-IsSpared :
      (n : ℕ) (s : State) → (c == n) ≡ false → IsSpared s → IsSpared (first_kick mach n s)
  unfolding first_kick
  first_kick-IsSpared n s ne h = record {
    inactive = h.inactive;
    pool_sz = h.pool_sz;
    bitmap = h.bitmap;
    start = h.start;
    unkicked = ground (arith, bt-bts c n s.bm_kicked_vcpus, h.unkicked);
    unseen = h.unseen;
  }

  rest-IsSpared : (n : ℕ) (s : State) → IsSpared s → IsSpared (rest n s)
  rest-IsSpared n s h = record {
    inactive = h.inactive;
    pool_sz = h.pool_sz;
    bitmap = h.bitmap;
    start = h.start;
    unkicked = h.unkicked;
    unseen = ground (arith, bt-btr c n s.ss_reflective_bm.lo, h.unseen);
  }

  pass_over-IsSpared : (n : ℕ) (s : State) → IsSpared s → IsSpared (pass_over mach n s)
  unfolding pass_over
  pass_over-IsSpared n s h = record {
    inactive = h.inactive;
    pool_sz = h.pool_sz;
    bitmap = h.bitmap;
    start = h.start;
    unkicked = h.unkicked;
    unseen = h.unseen;
  }

  ne_of_seen :
      (n : ℕ) (s : State) → IsSpared s → bsf 64 s.ss_reflective_bm.lo ≡ some n → (c == n) ≡ false
  ne_of_seen n s h e = elim (Bool-cases (c == n)) [
    | inl eq ↦
        let at : c ≡ n = ground arith in
        let seen : bt c s.ss_reflective_bm.lo ≡ true =
          rw at (bsf-bt 64 s.ss_reflective_bm.lo n e) in
        cc (h.unseen)
    | inr ne ↦ ne
  ]

  try_kick-IsSpared : (f : ℕ) (s : State) → IsSpared s → IsSpared (try_kick mach f s).1
  try_kick-IsSpared zero s h = unfold try_kick in h
  try_kick-IsSpared (suc f) s h = elim (Option-cases (bsf 64 s.ss_reflective_bm.lo)) [
    | inl e ↦ rw (try_kick-none mach f s e) h
    | inr (n, e) ↦
        rw (try_kick-some mach f s n e) (elim (Bool-cases (ltb (s.kick_ts n) (s.hlt_ts n))) [
          | inl late ↦
              rw late (first_kick-IsSpared n (rest n s) (ne_of_seen n s h e) (rest-IsSpared n s h))
          | inr no_more ↦ rw no_more (
              try_kick-IsSpared f (pass_over mach n (rest n s))
                (pass_over-IsSpared n (rest n s) (rest-IsSpared n s h)))
        ])
  ]

  kick_next-IsSpared :
      (again : State → State) (r : Bool × State)
      → ((s : State) → IsSpared s → IsSpared (again s))
      → IsSpared r.1
      → IsSpared (kick_next mach again r)
  unfolding kick_next
  kick_next-IsSpared again (true, s) next h = next s h
  kick_next-IsSpared again (false, s) next h = h

  count_down-IsSpared : (s : State) → IsSpared s → IsSpared (count_down mach s)
  unfolding count_down
  count_down-IsSpared s h = record {
    inactive = h.inactive;
    pool_sz = h.pool_sz;
    bitmap = h.bitmap;
    start = h.start;
    unkicked = h.unkicked;
    unseen = h.unseen;
  }

  kick_loop-IsSpared : (f : ℕ) (s : State) → IsSpared s → IsSpared (kick_loop mach f s)
  kick_loop-IsSpared zero s h = unfold kick_loop in h
  kick_loop-IsSpared (suc f) s h =
      let h1 = count_down-IsSpared s h in
      rw (kick_loop-suc mach f s) (elim (Bool-cases (positive64 s.wake_num_vcpu)) [
        | inl more ↦ rw more (
            kick_next-IsSpared (kick_loop mach f) (try_kick mach 65 (count_down mach s))
              (kick_loop-IsSpared f) (try_kick-IsSpared 65 (count_down mach s) h1))
        | inr less ↦ rw less h1
      ])

  -- The first part changes none of the three sets of the second.
  record IsKept (s t : State) : Type 0 where
    kicked : t.bm_kicked_vcpus ≡ s.bm_kicked_vcpus
    inactive : t.bm_inactive_vcpus ≡ s.bm_inactive_vcpus
    queue : t.bm_run_fn ≡ s.bm_run_fn
    meta : t.metadata ≡ s.metadata
    size : t.vcpu_pool_sz ≡ s.vcpu_pool_sz
    seen : t.ss_reflective_bm ≡ s.ss_reflective_bm

  rekick-IsKept : (n : ℕ) (s : State) → IsKept s (rekick mach n s)
  unfolding rekick
  rekick-IsKept n s = record {
    kicked = ground arith;
    inactive = ground arith;
    size = ground arith;
    queue = ground arith;
    meta = ground arith;
    seen = ground arith;
  }

  IsKept-trans : {s t u : State} → IsKept s t → IsKept t u → IsKept s u
  IsKept-trans p q = record {
    kicked = cc (p.kicked, q.kicked);
    inactive = cc (p.inactive, q.inactive);
    size = cc (p.size, q.size);
    queue = cc (p.queue, q.queue);
    meta = cc (p.meta, q.meta);
    seen = cc (p.seen, q.seen);
  }

  rekick_loop-IsKept : (f : ℕ) (s : State) → IsKept s (rekick_loop mach f s)
  rekick_loop-IsKept zero s =
      unfold rekick_loop in
      record { kicked = refl; inactive = refl; size = refl; queue = refl; meta = refl; seen = refl }
  rekick_loop-IsKept (suc f) s = elim (Option-cases (bsf 64 s.ss_reflective_bm1.lo)) [
    | inl e ↦ rw (rekick_loop-none mach f s e) (record {
      kicked = refl;
      inactive = refl;
      size = refl;
      queue = refl;
      meta = refl;
      seen = refl;
    })
    | inr (n, e) ↦
        let first = rekick-IsKept n (rest1 n s) in
        rw (rekick_loop-some mach f s n e) (
          IsKept-trans
            (record {
              kicked = first.kicked;
              inactive = first.inactive;
              size = first.size;
              queue = first.queue;
              meta = first.meta;
              seen = first.seen;
            })
            (rekick_loop-IsKept f (rekick mach n (rest1 n s))))
  ]

  rekick_lost-IsKept : (s : State) → IsKept s (rekick_lost mach s)
  unfolding rekick_lost
  rekick_lost-IsKept s =
      let kicked : Pair = record { lo = s.bm_kicked_vcpus; hi = s.bm_kicked_vcpus } in
      let kept =
        rekick_loop-IsKept 65
          (record s { ss_reflective_bm1 = (dcas s.ss_reflective_bm1 zero_pair kicked).0 }) in
      record {
        kicked = kept.kicked;
        inactive = kept.inactive;
        size = kept.size;
        queue = kept.queue;
        meta = kept.meta;
        seen = kept.seen;
      }

  snapshot-IsSpared :
      (s : State) → IsSpared s → bt c asleep ≡ false → IsSpared (kick_inactive mach s)
  unfolding kick_inactive dcas
  snapshot-IsSpared s h awake = kick_loop-IsSpared 65 _ (record {
    inactive = h.inactive;
    pool_sz = h.pool_sz;
    bitmap = h.bitmap;
    start = h.start;
    unkicked = h.unkicked;
    unseen = ground (arith, h.unseen, h.inactive, awake);
  })

  -- `wake_up_task` marks no cpu as kicked but those in the snapshot that an earlier call left in
  -- use and those that are inactive: a cpu that is in neither, and not kicked before, is not kicked
  -- afterwards, and is not in the snapshot that is left.
  pub wake_up_task-IsSpared :
      (s : State) → IsSpared s → bt c asleep ≡ false → IsSpared (wake_up_task mach s)
  unfolding wake_up_task set_target
  wake_up_task-IsSpared s h awake =
      let kept = rekick_lost-IsKept s in
      snapshot-IsSpared (set_target mach (rekick_lost mach s))
        (record {
          inactive = rw kept.inactive h.inactive;
          pool_sz = rw kept.size h.pool_sz;
          bitmap = rw kept.queue h.bitmap;
          start = rw kept.meta h.start;
          unkicked = rw kept.kicked h.unkicked;
          unseen = rw kept.seen h.unseen;
        })
        awake
