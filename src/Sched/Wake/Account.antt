-- ===== src/Sched/Wake/Account.antt =====
-- `wake_up_task` keeps the account of free cpus: `num_free_vcpu` grows by one for each new bit of
-- `bm_kicked_vcpus`, and for nothing else.
use bootcode.Base.{ℕ, zero, suc, ◌+◌, ◌%◌, ◌^◌, ◌≤◌, ◌<◌, ◌≡◌, arith}
use bootcode.Base.{ltb→lt, true, false, Bool, ltb, inl, inr, Bool-cases, Option-cases, positive64}
use bootcode.Bits.{bt, bsf, popcnt}
use bootcode.Bits.Laws.{bt-bts}
use bootcode.Bits.Scan.{bsf-lt}
use bootcode.Bits.Count.{popcnt-bts}
use bootcode.Util.{Pair}
use bootcode.Sched.State.{State, Machine}
use bootcode.Sched.Wake.Rounds.{
  rest1, rest, rekick_loop-none, rekick_loop-some, try_kick-none, try_kick-some, kick_loop-suc,
}
use bootcode.Sched.Wake.{
  rekick, rekick_loop, first_kick, try_kick, count_down, pass_over, kick_next, kick_loop,
  rekick_lost, set_target, kick_inactive, wake_up_task,
}

module _ (mach : Machine) (free : ℕ) where
  -- `free` cpus are free without having been kicked; a kicked cpu has not halted since; and every
  -- reading of the counter still to come is at or after the halts on record.
  pub record IsAccounted (s : State) : Type 0 where
    pub counted : s.num_free_vcpu ≡ (free + popcnt 64 s.bm_kicked_vcpus) % 2 ^ 64
    pub fresh : (c : ℕ) → bt c s.bm_kicked_vcpus ≡ true → s.hlt_ts c ≤ s.kick_ts c
    pub past : (c n : ℕ) → s.reads ≤ n → s.hlt_ts c ≤ mach.tsc n

  rekick-IsAccounted : (c : ℕ) (s : State) → IsAccounted s → IsAccounted (rekick mach c s)
  unfolding rekick
  rekick-IsAccounted c s h = record {
    counted = ground (arith, h.counted);
    fresh = λ d e. ground (arith, h.fresh d, h.past d (s.reads + 1));
    past = λ d n e. ground (arith, h.past d n);
  }

  first_kick-IsAccounted :
      (c : ℕ) (s : State)
      → c < 64
      → s.kick_ts c < s.hlt_ts c
      → IsAccounted s
      → IsAccounted (first_kick mach c s)
  unfolding first_kick
  first_kick-IsAccounted c s small late h = record {
    counted = ground (arith, h.counted, h.fresh c, popcnt-bts 64 c s.bm_kicked_vcpus small);
    fresh = λ d e. ground (arith, bt-bts d c s.bm_kicked_vcpus, h.fresh d, h.past d s.reads);
    past = λ d n e. ground (arith, h.past d n);
  }

  -- The words of the two snapshots do not count.
  set_bm1-IsAccounted :
      (p : Pair) (s : State) → IsAccounted s → IsAccounted (record s { ss_reflective_bm1 = p })
  set_bm1-IsAccounted p s h = record { counted = h.counted; fresh = h.fresh; past = h.past }

  set_bm-IsAccounted :
      (p : Pair) (s : State) → IsAccounted s → IsAccounted (record s { ss_reflective_bm = p })
  set_bm-IsAccounted p s h = record { counted = h.counted; fresh = h.fresh; past = h.past }

  set_wake-IsAccounted :
      (w g : ℕ) (s : State)
      → IsAccounted s
      → IsAccounted (record s { wake_num_vcpu = w; sig_wake_num_vcpu_is_0 = g })
  set_wake-IsAccounted w g s h = record { counted = h.counted; fresh = h.fresh; past = h.past }

  pass_over-IsAccounted : (c : ℕ) (s : State) → IsAccounted s → IsAccounted (pass_over mach c s)
  unfolding pass_over
  pass_over-IsAccounted c s h = record { counted = h.counted; fresh = h.fresh; past = h.past }

  rekick_loop-IsAccounted : (f : ℕ) (s : State) → IsAccounted s → IsAccounted (rekick_loop mach f s)
  rekick_loop-IsAccounted zero s h = unfold rekick_loop in h
  rekick_loop-IsAccounted (suc f) s h = elim (Option-cases (bsf 64 s.ss_reflective_bm1.lo)) [
    | inl e ↦ rw (rekick_loop-none mach f s e) h
    | inr (n, e) ↦ rw (rekick_loop-some mach f s n e) (
        rekick_loop-IsAccounted f (rekick mach n (rest1 n s)) (
          rekick-IsAccounted n (rest1 n s) (set_bm1-IsAccounted (rest1 n s).ss_reflective_bm1 s h)))
  ]

  try_kick-IsAccounted : (f : ℕ) (s : State) → IsAccounted s → IsAccounted (try_kick mach f s).1
  try_kick-IsAccounted zero s h = unfold try_kick in h
  try_kick-IsAccounted (suc f) s h = elim (Option-cases (bsf 64 s.ss_reflective_bm.lo)) [
    | inl e ↦ rw (try_kick-none mach f s e) h
    | inr (n, e) ↦
        let h1 = set_bm-IsAccounted (rest n s).ss_reflective_bm s h in
        rw (try_kick-some mach f s n e) (elim (Bool-cases (ltb (s.kick_ts n) (s.hlt_ts n))) [
          | inl late ↦ rw late (
              first_kick-IsAccounted n (rest n s) (bsf-lt 64 s.ss_reflective_bm.lo n e)
                (ltb→lt (s.kick_ts n) (s.hlt_ts n) late) h1)
          | inr no_more ↦ rw no_more (
              try_kick-IsAccounted f (pass_over mach n (rest n s))
                (pass_over-IsAccounted n (rest n s) h1))
        ])
  ]

  count_down-IsAccounted : (s : State) → IsAccounted s → IsAccounted (count_down mach s)
  unfolding count_down
  count_down-IsAccounted s h = record { counted = h.counted; fresh = h.fresh; past = h.past }

  kick_next-IsAccounted :
      (again : State → State) (r : Bool × State)
      → ((s : State) → IsAccounted s → IsAccounted (again s))
      → IsAccounted r.1
      → IsAccounted (kick_next mach again r)
  unfolding kick_next
  kick_next-IsAccounted again (true, s) next h = next s h
  kick_next-IsAccounted again (false, s) next h = h

  kick_loop-IsAccounted : (f : ℕ) (s : State) → IsAccounted s → IsAccounted (kick_loop mach f s)
  kick_loop-IsAccounted zero s h = unfold kick_loop in h
  kick_loop-IsAccounted (suc f) s h =
      let h1 = count_down-IsAccounted s h in
      let tried = try_kick mach 65 (count_down mach s) in
      rw (kick_loop-suc mach f s) (elim (Bool-cases (positive64 s.wake_num_vcpu)) [
        | inl more ↦ rw more (
            kick_next-IsAccounted (kick_loop mach f) tried (kick_loop-IsAccounted f)
              (try_kick-IsAccounted 65 (count_down mach s) h1))
        | inr less ↦ rw less h1
      ])

  -- `wake_up_task` keeps `num_free_vcpu` equal, modulo 2^64, to the cpus that are free by themselves
  -- and the kicked ones, provided that a kicked cpu has not halted since its kick and that the
  -- counter does not run behind the recorded halts; and it keeps those two conditions.
  pub wake_up_task-IsAccounted : (s : State) → IsAccounted s → IsAccounted (wake_up_task mach s)
  unfolding wake_up_task rekick_lost set_target kick_inactive
  wake_up_task-IsAccounted s h = kick_loop-IsAccounted 65 _ (
      set_bm-IsAccounted _ _
        (set_wake-IsAccounted _ _ _ (rekick_loop-IsAccounted 65 _ (set_bm1-IsAccounted _ s h))))
