-- ===== src/Sched/Wake/Frame.antt =====
-- What `wake_up_task` leaves alone: the graph, the runnable functions and the finished ones.
use bootcode.Base.{
  ℕ, zero, suc, ◌≡◌, refl, ap, ◌∙◌, Bool, true, false, ltb, List, inl, inr, Bool-cases,
  Option-cases, positive64, sub64, ◌&&◌,
}
use bootcode.Bits.{bsf}
use bootcode.Sched.State.{State, Metadata, Machine}
use bootcode.Sched.Wake.Rounds.{
  rest1, rest, rekick_loop-none, rekick_loop-some, try_kick-none, try_kick-some, kick_loop-suc,
}
use bootcode.Sched.Wake.{
  rekick_thd, rekick, rekick_loop, first_kick, try_kick, count_down, pass_over, kick_next,
  kick_loop, rekick_lost, set_target, kick_inactive, wake_up_task,
}

abbrev pub kept : State → Metadata × (List ℕ × (ℕ × ℕ))
kept s = (s.metadata, (s.bm_run_fn, (s.num_fin_fn, s.vcpu_pool_sz)))

module _ (mach : Machine) where
  kept-rekick : (c : ℕ) (s : State) → kept (rekick mach c s) ≡ kept s
  unfolding rekick
  kept-rekick c s =
      let dt = sub64 (mach.tsc s.reads) (s.kick_ts c) in
      elim (Bool-cases (positive64 dt && ltb rekick_thd dt)) [
        | inl e ↦ rw e refl
        | inr e ↦ rw e refl
      ]

  kept-first_kick : (c : ℕ) (s : State) → kept (first_kick mach c s) ≡ kept s
  unfolding first_kick
  kept-first_kick c s = refl

  kept-pass_over : (c : ℕ) (s : State) → kept (pass_over mach c s) ≡ kept s
  unfolding pass_over
  kept-pass_over c s = refl

  kept-count_down : (s : State) → kept (count_down mach s) ≡ kept s
  unfolding count_down
  kept-count_down s = refl

  kept-rekick_loop : (f : ℕ) (s : State) → kept (rekick_loop mach f s) ≡ kept s
  kept-rekick_loop zero s = unfold rekick_loop in refl
  kept-rekick_loop (suc f) s = elim (Option-cases (bsf 64 s.ss_reflective_bm1.lo)) [
    | inl e ↦ rw (rekick_loop-none mach f s e) refl
    | inr (n, e) ↦
        ap kept (rekick_loop-some mach f s n e)
        ∙ kept-rekick_loop f (rekick mach n (rest1 n s))
        ∙ kept-rekick n (rest1 n s)
  ]

  kept-try_kick : (f : ℕ) (s : State) → kept (try_kick mach f s).1 ≡ kept s
  kept-try_kick zero s = unfold try_kick in refl
  kept-try_kick (suc f) s = elim (Option-cases (bsf 64 s.ss_reflective_bm.lo)) [
    | inl e ↦ rw (try_kick-none mach f s e) refl
    | inr (n, e) ↦
        rw (try_kick-some mach f s n e) (elim (Bool-cases (ltb (s.kick_ts n) (s.hlt_ts n))) [
          | inl late ↦ rw late (kept-first_kick n (rest n s))
          | inr no_more ↦
              rw no_more
                (kept-try_kick f (pass_over mach n (rest n s)) ∙ kept-pass_over n (rest n s))
        ])
  ]

  kept-kick_next :
      (again : State → State) (r : Bool × State)
      → ((s : State) → kept (again s) ≡ kept s)
      → kept (kick_next mach again r) ≡ kept r.1
  unfolding kick_next
  kept-kick_next again (true, s) h = h s
  kept-kick_next again (false, s) h = refl

  kept-kick_loop : (f : ℕ) (s : State) → kept (kick_loop mach f s) ≡ kept s
  kept-kick_loop zero s = unfold kick_loop in refl
  kept-kick_loop (suc f) s =
      rw (kick_loop-suc mach f s) (elim (Bool-cases (positive64 s.wake_num_vcpu)) [
        | inl more ↦ rw more (
            kept-kick_next (kick_loop mach f) (try_kick mach 65 (count_down mach s))
              (kept-kick_loop f)
            ∙ kept-try_kick 65 (count_down mach s)
            ∙ kept-count_down s)
        | inr less ↦ rw less (kept-count_down s)
      ])

  pub kept-wake_up_task : (s : State) → kept (wake_up_task mach s) ≡ kept s
  unfolding wake_up_task rekick_lost set_target kick_inactive
  kept-wake_up_task s = kept-kick_loop 65 _ ∙ kept-rekick_loop 65 _
