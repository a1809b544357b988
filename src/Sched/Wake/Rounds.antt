-- ===== src/Sched/Wake/Rounds.antt =====
-- One round of each loop of `wake_up_task`: with an empty snapshot, and with a cpu to look at.
use bootcode.Base.{ℕ, suc, ◌≡◌, refl, true, false, ltb, if◌then◌else◌}
use bootcode.Base.{none, some, ap, positive64}
use bootcode.Bits.{btr, bsf}
use bootcode.Util.Laws.{e_bsf-some, e_bsf-none}
use bootcode.Sched.State.{State, Machine}
use bootcode.Sched.Wake.{
  rekick, rekick_next, rekick_loop, first_kick, pass_over, try_next, try_kick, count_down,
  kick_next, kick_loop,
}

-- The snapshots after bit `n` was taken out.
abbrev pub rest1 : ℕ → State → State
rest1 n s = record s {
  ss_reflective_bm1 = record (s.ss_reflective_bm1) { lo = btr n s.ss_reflective_bm1.lo };
}

abbrev pub rest : ℕ → State → State
rest n s = record s {
  ss_reflective_bm = record (s.ss_reflective_bm) { lo = btr n s.ss_reflective_bm.lo };
}

module _ (mach : Machine) (f : ℕ) (s : State) where
  pub rekick_loop-none : bsf 64 s.ss_reflective_bm1.lo ≡ none → rekick_loop mach (suc f) s ≡ s
  unfolding rekick_loop rekick_next
  rekick_loop-none e =
      ap (rekick_next mach (rekick_loop mach f) s) (e_bsf-none s.ss_reflective_bm1.lo e)

  pub rekick_loop-some :
      (n : ℕ)
      → bsf 64 s.ss_reflective_bm1.lo ≡ some n
      → rekick_loop mach (suc f) s ≡ rekick_loop mach f (rekick mach n (rest1 n s))
  unfolding rekick_loop rekick_next
  rekick_loop-some n e =
      ap (rekick_next mach (rekick_loop mach f) s) (e_bsf-some s.ss_reflective_bm1.lo n e)

  pub try_kick-none : bsf 64 s.ss_reflective_bm.lo ≡ none → try_kick mach (suc f) s ≡ (false, s)
  unfolding try_kick try_next
  try_kick-none e = ap (try_next mach (try_kick mach f) s) (e_bsf-none s.ss_reflective_bm.lo e)

  pub try_kick-some :
      (n : ℕ)
      → bsf 64 s.ss_reflective_bm.lo ≡ some n
      → try_kick mach (suc f) s ≡ (
          if ltb (s.kick_ts n) (s.hlt_ts n)
          then (true, first_kick mach n (rest n s))
          else try_kick mach f (pass_over mach n (rest n s)))
  unfolding try_kick try_next
  try_kick-some n e = ap (try_next mach (try_kick mach f) s) (e_bsf-some s.ss_reflective_bm.lo n e)

  pub kick_loop-suc : kick_loop mach (suc f) s ≡ (
      if positive64 s.wake_num_vcpu
      then kick_next mach (kick_loop mach f) (try_kick mach 65 (count_down mach s))
      else count_down mach s)
  unfolding kick_loop
  kick_loop-suc = refl
