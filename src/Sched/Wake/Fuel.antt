-- ===== src/Sched/Wake/Fuel.antt =====
-- The fuel of the loops of `wake_up_task` never runs out: each round takes a bit out of a word.
use bootcode.Base.{
  ℕ, zero, suc, ◌≤◌, ◌<◌, ◌≡◌, refl, sym, arith, ◌∙◌, Bool, true, false, ltb, if◌then◌else◌,
}
use bootcode.Base.{inl, inr, Bool-cases, Option-cases, some, positive64, ap}
use bootcode.Bits.{btr, bsf, popcnt}
use bootcode.Bits.Scan.{bsf-lt, bsf-bt}
use bootcode.Bits.Count.{popcnt-btr, popcnt-le}
use bootcode.Util.{Pair}
use bootcode.Sched.State.{State, Machine}
use bootcode.Sched.Wake.Rounds.{
  rest1, rest, rekick_loop-none, rekick_loop-some, try_kick-none, try_kick-some, kick_loop-suc,
}
use bootcode.Sched.Wake.{
  rekick, rekick_loop, first_kick, pass_over, try_kick, count_down, kick_next, kick_loop,
}

popcnt_taken : (m n : ℕ) → bsf 64 m ≡ some n → popcnt 64 (btr n m) < popcnt 64 m
popcnt_taken m n e = ground (arith, popcnt-btr 64 n m (bsf-lt 64 m n e), bsf-bt 64 m n e)

module _ (mach : Machine) where
  lo-rekick : (c : ℕ) (s : State) → (rekick mach c s).ss_reflective_bm1.lo ≡ s.ss_reflective_bm1.lo
  unfolding rekick
  lo-rekick c s = ground arith

  lo-first_kick :
      (c : ℕ) (s : State) → (first_kick mach c s).ss_reflective_bm.lo ≡ s.ss_reflective_bm.lo
  unfolding first_kick
  lo-first_kick c s = refl

  lo-pass_over :
      (c : ℕ) (s : State) → (pass_over mach c s).ss_reflective_bm.lo ≡ s.ss_reflective_bm.lo
  unfolding pass_over
  lo-pass_over c s = refl

  lo-count_down : (s : State) → (count_down mach s).ss_reflective_bm ≡ s.ss_reflective_bm
  unfolding count_down
  lo-count_down s = refl

  rekick_loop_fuel :
      (f g : ℕ) (s : State)
      → popcnt 64 s.ss_reflective_bm1.lo < f
      → popcnt 64 s.ss_reflective_bm1.lo < g
      → rekick_loop mach f s ≡ rekick_loop mach g s
  rekick_loop_fuel zero g s p q = absurd (omega arith)
  rekick_loop_fuel (suc f) zero s p q = absurd (omega arith)
  rekick_loop_fuel (suc f) (suc g) s p q = elim (Option-cases (bsf 64 s.ss_reflective_bm1.lo)) [
    | inl e ↦ rekick_loop-none mach f s e ∙ sym (rekick_loop-none mach g s e)
    | inr (n, e) ↦
        let less = popcnt_taken s.ss_reflective_bm1.lo n e in
        let same = lo-rekick n (rest1 n s) in
        rekick_loop-some mach f s n e
        ∙ rekick_loop_fuel f g (rekick mach n (rest1 n s)) (rw same (omega arith))
            (rw same (omega arith))
        ∙ sym (rekick_loop-some mach g s n e)
  ]

  try_kick_fuel :
      (f g : ℕ) (s : State)
      → popcnt 64 s.ss_reflective_bm.lo < f
      → popcnt 64 s.ss_reflective_bm.lo < g
      → try_kick mach f s ≡ try_kick mach g s
  try_kick_fuel zero g s p q = absurd (omega arith)
  try_kick_fuel (suc f) zero s p q = absurd (omega arith)
  try_kick_fuel (suc f) (suc g) s p q = elim (Option-cases (bsf 64 s.ss_reflective_bm.lo)) [
    | inl e ↦ try_kick-none mach f s e ∙ sym (try_kick-none mach g s e)
    | inr (n, e) ↦
        let less = popcnt_taken s.ss_reflective_bm.lo n e in
        let same = lo-pass_over n (rest n s) in
        rw (try_kick-some mach f s n e, try_kick-some mach g s n e)
          (ap
            (λ r.
              if ltb (s.kick_ts n) (s.hlt_ts n) then (true, first_kick mach n (rest n s)) else r)
            (try_kick_fuel f g (pass_over mach n (rest n s)) (rw same (omega arith))
              (rw same (omega arith))))
  ]

  -- A cpu that is kicked leaves the snapshot.
  abbrev Shrinks : State → Bool × State → Type 0
  Shrinks s (kicked, s') =
      kicked ≡ true → popcnt 64 s'.ss_reflective_bm.lo < popcnt 64 s.ss_reflective_bm.lo

  Shrinks-pass :
      (n : ℕ) (s : State) (r : Bool × State)
      → popcnt 64 (rest n s).ss_reflective_bm.lo < popcnt 64 s.ss_reflective_bm.lo
      → Shrinks (rest n s) r
      → Shrinks s r
  Shrinks-pass n s (kicked, s') less h e = omega (arith, h e)

  try_kick-Shrinks : (f : ℕ) (s : State) → Shrinks s (try_kick mach f s)
  unfolding try_kick pass_over
  try_kick-Shrinks zero s = λ e. cc
  try_kick-Shrinks (suc f) s = elim (Option-cases (bsf 64 s.ss_reflective_bm.lo)) [
    | inl e ↦ rw (try_kick-none mach f s e) (λ q. cc)
    | inr (n, e) ↦
        let less = popcnt_taken s.ss_reflective_bm.lo n e in
        rw (try_kick-some mach f s n e) (elim (Bool-cases (ltb (s.kick_ts n) (s.hlt_ts n))) [
          | inl late ↦ rw (late, lo-first_kick n (rest n s)) (λ q. less)
          | inr no_more ↦ rw no_more (
              Shrinks-pass n s (try_kick mach f (pass_over mach n (rest n s))) less
                (try_kick-Shrinks f (pass_over mach n (rest n s))))
        ])
  ]

  kick_next_ext :
      (a b : State → State) (r : Bool × State)
      → (r.0 ≡ true → a r.1 ≡ b r.1)
      → kick_next mach a r ≡ kick_next mach b r
  unfolding kick_next
  kick_next_ext a b (true, s) h = h refl
  kick_next_ext a b (false, s) h = refl

  kick_loop_fuel :
      (f g : ℕ) (s : State)
      → popcnt 64 s.ss_reflective_bm.lo < f
      → popcnt 64 s.ss_reflective_bm.lo < g
      → kick_loop mach f s ≡ kick_loop mach g s
  kick_loop_fuel zero g s p q = absurd (omega arith)
  kick_loop_fuel (suc f) zero s p q = absurd (omega arith)
  kick_loop_fuel (suc f) (suc g) s p q =
      let shrinks = try_kick-Shrinks 65 (count_down mach s) in
      rw (kick_loop-suc mach f s, kick_loop-suc mach g s)
        (ap (λ r. if positive64 s.wake_num_vcpu then r else count_down mach s)
          (kick_next_ext (kick_loop mach f) (kick_loop mach g)
            (try_kick mach 65 (count_down mach s))
            (λ e.
              kick_loop_fuel f g (try_kick mach 65 (count_down mach s)).1
                (omega (arith, shrinks e, ap (λ (t : Pair). popcnt 64 t.lo) (lo-count_down s)))
                (omega (arith, shrinks e, ap (λ (t : Pair). popcnt 64 t.lo) (lo-count_down s))))))

  -- The three loops of `wake_up_task` end by themselves within the 65 rounds that the model gives
  -- them: more rounds change nothing, from any state.
  pub loops_settled :
      (f : ℕ) (s : State)
      → 65 ≤ f
      → (rekick_loop mach f s ≡ rekick_loop mach 65 s)
        × (try_kick mach f s ≡ try_kick mach 65 s)
        × (kick_loop mach f s ≡ kick_loop mach 65 s)
  loops_settled f s h =
      let b1 = popcnt-le 64 s.ss_reflective_bm1.lo in
      let b = popcnt-le 64 s.ss_reflective_bm.lo in
      (
        rekick_loop_fuel f 65 s (omega arith) (omega arith),
        try_kick_fuel f 65 s (omega arith) (omega arith),
        kick_loop_fuel f 65 s (omega arith) (omega arith),
      )
