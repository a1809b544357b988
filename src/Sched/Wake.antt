-- ===== src/Sched/Wake.antt =====
-- `wake_up_task`: kicks that were lost are sent again, and as many halted cpus are kicked as there
-- are runnable functions without a free cpu. Run by one cpu with no other in between.
pub mod Rounds
pub mod Targets
pub mod Account
pub mod Fuel
pub mod Frame
use bootcode.Base.{
  ℕ, zero, suc, ◌+◌, ◌-◌, ◌^◌, Bool, true, false, ◌&&◌, ◌==◌, ltb, if◌then◌else◌, update,
}
use bootcode.Base.{none, some, inc64, sub64, positive64}
use bootcode.Base.{Option}
use bootcode.Bits.{bts, btr}
use bootcode.Util.{Pair, zero_pair, cas, dcas, xadd, e_bsf}
use bootcode.Sched.State.{State, Machine, kick, tick, emit}

abbrev pub rekick_thd : ℕ
rekick_thd = 1000000

module _ (mach : Machine) where
  -- A cpu that was kicked longer than `rekick_thd` ago (as `int64_t`) is kicked again.
  unfoldable pub rekick : ℕ → State → State
  rekick cpu s =
      let dt = sub64 (mach.tsc s.reads) (s.kick_ts cpu) in
      let late = positive64 dt && ltb rekick_thd dt in
      let s1 = tick s in
      let s2 = record s1 { kick_ts = update s1.kick_ts cpu (mach.tsc s1.reads) } in
      let s3 = if late then emit (kick cpu) (tick s2) else s1 in
      record s3 {
        ss_reflective_bm1 = record (s3.ss_reflective_bm1) { hi = btr cpu s3.ss_reflective_bm1.hi };
      }

  -- A round of the first `while` loop, with what `e_bsf` gave; `again` is the next round.
  unfoldable pub rekick_next : (State → State) → State → ℕ × Option ℕ → State
  rekick_next again s (word, none) = record s {
    ss_reflective_bm1 = record (s.ss_reflective_bm1) { lo = word };
  }
  rekick_next again s (word, some cpu) =
      again
        (rekick cpu (record s { ss_reflective_bm1 = record (s.ss_reflective_bm1) { lo = word } }))

  unfoldable pub rekick_loop : ℕ → State → State
  rekick_loop zero s = s
  rekick_loop (suc fuel) s = rekick_next (rekick_loop fuel) s (e_bsf s.ss_reflective_bm1.lo)

  -- The kick of a cpu that has halted since it was last kicked.
  unfoldable pub first_kick : ℕ → State → State
  first_kick cpu s =
      let s1 = record s {
        num_free_vcpu = inc64 s.num_free_vcpu;
        kick_ts = update s.kick_ts cpu (mach.tsc s.reads);
        bm_kicked_vcpus = bts cpu s.bm_kicked_vcpus;
        reads = s.reads + 1;
      } in
      let s2 = emit (kick cpu) s1 in
      record s2 {
        ss_reflective_bm = record (s2.ss_reflective_bm) { hi = btr cpu s2.ss_reflective_bm.hi };
      }

  -- A cpu that was kicked already is passed over.
  unfoldable pub pass_over : ℕ → State → State
  pass_over cpu s = record s {
    ss_reflective_bm = record (s.ss_reflective_bm) { hi = btr cpu s.ss_reflective_bm.hi };
  }

  -- From `try_kick_another_vcpu` on, with what `e_bsf` gave: `true` when a cpu was kicked, `false`
  -- when none is left; `again` is the jump back.
  unfoldable pub try_next : (State → Bool × State) → State → ℕ × Option ℕ → Bool × State
  try_next again s (word, none) =
      (false, record s { ss_reflective_bm = record (s.ss_reflective_bm) { lo = word } })
  try_next again s (word, some cpu) =
      let s1 = record s { ss_reflective_bm = record (s.ss_reflective_bm) { lo = word } } in
      let other = again (pass_over cpu s1) in
      if ltb (s1.kick_ts cpu) (s1.hlt_ts cpu) then (true, first_kick cpu s1) else other

  unfoldable pub try_kick : ℕ → State → Bool × State
  try_kick zero s = (false, s)
  try_kick (suc fuel) s = try_next (try_kick fuel) s (e_bsf s.ss_reflective_bm.lo)

  -- The test `(old_wake_num_vcpu = xadd(&wake_num_vcpu, -1)) > 0`, which counts down on every call,
  -- with the first statement of the body: the count of 1 is the last one.
  unfoldable pub count_down : State → State
  count_down s =
      let (count, old) = xadd s.wake_num_vcpu (2 ^ 64 - 1) in
      record s {
        wake_num_vcpu = count;
        sig_wake_num_vcpu_is_0 = if old == 1 then 1 else s.sig_wake_num_vcpu_is_0;
      }

  -- The second `while` loop, on fuel: the test, and the body with what `try_kick` gave.
  unfoldable pub kick_next : (State → State) → Bool × State → State
  kick_next again (true, s) = again s
  kick_next again (false, s) = s

  unfoldable pub kick_loop : ℕ → State → State
  kick_loop zero s = s
  kick_loop (suc fuel) s =
      let next = kick_next (kick_loop fuel) (try_kick 65 (count_down s)) in
      if positive64 s.wake_num_vcpu then next else count_down s

  -- Each round of the loops takes a bit out of a 64-bit word: 65 rounds are enough.
  -- First part: the cpus that were kicked and have not woken.
  unfoldable pub rekick_lost : State → State
  rekick_lost s =
      let kicked : Pair = record { lo = s.bm_kicked_vcpus; hi = s.bm_kicked_vcpus } in
      rekick_loop 65
        (record s { ss_reflective_bm1 = (dcas s.ss_reflective_bm1 zero_pair kicked).0 })

  -- Second part: how many cpus are wanted, unless another cpu is already counting down.
  unfoldable pub set_target : State → State
  set_target s =
      let tmp = sub64 s.runnable_tasks s.num_free_vcpu in
      let (sig, old) = cas s.sig_wake_num_vcpu_is_0 1 0 in
      record s {
        sig_wake_num_vcpu_is_0 = if positive64 tmp then sig else s.sig_wake_num_vcpu_is_0;
        wake_num_vcpu = if positive64 tmp && (old == 1) then tmp else s.wake_num_vcpu;
      }

  -- Third part: kicks.
  unfoldable pub kick_inactive : State → State
  kick_inactive s =
      let inactive : Pair = record { lo = s.bm_inactive_vcpus; hi = s.bm_inactive_vcpus } in
      kick_loop 65 (record s { ss_reflective_bm = (dcas s.ss_reflective_bm zero_pair inactive).0 })

  unfoldable pub wake_up_task : State → State
  wake_up_task s = kick_inactive (set_target (rekick_lost s))
