-- ===== src/Cond/Tests.antt =====
-- A cpu that halts in `cond_wait` and is kicked by `cond_set`.
use bootcode.Base.{ℕ, zero, suc, ◌≡◌, refl, arith, false, [], ◌∷◌}
use bootcode.Bits.{bts, btr, bsf}
use bootcode.Cond.{
  outside, halted, idle, done, System, wait_step, wait_move, set_step, set_move, Reachable, start,
  waited, set,
}
use bootcode.Cond.Wakeup.{steps_left, turns}

abbrev fresh : System
fresh = record {
  cond = record { intent_cpus = 0; waiting_cpus = 0; c = 0 };
  kicked = λ id. false;
  at = λ id. outside;
  setter = idle;
}

-- Steps of the cpu 3, and of the one that sets the value.
waits : ℕ → System → System
waits zero s = s
waits (suc n) s = wait_move 1 3 (waits n s)

sets : ℕ → System → System
sets zero s = s
sets (suc n) s = set_move 1 (sets n s)

waits-Reachable : (n : ℕ) (s : System) → Reachable 1 s → Reachable 1 (waits n s)
unfolding waits
waits-Reachable zero s r = r
waits-Reachable (suc n) s r = waited 3 (omega arith) (waits-Reachable n s r)

sets-Reachable : (n : ℕ) (s : System) → Reachable 1 s → Reachable 1 (sets n s)
unfolding sets
sets-Reachable zero s r = r
sets-Reachable (suc n) s r = set (sets-Reachable n s r)

abbrev kicked_system : System
kicked_system = sets 6 (waits 35 fresh)

kicked-Reachable : Reachable 1 kicked_system
kicked-Reachable = sets-Reachable 6 (waits 35 fresh) (waits-Reachable 35 fresh (start 0))

halts : (waits 35 fresh).at 3 ≡ halted
unfolding waits wait_move wait_step bts
halts = refl

kicked_done : kicked_system.setter ≡ done
unfolding sets set_move set_step waits wait_move wait_step bts btr bsf
kicked_done = refl

kicked_four : turns 3 (3 ∷ 5 ∷ 3 ∷ 3 ∷ 3 ∷ []) ≡ steps_left (kicked_system.at 3)
unfolding turns sets set_move set_step waits wait_move wait_step bts btr bsf
kicked_four = refl
