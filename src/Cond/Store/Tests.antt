-- ===== src/Cond/Store/Tests.antt =====
-- A cpu that halts in `cond_wait` and is kicked, and one that is lost.
use bootcode.Base.{ℕ, zero, suc, ◌≡◌, ◌≢◌, ◌≤◌, refl, arith, true, false, [], ◌∷◌}
use bootcode.Bits.{bts, btr, bsf}
use bootcode.Cond.{outside, halted, hlt_path, idle, done, wait_step, wait_move, set_step}
use bootcode.Cond.Wakeup.{steps_left, all_moves, turns}
use bootcode.Cond.Store.{
  Buffered, buffer_step, buffer_move, drain, BufferReachable, begins, waits, sets, drains,
  cond_set-wakes, cond_wait-leaves,
}

abbrev fresh : Buffered
fresh = record {
  system = record {
    cond = record { intent_cpus = 0; waiting_cpus = 0; c = 0 };
    kicked = λ id. false;
    at = λ id. outside;
    setter = idle;
  };
  buffered = false;
  early = false;
}

-- Steps of the cpu 3, and of the one that sets the value.
waiter : ℕ → Buffered → Buffered
waiter zero s = s
waiter (suc n) s = let t = waiter n s in record t { system = wait_move 1 3 t.system }

setter : ℕ → Buffered → Buffered
setter zero s = s
setter (suc n) s = buffer_move 1 (setter n s)

waiter-Reachable : (n : ℕ) (s : Buffered) → BufferReachable 1 s → BufferReachable 1 (waiter n s)
unfolding waiter
waiter-Reachable zero s r = r
waiter-Reachable (suc n) s r = waits 3 (omega arith) (waiter-Reachable n s r)

setter-Reachable : (n : ℕ) (s : Buffered) → BufferReachable 1 s → BufferReachable 1 (setter n s)
unfolding setter
setter-Reachable zero s r = r
setter-Reachable (suc n) s r = sets (setter-Reachable n s r)

-- The store is visible before the loads.
abbrev stored : Buffered
stored = setter 1 (waiter 35 fresh)

abbrev woken_up : Buffered
woken_up = setter 5 (drain 1 stored.buffered stored)

woken_up-Reachable : BufferReachable 1 woken_up
woken_up-Reachable =
    setter-Reachable 5 (drain 1 stored.buffered stored)
      (drains (setter-Reachable 1 (waiter 35 fresh) (waiter-Reachable 35 fresh (begins 0))))

at_end : (woken_up.early ≡ false) × (woken_up.system.setter ≡ done)
unfolding setter waiter buffer_move buffer_step drain set_step wait_move wait_step bts btr bsf
at_end = (refl, refl)

four_left : turns 3 (3 ∷ 5 ∷ 3 ∷ 3 ∷ 3 ∷ []) ≡ steps_left (woken_up.system.at 3)
unfolding turns setter waiter buffer_move buffer_step drain set_step wait_move wait_step bts btr bsf
four_left = refl

cond_set-wakes_example :
    woken_up.system.cond.c ≡ 1
    × woken_up.system.at 3 ≢ hlt_path
    × (woken_up.system.at 3 ≡ halted → woken_up.system.kicked 3 ≡ true)
cond_set-wakes_example =
    cond_set-wakes 1 3 woken_up woken_up-Reachable at_end.0 at_end.1 (omega arith)

cond_wait-leaves_example :
    steps_left (woken_up.system.at 3) ≤ 4
    × (all_moves 1 (3 ∷ 5 ∷ 3 ∷ 3 ∷ 3 ∷ []) woken_up.system).at 3 ≡ outside
cond_wait-leaves_example =
    cond_wait-leaves 1 3 (3 ∷ 5 ∷ 3 ∷ 3 ∷ 3 ∷ []) woken_up woken_up-Reachable at_end.0 at_end.1
      (omega arith) four_left

-- The loads of `cond_set` are made while its store is in the buffer; then cpu 3 comes, sees the old
-- value and halts, and the store becomes visible: it halts without a kick.
abbrev lost : Buffered
lost = let s = waiter 35 (setter 5 fresh) in drain 1 s.buffered s

lost-Reachable : BufferReachable 1 lost
lost-Reachable = drains (waiter-Reachable 35 (setter 5 fresh) (setter-Reachable 5 fresh (begins 0)))

lost_run :
    (lost.system.setter ≡ done)
    × (lost.system.cond.c ≡ 1)
    × (lost.system.at 3 ≡ halted)
    × (lost.system.kicked 3 ≡ false)
unfolding setter waiter buffer_move buffer_step drain set_step wait_move wait_step bts btr bsf
lost_run = (refl, refl, refl, refl)
