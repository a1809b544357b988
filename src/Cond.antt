-- ===== src/Cond.antt =====
-- include/util.h, with the type of include/hw_types.h: `cond_wait` and `cond_set`, as steps that
-- the waiting cpus and the one that sets the value take in any order.
--
-- `hlt` and the hypercalls are the machine's: a kick ends the `hlt` of its cpu, or the next one if
-- the cpu is not halted; a `hlt` may also end for another reason. A yield has no effect on memory.
mod Sound
mod Waits
mod Sets
mod Wakeup
pub mod Store
mod Tests
use bootcode.Base.{
  ℕ, zero, suc, ◌+◌, ◌-◌, ◌≢◌, ◌<◌, Bool, true, false, if◌then◌else◌, ◌==◌, Option, none, some,
  update,
}
use bootcode.Bits.{bts, btr, bsf}

-- `cond_t`
pub record CondT : Type 0 where
  pub intent_cpus : ℕ
  pub waiting_cpus : ℕ
  pub c : ℕ

abbrev pub retry_count : ℕ
retry_count = 32

-- Where a cpu stands in `cond_wait`: outside; at `check_v` with the retries left; at `hlt_path`,
-- before its bit is set; in `hlt`; behind it; at `skip_hlt`.
pub data Waiter : Type 0 where
  outside : Waiter
  check_v : (retries : ℕ) → Waiter
  hlt_path : Waiter
  halted : Waiter
  woken : Waiter
  skip_hlt : Waiter

-- Where the other cpu stands in `cond_set`: before the store; at the test of the loop, before and
-- after its first read; at the yield; before the copy; in the kicks, with the cpus left; at the end.
pub data Setter : Type 0 where
  idle : Setter
  test : Setter
  compare : (intent : ℕ) → Setter
  hint : Setter
  copy : Setter
  kicks : (waiting_cpus : ℕ) → Setter
  done : Setter

pub record System : Type 0 where
  pub cond : CondT
  pub kicked : ℕ → Bool
  pub at : ℕ → Waiter
  pub setter : Setter

-- The place of the cpu `id` and the condition after a step; `kick` says whether a kick is pending.
-- `v` is the value waited for.
unfoldable pub wait_step : ℕ → ℕ → CondT → Bool → Waiter → CondT × Waiter
wait_step v id c kick outside =
    (record c { intent_cpus = bts id c.intent_cpus }, check_v retry_count)
wait_step v id c kick (check_v n) =
    (c, if c.c == v then skip_hlt else (if n == 0 then hlt_path else check_v (n - 1)))
wait_step v id c kick hlt_path = (record c { waiting_cpus = bts id c.waiting_cpus }, halted)
wait_step v id c kick halted = (c, if kick then woken else halted)
wait_step v id c kick woken = (record c { waiting_cpus = btr id c.waiting_cpus }, check_v 0)
wait_step v id c kick skip_hlt = (record c { intent_cpus = btr id c.intent_cpus }, outside)

-- A kick is used up by the `hlt` that it ends.
abbrev pub still_kicked : Waiter → Bool → Bool
still_kicked halted kick = false
still_kicked _ kick = kick

unfoldable pub wait_move : ℕ → ℕ → System → System
wait_move v id s =
    let (c, w) = wait_step v id s.cond (s.kicked id) (s.at id) in
    record s {
      cond = c;
      at = update s.at id w;
      kicked = update s.kicked id (still_kicked (s.at id) (s.kicked id));
    }

-- A `hlt` that ends without a kick.
abbrev pub interrupted : Waiter → Waiter
interrupted halted = woken
interrupted w = w

unfoldable pub interrupt : ℕ → System → System
interrupt id s = record s { at = update s.at id (interrupted (s.at id)) }

-- The next kick: `lowest_set_bit` and `reset_bit` on the copy.
abbrev pub next_kick : System → ℕ → Option ℕ → System
next_kick s left none = record s { setter = done }
next_kick s left (some n) = record s {
  kicked = update s.kicked n true;
  setter = kicks (btr n left);
}

-- `cond_set c v`, one access to the condition a step, each visible to the other cpus at once. How its
-- store may be late is in Cond/Store.
unfoldable pub set_step : ℕ → System → Setter → System
set_step v s idle = record s { cond = record (s.cond) { c = v }; setter = test }
set_step v s test = record s { setter = compare s.cond.intent_cpus }
set_step v s (compare intent) = record s {
  setter = if intent == s.cond.waiting_cpus then copy else hint;
}
set_step v s hint = record s { setter = test }
set_step v s copy = record s { setter = kicks s.cond.waiting_cpus }
set_step v s (kicks left) = next_kick s left (bsf 64 left)
set_step v s done = s

unfoldable pub set_move : ℕ → System → System
set_move v s = set_step v s s.setter

-- The systems that steps in any order lead to, when nobody waits at the beginning.
pub data Reachable (v : ℕ) : System → Type 0 where
  start :
      (old : ℕ)
      → Reachable v (record {
        cond = record { intent_cpus = 0; waiting_cpus = 0; c = old };
        kicked = λ id. false;
        at = λ id. outside;
        setter = idle;
      })
  waited : {s : System} (id : ℕ) → id < 64 → Reachable v s → Reachable v (wait_move v id s)
  disturbed : {s : System} (id : ℕ) → id < 64 → Reachable v s → Reachable v (interrupt id s)
  set : {s : System} → Reachable v s → Reachable v (set_move v s)
