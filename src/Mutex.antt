-- ===== src/Mutex.antt =====
-- include/util.h: `mutex_lock` and `mutex_unlock`, as steps that the cpus take in any order.
pub mod Exclusion
use bootcode.Base.{
  ℕ, zero, suc, ◌+◌, ◌-◌, ◌^◌, Bool, if◌then◌else◌, ◌==◌, Option, none, some, update,
}
use bootcode.Bits.{bsf}
use bootcode.Util.{cas}

-- Where a cpu stands: outside, at `retry` with the count left, at the `bsfq` past the last retry, at
-- the yield with the bit that it has found, or after `ret`, holding the lock.
pub data Pc : Type 0 where
  outside : Pc
  retry : (retry_cntr : ℕ) → Pc
  peek : Pc
  yield : (holder : Option ℕ) → Pc
  inside : Pc

abbrev pub retries : ℕ
retries = 3072

-- What `lock cmpxchgq` with zero in rax leads to: to `ret` on success; else the count goes down,
-- and at zero the retries are over.
after_cas : ℕ → ℕ → Pc
after_cas retry_cntr old =
    if old == 0 then inside else (if retry_cntr - 1 == 0 then peek else retry (retry_cntr - 1))

-- One step of the cpu `id`: the word and the place after it. A cpu outside enters `mutex_lock`, one
-- inside runs `mutex_unlock`.
unfoldable pub step : ℕ → ℕ → Pc → ℕ × Pc
unfolding after_cas cas
step id m outside = (m, retry retries)
step id m (retry n) = let (m', old) = cas m 0 (2 ^ id) in (m', after_cas n old)
step id m peek = (m, yield (bsf 64 m))
step id m (yield holder) = (m, retry retries)
step id m inside = (0, outside)

-- The word and where every cpu stands.
pub record System : Type 0 where
  pub m : ℕ
  pub at : ℕ → Pc

unfoldable pub move : ℕ → System → System
unfolding step
move id s = let (m', pc) = step id s.m (s.at id) in record { m = m'; at = update s.at id pc }

-- The systems that steps of cpus lead to from one with the lock free and every cpu outside.
pub data Reachable : System → Type 0 where
  start : Reachable (record { m = 0; at = λ id. outside })
  moved : {s : System} (id : ℕ) → Reachable s → Reachable (move id s)
