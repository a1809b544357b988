-- ===== src/Barrier.antt =====
-- include/util.h: `barrier`, as steps that any number of cpus take in any order.
--
-- `cond_wait c v` stands as the test that lets the cpu go on, `cond_set c v` as its store; what they
-- do beside, halting and kicking, is in Cond.
mod Phases
mod Rounds
mod Tests
use bootcode.Base.{
  ℕ, ◌+◌, ◌<◌, Bool, true, false, not, ◌&&◌, if◌then◌else◌, ◌==◌, update, one, inc64, dec64,
}

-- Where a cpu stands: outside, or at `cond_wait` for 0; before the increment; before the test that
-- follows; before `cond_set` with 1, or at `cond_wait` for 1; before the decrement; before the test
-- that follows; before `cond_set` with 0.
pub data Place : Type 0 where
  arrives : Place
  enters : Place
  counted : Place
  opens : Place
  waits : Place
  leaves : Place
  uncounted : Place
  closes : Place

-- `entries` and `exits` are how often each cpu has incremented the word, and has returned.
pub record System : Type 0 where
  pub barrier_word : ℕ
  pub barrier_cond : ℕ
  pub at : ℕ → Place
  pub entries : ℕ → ℕ
  pub exits : ℕ → ℕ

-- The word, the value of the condition and the place after a step of one of `ncpus` cpus.
unfoldable pub step : ℕ → ℕ → ℕ → Place → ℕ × ℕ × Place
step ncpus w c arrives = (w, c, if c == 0 then enters else arrives)
step ncpus w c enters = (inc64 w, c, counted)
step ncpus w c counted = (w, c, if w == ncpus then opens else waits)
step ncpus w c opens = (w, 1, leaves)
step ncpus w c waits = (w, c, if c == 1 then leaves else waits)
step ncpus w c leaves = (dec64 w, c, uncounted)
step ncpus w c uncounted = (w, c, if w == 0 then closes else arrives)
step ncpus w c closes = (w, 0, arrives)

-- Between the increment and the return.
abbrev pub is_inside : Place → Bool
is_inside arrives = false
is_inside enters = false
is_inside _ = true

unfoldable pub move : ℕ → ℕ → System → System
move ncpus id s =
    let (w, c, p) = step ncpus s.barrier_word s.barrier_cond (s.at id) in
    record {
      barrier_word = w;
      barrier_cond = c;
      at = update s.at id p;
      entries = update s.entries id (s.entries id + one (is_inside p && not (is_inside (s.at id))));
      exits = update s.exits id (s.exits id + one (is_inside (s.at id) && not (is_inside p)));
    }

pub data Reachable (ncpus : ℕ) : System → Type 0 where
  start : Reachable ncpus (record {
    barrier_word = 0;
    barrier_cond = 0;
    at = λ id. arrives;
    entries = λ id. 0;
    exits = λ id. 0;
  })
  moved : {s : System} (id : ℕ) → id < ncpus → Reachable ncpus s → Reachable ncpus (move ncpus id s)
