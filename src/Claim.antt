-- ===== src/Claim.antt =====
-- The lock-free extraction of a set bit from an array of 64-bit words: `bsf` picks a bit, `lock
-- btr` claims it, and a claim that another cpu has won starts again. `get_work` of src/sched.c runs
-- it over the four words of `bm_run_fn`, `e_bsf` of include/util.h over one word.
--
-- The code is a machine of one instruction pair a step, so that one definition serves the run on
-- one cpu and the interleavings of many.
pub mod Word
pub mod Run
pub mod Size
pub mod Effect
pub mod Race
use bootcode.Base.{ℕ, zero, suc, ◌+◌, ◌*◌, Bool, if◌then◌else◌, ◌==◌, Option, none, some, List}
use bootcode.Base.{get_or, set}
use bootcode.Bits.{bt, btr, bsf}

-- Where a cpu stands in the code, with the registers that are live there: about to `bsf` word `k`,
-- about to `btr` bit `n` of word `k`, at the end with a bit or with none.
pub data Pc : Type 0 where
  scan : (k : ℕ) → Pc
  claim : (k n : ℕ) → Pc
  found : (k n : ℕ) → Pc
  empty : Pc

module _ (last : ℕ) where
  -- `bsfq (%2), %0; jz`: on a zero word on to the next one, or to the end after word `last`.
  unfoldable pub step_scan : List ℕ → ℕ → Option ℕ → Pc
  step_scan ws k none = if k == last then empty else scan (k + 1)
  step_scan ws k (some n) = claim k n

  -- One step: the words and the place after it. The two ends stay.
  unfoldable pub step : List ℕ → Pc → List ℕ × Pc
  unfolding step_scan
  step ws (scan k) = (ws, step_scan ws k (bsf 64 (get_or ws k 0)))
  step ws (claim k n) =
      let w = get_or ws k 0 in (set ws k (btr n w), if bt n w then found k n else scan k)
  step ws (found k n) = (ws, found k n)
  step ws empty = (ws, empty)

  unfoldable pub run : ℕ → List ℕ → Pc → List ℕ × Pc
  unfolding step
  run zero ws pc = (ws, pc)
  run (suc fuel) ws pc = let (ws', pc') = step ws pc in run fuel ws' pc'

-- The bit that was claimed, numbered through the words: `64 * chk_idx + rax`; `none` is the -1.
abbrev pub claimed : Pc → Option ℕ
claimed (found k n) = some (64 * k + n)
claimed _ = none

abbrev pub has_ended : Pc → Bool
has_ended (found k n) = Bool.true
has_ended empty = Bool.true
has_ended _ = Bool.false
