-- ===== src/Claim/Run.antt =====
-- One cpu alone: the extraction ends, and takes the lowest bit of the words.
use bootcode.Base.{ℕ, zero, suc, ◌+◌, ◌*◌, ◌/◌, ◌%◌, ◌≤◌, ◌<◌, ◌≡◌, refl, arith, true, false}
use bootcode.Base.{◌==◌, inl, inr, Option-cases, none, some, List, get_or, set}
use native.Mathlib.Decide.{dec_lt}
use bootcode.Bits.{bt, btr, bsf}
use bootcode.Bits.Scan.{bsf-lt, bsf-bt, bsf-lowest, bsf-none}
use bootcode.Claim.{Pc, scan, found, empty, step, run}
use bootcode.Claim.Word.{has}

module _ (last : ℕ) (ws : List ℕ) where
  -- The bits from `from` up to `to` are clear.
  abbrev pub IsClear : ℕ → ℕ → Type 0
  IsClear from to = (i : ℕ) → from ≤ i → i < to → has ws i ≡ false

  -- What a run that starts at word `k` ends in.
  pub data Extracts (k : ℕ) (r : List ℕ × Pc) : Type 0 where
    nothing : r ≡ (ws, empty) → IsClear (64 * k) (64 * last + 64) → Extracts k r
    lowest :
        (j n : ℕ)
        → r ≡ (set ws j (btr n (get_or ws j 0)), found j n)
        → k ≤ j
        → j ≤ last
        → n < 64
        → bt n (get_or ws j 0) ≡ true
        → IsClear (64 * k) (64 * j + n)
        → Extracts k r

  run-found : (f k n : ℕ) → run last f ws (found k n) ≡ (ws, found k n)
  unfolding run step
  run-found zero k n = refl
  run-found (suc f) k n = run-found f k n

  run-empty : (f : ℕ) → run last f ws empty ≡ (ws, empty)
  unfolding run step
  run-empty zero = refl
  run-empty (suc f) = run-empty f

clear_word :
    (ws : List ℕ) (k : ℕ) → bsf 64 (get_or ws k 0) ≡ none → (i : ℕ) → i / 64 ≡ k → has ws i ≡ false
clear_word ws k e i at = rw at (bsf-none 64 (get_or ws k 0) (i % 64) e (omega arith))

clear_below :
    (ws : List ℕ) (k n : ℕ)
    → bsf 64 (get_or ws k 0) ≡ some n
    → (i : ℕ) → i / 64 ≡ k
    → i % 64 < n
    → has ws i ≡ false
clear_below ws k n e i at lt = rw at (bsf-lowest 64 (get_or ws k 0) n (i % 64) e lt)

module _ (last : ℕ) (ws : List ℕ) where
  -- A word with a bit is left after two steps.
  run_bit :
      (f k n : ℕ)
      → k ≤ last
      → bsf 64 (get_or ws k 0) ≡ some n
      → Extracts last ws k (run last (suc (suc f)) ws (scan k))
  unfolding run step
  run_bit f k n le e =
      lowest k n
        (rw (e, bsf-bt 64 (get_or ws k 0) n e)
          (run-found last (set ws k (btr n (get_or ws k 0))) f k n))
        (omega arith) le (bsf-lt 64 (get_or ws k 0) n e) (bsf-bt 64 (get_or ws k 0) n e)
        (λ i p q.
          clear_below ws k n e i (omega (arith, bsf-lt 64 (get_or ws k 0) n e))
            (omega (arith, bsf-lt 64 (get_or ws k 0) n e)))

  widen :
      (k : ℕ) {to : ℕ}
      → bsf 64 (get_or ws k 0) ≡ none
      → IsClear last ws (64 * (k + 1)) to
      → IsClear last ws (64 * k) to
  widen k z clear i p q = elim (dec_lt i (64 * (k + 1))) [
    | yes below ↦ clear_word ws k z i (omega arith)
    | no above ↦ clear i (omega arith) q
  ]

  -- The last word without a bit ends the run.
  ends_clear :
      (f k : ℕ)
      → k ≡ last
      → bsf 64 (get_or ws k 0) ≡ none
      → Extracts last ws k (run last (suc (suc f)) ws (scan k))
  unfolding run step
  ends_clear f k at z =
      let here : (k == last) ≡ true = ground arith in
      nothing (rw (z, here) (run-empty last ws (suc f)))
        (λ i p q. clear_word ws k z i (omega arith))

  -- A word without a bit is passed over.
  goes_on :
      (f k : ℕ)
      → k < last
      → bsf 64 (get_or ws k 0) ≡ none
      → Extracts last ws (k + 1) (run last f ws (scan (k + 1)))
      → Extracts last ws k (run last (suc f) ws (scan k))
  unfolding run step
  goes_on f k lt z (nothing r clear) =
      let more : (k == last) ≡ false = ground arith in nothing (rw (z, more) r) (widen k z clear)
  goes_on f k lt z (lowest j n r from to small is_set clear) =
      let more : (k == last) ≡ false = ground arith in
      lowest j n (rw (z, more) r) (omega arith) to small is_set (widen k z clear)

  pub run-Extracts :
      (left f k : ℕ) → k + left ≡ last → left + 2 ≤ f → Extracts last ws k (run last f ws (scan k))
  run-Extracts left zero k e h = absurd (omega arith)
  run-Extracts left (suc zero) k e h = absurd (omega arith)
  run-Extracts zero (suc (suc f)) k e h = elim (Option-cases (bsf 64 (get_or ws k 0))) [
    | inl z ↦ ends_clear f k (omega arith) z
    | inr (n, b) ↦ run_bit f k n (omega arith) b
  ]
  run-Extracts (suc left) (suc (suc f)) k e h = elim (Option-cases (bsf 64 (get_or ws k 0))) [
    | inl z ↦
        goes_on (suc f) k (omega arith) z
          (run-Extracts left (suc f) (k + 1) (omega arith) (omega arith))
    | inr (n, b) ↦ run_bit f k n (omega arith) b
  ]
