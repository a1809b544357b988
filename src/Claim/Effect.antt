-- ===== src/Claim/Effect.antt =====
-- What one step of the extraction does to the words and to its cpu.
use bootcode.Base.{
  ℕ, ◌+◌, ◌*◌, ◌/◌, ◌%◌, ◌<◌, ◌≤◌, ◌≡◌, refl, sym, ap, ◌∙◌, arith, inl, inr, Bool, true, false, not,
  ◌&&◌, leb, ◌==◌, Bool-cases, Option, none, some, Option-cases, List, length, length-set, get_or,
  set,
}
use native.Mathlib.Decide.{ℕ_discrete}
use bootcode.Bits.{bt, btr, bsf}
use bootcode.Bits.Scan.{bsf-lt, bsf-none}
use bootcode.Claim.{Pc, scan, claim, found, empty, step, step_scan}
use bootcode.Claim.Word.{has, has-clear, has_at}

-- The place of a cpu fits the words.
abbrev pub Fits : ℕ → Pc → Type 0
Fits last (scan k) = k ≤ last
Fits last (claim k n) = (k ≤ last) × (n < 64)
Fits last (found k n) = (k ≤ last) × (n < 64)
Fits last empty = Unit

-- The bit number that a cpu has got.
abbrev pub got : Pc → Option ℕ
got (found k n) = some (64 * k + n)
got _ = none

-- The word of the bit is still to be scanned.
abbrev pub is_ahead : Pc → ℕ → Bool
is_ahead (scan k) b = leb k (b / 64)
is_ahead (claim k n) b = leb k (b / 64)
is_ahead (found k n) b = true
is_ahead empty b = false

module _ (last : ℕ) where
  -- Either no bit changes, and a bit that is set stays ahead of the cpu if it was; or the cpu, which
  -- had none, gets a set bit, and this is cleared.
  pub data Effect (ws : List ℕ) (pc : Pc) : List ℕ × Pc → Type 0 where
    quiet :
        {r : List ℕ × Pc} (ws' : List ℕ) (pc' : Pc)
        → r ≡ (ws', pc')
        → length ws' ≡ length ws
        → ((b : ℕ) → has ws' b ≡ has ws b)
        → Fits last pc'
        → got pc' ≡ got pc
        → ((b : ℕ)
            → b < 64 * (last + 1)
            → has ws b ≡ true
            → is_ahead pc b ≡ true
            → is_ahead pc' b ≡ true)
        → Effect ws pc r
    takes :
        {r : List ℕ × Pc} (ws' : List ℕ) (k n : ℕ)
        → r ≡ (ws', found k n)
        → got pc ≡ none
        → length ws' ≡ length ws
        → has ws (64 * k + n) ≡ true
        → ((b : ℕ) → has ws' b ≡ (not (b == 64 * k + n) && has ws b))
        → k ≤ last
        → n < 64
        → Effect ws pc r

  still : (ws : List ℕ) (pc : Pc) → Fits last pc → Effect ws pc (ws, pc)
  still ws pc f = quiet ws pc refl refl (λ b. refl) f refl (λ b lt h a. a)

  -- Word `k` has no bit, so a set bit at or after it is after it.
  passed :
      (ws : List ℕ) (k b : ℕ)
      → bsf 64 (get_or ws k 0) ≡ none
      → has ws b ≡ true
      → leb k (b / 64) ≡ true
      → k < b / 64
  passed ws k b z h a =
      let le : k ≤ b / 64 = ground (arith, a) in
      elim (ℕ_discrete k (b / 64)) [
        | yes e ↦
            let no : bt (b % 64) (get_or ws (b / 64) 0) ≡ false =
              rw (sym e) (bsf-none 64 (get_or ws k 0) (b % 64) z (omega arith)) in
            absurd (ground (arith, h, no))
        | no ne ↦ omega (arith, le, ne)
      ]

  pub step-Effect :
      (ws : List ℕ) (pc : Pc) → length ws ≡ last + 1 → Fits last pc → Effect ws pc (step last ws pc)
  unfolding step step_scan
  step-Effect ws (scan k) size f = elim (Option-cases (bsf 64 (get_or ws k 0))) [
    | inl z ↦ elim (Bool-cases (k == last)) [
      | inl l ↦
          rw (z, l)
            (quiet ws empty refl refl (λ b. refl) tt refl
              (λ b lt h a.
                let e : k ≡ last = ground (arith, l) in
                absurd (omega (arith, passed ws k b z h a, lt, e))))
      | inr l ↦
          rw (z, l)
            (quiet ws (scan (k + 1)) refl refl (λ b. refl) (ground (arith, l, f)) refl
              (λ b lt h a. ground (arith, passed ws k b z h a)))
    ]
    | inr (n, b) ↦ rw b (
        quiet ws (claim k n) refl refl (λ b. refl) (f, bsf-lt 64 (get_or ws k 0) n b) refl
          (λ b lt h a. a))
  ]
  step-Effect ws (claim k n) size (hk, hn) =
      let w = get_or ws k 0 in
      let inside : k < length ws = omega (arith, size) in
      let cleared : (b : ℕ) → has (set ws k (btr n w)) b ≡ (not (b == 64 * k + n) && has ws b) =
        λ b. has-clear ws k n b hn inside in
      let len : length (set ws k (btr n w)) ≡ length ws = length-set ws k (btr n w) in
      elim (Bool-cases (bt n w)) [
        | inl b ↦
            rw b (takes (set ws k (btr n w)) k n refl refl len (has_at ws k n hn ∙ b) cleared hk hn)
        | inr b ↦
            let gone : has ws (64 * k + n) ≡ false = has_at ws k n hn ∙ b in
            let same : (i : ℕ) → has (set ws k (btr n w)) i ≡ has ws i = λ i.
              elim (ℕ_discrete i (64 * k + n)) [
                | yes v ↦ ground (arith, cleared i, ap (has ws) v, gone)
                | no ne ↦ ground (arith, cleared i, ne)
              ] in
            rw b (quiet (set ws k (btr n w)) (scan k) refl len same hk refl (λ b lt h a. a))
      ]
  step-Effect ws (found k n) size f = still ws (found k n) f
  step-Effect ws empty size f = still ws empty f
