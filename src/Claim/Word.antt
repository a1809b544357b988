-- ===== src/Claim/Word.antt =====
-- The words as a set of bits, numbered through the array.
use bootcode.Base.{ℕ, ◌+◌, ◌*◌, ◌/◌, ◌%◌, ◌<◌, ◌≡◌, sym, arith, Bool, not, ◌&&◌, ◌||◌, ◌==◌}
use bootcode.Base.{List, length, get_or, set}
use bootcode.Base.{get_or-set_self, get_or-set_ne}
use native.Mathlib.Decide.{ℕ_discrete}
use bootcode.Bits.{bt, bts, btr}
use bootcode.Bits.Laws.{bt-bts, bt-btr}

-- Bit `i` of the array.
abbrev pub has : List ℕ → ℕ → Bool
has ws i = bt (i % 64) (get_or ws (i / 64) 0)

module _ (ws : List ℕ) (k n i : ℕ) (hn : n < 64) (hk : k < length ws) where
  -- Clearing bit `n` of word `k` takes out bit `64 * k + n` and no other.
  pub has-clear : has (set ws k (btr n (get_or ws k 0))) i ≡ (not (i == 64 * k + n) && has ws i)
  has-clear = elim (ℕ_discrete (i / 64) k) [
    | yes e ↦
        rw (e, get_or-set_self ws k (btr n (get_or ws k 0)) 0 hk, bt-btr (i % 64) n (get_or ws k 0))
          (ground arith)
    | no ne ↦
        rw (get_or-set_ne ws k (i / 64) (btr n (get_or ws k 0)) 0 (λ e. ne (sym e))) (ground arith)
  ]

  -- Setting bit `n` of word `k` puts in bit `64 * k + n` and no other.
  pub has-set : has (set ws k (bts n (get_or ws k 0))) i ≡ ((i == 64 * k + n) || has ws i)
  has-set = elim (ℕ_discrete (i / 64) k) [
    | yes e ↦
        rw (e, get_or-set_self ws k (bts n (get_or ws k 0)) 0 hk, bt-bts (i % 64) n (get_or ws k 0))
          (ground arith)
    | no ne ↦
        rw (get_or-set_ne ws k (i / 64) (bts n (get_or ws k 0)) 0 (λ e. ne (sym e))) (ground arith)
  ]

pub has_at : (ws : List ℕ) (k n : ℕ) → n < 64 → has ws (64 * k + n) ≡ bt n (get_or ws k 0)
has_at ws k n h =
    let q : (64 * k + n) / 64 ≡ k = omega arith in
    let r : (64 * k + n) % 64 ≡ n = omega arith in rw (q, r)
