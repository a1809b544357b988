-- ===== src/Util/Laws.antt =====
-- The laws of the atomic helpers that their callers rely on.
use native.Mathlib.Nat.{pow-suc, one-le-pow}
use bootcode.Base.{ℕ, zero, suc, ◌+◌, ◌/◌, ◌^◌, ◌≤◌, ◌<◌, ◌≡◌, arith}
use bootcode.Base.{none, some}
use bootcode.Bits.{btr, bsf}
use bootcode.Bits.Scan.{bsf-bt}
use bootcode.Claim.{run}
use bootcode.Util.{e_bsf, blog2, blog2_loop}

-- `e_bsf` takes out the lowest set bit.
pub e_bsf-some : (m n : ℕ) → bsf 64 m ≡ some n → e_bsf m ≡ (btr n m, some n)
unfolding e_bsf run
e_bsf-some m n e = rw (e, bsf-bt 64 m n e) (ground arith)

-- On a zero word it returns -1 and changes nothing.
pub e_bsf-none : (m : ℕ) → bsf 64 m ≡ none → e_bsf m ≡ (m, none)
unfolding e_bsf run
e_bsf-none m e = rw e

-- `2 ^ blog2 x` is the largest power of two in `x`.
blog2_loop_lem :
    (f x id k : ℕ) → 2 ^ k ≤ x → x < 2 ^ suc k → k < f → id + k < 256 → blog2_loop f x id ≡ id + k
unfolding blog2_loop
blog2_loop_lem zero x id k lo hi fuel small = absurd (omega arith)
blog2_loop_lem (suc f) x id zero lo hi fuel small = ground arith
blog2_loop_lem (suc f) x id (suc k) lo hi fuel small = ground (
  arith,
  pow-suc 2 k,
  pow-suc 2 (suc k),
  one-le-pow k 2,
  blog2_loop_lem f (x / 2) (id + 1) k (omega (arith, pow-suc 2 k))
      (omega (arith, pow-suc 2 (suc k))) (omega arith) (omega arith),
)

-- `blog2` is the exponent of the largest power of two in a nonzero `uint64_t`.
pub blog2_lem : (x k : ℕ) → k < 64 → 2 ^ k ≤ x → x < 2 ^ suc k → blog2 x ≡ k
unfolding blog2
blog2_lem x k small lo hi = omega (arith, blog2_loop_lem 64 x 0 k lo hi small (omega arith))
