-- ===== src/Bits/Scan.antt =====
-- What `bsf` finds: the lowest set bit, and nothing only in a word with no bit set.
use native.Mathlib.Nat.{pow-suc}
use bootcode.Base.{ℕ, zero, suc, ◌/◌, ◌^◌, ◌<◌, ◌≡◌, refl, arith}
use bootcode.Base.{true, false, none, some}
use bootcode.Bits.{bt, bsf}

pub bsf-lt : (w x n : ℕ) → bsf w x ≡ some n → n < w
unfolding bsf
bsf-lt zero x n e = absurd (ground arith)
bsf-lt (suc w) x zero e = omega arith
bsf-lt (suc w) x (suc n) e = ground (arith, bsf-lt w (x / 2) n)

pub bsf-bt : (w x n : ℕ) → bsf w x ≡ some n → bt n x ≡ true
unfolding bsf bt
bsf-bt zero x n e = absurd (ground arith)
bsf-bt (suc w) x zero e = ground arith
bsf-bt (suc w) x (suc n) e = ground (arith, bsf-bt w (x / 2) n)

pub bsf-lowest : (w x n m : ℕ) → bsf w x ≡ some n → m < n → bt m x ≡ false
unfolding bsf bt
bsf-lowest zero x n m e h = absurd (ground arith)
bsf-lowest (suc w) x zero m e h = absurd (omega arith)
bsf-lowest (suc w) x (suc n) zero e h = ground arith
bsf-lowest (suc w) x (suc n) (suc m) e h = ground (arith, bsf-lowest w (x / 2) n m)

pub bsf-none : (w x n : ℕ) → bsf w x ≡ none → n < w → bt n x ≡ false
unfolding bsf bt
bsf-none zero x n e h = absurd (omega arith)
bsf-none (suc w) x zero e h = ground arith
bsf-none (suc w) x (suc n) e h = ground (arith, bsf-none w (x / 2) n)

pub eq_zero_of_bsf : (w x : ℕ) → x < 2 ^ w → bsf w x ≡ none → x ≡ 0
unfolding bsf
eq_zero_of_bsf zero x h e = omega arith
eq_zero_of_bsf (suc w) x h e =
    ground (arith, pow-suc 2 w, eq_zero_of_bsf w (x / 2) (omega (arith, pow-suc 2 w)))

pub bsf-zero : (w : ℕ) → bsf w 0 ≡ none
unfolding bsf
bsf-zero zero = refl
bsf-zero (suc w) = ground (arith, bsf-zero w)
