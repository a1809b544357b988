-- ===== src/Bits/Count.antt =====
-- How `bts` and `btr` change the number of set bits.
use native.Mathlib.Nat.{pow-suc, one-le-pow}
use bootcode.Base.{ℕ, zero, suc, ◌+◌, ◌-◌, ◌*◌, ◌/◌, ◌%◌, ◌^◌, ◌≤◌, ◌<◌, ◌≡◌, refl, arith}
use bootcode.Base.{false, if◌then◌else◌}
use bootcode.Bits.{bt, bts, btr, popcnt}

half_digit : (y x : ℕ) → (y * 2 + x % 2) / 2 ≡ y
half_digit y x = omega arith

pub popcnt-bts : (w n x : ℕ) → n < w → popcnt w (bts n x) ≡ popcnt w x + (if bt n x then 0 else 1)
unfolding popcnt bts bt
popcnt-bts zero n x h = absurd (omega arith)
popcnt-bts (suc w) zero x h =
    let e : (x / 2 * 2 + 1) / 2 ≡ x / 2 = omega arith in rw e (ground arith)
popcnt-bts (suc w) (suc n) x h =
    rw (half_digit (bts n (x / 2)) x) (ground (arith, popcnt-bts w n (x / 2)))

pub popcnt-btr : (w n x : ℕ) → n < w → popcnt w (btr n x) + (if bt n x then 1 else 0) ≡ popcnt w x
unfolding popcnt btr bt
popcnt-btr zero n x h = absurd (omega arith)
popcnt-btr (suc w) zero x h = let e : x / 2 * 2 / 2 ≡ x / 2 = omega arith in rw e (ground arith)
popcnt-btr (suc w) (suc n) x h =
    rw (half_digit (btr n (x / 2)) x) (ground (arith, popcnt-btr w n (x / 2)))

pub popcnt-le : (w x : ℕ) → popcnt w x ≤ w
unfolding popcnt
popcnt-le zero x = omega arith
popcnt-le (suc w) x = omega (arith, popcnt-le w (x / 2))

pub popcnt-zero : (w : ℕ) → popcnt w 0 ≡ 0
unfolding popcnt
popcnt-zero zero = refl
popcnt-zero (suc w) = omega (arith, popcnt-zero w)

-- A word of `w` bits with no bit set is zero.
pub eq_zero_of_popcnt : (w x : ℕ) → x < 2 ^ w → popcnt w x ≡ 0 → x ≡ 0
unfolding popcnt
eq_zero_of_popcnt zero x h e = omega arith
eq_zero_of_popcnt (suc w) x h e =
    omega (arith, eq_zero_of_popcnt w (x / 2) (omega (arith, pow-suc 2 w)) (omega arith))

-- `(1 << k) - 1` has its `k` low bits set.
pub popcnt_mask : (w k : ℕ) → k ≤ w → popcnt w (2 ^ k - 1) ≡ k
unfolding popcnt
popcnt_mask zero zero h = refl
popcnt_mask zero (suc k) h = absurd (omega arith)
popcnt_mask (suc w) zero h = omega (arith, popcnt-zero w)
popcnt_mask (suc w) (suc k) h =
    let half : (2 ^ suc k - 1) / 2 ≡ 2 ^ k - 1 = omega (arith, pow-suc 2 k, one-le-pow k 2) in
    rw half (omega (arith, pow-suc 2 k, one-le-pow k 2, popcnt_mask w k (omega arith)))

pub popcnt_of_clear : (w x : ℕ) → ((n : ℕ) → n < w → bt n x ≡ false) → popcnt w x ≡ 0
unfolding popcnt bt
popcnt_of_clear zero x clear = refl
popcnt_of_clear (suc w) x clear =
    ground
      (arith, clear 0 (omega arith), popcnt_of_clear w (x / 2) (λ n h. clear (suc n) (omega arith)))
