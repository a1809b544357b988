-- ===== src/Bits/Laws.antt =====
-- What `bts` and `btr` do to each bit of the word, to its value and to its range.
use native.Mathlib.Nat.{pow-suc, one-le-pow}
use bootcode.Base.{ℕ, zero, suc, ◌+◌, ◌*◌, ◌/◌, ◌%◌, ◌^◌, ◌≤◌, ◌<◌, ◌≡◌, refl, arith, ◌-◌, true}
use bootcode.Base.{false, not, ◌&&◌, ◌||◌, ◌==◌, if◌then◌else◌}
use bootcode.Bits.{bt, bts, btr}

half_odd : (x : ℕ) → (x / 2 * 2 + 1) / 2 ≡ x / 2
half_odd x = omega arith

half_even : (x : ℕ) → x / 2 * 2 / 2 ≡ x / 2
half_even x = omega arith

half_digit : (y x : ℕ) → (y * 2 + x % 2) / 2 ≡ y
half_digit y x = omega arith

-- Setting bit `n` sets it and leaves the others.
pub bt-bts : (m n x : ℕ) → bt m (bts n x) ≡ ((m == n) || bt m x)
unfolding bt bts
bt-bts zero zero x = ground arith
bt-bts zero (suc n) x = ground arith
bt-bts (suc m) zero x = rw half_odd (ground arith)
bt-bts (suc m) (suc n) x = rw half_digit (ground (arith, bt-bts m n (x / 2)))

-- Clearing bit `n` clears it and leaves the others.
pub bt-btr : (m n x : ℕ) → bt m (btr n x) ≡ (not (m == n) && bt m x)
unfolding bt btr
bt-btr zero zero x = ground arith
bt-btr zero (suc n) x = ground arith
bt-btr (suc m) zero x = rw half_even (ground arith)
bt-btr (suc m) (suc n) x = rw half_digit (ground (arith, bt-btr m n (x / 2)))

pub bts-lt : (w n x : ℕ) → n < w → x < 2 ^ w → bts n x < 2 ^ w
unfolding bts
bts-lt zero n x h b = absurd (omega arith)
bts-lt (suc w) zero x h b = omega (arith, pow-suc 2 w)
bts-lt (suc w) (suc n) x h b =
    omega (arith, pow-suc 2 w, bts-lt w n (x / 2) (omega arith) (omega (arith, pow-suc 2 w)))

pub btr-le : (n x : ℕ) → btr n x ≤ x
unfolding btr
btr-le zero x = omega arith
btr-le (suc n) x = omega (arith, btr-le n (x / 2))

-- A bit that is set is worth its power of two.
pub btr-value : (n x : ℕ) → btr n x + (if bt n x then 2 ^ n else 0) ≡ x
unfolding bt btr
btr-value zero x = ground arith
btr-value (suc n) x = ground (arith, btr-value n (x / 2), pow-suc 2 n)

pub bts-value : (n x : ℕ) → bts n x ≡ x + (if bt n x then 0 else 2 ^ n)
unfolding bt bts
bts-value zero x = ground arith
bts-value (suc n) x = ground (arith, bts-value n (x / 2), pow-suc 2 n)

pub bt-zero : (n : ℕ) → bt n 0 ≡ false
unfolding bt
bt-zero zero = refl
bt-zero (suc n) = bt-zero n

pub bt_of_ge : (w n x : ℕ) → x < 2 ^ w → w ≤ n → bt n x ≡ false
unfolding bt
bt_of_ge zero n x h le = let e : x ≡ 0 = omega arith in rw e (bt-zero n)
bt_of_ge (suc w) zero x h le = absurd (omega arith)
bt_of_ge (suc w) (suc n) x h le = bt_of_ge w n (x / 2) (omega (arith, pow-suc 2 w)) (omega arith)

-- Two words of `w` bits with the same bits are the same word.
pub bt_ext : (w x y : ℕ) → x < 2 ^ w → y < 2 ^ w → ((n : ℕ) → n < w → bt n x ≡ bt n y) → x ≡ y
unfolding bt
bt_ext zero x y hx hy same = omega arith
bt_ext (suc w) x y hx hy same =
    let low : (x % 2 == 1) ≡ (y % 2 == 1) = same 0 (omega arith) in
    let high : x / 2 ≡ y / 2 =
      bt_ext w (x / 2) (y / 2) (omega (arith, pow-suc 2 w)) (omega (arith, pow-suc 2 w))
        (λ n h. same (suc n) (omega arith)) in
    ground arith

-- The bits of a word of ones.
pub bt-ones : (w j : ℕ) → j < w → bt j (2 ^ w - 1) ≡ true
unfolding bt
bt-ones zero j h = absurd (omega arith)
bt-ones (suc w) zero h =
    let p = one-le-pow w 2 (omega arith) in
    let odd : (2 ^ suc w - 1) % 2 ≡ 1 = omega (arith, pow-suc 2 w, p) in ground (arith, odd)
bt-ones (suc w) (suc j) h =
    let p = one-le-pow w 2 (omega arith) in
    let half : (2 ^ suc w - 1) / 2 ≡ 2 ^ w - 1 = omega (arith, pow-suc 2 w, p) in
    rw half (bt-ones w j (omega arith))
