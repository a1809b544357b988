-- ===== src/Ipi/Reset.antt =====
-- Exclusive or with a mask of all bits but one, bit by bit.
use native.Mathlib.Nat.{pow-suc, one-le-pow, pow-le-pow_right}
use Prim.Native.Nat.{digits, differ, bit_xor-bitwise}
use bootcode.Base.{
  ℕ, zero, suc, ◌+◌, ◌-◌, ◌*◌, ◌/◌, ◌%◌, ◌^◌, ◌≤◌, ◌<◌, ◌≡◌, refl, arith, bit_xor, Bool, not, ◌==◌,
  if◌then◌else◌,
}
use bootcode.Bits.{bt}
use bootcode.Bits.Laws.{bt-zero, bt-ones}

abbrev pub differs : Bool → Bool → Bool
differs p q = if p then not q else q

differ_digits : (x y : ℕ) → x < 2 → y < 2 → differ x y ≡ (if x == y then 0 else 1)
differ_digits zero zero h k = refl
differ_digits zero (suc zero) h k = refl
differ_digits (suc zero) zero h k = refl
differ_digits (suc zero) (suc zero) h k = refl
differ_digits zero (suc (suc y)) h k = absurd (omega arith)
differ_digits (suc zero) (suc (suc y)) h k = absurd (omega arith)
differ_digits (suc (suc x)) y h k = absurd (omega arith)

low_bit : (d a b : ℕ) → bt 0 (d * 2 + (if a % 2 == b % 2 then 0 else 1)) ≡ differs (bt 0 a) (bt 0 b)
unfolding bt
low_bit d a b = ground arith

high_bits : (d a b : ℕ) → (d * 2 + (if a % 2 == b % 2 then 0 else 1)) / 2 ≡ d
high_bits d a b = ground arith

bt-digits : (n a b j : ℕ) → a ≤ n → bt j (digits (λ b. b) differ n a b) ≡ differs (bt j a) (bt j b)
unfolding bt
bt-digits zero zero b j h = rw (bt-zero j) refl
bt-digits zero (suc a) b j h = absurd (omega arith)
bt-digits (suc n) zero b j h = rw (bt-zero j) refl
bt-digits (suc n) (suc a) b zero h =
    let d = digits (λ b. b) differ n (suc a / 2) (b / 2) in
    let e = differ_digits (suc a % 2) (b % 2) (omega arith) (omega arith) in
    rw e (low_bit d (suc a) b)
bt-digits (suc n) (suc a) b (suc j) h =
    let d = digits (λ b. b) differ n (suc a / 2) (b / 2) in
    let e = differ_digits (suc a % 2) (b % 2) (omega arith) (omega arith) in
    rw (e, high_bits d (suc a) b) (bt-digits n (suc a / 2) (b / 2) j (omega arith))

pub bt-bit_xor : (a b j : ℕ) → bt j (bit_xor a b) ≡ differs (bt j a) (bt j b)
bt-bit_xor a b j =
    let clauses : bit_xor a b ≡ digits (λ b. b) differ a a b = λ i. bit_xor-bitwise a b i in
    rw clauses (bt-digits a a b j (omega arith))

room : (w n : ℕ) → n < w → 2 ^ n < 2 ^ w
room w n h =
    let two : 0 < 2 = omega arith in
    let le : 2 ^ suc n ≤ 2 ^ w = pow-le-pow_right two h in
    omega (arith, le, pow-suc 2 n, one-le-pow n 2 (omega arith))

-- All bits of `w` but the bit `n`.
pub bt-all_but : (w n j : ℕ) → n < w → j < w → bt j (2 ^ w - 1 - 2 ^ n) ≡ not (j == n)
unfolding bt
bt-all_but zero n j h k = absurd (omega arith)
bt-all_but (suc w) zero zero h k =
    let p = one-le-pow w 2 (omega arith) in
    let even : (2 ^ suc w - 1 - 2 ^ 0) % 2 ≡ 0 = omega (arith, pow-suc 2 w, p) in
    ground (arith, even)
bt-all_but (suc w) zero (suc j) h k =
    let p = one-le-pow w 2 (omega arith) in
    let half : (2 ^ suc w - 1 - 2 ^ 0) / 2 ≡ 2 ^ w - 1 = omega (arith, pow-suc 2 w, p) in
    rw half (ground (arith, bt-ones w j (omega arith)))
bt-all_but (suc w) (suc n) zero h k =
    let q = room w n (omega arith) in
    let odd : (2 ^ suc w - 1 - 2 ^ suc n) % 2 ≡ 1 = omega (arith, pow-suc 2 w, pow-suc 2 n, q) in
    ground (arith, odd)
bt-all_but (suc w) (suc n) (suc j) h k =
    let q = room w n (omega arith) in
    let half : (2 ^ suc w - 1 - 2 ^ suc n) / 2 ≡ 2 ^ w - 1 - 2 ^ n =
      omega (arith, pow-suc 2 w, pow-suc 2 n, q) in
    rw half (ground (arith, bt-all_but w n j (omega arith) (omega arith)))
