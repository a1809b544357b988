-- ===== src/Mm/Mask.antt =====
-- `& EMASK` as arithmetic.
use bootcode.Base.{
  ℕ, zero, suc, ◌+◌, ◌*◌, ◌/◌, ◌%◌, ◌^◌, ◌≤◌, ◌≡◌, refl, ap, ◌∙◌, arith, bit_and, min,
}
use Prim.Native.Nat.{digits, bit_and-bitwise}
use bootcode.Mm.{emask}

-- A count of digits that is large enough for the first number.
counts_agree :
    (a b k n : ℕ) → a ≤ k → a ≤ n → digits (λ b. zero) min k a b ≡ digits (λ b. zero) min n a b
counts_agree zero b zero zero le le' = refl
counts_agree zero b zero (suc n) le le' = refl
counts_agree zero b (suc k) zero le le' = refl
counts_agree zero b (suc k) (suc n) le le' = refl
counts_agree (suc a) b zero n le le' = absurd (omega arith)
counts_agree (suc a) b (suc k) zero le le' = absurd (omega arith)
counts_agree (suc a) b (suc k) (suc n) le le' =
    ap (λ r. r * 2 + min (suc a % 2) (b % 2))
      (counts_agree (suc a / 2) (b / 2) k n (omega arith) (omega arith))

-- One binary digit.
bit_and_step : (a b : ℕ) → bit_and a b ≡ bit_and (a / 2) (b / 2) * 2 + min (a % 2) (b % 2)
bit_and_step zero b =
    let here : bit_and zero b ≡ 0 = λ i. bit_and-bitwise zero b i in
    let less : bit_and (zero / 2) (b / 2) ≡ 0 = λ i. bit_and-bitwise 0 (b / 2) i in
    rw (here, less) (omega arith)
bit_and_step (suc a) b =
    let here : bit_and (suc a) b ≡ digits (λ b. zero) min (suc a) (suc a) b =
      λ i. bit_and-bitwise (suc a) b i in
    let less : bit_and (suc a / 2) (b / 2)
        ≡ digits (λ b. zero) min (suc a / 2) (suc a / 2) (b / 2) =
      λ i. bit_and-bitwise (suc a / 2) (b / 2) i in
    rw (here, less)
      (ap (λ r. r * 2 + min (suc a % 2) (b % 2))
        (counts_agree (suc a / 2) (b / 2) a (suc a / 2) (omega arith) (omega arith)))

-- A mask of `n` ones keeps the lowest `n` digits.
ones : ℕ → ℕ
ones zero = 0
ones (suc n) = ones n * 2 + 1

lowest : ℕ → ℕ → ℕ
lowest zero a = 0
lowest (suc n) a = lowest n (a / 2) * 2 + a % 2

digits-zero : (k a : ℕ) → digits (λ b. zero) min k a 0 ≡ 0
digits-zero zero a = refl
digits-zero (suc k) zero = refl
digits-zero (suc k) (suc a) = omega (arith, digits-zero k (suc a / 2))

bit_and-ones : (n a : ℕ) → bit_and a (ones n) ≡ lowest n a
unfolding ones lowest
bit_and-ones zero a =
    let here : bit_and a 0 ≡ digits (λ b. zero) min a a 0 = λ i. bit_and-bitwise a 0 i in
    here ∙ digits-zero a a
bit_and-ones (suc n) a =
    let half : (ones n * 2 + 1) / 2 ≡ ones n = omega arith in
    let odd : (ones n * 2 + 1) % 2 ≡ 1 = omega arith in
    rw (bit_and_step a (ones n * 2 + 1), half, odd, bit_and-ones n (a / 2)) (omega arith)

-- Zeros at the end of the mask clear the lowest digits.
shifted : ℕ → ℕ → ℕ
shifted zero m = m
shifted (suc k) m = shifted k m * 2

halved : ℕ → ℕ → ℕ
halved zero a = a
halved (suc k) a = halved k (a / 2)

bit_and-shifted : (k a m : ℕ) → bit_and a (shifted k m) ≡ shifted k (bit_and (halved k a) m)
unfolding shifted halved
bit_and-shifted zero a m = refl
bit_and-shifted (suc k) a m =
    let half : shifted k m * 2 / 2 ≡ shifted k m = omega arith in
    let even : shifted k m * 2 % 2 ≡ 0 = omega arith in
    rw (bit_and_step a (shifted k m * 2), half, even, bit_and-shifted k (a / 2) m) (omega arith)

lowest_46 : (a : ℕ) → lowest 46 a ≡ a % 2 ^ 46
unfolding lowest
lowest_46 a = omega arith

pub bit_and-emask : (a : ℕ) → bit_and a emask ≡ a / 2 ^ 10 % 2 ^ 46 * 2 ^ 10
unfolding shifted halved ones
bit_and-emask a =
    let kept = bit_and-ones 46 (halved 10 a) ∙ lowest_46 (halved 10 a) in
    let back : shifted 10 (halved 10 a % 2 ^ 46) ≡ a / 2 ^ 10 % 2 ^ 46 * 2 ^ 10 = omega arith in
    bit_and-shifted 10 a (ones 46) ∙ ap (shifted 10) kept ∙ back
