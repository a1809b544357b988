-- ===== src/Base/Count.antt =====
-- How many of the first numbers a test holds of.
use Prim.Native.Nat.{ℕ, zero, suc, ◌+◌, ◌≤◌, ◌<◌}
use mathlib.Core.Path.{◌≡◌, refl, sym, ap, ◌∙◌, subst, fun_ext}
use mathlib.Core.Bool.{Bool, true, false}
use mathlib.Core.Logic.{◌≢◌, inl, inr}
use native.Mathlib.Omega.{arith}
use native.Mathlib.Decide.{ℕ_discrete}
use bootcode.Base.Tests.{if◌then◌else◌, Bool-cases}
use bootcode.Base.Lists.{update, update_eq, update_ne}

abbrev pub one : Bool → ℕ
one b = if b then 1 else 0

-- How many numbers below `n` the test holds of.
unfoldable pub number : (ℕ → Bool) → ℕ → ℕ
number p zero = 0
number p (suc n) = number p n + one (p n)

module _ (p : ℕ → Bool) where
  pub number-le : (n : ℕ) → number p n ≤ n
  unfolding number
  number-le zero = omega arith
  number-le (suc n) = ground (arith, number-le n)

  -- If it holds of as many as there are, it holds of all.
  pub number-all : (n f : ℕ) → number p n ≡ n → f < n → p f ≡ true
  unfolding number
  number-all zero f e h = absurd (omega arith)
  number-all (suc n) f e h = elim (ℕ_discrete f n) [
    | yes q ↦ rw q (ground (arith, number-le n, e))
    | no ne ↦ number-all n f (ground (arith, number-le n, e)) (omega arith)
  ]

  pub number-none : (n f : ℕ) → number p n ≡ 0 → f < n → p f ≡ false
  unfolding number
  number-none zero f e h = absurd (omega arith)
  number-none (suc n) f e h = elim (ℕ_discrete f n) [
    | yes q ↦ rw q (ground (arith, e))
    | no ne ↦ number-none n f (omega (arith, e)) (omega arith)
  ]

  pub all-number : (n : ℕ) → ((f : ℕ) → f < n → p f ≡ true) → number p n ≡ n
  unfolding number
  all-number zero h = refl
  all-number (suc n) h =
      rw (h n (omega arith), all-number n (λ f lt. h f (omega arith))) (omega arith)

  pub none-number : (n : ℕ) → ((f : ℕ) → f < n → p f ≡ false) → number p n ≡ 0
  unfolding number
  none-number zero h = refl
  none-number (suc n) h = rw (h n (omega arith), none-number n (λ f lt. h f (omega arith))) refl

  module _ (fn : ℕ) (v : Bool) where
    number-update_ge : (n : ℕ) → n ≤ fn → number (update p fn v) n ≡ number p n
    unfolding number
    number-update_ge zero h = refl
    number-update_ge (suc n) h =
        rw (update_ne p fn n v (omega arith), number-update_ge n (omega arith)) refl

    -- One more or one less where the test changes.
    pub number-update :
        (n : ℕ) → fn < n → number (update p fn v) n + one (p fn) ≡ number p n + one v
    unfolding number
    number-update zero h = absurd (omega arith)
    number-update (suc n) h = elim (ℕ_discrete fn n) [
      | yes q ↦
          let now = update_eq p fn n v q in
          let e = ap (λ k. one (p k)) q in
          rw now (omega (arith, number-update_ge n (omega arith), e))
      | no ne ↦ rw (update_ne p fn n v ne) (omega (arith, number-update n (omega arith)))
    ]

-- The same for a test of values, one of which changes.
pub number-update_value {ℓ} :
    {A : Type ℓ} (t : A → Bool) (f : ℕ → A) (i : ℕ) (v : A) (n : ℕ)
    → i < n
    → number (λ k. t (update f i v k)) n + one (t (f i)) ≡ number (λ k. t (f k)) n + one (t v)
number-update_value t f i v n lt =
    let same : (k : ℕ) → update (λ k. t (f k)) i (t v) k ≡ t (update f i v k) = λ k.
      elim (ℕ_discrete i k) [
        | yes q ↦ update_eq (λ k. t (f k)) i k (t v) q ∙ sym (ap t (update_eq f i k v q))
        | no ne ↦ update_ne (λ k. t (f k)) i k (t v) ne ∙ sym (ap t (update_ne f i k v ne))
      ] in
    subst (λ p. number p n + one (t (f i)) ≡ number (λ k. t (f k)) n + one (t v)) (fun_ext same)
      (number-update (λ k. t (f k)) i (t v) n lt)

-- A number of which the test does not hold.
pub false_of_number : (p : ℕ → Bool) (n : ℕ) → number p n ≢ n → (i : ℕ) × (i < n) × (p i ≡ false)
unfolding number
false_of_number p zero ne = absurd (ne refl)
false_of_number p (suc n) ne = elim (Bool-cases (p n)) [
  | inr e ↦ (n, omega arith, e)
  | inl e ↦
      let (i, lt, f) = false_of_number p n (λ q. ne (rw (e, q) (omega arith))) in
      (i, omega arith, f)
]

-- A test that holds of one number more.
pub number-add :
    (p : ℕ → Bool) (fn n : ℕ) → fn < n → p fn ≡ false → number (update p fn true) n ≡ number p n + 1
number-add p fn n h e = omega (arith, number-update p fn true n h, ap one e)
