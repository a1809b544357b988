-- ===== src/Claim/Size.antt =====
-- How many bits the words hold.
use bootcode.Base.{
  ℕ, zero, suc, ◌+◌, ◌*◌, ◌∙◌, sym, false, ◌≤◌, ◌<◌, ◌≡◌, refl, arith, true, false, if◌then◌else◌,
}
use bootcode.Base.{List, [], ◌∷◌, length, get_or, set}
use bootcode.Bits.{bt, bts, btr, popcnt}
use bootcode.Bits.Count.{popcnt-bts, popcnt-btr, popcnt_of_clear, popcnt-le}
use bootcode.Claim.Word.{has, has_at}

unfoldable pub size : List ℕ → ℕ
size [] = 0
size (w ∷ ws) = popcnt 64 w + size ws

size-set :
    (ws : List ℕ) (k w : ℕ)
    → k < length ws
    → size (set ws k w) + popcnt 64 (get_or ws k 0) ≡ size ws + popcnt 64 w
unfolding size
size-set [] k w h = absurd (omega arith)
size-set (x ∷ xs) zero w h = omega arith
size-set (x ∷ xs) (suc k) w h = omega (arith, size-set xs k w (omega arith))

module _ (ws : List ℕ) (k n : ℕ) (hn : n < 64) (hk : k < length ws) where
  pub size-clear :
      bt n (get_or ws k 0) ≡ true → size ws ≡ suc (size (set ws k (btr n (get_or ws k 0))))
  size-clear e =
      ground (arith, size-set ws k (btr n (get_or ws k 0)) hk, popcnt-btr 64 n (get_or ws k 0) hn)

  pub size_set_bit :
      size (set ws k (bts n (get_or ws k 0))) ≡ size ws + (if bt n (get_or ws k 0) then 0 else 1)
  size_set_bit =
      ground (arith, size-set ws k (bts n (get_or ws k 0)) hk, popcnt-bts 64 n (get_or ws k 0) hn)

pub size_of_popcnt :
    (ws : List ℕ) → ((k : ℕ) → k < length ws → popcnt 64 (get_or ws k 0) ≡ 0) → size ws ≡ 0
unfolding size
size_of_popcnt [] z = refl
size_of_popcnt (x ∷ xs) z =
    ground (arith, z 0 (omega arith), size_of_popcnt xs (λ k h. z (suc k) (omega arith)))

pub size_of_clear : (ws : List ℕ) → ((i : ℕ) → i < 64 * length ws → has ws i ≡ false) → size ws ≡ 0
size_of_clear ws clear = size_of_popcnt ws λ k h.
    popcnt_of_clear 64 (get_or ws k 0)
      λ n small. sym (has_at ws k n small) ∙ clear (64 * k + n) (omega arith)

pub size-le : (ws : List ℕ) → size ws ≤ 64 * length ws
unfolding size
size-le [] = omega arith
size-le (x ∷ xs) = omega (arith, size-le xs, popcnt-le 64 x)
