-- ===== src/Boot/Barrier.antt =====
-- The start barrier of `main` in src/main.c: every cpu clears its bit of `barrier_bm`, cpu 0 also
-- the bits beyond the pool, in any order; cpu 0 goes on when the word is zero.
use bootcode.Base.{
  ℕ, zero, suc, ◌+◌, ◌-◌, ◌*◌, ◌/◌, ◌%◌, ◌^◌, ◌≤◌, ◌<◌, ◌≡◌, ◌↔◌, refl, ap, sym, ◌∙◌, arith, Bool,
  true, false, not, ◌&&◌, ◌||◌, ◌==◌, ltb, ltb→lt, Bool-cases, inl, inr, List, [], ◌∷◌,
}
use bootcode.Bits.{bt, btr}
use bootcode.Bits.Laws.{bt-btr, btr-le, bt-zero, bt-ones, bt_ext}

-- The lowest `n` bits of a word.
unfoldable pub lowest_bits : ℕ → ℕ → ℕ
lowest_bits zero x = 0
lowest_bits (suc n) x = lowest_bits n (x / 2) * 2 + x % 2

-- `lock andq` with `((uint64_t)1 << pool_sz) - 1`, which has the ones of a shift. C leaves a shift by
-- 64 or more undefined; the instruction takes the count modulo 64.
unfoldable pub and_mask : ℕ → ℕ → ℕ
unfolding lowest_bits
and_mask pool_sz x = lowest_bits (pool_sz % 64) x

-- `lock btr` of each cpu that arrives, in order.
unfoldable pub arrive : List ℕ → ℕ → ℕ
arrive [] w = w
arrive (id ∷ ids) w = arrive ids (btr id w)

-- The word after the arrivals before and after cpu 0's `andq`.
unfoldable pub barrier_bm : ℕ → List ℕ → List ℕ → ℕ
unfolding arrive and_mask
barrier_bm pool_sz before after = arrive after (and_mask pool_sz (arrive before (2 ^ 64 - 1)))

abbrev pub has_arrived : ℕ → List ℕ → Bool
has_arrived i [] = false
has_arrived i (id ∷ ids) = (i == id) || has_arrived i ids

bt-lowest_bits : (j n x : ℕ) → bt j (lowest_bits n x) ≡ (ltb j n && bt j x)
unfolding bt lowest_bits
bt-lowest_bits j zero x = rw (bt-zero j) (ground arith)
bt-lowest_bits zero (suc n) x = ground arith
bt-lowest_bits (suc j) (suc n) x =
    let half : (lowest_bits n (x / 2) * 2 + x % 2) / 2 ≡ lowest_bits n (x / 2) = omega arith in
    rw half (ground (arith, bt-lowest_bits j n (x / 2)))

lowest_bits-le : (n x : ℕ) → lowest_bits n x ≤ x
unfolding lowest_bits
lowest_bits-le zero x = omega arith
lowest_bits-le (suc n) x = omega (arith, lowest_bits-le n (x / 2))

bt-and_mask : (j n x : ℕ) → bt j (and_mask n x) ≡ (ltb j (n % 64) && bt j x)
unfolding and_mask
bt-and_mask j n x = bt-lowest_bits j (n % 64) x

and_mask-le : (n x : ℕ) → and_mask n x ≤ x
unfolding and_mask
and_mask-le n x = lowest_bits-le (n % 64) x

bt-arrive :
    (j : ℕ) (ids : List ℕ) (w : ℕ) → bt j (arrive ids w) ≡ (not (has_arrived j ids) && bt j w)
unfolding arrive
bt-arrive j [] w = refl
bt-arrive j (id ∷ ids) w = ground (arith, bt-arrive j ids (btr id w), bt-btr j id w)

arrive-le : (ids : List ℕ) (w : ℕ) → arrive ids w ≤ w
unfolding arrive
arrive-le [] w = omega arith
arrive-le (id ∷ ids) w = omega (arith, arrive-le ids (btr id w), btr-le id w)

bt-barrier_bm :
    (pool_sz : ℕ) (before after : List ℕ) (j : ℕ)
    → j < 64
    → bt j (barrier_bm pool_sz before after)
      ≡ (ltb j (pool_sz % 64) && not (has_arrived j before || has_arrived j after))
unfolding barrier_bm
bt-barrier_bm pool_sz before after j h =
    rw
      (
        bt-arrive j after (and_mask pool_sz (arrive before (2 ^ 64 - 1))),
        bt-and_mask j pool_sz (arrive before (2 ^ 64 - 1)),
        bt-arrive j before (2 ^ 64 - 1),
        bt-ones 64 j h,
      )
      (ground arith)

barrier_bm-lt : (pool_sz : ℕ) (before after : List ℕ) → barrier_bm pool_sz before after < 2 ^ 64
unfolding barrier_bm
barrier_bm-lt pool_sz before after =
    let w = arrive before (2 ^ 64 - 1) in
    omega (
      arith,
      arrive-le before (2 ^ 64 - 1),
      and_mask-le pool_sz w,
      arrive-le after (and_mask pool_sz w),
    )

nobody_left :
    (pool_sz : ℕ) (before after : List ℕ) (i : ℕ)
    → (i < pool_sz → (has_arrived i before || has_arrived i after) ≡ true)
    → (ltb i pool_sz && not (has_arrived i before || has_arrived i after)) ≡ false
nobody_left pool_sz before after i here = elim (Bool-cases (ltb i pool_sz)) [
  | inl e ↦ rw (e, here (ltb→lt i pool_sz e)) refl
  | inr e ↦ rw e refl
]

-- For a pool of any size: cpu 0 leaves its wait exactly when every cpu of a number below the size
-- modulo 64, itself included, has arrived, whatever the order of the arrivals and of the cut to the
-- pool, also if a cpu arrives twice. In a pool of fewer than 64 this is every cpu; in a pool of 64 it
-- is none, and cpu 0 does not wait.
pub barrier_bm_lem :
    (pool_sz : ℕ) (before after : List ℕ)
    → (barrier_bm pool_sz before after ≡ 0)
      ↔ ((i : ℕ) → i < pool_sz % 64 → (has_arrived i before || has_arrived i after) ≡ true)
barrier_bm_lem pool_sz before after =
    let word = barrier_bm pool_sz before after in
    let small : word < 2 ^ 64 = barrier_bm-lt pool_sz before after in
    (
      λ e i lt.
          ground
            (arith, bt-barrier_bm pool_sz before after i (omega arith), ap (bt i) e, bt-zero i),
      λ all. bt_ext 64 word 0 small (omega arith) (λ i lt.
          bt-barrier_bm pool_sz before after i lt
          ∙ nobody_left (pool_sz % 64) before after i (all i)
          ∙ sym (bt-zero i)),
    )
