-- ===== src/Ipi/Send.antt =====
-- When the wait ends and what is returned; the bits of a pack.
use bootcode.Base.{
  ℕ, zero, suc, ◌+◌, ◌-◌, ◌/◌, ◌%◌, ◌^◌, ◌≤◌, ◌<◌, ◌≡◌, sym, ap, ◌∙◌, ==_iff, arith, inl, inr, refl,
  not, ◌&&◌, true, false, ◌==◌, if◌then◌else◌, Bool-cases,
}
use native.Mathlib.Decide.{ℕ_discrete}
use bootcode.Bits.Laws.{bt-bts}
use bootcode.Ipi.{Apic, wait_icrl, Pack, read_apic_bit_pack, set_apic_bit_pack, reset_apic_bit_pack}
use bootcode.Ipi.Reset.{bt-bit_xor, bt-all_but}

-- The wait ends after at most `wait_cnt + 1` reads: the last one made is not 1, or it is the read
-- at which the count has run out, and every read before it is 1.
wait_icrl_lem :
    (read : ℕ → ℕ) (wait_cnt t : ℕ)
    → (t < wait_icrl read wait_cnt t)
      × (wait_icrl read wait_cnt t ≤ t + wait_cnt + 1)
      × ((i : ℕ) → t ≤ i → i + 1 < wait_icrl read wait_cnt t → read i ≡ 1)
      × (read (wait_icrl read wait_cnt t - 1) ≡ 1 → wait_icrl read wait_cnt t ≡ t + wait_cnt + 1)
unfolding wait_icrl
wait_icrl_lem read zero t =
    (omega arith, omega arith, λ i a b. absurd (omega arith), λ e. omega arith)
wait_icrl_lem read (suc n) t = elim (Bool-cases (read t == 1)) [
  | inl e ↦
      let (a, b, c, d) = wait_icrl_lem read n (t + 1) in
      rw e (
        omega (arith, a),
        omega (arith, b),
        λ i le lt. elim (ℕ_discrete t i) [
          | yes q ↦ ap read (sym q) ∙ (==_iff (read t) 1).0 e
          | no ne ↦ c i (omega arith) lt
        ],
        λ q. omega (arith, d q),
      )
  | inr e ↦
      let one : t + 1 - 1 ≡ t = omega arith in
      rw (e, one)
        (
          omega arith,
          omega arith,
          λ i le lt. absurd (omega arith),
          λ q. absurd (ground (arith, q, e)),
        )
]

-- `n` reads are what the wait takes: from 1 to 1025, of which all but the last are 1, and the last is
-- 1 only if the count has run out.
abbrev pub Waits : (ℕ → ℕ) → ℕ → Type 0
Waits read n =
    (0 < n) × (n ≤ 1025) × ((i : ℕ) → i + 1 < n → read i ≡ 1) × (read (n - 1) ≡ 1 → n ≡ 1025)

waits : (read : ℕ → ℕ) → Waits read (wait_icrl read 1024 0)
waits read = let (a, b, c, d) = wait_icrl_lem read 1024 0 in (a, b, λ i lt. c i (omega arith) lt, d)

abbrev answer : ℕ → ℕ → ℕ → Apic × ℕ
answer icrh icrl ret = (record { esr = 0; icrh = icrh; icrl = icrl }, ret)

read-set_apic_bit_pack :
    (bit_pack : Pack) (vec v : ℕ)
    → read_apic_bit_pack (set_apic_bit_pack bit_pack vec) v
      ≡ (if v == vec then 1 else read_apic_bit_pack bit_pack v)
unfolding read_apic_bit_pack set_apic_bit_pack
read-set_apic_bit_pack bit_pack vec v = elim (ℕ_discrete (vec / 32) (v / 32)) [
  | yes e ↦
      let here : ((vec / 32) == (v / 32)) ≡ true = ground (arith, e) in
      rw (here, e, bt-bts (v % 32) (vec % 32) (bit_pack (v / 32))) (ground arith)
  | no ne ↦
      let other : ((vec / 32) == (v / 32)) ≡ false = ground (arith, ne) in rw other (ground arith)
]

read-reset_apic_bit_pack :
    (bit_pack : Pack) (vec v : ℕ)
    → read_apic_bit_pack (reset_apic_bit_pack bit_pack vec) v ≡ (
        if ((v / 32) == (vec / 32)) && not (v == vec)
        then 1 - read_apic_bit_pack bit_pack v
        else read_apic_bit_pack bit_pack v)
unfolding read_apic_bit_pack reset_apic_bit_pack
read-reset_apic_bit_pack bit_pack vec v = elim (ℕ_discrete (vec / 32) (v / 32)) [
  | yes e ↦
      let here : ((vec / 32) == (v / 32)) ≡ true = ground (arith, e) in
      let n = vec % 32 in
      let j = v % 32 in
      let mask = bt-all_but 32 n j (omega arith) (omega arith) in
      let same : (j == n) ≡ (v == vec) = elim (ℕ_discrete v vec) [
        | yes q ↦ ground (arith, q)
        | no ne ↦ ground (arith, ne, e)
      ] in
      let word : ((v / 32) == (v / 32)) ≡ true = ground arith in
      rw (here, e, bt-bit_xor (bit_pack (v / 32)) (2 ^ 32 - 1 - 2 ^ n) j, mask, same, word)
        (ground arith)
  | no ne ↦
      let other : ((vec / 32) == (v / 32)) ≡ false = ground (arith, ne) in
      let other' : ((v / 32) == (vec / 32)) ≡ false = ground (arith, ne) in rw (other, other') refl
]

-- A bit that `set_apic_bit_pack` has set reads as 1, and every other bit of the pack reads as
-- before, for any two vectors. `reset_apic_bit_pack` leaves the bit of its vector as it was, inverts
-- the 31 others of the same word, and leaves the other words.
pub set_apic_bit_pack_lem :
    (bit_pack : Pack) (vec v : ℕ)
    → (read_apic_bit_pack (set_apic_bit_pack bit_pack vec) v
        ≡ (if v == vec then 1 else read_apic_bit_pack bit_pack v))
      × (read_apic_bit_pack (reset_apic_bit_pack bit_pack vec) v ≡ (
          if ((v / 32) == (vec / 32)) && not (v == vec)
          then 1 - read_apic_bit_pack bit_pack v
          else read_apic_bit_pack bit_pack v))
set_apic_bit_pack_lem bit_pack vec v =
    (read-set_apic_bit_pack bit_pack vec v, read-reset_apic_bit_pack bit_pack vec v)
