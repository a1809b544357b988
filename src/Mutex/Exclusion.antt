-- ===== src/Mutex/Exclusion.antt =====
-- Mutual exclusion, and that a free lock is taken.
use bootcode.Base.{
  ℕ, ◌^◌, ◌≡◌, ◌≢◌, refl, sym, ap, ◌∙◌, arith, inl, inr, Bool-cases, ◌-◌, Bool, update_eq,
  update_ne, true, false, ◌==◌, update,
}
use native.Mathlib.Nat.{one-le-pow}
use native.Mathlib.Decide.{ℕ_discrete}
use bootcode.Bits.{bsf}
use bootcode.Util.{cas}
use bootcode.Mutex.{
  Pc, outside, retry, peek, yield, inside, step, after_cas, System, move, Reachable, start, moved,
}

-- The word is the bit of the cpu that is inside, of which there is at most one.
record IsExclusive (s : System) : Type 0 where
  word : (i : ℕ) → s.at i ≡ inside → s.m ≡ 2 ^ i
  one : (i j : ℕ) → s.at i ≡ inside → s.at j ≡ inside → i ≡ j

abbrev is_inside : Pc → Bool
is_inside inside = true
is_inside _ = false

-- The step leaves the word, and its cpu is inside only if it was before.
keep :
    (s : System) (id : ℕ) (pc : Pc)
    → IsExclusive s
    → (pc ≡ inside → s.at id ≡ inside)
    → IsExclusive (record { m = s.m; at = update s.at id pc })
keep s id pc h back =
    let old : (i : ℕ) → update s.at id pc i ≡ inside → s.at i ≡ inside = λ i q.
      elim (ℕ_discrete id i) [
        | yes e ↦ ap s.at (sym e) ∙ back (sym (update_eq s.at id i pc e) ∙ q)
        | no ne ↦ sym (update_ne s.at id i pc ne) ∙ q
      ] in
    record { word = λ i q. h.word i (old i q); one = λ i j p q. h.one i j (old i p) (old j q) }

-- After the step no other cpu than its own is inside.
alone :
    (s : System) (id m : ℕ) (pc : Pc)
    → ((i : ℕ) → id ≢ i → s.at i ≢ inside)
    → (pc ≡ inside → m ≡ 2 ^ id)
    → IsExclusive (record { m = m; at = update s.at id pc })
alone s id m pc outside_all w =
    let same : (i : ℕ) → update s.at id pc i ≡ inside → id ≡ i = λ i q. elim (ℕ_discrete id i) [
      | yes e ↦ e
      | no ne ↦ absurd (outside_all i ne (sym (update_ne s.at id i pc ne) ∙ q))
    ] in
    record {
      word = λ i q. w (sym (update_eq s.at id i pc (same i q)) ∙ q) ∙ ap (λ k. 2 ^ k) (same i q);
      one = λ i j p q. sym (same i p) ∙ same j q;
    }

is_inside_of : (pc : Pc) → pc ≡ inside → is_inside pc ≡ true
is_inside_of pc e = ap is_inside e

move_at :
    (s : System) (id : ℕ) (pc : Pc)
    → s.at id ≡ pc
    → IsExclusive s
    → IsExclusive (record { m = (step id s.m pc).0; at = update s.at id (step id s.m pc).1 })
unfolding step after_cas cas
move_at s id outside e h = keep s id (retry 3072) h (λ q. ground arith)
move_at s id (retry n) e h = elim (Bool-cases (s.m == 0)) [
  | inl z ↦ rw z (
      alone s id (2 ^ id) inside (λ i ne q. ground (arith, h.word i q, one-le-pow i 2)) (λ q. refl))
  | inr z ↦ elim (Bool-cases (n - 1 == 0)) [
    | inl l ↦ rw (z, l) (keep s id peek h (λ q. ground arith))
    | inr l ↦ rw (z, l) (keep s id (retry (n - 1)) h (λ q. ground arith))
  ]
]
move_at s id peek e h = keep s id (yield (bsf 64 s.m)) h (λ q. ground arith)
move_at s id (yield b) e h = keep s id (retry 3072) h (λ q. ground arith)
move_at s id inside e h = alone s id 0 outside (λ i ne q. ne (h.one id i e q)) (λ q. ground arith)

Reachable-IsExclusive : {s : System} → Reachable s → IsExclusive s
unfolding move
Reachable-IsExclusive start = record {
  word = λ i q. absurd (ground arith);
  one = λ i j p q. absurd (ground arith);
}
Reachable-IsExclusive (moved {s} id r) = move_at s id (s.at id) refl (Reachable-IsExclusive r)

-- Mutual exclusion: in every order of the steps, two cpus that hold the lock are one, and the word
-- is then that cpu's bit.
pub Reachable-exclusive :
    {s : System}
    → Reachable s
    → (i j : ℕ) → s.at i ≡ inside
    → s.at j ≡ inside
    → (i ≡ j) × (s.m ≡ 2 ^ i)
Reachable-exclusive r i j p q = let h = Reachable-IsExclusive r in (h.one i j p q, h.word i p)

-- From a free lock, two steps of a cpu that is outside bring it inside, with its bit in the word, and
-- its third step brings it outside again, with the lock free.
pub lock-unlock :
    (s : System) (id : ℕ)
    → s.m ≡ 0
    → s.at id ≡ outside
    → ((move id (move id s)).at id ≡ inside)
      × ((move id (move id s)).m ≡ 2 ^ id)
      × ((move id (move id (move id s))).at id ≡ outside)
      × ((move id (move id (move id s))).m ≡ 0)
unfolding move step after_cas cas
lock-unlock s id free out =
    let me : (id == id) ≡ true = ground arith in rw (me, out, free) (refl, refl, refl, refl)
