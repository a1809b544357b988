-- ===== src/Stack/Error.antt =====
-- The calls on the stack of bytes that fail.
use bootcode.Base.{ℕ, ◌≡◌, ◌≢◌, refl, sym, ap, Bool, true, not, ltb, Bool-cases, inl, inr}
use bootcode.Stack.{
  Store, minus_one, stack_push, stack_pop, push_locked, pop_locked, Call, push, pop, call,
}

-- A push on a full stack, or a pop of an empty one.
abbrev pub is_refused : Store → Call → Bool
is_refused s (push id e) = not (ltb s.q.n s.q.tsz)
is_refused s (pop id e) = not (ltb 0 s.q.n)

-- The byte `*e` that the caller brings.
abbrev pub given : Call → ℕ
given (push id e) = e
given (pop id e) = e

-- A store whose mutex is free is not changed by setting it free.
unlocked-same : (s : Store) → s.q.m ≡ 0 → record s { q = record s.q { m = 0 } } ≡ s
unlocked-same s free = ap (λ (m : ℕ). record s { q = record s.q { m = m } }) (sym free)

-- A call that does not return 0, with the mutex free before, is a push on a full stack or a pop of
-- an empty one; it returns -1, and leaves the stack, the memory, the mutex and the caller's byte as
-- they were.
pub call_error :
    (s : Store) (c : Call)
    → s.q.m ≡ 0
    → (call s c).1.0 ≢ 0
    → (call s c ≡ (s, (minus_one, given c))) × (is_refused s c ≡ true)
unfolding call stack_push stack_pop push_locked pop_locked
call_error s (push id e) free failed = elim (Bool-cases (ltb s.q.n s.q.tsz)) [
  | inl room ↦ absurd (failed (rw room refl))
  | inr full ↦ rw full (ap (λ t. (t, (minus_one, e))) (unlocked-same s free), refl)
]
call_error s (pop id e) free failed = elim (Bool-cases (ltb 0 s.q.n)) [
  | inl some_left ↦ absurd (failed (rw some_left refl))
  | inr none_left ↦ rw none_left (ap (λ t. (t, (minus_one, e))) (unlocked-same s free), refl)
]
