-- ===== src/Stack.antt =====
-- src/stack.c and include/stack.h: the bounded stack of bytes. A pointer is its byte address, the
-- memory a function of the address; `n` and `tsz` are never negative.
pub mod Refine
pub mod Error
use bootcode.Base.{ℕ, zero, suc, ◌+◌, ◌-◌, ◌^◌, Bool, if◌then◌else◌, ltb, update, List, [], ◌∷◌}

pub record TStack : Type 0 where
  pub arr : ℕ
  pub head : ℕ
  pub m : ℕ
  pub n : ℕ
  pub tsz : ℕ

-- The struct and the memory that `head` points into.
pub record Store : Type 0 where
  pub q : TStack
  pub mem : ℕ → ℕ

-- The `int` -1.
abbrev pub minus_one : ℕ
minus_one = 2 ^ 32 - 1

-- `mutex_lock` once it has the lock, on the cpu `id`, and `mutex_unlock`.
abbrev lock : ℕ → TStack → TStack
lock id q = record q { m = 2 ^ id }

abbrev unlock : Store × ℕ → Store × ℕ
unlock (s, ret) = (record s { q = record s.q { m = 0 } }, ret)

unfoldable pub stack_init : TStack → ℕ → ℕ → TStack
stack_init q h tsz = record { arr = h; head = h; m = 0; n = 0; tsz = tsz }

unfoldable pub stack_current_size : TStack → ℕ
stack_current_size q = q.n

-- The branches of the push: the byte at `head`, or nothing.
push_locked : ℕ → TStack → (ℕ → ℕ) → Store × ℕ
push_locked e q mem =
    if ltb q.n q.tsz
    then (record { q = record q { head = q.head + 1; n = q.n + 1 }; mem = update mem q.head e }, 0)
    else (record { q = q; mem = mem }, minus_one)

-- `stack_push` by the cpu `id` of the byte `*e`.
unfoldable pub stack_push : ℕ → Store → ℕ → Store × ℕ
unfolding push_locked
stack_push id s e = unlock (push_locked e (lock id s.q) s.mem)

-- The branches of the pop, with what `*e` held before and what it holds after.
pop_locked : ℕ → TStack → (ℕ → ℕ) → (Store × ℕ) × ℕ
pop_locked e q mem =
    if ltb 0 q.n
    then (
      (record { q = record q { head = q.head - 1; n = q.n - 1 }; mem = mem }, 0),
      mem (q.head - 1),
    )
    else ((record { q = q; mem = mem }, minus_one), e)

-- `stack_pop` by the cpu `id` into `*e`.
unfoldable pub stack_pop : ℕ → Store → ℕ → (Store × ℕ) × ℕ
unfolding pop_locked
stack_pop id s e = let (r, e') = pop_locked e (lock id s.q) s.mem in (unlock r, e')

-- A call on the stack.
pub data Call : Type 0 where
  push : (id e : ℕ) → Call
  pop : (id e : ℕ) → Call

-- What the caller sees: the return value, and `*e` after it.
unfoldable pub call : Store → Call → Store × (ℕ × ℕ)
unfolding stack_push stack_pop
call s (push id e) = let (s', ret) = stack_push id s e in (s', (ret, e))
call s (pop id e) = let (r, e') = stack_pop id s e in (r.0, (r.1, e'))

unfoldable pub calls : Store → List Call → List (ℕ × ℕ)
unfolding call
calls s [] = []
calls s (c ∷ cs) = let (s', seen) = call s c in seen ∷ calls s' cs
