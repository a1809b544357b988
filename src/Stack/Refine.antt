-- ===== src/Stack/Refine.antt =====
-- The stack of bytes against a bounded list, the newest byte first.
use bootcode.Base.{
  ℕ, zero, suc, ◌+◌, ◌-◌, ◌≤◌, ◌<◌, ◌≡◌, refl, sym, ap, ◌∙◌, arith, true, false, if◌then◌else◌, ltb,
  update, ◌==◌,
}
use bootcode.Base.{inl, inr, Bool-cases, List, [], ◌∷◌, length, get_or}
use bootcode.Stack.{
  TStack, Store, minus_one, stack_init, stack_push, stack_pop, push_locked, pop_locked, Call, push,
  pop, call, calls,
}

-- The list that `n` bytes from the address `a` up hold.
abbrev bytes : (ℕ → ℕ) → ℕ → ℕ → List ℕ
bytes mem a zero = []
bytes mem a (suc n) = mem (a + n) ∷ bytes mem a n

-- The promise: a list of at most `tsz` bytes.
abbrev list_call : ℕ → List ℕ → Call → List ℕ × (ℕ × ℕ)
list_call tsz xs (push id e) =
    if ltb (length xs) tsz then (e ∷ xs, (0, e)) else (xs, (minus_one, e))
list_call tsz [] (pop id e) = ([], (minus_one, e))
list_call tsz (x ∷ xs) (pop id e) = (xs, (0, x))

abbrev pub list_calls : ℕ → List ℕ → List Call → List (ℕ × ℕ)
list_calls tsz xs [] = []
list_calls tsz xs (c ∷ cs) = let (xs', seen) = list_call tsz xs c in seen ∷ list_calls tsz xs' cs

-- The store holds `xs`: `head` is the first free byte, `n` the length, at most `tsz`, and the
-- mutex is free.
pub record Holds (tsz : ℕ) (xs : List ℕ) (s : Store) : Type 0 where
  pub top : s.q.head ≡ s.q.arr + s.q.n
  pub room : s.q.n ≤ tsz
  pub size : s.q.tsz ≡ tsz
  pub unlocked : s.q.m ≡ 0
  pub content : xs ≡ bytes s.mem s.q.arr s.q.n

length-bytes : (mem : ℕ → ℕ) (a n : ℕ) → length (bytes mem a n) ≡ n
length-bytes mem a zero = refl
length-bytes mem a (suc n) = ap suc (length-bytes mem a n)

bytes-update : (mem : ℕ → ℕ) (a h e n : ℕ) → a + n ≤ h → bytes (update mem h e) a n ≡ bytes mem a n
bytes-update mem a h e zero le = refl
bytes-update mem a h e (suc n) le =
    let ih = bytes-update mem a h e n (omega arith) in
    let ne : (h == (a + n)) ≡ false = ground arith in rw (ne, ih) refl

bytes_push :
    (mem : ℕ → ℕ) (a h e n : ℕ) (xs : List ℕ)
    → h ≡ a + n
    → xs ≡ bytes mem a n
    → e ∷ xs ≡ bytes (update mem h e) a (n + 1)
bytes_push mem a h e n xs top same =
    let below = bytes-update mem a h e n (omega (arith, top)) in
    let here : update mem h e (a + n) ≡ e = ground (arith, top) in
    let whole : e ∷ xs ≡ update mem h e (a + n) ∷ bytes (update mem h e) a n =
      rw (here, below, same) refl in
    let count : n + 1 ≡ suc n = omega arith in rw count whole

tail : List ℕ → List ℕ
tail [] = []
tail (x ∷ xs) = xs

bytes_pop :
    (mem : ℕ → ℕ) (a n x : ℕ) (xs : List ℕ)
    → x ∷ xs ≡ bytes mem a n
    → (0 < n) × (x ≡ mem (a + (n - 1))) × (xs ≡ bytes mem a (n - 1))
unfolding tail
bytes_pop mem a zero x xs h = let no : suc (length xs) ≡ 0 = ap length h in absurd (omega arith)
bytes_pop mem a (suc n) x xs h =
    let count : suc n - 1 ≡ n = omega arith in
    rw count (omega arith, ap (λ l. get_or l 0 x) h, ap tail h)

module _ (tsz : ℕ) where
  push-Holds :
      (xs : List ℕ) (s : Store) (id e : ℕ)
      → Holds tsz xs s
      → Holds tsz (list_call tsz xs (push id e)).0 (call s (push id e)).0
        × ((call s (push id e)).1 ≡ (list_call tsz xs (push id e)).1)
  unfolding call stack_push push_locked
  push-Holds xs s id e h =
      let len : length xs ≡ s.q.n = rw (h.content) (length-bytes s.mem s.q.arr s.q.n) in
      elim (Bool-cases (ltb s.q.n s.q.tsz)) [
        | inl lt ↦
            let room : ltb (length xs) tsz ≡ true = ground (arith, h.size, len) in
            rw (lt, room)
              (
                record {
                  top = omega (arith, h.top);
                  room = ground (arith, h.size);
                  size = h.size;
                  unlocked = refl;
                  content = bytes_push s.mem s.q.arr s.q.head e s.q.n xs h.top h.content;
                },
                refl,
              )
        | inr ge ↦
            let full : ltb (length xs) tsz ≡ false = ground (arith, h.size, len) in
            rw (ge, full)
              (
                record {
                  top = h.top;
                  room = h.room;
                  size = h.size;
                  unlocked = refl;
                  content = h.content;
                },
                refl,
              )
      ]

  pop-Holds :
      (xs : List ℕ) (s : Store) (id e : ℕ)
      → Holds tsz xs s
      → Holds tsz (list_call tsz xs (pop id e)).0 (call s (pop id e)).0
        × ((call s (pop id e)).1 ≡ (list_call tsz xs (pop id e)).1)
  unfolding call stack_pop pop_locked
  pop-Holds [] s id e h =
      let len : s.q.n ≡ 0 = sym (length-bytes s.mem s.q.arr s.q.n) ∙ ap length (sym h.content) in
      let no : ltb 0 s.q.n ≡ false = ground (arith, len) in
      rw no (
        record { top = h.top; room = h.room; size = h.size; unlocked = refl; content = h.content },
        refl,
      )
  pop-Holds (x ∷ xs) s id e h =
      let (some_left, first, rest) = bytes_pop s.mem s.q.arr s.q.n x xs h.content in
      let yes_pop : ltb 0 s.q.n ≡ true = ground (arith, some_left) in
      let at : s.q.head - 1 ≡ s.q.arr + (s.q.n - 1) = omega (arith, h.top) in
      rw yes_pop (
        record {
          top = at;
          room = omega (arith, h.room);
          size = h.size;
          unlocked = refl;
          content = rest;
        },
        ap (λ v. (0, v)) (ap s.mem at ∙ sym first),
      )

  call-Holds :
      (xs : List ℕ) (s : Store) (c : Call)
      → Holds tsz xs s
      → Holds tsz (list_call tsz xs c).0 (call s c).0 × ((call s c).1 ≡ (list_call tsz xs c).1)
  call-Holds xs s (push id e) h = push-Holds xs s id e h
  call-Holds xs s (pop id e) h = pop-Holds xs s id e h

  -- The stack is a list of at most `tsz` bytes, the newest first: from a store that holds `xs`, the
  -- return values and the bytes that any sequence of pushes and pops sees are those of the list, a
  -- push on the full stack and a pop of the empty one included, which return -1.
  pub calls-Refines :
      (xs : List ℕ) (s : Store) (cs : List Call)
      → Holds tsz xs s
      → calls s cs ≡ list_calls tsz xs cs
  unfolding calls
  calls-Refines xs s [] h = refl
  calls-Refines xs s (c ∷ cs) h =
      let (next, seen) = call-Holds xs s c h in
      rw (seen, calls-Refines (list_call tsz xs c).0 (call s c).0 cs next) refl

-- A stack that `stack_init` has set up over any array is the empty list.
pub stack_init-Holds :
    (q : TStack) (mem : ℕ → ℕ) (h tsz : ℕ)
    → Holds tsz [] (record { q = stack_init q h tsz; mem = mem })
unfolding stack_init
stack_init-Holds q mem h tsz = record {
  top = omega arith;
  room = omega arith;
  size = refl;
  unlocked = refl;
  content = refl;
}
