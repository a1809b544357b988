-- ===== src/Libc/Laws.antt =====
-- What `memset` and `memcpy` leave at each address.
use bootcode.Base.{
  ℕ, zero, suc, ◌+◌, ◌-◌, ◌≤◌, ◌≡◌, ◌⊎◌, inl, inr, arith, Bool, ◌&&◌, leb, ltb, u8, update,
  if◌then◌else◌,
}
use native.Mathlib.Decide.{ℕ_discrete}
use bootcode.Base.{Bool-cases}
use bootcode.Libc.{memset, memcpy}

-- The address lies in the block of `len` bytes at `p`.
abbrev pub within : ℕ → ℕ → ℕ → Bool
within p len a = leb p a && ltb a (p + len)

-- `memset` leaves the low byte of `val` in the `len` bytes from `ptr` and every other byte as it was.
pub memset_lem :
    (mem : ℕ → ℕ) (ptr val len a : ℕ)
    → memset mem ptr val len a ≡ (if within ptr len a then u8 val else mem a)
unfolding memset
memset_lem mem ptr val zero a = ground arith
memset_lem mem ptr val (suc len) a =
    rw (memset_lem (update mem ptr (u8 val)) (ptr + 1) val len a) (ground arith)

-- If the destination does not begin inside the source past its first byte, `memcpy` leaves in the
-- `len` bytes from `dptr` what the source held before the call, also where the two blocks overlap,
-- and every other byte as it was.
pub memcpy_lem :
    (mem : ℕ → ℕ) (dptr sptr len a : ℕ)
    → (dptr ≤ sptr) ⊎ (sptr + len ≤ dptr)
    → memcpy mem dptr sptr len a ≡ (if within dptr len a then mem (sptr + (a - dptr)) else mem a)
unfolding memcpy
memcpy_lem mem dptr sptr zero a h = ground arith
memcpy_lem mem dptr sptr (suc len) a h =
    let rest =
      memcpy_lem (update mem dptr (mem sptr)) (dptr + 1) (sptr + 1) len a
        (elim h [ inl le ↦ inl (omega arith) | inr le ↦ inr (omega arith) ]) in
    rw rest (elim (ℕ_discrete dptr a) [
      | yes e ↦
          let first : sptr + (a - dptr) ≡ sptr = omega (arith, e) in rw first (ground (arith, e))
      | no ne ↦ elim (Bool-cases (within (dptr + 1) len a)) [
        | inl b ↦
            let next : sptr + 1 + (a - (dptr + 1)) ≡ sptr + (a - dptr) = ground (arith, ne) in
            rw next (ground (arith, ne))
        | inr b ↦ ground (arith, ne)
      ]
    ])
