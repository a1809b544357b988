-- ===== src/Util.antt =====
-- include/util.h: the atomic read-modify-write helpers, each as the new content of the memory word
-- beside what it returns. An `int64_t` result of -1 that stands for "no bit" is `none`.
pub mod Laws
pub mod Identity
use bootcode.Base.{ℕ, zero, suc, ◌+◌, ◌-◌, ◌/◌, ◌^◌, Bool, true, false, ◌&&◌, ◌==◌, if◌then◌else◌}
use bootcode.Base.{Option, none, some, List, [], ◌∷◌, get_or, add64, u8, u64}
use bootcode.Bits.{bts, btr, bsf}
use bootcode.Claim.{Pc, scan, run, claimed}

-- `CAS`: the word becomes `src` if it holds `rax`; the old content is returned on both branches.
unfoldable pub cas : ℕ → ℕ → ℕ → ℕ × ℕ
cas dst rax src = (if dst == rax then src else dst, dst)

-- Two adjacent words, as `cmpxchg16b` takes them.
pub record Pair : Type 0 where
  pub lo : ℕ
  pub hi : ℕ

abbrev pub zero_pair : Pair
zero_pair = record { lo = 0; hi = 0 }

-- `DCAS`: both words at once; 1 is returned on the exchange, 0 otherwise.
unfoldable pub dcas : Pair → Pair → Pair → Pair × ℕ
dcas dst old new = if (dst.lo == old.lo) && (dst.hi == old.hi) then (new, 1) else (dst, 0)

-- `xadd`: the sum wraps, the old content is returned.
unfoldable pub xadd : ℕ → ℕ → ℕ × ℕ
xadd m rax = (add64 m rax, m)

-- `set_bit` and `reset_bit`, on the word at `r` (a bit number below 64 stays in that word).
unfoldable pub set_bit : ℕ → ℕ → ℕ
set_bit r bn = bts bn r

unfoldable pub reset_bit : ℕ → ℕ → ℕ
reset_bit r bn = btr bn r

unfoldable pub lowest_set_bit : ℕ → Option ℕ
lowest_set_bit r = bsf 64 r

-- `e_bsf`: takes out the lowest set bit of one word, without a lock. Alone, three steps are enough.
unfoldable pub e_bsf : ℕ → ℕ × Option ℕ
e_bsf m = let (ws, pc) = run 0 3 (m ∷ []) (scan 0) in (get_or ws 0 0, claimed pc)

-- `blog2`: the loop `while ((x = x >> 1) != 0) id++`, with fuel for the rounds left.
blog2_loop : ℕ → ℕ → ℕ → ℕ
blog2_loop zero x id = id
blog2_loop (suc fuel) x id =
    let x' = x / 2 in let rest = blog2_loop fuel x' (u8 (id + 1)) in if x' == 0 then id else rest

-- A `uint64_t` is zero after at most 64 halvings.
unfoldable pub blog2 : ℕ → ℕ
unfolding blog2_loop
blog2 x = blog2_loop 64 x 0
