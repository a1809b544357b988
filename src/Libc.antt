-- ===== src/Libc.antt =====
-- src/libc/util.c: `memset` and `memcpy`, on a memory of bytes indexed by the address. The lines of
-- `hexdump` print and are left out.
pub mod Laws
use bootcode.Base.{ℕ, zero, suc, ◌+◌, u8, update}

-- `while (len-- > 0) *ptr++ = val;`, where the byte takes the low bits of the int.
unfoldable pub memset : (ℕ → ℕ) → ℕ → ℕ → ℕ → ℕ → ℕ
memset mem ptr val zero = mem
memset mem ptr val (suc len) = memset (update mem ptr (u8 val)) (ptr + 1) val len

-- `while (len-- > 0) *dptr++ = *sptr++;`
unfoldable pub memcpy : (ℕ → ℕ) → ℕ → ℕ → ℕ → ℕ → ℕ
memcpy mem dptr sptr zero = mem
memcpy mem dptr sptr (suc len) = memcpy (update mem dptr (mem sptr)) (dptr + 1) (sptr + 1) len
