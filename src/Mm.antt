-- ===== src/Mm.antt =====
-- src/mm.c and include/mm_types.h: the walk of the page tables from their root to the entry of the
-- page directory. The memory is a function from the address of a 64-bit word to the word.
mod Mask
pub mod Walk
use bootcode.Base.{ℕ, zero, suc, ◌+◌, ◌-◌, ◌*◌, ◌%◌, ◌^◌, ◌>>>◌, bit_and, Option, none, some}
use bootcode.Base.{update, u8}

abbrev pub emask : ℕ
emask = 0x00FFFFFFFFFFFC00

-- `pe`: NULL, or an array of pointers; a pointer is NULL or stands as the word it points to. The
-- words are the caller's own and not part of the page tables.
abbrev pub Pe : Type 0
Pe = Option (ℕ → Option ℕ)

-- `if (pe != NULL) if (pe[i] != NULL) *pe[i] = eaddr;`
abbrev pub store_slot : Option ℕ → ℕ → Option ℕ
store_slot none eaddr = none
store_slot (some old) eaddr = some eaddr

abbrev pub store_pe : Pe → ℕ → ℕ → Pe
store_pe none i eaddr = none
store_pe (some slots) i eaddr = some (update slots i (store_slot (slots i) eaddr))

-- `(addr >> ((levels - 1 - i) * bit_len)) & entry_mask`, of the address without its low 21 bits.
abbrev pub entry_num : ℕ → ℕ → ℕ
entry_num addr i = addr >>> ((3 - 1 - i) * 9) % 2 ^ 9

-- `(base & EMASK) + entry_num * sizeof(pde_t)`
abbrev pub entry_addr : ℕ → ℕ → ℕ
entry_addr base n = bit_and base emask + n * 8

module _ (mem : ℕ → ℕ) where
  -- The rounds of the `for` that are left, with its variables.
  walk : ℕ → ℕ → ℕ → ℕ → ℕ → Pe → ℕ × Pe
  walk zero addr i base eaddr pe = (eaddr, pe)
  walk (suc left) addr i base eaddr pe =
      let eaddr' = entry_addr base (entry_num addr i) in
      walk left addr (u8 (i + 1)) (mem eaddr') eaddr' (store_pe pe i eaddr')

  -- The address of the entry, beside what the caller's words hold after the call.
  unfoldable pub addr_to_pde : ℕ → ℕ → Pe → ℕ × Pe
  unfolding walk
  addr_to_pde cr3 addr pe = walk 3 (addr >>> (12 + 9)) 0 cr3 0 pe
