-- ===== src/Boot/Tables.antt =====
-- What the processor reads from the tables that the code fills.
use bootcode.Base.{
  ℕ, ◌+◌, ◌*◌, ◌/◌, ◌%◌, ◌^◌, ◌<◌, ◌≡◌, refl, arith, Bool, not, ◌&&◌, ◌==◌, if◌then◌else◌, List, [],
  ◌∷◌,
}
use bootcode.Boot.{SysDesc, fill_tss, GdtEntry, gdt_word, SetMsr}

-- The base and the limit that a descriptor's fields make up.
abbrev pub base_of : SysDesc → ℕ
base_of d = d.base_23_0 + d.base_31_24 * 2 ^ 24 + d.base_64_32 * 2 ^ 32

abbrev pub limit_of : SysDesc → ℕ
limit_of d = d.limit_15_0 + d.limit_19_16 * 2 ^ 16

-- The descriptor that `fill_tss` fills gives back the segment's address, a number below 2^64, and its
-- last byte, 103, as the limit; the segment has the stack for ring 0 and no io map below the limit.
pub fill_tss_lem :
    (tss stack_addr : ℕ)
    → tss < 2 ^ 64
    → let r = fill_tss tss stack_addr in
      (base_of r.1 ≡ tss)
      × (limit_of r.1 ≡ 103)
      × (r.0.rsp0 ≡ stack_addr)
      × (limit_of r.1 < r.0.iomap_base)
unfolding fill_tss
fill_tss_lem tss stack_addr h = (omega arith, refl, refl, omega arith)

-- The value that the writes leave in a register.
abbrev pub msr_value : ℕ → List SetMsr → ℕ
msr_value msr [] = 0
msr_value msr (w ∷ ws) = if w.msr == msr then w.h * 2 ^ 32 + w.l else msr_value msr ws

-- Bit `i` of a descriptor, and its privilege level.
abbrev is_on : ℕ → GdtEntry → Bool
is_on i d = gdt_word d / 2 ^ i % 2 == 1

abbrev is_for_ring_3 : GdtEntry → Bool
is_for_ring_3 d = gdt_word d / 2 ^ 45 % 4 == 3

-- What the processor takes for a present, non-conforming 64-bit code segment for ring 3: bits 43 and
-- 44 make it a code segment, 42 would make it conforming, 47 is present, 53 and 54 are L and D.
abbrev pub is_user_code : GdtEntry → Bool
is_user_code d =
    is_on 43 d
    && is_on 44 d
    && not (is_on 42 d)
    && is_for_ring_3 d
    && is_on 47 d
    && is_on 53 d
    && not (is_on 54 d)

-- A present, writable data segment that grows upwards, for ring 3: bit 44 without 43 makes it a data
-- segment, 42 would make it grow downwards, 41 is writable.
abbrev pub is_user_data : GdtEntry → Bool
is_user_data d =
    not (is_on 43 d)
    && is_on 44 d
    && not (is_on 42 d)
    && is_on 41 d
    && is_for_ring_3 d
    && is_on 47 d
