-- ===== src/Ipi.antt =====
-- src/ipi.c and include/apic.h: sending an interrupt to another cpu, and the bit packs of the local
-- apic.
--
-- `icrl` is volatile and the apic is not in the source: the apic answers the reads, numbered from
-- the first after the write.
pub mod Send
mod Reset
use bootcode.Base.{
  ℕ, zero, suc, ◌+◌, ◌-◌, ◌*◌, ◌/◌, ◌%◌, ◌^◌, ◌<<<◌, u8, u32, bit_or, bit_xor, Bool, ◌&&◌, ltb,
  ◌==◌, if◌then◌else◌, update, not,
}
use bootcode.Bits.{bt, bts}

-- `ICRL1`: fixed delivery, physical destination, edge, deasserted.
abbrev pub icrl5 : ℕ → ℕ → ℕ → ℕ → ℕ → ℕ
icrl5 dm tgm mt l vec =
    bit_or (bit_or (bit_or (bit_or (tgm <<< 15) (l <<< 14)) (dm <<< 11)) (mt <<< 8)) vec

abbrev pub icrl1 : ℕ → ℕ
icrl1 vec = icrl5 0 0 0 0 vec

-- The registers that the code writes.
pub record Apic : Type 0 where
  pub esr : ℕ
  pub icrh : ℕ
  pub icrl : ℕ

module _ (read : ℕ → ℕ) where
  -- `while(((1 < 12) & apic->icrl == 1) && (wait_cnt--));` from read `t` on: the number of the reads
  -- made. C compares first, so the condition is `icrl == 1`.
  unfoldable pub wait_icrl : ℕ → ℕ → ℕ
  wait_icrl zero t = t + 1
  wait_icrl (suc wait_cnt) t =
      let rest = wait_icrl wait_cnt (t + 1) in if read t == 1 then rest else t + 1

  -- `(((1 < 12) & apic->icrl == 0) == 0) ? 1 : 0`
  abbrev sent : ℕ → ℕ
  sent t = if read t == 0 then 0 else 1

  -- The registers written, beside what is returned.
  unfoldable pub send_ipi_to_all : Apic → ℕ → Apic × ℕ
  unfolding wait_icrl
  send_ipi_to_all apic vector =
      (record apic { esr = 0; icrl = bit_or (icrl1 vector) (0xC <<< 16) }, sent (wait_icrl 1024 0))

  unfoldable pub send_ipi_to : Apic → ℕ → ℕ → Apic × ℕ
  unfolding wait_icrl
  send_ipi_to apic id vector =
      (record { esr = 0; icrh = u32 (id <<< 24); icrl = icrl1 vector }, sent (wait_icrl 1024 0))

-- The eight words of an `apic_bit_pack_t *`.
abbrev pub Pack : Type 0
Pack = ℕ → ℕ

unfoldable pub read_apic_bit_pack : Pack → ℕ → ℕ
read_apic_bit_pack bit_pack vec = if bt (vec % 0x20) (bit_pack (vec / 0x20)) then 1 else 0

unfoldable pub set_apic_bit_pack : Pack → ℕ → Pack
set_apic_bit_pack bit_pack vec =
    let off = vec / 0x20 in update bit_pack off (bts (vec % 0x20) (bit_pack off))

-- `bit_pack[off].bits ^= ~((uint32_t)(0x1 << bitn))`
unfoldable pub reset_apic_bit_pack : Pack → ℕ → Pack
reset_apic_bit_pack bit_pack vec =
    let off = vec / 0x20 in
    update bit_pack off (bit_xor (bit_pack off) (2 ^ 32 - 1 - 2 ^ (vec % 0x20)))
