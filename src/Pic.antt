-- ===== src/Pic.antt =====
-- src/pic.c and include/pic.h: the two interrupt controllers behind their ports.
--
-- The log of port accesses is the state, the newest first. The controllers themselves are not in
-- the source: a device answers a read from the log of the accesses before it.
pub mod Laws
use bootcode.Base.{ℕ, ◌+◌, ◌-◌, ◌*◌, ◌^◌, if◌then◌else◌, ltb, leb, Bool, List, [], ◌∷◌, u8}
use bootcode.Bits.{bts, btr}

pub data Io : Type 0 where
  out_b : (port val : ℕ) → Io
  in_b : (port val : ℕ) → Io

abbrev pub Log : Type 0
Log = List Io

abbrev pub Device : Type 0
Device = Log → ℕ → ℕ

abbrev pub pic1_cmd : ℕ
pic1_cmd = 0x20

abbrev pub pic1_data : ℕ
pic1_data = 0x20 + 1

abbrev pub pic2_cmd : ℕ
pic2_cmd = 0xA0

abbrev pub pic2_data : ℕ
pic2_data = 0xA0 + 1

abbrev pub pic_eoi : ℕ
pic_eoi = 0x20

-- `ICW1_INIT | ICW1_ICW4`
abbrev pub icw1 : ℕ
icw1 = 0x10 + 0x01

abbrev pub icw4_8086 : ℕ
icw4_8086 = 0x01

-- `outb`, `inb` and `io_wait` of include/util.h.
abbrev pub outb : ℕ → ℕ → Log → Log
outb port val log = out_b port (u8 val) ∷ log

abbrev pub inb : Device → ℕ → Log → Log × ℕ
inb dev port log = let v = u8 (dev log port) in (in_b port v ∷ log, v)

abbrev pub io_wait : Log → Log
io_wait log = outb 0x3f8 10 log

-- An `outb` and the `io_wait` after it.
abbrev out_wait : ℕ → ℕ → Log → Log
out_wait port val log = io_wait (outb port val log)

unfoldable pub pic_send_eoi : ℕ → Log → Log
pic_send_eoi irq log = outb pic1_cmd pic_eoi (if leb 8 irq then outb pic2_cmd pic_eoi log else log)

-- The port and the line on its controller.
abbrev pub mask_port : ℕ → ℕ
mask_port irq = if ltb irq 8 then pic1_data else pic2_data

abbrev pub mask_line : ℕ → ℕ
mask_line irq = if ltb irq 8 then irq else irq - 8

module _ (dev : Device) where
  unfoldable pub pic_remap : ℕ → ℕ → Log → Log
  pic_remap offset1 offset2 log0 =
      let (log1, a1) = inb dev pic1_data log0 in
      let (log2, a2) = inb dev pic2_data log1 in
      let log3 = out_wait pic2_cmd icw1 (out_wait pic1_cmd icw1 log2) in
      let log4 = out_wait pic2_data offset2 (out_wait pic1_data offset1 log3) in
      let log5 = out_wait pic2_data 2 (out_wait pic1_data 4 log4) in
      let log6 = out_wait pic2_data icw4_8086 (out_wait pic1_data icw4_8086 log5) in
      outb pic2_data a2 (outb pic1_data a1 log6)

  unfoldable pub irq_set_mask : ℕ → Log → Log
  irq_set_mask irq log0 =
      let (log1, v) = inb dev (mask_port irq) log0 in
      outb (mask_port irq) (bts (mask_line irq) v) log1

  unfoldable pub irq_clear_mask : ℕ → Log → Log
  irq_clear_mask irq log0 =
      let (log1, v) = inb dev (mask_port irq) log0 in
      outb (mask_port irq) (btr (mask_line irq) v) log1

  -- `(inb(PIC2_CMD) << 8) | inb(PIC1_CMD)`, read from the left; the operands share no bit.
  unfoldable pub pic_get_irq_reg : ℕ → Log → Log × ℕ
  pic_get_irq_reg ocw3 log0 =
      let (log1, hi) = inb dev pic2_cmd (outb pic2_cmd ocw3 (outb pic1_cmd ocw3 log0)) in
      let (log2, lo) = inb dev pic1_cmd log1 in (log2, hi * 2 ^ 8 + lo)

  unfoldable pub pic_get_irr : Log → Log × ℕ
  unfolding pic_get_irq_reg
  pic_get_irr log = pic_get_irq_reg 0x0a log

  unfoldable pub pic_get_isr : Log → Log × ℕ
  unfolding pic_get_irq_reg
  pic_get_isr log = pic_get_irq_reg 0x0b log
