-- ===== src/Boot/Start.antt =====
-- `init_boot` of src/main.c, with `flush_tss` of src/boot.S: the descriptors in the table of
-- segments that all cpus share, whose entries are words of 8 bytes.
--
-- `ltr` loads the 16 bytes that its selector names and marks the descriptor as busy, bit 41.
-- `mutex_lock` around `fill_tss` and `flush_tss` makes the two one step. What follows runs without
-- the mutex; it is one step too, since every cpu writes the same two entries, and no cpu is in user
-- mode before all are through.
use bootcode.Base.{ℕ, ◌+◌, ◌*◌, ◌/◌, ◌^◌, ◌<<<◌, u16, u64, List, [], ◌∷◌, update}
use bootcode.Bits.{bts}
use bootcode.Boot.{
  TssEntry, SysDesc, sizeof_tss, fill_tss, GdtEntry, raw, code, sdata, fill_user_mode_gdt, SetMsr,
  set_syscall_msrs,
}

-- The two words of a descriptor, by the widths of the fields of `struct sys_desc_t`.
abbrev pub low_word : SysDesc → ℕ
low_word d =
    d.limit_15_0
    + d.base_23_0 * 2 ^ 16
    + d.type * 2 ^ 40
    + d.hardcode0_0 * 2 ^ 44
    + d.dpl * 2 ^ 45
    + d.present * 2 ^ 47
    + d.limit_19_16 * 2 ^ 48
    + d.avl * 2 ^ 52
    + d.reserved0 * 2 ^ 53
    + d.granularity * 2 ^ 55
    + d.base_31_24 * 2 ^ 56

abbrev pub high_word : SysDesc → ℕ
high_word d = d.base_64_32 + d.reserved1 * 2 ^ 32 + d.hardcode1_0 * 2 ^ 40 + d.reserved2 * 2 ^ 45

-- The table, the segments, and each cpu's task register and system call registers.
pub record Tables : Type 0 where
  pub gdt64_start : ℕ → GdtEntry
  pub tss_seg : ℕ → TssEntry
  pub task : ℕ → GdtEntry × GdtEntry
  pub msrs : ℕ → List SetMsr

abbrev pub marked_busy : GdtEntry → GdtEntry
marked_busy (raw bits) = raw (bts 41 bits)
marked_busy (code view) = code view
marked_busy (sdata view) = sdata view

-- `flush_tss`
unfoldable pub flush_tss : ℕ → Tables → Tables
flush_tss my_id s =
    let i = u16 (u64 (my_id + 5) <<< 3) / 8 in
    record s {
      gdt64_start = update s.gdt64_start i (marked_busy (s.gdt64_start i));
      task = update s.task my_id (s.gdt64_start i, s.gdt64_start (i + 1));
    }

-- The parts of `init_boot`, which cpus run in any order.
pub data Part : Type 0 where
  loads : (my_id : ℕ) → Part
  fills : (my_id : ℕ) → Part

module _ (tss_start addr : ℕ) (kern_stack : ℕ → ℕ) where
  -- `fill_tss` on the cpu's own segment, and on the two entries from `my_id + 5` on.
  unfoldable pub fill_own_tss : ℕ → Tables → Tables
  fill_own_tss my_id s =
      let (tss, d) = fill_tss (tss_start + my_id * sizeof_tss) (kern_stack my_id) in
      let gdt = update s.gdt64_start (my_id + 5) (raw (low_word d)) in
      record s {
        gdt64_start = update gdt (my_id + 6) (raw (high_word d));
        tss_seg = update s.tss_seg my_id tss;
      }

  -- The section under the mutex.
  unfoldable pub load_tss : ℕ → Tables → Tables
  load_tss my_id s = flush_tss my_id (fill_own_tss my_id s)

  -- What follows it.
  unfoldable pub fill_user : ℕ → Tables → Tables
  fill_user my_id s = record s {
    gdt64_start = fill_user_mode_gdt s.gdt64_start;
    msrs = update s.msrs my_id (set_syscall_msrs addr);
  }

  unfoldable pub init_boot : ℕ → Tables → Tables
  init_boot my_id s = fill_user my_id (load_tss my_id s)

  unfoldable pub boot : List Part → Tables → Tables
  boot [] s = s
  boot (loads my_id ∷ ps) s = boot ps (load_tss my_id s)
  boot (fills my_id ∷ ps) s = boot ps (fill_user my_id s)
