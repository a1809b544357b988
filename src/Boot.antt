-- ===== src/Boot.antt =====
-- src/main.c, with the types of include/hw_types.h and the calls of include/msrs.h: the task state
-- segment and its descriptor, the user segments, the system call registers and the start barrier.
-- A packed struct stands as the record of its fields; a field keeps its width.
pub mod Tables
pub mod Barrier
pub mod Start
pub mod Task
pub mod Loaded
mod Tests
use bootcode.Base.{
  ℕ, zero, suc, ◌+◌, ◌-◌, ◌*◌, ◌/◌, ◌%◌, ◌^◌, ◌>>>◌, ◌<<<◌, u8, u16, u32, u64, ◌==◌, if◌then◌else◌,
  List, [], ◌∷◌, update, Bool, true, false, ltb, leb, ◌&&◌,
}

-- `struct tss_entry_t`
pub record TssEntry : Type 0 where
  pub reserved0 : ℕ
  pub rsp0 : ℕ
  pub rsp1 : ℕ
  pub rsp2 : ℕ
  pub reserved1 : ℕ
  pub ist1 : ℕ
  pub ist2 : ℕ
  pub ist3 : ℕ
  pub ist4 : ℕ
  pub ist5 : ℕ
  pub ist6 : ℕ
  pub ist7 : ℕ
  pub reserved2 : ℕ
  pub reserved3 : ℕ
  pub iomap_base : ℕ

-- `sizeof(struct tss_entry_t)`, which is packed: 4 + 12 * 8 + 4 bytes.
abbrev pub sizeof_tss : ℕ
sizeof_tss = 104

-- `struct sys_desc_t`
pub record SysDesc : Type 0 where
  pub limit_15_0 : ℕ
  pub base_23_0 : ℕ
  pub type : ℕ
  pub hardcode0_0 : ℕ
  pub dpl : ℕ
  pub present : ℕ
  pub limit_19_16 : ℕ
  pub avl : ℕ
  pub reserved0 : ℕ
  pub granularity : ℕ
  pub base_31_24 : ℕ
  pub base_64_32 : ℕ
  pub reserved1 : ℕ
  pub hardcode1_0 : ℕ
  pub reserved2 : ℕ

-- `fill_tss`, where `tss` is the address of the segment: the segment and its descriptor. Both are
-- zeroed first.
unfoldable pub fill_tss : ℕ → ℕ → TssEntry × SysDesc
fill_tss tss stack_addr =
    let sz = sizeof_tss - 1 in
    (
      record {
        reserved0 = 0;
        rsp0 = stack_addr;
        rsp1 = 0;
        rsp2 = 0;
        reserved1 = 0;
        ist1 = 0;
        ist2 = 0;
        ist3 = 0;
        ist4 = 0;
        ist5 = 0;
        ist6 = 0;
        ist7 = 0;
        reserved2 = 0;
        reserved3 = 0;
        iomap_base = u16 sizeof_tss;
      },
      record {
        limit_15_0 = sz % 2 ^ 16;
        base_23_0 = tss % 2 ^ 24;
        type = 0x9;
        hardcode0_0 = 0;
        dpl = 0;
        present = 1;
        limit_19_16 = sz / 2 ^ 16 % 2 ^ 4;
        avl = 0;
        reserved0 = 0;
        granularity = 0;
        base_31_24 = tss / 2 ^ 24 % 2 ^ 8;
        base_64_32 = tss / 2 ^ 32 % 2 ^ 32;
        reserved1 = 0;
        hardcode1_0 = 0;
        reserved2 = 0;
      },
    )

-- `gdt_entry_t` as code or data, of which these are the fields that the code sets; the others are
-- zero. An entry that it does not touch is its 64 bits.
pub record CsView : Type 0 where
  pub hardcode0_1 : ℕ
  pub hardcode1_1 : ℕ
  pub hardcode2_0 : ℕ
  pub long_mode : ℕ
  pub present : ℕ
  pub dpl : ℕ

pub record DsView : Type 0 where
  pub hardcode0_0 : ℕ
  pub hardcode1_1 : ℕ
  pub present : ℕ
  pub write : ℕ
  pub dpl : ℕ

pub data GdtEntry : Type 0 where
  raw : (bits : ℕ) → GdtEntry
  code : (view : CsView) → GdtEntry
  sdata : (view : DsView) → GdtEntry

-- The 64 bits of an entry, with the fields where the two structs of `gdt_entry_t` have them.
abbrev pub gdt_word : GdtEntry → ℕ
gdt_word (raw bits) = bits
gdt_word (code v) =
    v.hardcode0_1 * 2 ^ 43
    + v.hardcode1_1 * 2 ^ 44
    + v.dpl * 2 ^ 45
    + v.present * 2 ^ 47
    + v.long_mode * 2 ^ 53
    + v.hardcode2_0 * 2 ^ 54
gdt_word (sdata v) =
    v.write * 2 ^ 41
    + v.hardcode0_0 * 2 ^ 43
    + v.hardcode1_1 * 2 ^ 44
    + v.dpl * 2 ^ 45
    + v.present * 2 ^ 47

unfoldable pub init_cs : CsView
init_cs = record {
  hardcode0_1 = 1;
  hardcode1_1 = 1;
  hardcode2_0 = 0;
  long_mode = 1;
  present = 1;
  dpl = 0;
}

unfoldable pub init_ds : DsView
init_ds = record { hardcode0_0 = 0; hardcode1_1 = 1; present = 1; write = 1; dpl = 0 }

-- The table that `gdt64_start_c` begins, by the index of the entry.
unfoldable pub fill_user_mode_gdt : (ℕ → GdtEntry) → ℕ → GdtEntry
fill_user_mode_gdt gdt =
    update (update gdt 4 (code (record init_cs { dpl = 3 }))) 3 (sdata (record init_ds { dpl = 3 }))

-- `set_msr(msr, h, l)`
pub record SetMsr : Type 0 where
  pub msr : ℕ
  pub h : ℕ
  pub l : ℕ

abbrev pub msr_star : ℕ
msr_star = 0xC0000081

abbrev pub msr_lstar : ℕ
msr_lstar = 0xC0000082

abbrev pub msr_sfmask : ℕ
msr_sfmask = 0xC0000084

-- `set_syscall_msrs`: its writes in order, where `addr` is the address of `__syscall_entry`. The
-- operands of each `|` have no bit in common.
unfoldable pub set_syscall_msrs : ℕ → List SetMsr
set_syscall_msrs addr =
    let ss_cs_kernel_call : ℕ = 0x08 in
    let ss_cs_user_ret : ℕ = 0x10 + 0x3 in
    let star = (ss_cs_user_ret <<< 16) + ss_cs_kernel_call in
    record { msr = msr_star; h = star; l = 0 }
    ∷ record { msr = msr_lstar; h = u32 (addr >>> 32); l = addr % 2 ^ 32 }
    ∷ record { msr = msr_sfmask; h = 0; l = 0 }
    ∷ []

-- The system calls that `syscall_entry` tells apart.
pub data Service : Type 0 where
  bad_call : Service
  sched_call : Service
  printf_call : Service
  no_service : Service

-- `syscall_entry`: what the number in rax selects.
unfoldable pub syscall_entry : ℕ → Service
syscall_entry nr =
    if nr == 0
    then bad_call
    else (if nr == 0x20a then sched_call else (if nr == 0x20b then printf_call else no_service))
