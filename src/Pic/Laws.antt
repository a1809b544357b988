-- ===== src/Pic/Laws.antt =====
-- The masks of the sixteen interrupt lines, as the two controllers report them.
use bootcode.Base.{
  ℕ, ◌+◌, ◌-◌, ◌/◌, ◌%◌, ◌^◌, ◌<◌, ◌≡◌, ◌≢◌, refl, ap, ◌∙◌, true, false, if◌then◌else◌, List, [],
  arith, inl, inr, Bool, not, ◌&&◌, ◌||◌, ◌==◌, ltb, ltb→lt, Bool-cases, ◌∷◌, u8,
}
use bootcode.Bits.{bt, bts, btr}
use bootcode.Bits.Laws.{bt-bts, bt-btr, bts-lt, btr-le}
use bootcode.Pic.{
  out_b, in_b, Log, Device, pic1_data, pic2_data, pic_remap, irq_set_mask, irq_clear_mask,
}

-- The words of an initialisation that a controller still waits for, and those it has got, the newest
-- first. A write of ICW1 (bit 4 set) to its command port begins one: ICW2 follows, ICW3 unless bit 1
-- says that the controller is alone, and ICW4 if bit 0 asks for it, all through the data port.
pub record Init : Type 0 where
  pub left : ℕ
  pub words : List ℕ

abbrev words_after : ℕ → ℕ
words_after v = 1 + (1 - v / 2 % 2) + v % 2

abbrev pub is_icw1 : ℕ → Bool
is_icw1 v = v / 2 ^ 4 % 2 == 1

abbrev written : ℕ → ℕ → ℕ → ℕ → Init → Init
written cmd port p v s =
    if (p == cmd) && is_icw1 v
    then record { left = words_after v; words = v ∷ [] }
    else (if (p == port) && ltb 0 s.left
        then record { left = s.left - 1; words = v ∷ s.words }
        else s)

-- The initialisation of the controller with these two ports, after the accesses of the log.
abbrev pub init_of : ℕ → ℕ → Log → Init
init_of cmd port [] = record { left = 0; words = [] }
init_of cmd port (out_b p v ∷ log) = written cmd port p v (init_of cmd port log)
init_of cmd port (in_b p v ∷ log) = init_of cmd port log

-- What the data sheet of the 8259A says of a read of the data port: it gives the mask. A write to
-- that port sets the mask when no initialisation word is due, and ICW1 clears it; no other access
-- changes it.
pub record IsMask (dev : Device) (cmd port : ℕ) : Type 0 where
  pub set :
      (log : Log) (v : ℕ) → (init_of cmd port log).left ≡ 0 → dev (out_b port v ∷ log) port ≡ v
  pub due :
      (log : Log) (v : ℕ)
      → 0 < (init_of cmd port log).left
      → dev (out_b port v ∷ log) port ≡ dev log port
  pub cleared : (log : Log) (v : ℕ) → is_icw1 v ≡ true → dev (out_b cmd v ∷ log) port ≡ 0
  pub command :
      (log : Log) (v : ℕ) → is_icw1 v ≡ false → dev (out_b cmd v ∷ log) port ≡ dev log port
  pub other : (log : Log) (p v : ℕ) → p ≢ cmd → p ≢ port → dev (out_b p v ∷ log) port ≡ dev log port
  pub reads : (log : Log) (p v : ℕ) → dev (in_b p v ∷ log) port ≡ dev log port

-- The two controllers of a pc: the first at the ports 0x20 and 0x21, the second at 0xA0 and 0xA1.
pub record IsPic (dev : Device) : Type 0 where
  pub first : IsMask dev 0x20 0x21
  pub second : IsMask dev 0xA0 0xA1

-- Interrupt line `j` is masked: lines 0 to 7 belong to the first controller, 8 to 15 to the second.
abbrev pub is_masked : Device → Log → ℕ → Bool
is_masked dev log j = if ltb j 8 then bt j (u8 (dev log 0x21)) else bt (j - 8) (u8 (dev log 0xA1))

u8-bts : (k v : ℕ) → k < 8 → u8 (bts k (u8 v)) ≡ bts k (u8 v)
u8-bts k v h = omega (arith, bts-lt 8 k (u8 v) h (omega arith))

u8-btr : (k v : ℕ) → u8 (btr k (u8 v)) ≡ btr k (u8 v)
u8-btr k v = omega (arith, btr-le k (u8 v))

u8_fix : (v : ℕ) → u8 (u8 (u8 v)) ≡ u8 v
u8_fix v = omega arith

module _ (dev : Device) (pic : IsPic dev) (log : Log) where
  -- With no initialisation under way, after a read of a data port and a write to it, that port holds
  -- the byte written and the other port what it held.
  rewritten1 :
      (v w : ℕ)
      → (init_of 0x20 0x21 log).left ≡ 0
      → (dev (out_b pic1_data v ∷ in_b pic1_data w ∷ log) 0x21 ≡ v)
        × (dev (out_b pic1_data v ∷ in_b pic1_data w ∷ log) 0xA1 ≡ dev log 0xA1)
  rewritten1 v w z = (
    pic.first.set (in_b pic1_data w ∷ log) v z,
    pic.second.other (in_b pic1_data w ∷ log) pic1_data v (omega arith) (omega arith)
        ∙ pic.second.reads log pic1_data w,
  )

  rewritten2 :
      (v w : ℕ)
      → (init_of 0xA0 0xA1 log).left ≡ 0
      → (dev (out_b pic2_data v ∷ in_b pic2_data w ∷ log) 0xA1 ≡ v)
        × (dev (out_b pic2_data v ∷ in_b pic2_data w ∷ log) 0x21 ≡ dev log 0x21)
  rewritten2 v w z = (
    pic.second.set (in_b pic2_data w ∷ log) v z,
    pic.first.other (in_b pic2_data w ∷ log) pic2_data v (omega arith) (omega arith)
        ∙ pic.first.reads log pic2_data w,
  )

  module _ (ready1 : (init_of 0x20 0x21 log).left ≡ 0)
      (ready2 : (init_of 0xA0 0xA1 log).left ≡ 0) where
    irq_set_mask_lem :
        (irq j : ℕ)
        → irq < 16
        → j < 16
        → is_masked dev (irq_set_mask dev irq log) j ≡ ((j == irq) || is_masked dev log j)
    unfolding irq_set_mask
    irq_set_mask_lem irq j hi hj = elim (Bool-cases (ltb irq 8)) [
      | inl ei ↦ elim (Bool-cases (ltb j 8)) [
        | inl ej ↦
            let q = u8-bts irq (dev log 0x21) (ltb→lt irq 8 ei) in
            rw (ei, ej, (rewritten1 _ _ ready1).0, q, q)
              (ground (arith, bt-bts j irq (u8 (dev log 0x21))))
        | inr ej ↦ rw (ei, ej, (rewritten1 _ _ ready1).1) (ground arith)
      ]
      | inr ei ↦ elim (Bool-cases (ltb j 8)) [
        | inl ej ↦ rw (ei, ej, (rewritten2 _ _ ready2).1) (ground arith)
        | inr ej ↦
            let q = u8-bts (irq - 8) (dev log 0xA1) (omega arith) in
            rw (ei, ej, (rewritten2 _ _ ready2).0, q, q)
              (ground (arith, bt-bts (j - 8) (irq - 8) (u8 (dev log 0xA1))))
      ]
    ]

    irq_clear_mask_lem :
        (irq j : ℕ)
        → irq < 16
        → j < 16
        → is_masked dev (irq_clear_mask dev irq log) j ≡ (not (j == irq) && is_masked dev log j)
    unfolding irq_clear_mask
    irq_clear_mask_lem irq j hi hj = elim (Bool-cases (ltb irq 8)) [
      | inl ei ↦ elim (Bool-cases (ltb j 8)) [
        | inl ej ↦
            let q = u8-btr irq (dev log 0x21) in
            rw (ei, ej, (rewritten1 _ _ ready1).0, q, q)
              (ground (arith, bt-btr j irq (u8 (dev log 0x21))))
        | inr ej ↦ rw (ei, ej, (rewritten1 _ _ ready1).1) (ground arith)
      ]
      | inr ei ↦ elim (Bool-cases (ltb j 8)) [
        | inl ej ↦ rw (ei, ej, (rewritten2 _ _ ready2).1) (ground arith)
        | inr ej ↦
            let q = u8-btr (irq - 8) (dev log 0xA1) in
            rw (ei, ej, (rewritten2 _ _ ready2).0, q, q)
              (ground (arith, bt-btr (j - 8) (irq - 8) (u8 (dev log 0xA1))))
      ]
    ]

    -- On controllers that follow the data sheet, at 0x20 and 0xA0, with no initialisation under way:
    -- `IRQ_set_mask` masks the line `irq` of the sixteen, `IRQ_clear_mask` unmasks it, and both
    -- leave the other fifteen as they were.
    pub irq_masks_lem :
        (irq j : ℕ)
        → irq < 16
        → j < 16
        → (is_masked dev (irq_set_mask dev irq log) j ≡ ((j == irq) || is_masked dev log j))
          × (is_masked dev (irq_clear_mask dev irq log) j ≡ (not (j == irq) && is_masked dev log j))
    irq_masks_lem irq j hi hj = (irq_set_mask_lem irq j hi hj, irq_clear_mask_lem irq j hi hj)

  -- On controllers that follow the data sheet, at 0x20 and 0xA0, whatever was sent to them before:
  -- `PIC_remap` sends each all of its initialisation words, with its vector offset, its place in the
  -- cascade and the 8086 mode, leaves none of them waiting for more, and leaves the masks of all
  -- sixteen lines as they were.
  pub pic_remap_lem :
      (offset1 offset2 j : ℕ)
      → let after = pic_remap dev offset1 offset2 log in
        (init_of 0x20 0x21 after ≡ record { left = 0; words = 0x01 ∷ 4 ∷ u8 offset1 ∷ 0x11 ∷ [] })
        × (init_of 0xA0 0xA1 after ≡ record { left = 0; words = 0x01 ∷ 2 ∷ u8 offset2 ∷ 0x11 ∷ [] })
        × (is_masked dev after j ≡ is_masked dev log j)
  unfolding pic_remap
  pic_remap_lem offset1 offset2 j = (
    refl,
    refl,
    elim (Bool-cases (ltb j 8)) [
      | inl e ↦
          rw (e, pic.first.other _ 0xA1 _ (omega arith) (omega arith), pic.first.set _ _ refl)
            (ap (bt j) (u8_fix (dev log 0x21)))
      | inr e ↦
          rw (e, pic.second.set _ _ refl, pic.second.reads)
            (ap (bt (j - 8)) (u8_fix (dev log 0xA1)))
    ],
  )
