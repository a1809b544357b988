-- ===== src/Boot/Task.antt =====
-- The task register of a cpu after `init_boot`: the two words of its own descriptor.
use bootcode.Base.{
  ℕ, ◌+◌, ◌*◌, ◌/◌, ◌%◌, ◌^◌, ◌≤◌, ◌<◌, ◌≡◌, ◌≢◌, refl, ap, ◌∙◌, arith, Bool, true, false, ◌||◌,
  ◌==◌, ==_iff, List, [], ◌∷◌, update, update_eq, update_ne, u16, u64, ◌<<<◌,
}
use native.Mathlib.Decide.{ℕ_discrete}
use bootcode.Boot.{TssEntry, SysDesc, sizeof_tss, fill_tss, GdtEntry, raw, code, sdata}
use bootcode.Boot.Start.{
  low_word, high_word, Tables, flush_tss, fill_own_tss, load_tss, fill_user, Part, loads, fills,
  boot,
}

abbrev pub bits_of : GdtEntry → ℕ
bits_of (raw bits) = bits
bits_of (code view) = 0
bits_of (sdata view) = 0

-- The base, the limit and the kind that the processor reads from the two words of a descriptor.
abbrev pub task_base : GdtEntry × GdtEntry → ℕ
task_base (lo, hi) =
    bits_of lo / 2 ^ 16 % 2 ^ 24
    + bits_of lo / 2 ^ 56 % 2 ^ 8 * 2 ^ 24
    + bits_of hi % 2 ^ 32 * 2 ^ 32

abbrev pub task_limit : GdtEntry × GdtEntry → ℕ
task_limit (lo, hi) = bits_of lo % 2 ^ 16 + bits_of lo / 2 ^ 48 % 2 ^ 4 * 2 ^ 16

-- Present, for privilege 0, and the type of an available task state segment.
abbrev pub is_free_task : GdtEntry × GdtEntry → Bool
is_free_task (lo, hi) = bits_of lo / 2 ^ 40 % 2 ^ 8 == 0x89

abbrev pub AreCpus : List Part → Type 0
AreCpus [] = Unit
AreCpus (loads j ∷ ps) = (j < 64) × AreCpus ps
AreCpus (fills j ∷ ps) = (j < 64) × AreCpus ps

abbrev pub has_loaded : ℕ → List Part → Bool
has_loaded id [] = false
has_loaded id (loads j ∷ ps) = (j == id) || has_loaded id ps
has_loaded id (fills j ∷ ps) = has_loaded id ps

module _ (tss_start addr : ℕ) (kern_stack : ℕ → ℕ) (fits : tss_start + 64 * 104 ≤ 2 ^ 64)
    (id : ℕ) where
  -- The cpu's task register names its own segment, which has its own stack.
  pub record IsLoaded (s : Tables) : Type 0 where
    pub base : task_base (s.task id) ≡ tss_start + id * sizeof_tss
    pub limit : task_limit (s.task id) ≡ 103
    pub free : is_free_task (s.task id) ≡ true
    pub stack : (s.tss_seg id).rsp0 ≡ kern_stack id

  abbrev own_tss : TssEntry × SysDesc
  own_tss = fill_tss (tss_start + id * sizeof_tss) (kern_stack id)

  abbrev own_words : GdtEntry × GdtEntry
  own_words = (raw (low_word own_tss.1), raw (high_word own_tss.1))

  words_read :
      id < 64
      → (task_base own_words ≡ tss_start + id * sizeof_tss)
        × (task_limit own_words ≡ 103)
        × (is_free_task own_words ≡ true)
  unfolding fill_tss
  words_read h =
      let kind : bits_of own_words.0 / 2 ^ 40 % 2 ^ 8 ≡ 0x89 = omega arith in
      (omega arith, omega arith, (==_iff (bits_of own_words.0 / 2 ^ 40 % 2 ^ 8) 0x89).1 kind)

  own_entries :
      (s : Tables)
      → let t = fill_own_tss tss_start addr kern_stack id s in
        (t.gdt64_start (id + 5) ≡ own_words.0) × (t.gdt64_start (id + 6) ≡ own_words.1)
  unfolding fill_own_tss
  own_entries s =
      let gdt = update s.gdt64_start (id + 5) own_words.0 in
      (
        update_ne gdt (id + 6) (id + 5) own_words.1 (omega arith)
            ∙ update_eq s.gdt64_start (id + 5) (id + 5) own_words.0 refl,
        update_eq gdt (id + 6) (id + 6) own_words.1 refl,
      )

  task-flush_tss :
      (s : Tables)
      → id < 64
      → (flush_tss id s).task id ≡ (s.gdt64_start (id + 5), s.gdt64_start (id + 6))
  unfolding flush_tss
  task-flush_tss s h =
      let i : u16 (u64 (id + 5) <<< 3) / 8 ≡ id + 5 = omega arith in
      let j : id + 5 + 1 ≡ id + 6 = omega arith in
      rw (i, j) (update_eq s.task id id (s.gdt64_start (id + 5), s.gdt64_start (id + 6)) refl)

  tss_seg-flush_tss : (j : ℕ) (s : Tables) → (flush_tss j s).tss_seg id ≡ s.tss_seg id
  unfolding flush_tss
  tss_seg-flush_tss j s = refl

  own_stack :
      (s : Tables) → ((fill_own_tss tss_start addr kern_stack id s).tss_seg id).rsp0 ≡ kern_stack id
  unfolding fill_own_tss fill_tss
  own_stack s = ap (λ t. t.rsp0) (update_eq s.tss_seg id id own_tss.0 refl)

  own : (s : Tables) → id < 64 → IsLoaded (load_tss tss_start addr kern_stack id s)
  unfolding load_tss
  own s lt =
      let t = fill_own_tss tss_start addr kern_stack id s in
      let e = own_entries s in
      let q : (flush_tss id t).task id ≡ own_words = rw (task-flush_tss t lt, e.0, e.1) refl in
      let r = words_read lt in
      record {
        base = ap task_base q ∙ r.0;
        limit = ap task_limit q ∙ r.1;
        free = ap is_free_task q ∙ r.2;
        stack = ap (λ g. g.rsp0) (tss_seg-flush_tss id t) ∙ own_stack s;
      }

  other :
      (j : ℕ) (s : Tables) → j ≢ id → IsLoaded s → IsLoaded (load_tss tss_start addr kern_stack j s)
  unfolding load_tss flush_tss fill_own_tss
  other j s ne h =
      let q : (load_tss tss_start addr kern_stack j s).task id ≡ s.task id =
        update_ne s.task j id _ ne in
      let r : (load_tss tss_start addr kern_stack j s).tss_seg id ≡ s.tss_seg id =
        update_ne s.tss_seg j id _ ne in
      record {
        base = ap task_base q ∙ h.base;
        limit = ap task_limit q ∙ h.limit;
        free = ap is_free_task q ∙ h.free;
        stack = ap (λ g. g.rsp0) r ∙ h.stack;
      }

  filled : (j : ℕ) (s : Tables) → IsLoaded s → IsLoaded (fill_user tss_start addr kern_stack j s)
  unfolding fill_user
  filled j s h = record { base = h.base; limit = h.limit; free = h.free; stack = h.stack }

  pub boot-IsLoaded :
      (ps : List Part) (s : Tables)
      → AreCpus ps
      → (has_loaded id ps ≡ false → IsLoaded s)
      → IsLoaded (boot tss_start addr kern_stack ps s)
  unfolding boot
  boot-IsLoaded [] s c h = h refl
  boot-IsLoaded (loads j ∷ ps) s c h =
      boot-IsLoaded ps (load_tss tss_start addr kern_stack j s) c.1 (λ e. elim (ℕ_discrete j id) [
        | yes q ↦ rw q (own s (omega (arith, c.0, q)))
        | no ne ↦ other j s ne (h (ground (arith, e, ne)))
      ])
  boot-IsLoaded (fills j ∷ ps) s c h =
      boot-IsLoaded ps (fill_user tss_start addr kern_stack j s) c.1 (λ e. filled j s (h e))
