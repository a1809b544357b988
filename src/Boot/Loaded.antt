-- ===== src/Boot/Loaded.antt =====
-- What `init_boot` leaves in the task registers and in the shared table, whatever the order of the
-- cpus.
use bootcode.Base.{ℕ, ◌+◌, ◌*◌, ◌^◌, ◌≤◌, ◌≡◌, Bool, true, false, ◌||◌, ◌==◌, List, [], ◌∷◌}
use bootcode.Boot.{set_syscall_msrs}
use bootcode.Boot.Tables.{is_user_code, is_user_data}
use bootcode.Boot.Start.{Tables, Part, loads, fills}

abbrev pub has_filled : ℕ → List Part → Bool
has_filled id [] = false
has_filled id (loads j ∷ ps) = has_filled id ps
has_filled id (fills j ∷ ps) = (j == id) || has_filled id ps

module _ (tss_start addr : ℕ) (kern_stack : ℕ → ℕ) (fits : tss_start + 64 * 104 ≤ 2 ^ 64)
    (id : ℕ) where
  -- The entries below the descriptors, and the cpu's registers.
  record IsFilled (s : Tables) : Type 0 where
    user_code : is_user_code (s.gdt64_start 4) ≡ true
    user_data : is_user_data (s.gdt64_start 3) ≡ true
    calls : s.msrs id ≡ set_syscall_msrs addr
