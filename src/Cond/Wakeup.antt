-- ===== src/Cond/Wakeup.antt =====
-- The cpus in `cond_wait` when `cond_set` is at its end.
use bootcode.Base.{
  ℕ, suc, ◌+◌, ◌≤◌, ◌<◌, ◌≡◌, ◌≢◌, refl, sym, ap, ◌∙◌, arith, true, false, List, [], ◌∷◌,
  if◌then◌else◌, ◌==◌, ==_iff, update_eq, update_ne,
}
use mathlib.Core.Path.{subst}
use native.Mathlib.Decide.{ℕ_discrete}
use bootcode.Cond.{
  Waiter, outside, check_v, hlt_path, halted, woken, skip_hlt, done, System, wait_step, wait_move,
  still_kicked, Reachable,
}
use bootcode.Cond.Sound.{is_early, is_halted, Ensures}
use bootcode.Cond.Sets.{Reachable-IsSound}

-- The steps of a cpu until it is outside, when the value is there and its kick is pending.
abbrev pub steps_left : Waiter → ℕ
steps_left outside = 0
steps_left skip_hlt = 1
steps_left (check_v n) = 2
steps_left woken = 3
steps_left halted = 4
steps_left hlt_path = 5

-- The steps of `cond_wait` by the cpus of the list, the first first.
unfoldable pub all_moves : ℕ → List ℕ → System → System
all_moves v [] s = s
all_moves v (id ∷ ids) s = all_moves v ids (wait_move v id s)

unfoldable pub turns : ℕ → List ℕ → ℕ
turns id [] = 0
turns id (j ∷ ids) = (if j == id then 1 else 0) + turns id ids

module _ (v id : ℕ) where
  -- The cpu sees the value, and its halt ends.
  record IsFree (s : System) : Type 0 where
    value : s.cond.c ≡ v
    late : is_early (s.at id) ≡ false
    kick : is_halted (s.at id) ≡ true → s.kicked id ≡ true

  free : (s : System) → Reachable v s → s.setter ≡ done → id < 64 → IsFree s
  free s r d lt =
      let h = Reachable-IsSound v r in
      let en : Ensures done id (s.at id) (s.kicked id) =
        subst (λ st. Ensures st id (s.at id) (s.kicked id)) d (h.ensured id lt) in
      record { value = h.stored (rw d refl); late = en.0; kick = en.1 }

  -- A step of the cpu itself.
  own :
      (s : System) (w : Waiter)
      → s.at id ≡ w
      → IsFree s
      → w ≢ outside
      → suc (steps_left (wait_step v id s.cond (s.kicked id) w).1) ≡ steps_left w
        × is_early (wait_step v id s.cond (s.kicked id) w).1 ≡ false
        × is_halted (wait_step v id s.cond (s.kicked id) w).1 ≡ false
        × (wait_step v id s.cond (s.kicked id) w).0.c ≡ v
  unfolding wait_step
  own s outside e h ne = absurd (ne refl)
  own s (check_v n) e h ne = rw ((==_iff s.cond.c v).1 h.value) (refl, refl, refl, h.value)
  own s hlt_path e h ne = absurd (ground (arith, ap is_early e, h.late))
  own s halted e h ne = rw (h.kick (ap is_halted e)) (refl, refl, refl, h.value)
  own s woken e h ne = (refl, refl, refl, h.value)
  own s skip_hlt e h ne = (refl, refl, refl, h.value)

  -- A step of any cpu leaves the value.
  value_kept :
      (j : ℕ) (s : System) (w : Waiter) → (wait_step v j s.cond (s.kicked j) w).0.c ≡ s.cond.c
  unfolding wait_step
  value_kept j s outside = refl
  value_kept j s (check_v n) = refl
  value_kept j s hlt_path = refl
  value_kept j s halted = refl
  value_kept j s woken = refl
  value_kept j s skip_hlt = refl

  own_move :
      (s : System)
      → IsFree s
      → s.at id ≢ outside
      → IsFree (wait_move v id s)
        × suc (steps_left ((wait_move v id s).at id)) ≡ steps_left (s.at id)
  unfolding wait_move
  own_move s h ne =
      let (less, late, gone, val) = own s (s.at id) refl h ne in
      let next = (wait_step v id s.cond (s.kicked id) (s.at id)).1 in
      let q = update_eq s.at id id next refl in
      (
        record {
          value = val;
          late = ap is_early q ∙ late;
          kick = λ e. absurd (ground (arith, ap is_halted q ∙ gone, e));
        },
        ap (λ w. suc (steps_left w)) q ∙ less,
      )

  other_move :
      (s : System) (j : ℕ)
      → IsFree s
      → j ≢ id
      → IsFree (wait_move v j s) × (wait_move v j s).at id ≡ s.at id
  unfolding wait_move
  other_move s j h ne =
      let next = (wait_step v j s.cond (s.kicked j) (s.at j)).1 in
      let q = update_ne s.at j id next ne in
      (
        record {
          value = value_kept j s (s.at j) ∙ h.value;
          late = ap is_early q ∙ h.late;
          kick = λ e.
              update_ne s.kicked j id (still_kicked (s.at j) (s.kicked j)) ne
              ∙ h.kick (sym (ap is_halted q) ∙ e);
        },
        q,
      )

  outside_of_zero : (w : Waiter) → 0 ≡ steps_left w → w ≡ outside
  outside_of_zero outside e = refl
  outside_of_zero (check_v n) e = absurd (omega (arith, e))
  outside_of_zero hlt_path e = absurd (omega (arith, e))
  outside_of_zero halted e = absurd (omega (arith, e))
  outside_of_zero woken e = absurd (omega (arith, e))
  outside_of_zero skip_hlt e = absurd (omega (arith, e))

  run_leaves :
      (ids : List ℕ) (s : System)
      → IsFree s
      → turns id ids ≡ steps_left (s.at id)
      → (all_moves v ids s).at id ≡ outside
  unfolding all_moves turns
  run_leaves [] s h e = outside_of_zero (s.at id) e
  run_leaves (j ∷ ids) s h e = elim (ℕ_discrete j id) [
    | yes q ↦
        let t : turns id (j ∷ ids) ≡ suc (turns id ids) = ground (arith, q) in
        let m = own_move s h (λ o. absurd (omega (arith, t, e, ap steps_left o))) in
        subst (λ k. (all_moves v ids (wait_move v k s)).at id ≡ outside) (sym q)
          (run_leaves ids (wait_move v id s) m.0 (omega (arith, t, e, m.1)))
    | no ne ↦
        let t : turns id (j ∷ ids) ≡ turns id ids = ground (arith, ne) in
        let m = other_move s j h ne in
        run_leaves ids (wait_move v j s) m.0 (sym t ∙ e ∙ ap steps_left (sym m.1))
  ]

  few : (w : Waiter) → is_early w ≡ false → steps_left w ≤ 4
  few outside e = omega arith
  few (check_v n) e = omega arith
  few hlt_path e = absurd (ground (arith, e))
  few halted e = omega arith
  few woken e = omega arith
  few skip_hlt e = omega arith

-- At the end of a `cond_set` whose store is visible at once.
pub set-wakes :
    (v id : ℕ) (s : System)
    → Reachable v s
    → s.setter ≡ done
    → id < 64
    → s.cond.c ≡ v × s.at id ≢ hlt_path × (s.at id ≡ halted → s.kicked id ≡ true)
set-wakes v id s r d lt =
    let f = free v id s r d lt in
    (f.value, λ e. absurd (ground (arith, ap is_early e, f.late)), λ e. f.kick (ap is_halted e))

-- The steps that a waiting cpu needs then.
pub wait-leaves :
    (v id : ℕ) (ids : List ℕ) (s : System)
    → Reachable v s
    → s.setter ≡ done
    → id < 64
    → turns id ids ≡ steps_left (s.at id)
    → steps_left (s.at id) ≤ 4 × (all_moves v ids s).at id ≡ outside
wait-leaves v id ids s r d lt e =
    let f = free v id s r d lt in (few v id (s.at id) f.late, run_leaves v id ids s f e)
