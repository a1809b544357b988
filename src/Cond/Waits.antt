-- ===== src/Cond/Waits.antt =====
-- The invariant of the condition through the steps of `cond_wait`.
use bootcode.Base.{
  ℕ, ◌-◌, ◌<◌, ◌≡◌, ◌≢◌, refl, sym, ap, ◌∙◌, arith, Bool, true, false, ◌==◌, inl, inr, Bool-cases,
  update, update_eq, update_ne,
}
use mathlib.Core.Path.{subst, fun_ext}
use native.Mathlib.Decide.{ℕ_discrete}
use bootcode.Bits.{bt, bts, btr}
use bootcode.Bits.Laws.{bt-bts, bt-btr}
use bootcode.Cond.{
  retry_count, still_kicked, interrupted, Waiter, outside, check_v, hlt_path, halted, woken,
  skip_hlt, Setter, idle, test, compare, hint, copy, kicks, done, System, wait_step, interrupt,
}
use bootcode.Cond.Sound.{
  is_intent, is_marked, is_early, is_halted, is_stored, Ensures, IsSound, moved, stays,
}

module _ (v : ℕ) where
  -- As long as another value is seen, nothing is stored.
  unstored :
      (st : Setter) (id c : ℕ) (w : Waiter) (kick : Bool)
      → (is_stored st ≡ true → c ≡ v)
      → c ≢ v
      → Ensures st id w kick
  unstored idle id c w kick h ne = tt
  unstored test id c w kick h ne = absurd (ne (h refl))
  unstored (compare intent) id c w kick h ne = absurd (ne (h refl))
  unstored hint id c w kick h ne = absurd (ne (h refl))
  unstored copy id c w kick h ne = absurd (ne (h refl))
  unstored (kicks left) id c w kick h ne = absurd (ne (h refl))
  unstored done id c w kick h ne = absurd (ne (h refl))

  -- A step that does not lead to `hlt_path`, and to `hlt` only from there or from `hlt`.
  Ensures-step :
      (st : Setter) (id : ℕ) (w w' : Waiter) (kick kick' : Bool)
      → Ensures st id w kick
      → is_early w' ≡ false
      → (is_halted w' ≡ true
          → is_early w ≡ false
          → is_halted w ≡ true × (kick ≡ true → kick' ≡ true))
      → Ensures st id w' kick'
  Ensures-step idle id w w' kick kick' en ne to = en
  Ensures-step test id w w' kick kick' en ne to = en
  Ensures-step (compare intent) id w w' kick kick' en ne to = λ e. absurd (ground (arith, e, ne))
  Ensures-step hint id w w' kick kick' en ne to = en
  Ensures-step copy id w w' kick kick' en ne to = ne
  Ensures-step (kicks left) id w w' kick kick' (f, k) ne to =
      (ne, λ e. let (hw, keep) = to e f in ground (arith, k hw, keep))
  Ensures-step done id w w' kick kick' (f, k) ne to =
      (ne, λ e. let (hw, keep) = to e f in keep (k hw))

  other_bts : (n x id : ℕ) → n ≢ id → bt id (bts n x) ≡ bt id x
  other_bts n x id ne = ground (arith, bt-bts id n x, ne)

  other_btr : (n x id : ℕ) → n ≢ id → bt id (btr n x) ≡ bt id x
  other_btr n x id ne = ground (arith, bt-btr id n x, ne)

  own_bts : (n x : ℕ) → bt n (bts n x) ≡ true
  own_bts n x = ground (arith, bt-bts n n x)

  own_btr : (n x : ℕ) → bt n (btr n x) ≡ false
  own_btr n x = ground (arith, bt-btr n n x)

  pub wait_step-IsSound :
      (s : System) (me : ℕ) (w : Waiter)
      → me < 64
      → s.at me ≡ w
      → IsSound v s
      → IsSound v (record s {
        cond = (wait_step v me s.cond (s.kicked me) w).0;
        at = update s.at me (wait_step v me s.cond (s.kicked me) w).1;
        kicked = update s.kicked me (still_kicked w (s.kicked me));
      })
  unfolding wait_step
  wait_step-IsSound s me outside lt e h =
      let c = s.cond in
      moved v s me (record c { intent_cpus = bts me c.intent_cpus }) (check_v retry_count)
        (s.kicked me) h refl (λ id l ne. other_bts me c.intent_cpus id ne) (λ id l ne. refl)
        (own_bts me c.intent_cpus) (h.waiting me lt ∙ ap is_marked e)
        (Ensures-step s.setter me (s.at me) (check_v retry_count) (s.kicked me) (s.kicked me)
          (h.ensured me lt) refl (λ q. absurd (ground (arith, q))))
  wait_step-IsSound s me (check_v n) lt e h =
      let same : (w : Waiter)
          → is_early w ≡ false
          → is_halted w ≡ false
          → Ensures s.setter me w (s.kicked me) =
        λ w no nh.
          Ensures-step s.setter me (s.at me) w (s.kicked me) (s.kicked me) (h.ensured me lt) no
            (λ q. absurd (ground (arith, q, nh))) in
      elim (Bool-cases (s.cond.c == v)) [
        | inl q ↦ rw q (
            stays v s me skip_hlt (s.kicked me) lt h (ap is_intent e) (ap is_marked e)
              (same skip_hlt refl refl))
        | inr q ↦ elim (Bool-cases (n == 0)) [
          | inl z ↦
              rw (q, z)
                (stays v s me hlt_path (s.kicked me) lt h (ap is_intent e) (ap is_marked e) (
                  unstored s.setter me s.cond.c hlt_path (s.kicked me) h.stored
                    (ground (arith, q))))
          | inr z ↦
              rw (q, z)
                (stays v s me (check_v (n - 1)) (s.kicked me) lt h (ap is_intent e) (ap is_marked e)
                  (same (check_v (n - 1)) refl refl))
        ]
      ]
  wait_step-IsSound s me hlt_path lt e h =
      let c = s.cond in
      moved v s me (record c { waiting_cpus = bts me c.waiting_cpus }) halted (s.kicked me) h refl
        (λ id l ne. refl) (λ id l ne. other_bts me c.waiting_cpus id ne)
        (h.intent me lt ∙ ap is_intent e) (own_bts me c.waiting_cpus)
        (Ensures-step s.setter me (s.at me) halted (s.kicked me) (s.kicked me) (h.ensured me lt)
          refl (λ q f. absurd (ground (arith, ap is_early e, f))))
  wait_step-IsSound s me halted lt e h = elim (Bool-cases (s.kicked me)) [
    | inl q ↦ rw q (
        stays v s me woken false lt h (ap is_intent e) (ap is_marked e) (
          Ensures-step s.setter me (s.at me) woken (s.kicked me) false (h.ensured me lt) refl
            (λ r. absurd (ground (arith, r)))))
    | inr q ↦ rw q (
        stays v s me halted false lt h (ap is_intent e) (ap is_marked e) (
          Ensures-step s.setter me (s.at me) halted (s.kicked me) false (h.ensured me lt) refl
            (λ r f. (ap is_halted e, λ k. sym q ∙ k))))
  ]
  wait_step-IsSound s me woken lt e h =
      let c = s.cond in
      moved v s me (record c { waiting_cpus = btr me c.waiting_cpus }) (check_v 0) (s.kicked me) h
        refl (λ id l ne. refl) (λ id l ne. other_btr me c.waiting_cpus id ne)
        (h.intent me lt ∙ ap is_intent e) (own_btr me c.waiting_cpus)
        (Ensures-step s.setter me (s.at me) (check_v 0) (s.kicked me) (s.kicked me)
          (h.ensured me lt) refl (λ q. absurd (ground (arith, q))))
  wait_step-IsSound s me skip_hlt lt e h =
      let c = s.cond in
      moved v s me (record c { intent_cpus = btr me c.intent_cpus }) outside (s.kicked me) h refl
        (λ id l ne. other_btr me c.intent_cpus id ne) (λ id l ne. refl) (own_btr me c.intent_cpus)
        (h.waiting me lt ∙ ap is_marked e)
        (Ensures-step s.setter me (s.at me) outside (s.kicked me) (s.kicked me) (h.ensured me lt)
          refl (λ q. absurd (ground (arith, q))))

  -- Another place for a cpu that uses no kick up.
  update_id : (f : ℕ → Bool) (i j : ℕ) → update f i (f i) j ≡ f j
  update_id f i j = elim (ℕ_discrete i j) [
    | yes q ↦ update_eq f i j (f i) q ∙ ap f q
    | no ne ↦ update_ne f i j (f i) ne
  ]

  idles :
      (s : System) (me : ℕ) (w : Waiter)
      → me < 64
      → s.at me ≡ w
      → IsSound v s
      → IsSound v (record s { at = update s.at me w; kicked = update s.kicked me (s.kicked me) })
  idles s me w lt e h =
      stays v s me w (s.kicked me) lt h (ap is_intent e) (ap is_marked e)
        (subst (λ w. Ensures s.setter me w (s.kicked me)) e (h.ensured me lt))

  interrupted-IsSound :
      (s : System) (me : ℕ) (w : Waiter)
      → me < 64
      → s.at me ≡ w
      → IsSound v s
      → IsSound v (record s {
        at = update s.at me (interrupted w);
        kicked = update s.kicked me (s.kicked me);
      })
  interrupted-IsSound s me halted lt e h =
      stays v s me woken (s.kicked me) lt h (ap is_intent e) (ap is_marked e) (
        Ensures-step s.setter me (s.at me) woken (s.kicked me) (s.kicked me) (h.ensured me lt) refl
          (λ q. absurd (ground (arith, q))))
  interrupted-IsSound s me outside lt e h = idles s me outside lt e h
  interrupted-IsSound s me (check_v n) lt e h = idles s me (check_v n) lt e h
  interrupted-IsSound s me hlt_path lt e h = idles s me hlt_path lt e h
  interrupted-IsSound s me woken lt e h = idles s me woken lt e h
  interrupted-IsSound s me skip_hlt lt e h = idles s me skip_hlt lt e h

  pub interrupt-IsSound : (s : System) (me : ℕ) → me < 64 → IsSound v s → IsSound v (interrupt me s)
  unfolding interrupt
  interrupt-IsSound s me lt h =
      subst (λ k. IsSound v (record s { at = update s.at me (interrupted (s.at me)); kicked = k }))
        (fun_ext (update_id s.kicked me)) (interrupted-IsSound s me (s.at me) lt refl h)
