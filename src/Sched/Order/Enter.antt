-- ===== src/Sched/Order/Enter.antt =====
-- A function is entered, and the graph is started anew.
use bootcode.Base.{
  ℕ, zero, suc, ◌/◌, ◌%◌, ◌≤◌, ◌<◌, ◌≡◌, refl, sym, ap, ◌∙◌, arith, Bool, true, false, not, ◌&&◌,
  ◌==◌, update, update_eq, update_ne, u8, List, [], ◌∷◌, length, get_or,
}
use native.Mathlib.Decide.{ℕ_discrete, dec_lt}
use bootcode.Bits.Laws.{bt-zero}
use bootcode.Claim.Word.{has}
use bootcode.Sched.State.{State, Machine, Metadata}
use bootcode.Sched.Queue.{add_runnable_fn}
use bootcode.Sched.Queue.Laws.{IsBitmap, has-add_bit, add_bit-IsBitmap}
use bootcode.Sched.Loop.{jump2fn, add_wait, load_in_counts, recover, restart, dispatch}
use bootcode.Sched.Loop.Work.{IsEmpty, restart-IsRestarted}
use bootcode.Sched.Order.{nobody, IsGraph, Carries, IsOrdered}

get_or-ge : (ws : List ℕ) (k : ℕ) → length ws ≤ k → get_or ws k 0 ≡ 0
get_or-ge [] k h = refl
get_or-ge (w ∷ ws) zero h = absurd (omega arith)
get_or-ge (w ∷ ws) (suc k) h = get_or-ge ws k (omega arith)

-- Beyond the four words no function is runnable.
has-beyond : (ws : List ℕ) (j : ℕ) → IsBitmap ws → 256 ≤ j → has ws j ≡ false
has-beyond ws j h ge = rw (get_or-ge ws (j / 64) (omega (arith, h))) (bt-zero (j % 64))

module _ (mach : Machine) (id : ℕ) (g : Metadata) where
  module _ (done started : ℕ → Bool) (s : State) (h : IsOrdered g done started s) where
    -- The function `fn`, taken out of the bitmap, is entered.
    pub dispatch-IsOrdered :
        (fn t1 : ℕ) (ws : List ℕ)
        → IsBitmap ws
        → has s.bm_run_fn fn ≡ true
        → ((i : ℕ) → has ws i ≡ (not (i == fn) && has s.bm_run_fn i))
        → IsOrdered g done
            (update started fn true)
            (dispatch mach id fn t1 (record s { bm_run_fn = ws }))
    unfolding dispatch add_wait jump2fn
    dispatch-IsOrdered fn t1 ws b is_set rest =
        let entered : (j : ℕ) → (fn == j) ≡ true → j ≡ fn = λ j e. ground arith in
        record {
          carries = record {
            dag = h.carries.dag;
            num_nodes = h.carries.num_nodes;
            start_func = h.carries.start_func;
            bitmap = b;
            bytes = h.carries.bytes;
          };
          counts = h.counts;
          waiting = λ j e.
              let (lt, z, st) = h.waiting j (ground (arith, rest j, e)) in
              (lt, z, update_ne started fn j true (ground (arith, rest j, e)) ∙ st);
          ready = λ j lt z. elim (ℕ_discrete fn j) [
            | yes q ↦ rw (update_eq started fn j true q) refl
            | no ne ↦
                rw (update_ne started fn j true ne) (ground (arith, rest j, h.ready j lt z, ne))
          ];
          begun = λ j e. elim (ℕ_discrete fn j) [
            | yes q ↦ let (lt, z, st) = h.waiting fn is_set in rw (sym q) (lt, z)
            | no ne ↦ h.begun j (sym (update_ne started fn j true ne) ∙ e)
          ];
          finished = λ j e. elim (ℕ_discrete fn j) [
            | yes q ↦ update_eq started fn j true q
            | no ne ↦ update_ne started fn j true ne ∙ h.finished j e
          ];
        }

  -- The rest of what `restart` leaves alone.
  record IsReloaded (s r : State) : Type 0 where
    dag : r.metadata.dag ≡ s.metadata.dag
    num_nodes : r.metadata.num_nodes ≡ s.metadata.num_nodes
    beyond :
        (j : ℕ) → s.metadata.num_nodes ≤ j → r.metadata.dag_in_count j ≡ s.metadata.dag_in_count j

  restart-IsReloaded : (s : State) → IsReloaded s (restart mach id s).0
  unfolding restart recover load_in_counts add_runnable_fn
  restart-IsReloaded s = record {
    dag = ground arith;
    num_nodes = ground arith;
    beyond = λ j ge. ground arith;
  }

  -- With nothing runnable, the restart leaves the start function runnable and nothing begun.
  pub restart-IsOrdered :
      (s : State)
      → IsGraph g
      → Carries g s
      → IsEmpty mach id s
      → IsOrdered g nobody nobody (restart mach id s).0
  restart-IsOrdered s graph h clear =
      let rs = restart-IsRestarted mach id s in
      let rl = restart-IsReloaded s in
      let small : s.metadata.start_func < 256 =
        omega (arith, h.start_func, graph.start, graph.nodes) in
      let only_start : (i : ℕ) → has (restart mach id s).0.bm_run_fn i ≡ (i == g.start_func) = λ i.
        let not_yet : has s.bm_run_fn i ≡ false = elim (dec_lt i 256) [
          | yes lt ↦ clear i lt
          | no ge ↦ has-beyond s.bm_run_fn i h.bitmap (omega arith)
        ] in
        rw rs.bm (
          ground (
            arith,
            has-add_bit s.bm_run_fn s.metadata.start_func i h.bitmap small,
            not_yet,
            h.start_func,
          )) in
      record {
        carries = record {
          dag = rl.dag ∙ h.dag;
          num_nodes = rl.num_nodes ∙ h.num_nodes;
          start_func = rs.start ∙ h.start_func;
          bitmap = rw rs.bm (add_bit-IsBitmap s.bm_run_fn s.metadata.start_func h.bitmap);
          bytes = λ j. elim (dec_lt j s.metadata.num_nodes) [
            | yes lt ↦ omega (arith, rs.counts j lt)
            | no ge ↦ omega (arith, rl.beyond j (omega arith), h.bytes j)
          ];
        };
        counts = λ j lt.
            rs.counts j (omega (arith, h.num_nodes, lt))
            ∙ ap (λ (d : ℕ → ℕ). u8 (d j)) h.dag
            ∙ graph.degrees j lt;
        waiting = λ j e.
            let at : j ≡ g.start_func = ground (arith, only_start j, e) in
            rw at (graph.start, graph.source, refl);
        ready = λ j lt z. only_start j ∙ ground (arith, graph.only j lt z);
        begun = λ j e. absurd (ground (arith, e));
        finished = λ j e. e;
      }
