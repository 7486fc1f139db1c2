-- ===== src/Kernel/Switch.antt =====
-- `giveup_cpu` and `unschedule` on a well-formed state.
use borfos.Common.{
  has-split, ℕ, ◌≡◌, ◌≢◌, refl, ◌∙◌, true, List, [], ◌∷◌, ◌++◌, has, has-append, arith, ==_self,
}
use mathlib.Core.List.{append_assoc}
use borfos.Links.{Links, list_insert_before, list_remove}
use borfos.Links.Frame.{Ring-IsLinked}
use borfos.System.{System, queue_node, run_queue}
use borfos.Scheduler.{giveup_cpu, unschedule, schedule, next_task}
use borfos.Scheduler.Queue.{
  IsQueue, queue_nodes, giveup_cpu-rotate, giveup_cpu-IsSwitch, unschedule-remove,
  unschedule-IsSwitch,
}
use borfos.Kernel.{IsKernel, delete}
use borfos.Kernel.Members.{has-delete_other}
use borfos.Kernel.Edit.{list_insert_before-Keeps, list_remove-Keeps, queue_edit}
use borfos.Kernel.Queue.{deleted, removed_ring, node-IsLinked, taken}

abbrev giveup_links : System → ℕ → Links
giveup_links s c = list_insert_before (list_remove s.links (queue_node c)) run_queue (queue_node c)

module _ (callback : ℕ) (tasks : List ℕ) (s : System) (qs ts : List ℕ)
    (k : IsKernel callback tasks s qs ts) where
  not_empty : (t : ℕ) (us vs : List ℕ) → (w : ℕ) × (ws : List ℕ) × (us ++ (vs ++ t ∷ []) ≡ w ∷ ws)
  not_empty t [] [] = (t, [], refl)
  not_empty t [] (v ∷ vs) = (v, vs ++ t ∷ [], refl)
  not_empty t (u ∷ us) vs = (u, us ++ (vs ++ t ∷ []), refl)

  some_first : (xs : List ℕ) (t : ℕ) → has t xs ≡ true → (w : ℕ) × (ws : List ℕ) × (xs ≡ w ∷ ws)
  some_first [] t h = cc
  some_first (x ∷ xs) t h = (x, xs, refl)

  -- `giveup_cpu` moves the running task to the end of the queue.
  pub giveup_cpu-IsKernel :
      IsKernel callback tasks (giveup_cpu s) (delete s.current_task qs ++ s.current_task ∷ []) ts
  giveup_cpu-IsKernel =
      let c = s.current_task in
      let (us, vs, e) = has-split c qs k.running in
      let (d, f) = deleted callback tasks s qs ts k c us vs e in
      let q : IsQueue s (us ++ c ∷ vs) = rw e at k.queue in
      let (w, ws, n) = not_empty c us vs in
      let n' : (us ++ vs) ++ c ∷ [] ≡ w ∷ ws = append_assoc us vs (c ∷ []) ∙ n in
      let run = (giveup_cpu-IsSwitch s us vs q w ws n').1 in
      let r = removed_ring callback tasks s qs ts k c us vs e in
      let m = k.queued c k.running in
      let i =
        Ring-IsLinked (list_remove s.links (queue_node c)) run_queue run_queue
          (queue_nodes us ++ queue_nodes vs) (ground arith) r in
      let moved : giveup_links s c ≡ (giveup_cpu s).links =
        unfold giveup_cpu schedule next_task in refl in
      let first : has w (delete c qs ++ c ∷ []) ≡ true = rw (d, n') (ground (arith, ==_self w)) in
      queue_edit callback tasks s qs ts k c m (giveup_cpu s) (delete c qs ++ c ∷ [])
        (λ a zs g h z. rw (← moved) (
          list_insert_before-Keeps (list_remove s.links (queue_node c)) run_queue (queue_node c) i a
            zs g h
            (list_remove-Keeps s.links run_queue (queue_node c)
              (node-IsLinked callback tasks s qs ts k c k.running) a zs g h z)))
        (rw d (giveup_cpu-rotate s us vs q))
        (λ u o. ground (arith, has-append u (delete c qs) (c ∷ []), has-delete_other c u qs o, o))
        (λ z. absurd (ground (arith, z, has-append c (delete c qs) (c ∷ []), ==_self c)))
        (rw run first) (unfold giveup_cpu schedule next_task in (refl, refl, refl))
        (unfold giveup_cpu schedule next_task in refl)

  -- `unschedule` takes the running task out of the queue, if another one is in it.
  pub unschedule-IsKernel :
      (t : ℕ)
      → has t qs ≡ true
      → t ≢ s.current_task
      → IsKernel callback tasks (unschedule s) (delete s.current_task qs) ts
  unschedule-IsKernel t h o =
      let c = s.current_task in
      let (us, vs, e) = has-split c qs k.running in
      let (d, f) = deleted callback tasks s qs ts k c us vs e in
      let q : IsQueue s (us ++ c ∷ vs) = rw e at k.queue in
      let (q', lone) = unschedule-remove s us vs q in
      let there : has t (us ++ vs) ≡ true = rw d at (has-delete_other c t qs o ∙ h) in
      let (w, ws, n) = some_first (us ++ vs) t there in
      let run = (unschedule-IsSwitch s us vs q w ws n).1 in
      let first : has w (delete c qs) ≡ true = rw (d, n) (ground (arith, ==_self w)) in
      taken callback tasks s qs ts k c (unschedule s) k.running
        (unfold unschedule schedule next_task in refl) (rw d q') lone (rw run first)
        (unfold unschedule schedule next_task in (refl, refl, refl))
        (unfold unschedule schedule next_task in refl)
