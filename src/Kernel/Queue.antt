-- ===== src/Kernel/Queue.antt =====
-- The operations of kernel/lib/scheduler.c on a well-formed state.
use borfos.Common.{
  has-split, ℕ, ◌+◌, ◌^◌, ◌<◌, ◌≡◌, ◌≢◌, inl, inr, refl, sym, ◌∙◌, true, false, List, [], ◌∷◌, ◌++◌,
  has, u32, sub32, length, has-append, arith, ==_self, Bool-cases, IsDistinct, IsDistinct-middle,
}
use borfos.Links.{list_insert_before, list_remove, list_is_empty}
use borfos.Links.Ring.{Ring}
use borfos.Links.Remove.{list_is_empty_iff, list_is_empty-middle, list_remove-Ring}
use borfos.Links.Frame.{IsLinked, Ring-IsLinked}
use borfos.System.{System, queue_node, run_queue}
use borfos.Scheduler.{schedule_task, unschedule_task}
use borfos.Scheduler.Queue.{
  IsQueue, queue_nodes, queue_nodes-append, has-queue_nodes, schedule_task-append,
  schedule_task-queued, unschedule_task-remove,
}
use borfos.Kernel.{IsKernel, enqueue, delete}
use borfos.Kernel.Members.{
  delete-middle, delete-none, has-delete_other, IsDistinct-queue_nodes, length-members,
}
use borfos.Kernel.Edit.{list_insert_before-Keeps, list_remove-Keeps, IsSame, queue_edit}

module _ (callback : ℕ) (tasks : List ℕ) (s : System) (qs ts : List ℕ)
    (k : IsKernel callback tasks s qs ts) where
  distinct : IsDistinct qs
  distinct = IsDistinct-queue_nodes qs k.queue.ring.distinct.1

  -- There are no more tasks in the queue than there are tasks.
  pub room : length qs + 2 < 2 ^ 32
  room = omega (arith, length-members qs tasks distinct k.queued, k.layout.few)

  head-IsLinked : IsLinked s.links run_queue
  head-IsLinked =
      Ring-IsLinked s.links run_queue run_queue (queue_nodes qs) (ground arith) k.queue.ring

  pub node-IsLinked : (t : ℕ) → has t qs ≡ true → IsLinked s.links (queue_node t)
  node-IsLinked t h =
      Ring-IsLinked s.links run_queue (queue_node t) (queue_nodes qs)
        (ground (arith, has-queue_nodes t qs, h)) k.queue.ring

  added :
      (t : ℕ)
      → has t tasks ≡ true
      → has t qs ≡ false
      → IsKernel callback tasks (schedule_task t s) (qs ++ t ∷ []) ts
  added t m h =
      let lone = k.alone t m h in
      let e : list_is_empty s.links (queue_node t) ≡ true =
        (list_is_empty_iff s.links (queue_node t) [] lone).1 refl in
      let z : t ≢ 0 = λ w. omega (arith, w, k.layout.above t m) in
      let q = schedule_task-append s t qs z room lone h k.queue in
      let s' = record s {
        links = list_insert_before s.links run_queue (queue_node t);
        tasks_in_run_queue = u32 (s.tasks_in_run_queue + 1);
      } in
      let d : schedule_task t s ≡ s' = unfold schedule_task in rw e refl in
      rw d (
        queue_edit callback tasks s qs ts k t m s' (qs ++ t ∷ [])
          (list_insert_before-Keeps s.links run_queue (queue_node t) head-IsLinked) (rw d at q)
          (λ u n. ground (arith, has-append u qs (t ∷ []), n))
          (λ f. absurd (ground (arith, f, has-append t qs (t ∷ []), ==_self t)))
          (ground (arith, has-append s.current_task qs (t ∷ []), k.running)) (refl, refl, refl)
          refl)

  -- `schedule_task` of a task puts it at the end of the queue, unless it is in it.
  pub schedule_task-IsKernel :
      (t : ℕ) → has t tasks ≡ true → IsKernel callback tasks (schedule_task t s) (enqueue t qs) ts
  unfolding enqueue
  schedule_task-IsKernel t m = elim (Bool-cases (has t qs)) [
    | inl h ↦
        let (us, vs, e) = has-split t qs h in
        let q : IsQueue s (us ++ t ∷ vs) = rw e at k.queue in
        let same : schedule_task t s ≡ s = schedule_task-queued s t us vs q in rw h (rw same k)
    | inr h ↦ rw h (added t m h)
  ]

  -- A queue that is split at one of its tasks.
  pub deleted :
      (t : ℕ) (us vs : List ℕ)
      → qs ≡ us ++ t ∷ vs
      → (delete t qs ≡ us ++ vs) × (has t (us ++ vs) ≡ false)
  deleted t us vs e =
      let d : IsDistinct (us ++ t ∷ vs) = rw e at distinct in
      let f = IsDistinct-middle us t vs d in
      (rw e (delete-middle t us vs (ground (arith, f, has-append t us vs))), f)

  pub has-delete : (t : ℕ) → has t (delete t qs) ≡ false
  has-delete t = elim (Bool-cases (has t qs)) [
    | inr h ↦ rw (delete-none t qs h) h
    | inl h ↦ let (us, vs, e) = has-split t qs h in let (d, f) = deleted t us vs e in rw d f
  ]

  ring_at :
      (t : ℕ) (us vs : List ℕ)
      → qs ≡ us ++ t ∷ vs
      → Ring s.links run_queue (queue_nodes us ++ queue_node t ∷ queue_nodes vs)
  ring_at t us vs e = let r = rw e at k.queue.ring in rw (queue_nodes-append us (t ∷ vs)) at r

  not_alone :
      (t : ℕ) (us vs : List ℕ) → qs ≡ us ++ t ∷ vs → list_is_empty s.links (queue_node t) ≡ false
  not_alone t us vs e =
      list_is_empty-middle s.links run_queue (queue_node t) (queue_nodes us) (queue_nodes vs)
        (ring_at t us vs e)

  -- A task whose node is in no list is not in the queue, and the others are.
  pub is_queued : (t : ℕ) → has t qs ≡ true → list_is_empty s.links (queue_node t) ≡ false
  is_queued t h = let (us, vs, e) = has-split t qs h in not_alone t us vs e

  pub removed_ring :
      (t : ℕ) (us vs : List ℕ)
      → qs ≡ us ++ t ∷ vs
      → Ring (list_remove s.links (queue_node t)) run_queue (queue_nodes us ++ queue_nodes vs)
  removed_ring t us vs e =
      (list_remove-Ring s.links run_queue (queue_node t) (queue_nodes us) (queue_nodes vs)
        (ring_at t us vs e)).0

  -- Taking a task `t` that is in the queue out of it, into a state with the links that remain.
  pub taken :
      (t : ℕ) (s' : System)
      → has t qs ≡ true
      → s'.links ≡ list_remove s.links (queue_node t)
      → IsQueue s' (delete t qs)
      → Ring s'.links (queue_node t) []
      → has s'.current_task (delete t qs) ≡ true
      → IsSame s s'
      → s'.when ≡ s.when
      → IsKernel callback tasks s' (delete t qs) ts
  taken t s' h l q lone run e w =
      queue_edit callback tasks s qs ts k t (k.queued t h) s' (delete t qs)
        (λ a zs f g r.
          rw l (list_remove-Keeps s.links run_queue (queue_node t) (node-IsLinked t h) a zs f g r))
        q (λ u n. has-delete_other t u qs n) (λ f. lone) run e w

  -- `unschedule_task` of a task that does not run takes it out of the queue, if it is in it.
  pub unschedule_task-IsKernel :
      (t : ℕ)
      → has t tasks ≡ true
      → t ≢ s.current_task
      → IsKernel callback tasks (unschedule_task t s) (delete t qs) ts
  unschedule_task-IsKernel t m other = elim (Bool-cases (has t qs)) [
    | inr h ↦
        let e : list_is_empty s.links (queue_node t) ≡ true =
          (list_is_empty_iff s.links (queue_node t) [] (k.alone t m h)).1 refl in
        let d : unschedule_task t s ≡ s = unfold unschedule_task in rw e refl in
        rw (delete-none t qs h) (rw d k)
    | inl h ↦
        let (us, vs, e) = has-split t qs h in
        let (d, f) = deleted t us vs e in
        let q : IsQueue s (us ++ t ∷ vs) = rw e at k.queue in
        let (q', lone) = unschedule_task-remove s t us vs q in
        let n : list_is_empty s.links (queue_node t) ≡ false = not_alone t us vs e in
        let s' = record s {
          links = list_remove s.links (queue_node t);
          tasks_in_run_queue = sub32 s.tasks_in_run_queue 1;
        } in
        let w : unschedule_task t s ≡ s' = unfold unschedule_task in rw n refl in
        let r = has-delete_other t s.current_task qs (λ z. other (sym z)) in
        rw w (
          taken t s' h refl (rw d (rw w at q')) (rw w at lone) (r ∙ k.running) (refl, refl, refl)
            refl)
  ]
