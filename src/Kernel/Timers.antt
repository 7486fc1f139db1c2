-- ===== src/Kernel/Timers.antt =====
-- The operations of kernel/lib/timers.c on a well-formed state.
use borfos.Common.{
  has-split, ℕ, ◌<◌, ◌≡◌, inl, inr, refl, true, false, List, [], ◌∷◌, ◌++◌, has, length, has-append,
  arith, ==_self, Bool-cases, if◌then◌else◌, IsDistinct, IsDistinct-middle,
}
use borfos.Links.{list_insert_before, list_remove, list_is_empty}
use borfos.Links.Ring.{Ring}
use borfos.Links.Remove.{list_is_empty_iff, list_is_empty-middle, list_remove-Ring}
use borfos.Links.Frame.{Ring-IsLinked}
use borfos.System.{System, ok, task_timer, timers}
use borfos.Timers.{
  timer_register, timer_unregister, timer_backend_set, timer_is_registered, register_before,
}
use borfos.Timers.Sorted.{
  IsSorted, IsTimers, insert_timer-IsSorted, insert_timer-cons, find_later-Ring, first_when,
  remove-IsSorted,
}
use borfos.Kernel.{IsKernel, timer_nodes, insert_task, delete}
use borfos.Kernel.Members.{
  delete-middle, delete-none, has-delete_other, IsDistinct-timer_nodes, length-timer_nodes,
  has-timer_nodes, timer_nodes-append, timer_nodes-insert_task, has-insert_task,
}
use borfos.Kernel.Edit.{list_insert_before-Keeps, list_remove-Keeps, IsSame, timer_edit}

module _ (callback : ℕ) (tasks : List ℕ) (s : System) (qs ts : List ℕ)
    (k : IsKernel callback tasks s qs ts) where
  pub IsDistinct-timers : IsDistinct ts
  IsDistinct-timers = IsDistinct-timer_nodes ts k.timers_in.ring.distinct.1

  fresh :
      (t : ℕ)
      → has t tasks ≡ true
      → has t ts ≡ false
      → has (task_timer t) (timers ∷ timer_nodes ts) ≡ false
  fresh t m h = ground (arith, has-timer_nodes t ts, h, k.layout.above t m)

  -- What a registration of the timer of `t` leaves.
  pub record IsRegistered (t : ℕ) (s' : System) : Type 0 where
    pub kernel : IsKernel callback tasks s' qs (insert_task s.when t ts)
    pub times : s'.when ≡ s.when
    pub current : s'.current_task ≡ s.current_task
    pub started : s'.scheduler_started ≡ s.scheduler_started
    pub backend : s'.backend ≡ first_when s.when (timer_nodes (insert_task s.when t ts)) ∷ s.backend

  -- `timer_register` of the timer of a task that is not registered puts the task in its place.
  pub timer_register-IsKernel :
      (t fuel : ℕ)
      → has t tasks ≡ true
      → has t ts ≡ false
      → length ts < fuel
      → (s' : System) × (timer_register fuel (task_timer t) s ≡ ok s') × IsRegistered t s'
  unfolding timer_register timer_is_registered register_before timer_backend_set
  timer_register-IsKernel t fuel m h enough =
      let n = task_timer t in
      let e : list_is_empty s.links n ≡ true =
        (list_is_empty_iff s.links n [] (k.unarmed t m h)).1 refl in
      let long : length (timer_nodes ts) < fuel = omega (arith, enough, length-timer_nodes ts) in
      let (y, a, r, i) =
        find_later-Ring s n fuel timers [] (timer_nodes ts) k.timers_in.ring k.timers_in.ring.chain
          (fresh t m h) long in
      let c = timer_nodes-insert_task s.when t ts in
      let (u, us, d) = insert_timer-cons s.when n (timer_nodes ts) in
      let l = list_insert_before s.links y n in
      let r1 : Ring l timers (u ∷ us) = rw d at r in
      let f : l.next timers ≡ u = r1.chain.0 in
      let s' = record s { links = l; backend = s.when u ∷ s.backend } in
      let linked = Ring-IsLinked s.links timers y (timer_nodes ts) i k.timers_in.ring in
      let r2 : Ring l timers (timer_nodes (insert_task s.when t ts)) = rw c r in
      let sorted : IsSorted s.when 0 (timer_nodes (insert_task s.when t ts)) =
        rw c (insert_timer-IsSorted s.when 0 n (timer_nodes ts) (omega arith) k.timers_in.sorted) in
      (
        s',
        simp (k.backend, e, a, f),
        record {
          kernel =
              timer_edit callback tasks s qs ts k t m s' y (insert_task s.when t ts) i
                (list_insert_before-Keeps s.links y n linked)
                (record { ring = r2; sorted = sorted })
                (λ v o. ground (arith, has-insert_task s.when t v ts, o))
                (λ z. absurd (ground (arith, z, has-insert_task s.when t t ts, ==_self t))) refl
                refl (refl, refl, refl);
          times = refl;
          current = refl;
          started = refl;
          backend = rw (c, d) refl;
        },
      )

  ring_at :
      (t : ℕ) (us vs : List ℕ)
      → ts ≡ us ++ t ∷ vs
      → IsTimers s (timer_nodes us ++ task_timer t ∷ timer_nodes vs)
  ring_at t us vs e =
      let r : IsTimers s (timer_nodes (us ++ t ∷ vs)) = rw e at k.timers_in in
      rw (timer_nodes-append us (t ∷ vs)) at r

  deleted :
      (t : ℕ) (us vs : List ℕ)
      → ts ≡ us ++ t ∷ vs
      → (delete t ts ≡ us ++ vs) × (has t (us ++ vs) ≡ false)
  deleted t us vs e =
      let d : IsDistinct (us ++ t ∷ vs) = rw e at IsDistinct-timers in
      let f = IsDistinct-middle us t vs d in
      (rw e (delete-middle t us vs (ground (arith, f, has-append t us vs))), f)

  -- A state in which the timer of `t` is out of its list.
  pub timer_out :
      (t : ℕ) (s' : System)
      → has t ts ≡ true
      → s'.links ≡ list_remove s.links (task_timer t)
      → s'.when ≡ s.when
      → s'.current_task ≡ s.current_task
      → s'.tasks_in_run_queue ≡ s.tasks_in_run_queue
      → IsSame s s'
      → IsKernel callback tasks s' qs (delete t ts)
  timer_out t s' h l w c n e =
      let (us, vs, q) = has-split t ts h in
      let (d, f) = deleted t us vs q in
      let r = ring_at t us vs q in
      let (ring, lone) =
        list_remove-Ring s.links timers (task_timer t) (timer_nodes us) (timer_nodes vs) r.ring in
      let linked =
        Ring-IsLinked s.links timers (task_timer t) (timer_nodes ts)
          (ground (arith, has-timer_nodes t ts, h)) k.timers_in.ring in
      timer_edit callback tasks s qs ts k t (k.timed t h) s' timers (delete t ts)
        (ground (arith, ==_self timers))
        (λ a zs f g z. rw l (list_remove-Keeps s.links timers (task_timer t) linked a zs f g z))
        (record {
          ring = rw (l, d, timer_nodes-append us vs) ring;
          sorted =
              rw (w, d, timer_nodes-append us vs)
                (remove-IsSorted s.when 0 (task_timer t) (timer_nodes us) (timer_nodes vs)
                  r.sorted);
        })
        (λ u o. has-delete_other t u ts o) (λ z. rw l lone) c n e

  -- `timer_unregister` of the timer of a task takes the task out, if its timer is registered.
  pub timer_unregister-IsKernel :
      (t : ℕ)
      → has t tasks ≡ true
      → (s' : System) × (timer_unregister (task_timer t) s ≡ ok s')
        × IsKernel callback tasks s' qs (delete t ts)
        × (s'.current_task ≡ s.current_task)
  unfolding timer_unregister timer_is_registered timer_backend_set
  timer_unregister-IsKernel t m = elim (Bool-cases (has t ts)) [
    | inr h ↦
        let e : list_is_empty s.links (task_timer t) ≡ true =
          (list_is_empty_iff s.links (task_timer t) [] (k.unarmed t m h)).1 refl in
        (s, simp (k.backend, e), rw (delete-none t ts h) k, refl)
    | inl h ↦
        let (us, vs, q) = has-split t ts h in
        let r = ring_at t us vs q in
        let e : list_is_empty s.links (task_timer t) ≡ false =
          list_is_empty-middle s.links timers (task_timer t) (timer_nodes us) (timer_nodes vs)
            r.ring in
        let l = list_remove s.links (task_timer t) in
        let s' = record s {
          links = l;
          backend = (if list_is_empty l timers then 0 else s.when (l.next timers)) ∷ s.backend;
        } in
        (s', simp (k.backend, e), timer_out t s' h refl refl refl refl (refl, refl, refl), refl)
  ]

  -- A timer that is not registered is in no list.
  pub is_registered :
      (t : ℕ) → has t tasks ≡ true → timer_is_registered (task_timer t) s ≡ false → has t ts ≡ false
  unfolding timer_is_registered
  is_registered t m r = elim (Bool-cases (has t ts)) [
    | inr e ↦ e
    | inl h ↦
        let (us, vs, q) = has-split t ts h in
        let e : list_is_empty s.links (task_timer t) ≡ false =
          list_is_empty-middle s.links timers (task_timer t) (timer_nodes us) (timer_nodes vs)
            (ring_at t us vs q).ring in
        absurd (ground (arith, e, r))
  ]

  pub registered-has :
      (t : ℕ) → has t tasks ≡ true → timer_is_registered (task_timer t) s ≡ true → has t ts ≡ true
  unfolding timer_is_registered
  registered-has t m r = elim (Bool-cases (has t ts)) [
    | inl e ↦ e
    | inr h ↦
        let e : list_is_empty s.links (task_timer t) ≡ true =
          (list_is_empty_iff s.links (task_timer t) [] (k.unarmed t m h)).1 refl in
        absurd (ground (arith, e, r))
  ]
