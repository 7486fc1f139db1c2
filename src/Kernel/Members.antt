-- ===== src/Kernel/Members.antt =====
-- Lists of tasks: splitting at a member, deleting it, counting, and the nodes of a task.
use borfos.Common.{
  has-split, ℕ, ◌≤◌, ◌≡◌, ◌≢◌, inl, inr, refl, ap, true, false, ◌||◌, List, [], ◌∷◌, ◌++◌, has,
  length, length-append, has-append, arith, ltb, ◌==◌, ==_iff, ==_self, Bool-cases, IsDistinct,
}
use borfos.System.{queue_node, task_timer, run_queue, timers}
use borfos.Scheduler.Queue.{queue_nodes, has-queue_nodes}
use borfos.Timers.Sorted.{insert_timer}
use borfos.Kernel.{IsLayout, timer_nodes, delete, insert_task}

pub delete-middle : (x : ℕ) (us vs : List ℕ) → has x us ≡ false → delete x (us ++ x ∷ vs) ≡ us ++ vs
unfolding delete
delete-middle x [] vs h = ground (arith, ==_self x)
delete-middle x (u ∷ us) vs h =
    let e : x == u ≡ false = ground (arith, h) in
    rw e (rw (delete-middle x us vs (ground (arith, h))) refl)

pub delete-none : (x : ℕ) (xs : List ℕ) → has x xs ≡ false → delete x xs ≡ xs
unfolding delete
delete-none x [] h = refl
delete-none x (u ∷ us) h =
    let e : x == u ≡ false = ground (arith, h) in
    rw e (rw (delete-none x us (ground (arith, h))) refl)

pub has-delete_other : (x y : ℕ) (xs : List ℕ) → y ≢ x → has y (delete x xs) ≡ has y xs
unfolding delete
has-delete_other x y [] n = refl
has-delete_other x y (u ∷ us) n = ground (arith, has-delete_other x y us n, n)

pub IsDistinct-queue_nodes : (qs : List ℕ) → IsDistinct (queue_nodes qs) → IsDistinct qs
IsDistinct-queue_nodes [] d = tt
IsDistinct-queue_nodes (q ∷ qs) d =
    (ground (arith, has-queue_nodes q qs, d.0), IsDistinct-queue_nodes qs d.1)

pub has-timer_nodes : (t : ℕ) (ts : List ℕ) → has (task_timer t) (timer_nodes ts) ≡ has t ts
has-timer_nodes t [] = refl
has-timer_nodes t (u ∷ us) = ground (arith, has-timer_nodes t us)

pub IsDistinct-timer_nodes : (ts : List ℕ) → IsDistinct (timer_nodes ts) → IsDistinct ts
IsDistinct-timer_nodes [] d = tt
IsDistinct-timer_nodes (q ∷ qs) d =
    (ground (arith, has-timer_nodes q qs, d.0), IsDistinct-timer_nodes qs d.1)

pub timer_nodes-append :
    (ts us : List ℕ) → timer_nodes (ts ++ us) ≡ timer_nodes ts ++ timer_nodes us
timer_nodes-append [] us = refl
timer_nodes-append (t ∷ ts) us = rw (timer_nodes-append ts us)

pub timer_nodes-insert_task :
    (when : ℕ → ℕ) (t : ℕ) (ts : List ℕ)
    → timer_nodes (insert_task when t ts) ≡ insert_timer when (task_timer t) (timer_nodes ts)
unfolding insert_task insert_timer
timer_nodes-insert_task when t [] = refl
timer_nodes-insert_task when t (u ∷ us) =
    elim (Bool-cases (ltb (when (task_timer t)) (when (task_timer u)))) [
      | inl e ↦ rw e refl
      | inr e ↦ rw e (rw (timer_nodes-insert_task when t us) refl)
    ]

pub has-insert_task :
    (when : ℕ → ℕ) (t x : ℕ) (ts : List ℕ) → has x (insert_task when t ts) ≡ ((x == t) || has x ts)
unfolding insert_task
has-insert_task when t x [] = refl
has-insert_task when t x (u ∷ us) = ground (arith, has-insert_task when t x us)

pub length-timer_nodes : (ts : List ℕ) → length (timer_nodes ts) ≡ length ts
length-timer_nodes [] = refl
length-timer_nodes (t ∷ ts) = omega (arith, length-timer_nodes ts)

-- Distinct members of a list are no more than its elements.
pub length-members :
    (xs ys : List ℕ)
    → IsDistinct xs
    → ((x : ℕ) → has x xs ≡ true → has x ys ≡ true)
    → length xs ≤ length ys
length-members [] ys d h = omega arith
length-members (x ∷ xs) ys d h =
    let (us, vs, e) = has-split x ys (h x (ground (arith, ==_self x))) in
    let r = length-members xs (us ++ vs) d.1 (λ z k. others us vs e z k) in
    omega
      (arith, r, ap (λ (l : List ℕ). length l) e, length-append us (x ∷ vs), length-append us vs)
  where
    others :
        (us vs : List ℕ) → ys ≡ us ++ x ∷ vs → (z : ℕ) → has z xs ≡ true → has z (us ++ vs) ≡ true
    others us vs e z k =
        let a : has z (us ++ x ∷ vs) ≡ true = rw e at (h z (ground (arith, k))) in
        elim (Bool-cases (z == x)) [
          | inl q ↦ let w : z ≡ x = ground (arith, q) in absurd (ground (arith, rw w at k, d.0))
          | inr q ↦ ground (arith, a, q, has-append z us (x ∷ vs), has-append z us vs)
        ]

-- The nodes of a task are none of the globals, and those of the two kinds differ.
module _ (tasks : List ℕ) (layout : IsLayout tasks) where
  pub kinds :
      (t u : ℕ) → has t tasks ≡ true → has u tasks ≡ true → (queue_node t == task_timer u) ≡ false
  kinds t u h k = elim (Bool-cases (t == u)) [
    | inl e ↦ ground (arith, e)
    | inr e ↦ let n : t ≢ u = λ q. ground (arith, e, q) in ground (arith, layout.spaced t u h k n)
  ]

  abbrev pub Tasks : List ℕ → Type 0
  Tasks xs = (x : ℕ) → has x xs ≡ true → has x tasks ≡ true

  tail : (x : ℕ) (xs : List ℕ) → Tasks (x ∷ xs) → Tasks xs
  tail x xs m y h = m y (ground (arith, h))

  pub not_queue_node :
      (t : ℕ) (ts : List ℕ)
      → has t tasks ≡ true
      → Tasks ts
      → has (queue_node t) (timers ∷ timer_nodes ts) ≡ false
  not_queue_node t [] h m = ground (arith, layout.above t h)
  not_queue_node t (u ∷ us) h m =
      ground
        (arith, not_queue_node t us h (tail u us m), kinds t u h (m u (ground (arith, ==_self u))))

  pub not_task_timer :
      (t : ℕ) (qs : List ℕ)
      → has t tasks ≡ true
      → Tasks qs
      → has (task_timer t) (run_queue ∷ queue_nodes qs) ≡ false
  not_task_timer t [] h m = ground (arith, layout.above t h)
  not_task_timer t (u ∷ us) h m = ground (
    arith,
    not_task_timer t us h (tail u us m),
    kinds u t (m u (ground (arith, ==_self u))) h,
    ==_iff (task_timer t) (queue_node u),
    ==_iff (queue_node u) (task_timer t),
  )

  pub not_run_queue : (ts : List ℕ) → Tasks ts → has run_queue (timers ∷ timer_nodes ts) ≡ false
  not_run_queue [] m = refl
  not_run_queue (u ∷ us) m =
      ground
        (arith, not_run_queue us (tail u us m), layout.above u (m u (ground (arith, ==_self u))))

  pub not_timers : (qs : List ℕ) → Tasks qs → has timers (run_queue ∷ queue_nodes qs) ≡ false
  not_timers [] m = refl
  not_timers (u ∷ us) m =
      ground (arith, not_timers us (tail u us m), layout.above u (m u (ground (arith, ==_self u))))
