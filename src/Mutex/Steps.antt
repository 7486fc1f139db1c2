-- ===== src/Mutex/Steps.antt =====
-- kernel/lib/mutex.c: what locking and unlocking do to a mutex.
use borfos.Common.{
  ℕ, ◌+◌, ◌-◌, ◌^◌, ◌<◌, ◌%◌, ◌≡◌, ◌≢◌, refl, sym, arith, true, false, length, has, List, [], ◌∷◌,
  ◌++◌, ◌==◌, ==_self, ==_ne, ==_iff, Bool-cases, inl, inr,
}
use borfos.Links.{list_remove, list_is_empty}
use borfos.Links.Ring.{Ring}
use borfos.Links.Remove.{list_is_empty_iff}
use borfos.Scheduler.Queue.{IsQueue, schedule_task-append}
use borfos.System.{System, ok, panic, write, queue_node}
use borfos.Scheduler.{schedule_task}
use borfos.Mutex.{
  waiters, entered, nest, take_lock, mutex_lock, mutex_lock_resume, wake_waiter, mutex_unlock,
}

-- The running task holds the mutex `n` times.
pub record IsHeld (m n : ℕ) (s : System) : Type 0 where
  pub owner : s.locker m ≡ s.current_task
  pub depth : s.nesting m ≡ n
  pub task : ¬ (s.current_task ≡ 0)

-- Nobody holds the mutex.
pub record IsUnlocked (m : ℕ) (s : System) : Type 0 where
  pub owner : s.locker m ≡ 0
  pub depth : s.nesting m ≡ 0

nest-IsHeld :
    (m n : ℕ) (s : System)
    → n + 1 < 2 ^ 32
    → IsHeld m n s
    → (s' : System) × (nest m s ≡ entered s')
      × IsHeld m (n + 1) s'
      × (s'.links ≡ s.links)
      × (s'.current_task ≡ s.current_task)
unfolding nest
nest-IsHeld m n s h i =
    let d : s.nesting m ≡ n = i.depth in
    let e : (n + 1) % 2 ^ 32 ≡ n + 1 = omega (arith, h) in
    let e0 : (s.nesting m + 1) % 2 ^ 32 ≡ n + 1 = rw (d, e) refl in
    let e1 : n + 1 == 0 ≡ false = grind arith in
    (
      record s { nesting = write s.nesting m ((s.nesting m + 1) % 2 ^ 32) },
      simp (==_self, e0, e1),
      record { owner = i.owner; depth = simp (==_self, e0); task = i.task },
      refl,
      refl,
    )

pub lock-IsHeld :
    (m waiter n : ℕ) (s : System)
    → n + 1 < 2 ^ 32
    → IsHeld m n s
    → (s' : System) × (mutex_lock m waiter s ≡ entered s')
      × IsHeld m (n + 1) s'
      × (s'.links ≡ s.links)
      × (s'.current_task ≡ s.current_task)
unfolding mutex_lock
lock-IsHeld m waiter n s h i =
    let (s', e, r, l, c') = nest-IsHeld m n s h i in
    let a : s.locker m == s.current_task ≡ true = (==_iff (s.locker m) s.current_task).1 i.owner in
    let b : s.locker m == 0 ≡ false = grind (arith, i.owner, i.task) in
    (s', simp (a, b, e), r, l, c')

pub enter-IsHeld :
    (m waiter : ℕ) (s : System)
    → IsUnlocked m s
    → ¬ (s.current_task ≡ 0)
    → (s' : System) × (mutex_lock m waiter s ≡ entered s')
      × IsHeld m 1 s'
      × (s'.links ≡ s.links)
      × (s'.current_task ≡ s.current_task)
unfolding mutex_lock take_lock
enter-IsHeld m waiter s u c =
    let i : IsHeld m 0 (record s { locker = write s.locker m s.current_task }) = record {
      owner = simp (==_self);
      depth = u.depth;
      task = c;
    } in
    let (s', e, r, l, c') =
      nest-IsHeld m 0 (record s { locker = write s.locker m s.current_task }) (omega arith) i in
    (s', simp (u.owner, e), r, l, c')

pub unlock-IsHeld :
    (m n : ℕ) (s : System)
    → IsHeld m (n + 2) s
    → (s' : System) × (mutex_unlock m s ≡ ok s')
      × IsHeld m (n + 1) s'
      × (s'.links ≡ s.links)
      × (s'.current_task ≡ s.current_task)
unfolding mutex_unlock
unlock-IsHeld m n s i =
    let a : s.locker m == s.current_task ≡ true = (==_iff (s.locker m) s.current_task).1 i.owner in
    let b : s.nesting m == 0 ≡ false = grind (arith, i.depth) in
    let d : s.nesting m - 1 ≡ n + 1 = omega (arith, i.depth) in
    let c : n + 1 == 0 ≡ false = grind arith in
    (
      record s { nesting = write s.nesting m (s.nesting m - 1) },
      simp (a, b, d, c),
      record { owner = i.owner; depth = simp (==_self, d); task = i.task },
      refl,
      refl,
    )

-- The state that the last `mutex_unlock` leaves to the waiters.
abbrev pub unlocked : ℕ → System → System
unlocked m s = record s { nesting = write s.nesting m 0; locker = write s.locker m 0 }

pub unlock-last :
    (m : ℕ) (s : System) → IsHeld m 1 s → mutex_unlock m s ≡ ok (wake_waiter m (unlocked m s))
unfolding mutex_unlock
unlock-last m s i =
    let a : s.locker m == s.current_task ≡ true = (==_iff (s.locker m) s.current_task).1 i.owner in
    simp (a, i.depth)

schedule_task-IsUnlocked :
    (m task : ℕ) (s : System) → IsUnlocked m s → IsUnlocked m (schedule_task task s)
unfolding schedule_task
schedule_task-IsUnlocked m task s u = elim (Bool-cases (list_is_empty s.links (queue_node task))) [
  | inl e ↦ rw e (record { owner = u.owner; depth = u.depth })
  | inr e ↦ rw e u
]

-- The task that releases a mutex for which others wait, `w` the first of them, leaves it without a
-- holder and puts the task of `w`, if it is in no list, at the end of the run queue.
pub mutex_unlock-wakes :
    (m w : ℕ) (ws qs : List ℕ) (s : System)
    → IsHeld m 1 s
    → Ring s.links (waiters m) (w ∷ ws)
    → IsQueue s qs
    → s.waiter_task w ≢ 0
    → length qs + 2 < 2 ^ 32
    → Ring s.links (queue_node (s.waiter_task w)) []
    → has (s.waiter_task w) qs ≡ false
    → (s' : System) × (mutex_unlock m s ≡ ok s')
      × IsUnlocked m s'
      × IsQueue s' (qs ++ s.waiter_task w ∷ [])
unfolding wake_waiter
mutex_unlock-wakes m w ws qs s i r q z room alone out =
    let e : list_is_empty s.links (waiters m) ≡ false =
      elim (Bool-cases (list_is_empty s.links (waiters m))) [
        | inr e ↦ e
        | inl e ↦ absurd (cons_ne ((list_is_empty_iff s.links (waiters m) (w ∷ ws) r).0 e))
      ] in
    let n : s.links.next (waiters m) ≡ w = r.chain.0 in
    let q' : IsQueue (unlocked m s) qs = record {
      ring = q.ring;
      count = q.count;
      small = q.small;
    } in
    (
      schedule_task (s.waiter_task w) (unlocked m s),
      simp (unlock-last m s i, e, n),
      schedule_task-IsUnlocked m (s.waiter_task w) (unlocked m s)
          (record { owner = simp (==_self); depth = simp (==_self) }),
      schedule_task-append (unlocked m s) (s.waiter_task w) qs z room alone out q',
    )
  where
    cons_ne : w ∷ ws ≡ [] → ⊥
    cons_ne e = cc

-- A task that does not hold the mutex cannot release it: the kernel stops.
pub mutex_unlock-panic :
    (m : ℕ) (s : System) → s.locker m ≢ s.current_task → mutex_unlock m s ≡ panic
unfolding mutex_unlock
mutex_unlock-panic m s h =
    let a : s.locker m == s.current_task ≡ false = ==_ne (s.locker m) s.current_task h in simp a

-- A waiter that goes on after its switch takes the mutex although another task `a` holds it, with
-- one more level; the release of `a` that follows stops the kernel.
pub mutex_lock_resume-steals :
    (m waiter a n : ℕ) (s : System)
    → s.locker m ≡ a
    → a ≢ 0
    → a ≢ s.current_task
    → s.nesting m ≡ n
    → n + 1 < 2 ^ 32
    → (s' : System) × (mutex_lock_resume m waiter s ≡ entered s')
      × (s'.locker m ≡ s.current_task)
      × (s'.nesting m ≡ n + 1)
      × (mutex_unlock m (record s' { current_task = a }) ≡ panic)
unfolding mutex_lock_resume take_lock nest
mutex_lock_resume-steals m waiter a n s l z o d h =
    let e : (n + 1) % 2 ^ 32 ≡ n + 1 = omega (arith, h) in
    let e1 : n + 1 == 0 ≡ false = grind arith in
    let s1 = record s {
      links = list_remove s.links waiter;
      locker = write s.locker m s.current_task;
      nesting = write s.nesting m ((s.nesting m + 1) % 2 ^ 32);
    } in
    (
      s1,
      simp (==_self, d, e, e1),
      simp (==_self),
      simp (==_self, d, e),
      mutex_unlock-panic m (record s1 { current_task = a }) (simp (==_self) (λ q. o (sym q))),
    )
