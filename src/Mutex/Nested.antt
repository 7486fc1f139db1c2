-- ===== src/Mutex/Nested.antt =====
-- kernel/lib/mutex.c: nested locking.
use borfos.Common.{
  ℕ, zero, suc, ◌+◌, ◌^◌, ◌<◌, ◌≡◌, ◌≢◌, refl, arith, true, Option, none, some, ◌∙◌, ap, [],
  ==_self,
}
use borfos.Links.{list_is_empty}
use borfos.Links.Ring.{Ring}
use borfos.Links.Remove.{list_is_empty_iff}
use borfos.System.{System, Result, ok, ◌>>=◌}
use borfos.Mutex.{waiters, Lock, entered, waiting, panicked, mutex_lock, wake_waiter, mutex_unlock}
use borfos.Mutex.Steps.{
  IsHeld, IsUnlocked, lock-IsHeld, enter-IsHeld, unlock-IsHeld, unlock-last, unlocked,
}

abbrev if_entered : Lock → (System → Option System) → Option System
if_entered (entered s) k = k s
if_entered (waiting s) k = none
if_entered panicked k = none

-- `n` calls of `mutex_lock` by the running task; none if one of them does not enter.
unfoldable pub locks : ℕ → ℕ → ℕ → System → Option System
locks m waiter zero s = some s
locks m waiter (suc n) s = if_entered (mutex_lock m waiter s) (locks m waiter n)

unfoldable pub unlocks : ℕ → ℕ → System → Result System
unlocks m zero s = ok s
unlocks m (suc n) s = mutex_unlock m s >>= unlocks m n

at_depth : (m j k : ℕ) (s : System) → j ≡ k → IsHeld m j s → IsHeld m k s
at_depth m j k s e i = record { owner = i.owner; depth = i.depth ∙ e; task = i.task }

locks-IsHeld :
    (m waiter n k : ℕ) (s : System)
    → k + n < 2 ^ 32
    → IsHeld m k s
    → (s' : System) × (locks m waiter n s ≡ some s') × IsHeld m (k + n) s' × (s'.links ≡ s.links)
unfolding locks
locks-IsHeld m waiter zero k s h i = (s, refl, at_depth m k (k + 0) s (omega arith) i, refl)
locks-IsHeld m waiter (suc n) k s h i =
    let (s1, e, i1, l1, c1) = lock-IsHeld m waiter k s (omega (arith, h)) i in
    let (s', e', i', l') = locks-IsHeld m waiter n (k + 1) s1 (omega (arith, h)) i1 in
    (s', simp (e, e'), at_depth m (k + 1 + n) (k + suc n) s' (omega arith) i', l' ∙ l1)

unlocks-IsHeld :
    (m n : ℕ) (s : System)
    → IsHeld m (n + 1) s
    → (s' : System) × (unlocks m n s ≡ ok s') × IsHeld m 1 s' × (s'.links ≡ s.links)
unfolding unlocks
unlocks-IsHeld m zero s i = (s, refl, i, refl)
unlocks-IsHeld m (suc n) s i =
    let (s1, e, i1, l1, c1) =
      unlock-IsHeld m n s (at_depth m (suc n + 1) (n + 2) s (omega arith) i) in
    let (s', e', i', l') = unlocks-IsHeld m n s1 i1 in (s', simp (e, e'), i', l' ∙ l1)

-- Nested locking is balanced: a task that finds a mutex free and without waiters enters it `n + 1`
-- times, for any `n` that fits the counter, still holds it after `n` releases, and the release
-- after these leaves the mutex as it was.
pub locks-unlocks :
    (m waiter n : ℕ) (s : System)
    → n + 1 < 2 ^ 32
    → s.current_task ≢ 0
    → IsUnlocked m s
    → Ring s.links (waiters m) []
    → (s1 s2 s3 : System) × (locks m waiter (suc n) s ≡ some s1)
      × (unlocks m n s1 ≡ ok s2)
      × IsHeld m 1 s2
      × (mutex_unlock m s2 ≡ ok s3)
      × IsUnlocked m s3
      × (s3.links ≡ s.links)
unfolding locks wake_waiter
locks-unlocks m waiter n s h c u r =
    let (s0, e0, i0, l0, c0) = enter-IsHeld m waiter s u c in
    let (s1, e1, i1, l1) = locks-IsHeld m waiter n 1 s0 (omega (arith, h)) i0 in
    let (s2, e2, i2, l2) = unlocks-IsHeld m n s1 (at_depth m (1 + n) (n + 1) s1 (omega arith) i1) in
    let l : s2.links ≡ s.links = l2 ∙ l1 ∙ l0 in
    let e : list_is_empty s2.links (waiters m) ≡ true =
      ap (λ x. list_is_empty x (waiters m)) l
      ∙ (list_is_empty_iff s.links (waiters m) [] r).1 refl in
    (
      s1,
      s2,
      unlocked m s2,
      simp (e0, e1),
      e2,
      i2,
      simp (unlock-last m s2 i2, e),
      record { owner = simp (==_self); depth = simp (==_self) },
      l,
    )
