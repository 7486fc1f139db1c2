-- ===== src/Kernel.antt =====
-- kernel/lib/scheduler.c and kernel/lib/timers.c together: the run queue and the timers of a set of
-- tasks, in one store of list nodes. A task is a `task_t` of 40 bytes; `callback` is the address of
-- `timer_callback`, which every timer of a task calls with the task.
pub mod Members
pub mod Edit
pub mod Queue
pub mod Switch
pub mod Timers
pub mod Interrupt
pub mod Due
pub mod Sleep
pub mod Apart
pub mod Steps
pub mod Create
pub mod Boot
pub mod Reach
mod Tests
use borfos.Common.{
  ℕ, ◌+◌, ◌^◌, ◌<◌, ◌≤◌, ◌≡◌, ◌≢◌, ◌⊎◌, true, false, List, [], ◌∷◌, ◌++◌, has, length, ltb,
  if◌then◌else◌, ◌==◌, IsDistinct,
}
use borfos.Links.Ring.{Ring}
use borfos.System.{System, queue_node, task_timer}
use borfos.Scheduler.Queue.{IsQueue}
use borfos.Timers.Sorted.{IsTimers}

-- The tasks do not overlap, and lie above the globals.
pub record IsLayout (tasks : List ℕ) : Type 0 where
  pub above : (t : ℕ) → has t tasks ≡ true → 64 ≤ t
  pub spaced :
      (t u : ℕ) → has t tasks ≡ true → has u tasks ≡ true → t ≢ u → (t + 40 ≤ u) ⊎ (u + 40 ≤ t)
  pub few : length tasks + 2 < 2 ^ 32

abbrev pub timer_nodes : List ℕ → List ℕ
timer_nodes [] = []
timer_nodes (t ∷ ts) = task_timer t ∷ timer_nodes ts

-- The state `s` has the tasks `qs` in the run queue, the running one among them, and the timers of
-- the tasks `ts` registered, both in this order; every other node of a task is alone.
pub record IsKernel (callback : ℕ) (tasks : List ℕ) (s : System) (qs ts : List ℕ) : Type 0 where
  pub layout : IsLayout tasks
  pub queue : IsQueue s qs
  pub timers_in : IsTimers s (timer_nodes ts)
  pub queued : (t : ℕ) → has t qs ≡ true → has t tasks ≡ true
  pub timed : (t : ℕ) → has t ts ≡ true → has t tasks ≡ true
  pub alone : (t : ℕ) → has t tasks ≡ true → has t qs ≡ false → Ring s.links (queue_node t) []
  pub unarmed : (t : ℕ) → has t tasks ≡ true → has t ts ≡ false → Ring s.links (task_timer t) []
  pub calls :
      (t : ℕ) → has t tasks ≡ true → (s.func (task_timer t) ≡ callback) × (s.arg (task_timer t) ≡ t)
  pub running : has s.current_task qs ≡ true
  pub backend : s.backend_set ≡ true

-- What the operations do to the list of the tasks in the run queue.
unfoldable pub enqueue : ℕ → List ℕ → List ℕ
enqueue t qs = if has t qs then qs else qs ++ t ∷ []

unfoldable pub delete : ℕ → List ℕ → List ℕ
delete t [] = []
delete t (u ∷ us) = if t == u then us else u ∷ delete t us

-- The place of a task among those whose timers are registered: behind the times that are not later.
unfoldable pub insert_task : (ℕ → ℕ) → ℕ → List ℕ → List ℕ
insert_task when t [] = t ∷ []
insert_task when t (u ∷ us) =
    if ltb (when (task_timer t)) (when (task_timer u))
    then t ∷ u ∷ us
    else u ∷ insert_task when t us
