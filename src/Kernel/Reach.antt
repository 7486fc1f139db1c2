-- ===== src/Kernel/Reach.antt =====
-- The states that the kernel reaches by calls of kernel/lib/scheduler.c and kernel/lib/timers.c.
use borfos.Common.{ℕ, ◌+◌, ◌<◌, ◌≤◌, ◌≡◌, sym, ◌∙◌, true, false, List, has, length}
use borfos.Links.{list_is_empty}
use borfos.System.{System, ok, task_timer, queue_node}
use borfos.Scheduler.{timer_callback}
use borfos.Timers.{timer_is_registered, timer_interrupt}
use borfos.Kernel.Queue.{is_queued}
use borfos.Kernel.Timers.{registered-has}
use borfos.Kernel.Due.{timer_interrupt-due}
use borfos.Kernel.Steps.{Call, step, IsAllowed, IsSafe, few, step-IsSafe}

-- The states that allowed calls lead to from `start`.
pub data Reach (tsc : ℕ → ℕ) (call : ℕ → ℕ → System → System) (fuel : ℕ) (tasks : List ℕ) (idle : ℕ)
    (start : System) : System → Type 0 where
  here : Reach tsc call fuel tasks idle start start
  next :
      {s s' : System}
      → Reach tsc call fuel tasks idle start s
      → (c : Call) → IsAllowed tasks idle c s
      → step tsc call fuel c s ≡ ok s'
      → Reach tsc call fuel tasks idle start s'

ok_eq : {s t : System} → ok s ≡ ok t → s ≡ t
ok_eq e = cc

module _ (tsc : ℕ → ℕ) (call : ℕ → ℕ → System → System) (callback fuel : ℕ) (tasks : List ℕ)
    (idle : ℕ) (is_callback : (a : ℕ) (s : System) → call callback a s ≡ timer_callback a s)
    (enough : length tasks < fuel) (start : System) (safe : IsSafe callback tasks idle start) where
  -- From a safe state, with more fuel than tasks and `timer_callback` behind the address that the
  -- timers of tasks call, allowed calls lead to safe states only: the run queue and the timers are
  -- well formed, no task is in both, the running task and `idle` are in the run queue.
  pub Reach-IsSafe :
      (s : System) → Reach tsc call fuel tasks idle start s → IsSafe callback tasks idle s
  Reach-IsSafe s here = safe
  Reach-IsSafe s' (next {s} r c a e) =
      let (s2, d, i) =
        step-IsSafe tsc call callback fuel tasks idle is_callback enough c s (Reach-IsSafe s r) a in
      rw (ok_eq (sym d ∙ e)) at i

  -- From a safe state, with more fuel than tasks and `timer_callback` behind the address that the
  -- timers of tasks call, every allowed call returns in every state that allowed calls lead to: none
  -- panics, none runs out of fuel.
  pub Reach-step :
      (s : System) (c : Call)
      → Reach tsc call fuel tasks idle start s
      → IsAllowed tasks idle c s
      → (s' : System) × (step tsc call fuel c s ≡ ok s') × Reach tsc call fuel tasks idle start s'
  Reach-step s c r a =
      let (s2, d, i) =
        step-IsSafe tsc call callback fuel tasks idle is_callback enough c s (Reach-IsSafe s r) a in
      (s2, d, next r c a d)

  -- In a state that allowed calls lead to from a safe one, with more fuel than tasks, `timer_callback`
  -- behind the address that the timers of tasks call, and a clock that does not go back, the
  -- interrupt returns and leaves every task in the run queue whose timer was registered for the time
  -- of its first reading or an earlier one.
  pub Reach-wakes :
      (s : System) (t : ℕ)
      → Reach tsc call fuel tasks idle start s
      → ((i : ℕ) → tsc i ≤ tsc (i + 1))
      → has t tasks ≡ true
      → timer_is_registered (task_timer t) s ≡ true
      → s.when (task_timer t) ≤ tsc s.reads
      → (s' : System) × (timer_interrupt tsc call fuel s ≡ ok s')
        × (list_is_empty s'.links (queue_node t) ≡ false)
  Reach-wakes s t r mono m registered due =
      let i = Reach-IsSafe s r in
      let short = few tsc call callback fuel tasks idle is_callback enough s i in
      let asleep = registered-has callback tasks s i.queue i.sleepers i.kernel t m registered in
      let (s', qs', ts', e, k, h) =
        timer_interrupt-due tsc call callback tasks is_callback i.sleepers i.queue fuel t s i.kernel
          mono short asleep due in
      (s', e, is_queued callback tasks s' qs' ts' k t h)
