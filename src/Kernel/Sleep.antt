-- ===== src/Kernel/Sleep.antt =====
-- `sleep_tsc` and `cancel_sleep`: a task registers its timer and leaves the run queue, and comes back.
use borfos.Common.{
  ℕ, ◌+◌, ◌<◌, ◌≡◌, ◌≢◌, refl, ap, ◌∙◌, true, false, List, [], ◌∷◌, has, length, arith, ◌==◌,
  ==_iff, ==_self, Bool, if◌then◌else◌, u64,
}
use borfos.System.{System, Result, ok, ◌>>=◌, task_timer, write}
use borfos.Scheduler.{unschedule, schedule, next_task, schedule_task}
use borfos.Timers.{
  now, timer_register, timer_register_absolute, timer_register_relative, sleep_tsc, cancel_sleep,
}
use borfos.Timers.Sorted.{IsSorted}
use borfos.Kernel.{IsKernel, timer_nodes, enqueue, delete, insert_task}
use borfos.Kernel.Members.{has-timer_nodes}
use borfos.Kernel.Queue.{schedule_task-IsKernel, has-delete}
use borfos.Kernel.Switch.{unschedule-IsKernel}
use borfos.Kernel.Timers.{timer_register-IsKernel, timer_unregister-IsKernel}

-- A time of a timer that is in no list may change.
pub IsSorted-other :
    (when : ℕ → ℕ) (n value from : ℕ) (xs : List ℕ)
    → has n xs ≡ false
    → IsSorted when from xs
    → IsSorted (write when n value) from xs
IsSorted-other when n value from [] h o = tt
IsSorted-other when n value from (x ∷ xs) h o =
    let e : x == n ≡ false = ground (arith, h, ==_iff x n, ==_iff n x) in
    rw e (o.0, IsSorted-other when n value (when x) xs (ground (arith, h)) o.1)

started_branch :
    {x z : Result System}
    → (y : Result System) → (b : Bool) → b ≡ true
    → x ≡ z
    → (if b then x else y) ≡ z
started_branch y b e d = rw e d

module _ (tsc : ℕ → ℕ) (callback : ℕ) (tasks : List ℕ) (s : System) (qs ts : List ℕ)
    (k : IsKernel callback tasks s qs ts) where
  abbrev pub deadline : ℕ → ℕ
  deadline duration = u64 (tsc s.reads + duration)

  abbrev pub set_when : ℕ → ℕ → System
  set_when t value = record s { reads = s.reads + 1; when = write s.when (task_timer t) value }

  set_when-IsKernel :
      (t value : ℕ) → has t ts ≡ false → IsKernel callback tasks (set_when t value) qs ts
  set_when-IsKernel t value h = record {
    layout = k.layout;
    queue = record { ring = k.queue.ring; count = k.queue.count; small = k.queue.small };
    timers_in = record {
      ring = k.timers_in.ring;
      sorted =
          IsSorted-other s.when (task_timer t) value 0 (timer_nodes ts)
            (ground (arith, has-timer_nodes t ts, h)) k.timers_in.sorted;
    };
    queued = k.queued;
    timed = k.timed;
    alone = k.alone;
    unarmed = k.unarmed;
    calls = k.calls;
    running = k.running;
    backend = k.backend;
  }

  differ : (a b : ℕ) (us : List ℕ) → has a us ≡ true → has b us ≡ false → a ≢ b
  differ a b us h f z = absurd (ground (arith, rw z at h, f))

  as_deleted :
      (a b : ℕ) (us vs : List ℕ) (s1 : System)
      → a ≡ b
      → IsKernel callback tasks s1 (delete a us) vs
      → IsKernel callback tasks s1 (delete b us) vs
  as_deleted a b us vs s1 e h = rw e at h

  -- The call of `sleep_tsc` once the time is read.
  sleep_started :
      (fuel duration : ℕ) (s1 : System)
      → s.scheduler_started ≡ true
      → timer_register fuel
          (task_timer s.current_task)
          (set_when s.current_task (deadline duration))
        ≡ ok s1
      → sleep_tsc tsc fuel duration s ≡ ok (unschedule s1)
  unfolding sleep_tsc timer_register_relative timer_register_absolute now
  sleep_started fuel duration s1 started e =
      started_branch _ s.scheduler_started started (ap (λ r. r >>= λ x. ok (unschedule x)) e)

  -- In a well-formed state, with the scheduler started, more fuel than timers, and another task `t`
  -- in the run queue, a running task whose timer is not registered sleeps: the call returns, the
  -- timer is registered for `duration` from the time that is read, the task leaves the run queue,
  -- another task runs, and the state is well formed.
  pub sleep_tsc-IsKernel :
      (fuel duration t : ℕ)
      → s.scheduler_started ≡ true
      → has s.current_task ts ≡ false
      → has t qs ≡ true
      → t ≢ s.current_task
      → length ts < fuel
      → (s' : System) × (sleep_tsc tsc fuel duration s ≡ ok s')
        × IsKernel callback tasks s' (delete s.current_task qs) (
            insert_task
              (write s.when (task_timer s.current_task) (deadline duration))
              s.current_task
              ts)
        × (s'.when (task_timer s.current_task) ≡ deadline duration)
        × (s'.current_task ≢ s.current_task)
  sleep_tsc-IsKernel fuel duration t started h other o enough =
      let c = s.current_task in
      let s0 = set_when c (deadline duration) in
      let k0 = set_when-IsKernel c (deadline duration) h in
      let m = k.queued c k.running in
      let (s1, e, g) = timer_register-IsKernel callback tasks s0 qs ts k0 c fuel m h enough in
      let o1 : t ≢ s1.current_task = λ z. o (z ∙ g.current) in
      let k2 =
        unschedule-IsKernel callback tasks s1 qs (insert_task s0.when c ts) g.kernel t other o1 in
      let k3 : IsKernel callback tasks (unschedule s1) (delete c qs) (insert_task s0.when c ts) =
        as_deleted s1.current_task c qs (insert_task s0.when c ts) (unschedule s1) g.current k2 in
      let w : (unschedule s1).when ≡ s1.when = unfold unschedule schedule next_task in refl in
      (
        unschedule s1,
        sleep_started fuel duration s1 started e,
        k3,
        ap (λ (f : ℕ → ℕ). f (task_timer c)) (w ∙ g.times) ∙ ground (arith, ==_self (task_timer c)),
        differ (unschedule s1).current_task c (delete c qs) k3.running
            (has-delete callback tasks s qs ts k c),
      )

-- `cancel_sleep` of a task takes its timer out of its list and puts the task in the run queue.
pub cancel_sleep-IsKernel :
    (callback : ℕ) (tasks : List ℕ) (s : System) (qs ts : List ℕ) (t : ℕ)
    → IsKernel callback tasks s qs ts
    → has t tasks ≡ true
    → (s' : System) × (cancel_sleep t s ≡ ok s')
      × IsKernel callback tasks s' (enqueue t qs) (delete t ts)
unfolding cancel_sleep
cancel_sleep-IsKernel callback tasks s qs ts t k m =
    let (s1, e, g, c) = timer_unregister-IsKernel callback tasks s qs ts k t m in
    (
      schedule_task t s1,
      ap (λ r. r >>= λ x. ok (schedule_task t x)) e,
      schedule_task-IsKernel callback tasks s1 qs (delete t ts) g t m,
    )
