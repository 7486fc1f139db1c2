-- ===== src/Kernel/Steps.antt =====
-- The operations of kernel/lib/scheduler.c and kernel/lib/timers.c on tasks, in any order: the calls that the
-- kernel makes, and what holds after each of them.
use borfos.Common.{
  ℕ, ◌<◌, ◌≡◌, ◌≢◌, inl, inr, refl, ◌∙◌, true, false, List, [], ◌∷◌, ◌++◌, has, length, arith,
  Bool-cases,
}
use borfos.System.{System, Result, ok, task_timer, write}
use borfos.Scheduler.{schedule_task, unschedule_task, giveup_cpu, unschedule, timer_callback}
use borfos.Timers.{timer_is_registered, timer_interrupt, sleep_tsc, cancel_sleep}
use borfos.Kernel.{IsKernel, enqueue, delete, insert_task}
use borfos.Kernel.Members.{has-delete_other, length-members}
use borfos.Kernel.Queue.{schedule_task-IsKernel, unschedule_task-IsKernel, has-delete}
use borfos.Kernel.Switch.{giveup_cpu-IsKernel, unschedule-IsKernel}
use borfos.Kernel.Timers.{IsDistinct-timers, is_registered}
use borfos.Kernel.Interrupt.{woken, timer_interrupt-IsWoken}
use borfos.Kernel.Due.{has-enqueue, woken-queued}
use borfos.Kernel.Apart.{
  has-delete_none, rotated, stays, apart_enqueue, apart_insert, apart-woken, has-delete_sub,
  delete-distinct,
}
use borfos.Kernel.Sleep.{deadline, sleep_tsc-IsKernel, cancel_sleep-IsKernel}

-- A call, by the running task or by the timer's interrupt.
pub data Call : Type 0 where
  schedule : ℕ → Call
  take_out : ℕ → Call
  giveup : Call
  leave : Call
  sleep : ℕ → Call
  cancel : ℕ → Call
  tick : Call

module _ (tsc : ℕ → ℕ) (call : ℕ → ℕ → System → System) (fuel : ℕ) where
  unfoldable pub step : Call → System → Result System
  step (schedule t) s = ok (schedule_task t s)
  step (take_out t) s = ok (unschedule_task t s)
  step giveup s = ok (giveup_cpu s)
  step leave s = ok (unschedule s)
  step (sleep duration) s = sleep_tsc tsc fuel duration s
  step (cancel t) s = cancel_sleep t s
  step tick s = timer_interrupt tsc call fuel s

-- What the callers take care of: they name tasks, do not schedule one whose timer is registered, take
-- the running one out by `unschedule` only, and the task `idle` always stays in the run queue.
abbrev pub IsAllowed : List ℕ → ℕ → Call → System → Type 0
IsAllowed tasks idle (schedule t) s =
    (has t tasks ≡ true) × (timer_is_registered (task_timer t) s ≡ false)
IsAllowed tasks idle (take_out t) s = (has t tasks ≡ true) × (t ≢ s.current_task) × (idle ≢ t)
IsAllowed tasks idle giveup s = Unit
IsAllowed tasks idle leave s = idle ≢ s.current_task
IsAllowed tasks idle (sleep duration) s = (idle ≢ s.current_task) × (s.scheduler_started ≡ true)
IsAllowed tasks idle (cancel t) s = has t tasks ≡ true
IsAllowed tasks idle tick s = Unit

-- A task is in the run queue or has a timer, but not both, and `idle` is in the run queue.
pub record IsSafe (callback : ℕ) (tasks : List ℕ) (idle : ℕ) (s : System) : Type 0 where
  pub queue : List ℕ
  pub sleepers : List ℕ
  pub kernel : IsKernel callback tasks s queue sleepers
  pub apart : (u : ℕ) → has u sleepers ≡ true → has u queue ≡ false
  pub ready : has idle queue ≡ true

module _ (tsc : ℕ → ℕ) (call : ℕ → ℕ → System → System) (callback fuel : ℕ) (tasks : List ℕ)
    (idle : ℕ) (is_callback : (a : ℕ) (s : System) → call callback a s ≡ timer_callback a s)
    (enough : length tasks < fuel) where
  pub few : (s : System) (i : IsSafe callback tasks idle s) → length i.sleepers < fuel
  few s i = omega (
    arith,
    enough,
    length-members i.sleepers tasks (IsDistinct-timers callback tasks s i.queue i.sleepers i.kernel)
        i.kernel.timed,
  )

  -- The running task has no timer registered.
  awake : (s : System) (i : IsSafe callback tasks idle s) → has s.current_task i.sleepers ≡ false
  awake s i = elim (Bool-cases (has s.current_task i.sleepers)) [
    | inr e ↦ e
    | inl e ↦ absurd (ground (arith, i.apart s.current_task e, i.kernel.running))
  ]

  -- Every call that is allowed in a safe state returns, and leaves a safe state.
  pub step-IsSafe :
      (c : Call) (s : System)
      → IsSafe callback tasks idle s
      → IsAllowed tasks idle c s
      → (s' : System) × (step tsc call fuel c s ≡ ok s') × IsSafe callback tasks idle s'
  unfolding step
  step-IsSafe (schedule t) s i (m, r) =
      let qs = i.queue in
      let ts = i.sleepers in
      let n = is_registered callback tasks s qs ts i.kernel t m r in
      (
        schedule_task t s,
        refl,
        record {
          queue = enqueue t qs;
          sleepers = ts;
          kernel = schedule_task-IsKernel callback tasks s qs ts i.kernel t m;
          apart = λ u h. apart_enqueue t u qs ts n i.apart h;
          ready = ground (arith, has-enqueue t idle qs, i.ready);
        },
      )
  step-IsSafe (take_out t) s i (m, o, z) =
      let qs = i.queue in
      let ts = i.sleepers in
      (
        unschedule_task t s,
        refl,
        record {
          queue = delete t qs;
          sleepers = ts;
          kernel = unschedule_task-IsKernel callback tasks s qs ts i.kernel t m o;
          apart = λ u h. has-delete_none t u qs (i.apart u h);
          ready = has-delete_other t idle qs z ∙ i.ready;
        },
      )
  step-IsSafe giveup s i a =
      let qs = i.queue in
      let ts = i.sleepers in
      let c = s.current_task in
      (
        giveup_cpu s,
        refl,
        record {
          queue = delete c qs ++ c ∷ [];
          sleepers = ts;
          kernel = giveup_cpu-IsKernel callback tasks s qs ts i.kernel;
          apart = λ u h. rotated u c qs i.kernel.running (i.apart u h);
          ready = stays idle c qs i.ready;
        },
      )
  step-IsSafe leave s i o =
      let qs = i.queue in
      let ts = i.sleepers in
      let c = s.current_task in
      (
        unschedule s,
        refl,
        record {
          queue = delete c qs;
          sleepers = ts;
          kernel = unschedule-IsKernel callback tasks s qs ts i.kernel idle i.ready o;
          apart = λ u h. has-delete_none c u qs (i.apart u h);
          ready = has-delete_other c idle qs o ∙ i.ready;
        },
      )
  step-IsSafe (sleep duration) s i (o, started) =
      let qs = i.queue in
      let ts = i.sleepers in
      let c = s.current_task in
      let (s', e, k, w, o1) =
        sleep_tsc-IsKernel tsc callback tasks s qs ts i.kernel fuel duration idle started
          (awake s i) i.ready o (few s i) in
      (
        s',
        e,
        record {
          queue = delete c qs;
          sleepers =
              insert_task
                (write s.when (task_timer c)
                  (deadline tsc callback tasks s qs ts i.kernel duration))
                c ts;
          kernel = k;
          apart = λ u h.
              apart_insert
                (write s.when (task_timer c)
                  (deadline tsc callback tasks s qs ts i.kernel duration))
                c u qs ts (has-delete callback tasks s qs ts i.kernel c) i.apart h;
          ready = has-delete_other c idle qs o ∙ i.ready;
        },
      )
  step-IsSafe (cancel t) s i m =
      let qs = i.queue in
      let ts = i.sleepers in
      let (s', e, k) = cancel_sleep-IsKernel callback tasks s qs ts t i.kernel m in
      (
        s',
        e,
        record {
          queue = enqueue t qs;
          sleepers = delete t ts;
          kernel = k;
          apart = λ u h.
              apart_enqueue t u qs (delete t ts)
                (delete-distinct t ts (IsDistinct-timers callback tasks s qs ts i.kernel))
                (λ v g. i.apart v (has-delete_sub t v ts g)) h;
          ready = ground (arith, has-enqueue t idle qs, i.ready);
        },
      )
  step-IsSafe tick s i a =
      let qs = i.queue in
      let ts = i.sleepers in
      let (s', e, w) =
        timer_interrupt-IsWoken tsc call callback tasks is_callback ts qs fuel s i.kernel
          (few s i) in
      (
        s',
        e,
        record {
          queue = (woken tsc s.when s.reads ts qs).0;
          sleepers = (woken tsc s.when s.reads ts qs).1;
          kernel = w.kernel;
          apart = λ u h.
              apart-woken tsc s.when s.reads u ts qs
                (IsDistinct-timers callback tasks s qs ts i.kernel) i.apart h;
          ready = woken-queued tsc s.when s.reads idle ts qs i.ready;
        },
      )
