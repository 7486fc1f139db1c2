-- ===== src/Kernel/Boot.antt =====
-- `CONSTRUCTOR(scheduler)` and `scheduler_start` of kernel/lib/scheduler.c, and between them the
-- backend that kernel/drivers/timers/apic.c sets: the first state of the kernel.
use borfos.Common.{
  ℕ, ◌+◌, ◌≤◌, ◌≡◌, refl, ap, ◌∙◌, true, false, List, [], ◌∷◌, has, arith, ◌==◌, ==_self, u32,
}
use borfos.Links.{list_insert_before, list_is_empty}
use borfos.Links.Ring.{Ring}
use borfos.Links.Remove.{list_is_empty_iff}
use borfos.Links.Frame.{Ring-IsLinked}
use borfos.System.{System, queue_node, task_timer, run_queue, timers}
use borfos.Scheduler.{schedule_task, scheduler_start}
use borfos.Scheduler.Queue.{IsQueue, schedule_task-append}
use borfos.Tasks.{start_kernel_task, scheduler_constructor}
use borfos.Kernel.{IsLayout, IsKernel}
use borfos.Kernel.Edit.{list_insert_before-Keeps}
use borfos.Kernel.Create.{made, made_rest, made_frame, made_queue_node, made_timer}
use borfos.Kernel.Steps.{IsSafe}

-- The globals before the constructors: no task in the run queue, and no timer. The backend of the
-- timers, NULL at this point, is left open.
pub record IsBoot (s : System) : Type 0 where
  pub no_tasks : Ring s.links run_queue []
  pub no_timers : Ring s.links timers []
  pub count : s.tasks_in_run_queue ≡ 0

-- `timer_backend_set = apic_set_timer;` in the constructor of the timer, which runs after that of
-- the scheduler.
unfoldable pub set_timer_backend : System → System
set_timer_backend s = record s { backend_set = true }

-- `scheduler_start` changes neither list.
started-IsKernel :
    (callback : ℕ) (tasks : List ℕ) (s : System) (qs ts : List ℕ)
    → IsKernel callback tasks s qs ts
    → IsKernel callback tasks (scheduler_start s) qs ts
unfolding scheduler_start
started-IsKernel callback tasks s qs ts k = record {
  layout = k.layout;
  queue = record { ring = k.queue.ring; count = k.queue.count; small = k.queue.small };
  timers_in = record { ring = k.timers_in.ring; sorted = k.timers_in.sorted };
  queued = k.queued;
  timed = k.timed;
  alone = k.alone;
  unarmed = k.unarmed;
  calls = k.calls;
  running = k.running;
  backend = k.backend;
}

module _ (callback t page idle : ℕ) (s : System) (b : IsBoot s) (l : IsLayout (t ∷ [])) where
  m : has t (t ∷ []) ≡ true
  m = ground (arith, ==_self t)

  abbrev fresh : System
  fresh = made callback t page idle s

  high : 64 ≤ t
  high = l.above t m

  fresh_queue : IsQueue fresh []
  fresh_queue = record {
    ring =
        made_frame callback t page idle s run_queue [] (ground (arith, high)) (ground (arith, high))
          b.no_tasks;
    count = (made_rest callback t page idle s).0 ∙ b.count;
    small = omega arith;
  }

  booted_queue : IsQueue (schedule_task t fresh) (t ∷ [])
  booted_queue =
      schedule_task-append fresh t [] (λ z. omega (arith, z, high)) (omega arith)
        (made_queue_node callback t page idle s) (ground (arith, high)) fresh_queue

  abbrev scheduled : System
  scheduled = record fresh {
    links = list_insert_before fresh.links run_queue (queue_node t);
    tasks_in_run_queue = u32 (fresh.tasks_in_run_queue + 1);
  }

  schedules : schedule_task t fresh ≡ scheduled
  unfolding schedule_task
  schedules =
      let e : list_is_empty fresh.links (queue_node t) ≡ true =
        (list_is_empty_iff fresh.links (queue_node t) [] (made_queue_node callback t page idle s)).1
          refl in
      rw e refl

  only : (u : ℕ) → has u (t ∷ []) ≡ true → u ≡ t
  only u h = ground (arith, h)

  kept :
      (k : ℕ)
      → (run_queue == k) ≡ false
      → (queue_node t == k) ≡ false
      → Ring fresh.links k []
      → Ring scheduled.links k []
  kept k a c r =
      let i = Ring-IsLinked fresh.links run_queue run_queue [] (ground arith) fresh_queue.ring in
      list_insert_before-Keeps fresh.links run_queue (queue_node t) i k [] (ground (arith, a))
        (ground (arith, c)) r

  booted_kernel :
      IsKernel callback
        (t ∷ [])
        (record scheduled { current_task = t; backend_set = true })
        (t ∷ [])
        []
  booted_kernel =
      let (_, _, funcs, args, _, _) = made_rest callback t page idle s in
      let q : IsQueue scheduled (t ∷ []) = rw schedules at booted_queue in
      record {
        layout = l;
        queue = record { ring = q.ring; count = q.count; small = q.small };
        timers_in = record {
          ring = kept timers (ground arith) (ground (arith, high)) (
              made_frame callback t page idle s timers [] (ground (arith, high))
                (ground (arith, high)) b.no_timers);
          sorted = tt;
        };
        queued = λ u h. h;
        timed = λ u h. cc;
        alone = λ u h f. absurd (ground (arith, f, h));
        unarmed = λ u h f.
            let z = only u h in
            rw z (
              kept (task_timer t) (ground (arith, high)) (ground arith)
                (made_timer callback t page idle s));
        calls = λ u h. let z = only u h in rw (z, funcs, args) (ground arith, ground arith);
        running = m;
        backend = refl;
      }

  constructed : scheduler_constructor callback t page idle s ≡ record scheduled { current_task = t }
  unfolding scheduler_constructor start_kernel_task
  constructed = ap (λ (x : System). record x { current_task = t }) schedules

  -- With both lists empty, the run queue counted as empty, and the new task above the globals: the
  -- constructor of the scheduler, whether the timers have a backend by then or not, then the
  -- assignment of the backend by the constructor of the timer, and then `scheduler_start` leave a
  -- safe state in which the new task is the idle one.
  pub boot-IsSafe :
      IsSafe callback
        (t ∷ [])
        t
        (scheduler_start (set_timer_backend (scheduler_constructor callback t page idle s)))
  unfolding set_timer_backend
  boot-IsSafe = record {
    queue = t ∷ [];
    sleepers = [];
    kernel =
        started-IsKernel callback (t ∷ [])
          (set_timer_backend (scheduler_constructor callback t page idle s)) (t ∷ []) []
          (rw constructed booted_kernel);
    apart = λ u h. cc;
    ready = m;
  }
