-- ===== src/Kernel/Tests.antt =====
-- The theorems about tasks at a concrete machine: the tasks at 1000 and 2000 are in the run queue,
-- the first of them running and the second the idle one; the task at 3000 sleeps until 15.
use borfos.Common.{
  ℕ, ◌+◌, ◌-◌, ◌≡◌, ◌≢◌, inl, inr, refl, false, List, [], ◌∷◌, arith, ◌==◌, Bool-cases,
  if◌then◌else◌,
}
use borfos.Links.{list_is_empty}
use borfos.System.{System, ok}
use borfos.Scheduler.{timer_callback, scheduler_start, giveup_cpu}
use borfos.Timers.{timer_interrupt, sleep_tsc}
use borfos.Tasks.{create_kernel_task, scheduler_constructor}
use borfos.Example.{machine, rings}
use borfos.Kernel.{IsLayout, IsKernel, delete, insert_task}
use borfos.Kernel.Interrupt.{woken, IsWoken, timer_interrupt-IsWoken}
use borfos.Kernel.Sleep.{sleep_tsc-IsKernel}
use borfos.Kernel.Steps.{giveup, tick, step, IsSafe}
use borfos.Kernel.Create.{IsFirstStack, create_kernel_task-IsFirstStack}
use borfos.Kernel.Boot.{IsBoot, set_timer_backend, boot-IsSafe}
use borfos.Kernel.Reach.{Reach, here, next, Reach-IsSafe, Reach-step, Reach-wakes}

abbrev tasks : List ℕ
tasks = 1000 ∷ 2000 ∷ 3000 ∷ []

abbrev kernel : System
kernel = record machine {
  links = rings ((8 ∷ 1008 ∷ 2008 ∷ []) ∷ (16 ∷ 3016 ∷ []) ∷ []);
  func = λ t. 7000;
  arg = λ t. t - 16;
}

-- The clock, and the handlers.
abbrev clock : ℕ → ℕ
clock i = 20 + i

abbrev call : ℕ → ℕ → System → System
call f a s = if f == 7000 then timer_callback a s else s

layout : IsLayout tasks
layout = record {
  above = λ t h. ground arith;
  spaced = λ t u h k n. ground arith;
  few = omega arith;
}

kernel-IsKernel : IsKernel 7000 tasks kernel (1000 ∷ 2000 ∷ []) (3000 ∷ [])
kernel-IsKernel = record {
  layout = layout;
  queue = record {
    ring = record {
      chain = (refl, refl, (refl, refl, (refl, refl)));
      distinct = (refl, (refl, (refl, tt)));
    };
    count = refl;
    small = omega arith;
  };
  timers_in = record {
    ring = record { chain = (refl, refl, (refl, refl)); distinct = (refl, (refl, tt)) };
    sorted = (omega arith, tt);
  };
  queued = λ t h. ground arith;
  timed = λ t h. ground arith;
  alone = λ t h f.
      let z : t ≡ 3000 = ground arith in
      rw z (record { chain = (refl, refl); distinct = (refl, tt) });
  unarmed = λ t h f. elim (Bool-cases (t == 1000)) [
    | inl e ↦
        let z : t ≡ 1000 = ground (arith, e) in
        rw z (record { chain = (refl, refl); distinct = (refl, tt) })
    | inr e ↦
        let z : t ≡ 2000 = ground arith in
        rw z (record { chain = (refl, refl); distinct = (refl, tt) })
  ];
  calls = λ t h. (refl, omega arith);
  running = refl;
  backend = refl;
}

kernel-IsSafe : IsSafe 7000 tasks 2000 kernel
kernel-IsSafe = record {
  queue = 1000 ∷ 2000 ∷ [];
  sleepers = 3000 ∷ [];
  kernel = kernel-IsKernel;
  apart = λ u h. ground arith;
  ready = refl;
}

is_callback : (a : ℕ) (s : System) → call 7000 a s ≡ timer_callback a s
is_callback a s = refl

timer_interrupt-IsWoken_example :
    (s' : System) × (timer_interrupt clock call 2 kernel ≡ ok s')
    × IsWoken 7000 tasks kernel (1000 ∷ 2000 ∷ 3000 ∷ [], []) s'
unfolding woken borfos.Kernel.enqueue
timer_interrupt-IsWoken_example =
    timer_interrupt-IsWoken clock call 7000 tasks is_callback (3000 ∷ []) (1000 ∷ 2000 ∷ []) 2
      kernel kernel-IsKernel (omega arith)

sleep_tsc-IsKernel_example :
    (s' : System) × (sleep_tsc clock 2 10 kernel ≡ ok s')
    × IsKernel 7000 tasks s' (2000 ∷ []) (3000 ∷ 1000 ∷ [])
    × (s'.when 1016 ≡ 30)
    × (s'.current_task ≢ 1000)
unfolding delete insert_task
sleep_tsc-IsKernel_example =
    sleep_tsc-IsKernel clock 7000 tasks kernel (1000 ∷ 2000 ∷ []) (3000 ∷ []) kernel-IsKernel 2 10
      2000 refl refl refl (omega arith) (omega arith)

-- The running task gives up the processor, and the idle one runs.
abbrev yielded : System
yielded = giveup_cpu kernel

reached : Reach clock call 4 tasks 2000 kernel yielded
unfolding step
reached = next here giveup tt refl

Reach-IsSafe_example : IsSafe 7000 tasks 2000 yielded
Reach-IsSafe_example =
    Reach-IsSafe clock call 7000 4 tasks 2000 is_callback (omega arith) kernel kernel-IsSafe yielded
      reached

Reach-step_example :
    (s' : System) × (step clock call 4 tick yielded ≡ ok s')
    × Reach clock call 4 tasks 2000 kernel s'
Reach-step_example =
    Reach-step clock call 7000 4 tasks 2000 is_callback (omega arith) kernel kernel-IsSafe yielded
      tick reached tt

Reach-wakes_example :
    (s' : System) × (timer_interrupt clock call 4 yielded ≡ ok s')
    × (list_is_empty s'.links 3008 ≡ false)
unfolding borfos.Timers.timer_is_registered list_is_empty giveup_cpu borfos.Scheduler.schedule
    borfos.Scheduler.next_task borfos.Links.list_insert_before borfos.Links.list_remove
Reach-wakes_example =
    Reach-wakes clock call 7000 4 tasks 2000 is_callback (omega arith) kernel kernel-IsSafe yielded
      3000 reached (λ i. omega arith) refl refl (omega arith)

-- The globals before the constructors.
abbrev blank : System
blank = record machine { links = rings []; tasks_in_run_queue = 0; backend_set = false }

blank-IsBoot : IsBoot blank
blank-IsBoot = record {
  no_tasks = record { chain = (refl, refl); distinct = (refl, tt) };
  no_timers = record { chain = (refl, refl); distinct = (refl, tt) };
  count = refl;
}

boot-IsSafe_example :
    IsSafe 7000
      (1000 ∷ [])
      1000
      (scheduler_start (set_timer_backend (scheduler_constructor 7000 1000 8192 6000 blank)))
boot-IsSafe_example =
    boot-IsSafe 7000 1000 8192 6000 blank blank-IsBoot (record {
      above = λ t h. ground arith;
      spaced = λ t u h k n. ground arith;
      few = omega arith;
    })

create_kernel_task-IsFirstStack_example :
    IsFirstStack 1000 8192 6000 blank (create_kernel_task 7000 1000 8192 6000 blank)
create_kernel_task-IsFirstStack_example =
    create_kernel_task-IsFirstStack 7000 1000 8192 6000 blank (omega arith)
