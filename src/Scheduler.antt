-- ===== src/Scheduler.antt =====
-- kernel/lib/scheduler.c and kernel/include/scheduler.h: the run queue and the switch of tasks.
pub mod Queue
pub mod RoundRobin
mod Tests
use borfos.Common.{ℕ, zero, suc, ◌+◌, ◌-◌, Bool, true, not, ◌==◌, if◌then◌else◌, u32, sub32, leb}
use borfos.Links.{Links, list_insert_before, list_remove, list_is_empty}
use borfos.System.{System, write, run_queue, queue_node, task_of_queue_node}

unfoldable pub schedule_task : ℕ → System → System
schedule_task task s =
    if list_is_empty s.links (queue_node task)
    then record s {
      links = list_insert_before s.links run_queue (queue_node task);
      tasks_in_run_queue = u32 (s.tasks_in_run_queue + 1);
    }
    else s

-- What the timer of a task calls with it.
unfoldable pub timer_callback : ℕ → System → System
timer_callback arg s = schedule_task arg s

unfoldable pub unschedule_task : ℕ → System → System
unschedule_task task s =
    if not (list_is_empty s.links (queue_node task))
    then record s {
      links = list_remove s.links (queue_node task);
      tasks_in_run_queue = sub32 s.tasks_in_run_queue 1;
    }
    else s

unfoldable pub next_task : System → System
next_task s = record s { current_task = task_of_queue_node (s.links.next run_queue) }

-- `schedule`: the registers go to the stack of the running task, whose pointer is kept in its
-- `kernel_stack`, and come back from that of the next one. `pusha` stores eight words.
unfoldable pub schedule : System → System
schedule s =
    let s1 =
      next_task
        (record s { kernel_stack = write s.kernel_stack s.current_task (sub32 s.esp 32) }) in
    record s1 { esp = u32 (s1.kernel_stack s1.current_task + 32) }

-- `scheduler_start` enters `schedule` behind the save, at the first task.
unfoldable pub scheduler_start : System → System
scheduler_start s = record s {
  scheduler_started = true;
  esp = u32 (s.kernel_stack s.current_task + 32);
}

unfoldable pub giveup_cpu : System → System
giveup_cpu s =
    let l = list_remove s.links (queue_node s.current_task) in
    schedule (record s { links = list_insert_before l run_queue (queue_node s.current_task) })

unfoldable pub unschedule : System → System
unschedule s = schedule (record s {
  links = list_remove s.links (queue_node s.current_task);
  tasks_in_run_queue = sub32 s.tasks_in_run_queue 1;
})

-- The test in the loop of `idle`, behind `giveup_cpu`: whether it waits for an interrupt.
unfoldable pub idle_waits : System → Bool
idle_waits s = leb s.tasks_in_run_queue 1
