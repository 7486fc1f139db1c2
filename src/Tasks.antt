-- ===== src/Tasks.antt =====
-- kernel/lib/scheduler.c and kernel/include/scheduler.h: the creation of tasks, and the constructor
-- that starts the idle task. The addresses that `malloc` and `kernel_page_allocate` return are
-- arguments, like the addresses of `timer_callback` and of the task's main function.
use borfos.Common.{ℕ, zero, suc, ◌+◌, u32, sub32}
use borfos.Links.{list_init}
use borfos.System.{System, write, queue_node, task_timer}
use borfos.Scheduler.{schedule_task}
use borfos.Timers.{timer_init}

-- `STACK_PUSH` of a word on the stack of a task.
unfoldable pub stack_push : ℕ → ℕ → System → System
stack_push task v s =
    let sp = sub32 (s.kernel_stack task) 4 in
    record s { kernel_stack = write s.kernel_stack task sp; stack = write s.stack sp v }

-- `memset` of so many words with 0.
unfoldable pub clear_words : ℕ → ℕ → (ℕ → ℕ) → ℕ → ℕ
clear_words zero sp f = f
clear_words (suc n) sp f = clear_words n (sp + 4) (write f sp 0)

-- `STACK_PUSH_EMPTY` of the eight words of `pushaed_registers_t`.
unfoldable pub stack_push_empty : ℕ → System → System
stack_push_empty task s =
    let sp = sub32 (s.kernel_stack task) 32 in
    record s { kernel_stack = write s.kernel_stack task sp; stack = clear_words 8 sp s.stack }

unfoldable pub create_kernel_task : ℕ → ℕ → ℕ → ℕ → System → System
create_kernel_task timer_callback new_task page func s =
    let s1 = record s {
      kernel_stack_page = write s.kernel_stack_page new_task page;
      kernel_stack = write s.kernel_stack new_task (u32 (page + 4096));
    } in
    let s2 = record s1 { links = list_init s1.links (queue_node new_task) } in
    let s3 = stack_push_empty new_task (stack_push new_task func s2) in
    timer_init (task_timer new_task) 0 timer_callback new_task s3

unfoldable pub start_kernel_task : ℕ → ℕ → ℕ → ℕ → System → System
start_kernel_task timer_callback new_task page func s =
    schedule_task new_task (create_kernel_task timer_callback new_task page func s)

-- `CONSTRUCTOR(scheduler)`; `idle` is the address of the function `idle`.
unfoldable pub scheduler_constructor : ℕ → ℕ → ℕ → ℕ → System → System
scheduler_constructor timer_callback new_task page idle s =
    record (start_kernel_task timer_callback new_task page idle s) { current_task = new_task }
