-- ===== src/System.antt =====
-- The state that the scheduler, the timers and the mutexes share: the store of list nodes, the
-- globals, and the fields of `task_t`, `timer_t`, `waiter_t` and `mutex_t` at their addresses.
-- Offsets are those of the 32-bit layout; NULL is 0.
use borfos.Common.{ℕ, ◌+◌, ◌-◌, Bool, List, ◌==◌, if◌then◌else◌}
use borfos.Links.{Links}

pub record System : Type 0 where
  pub links : Links
  pub tasks_in_run_queue : ℕ
  pub current_task : ℕ
  pub scheduler_started : Bool
  -- `task_t.kernel_stack` and `kernel_stack_page`, the words of the stacks, and the stack pointer of
  -- the running task
  pub kernel_stack : ℕ → ℕ
  pub kernel_stack_page : ℕ → ℕ
  pub stack : ℕ → ℕ
  pub esp : ℕ
  -- `timer_t.when`, `timer_t.func` and `timer_t.arg`
  pub when : ℕ → ℕ
  pub func : ℕ → ℕ
  pub arg : ℕ → ℕ
  -- whether `timer_backend_set` is set, its calls, the last one first, and the number of reads of the clock
  pub backend_set : Bool
  pub backend : List ℕ
  pub reads : ℕ
  -- `waiter_t.task`, `mutex_t.locker` and `mutex_t.nesting`
  pub waiter_task : ℕ → ℕ
  pub locker : ℕ → ℕ
  pub nesting : ℕ → ℕ

-- A write to a field at an address.
abbrev pub write : (ℕ → ℕ) → ℕ → ℕ → ℕ → ℕ
write f a v b = if b == a then v else f b

-- The addresses of the globals `run_queue` and `timers`.
abbrev pub run_queue : ℕ
run_queue = 8

abbrev pub timers : ℕ
timers = 16

-- &task->queue_node and &task->timer, and LIST_ELEMENT_AT(node, task_t, queue_node).
abbrev pub queue_node : ℕ → ℕ
queue_node task = task + 8

abbrev pub task_timer : ℕ → ℕ
task_timer task = task + 16

abbrev pub task_of_queue_node : ℕ → ℕ
task_of_queue_node node = node - 8

-- PANIC prints a message and freezes the machine.
pub data Result {ℓ} (A : Type ℓ) : Type ℓ where
  ok : A → Result A
  panic : Result A
  out_of_fuel : Result A

infixl 5 ◌>>=◌
abbrev pub ◌>>=◌ {ℓ κ} : {A : Type ℓ} {B : Type κ} → Result A → (A → Result B) → Result B
ok a >>= k = k a
panic >>= k = panic
out_of_fuel >>= k = out_of_fuel
