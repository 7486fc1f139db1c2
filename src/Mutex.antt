-- ===== src/Mutex.antt =====
-- kernel/lib/mutex.c and kernel/include/mutex.h. `mutex_lock` of a mutex that another task holds
-- gives up the processor in its middle: `mutex_lock` is the part up to the switch, and
-- `mutex_lock_resume` what the task runs when it is switched to again. A mutex at the address `m`
-- has its list of waiters at `m + 8`; `waiter` is the address of the `waiter_t` on the stack.
pub mod Steps
pub mod Nested
mod Tests
use borfos.Common.{ℕ, zero, suc, ◌+◌, ◌-◌, Bool, true, not, ◌==◌, if◌then◌else◌, u32}
use borfos.Links.{Links, list_init, list_insert_before, list_remove, list_is_empty}
use borfos.System.{System, Result, ok, panic, write}
use borfos.Scheduler.{schedule_task, unschedule}

abbrev pub waiters : ℕ → ℕ
waiters m = m + 8

unfoldable pub mutex_init : ℕ → System → System
mutex_init m s = record s {
  locker = write s.locker m 0;
  nesting = write s.nesting m 0;
  links = list_init s.links (waiters m);
}

-- How the first part of `mutex_lock` ends.
pub data Lock : Type 0 where
  entered : System → Lock
  waiting : System → Lock
  panicked : Lock

-- `++self->nesting; PANIC_IF(0 == self->nesting);`
unfoldable pub nest : ℕ → System → Lock
nest m s =
    let s1 = record s { nesting = write s.nesting m (u32 (s.nesting m + 1)) } in
    if s1.nesting m == 0 then panicked else entered s1

unfoldable pub take_lock : ℕ → System → Lock
take_lock m s = nest m (record s { locker = write s.locker m s.current_task })

unfoldable pub enqueue_waiter : ℕ → ℕ → System → System
enqueue_waiter m waiter s = record s {
  links = list_insert_before s.links (waiters m) waiter;
  waiter_task = write s.waiter_task waiter s.current_task;
}

unfoldable pub mutex_lock : ℕ → ℕ → System → Lock
mutex_lock m waiter s =
    if not (s.locker m == 0)
    then (if s.locker m == s.current_task
        then nest m s
        else waiting (unschedule (enqueue_waiter m waiter s)))
    else take_lock m s

unfoldable pub mutex_lock_resume : ℕ → ℕ → System → Lock
mutex_lock_resume m waiter s = take_lock m (record s { links = list_remove s.links waiter })

-- The waiter that is woken: LIST_ELEMENT_AT(self->waiters.next, waiter_t, node)->task.
unfoldable pub wake_waiter : ℕ → System → System
wake_waiter m s =
    if not (list_is_empty s.links (waiters m))
    then schedule_task (s.waiter_task (s.links.next (waiters m))) s
    else s

unfoldable pub mutex_unlock : ℕ → System → Result System
mutex_unlock m s =
    let nesting = s.nesting m - 1 in
    let s1 = record s { nesting = write s.nesting m nesting } in
    if not (s.locker m == s.current_task)
    then panic
    else if s.nesting m == 0
    then panic
    else if nesting == 0
    then ok (wake_waiter m (record s1 { locker = write s1.locker m 0 }))
    else ok s1
