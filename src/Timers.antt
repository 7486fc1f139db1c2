-- ===== src/Timers.antt =====
-- kernel/lib/timers.c and kernel/include/timers.h, and the sleeping of tasks in
-- kernel/lib/scheduler.c. The clock is a parameter: `tsc k` is what the `k`-th call of `rdtsc`
-- returns; `fuel` bounds the rounds of a loop.
pub mod Sorted
mod Tests
use borfos.Common.{
  ℕ, zero, suc, ◌+◌, ◌-◌, ◌*◌, ◌^◌, Bool, true, false, not, Option, none, some, List, [], ◌∷◌, ltb,
  ◌==◌, if◌then◌else◌, u64,
}
use borfos.Links.{Links, list_init, list_insert_before, list_remove, list_is_empty}
use borfos.System.{System, Result, ok, panic, out_of_fuel, ◌>>=◌, write, timers, task_timer}
use borfos.Scheduler.{schedule_task, unschedule}

unfoldable pub timer_init : ℕ → ℕ → ℕ → ℕ → System → System
timer_init self when func arg s = record s {
  links = list_init s.links self;
  when = write s.when self when;
  func = write s.func self func;
  arg = write s.arg self arg;
}

unfoldable pub timer_is_registered : ℕ → System → Bool
timer_is_registered self s = not (list_is_empty s.links self)

-- A call of `timer_backend_set`.
unfoldable pub timer_backend_set : ℕ → System → System
timer_backend_set value s = record s { backend = value ∷ s.backend }

unfoldable pub timer_unregister : ℕ → System → Result System
timer_unregister timer s =
    let s1 = record s { links = list_remove s.links timer } in
    if not s.backend_set
    then panic
    else if timer_is_registered timer s
    then ok (
        timer_backend_set
          (if list_is_empty s1.links timers then 0 else s1.when (s1.links.next timers)) s1)
    else ok s

-- The loop of `timer_register`: the first node whose time is later, or the head.
unfoldable pub find_later : System → ℕ → ℕ → ℕ → Option ℕ
find_later s when zero node = none
find_later s when (suc fuel) node =
    let rest = find_later s when fuel (s.links.next node) in
    if node == timers then some node else if ltb when (s.when node) then some node else rest

-- The insertion in front of the node that was found.
unfoldable pub register_before : ℕ → System → Option ℕ → Result System
register_before timer s none = out_of_fuel
register_before timer s (some node) =
    let l = list_insert_before s.links node timer in
    ok (timer_backend_set (s.when (l.next timers)) (record s { links = l }))

unfoldable pub timer_register : ℕ → ℕ → System → Result System
timer_register fuel timer s =
    if not s.backend_set
    then panic
    else if timer_is_registered timer s
    then ok s
    else register_before timer s (find_later s (s.when timer) fuel (s.links.next timers))

unfoldable pub timer_register_absolute : ℕ → ℕ → ℕ → System → Result System
timer_register_absolute fuel self when s =
    timer_register fuel self (record s { when = write s.when self when })

module _ (tsc : ℕ → ℕ) where
  -- `now()`, and the state after the read.
  unfoldable pub now : System → ℕ × System
  now s = (tsc s.reads, record s { reads = s.reads + 1 })

  unfoldable pub timer_relative_init : ℕ → ℕ → ℕ → ℕ → System → System
  timer_relative_init self when func arg s =
      let (t, s1) = now s in timer_init self (u64 (t + when)) func arg s1

  unfoldable pub timer_register_relative : ℕ → ℕ → ℕ → System → Result System
  timer_register_relative fuel self when s =
      let (t, s1) = now s in timer_register_absolute fuel self (u64 (t + when)) s1

  -- `timer_interrupt_entry_point`; `call f a` is the effect of the handler at address `f` on `a`.
  unfoldable pub timer_interrupt : (ℕ → ℕ → System → System) → ℕ → System → Result System
  timer_interrupt call zero s = out_of_fuel
  timer_interrupt call (suc fuel) s =
      let timer = s.links.next timers in
      let (t, s1) = now s in
      let s2 = record s1 { links = list_remove s1.links timer } in
      let rest = timer_interrupt call fuel (call (s2.func timer) (s2.arg timer) s2) in
      if list_is_empty s.links timers
      then ok (timer_backend_set 0 s)
      else if ltb t (s.when timer)
      then ok (timer_backend_set (s.when timer) s1)
      else rest

  -- `while (now() < dest);`
  unfoldable pub spin : ℕ → ℕ → System → Result System
  spin dest zero s = out_of_fuel
  spin dest (suc fuel) s =
      let (t, s1) = now s in let rest = spin dest fuel s1 in if ltb t dest then rest else ok s1

  unfoldable pub sleep_tsc : ℕ → ℕ → System → Result System
  sleep_tsc fuel duration s =
      if s.scheduler_started
      then (timer_register_relative fuel (task_timer s.current_task) duration s >>= λ s1.
          ok (unschedule s1))
      else (let (t, s1) = now s in spin (u64 (t + duration)) fuel s1)

unfoldable pub cancel_sleep : ℕ → System → Result System
cancel_sleep task s = timer_unregister (task_timer task) s >>= λ s1. ok (schedule_task task s1)
