-- ===== src/Scheduler/Queue.antt =====
-- The run queue as the list of the tasks in it.
use borfos.Common.{
  ℕ, ◌+◌, ◌^◌, ◌<◌, u32, sub32, ◌≡◌, ◌≢◌, refl, true, false, List, [], ◌∷◌, ◌++◌, arith, has,
  length, length-append, IsDistinct-middle,
}
use borfos.Links.{list_remove, list_is_empty}
use borfos.Links.Ring.{Ring, list_insert_before-append}
use borfos.Links.Remove.{list_remove-Ring, list_is_empty_iff, list_is_empty-middle}
use borfos.System.{System, write, run_queue, queue_node}
use borfos.Scheduler.{schedule_task, unschedule_task, next_task, schedule, giveup_cpu, unschedule}

abbrev pub queue_nodes : List ℕ → List ℕ
queue_nodes [] = []
queue_nodes (t ∷ ts) = queue_node t ∷ queue_nodes ts

pub queue_nodes-append :
    (ts us : List ℕ) → queue_nodes (ts ++ us) ≡ queue_nodes ts ++ queue_nodes us
queue_nodes-append [] us = refl
queue_nodes-append (t ∷ ts) us = rw (queue_nodes-append ts us)

pub has-queue_nodes : (t : ℕ) (ts : List ℕ) → has (queue_node t) (queue_nodes ts) ≡ has t ts
has-queue_nodes t [] = refl
has-queue_nodes t (u ∷ us) = ground (arith, has-queue_nodes t us)

-- The tasks `ts` are in the run queue, in this order, and are counted.
pub record IsQueue (s : System) (ts : List ℕ) : Type 0 where
  pub ring : Ring s.links run_queue (queue_nodes ts)
  pub count : s.tasks_in_run_queue ≡ length ts
  pub small : length ts + 1 < 2 ^ 32

-- A task that is in no list is put at the end of the run queue.
pub schedule_task-append :
    (s : System) (t : ℕ) (ts : List ℕ)
    → t ≢ 0
    → length ts + 2 < 2 ^ 32
    → Ring s.links (queue_node t) []
    → has t ts ≡ false
    → IsQueue s ts
    → IsQueue (schedule_task t s) (ts ++ t ∷ [])
unfolding schedule_task
schedule_task-append s t ts pos room alone out q =
    let e : list_is_empty s.links (queue_node t) ≡ true =
      (list_is_empty_iff s.links (queue_node t) [] alone).1 refl in
    rw e (record {
      ring = rw queue_nodes-append (
          list_insert_before-append s.links run_queue (queue_node t) (queue_nodes ts)
            (ground (arith, has-queue_nodes t ts)) q.ring);
      count = omega (arith, length-append ts (t ∷ []), q.count, q.small);
      small = omega (arith, length-append ts (t ∷ []), q.small, room);
    })

module _ (s : System) (t : ℕ) (ts us : List ℕ) (q : IsQueue s (ts ++ t ∷ us)) where
  ring : Ring s.links run_queue (queue_nodes ts ++ queue_node t ∷ queue_nodes us)
  ring = rw queue_nodes-append at q.ring

  not_alone : list_is_empty s.links (queue_node t) ≡ false
  not_alone =
      list_is_empty-middle s.links run_queue (queue_node t) (queue_nodes ts) (queue_nodes us) ring

  -- Scheduling a task that is in the run queue changes nothing.
  pub schedule_task-queued : schedule_task t s ≡ s
  unfolding schedule_task
  schedule_task-queued = rw not_alone

  removed : Ring (list_remove s.links (queue_node t)) run_queue (queue_nodes (ts ++ us))
  removed =
      rw queue_nodes-append
        (list_remove-Ring s.links run_queue (queue_node t) (queue_nodes ts) (queue_nodes us) ring).0

  alone : Ring (list_remove s.links (queue_node t)) (queue_node t) []
  alone =
      (list_remove-Ring s.links run_queue (queue_node t) (queue_nodes ts) (queue_nodes us) ring).1

  fresh : has (queue_node t) (run_queue ∷ queue_nodes (ts ++ us)) ≡ false
  fresh =
      rw queue_nodes-append (
        IsDistinct-middle (run_queue ∷ queue_nodes ts) (queue_node t) (queue_nodes us)
          ring.distinct)

  -- `unschedule_task` takes a task out of the run queue and keeps the order of the others.
  pub unschedule_task-remove :
      IsQueue (unschedule_task t s) (ts ++ us) × Ring (unschedule_task t s).links (queue_node t) []
  unfolding unschedule_task
  unschedule_task-remove =
      let l = length-append ts (t ∷ us) in
      let l' = length-append ts us in
      rw not_alone (
        record {
          ring = removed;
          count = omega (arith, q.count, q.small, l, l');
          small = omega (arith, q.small, l, l');
        },
        alone,
      )

-- The task at the head of the run queue is the next one to run.
pub next_task-head :
    (s : System) (t : ℕ) (ts : List ℕ)
    → Ring s.links run_queue (queue_nodes (t ∷ ts))
    → (next_task s).current_task ≡ t
unfolding next_task
next_task-head s t ts r = omega (arith, r.chain.0)

-- The running task keeps its registers on its own stack, and the next one gets its own back.
pub record IsSwitch (s s' : System) : Type 0 where
  pub saved : s'.kernel_stack ≡ write s.kernel_stack s.current_task (sub32 s.esp 32)
  pub loaded : s'.esp ≡ u32 (s'.kernel_stack s'.current_task + 32)

module _ (s : System) (ts us : List ℕ) (q : IsQueue s (ts ++ s.current_task ∷ us)) where
  -- `giveup_cpu` moves the running task, wherever it is in the run queue, to its end, and keeps the
  -- order of the others.
  pub giveup_cpu-rotate : IsQueue (giveup_cpu s) ((ts ++ us) ++ s.current_task ∷ [])
  unfolding giveup_cpu schedule next_task
  giveup_cpu-rotate =
      let c = s.current_task in
      let r = removed s c ts us q in
      record {
        ring = rw queue_nodes-append (
            list_insert_before-append (list_remove s.links (queue_node c)) run_queue (queue_node c)
              (queue_nodes (ts ++ us)) (fresh s c ts us q) r);
        count = omega (
          arith,
          q.count,
          length-append (ts ++ us) (c ∷ []),
          length-append ts us,
          length-append ts (c ∷ us),
        );
        small = omega (
          arith,
          q.small,
          length-append (ts ++ us) (c ∷ []),
          length-append ts us,
          length-append ts (c ∷ us),
        );
      }

  -- Behind `giveup_cpu` the task `t` at the head of the new run queue runs: the stack pointer of the
  -- old one is kept below its eight registers, and the new one's comes from where it was kept.
  pub giveup_cpu-IsSwitch :
      (t : ℕ) (rest : List ℕ)
      → (ts ++ us) ++ s.current_task ∷ [] ≡ t ∷ rest
      → IsSwitch s (giveup_cpu s) × ((giveup_cpu s).current_task ≡ t)
  giveup_cpu-IsSwitch t rest e =
      let r : Ring (giveup_cpu s).links run_queue (queue_nodes (t ∷ rest)) =
        rw e at giveup_cpu-rotate.ring in
      (
        unfold giveup_cpu schedule next_task in record { saved = refl; loaded = refl },
        unfold giveup_cpu schedule next_task in omega (arith, r.chain.0),
      )

  -- `unschedule` takes the running task out of the run queue; it is then in no list.
  pub unschedule-remove :
      IsQueue (unschedule s) (ts ++ us) × Ring (unschedule s).links (queue_node s.current_task) []
  unfolding unschedule schedule next_task
  unschedule-remove =
      let c = s.current_task in
      let l = length-append ts (c ∷ us) in
      let l' = length-append ts us in
      (
        record {
          ring = removed s c ts us q;
          count = omega (arith, q.count, q.small, l, l');
          small = omega (arith, q.small, l, l');
        },
        alone s c ts us q,
      )

  -- Behind `unschedule`, if a task is left in the run queue, the one at its head runs, on the stack
  -- pointer that was kept for it, and that of the old one is kept.
  pub unschedule-IsSwitch :
      (t : ℕ) (rest : List ℕ)
      → ts ++ us ≡ t ∷ rest
      → IsSwitch s (unschedule s) × ((unschedule s).current_task ≡ t)
  unschedule-IsSwitch t rest e =
      let r : Ring (unschedule s).links run_queue (queue_nodes (t ∷ rest)) =
        rw e at unschedule-remove.0.ring in
      (
        unfold unschedule schedule next_task in record { saved = refl; loaded = refl },
        unfold unschedule schedule next_task in omega (arith, r.chain.0),
      )
