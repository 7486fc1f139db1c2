-- ===== src/Kernel/Interrupt.antt =====
-- The timer interrupt on a well-formed state: the tasks whose time has come are scheduled.
use borfos.Common.{
  ℕ, zero, suc, ◌+◌, ◌<◌, ◌≡◌, inl, inr, refl, ap, ◌∙◌, true, false, List, [], ◌∷◌, length, arith,
  ==_self, ltb, Bool-cases, if◌then◌else◌,
}
use borfos.Links.{list_remove, list_is_empty}
use borfos.Links.Remove.{list_is_empty_iff}
use borfos.System.{System, ok, queue_node, task_timer, timers}
use borfos.Scheduler.{schedule_task, timer_callback}
use borfos.Timers.{now, timer_backend_set, timer_interrupt}
use borfos.Timers.Sorted.{first_when}
use borfos.Kernel.{IsKernel, timer_nodes, enqueue, delete}
use borfos.Kernel.Queue.{schedule_task-IsKernel}
use borfos.Kernel.Timers.{timer_out}
use borfos.Kernel.Edit.{observe}

-- The tasks that are scheduled, and those whose timers are left, when the clock reads `tsc reads`,
-- `tsc (reads + 1)`, … : in the order of their times, up to the first that is later.
unfoldable pub woken : (ℕ → ℕ) → (ℕ → ℕ) → ℕ → List ℕ → List ℕ → List ℕ × List ℕ
woken tsc when reads [] qs = (qs, [])
woken tsc when reads (t ∷ ts) qs =
    let rest = woken tsc when (reads + 1) ts (enqueue t qs) in
    if ltb (tsc reads) (when (task_timer t)) then (qs, t ∷ ts) else rest

delete_first : (t : ℕ) (ts : List ℕ) → delete t (t ∷ ts) ≡ ts
unfolding delete
delete_first t ts = ground (arith, ==_self t)

record IsRest (s s' : System) : Type 0 where
  when_same : s'.when ≡ s.when
  reads_same : s'.reads ≡ s.reads
  backend_same : s'.backend ≡ s.backend
  current_same : s'.current_task ≡ s.current_task

schedule_task-IsRest : (t : ℕ) (s : System) → IsRest s (schedule_task t s)
unfolding schedule_task
schedule_task-IsRest t s = elim (Bool-cases (list_is_empty s.links (queue_node t))) [
  | inl e ↦
      rw e
        (record { when_same = refl; reads_same = refl; backend_same = refl; current_same = refl })
  | inr e ↦
      rw e
        (record { when_same = refl; reads_same = refl; backend_same = refl; current_same = refl })
]

-- What the interrupt leaves: `left` are the tasks in the run queue and those with a timer.
pub record IsWoken (callback : ℕ) (tasks : List ℕ) (s : System) (left : List ℕ × List ℕ)
    (s' : System) : Type 0 where
  pub kernel : IsKernel callback tasks s' left.0 left.1
  pub times : s'.when ≡ s.when
  pub current : s'.current_task ≡ s.current_task
  pub backend : s'.backend ≡ first_when s.when (timer_nodes left.1) ∷ s.backend

module _ (tsc : ℕ → ℕ) (call : ℕ → ℕ → System → System) (callback : ℕ) (tasks : List ℕ)
    (is_callback : (a : ℕ) (s : System) → call callback a s ≡ timer_callback a s) where
  -- In a well-formed state, with more fuel than timers and `timer_callback` behind the address that
  -- the timers call, the interrupt returns as `woken` says: it schedules the tasks whose times have
  -- come, in the order of their times, leaves the timers of the others, and sets the backend to the
  -- first of these, or to 0. The state stays well formed.
  pub timer_interrupt-IsWoken :
      (ts qs : List ℕ) (fuel : ℕ) (s : System)
      → IsKernel callback tasks s qs ts
      → length ts < fuel
      → (s' : System) × (timer_interrupt tsc call fuel s ≡ ok s')
        × IsWoken callback tasks s (woken tsc s.when s.reads ts qs) s'
  unfolding timer_interrupt woken now timer_backend_set
  timer_interrupt-IsWoken ts qs zero s k h = absurd (omega arith)
  timer_interrupt-IsWoken [] qs (suc fuel) s k h =
      let e : list_is_empty s.links timers ≡ true =
        (list_is_empty_iff s.links timers [] k.timers_in.ring).1 refl in
      (
        record s { backend = 0 ∷ s.backend },
        simp e,
        record {
          kernel = observe callback tasks s qs [] s.reads (0 ∷ s.backend) k;
          times = refl;
          current = refl;
          backend = refl;
        },
      )
  timer_interrupt-IsWoken (t ∷ ts) qs (suc fuel) s k h =
      let n = task_timer t in
      let e : list_is_empty s.links timers ≡ false =
        elim (Bool-cases (list_is_empty s.links timers)) [
          | inr e ↦ e
          | inl e ↦ absurd (
              cons_ne
                ((list_is_empty_iff s.links timers (timer_nodes (t ∷ ts)) k.timers_in.ring).0 e))
        ] in
      let f : s.links.next timers ≡ n = k.timers_in.ring.chain.0 in
      elim (Bool-cases (ltb (tsc s.reads) (s.when n))) [
        | inl a ↦ (
          record s { reads = s.reads + 1; backend = s.when n ∷ s.backend },
          simp (e, f, a),
          rw a (record {
            kernel = observe callback tasks s qs (t ∷ ts) (s.reads + 1) (s.when n ∷ s.backend) k;
            times = refl;
            current = refl;
            backend = refl;
          }),
        )
        | inr a ↦
            let m = k.timed t (ground (arith, ==_self t)) in
            let s2 = record s { reads = s.reads + 1; links = list_remove s.links n } in
            let k2 : IsKernel callback tasks s2 qs (delete t (t ∷ ts)) =
              timer_out callback tasks s qs (t ∷ ts) k t s2 (ground (arith, ==_self t)) refl refl
                refl refl (refl, refl, refl) in
            let k3 : IsKernel callback tasks s2 qs ts = rw (delete_first t ts) at k2 in
            let s3 = schedule_task t s2 in
            let k4 = schedule_task-IsKernel callback tasks s2 qs ts k3 t m in
            let o = schedule_task-IsRest t s2 in
            let (s', b, w) =
              timer_interrupt-IsWoken ts (enqueue t qs) fuel s3 k4 (omega (arith, h)) in
            let c : call (s.func n) (s.arg n) s2 ≡ s3 =
              ap (λ (g : ℕ). call g (s.arg n) s2) (k.calls t m).0
              ∙ ap (λ (g : ℕ). call callback g s2) (k.calls t m).1
              ∙ unfold timer_callback in is_callback t s2 in
            (
              s',
              simp (e, f, a, c, b),
              rw a (record {
                kernel = rw (o.when_same, o.reads_same) at w.kernel;
                times = w.times ∙ o.when_same;
                current = w.current ∙ o.current_same;
                backend = rw (o.when_same, o.reads_same, o.backend_same) at w.backend;
              }),
            )
      ]
    where
      cons_ne : timer_nodes (t ∷ ts) ≡ [] → ⊥
      cons_ne z = cc
