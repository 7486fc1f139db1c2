-- ===== src/Kernel/Due.antt =====
-- What an interrupt of the timers wakes: every task whose time has come.
use borfos.Common.{
  ℕ, ◌+◌, ◌<◌, ◌≤◌, ◌≡◌, inl, inr, true, ◌||◌, List, [], ◌∷◌, has, length, has-append, arith, ◌==◌,
  ==_self, ltb, Bool-cases,
}
use borfos.System.{System, ok, task_timer}
use borfos.Scheduler.{timer_callback}
use borfos.Timers.{timer_interrupt}
use borfos.Timers.Sorted.{IsSorted}
use borfos.Kernel.{IsKernel, timer_nodes, enqueue}
use borfos.Kernel.Interrupt.{woken, timer_interrupt-IsWoken}

pub has-enqueue : (t u : ℕ) (qs : List ℕ) → has u (enqueue t qs) ≡ ((u == t) || has u qs)
unfolding enqueue
has-enqueue t u qs = elim (Bool-cases (has t qs)) [
  | inl h ↦ rw h (elim (Bool-cases (u == t)) [
    | inl e ↦ let z : u ≡ t = ground (arith, e) in rw z (ground (arith, h, ==_self t))
    | inr e ↦ ground (arith, e)
  ])
  | inr h ↦ rw h (ground (arith, has-append u qs (t ∷ [])))
]

module _ (tsc : ℕ → ℕ) (when : ℕ → ℕ) where
  -- A task that is in the run queue stays in it.
  pub woken-queued :
      (r u : ℕ) (ts qs : List ℕ) → has u qs ≡ true → has u (woken tsc when r ts qs).0 ≡ true
  unfolding woken
  woken-queued r u [] qs h = h
  woken-queued r u (t ∷ ts) qs h = elim (Bool-cases (ltb (tsc r) (when (task_timer t)))) [
    | inl e ↦ rw e h
    | inr e ↦
        rw e (woken-queued (r + 1) u ts (enqueue t qs) (ground (arith, has-enqueue t u qs, h)))
  ]

  later :
      (u : ℕ) (from : ℕ) (ts : List ℕ)
      → IsSorted when from (timer_nodes ts)
      → has u ts ≡ true
      → from ≤ when (task_timer u)
  later u from [] o h = cc
  later u from (t ∷ ts) o h = elim (Bool-cases (u == t)) [
    | inl e ↦ let z : u ≡ t = ground (arith, e) in rw z o.0
    | inr e ↦ omega (arith, o.0, later u (when (task_timer t)) ts o.1 (ground (arith, h, e)))
  ]

  -- With a clock that does not go back, a task whose time has come at the first reading is scheduled.
  woken-due :
      (r u from : ℕ) (ts qs : List ℕ)
      → ((i : ℕ) → tsc i ≤ tsc (i + 1))
      → IsSorted when from (timer_nodes ts)
      → has u ts ≡ true
      → when (task_timer u) ≤ tsc r
      → has u (woken tsc when r ts qs).0 ≡ true
  unfolding woken
  woken-due r u from [] qs mono o h d = cc
  woken-due r u from (t ∷ ts) qs mono o h d =
      elim (Bool-cases (ltb (tsc r) (when (task_timer t)))) [
        | inl e ↦
            let a : tsc r < when (task_timer t) = ground (arith, e) in
            let b = later u (when (task_timer t)) (t ∷ ts) (omega arith, o.1) h in
            absurd (omega (arith, a, b, d))
        | inr e ↦ elim (Bool-cases (u == t)) [
          | inl f ↦
              rw e
                (woken-queued (r + 1) u ts (enqueue t qs) (ground (arith, has-enqueue t u qs, f)))
          | inr f ↦ rw e (
              woken-due (r + 1) u (when (task_timer t)) ts (enqueue t qs) mono o.1
                (ground (arith, h, f)) (omega (arith, d, mono r)))
        ]
      ]

module _ (tsc : ℕ → ℕ) (call : ℕ → ℕ → System → System) (callback : ℕ) (tasks : List ℕ)
    (is_callback : (a : ℕ) (s : System) → call callback a s ≡ timer_callback a s) where
  -- No sleeper is lost: if the clock does not go back, an interrupt at or behind the time of the timer
  -- of a task leaves the task in the run queue, and the state well formed.
  pub timer_interrupt-due :
      (ts qs : List ℕ) (fuel u : ℕ) (s : System)
      → IsKernel callback tasks s qs ts
      → ((i : ℕ) → tsc i ≤ tsc (i + 1))
      → length ts < fuel
      → has u ts ≡ true
      → s.when (task_timer u) ≤ tsc s.reads
      → (s' : System) × (qs' : List ℕ) × (ts' : List ℕ) × (timer_interrupt tsc call fuel s ≡ ok s')
        × IsKernel callback tasks s' qs' ts'
        × (has u qs' ≡ true)
  timer_interrupt-due ts qs fuel u s k mono enough h d =
      let (s', e, w) =
        timer_interrupt-IsWoken tsc call callback tasks is_callback ts qs fuel s k enough in
      let left = woken tsc s.when s.reads ts qs in
      (
        s',
        left.0,
        left.1,
        e,
        w.kernel,
        woken-due tsc s.when s.reads u 0 ts qs mono k.timers_in.sorted h d,
      )
