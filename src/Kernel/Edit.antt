-- ===== src/Kernel/Edit.antt =====
-- A change of the run queue, or of the timers, keeps the rest of a well-formed state.
use borfos.Common.{
  ℕ, ◌≡◌, ◌≢◌, inl, inr, ap, ◌∙◌, true, false, List, [], ◌∷◌, has, arith, ◌==◌, ==_iff, ==_self,
  Bool-cases,
}
use borfos.Links.{Links, list_insert_before, list_remove}
use borfos.Links.Ring.{Ring}
use borfos.Links.Frame.{IsLinked, list_insert_before-frame, list_remove-frame}
use borfos.System.{System, queue_node, task_timer, run_queue, timers}
use borfos.Scheduler.Queue.{IsQueue, queue_nodes}
use borfos.Timers.Sorted.{IsTimers}
use borfos.Kernel.{IsKernel, timer_nodes}
use borfos.Kernel.Members.{
  has-timer_nodes, kinds, not_queue_node, not_task_timer, not_run_queue, not_timers,
}

-- The rings that hold neither `y` nor `n` are as before.
abbrev pub Keeps : Links → Links → ℕ → ℕ → Type 0
Keeps l l' y n =
    (k : ℕ) (zs : List ℕ)
    → has y (k ∷ zs) ≡ false
    → has n (k ∷ zs) ≡ false
    → Ring l k zs
    → Ring l' k zs

pub list_insert_before-Keeps :
    (l : Links) (y n : ℕ) → IsLinked l y → Keeps l (list_insert_before l y n) y n
list_insert_before-Keeps l y n i k zs f g r = list_insert_before-frame l y n k zs i f g r

pub list_remove-Keeps : (l : Links) (y n : ℕ) → IsLinked l n → Keeps l (list_remove l n) y n
list_remove-Keeps l y n i k zs f g r = list_remove-frame l n k zs i g r

-- The fields that are not links, the queue's count or the time of a timer.
abbrev pub IsSame : System → System → Type 0
IsSame s s' = (s'.func ≡ s.func) × (s'.arg ≡ s.arg) × (s'.backend_set ≡ s.backend_set)

has_eq : (a b : ℕ) (xs : List ℕ) → b ≡ a → has a xs ≡ false → has b xs ≡ false
has_eq a b xs e h = rw e h

module _ (callback : ℕ) (tasks : List ℕ) (s : System) (qs ts : List ℕ)
    (k : IsKernel callback tasks s qs ts) (t : ℕ) (m : has t tasks ≡ true) where
  calls_after :
      (s' : System)
      → IsSame s s'
      → (u : ℕ) → has u tasks ≡ true
      → (s'.func (task_timer u) ≡ callback) × (s'.arg (task_timer u) ≡ u)
  calls_after s' e u h = (
    ap (λ f. f (task_timer u)) e.0 ∙ (k.calls u h).0,
    ap (λ f. f (task_timer u)) e.1 ∙ (k.calls u h).1,
  )

  -- The run queue becomes `qs'`, which differs in `t` at most.
  pub queue_edit :
      (s' : System) (qs' : List ℕ)
      → Keeps s.links s'.links run_queue (queue_node t)
      → IsQueue s' qs'
      → ((u : ℕ) → u ≢ t → has u qs' ≡ has u qs)
      → (has t qs' ≡ false → Ring s'.links (queue_node t) [])
      → has s'.current_task qs' ≡ true
      → IsSame s s'
      → s'.when ≡ s.when
      → IsKernel callback tasks s' qs' ts
  queue_edit s' qs' keep q other lone run e w = record {
    layout = k.layout;
    queue = q;
    timers_in = record {
      ring =
          keep timers (timer_nodes ts) (not_run_queue tasks k.layout ts k.timed)
            (not_queue_node tasks k.layout t ts m k.timed) k.timers_in.ring;
      sorted = rw w k.timers_in.sorted;
    };
    queued = λ u h. elim (Bool-cases (u == t)) [
      | inl a ↦ let z : u ≡ t = ground (arith, a) in rw z m
      | inr a ↦ k.queued u (ground (arith, other u, a, h))
    ];
    timed = k.timed;
    alone = λ u h f. elim (Bool-cases (u == t)) [
      | inl a ↦ let z : u ≡ t = ground (arith, a) in rw z (lone (rw z at f))
      | inr a ↦
          keep (queue_node u) [] (ground (arith, k.layout.above u h)) (ground (arith, a))
            (k.alone u h (ground (arith, other u, a, f)))
    ];
    unarmed = λ u h f.
        keep (task_timer u) [] (ground (arith, k.layout.above u h))
          (ground (arith, kinds tasks k.layout t u m h)) (k.unarmed u h f);
    calls = calls_after s' e;
    running = run;
    backend = e.2 ∙ k.backend;
  }

  -- The other lists and nodes hold no timer of the list.
  not_listed :
      (y u : ℕ)
      → has y (timers ∷ timer_nodes ts) ≡ true
      → has u tasks ≡ true
      → has u ts ≡ false
      → (y == task_timer u) ≡ false
  not_listed y u i h f = elim (Bool-cases (y == task_timer u)) [
    | inr e ↦ e
    | inl e ↦
        let z : y ≡ task_timer u = ground (arith, e) in
        absurd (ground (arith, rw z at i, has-timer_nodes u ts, f, k.layout.above u h))
  ]

  is_timer :
      (y : ℕ) (us : List ℕ)
      → has y (timer_nodes us) ≡ true
      → (u : ℕ) × (has u us ≡ true) × (y ≡ task_timer u)
  is_timer y [] h = cc
  is_timer y (u ∷ us) h = elim (Bool-cases (y == task_timer u)) [
    | inl e ↦ (u, ground (arith, ==_self u), ground (arith, e))
    | inr e ↦ let (v, a, b) = is_timer y us (ground (arith, h, e)) in (v, ground (arith, a), b)
  ]

  no_queue :
      (y : ℕ) (ps : List ℕ)
      → has y (timers ∷ timer_nodes ts) ≡ true
      → ((x : ℕ) → has x ps ≡ true → has x tasks ≡ true)
      → has y (run_queue ∷ queue_nodes ps) ≡ false
  no_queue y ps i ms = elim (Bool-cases (y == timers)) [
    | inl e ↦
        let z : y ≡ timers = ground (arith, e) in
        has_eq timers y (run_queue ∷ queue_nodes ps) z (not_timers tasks k.layout ps ms)
    | inr e ↦
        let (u, a, b) = is_timer y ts (ground (arith, i, e)) in
        has_eq (task_timer u) y (run_queue ∷ queue_nodes ps) b
          (not_task_timer tasks k.layout u ps (k.timed u a) ms)
  ]

  no_queue_node :
      (y u : ℕ)
      → has y (timers ∷ timer_nodes ts) ≡ true
      → has u tasks ≡ true
      → has y (queue_node u ∷ []) ≡ false
  no_queue_node y u i h = ground (
    arith,
    no_queue y (u ∷ []) i (λ x g. elim (Bool-cases (x == u)) [
      | inl e ↦ let z : x ≡ u = ground (arith, e) in rw z h
      | inr e ↦ absurd (ground (arith, g, e))
    ]),
  )

  -- The timers become those of `ts'`, which differs in `t` at most.
  pub timer_edit :
      (s' : System) (y : ℕ) (ts' : List ℕ)
      → has y (timers ∷ timer_nodes ts) ≡ true
      → Keeps s.links s'.links y (task_timer t)
      → IsTimers s' (timer_nodes ts')
      → ((u : ℕ) → u ≢ t → has u ts' ≡ has u ts)
      → (has t ts' ≡ false → Ring s'.links (task_timer t) [])
      → s'.current_task ≡ s.current_task
      → s'.tasks_in_run_queue ≡ s.tasks_in_run_queue
      → IsSame s s'
      → IsKernel callback tasks s' qs ts'
  timer_edit s' y ts' i keep r other lone run count e = record {
    layout = k.layout;
    queue = record {
      ring =
          keep run_queue (queue_nodes qs) (no_queue y qs i k.queued)
            (not_task_timer tasks k.layout t qs m k.queued) k.queue.ring;
      count = count ∙ k.queue.count;
      small = k.queue.small;
    };
    timers_in = r;
    queued = k.queued;
    timed = λ u h. elim (Bool-cases (u == t)) [
      | inl a ↦ let z : u ≡ t = ground (arith, a) in rw z m
      | inr a ↦ k.timed u (ground (arith, other u, a, h))
    ];
    alone = λ u h f.
        keep (queue_node u) [] (no_queue_node y u i h)
          (ground (arith, kinds tasks k.layout u t h m, ==_iff (queue_node u) (task_timer t)))
          (k.alone u h f);
    unarmed = λ u h f. elim (Bool-cases (u == t)) [
      | inl a ↦ let z : u ≡ t = ground (arith, a) in rw z (lone (rw z at f))
      | inr a ↦
          let g : has u ts ≡ false = ground (arith, other u, a, f) in
          keep (task_timer u) [] (ground (arith, not_listed y u i h g)) (ground (arith, a))
            (k.unarmed u h g)
    ];
    calls = calls_after s' e;
    running = rw run k.running;
    backend = e.2 ∙ k.backend;
  }

-- The reads of the clock and the calls of the backend count for nothing here.
pub observe :
    (callback : ℕ) (tasks : List ℕ) (s : System) (qs ts : List ℕ) (r : ℕ) (b : List ℕ)
    → IsKernel callback tasks s qs ts
    → IsKernel callback tasks (record s { reads = r; backend = b }) qs ts
observe callback tasks s qs ts r b k = record {
  layout = k.layout;
  queue = record { ring = k.queue.ring; count = k.queue.count; small = k.queue.small };
  timers_in = record { ring = k.timers_in.ring; sorted = k.timers_in.sorted };
  queued = k.queued;
  timed = k.timed;
  alone = k.alone;
  unarmed = k.unarmed;
  calls = k.calls;
  running = k.running;
  backend = k.backend;
}
