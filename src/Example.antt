-- ===== src/Example.antt =====
-- A small machine for the tests: two tasks in the run queue, at 1000 and 2000, the first of them
-- running; a task at 3000 that waits for the mutex at 500, which the first one holds; and the
-- timers of the first two, registered. The mutex at 700 is free.
use borfos.Common.{ℕ, ◌+◌, true, List, [], ◌∷◌, ◌++◌, ◌==◌, if◌then◌else◌}
use borfos.Links.{Links}
use borfos.System.{System}

-- The node behind `a` in the circular list that starts with `first`; outside it, as `other` says.
abbrev behind : ℕ → List ℕ → (ℕ → ℕ) → ℕ → ℕ
behind first [] other a = other a
behind first (x ∷ []) other a = if a == x then first else other a
behind first (x ∷ y ∷ ys) other a = if a == x then y else behind first (y ∷ ys) other a

abbrev reversed : List ℕ → List ℕ
reversed [] = []
reversed (x ∷ xs) = reversed xs ++ x ∷ []

abbrev first : List ℕ → ℕ
first [] = 0
first (x ∷ xs) = x

abbrev nexts : List (List ℕ) → ℕ → ℕ
nexts [] a = a
nexts (r ∷ rs) a = behind (first r) r (nexts rs) a

abbrev prevs : List (List ℕ) → ℕ → ℕ
prevs [] a = a
prevs (r ∷ rs) a = behind (first (reversed r)) (reversed r) (prevs rs) a

-- The store with these circular lists, in which every other node is alone.
abbrev pub rings : List (List ℕ) → Links
rings rs = record { prev = prevs rs; next = nexts rs }

abbrev pub machine : System
machine = record {
  links = rings ((8 ∷ 1008 ∷ 2008 ∷ []) ∷ (16 ∷ 1016 ∷ 2016 ∷ []) ∷ (508 ∷ 600 ∷ []) ∷ []);
  tasks_in_run_queue = 2;
  current_task = 1000;
  scheduler_started = true;
  kernel_stack = λ t. t + 900;
  kernel_stack_page = λ t. t;
  stack = λ a. 0;
  esp = 1800;
  when = λ t. if t == 1016 then 10 else if t == 2016 then 20 else 15;
  func = λ t. 0;
  arg = λ t. 0;
  backend_set = true;
  backend = [];
  reads = 0;
  waiter_task = λ w. if w == 600 then 3000 else 0;
  locker = λ m. if m == 500 then 1000 else 0;
  nesting = λ m. if m == 500 then 1 else 0;
}
