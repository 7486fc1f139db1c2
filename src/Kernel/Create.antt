-- ===== src/Kernel/Create.antt =====
-- New tasks: their first stack, and their place among the tasks of the kernel.
use borfos.Common.{
  ℕ, zero, suc, ◌+◌, ◌*◌, ◌^◌, ◌<◌, ◌≤◌, ◌≡◌, ◌≢◌, ◌⊎◌, inl, inr, refl, ◌∙◌, true, false, List, [],
  ◌∷◌, has, arith, ◌==◌, ==_iff, ==_self, Bool-cases, u32, sub32,
}
use borfos.Links.{Links, list_init}
use borfos.Links.Ring.{Ring}
use borfos.Links.Frame.{list_init-frame, list_init-Ring}
use borfos.System.{System, write, queue_node, task_timer, run_queue, timers}
use borfos.Scheduler.Queue.{queue_nodes, has-queue_nodes}
use borfos.Timers.{timer_init}
use borfos.Tasks.{stack_push, clear_words, stack_push_empty, create_kernel_task}
use borfos.Kernel.{IsLayout, IsKernel, timer_nodes}
use borfos.Kernel.Members.{kinds, not_queue_node, not_task_timer, has-timer_nodes}
use borfos.Kernel.Sleep.{IsSorted-other}

clear_words-outside :
    (n sp a : ℕ) (f : ℕ → ℕ) → (a < sp) ⊎ (sp + 4 * n ≤ a) → clear_words n sp f a ≡ f a
unfolding clear_words
clear_words-outside zero sp a f o = refl
clear_words-outside (suc n) sp a f (inl o) =
    ground (arith, clear_words-outside n (sp + 4) a (write f sp 0) (inl (omega (arith, o))))
clear_words-outside (suc n) sp a f (inr o) =
    ground (arith, clear_words-outside n (sp + 4) a (write f sp 0) (inr (omega (arith, o))))

clear_words-inside : (n sp i : ℕ) (f : ℕ → ℕ) → i < n → clear_words n sp f (sp + 4 * i) ≡ 0
unfolding clear_words
clear_words-inside zero sp i f h = absurd (omega (arith, h))
clear_words-inside (suc n) sp zero f h =
    ground (arith, clear_words-outside n (sp + 4) sp (write f sp 0) (inl (omega arith)))
clear_words-inside (suc n) sp (suc i) f h =
    let e : sp + 4 * suc i ≡ (sp + 4) + 4 * i = omega arith in
    rw e (clear_words-inside n (sp + 4) i (write f sp 0) (omega (arith, h)))

-- The first stack of a task: `func` as the address to return to at the top of its page, and below it
-- the registers that `schedule` pops, all 0. The other words are as before.
pub record IsFirstStack (t page func : ℕ) (s s' : System) : Type 0 where
  pub pointer : s'.kernel_stack t + 36 ≡ page + 4096
  pub entry : s'.stack (s'.kernel_stack t + 32) ≡ func
  pub registers : (i : ℕ) → i < 8 → s'.stack (s'.kernel_stack t + 4 * i) ≡ 0
  pub others : (a : ℕ) → (a < page + 4060) ⊎ (page + 4096 ≤ a) → s'.stack a ≡ s.stack a

module _ (callback t page func : ℕ) (s : System) where
  abbrev pub made : System
  made = create_kernel_task callback t page func s

  made_stack :
      page + 4096 < 2 ^ 32
      → made.stack ≡ clear_words 8 (page + 4060) (write s.stack (page + 4092) func)
  unfolding create_kernel_task stack_push stack_push_empty timer_init
  made_stack small =
      let a : sub32 (u32 (page + 4096)) 4 ≡ page + 4092 = ground arith in
      let b : sub32 (page + 4092) 32 ≡ page + 4060 = ground arith in simp (==_self t, a, b)

  -- A new task whose page ends below 4 GiB has its first stack there: `schedule` finds the main
  -- function as the address to return to behind eight registers that are 0.
  pub create_kernel_task-IsFirstStack : page + 4096 < 2 ^ 32 → IsFirstStack t page func s made
  create_kernel_task-IsFirstStack small =
      let p : made.kernel_stack t ≡ page + 4060 =
        unfold create_kernel_task stack_push stack_push_empty timer_init in ground arith in
      let f = write s.stack (page + 4092) func in
      let e = made_stack small in
      record {
        pointer = omega (arith, p);
        entry =
            rw (p, e)
              (clear_words-outside 8 (page + 4060) ((page + 4060) + 32) f (inr (omega arith))
                ∙ ground arith);
        registers = λ i h. rw (p, e) (clear_words-inside 8 (page + 4060) i f h);
        others = λ a h. rw e (elim h [
          | inl o ↦ clear_words-outside 8 (page + 4060) a f (inl o) ∙ ground (arith, o)
          | inr o ↦
              clear_words-outside 8 (page + 4060) a f (inr (omega (arith, o))) ∙ ground (arith, o)
        ]);
      }

  fresh_links : Links
  fresh_links = list_init (list_init s.links (queue_node t)) (task_timer t)

  made_links : made.links ≡ list_init (list_init s.links (queue_node t)) (task_timer t)
  unfolding create_kernel_task stack_push stack_push_empty timer_init
  made_links = refl

  -- A ring that holds neither node of the new task is as before.
  pub made_frame :
      (k : ℕ) (zs : List ℕ)
      → has (queue_node t) (k ∷ zs) ≡ false
      → has (task_timer t) (k ∷ zs) ≡ false
      → Ring s.links k zs
      → Ring made.links k zs
  made_frame k zs a b r = rw made_links (
      list_init-frame (list_init s.links (queue_node t)) (task_timer t) k zs b
        (list_init-frame s.links (queue_node t) k zs a r))

  pub made_queue_node : Ring made.links (queue_node t) []
  made_queue_node = rw made_links (
      list_init-frame (list_init s.links (queue_node t)) (task_timer t) (queue_node t) []
        (ground arith) (list_init-Ring s.links (queue_node t)))

  pub made_timer : Ring made.links (task_timer t) []
  made_timer = rw made_links (list_init-Ring (list_init s.links (queue_node t)) (task_timer t))

  pub made_rest :
      (made.tasks_in_run_queue ≡ s.tasks_in_run_queue)
      × (made.when ≡ write s.when (task_timer t) 0)
      × (made.func ≡ write s.func (task_timer t) callback)
      × (made.arg ≡ write s.arg (task_timer t) t)
      × (made.current_task ≡ s.current_task)
      × (made.backend_set ≡ s.backend_set)
  unfolding create_kernel_task stack_push stack_push_empty timer_init
  made_rest = (refl, refl, refl, refl, refl, refl)

  absent :
      (tasks us : List ℕ)
      → has t tasks ≡ false
      → ((u : ℕ) → has u us ≡ true → has u tasks ≡ true)
      → has t us ≡ false
  absent tasks us n m = elim (Bool-cases (has t us)) [
    | inr e ↦ e
    | inl e ↦ absurd (ground (arith, n, m t e))
  ]

  differs : (u : ℕ) (tasks : List ℕ) → has t tasks ≡ false → has u tasks ≡ true → u ≢ t
  differs u tasks n h z = absurd (ground (arith, rw z at h, n))

  -- A new task, apart from the others, is neither in the run queue nor asleep; the state stays well
  -- formed.
  pub create_kernel_task-IsKernel :
      (tasks qs ts : List ℕ)
      → IsLayout (t ∷ tasks)
      → has t tasks ≡ false
      → IsKernel callback tasks s qs ts
      → IsKernel callback (t ∷ tasks) made qs ts
  create_kernel_task-IsKernel tasks qs ts l n k =
      let (count, times, funcs, args, current, backend) = made_rest in
      let all = t ∷ tasks in
      let m : has t all ≡ true = ground (arith, ==_self t) in
      let more : (u : ℕ) → has u tasks ≡ true → has u all ≡ true = λ u h. ground (arith, h) in
      let queued : (u : ℕ) → has u qs ≡ true → has u all ≡ true = λ u h. more u (k.queued u h) in
      let timed : (u : ℕ) → has u ts ≡ true → has u all ≡ true = λ u h. more u (k.timed u h) in
      let high : 64 ≤ t = l.above t m in
      let no_q = absent tasks qs n k.queued in
      let no_t = absent tasks ts n k.timed in
      record {
        layout = l;
        queue = record {
          ring =
              made_frame run_queue (queue_nodes qs)
                (ground (arith, has-queue_nodes t qs, no_q, high))
                (not_task_timer all l t qs m queued) k.queue.ring;
          count = count ∙ k.queue.count;
          small = k.queue.small;
        };
        timers_in = record {
          ring =
              made_frame timers (timer_nodes ts) (not_queue_node all l t ts m timed)
                (ground (arith, has-timer_nodes t ts, no_t, high)) k.timers_in.ring;
          sorted = rw times (
              IsSorted-other s.when (task_timer t) 0 0 (timer_nodes ts)
                (ground (arith, has-timer_nodes t ts, no_t)) k.timers_in.sorted);
        };
        queued = queued;
        timed = timed;
        alone = λ u h f. elim (Bool-cases (u == t)) [
          | inl e ↦ let z : u ≡ t = ground (arith, e) in rw z made_queue_node
          | inr e ↦
              made_frame (queue_node u) [] (ground (arith, e))
                (ground (
                  arith,
                  kinds all l u t h m,
                  ==_iff (task_timer t) (queue_node u),
                  ==_iff (queue_node u) (task_timer t),
                ))
                (k.alone u (ground (arith, h, e)) f)
        ];
        unarmed = λ u h f. elim (Bool-cases (u == t)) [
          | inl e ↦ let z : u ≡ t = ground (arith, e) in rw z made_timer
          | inr e ↦
              made_frame (task_timer u) [] (ground (arith, kinds all l t u m h)) (ground (arith, e))
                (k.unarmed u (ground (arith, h, e)) f)
        ];
        calls = λ u h. elim (Bool-cases (u == t)) [
          | inl e ↦
              let z : u ≡ t = ground (arith, e) in rw (z, funcs, args) (ground arith, ground arith)
          | inr e ↦
              let (a, b) = k.calls u (ground (arith, h, e)) in
              rw (funcs, args) (ground (arith, e, a), ground (arith, e, b))
        ];
        running = rw current k.running;
        backend = backend ∙ k.backend;
      }
