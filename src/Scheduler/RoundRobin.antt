-- ===== src/Scheduler/RoundRobin.antt =====
-- Tasks that only give up the CPU take turns.
use mathlib.Core.List.{append_assoc, append-nil}
use borfos.Common.{ℕ, zero, suc, ◌≡◌, refl, List, [], ◌∷◌, ◌++◌, length, ◌∙◌, sym}
use mathlib.Core.Path.{subst}
use borfos.System.{System}
use borfos.Scheduler.{giveup_cpu}
use borfos.Scheduler.Queue.{IsQueue, giveup_cpu-rotate, giveup_cpu-IsSwitch}

-- The run queue is `t ∷ ts`, and `t` is running.
pub record IsRunning (s : System) (t : ℕ) (ts : List ℕ) : Type 0 where
  pub queue : IsQueue s (t ∷ ts)
  pub current : s.current_task ≡ t

-- The running tasks give up the CPU `n` times, one after the other.
unfoldable pub giveups : ℕ → System → System
giveups zero s = s
giveups (suc n) s = giveups n (giveup_cpu s)

giveup_cpu-IsRunning :
    (s : System) (t u : ℕ) (ts us : List ℕ)
    → IsRunning s t ts
    → ts ++ t ∷ [] ≡ u ∷ us
    → IsRunning (giveup_cpu s) u us
giveup_cpu-IsRunning s t u ts us r e =
    let q : IsQueue s ([] ++ s.current_task ∷ ts) =
      subst (λ x. IsQueue s (x ∷ ts)) (sym r.current) r.queue in
    let e' : ([] ++ ts) ++ s.current_task ∷ [] ≡ u ∷ us =
      subst (λ x. ts ++ x ∷ [] ≡ u ∷ us) (sym r.current) e in
    record {
      queue = rw e' at (giveup_cpu-rotate s [] ts q);
      current = (giveup_cpu-IsSwitch s [] ts q u us e').1;
    }

-- Round robin: if no other call changes the run queue, every task in it gets to run. After as many
-- calls of `giveup_cpu` as there are tasks in front of it, it is the running task, and the tasks
-- that ran are behind the others in the same order.
pub giveups-IsRunning :
    (us : List ℕ) (s : System) (t v : ℕ) (ts vs : List ℕ)
    → t ∷ ts ≡ us ++ v ∷ vs
    → IsRunning s t ts
    → IsRunning (giveups (length us) s) v (vs ++ us)
unfolding giveups
giveups-IsRunning [] s t v ts vs e r =
    let ev : t ≡ v = cc in
    let es : ts ≡ vs ++ [] = rw append-nil (cc) in
    subst (λ x. IsRunning s x (vs ++ [])) ev (subst (λ x. IsRunning s t x) es r)
giveups-IsRunning (u ∷ us) s t v ts vs e r =
    let (w, ws, c) = front us v vs t in
    let es : ts ≡ us ++ v ∷ vs = cc in
    let ev : t ≡ u = cc in
    let e1 : ts ++ t ∷ [] ≡ w ∷ ws = rw es c in
    let e2 : w ∷ ws ≡ us ++ v ∷ (vs ++ t ∷ []) = sym c ∙ append_assoc us (v ∷ vs) (t ∷ []) in
    let rest =
      giveups-IsRunning us (giveup_cpu s) w v ws (vs ++ t ∷ []) e2
        (giveup_cpu-IsRunning s t w ts ws r e1) in
    let e3 : (vs ++ t ∷ []) ++ us ≡ vs ++ u ∷ us =
      subst (λ x. (vs ++ x ∷ []) ++ us ≡ vs ++ u ∷ us) (sym ev) (append_assoc vs (u ∷ []) us) in
    subst (λ x. IsRunning (giveups (length us) (giveup_cpu s)) v x) e3 rest
  where
    front :
        (us : List ℕ) (v : ℕ) (vs : List ℕ) (t : ℕ)
        → (w : ℕ) × (ws : List ℕ) × ((us ++ v ∷ vs) ++ t ∷ [] ≡ w ∷ ws)
    front [] v vs t = (v, vs ++ t ∷ [], refl)
    front (u ∷ us) v vs t = (u, (us ++ v ∷ vs) ++ t ∷ [], refl)
