-- ===== src/Timers/Sorted.antt =====
-- The timer list is kept in the order of the times, and the backend is set to the first of them.
use mathlib.Core.List.{append_assoc, append-nil}
use borfos.Common.{
  ℕ, zero, suc, ◌≤◌, ◌<◌, ◌≡◌, refl, true, false, ◌||◌, some, List, [], ◌∷◌, ◌++◌, length, has,
  has-append, arith, ltb, ◌==◌, ==_iff, ==_self, if◌then◌else◌, Bool-cases, inl, inr,
}
use borfos.Links.{list_insert_before, list_remove, list_is_empty}
use borfos.Links.Chain.{Chain}
use borfos.Links.Ring.{Ring, list_insert_before-append, list_insert_before-middle}
use borfos.Links.Remove.{list_is_empty_iff, list_is_empty-middle, list_remove-Ring}
use borfos.System.{System, ok, timers}
use borfos.Timers.{
  timer_is_registered, timer_backend_set, timer_unregister, find_later, register_before,
  timer_register,
}

-- The specification: behind the timers that are not later.
unfoldable pub insert_timer : (ℕ → ℕ) → ℕ → List ℕ → List ℕ
insert_timer when t [] = t ∷ []
insert_timer when t (u ∷ us) =
    if ltb (when t) (when u) then t ∷ u ∷ us else u ∷ insert_timer when t us

-- Each timer is at or after the ones in front of it; `from` is at or before the first one.
abbrev pub IsSorted : (ℕ → ℕ) → ℕ → List ℕ → Type 0
IsSorted when from [] = Unit
IsSorted when from (t ∷ ts) = (from ≤ when t) × IsSorted when (when t) ts

pub insert_timer-IsSorted :
    (when : ℕ → ℕ) (from t : ℕ) (ts : List ℕ)
    → from ≤ when t
    → IsSorted when from ts
    → IsSorted when from (insert_timer when t ts)
unfolding insert_timer
insert_timer-IsSorted when from t [] h s = (h, tt)
insert_timer-IsSorted when from t (u ∷ us) h s = elim (Bool-cases (ltb (when t) (when u))) [
  | inl e ↦ rw e (h, (ground (arith, e), s.1))
  | inr e ↦ rw e (s.0, insert_timer-IsSorted when (when u) t us (ground (arith, e)) s.1)
]

-- The ring and the order of the timers.
pub record IsTimers (s : System) (ts : List ℕ) : Type 0 where
  pub ring : Ring s.links timers ts
  pub sorted : IsSorted s.when 0 ts

-- The walk, from the first timer of `us` on, finds where the specification inserts.
pub find_later-Ring :
    (s : System) (t fuel p : ℕ) (ts us : List ℕ)
    → Ring s.links timers (ts ++ us)
    → Chain s.links p us timers
    → has t (timers ∷ (ts ++ us)) ≡ false
    → length us < fuel
    → (node : ℕ) × (find_later s (s.when t) fuel (s.links.next p) ≡ some node)
      × Ring (list_insert_before s.links node t) timers (ts ++ insert_timer s.when t us)
      × (has node (timers ∷ us) ≡ true)
unfolding find_later insert_timer
find_later-Ring s t zero p ts us r c f h = absurd (omega arith)
find_later-Ring s t (suc fuel) p ts [] r c f h =
    let e : s.links.next p ≡ timers = c.0 in
    (
      timers,
      rw e refl,
      list_insert_before-append s.links timers t ts (rw append-nil at f) (rw append-nil at r),
      ground (arith, ==_self timers),
    )
find_later-Ring s t (suc fuel) p ts (u ∷ us) r c f h =
    let e : s.links.next p ≡ u = c.0 in
    let ne : (u == timers) ≡ false =
      ground
        (arith, r.distinct.0, has-append timers ts (u ∷ us), ==_iff timers u, ==_iff u timers) in
    elim (Bool-cases (ltb (s.when t) (s.when u))) [
      | inl k ↦ (
        u,
        rw (e, ne, k) refl,
        rw k (list_insert_before-middle s.links timers u t ts us f r),
        ground (arith, ==_self u),
      )
      | inr k ↦
          let (node, a, b, c') =
            find_later-Ring s t fuel u (ts ++ u ∷ []) us (rw append_assoc r) c.2 (rw append_assoc f)
              (omega arith) in
          (
            node,
            rw (e, ne, k) a,
            rw k (rw (append_assoc ts (u ∷ []) (insert_timer s.when t us)) at b),
            ground (arith, c'),
          )
    ]

-- The time of the first timer, and 0, which stops the backend, where there is none.
abbrev pub first_when : (ℕ → ℕ) → List ℕ → ℕ
first_when when [] = 0
first_when when (t ∷ ts) = when t

pub has-insert_timer :
    (when : ℕ → ℕ) (t x : ℕ) (ts : List ℕ) → has x (insert_timer when t ts) ≡ ((x == t) || has x ts)
unfolding insert_timer
has-insert_timer when t x [] = refl
has-insert_timer when t x (u ∷ us) = ground (arith, has-insert_timer when t x us)

pub insert_timer-cons :
    (when : ℕ → ℕ) (t : ℕ) (ts : List ℕ)
    → (u : ℕ) × (us : List ℕ) × (insert_timer when t ts ≡ u ∷ us)
unfolding insert_timer
insert_timer-cons when t [] = (t, [], refl)
insert_timer-cons when t (u ∷ us) = elim (Bool-cases (ltb (when t) (when u))) [
  | inl e ↦ (t, u ∷ us, rw e refl)
  | inr e ↦ (u, insert_timer when t us, rw e refl)
]

-- What a successful call leaves: the timers `ts`, and the backend set to the first of them.
pub record IsRearmed (s : System) (ts : List ℕ) (s' : System) : Type 0 where
  pub timers_after : IsTimers s' ts
  pub times : s'.when ≡ s.when
  pub backend : s'.backend ≡ first_when s.when ts ∷ s.backend

-- If there is a backend, `timer_register` of a timer that is in no list puts it behind the timers that are not later and
-- in front of the later ones, so that the list stays in the order of the times, and sets the
-- backend to the first time. It needs as many rounds as there are timers, and one more.
pub timer_register-IsRearmed :
    (s : System) (t fuel : ℕ) (ts : List ℕ)
    → IsTimers s ts
    → s.backend_set ≡ true
    → Ring s.links t []
    → has t (timers ∷ ts) ≡ false
    → length ts < fuel
    → (s' : System) × (timer_register fuel t s ≡ ok s') × IsRearmed s (insert_timer s.when t ts) s'
unfolding timer_register timer_is_registered register_before
timer_register-IsRearmed s t fuel ts i b alone f h =
    let e : list_is_empty s.links t ≡ true = (list_is_empty_iff s.links t [] alone).1 refl in
    let (node, a, r, m) = find_later-Ring s t fuel timers [] ts i.ring i.ring.chain f h in
    let (u, us, c) = insert_timer-cons s.when t ts in
    let r' : Ring (list_insert_before s.links node t) timers (u ∷ us) = rw c at r in
    let n : (list_insert_before s.links node t).next timers ≡ u = r'.chain.0 in
    (
      timer_backend_set (s.when u) (record s { links = list_insert_before s.links node t }),
      simp (b, e, a, n),
      unfold timer_backend_set in
          record {
            timers_after = record {
              ring = r;
              sorted = insert_timer-IsSorted s.when 0 t ts (omega arith) i.sorted;
            };
            times = refl;
            backend = rw c refl;
          },
    )

pub remove-IsSorted :
    (when : ℕ → ℕ) (from t : ℕ) (ts us : List ℕ)
    → IsSorted when from (ts ++ t ∷ us)
    → IsSorted when from (ts ++ us)
remove-IsSorted when from t [] [] s = tt
remove-IsSorted when from t [] (u ∷ us) s = (omega (arith, s.0, s.1.0), s.1.1)
remove-IsSorted when from t (x ∷ ts) us s = (s.0, remove-IsSorted when (when x) t ts us s.1)

pub first-links :
    (s : System) (ts : List ℕ)
    → Ring s.links timers ts
    → (if list_is_empty s.links timers then 0 else s.when (s.links.next timers))
      ≡ first_when s.when ts
first-links s [] r = rw ((list_is_empty_iff s.links timers [] r).1 refl) refl
first-links s (t ∷ ts) r = elim (Bool-cases (list_is_empty s.links timers)) [
  | inl e ↦ absurd (cons_ne ((list_is_empty_iff s.links timers (t ∷ ts) r).0 e))
  | inr e ↦ rw e (rw r.chain.0 refl)
]
  where
    cons_ne : t ∷ ts ≡ [] → ⊥
    cons_ne z = cc

-- If there is a backend, `timer_unregister` of a registered timer takes it out, keeps the order of the others, and sets
-- the backend to the first of them, or to 0 if none is left.
pub timer_unregister-IsRearmed :
    (s : System) (t : ℕ) (ts us : List ℕ)
    → IsTimers s (ts ++ t ∷ us)
    → s.backend_set ≡ true
    → (s' : System) × (timer_unregister t s ≡ ok s')
      × IsRearmed s (ts ++ us) s'
      × Ring s'.links t []
unfolding timer_unregister timer_is_registered
timer_unregister-IsRearmed s t ts us i b =
    let (r, alone) = list_remove-Ring s.links timers t ts us i.ring in
    let l = list_remove s.links t in
    let s1 = record s { links = l } in
    let e = list_is_empty-middle s.links timers t ts us i.ring in
    (
      timer_backend_set (first_when s.when (ts ++ us)) s1,
      rw (b, e) (rw (first-links s1 (ts ++ us) r) refl),
      unfold timer_backend_set in
          record {
            timers_after = record { ring = r; sorted = remove-IsSorted s.when 0 t ts us i.sorted };
            times = refl;
            backend = refl;
          },
      unfold timer_backend_set in alone,
    )
