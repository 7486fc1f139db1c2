-- ===== src/Kernel/Apart.antt =====
-- The run queue and the sleepers have no task in common, whatever is called.
use borfos.Common.{
  ℕ, ◌+◌, ◌≡◌, inl, inr, refl, true, false, List, [], ◌∷◌, ◌++◌, has, has-append, arith, ◌==◌,
  ==_self, ltb, Bool-cases, IsDistinct,
}
use borfos.System.{task_timer}
use borfos.Kernel.{enqueue, delete, insert_task}
use borfos.Kernel.Members.{has-delete_other, has-insert_task}
use borfos.Kernel.Interrupt.{woken}
use borfos.Kernel.Due.{has-enqueue}

-- The lists that the calls leave are apart.
pub apart_enqueue :
    (t u : ℕ) (qs ts : List ℕ)
    → has t ts ≡ false
    → ((u : ℕ) → has u ts ≡ true → has u qs ≡ false)
    → has u ts ≡ true
    → has u (enqueue t qs) ≡ false
apart_enqueue t u qs ts n a h = elim (Bool-cases (u == t)) [
  | inl e ↦ let z : u ≡ t = ground (arith, e) in absurd (ground (arith, rw z at h, n))
  | inr e ↦ ground (arith, has-enqueue t u qs, a u h, e)
]

pub has-delete_sub : (t u : ℕ) (xs : List ℕ) → has u (delete t xs) ≡ true → has u xs ≡ true
unfolding delete
has-delete_sub t u [] h = h
has-delete_sub t u (x ∷ xs) h = ground (arith, h, has-delete_sub t u xs)

pub delete-distinct : (t : ℕ) (xs : List ℕ) → IsDistinct xs → has t (delete t xs) ≡ false
unfolding delete
delete-distinct t [] d = refl
delete-distinct t (x ∷ xs) d = elim (Bool-cases (t == x)) [
  | inl e ↦ let z : t ≡ x = ground (arith, e) in rw z (ground (arith, ==_self x, d.0))
  | inr e ↦ ground (arith, e, delete-distinct t xs d.1)
]

pub has-delete_none : (t u : ℕ) (xs : List ℕ) → has u xs ≡ false → has u (delete t xs) ≡ false
has-delete_none t u xs f = elim (Bool-cases (has u (delete t xs))) [
  | inr e ↦ e
  | inl e ↦ absurd (ground (arith, has-delete_sub t u xs e, f))
]

pub rotated :
    (u c : ℕ) (qs : List ℕ)
    → has c qs ≡ true
    → has u qs ≡ false
    → has u (delete c qs ++ c ∷ []) ≡ false
rotated u c qs r f = elim (Bool-cases (u == c)) [
  | inl e ↦ let z : u ≡ c = ground (arith, e) in absurd (ground (arith, rw z at f, r))
  | inr e ↦ ground (arith, has-append u (delete c qs) (c ∷ []), has-delete_none c u qs f, e)
]

pub apart_insert :
    (when : ℕ → ℕ) (c u : ℕ) (qs ts : List ℕ)
    → has c (delete c qs) ≡ false
    → ((u : ℕ) → has u ts ≡ true → has u qs ≡ false)
    → has u (insert_task when c ts) ≡ true
    → has u (delete c qs) ≡ false
apart_insert when c u qs ts n a h = elim (Bool-cases (u == c)) [
  | inl e ↦ let z : u ≡ c = ground (arith, e) in rw z n
  | inr e ↦ has-delete_none c u qs (a u (ground (arith, h, has-insert_task when c u ts, e)))
]

pub stays : (u c : ℕ) (qs : List ℕ) → has u qs ≡ true → has u (delete c qs ++ c ∷ []) ≡ true
stays u c qs h = elim (Bool-cases (u == c)) [
  | inl e ↦ ground (arith, has-append u (delete c qs) (c ∷ []), e)
  | inr e ↦ ground (
    arith,
    has-append u (delete c qs) (c ∷ []),
    has-delete_other c u qs (λ z. absurd (ground (arith, z, e, ==_self c))),
    h,
  )
]

pub apart-woken :
    (tsc : ℕ → ℕ) (when : ℕ → ℕ) (r u : ℕ) (ts qs : List ℕ)
    → IsDistinct ts
    → ((u : ℕ) → has u ts ≡ true → has u qs ≡ false)
    → has u (woken tsc when r ts qs).1 ≡ true
    → has u (woken tsc when r ts qs).0 ≡ false
unfolding woken
apart-woken tsc when r u [] qs d a h = cc
apart-woken tsc when r u (t ∷ ts) qs d a h = elim (Bool-cases (ltb (tsc r) (when (task_timer t)))) [
  | inl e ↦ rw e (a u (rw e at h))
  | inr e ↦ rw e (
      apart-woken tsc when (r + 1) u ts (enqueue t qs) d.1
        (λ v g. apart_enqueue t v qs ts d.0 (λ w f. a w (ground (arith, f))) g) (rw e at h))
]
