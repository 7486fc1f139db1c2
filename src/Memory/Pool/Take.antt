-- ===== src/Memory/Pool/Take.antt =====
-- Taking a block out of its free list keeps the pool's invariant.
use borfos.Common.{
  ◌↔◌, false_of, ℕ, ◌<◌, ◌≡◌, inl, inr, true, false, List, [], ◌∷◌, ◌++◌, arith, ◌==◌, has,
  has-append, ==_self, Bool-cases, IsDistinct-append,
}
use borfos.Links.{Links, list_remove}
use borfos.Links.Ring.{Ring}
use borfos.Links.Remove.{list_remove-Ring}
use borfos.Links.Frame.{IsLinked, Ring-IsLinked, list_remove-frame}
use borfos.Memory.Pool.{node}
use borfos.Memory.Pool.Inv.{
  InBlock, IsFree, Lists, put, nodes, Inv, has-nodes, nodes-append, listed_once,
}

module _ {count : ℕ} {l : Links} {f : Lists} (o i : ℕ) (xs ys : List ℕ) (v : Inv count l f)
    (small : o < 16) (e : f o ≡ xs ++ i ∷ ys) where
  pub taken-listed : has i (f o) ≡ true
  taken-listed = rw e (ground (arith, has-append i xs (i ∷ ys), ==_self i))

  ring : Ring l o (nodes xs ++ node i ∷ nodes ys)
  ring = rw (nodes-append xs (i ∷ ys)) at (rw e at (v.rings o small))

  both :
      Ring (list_remove l (node i)) o (nodes xs ++ nodes ys)
      × Ring (list_remove l (node i)) (node i) []
  both = list_remove-Ring l o (node i) (nodes xs) (nodes ys) ring

  linked : IsLinked l (node i)
  linked =
      Ring-IsLinked l o (node i) (nodes xs ++ node i ∷ nodes ys)
        (ground (arith, has-append (node i) (nodes xs) (node i ∷ nodes ys), ==_self (node i))) ring

  pub not_left : has i (xs ++ ys) ≡ false
  not_left =
      let (d, d', g) = IsDistinct-append (o ∷ nodes xs) (node i ∷ nodes ys) ring.distinct in
      rw (has-append i xs ys) (
        ground (
          arith,
          has-nodes i xs,
          has-nodes i ys,
          d'.0,
          Bool-cases (has i xs),
          g (node i),
          ==_self (node i),
        ))

  left-listed : (j : ℕ) → has j (xs ++ ys) ≡ true → has j (f o) ≡ true
  left-listed j h = rw e (ground (arith, h, has-append j xs ys, has-append j xs (i ∷ ys)))

  listed-left : (j : ℕ) → (j == i) ≡ false → has j (xs ++ ys) ≡ false → has j (f o) ≡ false
  listed-left j n h = rw e (ground (arith, h, n, has-append j xs ys, has-append j xs (i ∷ ys)))

  pub put-listed : (p j : ℕ) → has j (put f o (xs ++ ys) p) ≡ true → has j (f p) ≡ true
  put-listed p j h = elim (Bool-cases (p == o)) [
    | inl k ↦ let q : p ≡ o = ground (arith, k) in rw q (left-listed j (rw k at h))
    | inr k ↦ rw k at h
  ]

  pub take-Inv : Inv count (list_remove l (node i)) (put f o (xs ++ ys))
  take-Inv = record {
    rings = λ p hp. elim (Bool-cases (p == o)) [
      | inl k ↦ let q : p ≡ o = ground (arith, k) in rw k (rw q (rw nodes-append both.0))
      | inr k ↦ rw k (
          list_remove-frame l (node i) p (nodes (f p)) linked
            (ground (
              arith,
              has-nodes i (f p),
              listed_once o p i v small hp taken-listed (λ q. ground arith),
            ))
            (v.rings p hp))
    ];
    aligned = λ p j hp h. v.aligned p j hp (put-listed p j h);
    within = λ p j hp h. v.within p j hp (put-listed p j h);
    apart = λ p q j k x hp hq h h'. v.apart p q j k x hp hq (put-listed p j h) (put-listed q k h');
    alone = λ j lt h. elim (Bool-cases (j == i)) [
      | inl k ↦ let q : j ≡ i = ground (arith, k) in rw q both.1
      | inr k ↦ list_remove-frame l (node i) (node j) [] linked (ground (arith, k)) (
          v.alone j lt (λ p hp. elim (Bool-cases (p == o)) [
            | inl m ↦ let q : p ≡ o = ground (arith, m) in rw q (listed-left j k (rw m at (h p hp)))
            | inr m ↦ rw m at (h p hp)
          ]))
    ];
  }

  -- The free elements that are left are the others.
  pub take-IsFree : (x : ℕ) → IsFree (put f o (xs ++ ys)) x ↔ (IsFree f x × (InBlock o i x → ⊥))
  take-IsFree x = (λ a. (before a, λ b. no_overlap a b), λ (a, out). keep a out)
    where
      before : IsFree (put f o (xs ++ ys)) x → IsFree f x
      before a = record {
        order = a.order;
        first = a.first;
        small = a.small;
        listed = put-listed a.order a.first a.listed;
        inside = a.inside;
      }

      no_overlap : IsFree (put f o (xs ++ ys)) x → InBlock o i x → ⊥
      no_overlap a b =
          let old = put-listed a.order a.first a.listed in
          let (m, n) = v.apart a.order o a.first i x a.small small old taken-listed a.inside b in
          let h : has a.first (put f o (xs ++ ys) o) ≡ true = rw m at a.listed in
          let h' : has i (xs ++ ys) ≡ true = rw n at (rw (==_self o) at h) in false_of h' not_left

      keep : IsFree f x → (InBlock o i x → ⊥) → IsFree (put f o (xs ++ ys)) x
      keep a out = record {
        order = a.order;
        first = a.first;
        small = a.small;
        inside = a.inside;
        listed = elim (Bool-cases (a.order == o)) [
          | inr k ↦ rw k a.listed
          | inl k ↦
              let q : a.order ≡ o = ground (arith, k) in
              let h : has a.first (xs ++ i ∷ ys) ≡ true = rw e at (rw q at a.listed) in
              rw k (elim (Bool-cases (a.first == i)) [
                | inl m ↦
                    let q' : a.first ≡ i = ground (arith, m) in
                    absurd (out (rw q' at (rw q at a.inside)))
                | inr m ↦
                    ground (arith, h, m, has-append a.first xs ys, has-append a.first xs (i ∷ ys))
              ])
        ];
      }
