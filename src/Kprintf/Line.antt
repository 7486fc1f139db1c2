-- ===== src/Kprintf/Line.antt =====
-- kernel/lib/kprintf.c: what the registered files get.
use borfos.Common.{
  ℕ, zero, suc, ◌+◌, ◌-◌, ◌<◌, ◌≤◌, ◌≡◌, ap, refl, arith, true, false, List, [], ◌∷◌, some, length,
  length-append, has, ltb, ◌==◌, Bool-cases, inl, inr,
}
use borfos.Links.{Links, list_is_empty}
use borfos.Links.Chain.{Chain}
use borfos.Links.Ring.{Ring}
use borfos.Links.Remove.{list_is_empty_iff}
use borfos.Bprintf.{Inputs, State}
use borfos.Bprintf.Text.{take}
use borfos.Bprintf.Format.{done, vbprintf}
use borfos.Kprintf.{backends, kprintf_node, finish_line, write_backends, kprintf, max_length}

abbrev pub nodes : List ℕ → List ℕ
nodes [] = []
nodes (f ∷ fs) = kprintf_node f ∷ nodes fs

take-length : (n : ℕ) (xs : List ℕ) → length (take n xs) ≤ n
unfolding take
take-length zero xs = omega arith
take-length (suc n) [] = omega arith
take-length (suc n) (x ∷ xs) = omega (arith, take-length n xs)

pub finish_line-length : (bs : List ℕ) → length (finish_line bs) ≤ max_length
unfolding finish_line
finish_line-length bs = elim (Bool-cases (ltb (length bs) max_length)) [
  | inl e ↦ rw e (ground (arith, e, length-append bs (10 ∷ [])))
  | inr e ↦ rw e (omega (arith, length-append (take 127 bs) (10 ∷ []), take-length 127 bs))
]

module _ {S : Type 0} (write : ℕ → List ℕ → S → S) where
  -- The line goes to each of the files in turn.
  abbrev pub write_all : List ℕ → List ℕ → S → S
  write_all [] line s = s
  write_all (f ∷ fs) line s = write_all fs line (write f line s)

  write_backends-write_all :
      (l : Links) (line fs : List ℕ) (p fuel : ℕ) (s : S)
      → Chain l p (nodes fs) backends
      → has backends (nodes fs) ≡ false
      → length fs < fuel
      → write_backends write l line fuel (l.next p) s ≡ some (write_all fs line s)
  unfolding write_backends
  write_backends-write_all l line fs p zero s c d h = absurd (omega arith)
  write_backends-write_all l line [] p (suc fuel) s c d h = ground (arith, c.0)
  write_backends-write_all l line (f ∷ fs) p (suc fuel) s c d h =
      let e : f + 4 - 4 ≡ f = omega arith in
      let b : f + 4 == backends ≡ false = ground (arith, d) in
      let rest =
        write_backends-write_all l line fs (kprintf_node f) fuel (write f line s) c.2
          (ground (arith, d)) (omega arith) in
      simp (c.0, e, b, rest)

  -- Each registered file gets the formatted line, in the order of the registration; it has at
  -- most 128 bytes. `kprintf` writes nothing beyond these, and needs a round for each file and one more.
  pub kprintf-write_all :
      (l : Links) (fs : List ℕ) (fuel : ℕ) (i : Inputs) (format : List ℕ) (ap : ℕ) (st : State)
      (s : S)
      → Ring l backends (nodes fs)
      → length fs < fuel
      → vbprintf i max_length format ap ≡ done st
      → (kprintf write l fuel i format ap s ≡ some (write_all fs (finish_line st.out) s))
        × (length (finish_line st.out) ≤ max_length)
  unfolding kprintf
  kprintf-write_all l [] fuel i format ap st s r h e =
      let k : list_is_empty l backends ≡ true = (list_is_empty_iff l backends [] r).1 refl in
      (simp k, finish_line-length st.out)
  kprintf-write_all l (f ∷ fs) fuel i format ap st s r h e =
      let k : list_is_empty l backends ≡ false = elim (Bool-cases (list_is_empty l backends)) [
        | inr e ↦ e
        | inl e ↦ absurd (cons_ne ((list_is_empty_iff l backends (nodes (f ∷ fs)) r).0 e))
      ] in
      (
        simp (
          k,
          e,
          write_backends-write_all l (finish_line st.out) (f ∷ fs) backends fuel s r.chain
              r.distinct.0 h,
        ),
        finish_line-length st.out,
      )
    where
      cons_ne : nodes (f ∷ fs) ≡ [] → ⊥
      cons_ne z = cc
