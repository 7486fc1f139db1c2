-- ===== src/File/Write.antt =====
-- kernel/lib/file.c: how far a buffer is written.
use borfos.Common.{ℕ, zero, suc, ◌+◌, ◌≡◌, ap, refl, arith, List, [], ◌∷◌, ◌++◌, length}
use borfos.File.{Ssize, count, negative, after_byte, write_bytes, file_default_write_buffer}

module _ {S : Type 0} (write_byte : S → ℕ → S × Ssize) where
  -- The device takes the bytes one after the other, from one state to another.
  pub data Takes : S → List ℕ → S → Type 0 where
    takes_nil : {s : S} → Takes s [] s
    takes_cons :
        {s s' : S} {b n : ℕ} {bs : List ℕ}
        → (write_byte s b).1 ≡ count (suc n)
        → Takes (write_byte s b).0 bs s'
        → Takes s (b ∷ bs) s'

  -- How a write of a buffer ends, when `total` bytes went before: all is taken; or a byte behind
  -- those taken is refused; or it fails.
  pub data Written (total : ℕ) : S → List ℕ → S × Ssize → Type 0 where
    all :
        {s s' : S} {buf : List ℕ} {k : ℕ}
        → Takes s buf s'
        → k ≡ total + length buf
        → Written total s buf (s', count k)
    refused :
        {s s' s2 : S} {bs : List ℕ} (us : List ℕ) {b k : ℕ}
        → Takes s bs s'
        → write_byte s' b ≡ (s2, count 0)
        → k ≡ total + length bs
        → Written total s (bs ++ b ∷ us) (s2, count k)
    failed :
        {s s' s2 : S} {bs : List ℕ} (us : List ℕ) {b n : ℕ}
        → Takes s bs s'
        → write_byte s' b ≡ (s2, negative n)
        → Written total s (bs ++ b ∷ us) (s2, negative n)

  after :
      (total n b : ℕ) (s : S) (buf : List ℕ) (r : S × Ssize)
      → (write_byte s b).1 ≡ count (suc n)
      → Written (total + 1) (write_byte s b).0 buf r
      → Written total s (b ∷ buf) r
  after total n b s buf r e (all t k) = all (takes_cons e t) (omega (arith, k))
  after total n b s buf r e (refused us t w k) = refused us (takes_cons e t) w (omega (arith, k))
  after total n b s buf r e (failed us t w) = failed us (takes_cons e t) w

  after_byte-Written :
      (total b : ℕ) (s : S) (buf : List ℕ) (r rest : S × Ssize)
      → write_byte s b ≡ r
      → Written (total + 1) (write_byte s b).0 buf rest
      → Written total s (b ∷ buf) (after_byte r total rest)
  after_byte-Written total b s buf (s1, negative n) rest e w = failed {bs = []} buf takes_nil e
  after_byte-Written total b s buf (s1, count zero) rest e w =
      refused {bs = []} buf takes_nil e (omega arith)
  after_byte-Written total b s buf (s1, count (suc n)) rest e w =
      after total n b s buf rest (ap (λ r. r.1) e) w

  write_bytes-Written :
      (buf : List ℕ) (total : ℕ) (s : S) → Written total s buf (write_bytes write_byte buf total s)
  unfolding write_bytes
  write_bytes-Written [] total s = all takes_nil (omega arith)
  write_bytes-Written (b ∷ buf) total s =
      after_byte-Written total b s buf (write_byte s b) _ refl
        (write_bytes-Written buf (total + 1) (write_byte s b).0)

  -- `file_default_write_buffer` writes the bytes in order until the device has taken them all,
  -- refuses one or fails, and returns the number of those taken or the error.
  pub file_default_write_buffer-Written :
      (buf : List ℕ) (s : S) → Written 0 s buf (file_default_write_buffer write_byte buf s)
  unfolding file_default_write_buffer
  file_default_write_buffer-Written buf s = write_bytes-Written buf 0 s
