-- ===== src/File.antt =====
-- kernel/lib/file.c and kernel/include/file.h: a file stream is given by its `write_byte`, a
-- function of the state `S` of its device; a result below 0 is an error.
pub mod Write
mod Tests
use borfos.Common.{ℕ, zero, suc, ◌+◌, List, [], ◌∷◌}

pub data Ssize : Type 0 where
  count : ℕ → Ssize
  -- `negative n` is -(n + 1).
  negative : ℕ → Ssize

-- What the loop of `file_default_write_buffer` does with the result of a byte: `rest` is what its
-- further rounds give.
abbrev pub after_byte {ℓ} : {S : Type ℓ} → S × Ssize → ℕ → S × Ssize → S × Ssize
after_byte (s, negative n) total rest = (s, negative n)
after_byte (s, count zero) total rest = (s, count total)
after_byte (s, count (suc n)) total rest = rest

module _ {S : Type 0} (write_byte : S → ℕ → S × Ssize) where
  -- The loop, with `total` bytes written.
  unfoldable pub write_bytes : List ℕ → ℕ → S → S × Ssize
  write_bytes [] total s = (s, count total)
  write_bytes (b ∷ buf) total s =
      after_byte (write_byte s b) total (write_bytes buf (total + 1) (write_byte s b).0)

  unfoldable pub file_default_write_buffer : List ℕ → S → S × Ssize
  file_default_write_buffer buf s = write_bytes buf 0 s

  -- The string is the bytes in front of its terminator, so `strlen` is their number.
  unfoldable pub file_default_write_string : (List ℕ → S → S × Ssize) → List ℕ → S → S × Ssize
  file_default_write_string write_buffer str s = write_buffer str s
