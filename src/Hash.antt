-- ===== src/Hash.antt =====
-- kernel/lib/hash.c and kernel/include/hash.h: the keys of the hash tables. A string is the bytes
-- in front of its terminator.
pub mod Keys
use Prim.Native.Nat.{bit_xor}
use borfos.Common.{ℕ, ◌*◌, ◌/◌, ◌%◌, ◌^◌, List, [], ◌∷◌, u8, u32}

abbrev pub golden_ratio_prime_32 : ℕ
golden_ratio_prime_32 = 0x9e370001

abbrev pub fnv_32_prime : ℕ
fnv_32_prime = 0x01000193

unfoldable pub hash_32 : ℕ → ℕ
hash_32 val = u8 (u32 (val * golden_ratio_prime_32) / 2 ^ 24)

-- `while (*str)`, from the hash `h` on.
unfoldable pub hash_loop : List ℕ → ℕ → ℕ
hash_loop [] h = h
hash_loop (c ∷ str) h = hash_loop str (u32 (bit_xor h c * fnv_32_prime))

unfoldable pub hash_str : List ℕ → ℕ
hash_str str = u8 (hash_loop str 0 / 2 ^ 24)
