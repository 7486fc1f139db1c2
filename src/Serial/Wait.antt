-- ===== src/Serial/Wait.antt =====
-- kernel/drivers/serial.c: the wait for the transmitter.
use Prim.Native.Nat.{bit_and}
use borfos.Common.{
  ℕ, zero, suc, ◌+◌, ◌<◌, ◌≤◌, ◌≡◌, ◌≢◌, arith, some, ◌∷◌, ◌==◌, ==_ne, Bool-cases, inl, inr, u8,
  u16,
}
use borfos.Serial.{Serial, out, serial_write_byte}

-- If the transmitter is busy at each read of the status before the `n`-th and free at the `n`-th, a
-- byte is written exactly once, right after that read; any number of rounds above the number of the
-- reads in which it is busy is enough.
pub serial_write_byte-waits :
    (status : ℕ → ℕ) (n fuel self b : ℕ) (s : Serial)
    → ((j : ℕ) → s.reads ≤ j → j < n → bit_and (status j) 0x20 ≡ 0)
    → bit_and (status n) 0x20 ≢ 0
    → s.reads ≤ n
    → n < s.reads + fuel
    → serial_write_byte status fuel self b s
      ≡ some (record s { ports = (u16 (s.io_port self), u8 b) ∷ s.ports; reads = n + 1 })
unfolding serial_write_byte out
serial_write_byte-waits status n zero self b s busy free k h = absurd (omega arith)
serial_write_byte-waits status n (suc fuel) self b s busy free k h =
    elim (Bool-cases (s.reads == n)) [
      | inl e ↦
          let z : s.reads ≡ n = ground (arith, e) in
          let w = ==_ne (bit_and (status n) 0x20) 0 free in simp (z, w)
      | inr e ↦
          let z : bit_and (status s.reads) 0x20 ≡ 0 =
            busy s.reads (omega arith) (ground (arith, e)) in
          let rest =
            serial_write_byte-waits status n fuel self b (record s { reads = s.reads + 1 })
              (λ j l m. busy j (omega arith) m) free (ground (arith, e)) (omega arith) in
          simp (z, rest)
    ]
