-- ===== src/Serial/Tests.antt =====
-- The theorem about the serial port with a transmitter that is busy for two reads.
use borfos.Common.{ℕ, ◌≡◌, arith, some, [], ◌∷◌, ltb, if◌then◌else◌}
use borfos.Serial.{Serial, serial_write_byte}
use borfos.Serial.Wait.{serial_write_byte-waits}

abbrev port : Serial
port = record { io_port = λ i. 0x3f8; ports = []; reads = 0 }

abbrev status : ℕ → ℕ
status k = if ltb k 2 then 0 else 0x60

serial_write_byte-waits_example :
    serial_write_byte status 5 0 65 port
    ≡ some (record port { ports = (0x3f8, 65) ∷ []; reads = 3 })
serial_write_byte-waits_example =
    serial_write_byte-waits status 2 5 0 65 port (λ j a b. ground (arith, b))
      (λ e. omega (arith, e)) (omega arith) (omega arith)
