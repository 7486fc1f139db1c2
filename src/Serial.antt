-- ===== src/Serial.antt =====
-- kernel/drivers/serial.c: the serial ports. `status k` is what the `k`-th read of a line status
-- register returns; `fuel` bounds the rounds of the wait.
pub mod Wait
mod Tests
use Prim.Native.Nat.{bit_and}
use borfos.Common.{
  ℕ, zero, suc, ◌+◌, ◌^◌, Bool, not, Option, none, some, List, [], ◌∷◌, ◌==◌, if◌then◌else◌, u8,
  u16,
}
use borfos.System.{write}

-- The fields `io_port`, the writes to the ports, the last one first, and the number of reads.
pub record Serial : Type 0 where
  pub io_port : ℕ → ℕ
  pub ports : List (ℕ × ℕ)
  pub reads : ℕ

abbrev pub line_control : ℕ
line_control = 3

abbrev pub modem_control : ℕ
modem_control = 4

unfoldable pub out : ℕ → ℕ → Serial → Serial
out port value s = record s { ports = (u16 port, u8 value) ∷ s.ports }

-- `while(0 == (inb(self->io_port + LINE_STATUS) & 0x20));` and the write of the byte.
unfoldable pub serial_write_byte : (ℕ → ℕ) → ℕ → ℕ → ℕ → Serial → Option Serial
serial_write_byte status zero self b s = none
serial_write_byte status (suc fuel) self b s =
    let s1 = record s { reads = s.reads + 1 } in
    let rest = serial_write_byte status fuel self b s1 in
    if bit_and (status s.reads) 0x20 == 0 then rest else some (out (s.io_port self) b s1)

unfoldable pub serial_exists : ℕ → Serial → Bool
serial_exists i s = not (s.io_port i == 0)

-- The eight writes that set a port up.
unfoldable pub setup_port : ℕ → Serial → Serial
setup_port io_port s =
    let s1 = out (io_port + 1) 0 s in
    let s2 = out (io_port + line_control) 0x80 s1 in
    let s3 = out io_port 1 s2 in
    let s4 = out (io_port + 1) 0 s3 in
    let s5 = out (io_port + line_control) 0x03 s4 in
    let s6 = out (io_port + 2) 0xc7 s5 in
    let s7 = out (io_port + modem_control) 4 s6 in out (io_port + 1) 1 s7

-- The loop of CONSTRUCTOR(serial), for `rounds` ports from the port `i` on; `com_ports` is
-- `BDA.com_ports`.
unfoldable pub setup_ports : (ℕ → ℕ) → ℕ → ℕ → Serial → Serial
setup_ports com_ports zero i s = s
setup_ports com_ports (suc rounds) i s =
    let s1 = record s { io_port = write s.io_port i (u16 (com_ports i)) } in
    setup_ports com_ports rounds (i + 1)
      (if not (u16 (com_ports i) == 0) then setup_port (u16 (com_ports i)) s1 else s1)

-- CONSTRUCTOR(serial), but for the registration.
unfoldable pub serial_setup : (ℕ → ℕ) → Serial → Serial
serial_setup com_ports s = setup_ports com_ports 4 0 s
