-- ===== src/Vga/Screen.antt =====
-- kernel/drivers/vga.c: what the screen shows after a byte is written.
use borfos.Common.{
  ℕ, zero, suc, ◌+◌, ◌-◌, ◌*◌, ◌/◌, ◌%◌, ◌<◌, ◌≤◌, ◌≡◌, refl, arith, ◌∙◌, ap, ◌∷◌, leb, ltb, ◌==◌,
  if◌then◌else◌, u8, Bool-cases, inl, inr,
}
use borfos.Vga.{
  Vga, vga_columns, vga_cells, character, poke, blank, type_byte, scroll, vga_write_byte, outb,
  vga_sync_cursor_position,
}

-- The documented behaviour of `memmove`: the bytes from the source on, as they were before, are
-- at the destination, and no others change.
abbrev pub IsMemmove : ((ℕ → ℕ) → ℕ → ℕ → ℕ → ℕ → ℕ) → Type 0
IsMemmove memmove =
    (text : ℕ → ℕ) (d s n a : ℕ)
    → memmove text d s n a
      ≡ (if leb d a then (if ltb a (d + n) then text (s + (a - d)) else text a) else text a)

-- The characters of the screen: position to character.
abbrev pub shown : Vga → ℕ → ℕ
shown v i = v.text (character i)

pub blank-shown :
    (n i : ℕ) (text : ℕ → ℕ) (k : ℕ)
    → blank n i text (character k)
      ≡ (if leb i k then (if ltb k (i + n) then 32 else text (character k)) else text (character k))
unfolding blank
blank-shown zero i text k = ground arith
blank-shown (suc n) i text k = ground (arith, blank-shown n (suc i) (poke text (character i) 32) k)

type_byte-bound : (b : ℕ) (v : Vga) → v.cursor < vga_cells → (type_byte b v).cursor ≤ vga_cells
unfolding type_byte
type_byte-bound b v h = ground arith

-- What a screen of 25 rows shows when the cursor has left it: the rows move up by one, and the
-- last one is blank.
abbrev pub scrolled : ℕ → (ℕ → ℕ) → ℕ → ℕ
scrolled cursor screen i =
    if leb vga_cells cursor
    then (if ltb i (vga_cells - vga_columns) then screen (i + vga_columns) else 32)
    else screen i

-- What a byte puts on the screen before it scrolls: a backspace blanks the cell to its left, but
-- in the first column; other bytes but line feed and carriage return stand at the cursor.
abbrev pub typed : ℕ → ℕ → (ℕ → ℕ) → ℕ → ℕ
typed b cursor screen i =
    if b == 10
    then screen i
    else if b == 13
    then screen i
    else if b == 8
    then (if cursor % vga_columns == 0 then screen i else if i + 1 == cursor then 32 else screen i)
    else if i == cursor
    then b
    else screen i

type_byte-shown : (b : ℕ) (v : Vga) (i : ℕ) → shown (type_byte b v) i ≡ typed b v.cursor (shown v) i
unfolding type_byte
type_byte-shown b v i = ground arith

-- Where a byte moves the cursor before the screen scrolls.
abbrev pub moved : ℕ → ℕ → ℕ
moved b cursor =
    if b == 10
    then (cursor / vga_columns + 1) * vga_columns
    else if b == 13
    then cursor / vga_columns * vga_columns
    else if b == 8
    then (if cursor % vga_columns == 0 then cursor else cursor - 1)
    else cursor + 1

type_byte-cursor :
    (b : ℕ) (v : Vga) → v.cursor < vga_cells → (type_byte b v).cursor ≡ moved b v.cursor
unfolding type_byte
type_byte-cursor b v h = ground arith

type_byte-ports : (b : ℕ) (v : Vga) → (type_byte b v).ports ≡ v.ports
unfolding type_byte
type_byte-ports b v = ground arith

-- The cursor after the rows have moved up.
abbrev pub wrapped : ℕ → ℕ
wrapped cursor = if leb vga_cells cursor then cursor - vga_columns else cursor

module _ (memmove : (ℕ → ℕ) → ℕ → ℕ → ℕ → ℕ → ℕ) (m : IsMemmove memmove) where
  scroll-shown :
      (v : Vga) (i : ℕ) → i < vga_cells → shown (scroll memmove v) i ≡ scrolled v.cursor (shown v) i
  unfolding scroll
  scroll-shown v i h = elim (Bool-cases (leb vga_cells v.cursor)) [
    | inl e ↦
        let x : 160 + (2 * i - 0) ≡ 2 * (i + 80) = omega arith in
        let y = ap v.text x in
        rw e (
          ground (
            arith,
            blank-shown 80 1920 (memmove v.text 0 160 3840) i,
            m v.text 0 160 3840 (2 * i),
            y,
          ))
    | inr e ↦ rw e refl
  ]

  scroll-cursor : (v : Vga) → (scroll memmove v).cursor ≡ wrapped v.cursor
  unfolding scroll
  scroll-cursor v = ground arith

  scroll-ports : (v : Vga) → (scroll memmove v).ports ≡ v.ports
  unfolding scroll
  scroll-ports v = elim (Bool-cases (leb vga_cells v.cursor)) [
    | inl e ↦ rw e refl
    | inr e ↦ rw e refl
  ]

  -- A byte that is written at a cursor on the screen takes its effect on the cell at the cursor
  -- and on the cursor, and if that leaves the screen, the rows move up by one and the cursor with
  -- them, so that it stays on the screen; the hardware is told where it then is.
  pub vga_write_byte-shown :
      (b i : ℕ) (v : Vga)
      → v.cursor < vga_cells
      → i < vga_cells
      → (shown (vga_write_byte memmove b v) i
          ≡ scrolled (moved b v.cursor) (typed b v.cursor (shown v)) i)
        × ((vga_write_byte memmove b v).cursor ≡ wrapped (moved b v.cursor))
        × (wrapped (moved b v.cursor) < vga_cells)
        × ((vga_write_byte memmove b v).ports
            ≡ (0x3D5, wrapped (moved b v.cursor) % 256)
              ∷ (0x3D4, 0xF)
              ∷ (0x3D5, wrapped (moved b v.cursor) / 256)
              ∷ (0x3D4, 0xE)
              ∷ v.ports)
  unfolding vga_write_byte vga_sync_cursor_position outb
  vga_write_byte-shown b i v h k =
      let t = type_byte b v in
      let c = type_byte-cursor b v h in
      let d = scroll-cursor t in
      let p = scroll-ports t ∙ type_byte-ports b v in
      let e = ap wrapped c in
      let q : wrapped (moved b v.cursor) < vga_cells = ground (arith, type_byte-bound b v h, c) in
      let hi : u8 ((scroll memmove t).cursor / 256) ≡ wrapped (moved b v.cursor) / 256 =
        omega (arith, d, e, q) in
      let lo : u8 (scroll memmove t).cursor ≡ wrapped (moved b v.cursor) % 256 =
        omega (arith, d, e) in
      (
        scroll-shown t i k
            ∙ ground (arith, c, type_byte-shown b v i, type_byte-shown b v (i + vga_columns)),
        d ∙ e,
        q,
        simp (hi, lo, p),
      )
