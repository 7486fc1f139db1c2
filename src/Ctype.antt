-- ===== src/Ctype.antt =====
-- kernel/libc/ctype.c and kernel/include/ctype.h: the classes of the characters 0 to 127. An `int`
-- argument is its 32 bits, so that a negative one is at least 2 ^ 31.
pub mod Classes
use Prim.Native.Nat.{bit_and}
use borfos.Common.{
  ℕ, zero, suc, ◌+◌, ◌-◌, ◌^◌, Bool, not, List, [], ◌∷◌, ◌++◌, replicate, ltb, ◌==◌, if◌then◌else◌,
  u32, sub32,
}

-- _U, _L, _N, _S, _P, _C, _X, _B
abbrev pub upper : ℕ
upper = 0x01

abbrev pub lower : ℕ
lower = 0x02

abbrev pub number : ℕ
number = 0x04

abbrev pub space : ℕ
space = 0x08

abbrev pub punctuation : ℕ
punctuation = 0x10

abbrev pub control : ℕ
control = 0x20

abbrev pub hexadecimal : ℕ
hexadecimal = 0x40

abbrev pub blank : ℕ
blank = 0x80

abbrev pub ctype_flags : List ℕ
ctype_flags =
    replicate 9 control
    ++ (control + space + blank) ∷ replicate 4 (control + space)
    ++ replicate 18 control
    ++ (space + blank) ∷ replicate 15 punctuation
    ++ replicate 10 number
    ++ replicate 7 punctuation
    ++ replicate 6 (upper + hexadecimal)
    ++ replicate 20 upper
    ++ replicate 6 punctuation
    ++ replicate 6 (lower + hexadecimal)
    ++ replicate 20 lower
    ++ replicate 4 punctuation
    ++ control ∷ []

-- An entry of the table.
abbrev pub entry : List ℕ → ℕ → ℕ
entry [] n = 0
entry (f ∷ fs) zero = f
entry (f ∷ fs) (suc n) = entry fs n

unfoldable pub ctype_lookup : ℕ → ℕ
ctype_lookup c = if ltb c 128 then entry ctype_flags c else 0

-- CTYPE_FUNC_DEF: whether the result is not 0.
unfoldable pub in_class : ℕ → ℕ → Bool
in_class flags c = not (bit_and (ctype_lookup c) flags == 0)

abbrev pub isalpha : ℕ → Bool
isalpha = in_class (upper + lower)

abbrev pub isupper : ℕ → Bool
isupper = in_class upper

abbrev pub islower : ℕ → Bool
islower = in_class lower

abbrev pub isdigit : ℕ → Bool
isdigit = in_class number

abbrev pub isxdigit : ℕ → Bool
isxdigit = in_class (hexadecimal + number)

abbrev pub isspace : ℕ → Bool
isspace = in_class space

abbrev pub ispunct : ℕ → Bool
ispunct = in_class punctuation

abbrev pub isalnum : ℕ → Bool
isalnum = in_class (upper + lower + number)

abbrev pub isprint : ℕ → Bool
isprint = in_class (punctuation + upper + lower + number + blank)

abbrev pub isgraph : ℕ → Bool
isgraph = in_class (punctuation + upper + lower + number)

abbrev pub iscntrl : ℕ → Bool
iscntrl = in_class control

abbrev pub isblank : ℕ → Bool
isblank = in_class blank

unfoldable pub toupper : ℕ → ℕ
toupper c = if isupper c then u32 (sub32 c b'A' + b'a') else c

unfoldable pub tolower : ℕ → ℕ
tolower c = if islower c then u32 (sub32 c b'a' + b'A') else c
