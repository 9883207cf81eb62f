-- ===== src/Libc/Numbers.antt =====
-- Integers from text: strtoul and strtol of cleonos/c/src/libc_stdlib.c, with the tests for characters
-- of libc_ctype.c. A base is not negative, and `long` is given by its 64 bits.
pub mod Exact
pub mod Written
pub mod Read
mod Tests
use cleon_os_jgz_yes_fork.Base.{
  ltb, leb, ◌==◌, if◌then◌else◌, drop, u64_mod, sub64, char_at, skip_while, ℕ, ◌+◌, ◌-◌, ◌*◌, ◌/◌,
  ◌%◌, ◌^◌, Bool, true, false, not, ◌&&◌, ◌||◌, Option, none, some, List, [], ◌∷◌,
}

-- ULONG_MAX and LONG_MAX
abbrev pub ulong_max : ℕ
ulong_max = u64_mod - 1

abbrev pub long_max : ℕ
long_max = 2 ^ 63 - 1

-- `isspace`, `isxdigit`
abbrev pub isspace : ℕ → Bool
isspace ch = (ch == b' ') || (ch == 9) || (ch == 13) || (ch == 10) || (ch == 11) || (ch == 12)

-- `low <= ch && ch <= high`
abbrev pub between : ℕ → ℕ → ℕ → Bool
between low ch high = leb low ch && leb ch high

abbrev pub isxdigit : ℕ → Bool
isxdigit ch = between b'0' ch b'9' || between b'a' ch b'f' || between b'A' ch b'F'

-- `clib_digit_value`; `none` is -1.
unfoldable pub digit_value : ℕ → Option ℕ
digit_value ch =
    if between b'0' ch b'9'
    then some (ch - b'0')
    else (if between b'a' ch b'z'
        then some (10 + (ch - b'a'))
        else (if between b'A' ch b'Z' then some (10 + (ch - b'A')) else none))

-- What both functions find in front of the digits.
pub record Head : Type 0 where
  pub negative : Bool
  pub base : ℕ
  pub rest : List ℕ

-- "x" or "X"
abbrev pub is_x : ℕ → Bool
is_x ch = (ch == b'x') || (ch == b'X')

-- The base, and the text behind its prefix.
unfoldable pub base_of : ℕ → List ℕ → ℕ × List ℕ
base_of base p =
    if base == 0
    then (if char_at p 0 == b'0'
        then (if is_x (char_at p 1) && isxdigit (char_at p 2) then (16, drop 2 p) else (8, p))
        else (10, p))
    else (if base == 16
        then (if (char_at p 0 == b'0') && is_x (char_at p 1) then (base, drop 2 p) else (base, p))
        else (base, p))

-- `clib_skip_space`, the sign, and the prefix of the base.
unfoldable pub head_of : List ℕ → ℕ → Head
unfolding skip_while base_of
head_of text base =
    let p = skip_while isspace text in
    let signed = (char_at p 0 == b'+') || (char_at p 0 == b'-') in
    let (b, rest) = base_of base (if signed then drop 1 p else p) in
    record { negative = char_at p 0 == b'-'; base = b; rest = rest }

-- The variables of the loop.
pub record Scan : Type 0 where
  pub value : ℕ
  pub any : Bool
  pub overflow : Bool

-- What the loop does with a digit.
unfoldable pub accept : ℕ → ℕ → Scan → ℕ → Scan
accept limit base s digit =
    if ltb ((limit - digit) / base) s.value
    then record { value = limit; any = true; overflow = true }
    else record {
      value = if s.overflow then s.value else s.value * base + digit;
      any = true;
      overflow = s.overflow;
    }

-- The loop: the variables at its end, and the text where it stops.
unfoldable pub scan : ℕ → ℕ → List ℕ → Scan → Scan × List ℕ
unfolding digit_value accept
scan limit base [] s = (s, [])
scan limit base (c ∷ cs) s = elim (digit_value c) [
  | none ↦ (s, c ∷ cs)
  | some digit ↦
      (let rest = scan limit base cs (accept limit base s digit) in
        if leb base digit then (s, c ∷ cs) else rest)
]

abbrev pub start : Scan
start = record { value = 0; any = false; overflow = false }

-- `base < 2 || base > 36`
abbrev pub bad_base : ℕ → Bool
bad_base base = ltb base 2 || ltb 36 base

-- `strtoul` of a text that is not NULL: the value, and the text at `*out_end`.
unfoldable pub strtoul : List ℕ → ℕ → ℕ × List ℕ
unfolding head_of scan
strtoul text base =
    let h = head_of text base in
    let (s, rest) = scan ulong_max h.base h.rest start in
    if bad_base h.base
    then (0, text)
    else (if not s.any
        then (0, text)
        else ((if h.negative then sub64 0 s.value else s.value), rest))

-- The limit on the magnitude of a `long`.
abbrev pub limit_of : Bool → ℕ
limit_of negative = if negative then long_max + 1 else long_max

-- `strtol` of a text that is not NULL.
unfoldable pub strtol : List ℕ → ℕ → ℕ × List ℕ
unfolding head_of scan
strtol text base =
    let h = head_of text base in
    let (s, rest) = scan (limit_of h.negative) h.base h.rest start in
    let value =
      if s.overflow
      then (if h.negative then 2 ^ 63 else long_max)
      else (if h.negative
          then (if s.value == long_max + 1 then 2 ^ 63 else sub64 0 s.value)
          else s.value) in
    if bad_base h.base then (0, text) else (if not s.any then (0, text) else (value, rest))

-- `srand` and `rand`: the state, and the number with the state behind it.
unfoldable pub srand : ℕ → ℕ
srand seed = if seed == 0 then 1 else seed

unfoldable pub rand : ℕ → ℕ × ℕ
rand state = let next = (1103515245 * state + 12345) % u64_mod in (next / 65536 % 32768, next)
