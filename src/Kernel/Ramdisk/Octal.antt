-- ===== src/Kernel/Ramdisk/Octal.antt =====
-- The size field of a header: which texts `clks_ramdisk_parse_octal_u64` reads, and as what.
use cleon_os_jgz_yes_fork.Base.{
  ltb, if◌then◌else◌, All, u64_mod, ℕ, ◌+◌, ◌-◌, ◌*◌, ◌≤◌, ◌<◌, ◌≡◌, refl, true, none, some, List,
  [], ◌∷◌, ◌++◌, arith,
}
use cleon_os_jgz_yes_fork.Kernel.Ramdisk.{is_blank, skip_blanks, parse_digits, parse_octal}

-- A digit of a number in base 8.
abbrev pub OctalDigit : ℕ → Type 0
OctalDigit c = (b'0' ≤ c) × (c ≤ b'7')

-- The number that digits stand for, behind the digits whose value is `value`.
abbrev pub octal_value : List ℕ → ℕ → ℕ
octal_value [] value = value
octal_value (c ∷ cs) value = octal_value cs (value * 8 + (c - b'0'))

octal_value-ge : (ds : List ℕ) (value : ℕ) → value ≤ octal_value ds value
octal_value-ge [] value = omega arith
octal_value-ge (c ∷ cs) value = omega (arith, octal_value-ge cs (value * 8 + (c - b'0')))

parse_digits-value :
    (ds tail : List ℕ) (t value : ℕ)
    → All OctalDigit ds
    → is_blank t ≡ true
    → value < u64_mod
    → parse_digits (ds ++ t ∷ tail) value
      ≡ (if ltb (octal_value ds value) u64_mod then some (octal_value ds value) else none)
unfolding parse_digits
parse_digits-value [] tail t value h b lt = ground arith
parse_digits-value (c ∷ cs) tail t value h b lt = ground (
  arith,
  octal_value-ge cs (value * 8 + (c - b'0')),
  parse_digits-value cs tail t (value * 8 + (c - b'0')) h.1 b,
)

abbrev pub Blank : ℕ → Type 0
Blank c = is_blank c ≡ true

skip_blanks-append :
    (blanks rest : List ℕ) → All Blank blanks → skip_blanks (blanks ++ rest) ≡ skip_blanks rest
unfolding skip_blanks
skip_blanks-append [] rest h = refl
skip_blanks-append (c ∷ cs) rest h = ground (arith, skip_blanks-append cs rest h.1)

skip_blanks-digit : (c : ℕ) (cs : List ℕ) → OctalDigit c → skip_blanks (c ∷ cs) ≡ c ∷ cs
unfolding skip_blanks
skip_blanks-digit c cs h = ground arith

-- A field of blanks, then octal digits, then a blank or a 0 byte, is read as the number that the
-- digits stand for when it fits 64 bits, and refused exactly when it does not: the test before
-- each step is no coarser than the overflow.
pub parse_octal-value :
    (blanks ds tail : List ℕ) (d t : ℕ)
    → All Blank blanks
    → All OctalDigit (d ∷ ds)
    → is_blank t ≡ true
    → parse_octal (blanks ++ d ∷ (ds ++ t ∷ tail))
      ≡ (if ltb (octal_value (d ∷ ds) 0) u64_mod then some (octal_value (d ∷ ds) 0) else none)
unfolding parse_octal
parse_octal-value blanks ds tail d t h k b = ground (
  arith,
  skip_blanks-append blanks (d ∷ (ds ++ t ∷ tail)) h,
  skip_blanks-digit d (ds ++ t ∷ tail) k.0,
  parse_digits-value (d ∷ ds) tail t 0 k b (omega arith),
)
