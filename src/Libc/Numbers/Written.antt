-- ===== src/Libc/Numbers/Written.antt =====
-- How an integer is written, described without the functions that read it, and
-- how its digits are read.
use mathlib.Core.Option.{some-injective}
use cleon_os_jgz_yes_fork.Base.{
  leb, ◌==◌, Bool-cases, if_cases, option_cases, char_at, ℕ, ◌+◌, ◌-◌, ◌≤◌, ◌<◌, ◌≡◌, refl, subst,
  ◌≢◌, ◌⊎◌, inl, inr, Bool, true, false, Option, some, List, [], ◌∷◌, ◌++◌, arith,
}
use cleon_os_jgz_yes_fork.Libc.Numbers.{Scan, between, isxdigit, isspace, digit_value, accept, scan}
use cleon_os_jgz_yes_fork.Libc.Numbers.Exact.{digits_of}

-- A blank: the space, or a character from the tab to the carriage return.
abbrev pub IsBlank : ℕ → Type 0
IsBlank c = (c ≡ b' ') ⊎ ((9 ≤ c) × (c ≤ 13))

-- A sign, and whether it is a minus.
pub data Sign : Bool → List ℕ → Type 0 where
  no_sign : Sign false []
  plus : Sign false (b'+' ∷ [])
  minus : Sign true (b'-' ∷ [])

-- A character that stands for the digit `d`: '0' to '9', then a letter, small or capital.
pub data Denotes : ℕ → ℕ → Type 0 where
  figure : (d : ℕ) → d < 10 → Denotes (b'0' + d) d
  small : (d : ℕ) → d < 26 → Denotes (b'a' + d) (10 + d)
  capital : (d : ℕ) → d < 26 → Denotes (b'A' + d) (10 + d)

-- Characters that stand for digits below a base, one for one.
pub data Digits (base : ℕ) : List ℕ → List ℕ → Type 0 where
  done : Digits base [] []
  digit :
      {c d : ℕ} {cs ds : List ℕ}
      → Denotes c d
      → d < base
      → Digits base cs ds
      → Digits base (c ∷ cs) (d ∷ ds)

-- The text ends, or its first character stands for no digit below the base.
abbrev pub Stops : ℕ → List ℕ → Type 0
Stops base [] = Unit {0}
Stops base (c ∷ rest) = (d : ℕ) → Denotes c d → base ≤ d

-- The prefix in front of the text `l` of the digits and what follows, for a base that is asked for,
-- and the base that it makes. A base of 16 without "0x" excludes texts that start with "0x", and the
-- base 0 is 8 for a "0" that no "x" and hexadecimal digit follow.
pub data Prefix : ℕ → List ℕ → ℕ → List ℕ → Type 0 where
  given : (base : ℕ) (l : List ℕ) → 1 < base → base ≤ 36 → base ≢ 16 → Prefix base [] base l
  plain_hex :
      (l : List ℕ)
      → (char_at l 0 ≢ b'0') ⊎ ((char_at l 1 ≢ b'x') × (char_at l 1 ≢ b'X'))
      → Prefix 16 [] 16 l
  marked : (x : ℕ) (l : List ℕ) → (x ≡ b'x') ⊎ (x ≡ b'X') → Prefix 16 (b'0' ∷ x ∷ []) 16 l
  found_hex :
      (x d : ℕ) (l : List ℕ)
      → (x ≡ b'x') ⊎ (x ≡ b'X')
      → Denotes (char_at l 0) d
      → d < 16
      → Prefix 0 (b'0' ∷ x ∷ []) 16 l
  found_octal :
      (l : List ℕ)
      → char_at l 0 ≡ b'0'
      → ((char_at l 1 ≢ b'x') × (char_at l 1 ≢ b'X')) ⊎ ((d : ℕ) → Denotes (char_at l 2) d → 16 ≤ d)
      → Prefix 0 [] 8 l
  found_decimal : (l : List ℕ) → char_at l 0 ≢ b'0' → Prefix 0 [] 10 l

-- The characters that stand for digits are read as these digits.
pub digit_value-Denotes : {c d : ℕ} → Denotes c d → digit_value c ≡ some d
unfolding digit_value
digit_value-Denotes (figure d lt) = ground arith
digit_value-Denotes (small d lt) = ground arith
digit_value-Denotes (capital d lt) = ground arith

in_between :
    (low c high : ℕ)
    → between low c high ≡ true
    → (e : ℕ) → c - low ≡ e
    → (low + e ≡ c) × (e ≤ high - low)
in_between low c high h e k = (ground (arith, h, k), ground (arith, h, k))

-- And no others.
pub Denotes-digit_value : (c d : ℕ) → digit_value c ≡ some d → Denotes c d
unfolding digit_value
Denotes-digit_value c d =
    if_cases P (between b'0' c b'9') (λ h e. is_figure h (some-injective (c - b'0') d e))
      λ _.
        if_cases P (between b'a' c b'z') (λ h e. is_small h (some-injective (10 + (c - b'a')) d e))
          λ _.
            if_cases P (between b'A' c b'Z')
              (λ h e. is_capital h (some-injective (10 + (c - b'A')) d e)) λ _ e. absurd (cc e)
  where
    P : Option ℕ → Type 0
    P o = o ≡ some d → Denotes c d

    is_figure : between b'0' c b'9' ≡ true → c - b'0' ≡ d → Denotes c d
    is_figure h e =
        subst (λ k. Denotes k d) (in_between b'0' c b'9' h d e).0
          (figure d (omega (arith, (in_between b'0' c b'9' h d e).1)))

    is_small : between b'a' c b'z' ≡ true → 10 + (c - b'a') ≡ d → Denotes c d
    is_small h e = subst (Denotes c) e (
        subst (λ k. Denotes k (10 + (c - b'a'))) (in_between b'a' c b'z' h (c - b'a') refl).0
          (small (c - b'a') (omega (arith, (in_between b'a' c b'z' h (c - b'a') refl).1))))

    is_capital : between b'A' c b'Z' ≡ true → 10 + (c - b'A') ≡ d → Denotes c d
    is_capital h e = subst (Denotes c) e (
        subst (λ k. Denotes k (10 + (c - b'A'))) (in_between b'A' c b'Z' h (c - b'A') refl).0
          (capital (c - b'A') (omega (arith, (in_between b'A' c b'Z' h (c - b'A') refl).1))))

-- A hexadecimal digit by its character.
pub isxdigit-Denotes : (c d : ℕ) → Denotes c d → d < 16 → isxdigit c ≡ true
isxdigit-Denotes c d (figure e lt) h = ground arith
isxdigit-Denotes c d (small e lt) h = ground arith
isxdigit-Denotes c d (capital e lt) h = ground arith

pub xdigit_value : (c : ℕ) → isxdigit c ≡ true → (d : ℕ) × (d < 16) × (digit_value c ≡ some d)
unfolding digit_value
xdigit_value c h = elim (Bool-cases (between b'0' c b'9')) [
  | inl e ↦ (c - b'0', ground (arith, e), ground (arith, e))
  | inr e ↦ elim (Bool-cases (between b'a' c b'f')) [
    | inl k ↦ (10 + (c - b'a'), ground (arith, k), ground (arith, e, k))
    | inr k ↦ (10 + (c - b'A'), ground (arith, e, k, h), ground (arith, e, k, h))
  ]
]

-- A character of a digit is no blank and no sign.
pub Denotes-plain :
    (c d : ℕ) → Denotes c d → (isspace c ≡ false) × ((c == b'+') ≡ false) × ((c == b'-') ≡ false)
Denotes-plain c d (figure e lt) = (ground arith, ground arith, ground arith)
Denotes-plain c d (small e lt) = (ground arith, ground arith, ground arith)
Denotes-plain c d (capital e lt) = (ground arith, ground arith, ground arith)

pub digits_of-Digits :
    (base : ℕ) (cs ds rest : List ℕ)
    → Digits base cs ds
    → Stops base rest
    → digits_of base (cs ++ rest) ≡ ds
unfolding digits_of
digits_of-Digits base cs ds [] done s = refl
digits_of-Digits base cs ds (c ∷ rest) done s =
    option_cases (λ l. l ≡ []) (digit_value c) _ _ (λ _. refl)
      λ d e.
        if_cases (λ l. l ≡ []) (leb base d) (λ _. refl)
          λ h. absurd (ground (arith, h, s d (Denotes-digit_value c d e)))
digits_of-Digits base (c ∷ cs) (d ∷ ds) rest (digit n lt k) s =
    ground (arith, digit_value-Denotes n, lt, digits_of-Digits base cs ds rest k s)

pub scan-rest :
    (limit base : ℕ) (cs ds rest : List ℕ) (v : Scan)
    → Digits base cs ds
    → Stops base rest
    → (scan limit base (cs ++ rest) v).1 ≡ rest
unfolding scan
scan-rest limit base cs ds [] v done s = refl
scan-rest limit base cs ds (c ∷ rest) v done s =
    option_cases (λ (r : Scan × List ℕ). r.1 ≡ c ∷ rest) (digit_value c) _ _ (λ _. refl)
      λ d e.
        if_cases (λ (r : Scan × List ℕ). r.1 ≡ c ∷ rest) (leb base d) (λ _. refl)
          λ h. absurd (ground (arith, h, s d (Denotes-digit_value c d e)))
scan-rest limit base (c ∷ cs) (d ∷ ds) rest v (digit n lt k) s =
    ground (
      arith,
      digit_value-Denotes n,
      lt,
      scan-rest limit base cs ds rest (accept limit base v d) k s,
    )
