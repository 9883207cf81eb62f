-- ===== src/Libc/Numbers/Read.antt =====
-- What strtoul and strtol read from a text that an integer is written in.
use cleon_os_jgz_yes_fork.Base.{
  ◌==◌, if◌then◌else◌, Bool-cases, if_cases, length, drop, All, sub64, char_at, skip_while, ℕ, ◌+◌,
  ◌^◌, ◌≤◌, ◌<◌, min, ◌≡◌, refl, sym, ap, ap₂, subst, ◌∙◌, inl, inr, Bool, true, false, not, ◌||◌,
  List, [], ◌∷◌, ◌++◌, arith,
}
use cleon_os_jgz_yes_fork.Libc.Numbers.{
  Head, Scan, ulong_max, long_max, isxdigit, isspace, base_of, head_of, scan, start, bad_base,
  strtoul, limit_of, strtol,
}
use cleon_os_jgz_yes_fork.Libc.Numbers.Exact.{
  Tracks, exact, scan-Tracks, scan-any, clip, good_base, not_less,
}
use cleon_os_jgz_yes_fork.Libc.Numbers.Written.{
  IsBlank, Sign, no_sign, plus, minus, Denotes, figure, Digits, done, digit, Stops, Prefix, given,
  plain_hex, marked, found_hex, found_octal, found_decimal, isxdigit-Denotes, xdigit_value,
  Denotes-plain, Denotes-digit_value, digits_of-Digits, scan-rest,
}

IsBlank-isspace : (c : ℕ) → IsBlank c → isspace c ≡ true
IsBlank-isspace c (inl e) = ground (arith, e)
IsBlank-isspace c (inr k) = ground (arith, k)

skip_while-blanks :
    (blanks l : List ℕ)
    → All IsBlank blanks
    → isspace (char_at l 0) ≡ false
    → skip_while isspace (blanks ++ l) ≡ l
unfolding skip_while
skip_while-blanks [] [] k h = refl
skip_while-blanks [] (c ∷ l) k h = ground (arith, h)
skip_while-blanks (b ∷ blanks) l k h =
    ground (arith, IsBlank-isspace b k.0, skip_while-blanks blanks l k.1 h)

not_hex : (c : ℕ) → ((d : ℕ) → Denotes c d → 16 ≤ d) → isxdigit c ≡ false
not_hex c h = elim (Bool-cases (isxdigit c)) [
  | inl e ↦
      (let (d, lt, v) = xdigit_value c e in
        absurd (omega (arith, lt, h d (Denotes-digit_value c d v))))
  | inr e ↦ e
]

-- The base and its prefix are found.
base_of-Prefix :
    (base b : ℕ) (prefix l : List ℕ) → Prefix base prefix b l → base_of base (prefix ++ l) ≡ (b, l)
unfolding base_of
base_of-Prefix base b prefix l (given _ _ two top other) = ground arith
base_of-Prefix base b prefix l (plain_hex _ h) = ground (arith, h)
base_of-Prefix base b prefix l (marked x _ h) = ground (arith, h)
base_of-Prefix base b prefix l (found_hex x d _ h n lt) =
    ground (arith, h, isxdigit-Denotes (char_at l 0) d n lt)
base_of-Prefix base b prefix l (found_octal _ z (inl h)) = ground (arith, z, h)
base_of-Prefix base b prefix l (found_octal _ z (inr h)) =
    ground (arith, z, not_hex (char_at l 2) h)
base_of-Prefix base b prefix l (found_decimal _ h) = ground (arith, h)

Prefix-base : {base b : ℕ} {prefix l : List ℕ} → Prefix base prefix b l → (1 < b) × (b ≤ 36)
Prefix-base (given b _ two top other) = (two, top)
Prefix-base (plain_hex _ h) = (omega arith, omega arith)
Prefix-base (marked x _ h) = (omega arith, omega arith)
Prefix-base (found_hex x d _ h n lt) = (omega arith, omega arith)
Prefix-base (found_octal _ z h) = (omega arith, omega arith)
Prefix-base (found_decimal _ h) = (omega arith, omega arith)

first_of :
    {b : ℕ} (cs ds rest : List ℕ)
    → Digits b cs ds
    → 0 < length ds
    → (d : ℕ) × Denotes (char_at (cs ++ rest) 0) d
first_of cs ds rest done h = absurd (omega (arith, h))
first_of (c ∷ cs) (d ∷ ds) rest (digit n lt k) h = (d, n)

-- The text behind the sign starts with a character of a digit.
first_digit :
    {base b : ℕ} (prefix l : List ℕ)
    → Prefix base prefix b l
    → (d : ℕ) × Denotes (char_at l 0) d
    → (d : ℕ) × Denotes (char_at (prefix ++ l) 0) d
first_digit prefix l (given _ _ two top other) f = f
first_digit prefix l (plain_hex _ h) f = f
first_digit prefix l (marked x _ h) f = (0, figure 0 (omega arith))
first_digit prefix l (found_hex x d _ h n lt) f = (0, figure 0 (omega arith))
first_digit prefix l (found_octal _ z h) f = f
first_digit prefix l (found_decimal _ h) f = f

-- What `head_of` makes of the text behind the blanks.
behind : ℕ → List ℕ → Head
behind base p =
    let signed = (char_at p 0 == b'+') || (char_at p 0 == b'-') in
    let (b, rest) = base_of base (if signed then drop 1 p else p) in
    record { negative = char_at p 0 == b'-'; base = b; rest = rest }

behind-Sign :
    {neg : Bool} (base b d : ℕ) (sign t l : List ℕ)
    → Sign neg sign
    → Denotes (char_at t 0) d
    → base_of base t ≡ (b, l)
    → behind base (sign ++ t) ≡ record { negative = neg; base = b; rest = l }
unfolding behind
behind-Sign base b d sign t l no_sign n e = ground (arith, Denotes-plain (char_at t 0) d n, e)
behind-Sign base b d sign t l plus n e = ground (arith, e)
behind-Sign base b d sign t l minus n e = ground (arith, e)

Sign-isspace :
    {neg : Bool} (d : ℕ) (sign t : List ℕ)
    → Sign neg sign
    → Denotes (char_at t 0) d
    → isspace (char_at (sign ++ t) 0) ≡ false
Sign-isspace d sign t no_sign n = (Denotes-plain (char_at t 0) d n).0
Sign-isspace d sign t plus n = refl
Sign-isspace d sign t minus n = refl

head_of-written :
    {neg : Bool} (blanks sign prefix l : List ℕ) (base b : ℕ)
    → All IsBlank blanks
    → Sign neg sign
    → Prefix base prefix b l
    → (d : ℕ) × Denotes (char_at l 0) d
    → head_of (blanks ++ (sign ++ (prefix ++ l))) base
      ≡ record { negative = neg; base = b; rest = l }
unfolding head_of behind
head_of-written blanks sign prefix l base b blank s p f =
    let (d, n) = first_digit prefix l p f in
    ap (behind base) (
      skip_while-blanks blanks (sign ++ (prefix ++ l)) blank
        (Sign-isspace d sign (prefix ++ l) s n))
    ∙ behind-Sign base b d sign (prefix ++ l) l s n (base_of-Prefix base b prefix l p)

-- What both functions make of a head.
unsigned_of : List ℕ → Head → ℕ × List ℕ
unsigned_of text h =
    let (s, rest) = scan ulong_max h.base h.rest start in
    if bad_base h.base
    then (0, text)
    else (if not s.any
        then (0, text)
        else ((if h.negative then sub64 0 s.value else s.value), rest))

signed_of : List ℕ → Head → ℕ × List ℕ
signed_of text h =
    let (s, rest) = scan (limit_of h.negative) h.base h.rest start in
    let value =
      if s.overflow
      then (if h.negative then 2 ^ 63 else long_max)
      else (if h.negative
          then (if s.value == long_max + 1 then 2 ^ 63 else sub64 0 s.value)
          else s.value) in
    if bad_base h.base then (0, text) else (if not s.any then (0, text) else (value, rest))

strtoul-eq : (text : List ℕ) (base : ℕ) → strtoul text base ≡ unsigned_of text (head_of text base)
unfolding strtoul unsigned_of
strtoul-eq text base = refl

strtol-eq : (text : List ℕ) (base : ℕ) → strtol text base ≡ signed_of text (head_of text base)
unfolding strtol signed_of
strtol-eq text base = refl

module _ (negative : Bool) (b : ℕ) (cs ds rest : List ℕ) (two : 1 < b) (top : b ≤ 36)
    (k : Digits b cs ds) (some_digit : 0 < length ds) (stops : Stops b rest) where
  found : Head
  found = record { negative = negative; base = b; rest = cs ++ rest }

  scanned : ℕ → Scan × List ℕ
  scanned limit = scan limit b (cs ++ rest) start

  seen : (limit : ℕ) → (scanned limit).0.any ≡ true
  unfolding scanned
  seen limit =
      scan-any limit b (cs ++ rest) start
        (subst (λ l. 0 < length l) (sym (digits_of-Digits b cs ds rest k stops)) some_digit)

  tracks : (limit : ℕ) → 36 < limit → Tracks limit (exact b 0 ds) (scanned limit).0
  unfolding scanned
  tracks limit big =
      subst (λ l. Tracks limit (exact b 0 l) (scan limit b (cs ++ rest) start).0)
        (digits_of-Digits b cs ds rest k stops)
        (scan-Tracks limit b 0 (cs ++ rest) start two top big
          (record { held = omega arith; late = sym (not_less limit 0 (omega arith)) }))

  unsigned :
      (text : List ℕ)
      → unsigned_of text found ≡ (
        (if negative then sub64 0 (min (exact b 0 ds) ulong_max) else min (exact b 0 ds) ulong_max),
        rest,
      )
  unfolding unsigned_of found scanned
  unsigned text =
      if_cases P (bad_base b) (λ e. absurd (good_base b two top e))
        λ _.
          if_cases P (not (scanned ulong_max).0.any) (λ e. absurd (cc (e, seen ulong_max)))
            λ _.
              ap₂ (λ v r. ((if negative then sub64 0 v else v), r))
                (tracks ulong_max (omega arith)).held
                (scan-rest ulong_max b cs ds rest start k stops)
    where
      P : ℕ × List ℕ → Type 0
      P r = r ≡ (
        (if negative then sub64 0 (min (exact b 0 ds) ulong_max) else min (exact b 0 ds) ulong_max),
        rest,
      )

  signed :
      (text : List ℕ)
      → signed_of text found ≡ (
        (if negative then sub64 0 (min (exact b 0 ds) (2 ^ 63)) else min (exact b 0 ds) long_max),
        rest,
      )
  unfolding signed_of found scanned
  signed text =
      if_cases P (bad_base b) (λ e. absurd (good_base b two top e))
        λ _.
          if_cases P (not (scanned (limit_of negative)).0.any)
            (λ e. absurd (cc (e, seen (limit_of negative))))
            λ _.
              ap₂ (λ (v : ℕ) (r : List ℕ). (v, r))
                (clip negative (exact b 0 ds) (scanned (limit_of negative)).0
                  (tracks (limit_of negative) (large negative)))
                (scan-rest (limit_of negative) b cs ds rest start k stops)
    where
      P : ℕ × List ℕ → Type 0
      P r = r ≡ (
        (if negative then sub64 0 (min (exact b 0 ds) (2 ^ 63)) else min (exact b 0 ds) long_max),
        rest,
      )

      large : (n : Bool) → 36 < limit_of n
      large true = omega arith
      large false = omega arith

-- For a text of blanks, an optional sign, a prefix that fits the base, at least one digit of the base
-- that this makes, and a rest that starts with no such digit: `strtoul` gives the exact value of the
-- digits, or 2^64 - 1 where that is larger, negated modulo 2^64 behind a minus sign; `strtol` gives
-- the exact value with its sign, or the nearest `long` where it is out of range; and both stop at the
-- rest.
pub strtoul-exact :
    {negative : Bool} (blanks sign prefix cs ds rest : List ℕ) (base b : ℕ)
    → All IsBlank blanks
    → Sign negative sign
    → Prefix base prefix b (cs ++ rest)
    → Digits b cs ds
    → 0 < length ds
    → Stops b rest
    → let text = blanks ++ (sign ++ (prefix ++ (cs ++ rest))) in
      let m = exact b 0 ds in
      (strtoul text base
        ≡ ((if negative then sub64 0 (min m ulong_max) else min m ulong_max), rest))
      × (strtol text base ≡ ((if negative then sub64 0 (min m (2 ^ 63)) else min m long_max), rest))
unfolding found
strtoul-exact {negative} blanks sign prefix cs ds rest base b blank s p k some_digit stops =
    let two = (Prefix-base p).0 in
    let top = (Prefix-base p).1 in
    let text = blanks ++ (sign ++ (prefix ++ (cs ++ rest))) in
    let head =
      head_of-written blanks sign prefix (cs ++ rest) base b blank s p
        (first_of cs ds rest k some_digit) in
    (
      strtoul-eq text base
          ∙ ap (unsigned_of text) head
          ∙ unsigned negative b cs ds rest two top k some_digit stops text,
      strtol-eq text base
          ∙ ap (signed_of text) head
          ∙ signed negative b cs ds rest two top k some_digit stops text,
    )
