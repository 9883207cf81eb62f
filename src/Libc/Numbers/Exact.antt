-- ===== src/Libc/Numbers/Exact.antt =====
-- What the loop of strtoul and strtol finds: the exact value of the digits, held at the limit.
use native.Mathlib.Nat.{div-lt_iff_lt-mul, mul-le-mul_left}
use cleon_os_jgz_yes_fork.Base.{
  ltb, leb, ◌==◌, if◌then◌else◌, ltb→lt, lt→ltb, Bool-cases, if_cases, option_cases, length, sub64,
  ℕ, ◌+◌, ◌-◌, ◌*◌, ◌/◌, ◌^◌, ◌≤◌, ◌<◌, min, ◌≡◌, refl, sym, ap, subst, ◌∙◌, ◌↔◌, ◌⊎◌, inl, inr,
  Bool, true, false, Option, none, some, List, [], ◌∷◌, arith,
}
use cleon_os_jgz_yes_fork.Libc.Numbers.{
  Scan, long_max, digit_value, accept, scan, bad_base, limit_of,
}

-- The digits at the start of a text, as numbers below the base.
unfoldable pub digits_of : ℕ → List ℕ → List ℕ
digits_of base [] = []
digits_of base (c ∷ cs) =
    let rest = digits_of base cs in
    elim (digit_value c) [ none ↦ [] | some d ↦ (if leb base d then [] else d ∷ rest) ]

-- The number that they stand for, behind a number `v`.
unfoldable pub exact : ℕ → ℕ → List ℕ → ℕ
exact base v [] = v
exact base v (d ∷ ds) = exact base (v * base + d) ds

-- The variables of the loop after digits that stand for `v`.
pub record Tracks (limit v : ℕ) (s : Scan) : Type 0 where
  pub held : s.value ≡ min v limit
  pub late : s.overflow ≡ ltb limit v

at_most : (a b : ℕ) → ltb a b ≡ false → b ≤ a
at_most a b h = ground (arith, h)

above_all : (a b : ℕ) → leb a b ≡ false → b < a
above_all a b h = ground (arith, h)

Nat-le_or_lt : (a b : ℕ) → (a ≤ b) ⊎ (b < a)
Nat-le_or_lt a b = elim (Bool-cases (ltb b a)) [
  | inl h ↦ inr (ltb→lt b a h)
  | inr h ↦ inl (at_most b a h)
]

pub not_less : (a b : ℕ) → b ≤ a → ltb a b ≡ false
not_less a b h = ground (arith, h)

double_le : (a b : ℕ) → 1 < b → a * 2 ≤ a * b
double_le a b h = mul-le-mul_left a h

-- The test for overflow is exact.
overflows :
    (limit base d x : ℕ)
    → 1 < base
    → d ≤ limit
    → (limit < x * base + d → (limit - d) / base < x)
      × ((limit - d) / base < x → limit < x * base + d)
overflows limit base d x two small =
    (λ h. test.1 (omega (arith, h, small)), λ h. omega (arith, test.0 h, small))
  where
    test : ((limit - d) / base < x) ↔ (limit - d < x * base)
    test = div-lt_iff_lt-mul (omega arith)

-- A number that is too large stays too large.
grows : (limit base v d : ℕ) → 1 < base → limit < v → limit < v * base + d
grows limit base v d two h = omega (arith, h, double_le v base two)

refused : (limit base d : ℕ) → 1 < base → d ≤ limit → 0 < limit → (limit - d) / base < limit
refused limit base d two small big =
    (overflows limit base d limit two small).0 (omega (arith, double_le limit base two, big))

module _ (limit base v d : ℕ) (s : Scan) (two : 1 < base) (small : d ≤ limit) (big : 0 < limit)
    (t : Tracks limit v s) where
  taken_over : (limit - d) / base < s.value → limit < v * base + d
  taken_over h = elim (Nat-le_or_lt v limit) [
    | inl le ↦
        (overflows limit base d v two small).1
          (subst (λ x. (limit - d) / base < x) (omega (arith, t.held, le)) h)
    | inr lt ↦ grows limit base v d two lt
  ]

  kept_small : s.value ≤ (limit - d) / base → (v ≤ limit) × (v * base + d ≤ limit)
  kept_small h = elim (Nat-le_or_lt v limit) [
    | inl le ↦ elim (Nat-le_or_lt (v * base + d) limit) [
      | inl le2 ↦ (le, le2)
      | inr lt ↦ absurd (omega (arith, h, t.held, le, (overflows limit base d v two small).0 lt))
    ]
    | inr lt ↦ absurd (omega (arith, h, t.held, lt, refused limit base d two small big))
  ]

  accept-Tracks : Tracks limit (v * base + d) (accept limit base s d)
  unfolding accept
  accept-Tracks =
      if_cases (Tracks limit (v * base + d)) (ltb ((limit - d) / base) s.value)
        (λ h. above (taken_over (ltb→lt ((limit - d) / base) s.value h)))
        λ h. below (kept_small (at_most ((limit - d) / base) s.value h))
    where
      above :
          limit < v * base + d
          → Tracks limit (v * base + d) (record { value = limit; any = true; overflow = true })
      above lt = record { held = omega arith; late = sym (lt→ltb limit (v * base + d) lt) }

      below :
          (v ≤ limit) × (v * base + d ≤ limit)
          → Tracks limit (v * base + d) (record {
            value = if s.overflow then s.value else s.value * base + d;
            any = true;
            overflow = s.overflow;
          })
      below (le, le2) = record {
        held =
            ap (λ b. if b then s.value else s.value * base + d) calm
            ∙ ap (λ x. x * base + d) whole
            ∙ omega arith;
        late = calm ∙ sym (not_less limit (v * base + d) le2);
      }
        where
          whole : s.value ≡ v
          whole = omega (arith, t.held, le)

          calm : s.overflow ≡ false
          calm = t.late ∙ not_less limit v le

pub scan-Tracks :
    (limit base v : ℕ) (cs : List ℕ) (s : Scan)
    → 1 < base
    → base ≤ 36
    → 36 < limit
    → Tracks limit v s
    → Tracks limit (exact base v (digits_of base cs)) (scan limit base cs s).0
unfolding scan exact digits_of
scan-Tracks limit base v [] s two top big t = t
scan-Tracks limit base v (c ∷ cs) s two top big t = cases (digit_value c) λ d lt.
    scan-Tracks limit base (v * base + d) cs (accept limit base s d) two top big
      (accept-Tracks limit base v d s two (omega arith) (omega arith) t)
  where
    Reads : Option ℕ → Type 0
    Reads o =
        Tracks limit
          (exact base v (elim o as (λ _. List ℕ) [
            | none ↦ []
            | some d ↦ (if leb base d then [] else d ∷ digits_of base cs)
          ]))
          (elim o as (λ _. Scan × List ℕ) [
            | none ↦ (s, c ∷ cs)
            | some d ↦
                (if leb base d then (s, c ∷ cs) else scan limit base cs (accept limit base s d))
          ]).0

    cases :
        (o : Option ℕ)
        → ((d : ℕ)
            → d < base
            → Tracks limit
                (exact base (v * base + d) (digits_of base cs))
                (scan limit base cs (accept limit base s d)).0)
        → Reads o
    cases none ih = t
    cases (some d) ih = pick (leb base d) refl
      where
        pick :
            (b : Bool)
            → leb base d ≡ b
            → Tracks limit
                (exact base v (if b then [] else d ∷ digits_of base cs))
                (if b then (s, c ∷ cs) else scan limit base cs (accept limit base s d)).0
        pick true e = t
        pick false e = ih d (above_all base d e)

accept-any : (limit base d : ℕ) (s : Scan) → (accept limit base s d).any ≡ true
unfolding accept
accept-any limit base d s = ground arith

scan-seen :
    (limit base : ℕ) (cs : List ℕ) (s : Scan) → s.any ≡ true → (scan limit base cs s).0.any ≡ true
unfolding scan
scan-seen limit base [] s h = h
scan-seen limit base (c ∷ cs) s h =
    option_cases P (digit_value c) _ _ (λ _. h)
      λ d _.
        if_cases P (leb base d) (λ _. h)
          λ _. scan-seen limit base cs (accept limit base s d) (accept-any limit base d s)
  where
    P : Scan × List ℕ → Type 0
    P r = r.0.any ≡ true

pub scan-any :
    (limit base : ℕ) (cs : List ℕ) (s : Scan)
    → 0 < length (digits_of base cs)
    → (scan limit base cs s).0.any ≡ true
unfolding scan digits_of
scan-any limit base [] s h = absurd (omega arith)
scan-any limit base (c ∷ cs) s h = cases (digit_value c) h
  where
    cases :
        (o : Option ℕ)
        → 0
          < length (elim o as (λ _. List ℕ) [
            | none ↦ []
            | some d ↦ (if leb base d then [] else d ∷ digits_of base cs)
          ])
        → (elim o as (λ _. Scan × List ℕ) [
          | none ↦ (s, c ∷ cs)
          | some d ↦
              (if leb base d then (s, c ∷ cs) else scan limit base cs (accept limit base s d))
        ]).0.any
          ≡ true
    cases none k = absurd (omega (arith, k))
    cases (some d) k = pick (leb base d) k
      where
        pick :
            (b : Bool)
            → 0 < length {A = ℕ} (if b then [] else d ∷ digits_of base cs)
            → (if b then (s, c ∷ cs) else scan limit base cs (accept limit base s d)).0.any ≡ true
        pick true k = absurd (omega (arith, k))
        pick false k = scan-seen limit base cs (accept limit base s d) (accept-any limit base d s)

-- The signed value of what the loop found.
pub clip :
    (negative : Bool) (m : ℕ) (s : Scan)
    → Tracks (limit_of negative) m s
    → (if s.overflow
        then (if negative then 2 ^ 63 else long_max)
        else (if negative
            then (if s.value == long_max + 1 then 2 ^ 63 else sub64 0 s.value)
            else s.value))
      ≡ (if negative then sub64 0 (min m (2 ^ 63)) else min m long_max)
clip true m s t = ground (arith, t.held, t.late)
clip false m s t = ground (arith, t.held, t.late)

pub good_base : (b : ℕ) → 1 < b → b ≤ 36 → bad_base b ≡ true → ⊥
good_base b two top h = ground (arith, h)
