-- ===== src/Libc/Numbers/Tests.antt =====
-- The theorem about strtoul and strtol, applied to " -0xB7;" in base 0.
use cleon_os_jgz_yes_fork.Base.{sub64, ℕ, ◌^◌, min, ◌≡◌, refl, inl, none, List, [], ◌∷◌, arith}
use cleon_os_jgz_yes_fork.Libc.Numbers.{ulong_max, strtoul, strtol, digit_value}
use cleon_os_jgz_yes_fork.Libc.Numbers.Exact.{exact}
use cleon_os_jgz_yes_fork.Libc.Numbers.Written.{
  digit_value-Denotes, figure, capital, digit, done, Stops, found_hex, minus,
}
use cleon_os_jgz_yes_fork.Libc.Numbers.Read.{strtoul-exact}

abbrev written : List ℕ
written = b' ' ∷ b'-' ∷ b'0' ∷ b'x' ∷ b'B' ∷ b'7' ∷ b';' ∷ []

no_value : digit_value b';' ≡ none
unfolding digit_value
no_value = refl

semicolon-Stops : Stops 16 (b';' ∷ [])
semicolon-Stops d n = absurd (cc (digit_value-Denotes n, no_value))

strtoul-exact_example :
    (strtoul written 0 ≡ (sub64 0 (min (exact 16 0 (11 ∷ 7 ∷ [])) ulong_max), b';' ∷ []))
    × (strtol written 0 ≡ (sub64 0 (min (exact 16 0 (11 ∷ 7 ∷ [])) (2 ^ 63)), b';' ∷ []))
strtoul-exact_example =
    strtoul-exact (b' ' ∷ []) (b'-' ∷ []) (b'0' ∷ b'x' ∷ []) (b'B' ∷ b'7' ∷ []) (11 ∷ 7 ∷ [])
      (b';' ∷ []) 0 16 (inl refl, tt) minus
      (found_hex b'x' 11 (b'B' ∷ b'7' ∷ b';' ∷ []) (inl refl) (capital 1 (omega arith))
        (omega arith))
      (digit (capital 1 (omega arith)) (omega arith)
        (digit (figure 7 (omega arith)) (omega arith) done))
      (omega arith) semicolon-Stops
