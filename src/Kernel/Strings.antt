-- ===== src/Kernel/Strings.antt =====
-- The string functions of clks/lib/string.c that the kernel's components call.
use cleon_os_jgz_yes_fork.Base.{
  ◌==◌, if◌then◌else◌, ℕ, ◌≡◌, refl, ◌↔◌, Bool, true, false, List, [], ◌∷◌, arith,
}

-- `clks_strcmp(left, right) == 0`
unfoldable pub str_eq : List ℕ → List ℕ → Bool
str_eq [] [] = true
str_eq [] (r ∷ right) = false
str_eq (l ∷ left) [] = false
str_eq (l ∷ left) (r ∷ right) = if l == r then str_eq left right else false

pub str_eq_iff : (a b : List ℕ) → (str_eq a b ≡ true) ↔ (a ≡ b)
unfolding str_eq
str_eq_iff [] [] = (λ h. refl, λ h. refl)
str_eq_iff [] (r ∷ b) = (λ h. absurd (cc h), λ h. absurd (cc h))
str_eq_iff (l ∷ a) [] = (λ h. absurd (cc h), λ h. absurd (cc h))
str_eq_iff (l ∷ a) (r ∷ b) = ground (arith, str_eq_iff a b)
