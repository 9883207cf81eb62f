-- ===== src/Base/Cstr.antt =====
-- C strings: the list of the bytes before the terminating zero, which none of them is.
-- A byte that follows the terminator in its buffer has no part in the model.
use Prim.Native.Nat.{ℕ, zero, suc}
use mathlib.Core.Path.{◌≡◌, refl, ap}
use mathlib.Core.Bool.{Bool}
use mathlib.Core.List.{List, [], ◌∷◌}
use cleon_os_jgz_yes_fork.Base.Tests.{if◌then◌else◌}
use cleon_os_jgz_yes_fork.Base.Lists.{get_or, take}

-- `str[i]`, for `i` up to the position of the terminator.
abbrev pub char_at : List ℕ → ℕ → ℕ
char_at s i = get_or s i 0

-- `while (i < room && src[i] != 0) { dst[i] = src[i]; i++; } dst[i] = 0;`
unfoldable pub copy_bounded : ℕ → List ℕ → List ℕ
copy_bounded zero src = []
copy_bounded (suc room) [] = []
copy_bounded (suc room) (c ∷ src) = c ∷ copy_bounded room src

-- The copy is the longest prefix that leaves room for the terminator.
pub copy_bounded-eq-take : (room : ℕ) (src : List ℕ) → copy_bounded room src ≡ take room src
unfolding copy_bounded
copy_bounded-eq-take zero src = refl
copy_bounded-eq-take (suc room) [] = refl
copy_bounded-eq-take (suc room) (c ∷ src) = ap (λ l. c ∷ l) (copy_bounded-eq-take room src)

-- `while (test(line[i])) i++`, `while (line[i] != 0 && !test(line[i])) i++`
unfoldable pub skip_while : (ℕ → Bool) → List ℕ → List ℕ
skip_while test [] = []
skip_while test (c ∷ cs) = if test c then skip_while test cs else c ∷ cs

unfoldable pub until_first : (ℕ → Bool) → List ℕ → List ℕ
until_first test [] = []
until_first test (c ∷ cs) = if test c then [] else c ∷ until_first test cs

unfoldable pub from_first : (ℕ → Bool) → List ℕ → List ℕ
from_first test [] = []
from_first test (c ∷ cs) = if test c then c ∷ cs else from_first test cs
