-- ===== src/Shell/Path/Parts.antt =====
-- The components of a path, described without a cursor: what stands between the slashes.
use cleon_os_jgz_yes_fork.Base.{
  if◌then◌else◌, if_cases, length, All, skip_while, until_first, from_first, ℕ, ◌<◌, ◌≡◌, refl, ap,
  ◌∙◌, false, List, [], ◌∷◌, arith,
}
use cleon_os_jgz_yes_fork.Shell.Path.{is_slash}

-- A character in front of the first piece.
unfoldable pub extend : ℕ → List (List ℕ) → List (List ℕ)
extend c [] = (c ∷ []) ∷ []
extend c (w ∷ ws) = (c ∷ w) ∷ ws

-- The pieces between the slashes, empty ones included.
unfoldable pub split : List ℕ → List (List ℕ)
unfolding extend
split [] = [] ∷ []
split (c ∷ cs) = if is_slash c then [] ∷ split cs else extend c (split cs)

-- The pieces that are not empty.
unfoldable pub nonempty : List (List ℕ) → List (List ℕ)
nonempty [] = []
nonempty ([] ∷ ws) = nonempty ws
nonempty ((c ∷ w) ∷ ws) = (c ∷ w) ∷ nonempty ws

-- The components of a path.
unfoldable pub components : List ℕ → List (List ℕ)
unfolding split nonempty
components src = nonempty (split src)

-- Slashes in front do not count.
pub components-skip_while : (src : List ℕ) → components (skip_while is_slash src) ≡ components src
unfolding components skip_while
components-skip_while [] = refl
components-skip_while (c ∷ cs) = ground (arith, components-skip_while cs)

after : List ℕ → List (List ℕ)
unfolding split
after [] = []
after (c ∷ cs) = split cs

split_first :
    (src : List ℕ) → split src ≡ until_first is_slash src ∷ after (from_first is_slash src)
unfolding split until_first from_first after
split_first [] = refl
split_first (c ∷ cs) = ground (arith, split_first cs)

nonempty-after :
    (rest : List ℕ)
    → nonempty (after (from_first is_slash rest)) ≡ components (from_first is_slash rest)
unfolding components from_first after
nonempty-after [] = refl
nonempty-after (c ∷ cs) = ground (arith, nonempty-after cs)

-- The first component of a text that does not start with a slash, and the others.
pub components_first :
    (c : ℕ) (cs : List ℕ)
    → is_slash c ≡ false
    → components (c ∷ cs)
      ≡ until_first is_slash (c ∷ cs) ∷ components (from_first is_slash (c ∷ cs))
unfolding components until_first
components_first c cs h =
    ap nonempty (split_first (c ∷ cs))
    ∙ kept
    ∙ ap (λ ws. until_first is_slash (c ∷ cs) ∷ ws) (nonempty-after (c ∷ cs))
  where
    others : List (List ℕ)
    others = after (from_first is_slash (c ∷ cs))

    kept :
        nonempty (until_first is_slash (c ∷ cs) ∷ others)
        ≡ until_first is_slash (c ∷ cs) ∷ nonempty others
    kept = ground (arith, h)

-- A name in a directory: not empty, and no slash in it.
abbrev pub IsName : List ℕ → Type 0
IsName w = (0 < length w) × All (λ c. is_slash c ≡ false) w

-- A piece may be empty.
abbrev IsPiece : List ℕ → Type 0
IsPiece w = All (λ c. is_slash c ≡ false) w

extend-IsPiece :
    (c : ℕ) (ws : List (List ℕ)) → is_slash c ≡ false → All IsPiece ws → All IsPiece (extend c ws)
unfolding extend
extend-IsPiece c [] h k = ((h, tt), tt)
extend-IsPiece c (w ∷ ws) h k = ((h, k.0), k.1)

split-IsPiece : (src : List ℕ) → All IsPiece (split src)
unfolding split
split-IsPiece [] = (tt, tt)
split-IsPiece (c ∷ cs) =
    if_cases (All IsPiece) (is_slash c) (λ _. (tt, split-IsPiece cs))
      λ h. extend-IsPiece c (split cs) h (split-IsPiece cs)

nonempty-IsName : (ws : List (List ℕ)) → All IsPiece ws → All IsName (nonempty ws)
unfolding nonempty
nonempty-IsName [] k = tt
nonempty-IsName ([] ∷ ws) k = nonempty-IsName ws k.1
nonempty-IsName ((c ∷ w) ∷ ws) k = ((omega arith, k.0), nonempty-IsName ws k.1)

pub components-IsName : (src : List ℕ) → All IsName (components src)
unfolding components
components-IsName src = nonempty-IsName (split src) (split-IsPiece src)
