-- ===== src/Shell/Path/Target.antt =====
-- What path a name is resolved to.
use cleon_os_jgz_yes_fork.Base.{
  ltb, ◌==◌, if◌then◌else◌, ltb→lt, if_cases, option_cases, length, drop, All, char_at, skip_while,
  ℕ, suc, ◌+◌, ◌≤◌, ◌<◌, ◌≡◌, refl, sym, ap, subst, ◌∙◌, true, false, not, Option, none, some, List,
  [], ◌∷◌, arith,
}
use cleon_os_jgz_yes_fork.Shell.Path.{slash, is_slash, parse_into, resolve_path}
use cleon_os_jgz_yes_fork.Shell.Path.Parts.{
  IsName, components, components-IsName, components-skip_while,
}
use cleon_os_jgz_yes_fork.Shell.Path.Stack.{render, walk, IsPlainName, walk-IsPlainName}
use cleon_os_jgz_yes_fork.Shell.Path.Resolve.{parse_from-render, parse_from-fits, length-skip_while}

-- The source behind the slash that it may start with.
tail_of : List ℕ → List ℕ
tail_of src = if char_at src 0 == slash then drop 1 src else src

components-tail_of : (src : List ℕ) → components (tail_of src) ≡ components src
unfolding tail_of skip_while
components-tail_of src =
    sym (components-skip_while (tail_of src)) ∙ ap components (same src) ∙ components-skip_while src
  where
    same : (l : List ℕ) → skip_while is_slash (tail_of l) ≡ skip_while is_slash l
    same [] = refl
    same (c ∷ cs) = ground arith

length-tail_of : (src : List ℕ) → length (tail_of src) ≤ length src
unfolding tail_of
length-tail_of [] = omega arith
length-tail_of (c ∷ cs) = ground arith

names_of : (stack : List (List ℕ)) → All IsPlainName stack → All IsName stack
names_of [] k = tt
names_of (w ∷ ws) k = (k.0.0, names_of ws k.1)

parse_into-render :
    (out_size : ℕ) (src : List ℕ) (stack : List (List ℕ))
    → All IsPlainName stack
    → length (render stack) + 1 + length src < out_size
    → parse_into out_size src (render stack) ≡ some (render (walk stack (components src)))
unfolding parse_into tail_of
parse_into-render out_size src stack k room =
    parse_from-render out_size (suc (length src)) (tail_of src) stack
      (omega (arith, length-tail_of src)) (names_of stack k)
      (λ _. omega (arith, room, length-tail_of src, length-skip_while (tail_of src)))
    ∙ ap (λ ws. some (render (walk stack ws))) (components-tail_of src)

parse_into-fits :
    (out_size : ℕ) (src : List ℕ) (stack : List (List ℕ)) (p : List ℕ)
    → All IsPlainName stack
    → length (render stack) < out_size
    → parse_into out_size src (render stack) ≡ some p
    → (p ≡ render (walk stack (components src))) × (length p < out_size)
unfolding parse_into tail_of
parse_into-fits out_size src stack p k room e =
    subst (λ ws. (p ≡ render (walk stack ws)) × (length p < out_size)) (components-tail_of src)
      (parse_from-fits out_size (suc (length src)) (tail_of src) stack p
        (omega (arith, length-tail_of src)) (names_of stack k) room e)

-- A path that is parsed from the root is two characters longer than its source at most.
length-walk : (src : List ℕ) → length (render (walk [] (components src))) < length src + 3
unfolding render
length-walk src =
    (parse_into-fits (length src + 3) src [] (render (walk [] (components src))) tt (omega arith)
      (parse_into-render (length src + 3) src [] tt (omega arith))).1

-- Where a name leads from the directory `cwd`: a name that starts with a slash from the root, another
-- one from `cwd`, component by component.
unfoldable pub target : List ℕ → List ℕ → List (List ℕ)
unfolding walk
target cwd arg =
    if char_at arg 0 == slash
    then walk [] (components arg)
    else walk (walk [] (components cwd)) (components arg)

from_cwd : (cwd : List ℕ) → All IsPlainName (walk [] (components cwd))
from_cwd cwd = walk-IsPlainName (components cwd) [] (components-IsName cwd) tt

target-IsPlainName : (cwd arg : List ℕ) → All IsPlainName (target cwd arg)
unfolding target
target-IsPlainName cwd arg =
    if_cases (All IsPlainName) (char_at arg 0 == slash) (λ _. from_cwd arg)
      λ _.
        walk-IsPlainName (components arg) (walk [] (components cwd)) (components-IsName arg)
          (from_cwd cwd)

target_empty :
    (cwd arg : List ℕ) → (length arg == 0) ≡ true → target cwd arg ≡ walk [] (components cwd)
unfolding target components
target_empty cwd [] e = refl
target_empty cwd (c ∷ cs) e = absurd (ground (arith, e))

target_absolute :
    (cwd arg : List ℕ)
    → not (char_at arg 0 == slash) ≡ false
    → target cwd arg ≡ walk [] (components arg)
unfolding target
target_absolute cwd arg e = ground (arith, e)

target_relative :
    (cwd arg : List ℕ)
    → not (char_at arg 0 == slash) ≡ true
    → target cwd arg ≡ walk (walk [] (components cwd)) (components arg)
unfolding target
target_relative cwd arg e = ground (arith, e)

-- Every name is resolved, given a buffer with room for the current directory, the name and four
-- characters more, and it is resolved to the path of the names that are left when its components are
-- entered one after the other, with "." as no step and ".." as a step back that stays at the root.
pub resolve_path-render :
    (cwd arg : List ℕ) (out_size : ℕ)
    → length cwd + length arg + 4 ≤ out_size
    → resolve_path cwd (some arg) out_size ≡ some (render (target cwd arg))
unfolding resolve_path render
resolve_path-render cwd arg out_size room =
    if_cases P (ltb out_size 2) (λ small. absurd (omega (arith, ltb→lt out_size 2 small)))
      λ _.
        if_cases P (length arg == 0)
          (λ e. whole cwd (omega arith) ∙ said (sym (target_empty cwd arg e)))
          λ _.
            if_cases P (not (char_at arg 0 == slash))
              (λ e. subst Q (sym (whole cwd (omega arith))) (
                parse_into-render out_size arg (walk [] (components cwd)) (from_cwd cwd)
                  (omega (arith, room, length-walk cwd))
                ∙ said (sym (target_relative cwd arg e))))
              λ e. whole arg (omega arith) ∙ said (sym (target_absolute cwd arg e))
  where
    P : Option (List ℕ) → Type 0
    P o = o ≡ some (render (target cwd arg))

    Q : Option (List ℕ) → Type 0
    Q o = P (elim o as (λ _. Option (List ℕ)) [
      | none ↦ none
      | some path ↦ parse_into out_size arg path
    ])

    whole :
        (src : List ℕ)
        → length src + 2 < out_size
        → parse_into out_size src (slash ∷ []) ≡ some (render (walk [] (components src)))
    whole src h = parse_into-render out_size src [] tt (omega arith)

    said :
        {stack stack' : List (List ℕ)} → stack ≡ stack' → some (render stack) ≡ some (render stack')
    said e = ap (λ st. some (render st)) e

at_least_two : (n : ℕ) → ltb n 2 ≡ false → 1 < n
at_least_two n h = ground (arith, h)

-- A path that a name was resolved to, whatever the size of the buffer, fits it with its terminator, and
-- is a slash or names joined by single slashes, none of them empty, "." or "..": the names where the
-- name leads.
pub resolve_path-target :
    (cwd arg : List ℕ) (out_size : ℕ) (p : List ℕ)
    → resolve_path cwd (some arg) out_size ≡ some p
    → (p ≡ render (target cwd arg)) × (length p < out_size) × All IsPlainName (target cwd arg)
unfolding resolve_path render
resolve_path-target cwd arg out_size p =
    if_cases P (ltb out_size 2) (λ _ e. absurd (cc e))
      λ big.
        if_cases P (length arg == 0)
          (λ e got.
            read (sym (target_empty cwd arg e)) (whole cwd p (at_least_two out_size big) got))
          λ _.
            if_cases P (not (char_at arg 0 == slash))
              (λ e.
                option_cases P (parse_into out_size cwd (slash ∷ [])) _ _ (λ _ e. absurd (cc e))
                  λ q first got.
                    read (sym (target_relative cwd arg e))
                      (second q (whole cwd q (at_least_two out_size big) first) got))
              λ e got.
                read (sym (target_absolute cwd arg e)) (whole arg p (at_least_two out_size big) got)
  where
    Good : List ℕ → List (List ℕ) → Type 0
    Good r stack = (r ≡ render stack) × (length r < out_size)

    P : Option (List ℕ) → Type 0
    P o =
        o ≡ some p
        → (p ≡ render (target cwd arg)) × (length p < out_size) × All IsPlainName (target cwd arg)

    whole :
        (src r : List ℕ)
        → 1 < out_size
        → parse_into out_size src (slash ∷ []) ≡ some r
        → Good r (walk [] (components src))
    whole src r h e = parse_into-fits out_size src [] r tt (omega arith) e

    second :
        (q : List ℕ)
        → Good q (walk [] (components cwd))
        → parse_into out_size arg q ≡ some p
        → Good p (walk (walk [] (components cwd)) (components arg))
    second q (eq, lt) got =
        parse_into-fits out_size arg (walk [] (components cwd)) p (from_cwd cwd)
          (subst (λ r. length r < out_size) eq lt) (ap (parse_into out_size arg) (sym eq) ∙ got)

    read :
        {stack : List (List ℕ)}
        → stack ≡ target cwd arg
        → Good p stack
        → (p ≡ render (target cwd arg)) × (length p < out_size) × All IsPlainName (target cwd arg)
    read e g = (g.0 ∙ ap render e, g.1, target-IsPlainName cwd arg)
