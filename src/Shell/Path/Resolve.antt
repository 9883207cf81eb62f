-- ===== src/Shell/Path/Resolve.antt =====
-- How a source is parsed: component by component.
use mathlib.Core.Option.{some-injective}
use cleon_os_jgz_yes_fork.Base.{
  if_cases, option_cases, list_cases, length, All, skip_while, until_first, from_first, ℕ, zero,
  suc, ◌+◌, ◌≤◌, ◌<◌, ◌≡◌, refl, sym, ap, subst, ◌∙◌, false, Option, none, some, List, [], ◌∷◌,
  arith,
}
use cleon_os_jgz_yes_fork.Shell.Path.{is_slash, enter, parse_from}
use cleon_os_jgz_yes_fork.Shell.Path.Parts.{
  IsName, components, components-skip_while, components_first,
}
use cleon_os_jgz_yes_fork.Shell.Path.Stack.{
  render, step, walk, enter-step, enter-fits, step-IsName, length-step,
}

length-parts :
    (text : List ℕ)
    → length (until_first is_slash text) + length (from_first is_slash text) ≡ length text
unfolding until_first from_first
length-parts [] = refl
length-parts (c ∷ cs) = ground (arith, length-parts cs)

pub length-skip_while : (src : List ℕ) → length (skip_while is_slash src) ≤ length src
unfolding skip_while
length-skip_while [] = omega arith
length-skip_while (c ∷ cs) = ground (arith, length-skip_while cs)

-- What follows a component starts with the slash that ends it.
length-rest :
    (text : List ℕ)
    → 0 < length (from_first is_slash text)
    → length (skip_while is_slash (from_first is_slash text)) < length (from_first is_slash text)
unfolding from_first skip_while
length-rest [] h = absurd (omega arith)
length-rest (c ∷ cs) h = ground (arith, length-rest cs, length-skip_while cs)

skip_while-head :
    (src : List ℕ) (c : ℕ) (cs : List ℕ) → skip_while is_slash src ≡ c ∷ cs → is_slash c ≡ false
unfolding skip_while
skip_while-head [] c cs e = absurd (cc e)
skip_while-head (s ∷ src) c cs e = ground (arith, e, skip_while-head src c cs)

until_first-All : (text : List ℕ) → All (λ c. is_slash c ≡ false) (until_first is_slash text)
unfolding until_first
until_first-All [] = tt
until_first-All (c ∷ cs) =
    if_cases (All (λ c. is_slash c ≡ false)) (is_slash c) (λ _. tt) λ h. (h, until_first-All cs)

until_first-IsName :
    (c : ℕ) (cs : List ℕ) → is_slash c ≡ false → IsName (until_first is_slash (c ∷ cs))
unfolding until_first
until_first-IsName c cs h = (ground (arith, h), until_first-All (c ∷ cs))

-- The parts of a source whose first component starts at `c`.
record Cursor (src : List ℕ) : Type 0 where
  name : IsName (until_first is_slash (skip_while is_slash src))
  parts :
      components src
      ≡ until_first is_slash (skip_while is_slash src)
        ∷ components (from_first is_slash (skip_while is_slash src))

Cursor-cons : (src : List ℕ) (c : ℕ) (cs : List ℕ) → skip_while is_slash src ≡ c ∷ cs → Cursor src
Cursor-cons src c cs e = record {
  name =
      subst (λ t. IsName (until_first is_slash t)) (sym e)
        (until_first-IsName c cs (skip_while-head src c cs e));
  parts =
      sym (components-skip_while src)
      ∙ subst (λ t. components t ≡ until_first is_slash t ∷ components (from_first is_slash t))
          (sym e) (components_first c cs (skip_while-head src c cs e));
}

components-nil : (src : List ℕ) → skip_while is_slash src ≡ [] → components src ≡ []
unfolding components
components-nil src e = sym (components-skip_while src) ∙ ap components e

-- There is room for what is left of a source.
abbrev pub HasRoom : ℕ → List ℕ → List (List ℕ) → Type 0
HasRoom out_size src stack =
    0 < length (skip_while is_slash src)
    → length (render stack) + 1 + length (skip_while is_slash src) < out_size

component_of : List ℕ → List ℕ
component_of src = until_first is_slash (skip_while is_slash src)

rest_of : List ℕ → List ℕ
rest_of src = from_first is_slash (skip_while is_slash src)

-- The rest of a source is shorter, and there is still room for it.
length-rest_of : (src : List ℕ) → Cursor src → length (rest_of src) < length src
unfolding rest_of
length-rest_of src cur =
    omega (arith, cur.name.0, length-parts (skip_while is_slash src), length-skip_while src)

HasRoom-rest_of :
    (out_size : ℕ) (src : List ℕ) (stack : List (List ℕ))
    → Cursor src
    → HasRoom out_size src stack
    → HasRoom out_size (rest_of src) (step stack (component_of src))
unfolding component_of rest_of
HasRoom-rest_of out_size src stack cur room more = omega (
  arith,
  room (omega (arith, cur.name.0, parts)),
  parts,
  cur.name.0,
  length-rest (skip_while is_slash src)
      (omega (arith, more, length-skip_while (from_first is_slash (skip_while is_slash src)))),
  length-step (until_first is_slash (skip_while is_slash src)) stack,
)
  where
    parts :
        length (until_first is_slash (skip_while is_slash src))
          + length (from_first is_slash (skip_while is_slash src))
        ≡ length (skip_while is_slash src)
    parts = length-parts (skip_while is_slash src)

entered :
    (out_size : ℕ) (src : List ℕ) (stack : List (List ℕ))
    → All IsName stack
    → Cursor src
    → HasRoom out_size src stack
    → enter out_size (render stack) (component_of src)
      ≡ some (render (step stack (component_of src)))
unfolding component_of
entered out_size src stack k cur room =
    enter-step out_size (until_first is_slash (skip_while is_slash src)) stack cur.name k (
      omega (
        arith,
        room (omega (arith, cur.name.0, length-parts (skip_while is_slash src))),
        length-parts (skip_while is_slash src),
      ))

-- With room for the whole source, every component is entered.
pub parse_from-render :
    (out_size fuel : ℕ) (src : List ℕ) (stack : List (List ℕ))
    → length src < fuel
    → All IsName stack
    → HasRoom out_size src stack
    → parse_from out_size fuel src (render stack) ≡ some (render (walk stack (components src)))
unfolding parse_from walk component_of rest_of
parse_from-render out_size zero src stack f k room = absurd (omega arith)
parse_from-render out_size (suc fuel) src stack f k room =
    list_cases P (skip_while is_slash src) _ _
      (λ e. ap (λ ws. some (render (walk stack ws))) (sym (components-nil src e)))
      λ c cs e. next (Cursor-cons src c cs e) (
        parse_from-render out_size fuel (rest_of src) (step stack (component_of src))
          (omega (arith, f, length-rest_of src (Cursor-cons src c cs e)))
          (step-IsName (component_of src) stack (Cursor-cons src c cs e).name k)
          (HasRoom-rest_of out_size src stack (Cursor-cons src c cs e) room))
  where
    P : Option (List ℕ) → Type 0
    P o = o ≡ some (render (walk stack (components src)))

    Q : Option (List ℕ) → Type 0
    Q o = P (elim o as (λ _. Option (List ℕ)) [
      | none ↦ none
      | some path ↦ parse_from out_size fuel (rest_of src) path
    ])

    next :
        Cursor src
        → parse_from out_size fuel (rest_of src) (render (step stack (component_of src)))
          ≡ some (render (walk (step stack (component_of src)) (components (rest_of src))))
        → Q (enter out_size (render stack) (component_of src))
    next cur done =
        subst Q (sym (entered out_size src stack k cur room))
          (done ∙ ap (λ ws. some (render (walk stack ws))) (sym cur.parts))

-- Whatever is parsed, the result is what the stack says and fits its buffer.
pub parse_from-fits :
    (out_size fuel : ℕ) (src : List ℕ) (stack : List (List ℕ)) (p : List ℕ)
    → length src < fuel
    → All IsName stack
    → length (render stack) < out_size
    → parse_from out_size fuel src (render stack) ≡ some p
    → (p ≡ render (walk stack (components src))) × (length p < out_size)
unfolding parse_from walk component_of rest_of
parse_from-fits out_size zero src stack p f k room = absurd (omega arith)
parse_from-fits out_size (suc fuel) src stack p f k room =
    list_cases P (skip_while is_slash src) _ _
      (λ nil e. (
        sym (some-injective (render stack) p e)
            ∙ ap (λ ws. render (walk stack ws)) (sym (components-nil src nil)),
        subst (λ q. length q < out_size) (some-injective (render stack) p e) room,
      ))
      λ c cs here.
        option_cases P (enter out_size (render stack) (component_of src)) _ _ (λ _ e. absurd (cc e))
          λ q got.
            next (Cursor-cons src c cs here) q
              (enter-fits out_size (component_of src) stack q (Cursor-cons src c cs here).name k
                room got)
              (parse_from-fits out_size fuel (rest_of src) (step stack (component_of src)) p
                (omega (arith, f, length-rest_of src (Cursor-cons src c cs here)))
                (step-IsName (component_of src) stack (Cursor-cons src c cs here).name k))
  where
    Good : List (List ℕ) → Type 0
    Good st = (p ≡ render st) × (length p < out_size)

    P : Option (List ℕ) → Type 0
    P o = o ≡ some p → Good (walk stack (components src))

    next :
        Cursor src
        → (q : List ℕ) → (q ≡ render (step stack (component_of src))) × (length q < out_size)
        → (length (render (step stack (component_of src))) < out_size
            → parse_from out_size fuel (rest_of src) (render (step stack (component_of src)))
              ≡ some p
            → Good (walk (step stack (component_of src)) (components (rest_of src))))
        → P (parse_from out_size fuel (rest_of src) q)
    next cur q (eq, lt) ih e =
        subst (λ ws. Good (walk stack ws)) (sym cur.parts)
          (ih (subst (λ r. length r < out_size) eq lt)
            (ap (parse_from out_size fuel (rest_of src)) (sym eq) ∙ e))
