-- ===== src/Kernel/Path/Bounds.antt =====
-- The path that `clks_fs_normalize_external_path` writes fits its buffer, and its loop ends.
use cleon_os_jgz_yes_fork.Base.{
  ◌==◌, Option-cases, if_cases, option_cases, length, length-append, char_at, ℕ, zero, suc, ◌≤◌,
  ◌<◌, ◌≡◌, refl, inl, inr, Option, none, some, List, [], ◌∷◌, arith,
}
use cleon_os_jgz_yes_fork.Kernel.Path.{
  slash, skip_slashes, component, after_component, is_dot, is_dot_dot, push_component,
  normalize_from, normalize,
}

push_component-fits :
    (size : ℕ) (out comp next : List ℕ)
    → push_component size out comp ≡ some next
    → length next < size
unfolding push_component
push_component-fits size out comp next e = ground (arith, length-append out (slash ∷ comp))

normalize_from-fits :
    (fuel size : ℕ) (rest out : List ℕ)
    → length out < size
    → (p : List ℕ) → normalize_from fuel size rest out ≡ some p
    → length p < size
unfolding normalize_from
normalize_from-fits zero size rest out h p = λ e. absurd (cc e)
normalize_from-fits (suc fuel) size [] out h p = λ e. ground (arith, e)
normalize_from-fits (suc fuel) size (c ∷ cs) out h p =
    let skipped = normalize_from-fits fuel size (skip_slashes (after_component (c ∷ cs))) out h p in
    if_cases P (length (component (c ∷ cs)) == 0) (λ _. skipped)
      λ _.
        if_cases P (is_dot (component (c ∷ cs))) (λ _. skipped)
          λ _.
            if_cases P (is_dot_dot (component (c ∷ cs))) (λ _ e. absurd (cc e))
              λ _.
                option_cases P (push_component size out (component (c ∷ cs))) _ _
                  (λ _ e. absurd (cc e))
                  λ next q.
                    normalize_from-fits fuel size (skip_slashes (after_component (c ∷ cs))) next
                      (push_component-fits size out (component (c ∷ cs)) next q) p
  where
    P : Option (List ℕ) → Type 0
    P r = r ≡ some p → length p < size

-- A path that is accepted fits a buffer of `size` bytes with its terminator, for any text and any
-- size of the buffer.
pub normalize-fits :
    (path : Option (List ℕ)) (size : ℕ) (p : List ℕ)
    → normalize path size ≡ some p
    → length p < size
unfolding normalize
normalize-fits none size p = λ e. absurd (cc e)
normalize-fits (some path) size p =
    if_cases P (size == 0) (λ _ e. absurd (cc e))
      λ z.
        if_cases P (char_at path 0 == slash)
          (λ _.
            normalize_from-fits (suc (length path)) size (skip_slashes path) [] (ground arith) p)
          λ _ e. absurd (cc e)
  where
    P : Option (List ℕ) → Type 0
    P r = r ≡ some p → length p < size

length-skip_slashes : (cs : List ℕ) → length (skip_slashes cs) ≤ length cs
unfolding skip_slashes
length-skip_slashes [] = omega arith
length-skip_slashes (c ∷ cs) = ground (arith, length-skip_slashes cs)

length-after_component : (cs : List ℕ) → length (after_component cs) ≤ length cs
unfolding after_component
length-after_component [] = omega arith
length-after_component (c ∷ cs) = ground (arith, length-after_component cs)

-- Each round passes a character.
shorter : (c : ℕ) (cs : List ℕ) → length (skip_slashes (after_component (c ∷ cs))) ≤ length cs
unfolding skip_slashes after_component
shorter c cs = ground (
  arith,
  length-skip_slashes cs,
  length-skip_slashes (after_component cs),
  length-after_component cs,
)

-- With more rounds than characters that are left, the number of rounds does not matter: the loop
-- has ended before the rounds do.
normalize_from-fuel :
    (fuel fuel' size : ℕ) (rest out : List ℕ)
    → length rest < fuel
    → length rest < fuel'
    → normalize_from fuel size rest out ≡ normalize_from fuel' size rest out
unfolding normalize_from
normalize_from-fuel zero fuel' size rest out h k = absurd (omega arith)
normalize_from-fuel (suc fuel) zero size rest out h k = absurd (omega arith)
normalize_from-fuel (suc fuel) (suc fuel') size [] out h k = refl
normalize_from-fuel (suc fuel) (suc fuel') size (c ∷ cs) out h k =
    let left = skip_slashes (after_component (c ∷ cs)) in
    let less = shorter c cs in
    let same = λ (next : List ℕ).
      normalize_from-fuel fuel fuel' size left next (omega arith) (omega arith) in
    elim (Option-cases (push_component size out (component (c ∷ cs)))) [
      | inl e ↦ ground (arith, same out)
      | inr (next, e) ↦ ground (arith, same out, same next)
    ]
