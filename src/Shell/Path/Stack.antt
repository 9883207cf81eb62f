-- ===== src/Shell/Path/Stack.antt =====
-- A path as a stack of components, the last one first, and what entering one more does to it.
use cleon_os_jgz_yes_fork.Base.{
  ltb, leb, if◌then◌else◌, leb→le, if_cases, length, take, length-append, All, char_at, ℕ, zero,
  suc, ◌+◌, ◌-◌, ◌≤◌, ◌<◌, ◌≡◌, refl, sym, ap, subst, ◌∙◌, false, some, List, [], ◌∷◌, ◌++◌, arith,
}
use cleon_os_jgz_yes_fork.Shell.Path.Parts.{IsName}
use cleon_os_jgz_yes_fork.Shell.Path.{
  slash, is_slash, is_dot, is_dot_dot, push_component, cut_back, pop_component, enter,
}

-- The characters of a path that is not the root, and of any path.
unfoldable pub body : List (List ℕ) → List ℕ
body [] = []
body (w ∷ ws) = body ws ++ slash ∷ w

unfoldable pub render : List (List ℕ) → List ℕ
unfolding body
render [] = slash ∷ []
render (w ∷ ws) = body (w ∷ ws)

-- What one component does to a stack: "." nothing, ".." removes the last name, others are added.
unfoldable pub step : List (List ℕ) → List ℕ → List (List ℕ)
step [] w = if is_dot w then [] else (if is_dot_dot w then [] else w ∷ [])
step (v ∷ vs) w = if is_dot w then v ∷ vs else (if is_dot_dot w then vs else w ∷ v ∷ vs)

unfoldable pub walk : List (List ℕ) → List (List ℕ) → List (List ℕ)
unfolding step
walk stack [] = stack
walk stack (w ∷ ws) = walk (step stack w) ws

length-body : (v : List ℕ) (vs : List (List ℕ)) → 0 < length v → 1 < length (body (v ∷ vs))
unfolding body
length-body v vs h = omega (arith, length-append (body vs) (slash ∷ v))

char_at-behind :
    (pre rest : List ℕ) (i j : ℕ) → j ≡ length pre + i → char_at (pre ++ rest) j ≡ char_at rest i
char_at-behind [] rest i j e = ap (char_at rest) (omega (arith, e))
char_at-behind (c ∷ pre) rest i zero e = absurd (omega (arith, e))
char_at-behind (c ∷ pre) rest i (suc j) e = char_at-behind pre rest i j (omega (arith, e))

char_at-All :
    (w : List ℕ) (k : ℕ)
    → All (λ c. is_slash c ≡ false) w
    → k < length w
    → is_slash (char_at w k) ≡ false
char_at-All [] k h lt = absurd (omega arith)
char_at-All (c ∷ w) zero h lt = h.0
char_at-All (c ∷ w) (suc k) h lt = char_at-All w k h.1 (omega arith)

char_at-inside :
    (pre w : List ℕ) (k : ℕ)
    → All (λ c. is_slash c ≡ false) w
    → k < length w
    → is_slash (char_at (pre ++ slash ∷ w) (length pre + 1 + k)) ≡ false
char_at-inside pre w k h lt =
    ap is_slash (char_at-behind pre (slash ∷ w) (suc k) (length pre + 1 + k) (omega arith))
    ∙ char_at-All w k h lt

cut_back_step :
    (path : List ℕ) (len : ℕ)
    → 0 < len
    → is_slash (char_at path len) ≡ false
    → cut_back path (suc len) ≡ cut_back path len
unfolding cut_back
cut_back_step path len h e = ground (arith, h, e)

cut_back_stop :
    (path : List ℕ) (len : ℕ) → char_at path len ≡ slash → cut_back path (suc len) ≡ suc len
unfolding cut_back
cut_back_stop path len e = ground (arith, e)

cut_back_lem :
    (pre w : List ℕ) (k : ℕ)
    → All (λ c. is_slash c ≡ false) w
    → k ≤ length w
    → cut_back (pre ++ slash ∷ w) (length pre + 1 + k) ≡ length pre + 1
cut_back_lem pre w zero h le =
    ap (cut_back (pre ++ slash ∷ w)) (omega arith)
    ∙ cut_back_stop (pre ++ slash ∷ w) (length pre)
        (char_at-behind pre (slash ∷ w) 0 (length pre) (omega arith))
    ∙ omega arith
cut_back_lem pre w (suc k) h le =
    ap (cut_back (pre ++ slash ∷ w)) (omega arith)
    ∙ cut_back_step (pre ++ slash ∷ w) (length pre + 1 + k) (omega arith)
        (char_at-inside pre w k h (omega arith))
    ∙ cut_back_lem pre w k h (omega arith)

take-front : (pre rest : List ℕ) → take (length pre) (pre ++ rest) ≡ pre
take-front [] rest = refl
take-front (c ∷ pre) rest = ap (λ l. c ∷ l) (take-front pre rest)

-- The last component of a path is cut off.
cut_last :
    (pre w : List ℕ)
    → IsName w
    → pop_component (pre ++ slash ∷ w)
      ≡ (if ltb 1 (length pre + 1) then pre else take 1 (pre ++ slash ∷ w))
unfolding pop_component
cut_last pre w h =
    if_cases P (leb (length path) 1)
      (λ short. absurd (omega (arith, leb→le (length path) 1 short, size, h.0)))
      λ _. subst Q (sym kept) (
        if_cases R (ltb 1 (length pre + 1))
          (λ more.
            ap (λ n. take n path) (omega arith)
            ∙ take-front pre (slash ∷ w)
            ∙ sym (ap (λ b. if b then pre else take 1 path) more))
          λ one.
            ap (λ n. take n path) (alone one) ∙ sym (ap (λ b. if b then pre else take 1 path) one))
  where
    path : List ℕ
    path = pre ++ slash ∷ w

    result : List ℕ
    result = if ltb 1 (length pre + 1) then pre else take 1 path

    P : List ℕ → Type 0
    P l = l ≡ result

    Q : ℕ → Type 0
    Q len = take (if ltb 1 len then len - 1 else len) path ≡ result

    R : ℕ → Type 0
    R n = take n path ≡ result

    size : length path ≡ length pre + 1 + length w
    size = omega (arith, length-append pre (slash ∷ w))

    kept : cut_back path (length path) ≡ length pre + 1
    kept = ap (cut_back path) size ∙ cut_back_lem pre w (length w) h.1 (omega arith)

    alone : ltb 1 (length pre + 1) ≡ false → length pre + 1 ≡ 1
    alone e = ground (arith, e)

pop_component_lem :
    (w : List ℕ) (ws : List (List ℕ))
    → IsName w
    → All IsName ws
    → pop_component (render (w ∷ ws)) ≡ render ws
unfolding render body
pop_component_lem w [] h k = cut_last [] w h ∙ refl
pop_component_lem w (v ∷ vs) h k =
    cut_last (body (v ∷ vs)) w h ∙ ground (arith, length-body v vs k.0.0)

pop_component_root : pop_component (slash ∷ []) ≡ slash ∷ []
unfolding pop_component
pop_component_root = refl

-- What stands in the buffer after one component, when it fits.
pub enter-step :
    (out_size : ℕ) (w : List ℕ) (stack : List (List ℕ))
    → IsName w
    → All IsName stack
    → length (render stack) + 1 + length w < out_size
    → enter out_size (render stack) w ≡ some (render (step stack w))
unfolding enter step render body push_component
enter-step out_size w [] h k room = ground (arith, h.0, room, pop_component_root)
enter-step out_size w (v ∷ vs) h k room =
    ground (arith, h.0, room, pop_component_lem v vs k.0 k.1, length-body v vs k.0.0)

pub step-IsName :
    (w : List ℕ) (stack : List (List ℕ)) → IsName w → All IsName stack → All IsName (step stack w)
unfolding step
step-IsName w [] h k =
    if_cases (All IsName) (is_dot w) (λ _. tt)
      λ _. if_cases (All IsName) (is_dot_dot w) (λ _. tt) λ _. (h, tt)
step-IsName w (v ∷ vs) h k =
    if_cases (All IsName) (is_dot w) (λ _. k)
      λ _. if_cases (All IsName) (is_dot_dot w) (λ _. k.1) λ _. (h, k)

-- A path grows by no more than the component and a slash.
pub length-step :
    (w : List ℕ) (stack : List (List ℕ))
    → length (render (step stack w)) ≤ length (render stack) + 1 + length w
unfolding step render body
length-step w [] = ground (arith, length-append [] (slash ∷ w))
length-step w (v ∷ vs) =
    ground (arith, length-append (body (v ∷ vs)) (slash ∷ w), length-append (body vs) (slash ∷ v))

-- Whatever is entered, the result is what the stack says and fits its buffer.
pub enter-fits :
    (out_size : ℕ) (w : List ℕ) (stack : List (List ℕ)) (p : List ℕ)
    → IsName w
    → All IsName stack
    → length (render stack) < out_size
    → enter out_size (render stack) w ≡ some p
    → (p ≡ render (step stack w)) × (length p < out_size)
unfolding enter step render body push_component
enter-fits out_size w [] p h k room e = ground (arith, h.0, room, e, pop_component_root)
enter-fits out_size w (v ∷ vs) p h k room e = ground (
  arith,
  h.0,
  room,
  e,
  pop_component_lem v vs k.0 k.1,
  length-body v vs k.0.0,
  length-append (body (v ∷ vs)) (slash ∷ w),
  length-append (body vs) (slash ∷ v),
)

-- A name that is neither "." nor "..".
abbrev pub IsPlainName : List ℕ → Type 0
IsPlainName w = IsName w × (is_dot w ≡ false) × (is_dot_dot w ≡ false)

step-IsPlainName :
    (w : List ℕ) (stack : List (List ℕ))
    → IsName w
    → All IsPlainName stack
    → All IsPlainName (step stack w)
unfolding step
step-IsPlainName w [] h k =
    if_cases (All IsPlainName) (is_dot w) (λ _. tt)
      λ d. if_cases (All IsPlainName) (is_dot_dot w) (λ _. tt) λ dd. ((h, d, dd), tt)
step-IsPlainName w (v ∷ vs) h k =
    if_cases (All IsPlainName) (is_dot w) (λ _. k)
      λ d. if_cases (All IsPlainName) (is_dot_dot w) (λ _. k.1) λ dd. ((h, d, dd), k)

pub walk-IsPlainName :
    (ws stack : List (List ℕ))
    → All IsName ws
    → All IsPlainName stack
    → All IsPlainName (walk stack ws)
unfolding walk
walk-IsPlainName [] stack h k = k
walk-IsPlainName (w ∷ ws) stack h k =
    walk-IsPlainName ws (step stack w) h.1 (step-IsPlainName w stack h.0 k)
