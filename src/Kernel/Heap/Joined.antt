-- ===== src/Kernel/Heap/Joined.antt =====
-- The bytes in use, and lists in which no free block stands behind a free block: what carving up
-- and joining blocks does to them.
use native.Mathlib.Decide.{dec_lt}
use cleon_os_jgz_yes_fork.Base.{
  ℕ, ◌+◌, ◌-◌, ◌≤◌, ◌≡◌, refl, sym, ap, subst, ◌⊎◌, inl, inr, Bool, true, false, List, [], ◌∷◌,
  ◌++◌, arith,
}
use cleon_os_jgz_yes_fork.Kernel.Heap.{header_size, heap_align}
use cleon_os_jgz_yes_fork.Kernel.Heap.Chain.{Seg, span}
use cleon_os_jgz_yes_fork.Kernel.Heap.Take.{granted, carve, carve_small, carve_large}
use cleon_os_jgz_yes_fork.Kernel.Heap.Free.{join_next, join_prev, coalesce}

-- The bytes of the blocks in use.
abbrev pub in_use : List Seg → ℕ
in_use [] = 0
in_use ((s, true) ∷ xs) = in_use xs
in_use ((s, false) ∷ xs) = s + in_use xs

-- No free block stands behind a free block.
abbrev pub NoTwoFree : List Seg → Type 0
NoTwoFree [] = Unit {0}
NoTwoFree ((s, false) ∷ xs) = NoTwoFree xs
NoTwoFree ((s, true) ∷ []) = Unit {0}
NoTwoFree ((s, true) ∷ (t, g) ∷ xs) = (g ≡ false) × NoTwoFree ((t, g) ∷ xs)

pub in_use-append : (xs ys : List Seg) → in_use (xs ++ ys) ≡ in_use xs + in_use ys
in_use-append [] ys = omega arith
in_use-append ((s, true) ∷ xs) ys = in_use-append xs ys
in_use-append ((s, false) ∷ xs) ys = omega (arith, in_use-append xs ys)

pub in_use-le : (xs : List Seg) → in_use xs ≤ span xs
in_use-le [] = omega arith
in_use-le ((s, true) ∷ xs) = omega (arith, in_use-le xs)
in_use-le ((s, false) ∷ xs) = omega (arith, in_use-le xs)

pub in_use-join_next : (s : ℕ) (post : List Seg) → in_use (join_next s post) ≡ in_use post
in_use-join_next s [] = refl
in_use-join_next s ((t, true) ∷ post) = refl
in_use-join_next s ((t, false) ∷ post) = refl

pub in_use-join_prev :
    (pre post : List Seg) → in_use (join_prev pre post) ≡ in_use pre + in_use post
in_use-join_prev [] post = omega arith
in_use-join_prev ((p, true) ∷ []) post = omega (arith, in_use-join_next p post)
in_use-join_prev ((p, false) ∷ []) post = omega arith
in_use-join_prev ((p, true) ∷ y ∷ pre) post = in_use-join_prev (y ∷ pre) post
in_use-join_prev ((p, false) ∷ y ∷ pre) post = omega (arith, in_use-join_prev (y ∷ pre) post)

-- The head of a list is in use.
abbrev pub HeadBusy : List Seg → Type 0
HeadBusy [] = Unit {0}
HeadBusy ((s, f) ∷ xs) = f ≡ false

NoTwoFree-tail : (x : Seg) (xs : List Seg) → NoTwoFree (x ∷ xs) → NoTwoFree xs
NoTwoFree-tail (s, false) xs h = h
NoTwoFree-tail (s, true) [] h = tt
NoTwoFree-tail (s, true) ((t, g) ∷ xs) h = h.1

NoTwoFree-cons :
    (s : ℕ) (f : Bool) (xs : List Seg) → HeadBusy xs → NoTwoFree xs → NoTwoFree ((s, f) ∷ xs)
NoTwoFree-cons s false xs b h = h
NoTwoFree-cons s true [] b h = tt
NoTwoFree-cons s true ((t, g) ∷ xs) b h = (b, h)

pub HeadBusy-of_free : (s : ℕ) (xs : List Seg) → NoTwoFree ((s, true) ∷ xs) → HeadBusy xs
HeadBusy-of_free s [] h = tt
HeadBusy-of_free s ((t, g) ∷ xs) h = h.0

-- What follows a prefix may be replaced, if its head is in use or was free before.
NoTwoFree-replace :
    (pre : List Seg) (s : ℕ) (f : Bool) (post : List Seg) (t : ℕ) (g : Bool) (ys : List Seg)
    → NoTwoFree (pre ++ (s, f) ∷ post)
    → (g ≡ false) ⊎ (f ≡ true)
    → NoTwoFree ((t, g) ∷ ys)
    → NoTwoFree (pre ++ (t, g) ∷ ys)
NoTwoFree-replace [] s f post t g ys h ok k = k
NoTwoFree-replace ((p, false) ∷ pre) s f post t g ys h ok k =
    NoTwoFree-replace pre s f post t g ys h ok k
NoTwoFree-replace ((p, true) ∷ []) s f post t g ys h (inl e) k = (e, k)
NoTwoFree-replace ((p, true) ∷ []) s f post t g ys h (inr e) k = absurd (cc (h.0, e))
NoTwoFree-replace ((p, true) ∷ y ∷ pre) s f post t g ys h ok k =
    (h.0, NoTwoFree-replace (y ∷ pre) s f post t g ys h.1 ok k)

pub NoTwoFree-append_right : (pre post : List Seg) → NoTwoFree (pre ++ post) → NoTwoFree post
NoTwoFree-append_right [] post h = h
NoTwoFree-append_right (x ∷ pre) post h =
    NoTwoFree-append_right pre post (NoTwoFree-tail x (pre ++ post) h)

pub carve-NoTwoFree :
    (pre : List Seg) (n s : ℕ) (post : List Seg)
    → NoTwoFree (pre ++ (s, true) ∷ post)
    → NoTwoFree (pre ++ (carve n s ++ post))
carve-NoTwoFree pre n s post h = elim (dec_lt s (n + header_size + heap_align)) [
  | yes lt ↦
      subst (λ l. NoTwoFree (pre ++ l)) (sym (carve_small n s post lt).0)
        (NoTwoFree-replace pre s true post s false post h (inl refl)
          (NoTwoFree-tail (s, true) post after))
  | no ge ↦
      subst (λ l. NoTwoFree (pre ++ l)) (sym (carve_large n s post (omega arith)).0)
        (NoTwoFree-replace pre s true post n false ((s - n - header_size, true) ∷ post) h (inl refl)
          (NoTwoFree-cons (s - n - header_size) true post (HeadBusy-of_free s post after)
            (NoTwoFree-tail (s, true) post after)))
]
  where
    after : NoTwoFree ((s, true) ∷ post)
    after = NoTwoFree-append_right pre ((s, true) ∷ post) h

pub in_use-carve :
    (n s : ℕ) (post : List Seg) → in_use (carve n s ++ post) ≡ granted n s + in_use post
in_use-carve n s post = elim (dec_lt s (n + header_size + heap_align)) [
  | yes lt ↦ let e = carve_small n s post lt in omega (arith, ap in_use e.0, e.1)
  | no ge ↦ let e = carve_large n s post (omega arith) in omega (arith, ap in_use e.0, e.1)
]

join_prev-NoTwoFree :
    (pre : List Seg) (z : ℕ) (ys : List Seg)
    → NoTwoFree pre
    → NoTwoFree ((z, true) ∷ ys)
    → NoTwoFree (join_prev pre ((z, true) ∷ ys))
join_prev-NoTwoFree [] z ys h k = k
join_prev-NoTwoFree ((p, true) ∷ []) z ys h k =
    NoTwoFree-cons (p + header_size + z) true ys (HeadBusy-of_free z ys k)
      (NoTwoFree-tail (z, true) ys k)
join_prev-NoTwoFree ((p, false) ∷ []) z ys h k = k
join_prev-NoTwoFree ((p, false) ∷ y ∷ pre) z ys h k = join_prev-NoTwoFree (y ∷ pre) z ys h k
join_prev-NoTwoFree ((p, true) ∷ (t, true) ∷ pre) z ys h k = absurd (cc (h.0))
join_prev-NoTwoFree ((p, true) ∷ (t, false) ∷ []) z ys h k = (refl, k)
join_prev-NoTwoFree ((p, true) ∷ (t, false) ∷ y ∷ pre) z ys h k =
    (refl, join_prev-NoTwoFree ((t, false) ∷ y ∷ pre) z ys h.1 k)

NoTwoFree-append_left : (pre post : List Seg) → NoTwoFree (pre ++ post) → NoTwoFree pre
NoTwoFree-append_left [] post h = tt
NoTwoFree-append_left ((p, true) ∷ []) post h = tt
NoTwoFree-append_left ((p, false) ∷ pre) post h = NoTwoFree-append_left pre post h
NoTwoFree-append_left ((p, true) ∷ y ∷ pre) post h = (h.0, NoTwoFree-append_left (y ∷ pre) post h.1)

pub coalesce-NoTwoFree :
    (pre : List Seg) (s : ℕ) (post : List Seg)
    → NoTwoFree (pre ++ (s, false) ∷ post)
    → NoTwoFree (coalesce pre s post)
coalesce-NoTwoFree pre s post h = behind post (NoTwoFree-append_right pre ((s, false) ∷ post) h)
  where
    before : NoTwoFree pre
    before = NoTwoFree-append_left pre ((s, false) ∷ post) h

    behind : (q : List Seg) → NoTwoFree q → NoTwoFree (coalesce pre s q)
    behind [] k = join_prev-NoTwoFree pre s [] before tt
    behind ((t, true) ∷ q) k = join_prev-NoTwoFree pre (s + header_size + t) q before (
        NoTwoFree-cons (s + header_size + t) true q (HeadBusy-of_free t q k)
          (NoTwoFree-tail (t, true) q k))
    behind ((t, false) ∷ q) k = join_prev-NoTwoFree pre s ((t, false) ∷ q) before (refl, k)

-- Where nothing can be joined, nothing is.
pub join_next_id : (s : ℕ) (post : List Seg) → HeadBusy post → join_next s post ≡ (s, true) ∷ post
join_next_id s [] b = refl
join_next_id s ((t, true) ∷ post) b = absurd (cc b)
join_next_id s ((t, false) ∷ post) b = refl

pub join_prev_id :
    (pre : List Seg) (s : ℕ) (post : List Seg)
    → NoTwoFree (pre ++ (s, true) ∷ post)
    → join_prev pre ((s, true) ∷ post) ≡ pre ++ (s, true) ∷ post
join_prev_id [] s post h = refl
join_prev_id ((p, true) ∷ []) s post h = absurd (cc (h.0))
join_prev_id ((p, false) ∷ []) s post h = refl
join_prev_id ((p, f) ∷ y ∷ pre) s post h =
    ap (λ l. (p, f) ∷ l) (join_prev_id (y ∷ pre) s post (NoTwoFree-tail (p, f) _ h))
