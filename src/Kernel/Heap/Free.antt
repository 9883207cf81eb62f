-- ===== src/Kernel/Heap/Free.antt =====
-- `clks_kfree` on the list of blocks: the block becomes free and is joined to its free neighbours.
use mathlib.Core.List.{append_assoc}
use cleon_os_jgz_yes_fork.Base.{
  if◌then◌else◌, add64, sub64, ℕ, ◌+◌, ◌-◌, ◌≤◌, ◌≡◌, refl, sym, ap, subst, ◌∙◌, ◌⊎◌, inl, inr,
  Bool, true, false, Option, none, some, List, [], ◌∷◌, ◌++◌, arith,
}
use cleon_os_jgz_yes_fork.Kernel.Heap.{
  Block, Heap, header_size, arena_size, merge_next, merge_prev, release, kfree,
}
use cleon_os_jgz_yes_fork.Kernel.Heap.Chain.{
  Seg, span, first, last, Segment, Around, Tiles, Segment-store, Segment-of_Around,
  Around-of_Segment, span-append,
}
use cleon_os_jgz_yes_fork.Kernel.Heap.Take.{first-zero}
use cleon_os_jgz_yes_fork.Kernel.Heap.Merge.{
  Same, Same-refl, merge_next-Same, merge_next-Busy, merge_next-Around,
}

-- A free block of `s` bytes in front of `post`, joined to a free block there.
abbrev pub join_next : ℕ → List Seg → List Seg
join_next s [] = (s, true) ∷ []
join_next s ((t, true) ∷ post) = (s + header_size + t, true) ∷ post
join_next s ((t, false) ∷ post) = (s, true) ∷ (t, false) ∷ post

-- The list `pre` followed by a list whose first block is free, joined where `pre` ends in a free
-- block.
abbrev pub join_prev : List Seg → List Seg → List Seg
join_prev [] post = post
join_prev ((p, true) ∷ []) post = join_next p post
join_prev ((p, false) ∷ []) post = (p, false) ∷ post
join_prev (x ∷ y ∷ pre) post = x ∷ join_prev (y ∷ pre) post

-- The blocks after the block of `s` bytes between `pre` and `post` is freed.
abbrev pub coalesce : List Seg → ℕ → List Seg → List Seg
coalesce pre s post = join_prev pre (join_next s post)

-- The first two writes.
release-Around :
    (h : Heap) (pre : List Seg) (s : ℕ) (post : List Seg)
    → Around h.mem pre s false post
    → Around (release h (span pre)).mem pre s true post
unfolding release
release-Around h pre s post a = record {
  earlier = Segment-store h.mem pre none 0 _ (span pre) _ (inr (omega arith)) a.earlier;
  here = ground (arith, a.here);
  later =
      Segment-store h.mem post _ (span pre + header_size + s) none (span pre) _ (inl (omega arith))
        a.later;
}

-- After the first merge the block and what follows it are `join_next s post`.
record Joined (h : Heap) (pre : List Seg) (s : ℕ) (post : List Seg) (r : Heap) : Type 0 where
  size : ℕ
  tail : List Seg
  shape : join_next s post ≡ (size, true) ∷ tail
  around : Around r.mem pre size true tail
  same : Same h r

join_next-Joined :
    (h : Heap) (pre : List Seg) (s : ℕ) (post : List Seg)
    → Around h.mem pre s true post
    → span pre + header_size + s + span post ≡ arena_size
    → Joined h pre s post (merge_next h (span pre))
join_next-Joined h pre s [] a b = record {
  size = s;
  tail = [];
  shape = refl;
  around = subst (λ r. Around r.mem pre s true []) (sym (merge_next-Busy h pre s true [] a tt)) a;
  same = merge_next-Same h (span pre);
}
join_next-Joined h pre s ((t, true) ∷ post) a b = record {
  size = s + header_size + t;
  tail = post;
  shape = refl;
  around = merge_next-Around h pre s true t post a (omega arith);
  same = merge_next-Same h (span pre);
}
join_next-Joined h pre s ((t, false) ∷ post) a b = record {
  size = s;
  tail = (t, false) ∷ post;
  shape = refl;
  around =
      subst (λ r. Around r.mem pre s true ((t, false) ∷ post))
        (sym (merge_next-Busy h pre s true ((t, false) ∷ post) a refl)) a;
  same = merge_next-Same h (span pre);
}

span-join_next : (s : ℕ) (post : List Seg) → span (join_next s post) ≡ header_size + s + span post
span-join_next s [] = refl
span-join_next s ((t, true) ∷ post) = omega arith
span-join_next s ((t, false) ∷ post) = omega arith

-- A list is empty or ends in a block.
snoc_cases :
    (xs : List Seg)
    → (xs ≡ []) ⊎ ((ys : List Seg) × (p : ℕ) × (f : Bool) × (xs ≡ ys ++ (p, f) ∷ []))
snoc_cases [] = inl refl
snoc_cases ((p, f) ∷ []) = inr ([], p, f, refl)
snoc_cases (x ∷ y ∷ xs) = elim (snoc_cases (y ∷ xs)) [
  | inl e ↦ absurd (cc e)
  | inr (ys, p, f, e) ↦ inr (x ∷ ys, p, f, ap (λ l. x ∷ l) e)
]

last-snoc :
    (ys : List Seg) (p : ℕ) (f : Bool) (at : ℕ) (before : Option ℕ)
    → last (ys ++ (p, f) ∷ []) at before ≡ some (at + span ys)
last-snoc [] p f at before = ap some (omega arith)
last-snoc ((s, g) ∷ ys) p f at before =
    last-snoc ys p f (at + header_size + s) (some at) ∙ ap some (omega arith)

join_prev-snoc :
    (ys : List Seg) (p : ℕ) (f : Bool) (post : List Seg)
    → join_prev (ys ++ (p, f) ∷ []) post ≡ ys ++ (if f then join_next p post else (p, f) ∷ post)
join_prev-snoc [] p true post = refl
join_prev-snoc [] p false post = refl
join_prev-snoc (x ∷ []) p f post = ap (λ l. x ∷ l) (join_prev-snoc [] p f post)
join_prev-snoc (x ∷ y ∷ ys) p f post = ap (λ l. x ∷ l) (join_prev-snoc (y ∷ ys) p f post)

-- The blocks around the one before.
step_back :
    (m : ℕ → Block) (ys : List Seg) (p : ℕ) (f : Bool) (s : ℕ) (post : List Seg)
    → Around m (ys ++ (p, f) ∷ []) s true post
    → Around m ys p f ((s, true) ∷ post)
step_back m ys p f s post a = Around-of_Segment m ys p f ((s, true) ∷ post) (
    subst (λ l. Segment m none 0 l none) (append_assoc ys ((p, f) ∷ []) ((s, true) ∷ post))
      (Segment-of_Around m (ys ++ (p, f) ∷ []) s true post a))

-- The whole list after the second merge, and the counters.
record Placed (h : Heap) (xs : List Seg) (r : Heap) : Type 0 where
  blocks : Segment r.mem none 0 xs none
  same : Same h r

merge_prev-first :
    (h : Heap) (s : ℕ) (post : List Seg)
    → Around h.mem [] s true post
    → Placed h ((s, true) ∷ post) (merge_prev h 0)
unfolding merge_prev
merge_prev-first h s post a =
    let e : merge_prev h 0 ≡ h = ground (arith, a.here) in
    subst (Placed h ((s, true) ∷ post)) (sym e)
      (record { blocks = Segment-of_Around h.mem [] s true post a; same = Same-refl h })

merge_prev-snoc :
    (h : Heap) (ys : List Seg) (p : ℕ) (f : Bool) (s : ℕ) (post : List Seg)
    → Around h.mem (ys ++ (p, f) ∷ []) s true post
    → span ys + header_size + p + header_size + s ≤ arena_size
    → Placed h
        (ys ++ (if f then (p + header_size + s, true) ∷ post else (p, f) ∷ (s, true) ∷ post))
        (merge_prev h (span (ys ++ (p, f) ∷ [])))
unfolding merge_prev
merge_prev-snoc h ys p true s post a b =
    let back = step_back h.mem ys p true s post a in
    let e : merge_prev h (span (ys ++ (p, true) ∷ [])) ≡ merge_next h (span ys) =
      ground (arith, a.here, back.here, last-snoc ys p true 0 none) in
    subst (Placed h (ys ++ (p + header_size + s, true) ∷ post)) (sym e) (record {
      blocks =
          Segment-of_Around _ ys (p + header_size + s) true post
            (merge_next-Around h ys p true s post back b);
      same = merge_next-Same h (span ys);
    })
merge_prev-snoc h ys p false s post a b =
    let back = step_back h.mem ys p false s post a in
    let e : merge_prev h (span (ys ++ (p, false) ∷ [])) ≡ h =
      ground (arith, a.here, back.here, last-snoc ys p false 0 none) in
    subst (Placed h (ys ++ (p, false) ∷ (s, true) ∷ post)) (sym e) (record {
      blocks = Segment-of_Around _ ys p false ((s, true) ∷ post) back;
      same = Same-refl h;
    })

merge_prev-Placed :
    (h : Heap) (pre : List Seg) (s : ℕ) (post : List Seg)
    → Around h.mem pre s true post
    → span pre + header_size + s + span post ≡ arena_size
    → Placed h (join_prev pre ((s, true) ∷ post)) (merge_prev h (span pre))
merge_prev-Placed h pre s post a b = elim (snoc_cases pre) [
  | inl e ↦
      subst
        (λ l.
          Around h.mem l s true post
          → Placed h (join_prev l ((s, true) ∷ post)) (merge_prev h (span l)))
        (sym e) (merge_prev-first h s post) a
  | inr (ys, p, f, e) ↦
      subst (λ l. Placed h (join_prev l ((s, true) ∷ post)) (merge_prev h (span l))) (sym e)
        (subst (λ l. Placed h l (merge_prev h (span (ys ++ (p, f) ∷ []))))
          (sym (join_prev-snoc ys p f ((s, true) ∷ post)))
          (merge_prev-snoc h ys p f s post (subst (λ l. Around h.mem l s true post) e a)
            (omega (arith, ap span e, span-append ys ((p, f) ∷ [])))))
]

-- What freeing a block does.
pub record Freed (h : Heap) (pre : List Seg) (s : ℕ) (post : List Seg) (r : Heap) : Type 0 where
  pub tiles : Tiles r (coalesce pre s post)
  pub used : r.used_bytes ≡ h.used_bytes - s
  pub allocs : r.alloc_count ≡ h.alloc_count
  pub counted : r.free_count ≡ add64 h.free_count 1

span-join_prev : (pre post : List Seg) → span (join_prev pre post) ≡ span pre + span post
span-join_prev [] post = omega arith
span-join_prev ((p, true) ∷ []) post = omega (arith, span-join_next p post)
span-join_prev ((p, false) ∷ []) post = omega arith
span-join_prev ((p, f) ∷ y ∷ pre) post = omega (arith, span-join_prev (y ∷ pre) post)

first-coalesce :
    (pre : List Seg) (s : ℕ) (post : List Seg) → first (coalesce pre s post) 0 none ≡ some 0
first-coalesce [] s [] = refl
first-coalesce [] s ((t, true) ∷ post) = refl
first-coalesce [] s ((t, false) ∷ post) = refl
first-coalesce ((p, true) ∷ []) s [] = refl
first-coalesce ((p, true) ∷ []) s ((t, true) ∷ post) = refl
first-coalesce ((p, true) ∷ []) s ((t, false) ∷ post) = refl
first-coalesce ((p, false) ∷ []) s post = refl
first-coalesce (x ∷ y ∷ pre) s post = refl

-- On a tiled heap, freeing the pointer to a block in use marks the block free and joins it with
-- the block behind and then with the block before where these are free: the arena stays tiled. The
-- block's bytes are taken off the bytes in use, and one more free is counted.
pub kfree-Freed :
    (h : Heap) (pre : List Seg) (s : ℕ) (post : List Seg)
    → Tiles h (pre ++ (s, false) ∷ post)
    → Freed h pre s post (kfree h (some (span pre + header_size)))
unfolding kfree
kfree-Freed h pre s post t = subst (Freed h pre s post) (sym runs) (record {
  tiles = record {
    ready = pl.same.is_ready ∙ j.same.is_ready ∙ t.ready;
    start =
        pl.same.start
        ∙ j.same.start
        ∙ t.start
        ∙ first-zero pre (s, false) post
        ∙ sym (first-coalesce pre s post);
    blocks = subst (λ l. Segment done.mem none 0 (join_prev pre l) none) (sym j.shape) pl.blocks;
    full = omega (arith, span-join_prev pre (join_next s post), span-join_next s post, total);
  };
  used = pl.same.used ∙ j.same.used ∙ ground (arith, a.here);
  allocs = pl.same.allocs ∙ j.same.allocs;
  counted = pl.same.frees ∙ j.same.frees;
})
  where
    a : Around h.mem pre s false post
    a = Around-of_Segment h.mem pre s false post t.blocks

    total : span pre + header_size + s + span post ≡ arena_size
    total = omega (arith, t.full, span-append pre ((s, false) ∷ post))

    j : Joined (release h (span pre)) pre s post (merge_next (release h (span pre)) (span pre))
    j = join_next-Joined (release h (span pre)) pre s post (release-Around h pre s post a) total

    done : Heap
    done = merge_prev (merge_next (release h (span pre)) (span pre)) (span pre)

    pl :
        Placed
          (merge_next (release h (span pre)) (span pre))
          (join_prev pre ((j.size, true) ∷ j.tail))
          done
    pl =
        merge_prev-Placed (merge_next (release h (span pre)) (span pre)) pre j.size j.tail j.around
          (omega (arith, total, span-join_next s post, ap span j.shape))

    at : sub64 (span pre + header_size) header_size ≡ span pre
    at = omega (arith, total)

    runs : kfree h (some (span pre + header_size)) ≡ done
    runs = rw at (ground (arith, t.ready, a.here))
