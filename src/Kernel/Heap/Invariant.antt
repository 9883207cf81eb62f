-- ===== src/Kernel/Heap/Invariant.antt =====
-- The invariant of the heap over any sequence of calls, and how freeing undoes an allocation.
use native.Mathlib.Decide.{ℕ_discrete, dec_lt}
use cleon_os_jgz_yes_fork.Base.{
  ℕ, ◌+◌, ◌-◌, ◌≤◌, ◌≡◌, refl, sym, ap, ap₂, subst, ◌∙◌, ◌≢◌, inl, inr, true, false, Option, none,
  some, List, [], ◌∷◌, ◌++◌, arith,
}
use cleon_os_jgz_yes_fork.Kernel.Heap.{
  Block, Heap, header_size, heap_align, arena_size, kfree, kmalloc, heap_align_up, init,
}
use cleon_os_jgz_yes_fork.Kernel.Heap.Chain.{Seg, Segment, header, first, span, Tiles}
use cleon_os_jgz_yes_fork.Kernel.Heap.Take.{carve, carve_small, carve_large, Taken}
use cleon_os_jgz_yes_fork.Kernel.Heap.Malloc.{kmalloc-Outcome, Outcome, init-Tiles}
use cleon_os_jgz_yes_fork.Kernel.Heap.Joined.{
  in_use, NoTwoFree, in_use-append, in_use-le, in_use-join_next, in_use-join_prev, in_use-carve,
  carve-NoTwoFree, coalesce-NoTwoFree, join_next_id, join_prev_id, NoTwoFree-append_right,
  HeadBusy-of_free,
}
use cleon_os_jgz_yes_fork.Kernel.Heap.Free.{join_next, join_prev, coalesce, kfree-Freed}

-- The blocks `xs` tile the arena, their use is accounted for, and free neighbours are joined.
pub record IsValid (h : Heap) (xs : List Seg) : Type 0 where
  pub tiles : Tiles h xs
  pub used : h.used_bytes ≡ in_use xs
  pub joined : NoTwoFree xs

pub init-IsValid : IsValid init ((arena_size - header_size, true) ∷ [])
unfolding init
init-IsValid = record { tiles = init-Tiles; used = refl; joined = tt }

Taken-IsValid :
    (h : Heap) (pre : List Seg) (n s : ℕ) (post : List Seg) (r : Option ℕ × Heap)
    → IsValid h (pre ++ (s, true) ∷ post)
    → n ≤ s
    → Taken h pre n s post r
    → IsValid r.1 (pre ++ (carve n s ++ post))
Taken-IsValid h pre n s post r v le t = record {
  tiles = t.tiles;
  used = omega (
    arith,
    t.used,
    v.used,
    t.tiles.full,
    in_use-append pre ((s, true) ∷ post),
    in_use-append pre (carve n s ++ post),
    in_use-carve n s post,
    in_use-le (pre ++ (carve n s ++ post)),
  );
  joined = carve-NoTwoFree pre n s post v.joined;
}

-- Freeing a block in use keeps the heap valid.
pub kfree-IsValid :
    (h : Heap) (pre : List Seg) (s : ℕ) (post : List Seg)
    → IsValid h (pre ++ (s, false) ∷ post)
    → IsValid (kfree h (some (span pre + header_size))) (coalesce pre s post)
kfree-IsValid h pre s post v =
    let f = kfree-Freed h pre s post v.tiles in
    record {
      tiles = f.tiles;
      used = omega (
        arith,
        f.used,
        v.used,
        in_use-append pre ((s, false) ∷ post),
        in_use-join_prev pre (join_next s post),
        in_use-join_next s post,
      );
      joined = coalesce-NoTwoFree pre s post v.joined;
    }

-- Every allocation of at least one byte keeps the heap valid, for some list of blocks.
pub kmalloc-IsValid :
    (h : Heap) (xs : List Seg) (size : ℕ)
    → IsValid h xs
    → size ≢ 0
    → (ys : List Seg) × IsValid (kmalloc h size).1 ys
kmalloc-IsValid h xs size v nz = cases (kmalloc-Outcome h xs size v.tiles nz)
  where
    cases :
        {r : Option ℕ × Heap}
        → Outcome h xs (heap_align_up size) r
        → (ys : List Seg) × IsValid r.1 ys
    cases (inl (u, e)) = (xs, subst (λ q. IsValid q.1 xs) (sym e) v)
    cases (inr (pre, s, post, e, u, le, t)) = (
      pre ++ (carve (heap_align_up size) s ++ post),
      Taken-IsValid h pre (heap_align_up size) s post _ (subst (IsValid h) e v) le t,
    )

-- The headers determine the blocks.
Segment-unique :
    (m : ℕ → Block) (xs ys : List Seg) (before : Option ℕ) (at : ℕ)
    → Segment m before at xs none
    → Segment m before at ys none
    → span xs ≡ span ys
    → xs ≡ ys
Segment-unique m [] [] before at h k e = refl
Segment-unique m [] ((t, g) ∷ ys) before at h k e = absurd (omega arith)
Segment-unique m ((s, f) ∷ xs) [] before at h k e = absurd (omega arith)
Segment-unique m ((s, f) ∷ xs) ((t, g) ∷ ys) before at h k e =
    ap₂ ◌∷◌ (ap₂ (λ a b. (a, b)) size (ap (λ (b : Block). b.is_free) same)) (
      Segment-unique m xs ys (some at) (at + header_size + s) h.1
        (subst (λ a. Segment m (some at) (at + header_size + a) ys none) (sym size) k.1)
        (omega (arith, size)))
  where
    same :
        header s f (first xs (at + header_size + s) none) before
        ≡ header t g (first ys (at + header_size + t) none) before
    same = sym h.0 ∙ k.0

    size : s ≡ t
    size = ap (λ (b : Block). b.size) same

Tiles-unique : {h : Heap} (xs ys : List Seg) → Tiles h xs → Tiles h ys → xs ≡ ys
Tiles-unique {h} xs ys t u =
    Segment-unique h.mem xs ys none 0 t.blocks u.blocks (t.full ∙ sym u.full)

-- A pointer that an allocation returned and that was not freed since: it stands behind the header
-- of a block in use.
pub record Live (h : Heap) (ptr : ℕ) : Type 0 where
  pub pre : List Seg
  pub size : ℕ
  pub post : List Seg
  pub tiles : Tiles h (pre ++ (size, false) ∷ post)
  pub place : ptr ≡ span pre + header_size

-- The heaps that calls of the program lead to.
pub data Reach : Heap → Type 0 where
  boots : Reach init
  allocates : {h : Heap} (size : ℕ) → Reach h → Reach (kmalloc h size).1
  frees : {h : Heap} (ptr : ℕ) → Reach h → Live h ptr → Reach (kfree h (some ptr))
  frees_null : {h : Heap} → Reach h → Reach (kfree h none)

kmalloc-zero : (h : Heap) → (kmalloc h 0).1 ≡ h
unfolding kmalloc
kmalloc-zero h = ground arith

-- After any sequence of allocations and of frees of live pointers, blocks tile the arena, the
-- bytes in use are the sizes of the blocks in use, and no two free blocks are neighbours.
pub Reach-IsValid : {h : Heap} → Reach h → (xs : List Seg) × IsValid h xs
unfolding kfree
Reach-IsValid boots = ((arena_size - header_size, true) ∷ [], init-IsValid)
Reach-IsValid (allocates {h = h} size r) =
    let (xs, v) = Reach-IsValid r in
    elim (ℕ_discrete size 0) [
      | yes z ↦ (
        xs,
        subst (λ n. IsValid (kmalloc h n).1 xs) (sym z)
            (subst (λ k. IsValid k xs) (sym (kmalloc-zero h)) v),
      )
      | no nz ↦ kmalloc-IsValid h xs size v nz
    ]
Reach-IsValid (frees {h = h} ptr r live) =
    let (xs, v) = Reach-IsValid r in
    let e = Tiles-unique xs (live.pre ++ (live.size, false) ∷ live.post) v.tiles live.tiles in
    (
      coalesce live.pre live.size live.post,
      subst (λ p. IsValid (kfree h (some p)) (coalesce live.pre live.size live.post))
          (sym live.place) (kfree-IsValid h live.pre live.size live.post (subst (IsValid h) e v)),
    )
Reach-IsValid (frees_null r) = Reach-IsValid r

freed-back :
    (k : Heap) (pre : List Seg) (n s : ℕ) (post : List Seg)
    → NoTwoFree (pre ++ (s, true) ∷ post)
    → n ≤ s
    → IsValid k (pre ++ (carve n s ++ post))
    → IsValid (kfree k (some (span pre + header_size))) (pre ++ (s, true) ∷ post)
freed-back k pre n s post h le v = elim (dec_lt s (n + header_size + heap_align)) [
  | yes lt ↦
      subst (IsValid (kfree k (some (span pre + header_size))))
        (ap (join_prev pre) (join_next_id s post (HeadBusy-of_free s post after))
          ∙ join_prev_id pre s post h)
        (kfree-IsValid k pre s post
          (subst (λ l. IsValid k (pre ++ l)) (carve_small n s post lt).0 v))
  | no ge ↦
      subst (IsValid (kfree k (some (span pre + header_size))))
        (ap (λ z. join_prev pre ((z, true) ∷ post)) (omega arith) ∙ join_prev_id pre s post h)
        (kfree-IsValid k pre n ((s - n - header_size, true) ∷ post)
          (subst (λ l. IsValid k (pre ++ l)) (carve_large n s post (omega arith)).0 v))
]
  where
    after : NoTwoFree ((s, true) ∷ post)
    after = NoTwoFree-append_right pre ((s, true) ∷ post) h

-- Freeing what was just allocated undoes the allocation: from a valid heap, a successful
-- allocation followed by a free of its pointer gives back the same blocks and bytes in use.
pub kfree-kmalloc :
    (h : Heap) (xs : List Seg) (size ptr : ℕ)
    → IsValid h xs
    → size ≢ 0
    → (kmalloc h size).0 ≡ some ptr
    → IsValid (kfree (kmalloc h size).1 (some ptr)) xs
kfree-kmalloc h xs size ptr v nz e = cases (kmalloc-Outcome h xs size v.tiles nz) e
  where
    cases :
        {r : Option ℕ × Heap}
        → Outcome h xs (heap_align_up size) r
        → r.0 ≡ some ptr
        → IsValid (kfree r.1 (some ptr)) xs
    cases (inl (u, none_left)) got = absurd (cc (got, none_left))
    cases {r} (inr (pre, s, post, split, u, le, t)) got =
        subst (IsValid (kfree r.1 (some ptr))) (sym split) (
          subst (λ p. IsValid (kfree r.1 p) (pre ++ (s, true) ∷ post)) (sym t.pointer ∙ got)
            (freed-back r.1 pre (heap_align_up size) s post (subst NoTwoFree split v.joined) le
              (Taken-IsValid h pre (heap_align_up size) s post r (subst (IsValid h) split v) le t)))
