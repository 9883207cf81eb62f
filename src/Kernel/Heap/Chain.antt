-- ===== src/Kernel/Heap/Chain.antt =====
-- The header list as a segment of blocks that lie one behind another in the arena, and what a
-- write of a header does to a segment.
use cleon_os_jgz_yes_fork.Base.{
  store, ℕ, ◌+◌, ◌≤◌, ◌<◌, ◌≡◌, refl, sym, ap, subst, ◌∙◌, ◌↔◌, ◌⊎◌, inl, inr, Bool, true, Option,
  none, some, List, [], ◌∷◌, ◌++◌, arith,
}
use cleon_os_jgz_yes_fork.Kernel.Heap.{Block, Heap, heap_magic, header_size, arena_size, set_prev}

-- A block as the allocator's caller may think of it: its size, and whether it is free.
abbrev pub Seg : Type 0
Seg = ℕ × Bool

abbrev pub header : ℕ → Bool → Option ℕ → Option ℕ → Block
header s f nx pv = record { size = s; is_free = f; next = nx; prev = pv; magic = heap_magic }

-- The bytes that blocks occupy, headers included.
abbrev pub span : List Seg → ℕ
span [] = 0
span ((s, f) ∷ xs) = header_size + s + span xs

-- The address of the first block of a list that starts at `at`; `after` if there is none.
abbrev pub first : List Seg → ℕ → Option ℕ → Option ℕ
first [] at after = after
first (x ∷ xs) at after = some at

-- The address of the last block; `before` if there is none.
abbrev pub last : List Seg → ℕ → Option ℕ → Option ℕ
last [] at before = before
last ((s, f) ∷ xs) at before = last xs (at + header_size + s) (some at)

-- From `at` on the headers of `m` are those of `xs`, between the blocks `before` and `after`.
abbrev pub Segment : (ℕ → Block) → Option ℕ → ℕ → List Seg → Option ℕ → Type 0
Segment m before at [] after = Unit {0}
Segment m before at ((s, f) ∷ xs) after =
    (m at ≡ header s f (first xs (at + header_size + s) after) before)
    × Segment m (some at) (at + header_size + s) xs after

pub span-append : (xs ys : List Seg) → span (xs ++ ys) ≡ span xs + span ys
span-append [] ys = omega arith
span-append ((s, f) ∷ xs) ys = omega (arith, span-append xs ys)

pub first-append :
    (xs ys : List Seg) (at : ℕ) (after : Option ℕ)
    → first xs at (first ys (at + span xs) after) ≡ first (xs ++ ys) at after
first-append [] ys at after = let e : at + 0 ≡ at = omega arith in rw e
first-append (x ∷ xs) ys at after = refl

module _ (m : ℕ → Block) where
  -- A segment is cut in two, and put together, at any block.
  pub Segment-append :
      (xs ys : List Seg) (before : Option ℕ) (at : ℕ) (after : Option ℕ)
      → Segment m before at (xs ++ ys) after ↔ (
          Segment m before at xs (first ys (at + span xs) after)
          × Segment m (last xs at before) (at + span xs) ys after)
  Segment-append [] ys before at after =
      let e : at + 0 ≡ at = omega arith in rw e (λ h. (tt, h), λ h. h.1)
  Segment-append ((s, f) ∷ xs) ys before at after =
      let e : at + (header_size + s + span xs) ≡ at + header_size + s + span xs = omega arith in
      let ih = Segment-append xs ys (some at) (at + header_size + s) after in
      let link = first-append xs ys (at + header_size + s) after in
      rw e (
        λ h. ((h.0 ∙ ap (λ n. header s f n before) (sym link), (ih.0 h.1).0), (ih.0 h.1).1),
        λ h. (h.0.0 ∙ ap (λ n. header s f n before) link, ih.1 (h.0.1, h.1)),
      )

  -- A write outside the segment leaves it as it is.
  pub Segment-store :
      (xs : List Seg) (before : Option ℕ) (at : ℕ) (after : Option ℕ) (a : ℕ) (b : Block)
      → (a < at) ⊎ (at + span xs ≤ a)
      → Segment m before at xs after
      → Segment (store m a b) before at xs after
  Segment-store [] before at after a b out h = tt
  Segment-store ((s, f) ∷ xs) before at after a b out h = (
    ground (arith, h.0),
    Segment-store xs (some at) (at + header_size + s) after a b (ground arith) h.1,
  )

-- Relinking the first block of a segment, if there is one, to another block before it.
pub Segment-set_prev :
    (h : Heap) (xs : List Seg) (before before' : Option ℕ) (at : ℕ)
    → Segment h.mem before at xs none
    → Segment (set_prev h (first xs at none) before').mem before' at xs none
Segment-set_prev h [] before before' at seg = tt
Segment-set_prev h ((s, f) ∷ xs) before before' at seg = (
  ground (arith, seg.0),
  Segment-store h.mem xs (some at) (at + header_size + s) none at _ (inl (omega arith)) seg.1,
)

-- Relinking the first block of a later segment leaves an earlier one as it is.
pub Segment-set_prev_later :
    (h : Heap) (xs ys : List Seg) (before after before' : Option ℕ) (at q : ℕ)
    → at + span xs ≤ q
    → Segment h.mem before at xs after
    → Segment (set_prev h (first ys q none) before').mem before at xs after
Segment-set_prev_later h xs [] before after before' at q out seg = seg
Segment-set_prev_later h xs (y ∷ ys) before after before' at q out seg =
    Segment-store h.mem xs before at after q _ (inr out) seg

-- And so it leaves any block that lies before it.
pub mem-set_prev_later :
    (h : Heap) (ys : List Seg) (before' : Option ℕ) (a q : ℕ)
    → a < q
    → (set_prev h (first ys q none) before').mem a ≡ h.mem a
mem-set_prev_later h [] before' a q lt = refl
mem-set_prev_later h (y ∷ ys) before' a q lt = ground arith

-- The blocks `pre`, one block of size `s`, and the blocks `post`, from the start of the arena.
pub record Around (m : ℕ → Block) (pre : List Seg) (s : ℕ) (f : Bool) (post : List Seg)
    : Type 0 where
  pub earlier : Segment m none 0 pre (some (span pre))
  pub here :
      m (span pre) ≡ header s f (first post (span pre + header_size + s) none) (last pre 0 none)
  pub later : Segment m (some (span pre)) (span pre + header_size + s) post none

pub Around-of_Segment :
    (m : ℕ → Block) (pre : List Seg) (s : ℕ) (f : Bool) (post : List Seg)
    → Segment m none 0 (pre ++ (s, f) ∷ post) none
    → Around m pre s f post
Around-of_Segment m pre s f post h =
    let e : 0 + span pre ≡ span pre = omega arith in
    let parts = (Segment-append m pre ((s, f) ∷ post) none 0 none).0 h in
    let parts' : Segment m none 0 pre (some (span pre))
        × Segment m (last pre 0 none) (span pre) ((s, f) ∷ post) none =
      subst
        (λ k. Segment m none 0 pre (some k) × Segment m (last pre 0 none) k ((s, f) ∷ post) none) e
        parts in
    record { earlier = parts'.0; here = parts'.1.0; later = parts'.1.1 }

pub Segment-of_Around :
    (m : ℕ → Block) (pre : List Seg) (s : ℕ) (f : Bool) (post : List Seg)
    → Around m pre s f post
    → Segment m none 0 (pre ++ (s, f) ∷ post) none
Segment-of_Around m pre s f post a =
    let e : span pre ≡ 0 + span pre = omega arith in
    (Segment-append m pre ((s, f) ∷ post) none 0 none).1 (
      subst
        (λ k. Segment m none 0 pre (some k) × Segment m (last pre 0 none) k ((s, f) ∷ post) none) e
        (a.earlier, (a.here, a.later)))

-- The arena is tiled by the blocks of `xs`, the counters aside.
pub record Tiles (h : Heap) (xs : List Seg) : Type 0 where
  pub ready : h.is_ready ≡ true
  pub start : h.head ≡ first xs 0 none
  pub blocks : Segment h.mem none 0 xs none
  pub full : span xs ≡ arena_size
