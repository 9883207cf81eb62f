-- ===== src/Kernel/Heap/Malloc.antt =====
-- `clks_kmalloc` against first fit on the list of blocks.
use mathlib.Core.List.{append_assoc}
use cleon_os_jgz_yes_fork.Base.{
  leb, if◌then◌else◌, leb→le, if_cases, length, All, All-append, u64_mod, add64, ℕ, zero, suc, ◌+◌,
  ◌-◌, ◌*◌, ◌%◌, ◌≤◌, ◌<◌, ◌≡◌, refl, sym, subst, ◌∙◌, ◌≢◌, ◌⊎◌, inl, inr, Bool, true, false, ◌&&◌,
  Option, none, some, List, [], ◌∷◌, ◌++◌, arith,
}
use cleon_os_jgz_yes_fork.Kernel.Heap.{
  Heap, heap_align, header_size, arena_size, walk_fuel, take_block, alloc_from, kmalloc,
  heap_align_up, init,
}
use cleon_os_jgz_yes_fork.Kernel.Heap.Chain.{
  Seg, header, span, first, Around, Tiles, Around-of_Segment, span-append,
}
use cleon_os_jgz_yes_fork.Kernel.Heap.Take.{Taken, Unfit, granted, take_block-Taken, first-zero}

-- The heap after `clks_heap_init` is one free block.
pub init-Tiles : Tiles init ((arena_size - header_size, true) ∷ [])
unfolding init
init-Tiles = record { ready = refl; start = refl; blocks = (refl, tt); full = refl }

-- What a request for `n` aligned bytes comes to on the blocks `xs`: nothing, if no block can serve
-- it, and otherwise the first one that can.
abbrev pub Outcome : Heap → List Seg → ℕ → Option ℕ × Heap → Type 0
Outcome h xs n r =
    (All (Unfit n) xs × (r ≡ (none, h)))
    ⊎ ((pre : List Seg) × (s : ℕ) × (post : List Seg) × (xs ≡ pre ++ (s, true) ∷ post)
        × All (Unfit n) pre
        × (n ≤ s)
        × Taken h pre n s post r)

alloc_from_step :
    (fuel : ℕ) (h : Heap) (at n s : ℕ) (f : Bool) (nx pv : Option ℕ)
    → h.mem at ≡ header s f nx pv
    → alloc_from (suc fuel) h (some at) n
      ≡ (if f && leb n s then take_block h at n else alloc_from fuel h nx n)
unfolding alloc_from
alloc_from_step fuel h at n s f nx pv e = rw e

-- The block at which the walk stands can serve the request.
serve :
    (h : Heap) (n : ℕ) (pre : List Seg) (s : ℕ) (f : Bool) (ys : List Seg)
    → Tiles h (pre ++ (s, f) ∷ ys)
    → All (Unfit n) pre
    → (f && leb n s) ≡ true
    → Outcome h (pre ++ (s, f) ∷ ys) n (take_block h (span pre) n)
serve h n pre s false ys t unfit fit = absurd (cc fit)
serve h n pre s true ys t unfit fit = inr (
  pre,
  s,
  ys,
  refl,
  unfit,
  fits,
  take_block-Taken h pre n s ys t.ready (t.start ∙ first-zero pre (s, true) ys)
      (Around-of_Segment h.mem pre s true ys t.blocks)
      (omega (arith, t.full, span-append pre ((s, true) ∷ ys))) fits,
)
  where
    fits : n ≤ s
    fits = leb→le n s fit

walk :
    (fuel : ℕ) (h : Heap) (n : ℕ) (pre ys : List Seg)
    → length ys < fuel
    → Tiles h (pre ++ ys)
    → All (Unfit n) pre
    → Outcome h (pre ++ ys) n (alloc_from fuel h (first ys (span pre) none) n)
unfolding alloc_from
walk zero h n pre ys lt t unfit = absurd (omega arith)
walk (suc fuel) h n pre [] lt t unfit = inl (All-append (Unfit n) pre [] unfit tt, refl)
walk (suc fuel) h n pre ((s, f) ∷ ys) lt t unfit =
    subst (Outcome h (pre ++ (s, f) ∷ ys) n) (sym step) (
      if_cases (Outcome h (pre ++ (s, f) ∷ ys) n) (f && leb n s) (serve h n pre s f ys t unfit)
        (pass (walk fuel h n (pre ++ (s, f) ∷ []) ys (omega arith))))
  where
    a : Around h.mem pre s f ys
    a = Around-of_Segment h.mem pre s f ys t.blocks

    step : alloc_from (suc fuel) h (some (span pre)) n ≡ (
        if f && leb n s
        then take_block h (span pre) n
        else alloc_from fuel h (first ys (span pre + header_size + s) none) n)
    step = alloc_from_step fuel h (span pre) n s f _ _ a.here

    behind : span (pre ++ (s, f) ∷ []) ≡ span pre + header_size + s
    behind = omega (arith, span-append pre ((s, f) ∷ []))

    assoc : (pre ++ (s, f) ∷ []) ++ ys ≡ pre ++ (s, f) ∷ ys
    assoc = append_assoc pre ((s, f) ∷ []) ys

    pass :
        (Tiles h ((pre ++ (s, f) ∷ []) ++ ys)
          → All (Unfit n) (pre ++ (s, f) ∷ [])
          → Outcome h
              ((pre ++ (s, f) ∷ []) ++ ys)
              n
              (alloc_from fuel h (first ys (span (pre ++ (s, f) ∷ [])) none) n))
        → (f && leb n s) ≡ false
        → Outcome h
            (pre ++ (s, f) ∷ ys)
            n
            (alloc_from fuel h (first ys (span pre + header_size + s) none) n)
    pass ih miss =
        subst
          (λ l. Outcome h l n (alloc_from fuel h (first ys (span pre + header_size + s) none) n))
          assoc
          (subst
            (λ k. Outcome h ((pre ++ (s, f) ∷ []) ++ ys) n (alloc_from fuel h (first ys k none) n))
            behind
            (ih (subst (Tiles h) (sym assoc) t)
              (All-append (Unfit n) pre ((s, f) ∷ []) unfit (miss, tt))))

length-span : (xs : List Seg) → length xs * header_size ≤ span xs
length-span [] = omega arith
length-span ((s, f) ∷ xs) = omega (arith, length-span xs)

-- On a tiled heap an allocation of at least one byte takes the first free block that can hold the
-- request, rounded up to the alignment: it returns the address behind that block's header, leaves
-- the arena tiled with the block carved up, and adds what it granted to the bytes in use. If no
-- block can hold it, it returns NULL and changes nothing. The walk ends within its fuel.
pub kmalloc-Outcome :
    (h : Heap) (xs : List Seg) (size : ℕ)
    → Tiles h xs
    → size ≢ 0
    → Outcome h xs (heap_align_up size) (kmalloc h size)
unfolding kmalloc
kmalloc-Outcome h xs size t nz = subst (Outcome h xs (heap_align_up size)) (sym start) (
    subst (λ p. Outcome h xs (heap_align_up size) (alloc_from walk_fuel h p (heap_align_up size)))
      (sym t.start)
      (walk walk_fuel h (heap_align_up size) [] xs (omega (arith, length-span xs, t.full)) t tt))
  where
    start : kmalloc h size ≡ alloc_from walk_fuel h h.head (heap_align_up size)
    start = ground (arith, t.ready)

-- A request is rounded up to the next multiple of the alignment, unless that exceeds 64 bits.
pub heap_align_up_lem :
    (size : ℕ)
    → size + 15 < u64_mod
    → let n = heap_align_up size in (size ≤ n) × (n < size + heap_align) × (n % heap_align ≡ 0)
unfolding heap_align_up
heap_align_up_lem size h = omega arith

-- A request within 15 bytes of 2^64 is rounded to nothing.
heap_align_up_wraps : (size : ℕ) → u64_mod ≤ size + 15 → size < u64_mod → heap_align_up size ≡ 0
unfolding heap_align_up
heap_align_up_wraps size h lt = omega arith

-- The rounding overflows: on a tiled heap with a free block, a request within 15 bytes of 2^64
-- succeeds, and what it is granted is less than 56 bytes.
pub kmalloc_huge :
    (h : Heap) (pre : List Seg) (s : ℕ) (post : List Seg) (size : ℕ)
    → Tiles h (pre ++ (s, true) ∷ post)
    → u64_mod ≤ size + 15
    → size < u64_mod
    → (a : ℕ) × (g : ℕ) × ((kmalloc h size).0 ≡ some a)
      × (g < 56)
      × ((kmalloc h size).1.used_bytes ≡ add64 h.used_bytes g)
kmalloc_huge h pre s post size t big small = cases (
    subst (λ n. Outcome h (pre ++ (s, true) ∷ post) n (kmalloc h size))
      (heap_align_up_wraps size big small) (kmalloc-Outcome h _ size t (omega arith)))
  where
    fits_zero : (xs : List Seg) → All (Unfit 0) (xs ++ (s, true) ∷ post) → ⊥
    fits_zero [] u = ground (arith, u.0)
    fits_zero (x ∷ xs) u = fits_zero xs u.1

    cases :
        {r : Option ℕ × Heap}
        → Outcome h (pre ++ (s, true) ∷ post) 0 r
        → (a : ℕ) × (g : ℕ) × (r.0 ≡ some a) × (g < 56) × (r.1.used_bytes ≡ add64 h.used_bytes g)
    cases (inl (u, e)) = absurd (fits_zero pre u)
    cases (inr (p, k, q, e, u, le, taken)) =
        (span p + header_size, granted 0 k, taken.pointer, ground arith, taken.used)
