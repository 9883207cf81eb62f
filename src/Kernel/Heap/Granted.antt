-- ===== src/Kernel/Heap/Granted.antt =====
-- What an allocation grants: a block with room for the request.
use native.Mathlib.Decide.{dec_lt}
use mathlib.Core.Option.{some-injective}
use cleon_os_jgz_yes_fork.Base.{
  ltb, u64_mod, sub64, ℕ, zero, suc, ◌+◌, ◌-◌, ◌≤◌, ◌<◌, ◌≡◌, refl, sym, ap, subst, ◌∙◌, ◌≢◌, inl,
  inr, Bool, true, false, ◌||◌, Option, none, some, List, ◌∷◌, ◌++◌, arith,
}
use cleon_os_jgz_yes_fork.Kernel.Heap.{
  Block, Heap, header_size, heap_align, heap_align_up, block_size, fill, kmalloc, kfree, merge_next,
  merge_prev, release, absorb, split_block, take_block, alloc_from, walk_fuel,
}
use cleon_os_jgz_yes_fork.Kernel.Heap.Chain.{
  Seg, Segment, first, last, span, Tiles, Segment-append, span-append,
}
use cleon_os_jgz_yes_fork.Kernel.Heap.Take.{carve_small, carve_large, Taken}
use cleon_os_jgz_yes_fork.Kernel.Heap.Malloc.{Outcome, kmalloc-Outcome, heap_align_up_lem}

block_size-Tiles :
    (h : Heap) (pre : List Seg) (s : ℕ) (f : Bool) (post : List Seg)
    → Tiles h (pre ++ (s, f) ∷ post)
    → block_size h (span pre + header_size) ≡ s
block_size-Tiles h pre s f post t =
    ap (λ a. (h.mem a).size) at ∙ ap (λ (b : Block). b.size) here.1.0
  where
    here :
        Segment h.mem none 0 pre (first ((s, f) ∷ post) (0 + span pre) none)
        × Segment h.mem (last pre 0 none) (0 + span pre) ((s, f) ∷ post) none
    here = (Segment-append h.mem pre ((s, f) ∷ post) none 0 none).0 t.blocks

    at : sub64 (span pre + header_size) header_size ≡ 0 + span pre
    at = omega (arith, t.full, span-append pre ((s, f) ∷ post))

Taken-size :
    (h : Heap) (pre : List Seg) (n s : ℕ) (post : List Seg) (r : Option ℕ × Heap)
    → n ≤ s
    → Taken h pre n s post r
    → n ≤ block_size r.1 (span pre + header_size)
Taken-size h pre n s post r le t = elim (dec_lt s (n + header_size + heap_align)) [
  | yes lt ↦
      subst (λ k. n ≤ k)
        (sym (
          block_size-Tiles r.1 pre s false post
            (subst (λ l. Tiles r.1 (pre ++ l)) (carve_small n s post lt).0 t.tiles)))
        le
  | no ge ↦
      subst (λ k. n ≤ k)
        (sym (
          block_size-Tiles r.1 pre n false ((s - n - header_size, true) ∷ post)
            (subst (λ l. Tiles r.1 (pre ++ l)) (carve_large n s post (omega arith)).0 t.tiles)))
        (omega arith)
]

-- On a tiled heap, the block behind the pointer that an allocation returns has room for the request,
-- unless the sum in the rounding wraps around.
pub kmalloc-room :
    (h : Heap) (xs : List Seg) (size ptr : ℕ)
    → Tiles h xs
    → size ≢ 0
    → size + 15 < u64_mod
    → (kmalloc h size).0 ≡ some ptr
    → size ≤ block_size (kmalloc h size).1 ptr
kmalloc-room h xs size ptr t nz small e = cases (kmalloc-Outcome h xs size t nz) e
  where
    cases :
        {r : Option ℕ × Heap}
        → Outcome h xs (heap_align_up size) r
        → r.0 ≡ some ptr
        → size ≤ block_size r.1 ptr
    cases (inl (u, same)) got = absurd (cc (same, got))
    cases {r} (inr (pre, s, post, split, u, le, t)) got =
        subst (λ p. size ≤ block_size r.1 p)
          (some-injective (span pre + header_size) ptr (sym t.pointer ∙ got))
          (omega (
            arith,
            (heap_align_up_lem size small).0,
            Taken-size h pre (heap_align_up size) s post r le t,
          ))

not_less : (a b : ℕ) → b ≤ a → ltb a b ≡ false
not_less a b h = ground (arith, h)

-- Filling a block that has room leaves the heap as it is.
pub fill-room : (h : Heap) (ptr n : ℕ) → n ≤ block_size h ptr → fill h ptr n ≡ h
fill-room h ptr n le =
    ap (λ b. record h { overrun = b })
      (calm h.overrun (ltb (block_size h ptr) n) (not_less (block_size h ptr) n le))
  where
    calm : (a b : Bool) → b ≡ false → (a || b) ≡ a
    calm true b e = refl
    calm false b e = e

-- Allocations and frees do not overrun a block.
alloc_from-overrun :
    (fuel : ℕ) (h : Heap) (current : Option ℕ) (n : ℕ)
    → (alloc_from fuel h current n).1.overrun ≡ h.overrun
unfolding alloc_from take_block split_block
alloc_from-overrun zero h current n = refl
alloc_from-overrun (suc fuel) h none n = refl
alloc_from-overrun (suc fuel) h (some at) n =
    ground (arith, alloc_from-overrun fuel h (h.mem at).next n)

pub kmalloc-overrun : (h : Heap) (size : ℕ) → (kmalloc h size).1.overrun ≡ h.overrun
unfolding kmalloc
kmalloc-overrun h size = ground (arith, alloc_from-overrun walk_fuel h h.head (heap_align_up size))

merge_next-overrun : (h : Heap) (at : ℕ) → (merge_next h at).overrun ≡ h.overrun
unfolding merge_next absorb
merge_next-overrun h at = ground arith

merge_prev-overrun : (h : Heap) (at : ℕ) → (merge_prev h at).overrun ≡ h.overrun
unfolding merge_prev
merge_prev-overrun h at = ground (arith, λ (a : ℕ). merge_next-overrun h a)

pub kfree-overrun : (h : Heap) (ptr : Option ℕ) → (kfree h ptr).overrun ≡ h.overrun
unfolding kfree release
kfree-overrun h none = refl
kfree-overrun h (some ptr) = ground (
  arith,
  merge_prev-overrun (merge_next (release h (sub64 ptr header_size)) (sub64 ptr header_size))
      (sub64 ptr header_size),
  merge_next-overrun (release h (sub64 ptr header_size)) (sub64 ptr header_size),
)
