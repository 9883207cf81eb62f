-- ===== src/Kernel/Heap/Tests.antt =====
-- clks/kernel/heap.c from a fresh arena.
use cleon_os_jgz_yes_fork.Base.{
  add64, ℕ, ◌-◌, ◌^◌, ◌<◌, ◌≡◌, refl, true, false, some, List, [], ◌∷◌, arith,
}
use cleon_os_jgz_yes_fork.Kernel.Heap.{
  Heap, arena_size, header_size, init, kmalloc, kfree, heap_align_up, alloc_from, take_block,
}
use cleon_os_jgz_yes_fork.Kernel.Heap.Chain.{Seg, Tiles}
use cleon_os_jgz_yes_fork.Kernel.Heap.Malloc.{init-Tiles, Outcome, kmalloc-Outcome, kmalloc_huge}
use cleon_os_jgz_yes_fork.Kernel.Heap.Free.{Freed, coalesce, kfree-Freed}
use cleon_os_jgz_yes_fork.Kernel.Heap.Invariant.{
  IsValid, boots, allocates, frees, Live, Reach-IsValid, init-IsValid, kfree-kmalloc,
}
use cleon_os_jgz_yes_fork.Kernel.Heap.Robust.{kfree_twice}

abbrev fresh_blocks : List Seg
fresh_blocks = (arena_size - header_size, true) ∷ []

-- Ten bytes are in use, rounded up to sixteen.
one_used : Heap
one_used = (kmalloc init 10).1

abbrev used_blocks : List Seg
used_blocks = (16, false) ∷ (arena_size - 96, true) ∷ []

one_used-Tiles : Tiles one_used used_blocks
unfolding one_used kmalloc alloc_from take_block init heap_align_up
one_used-Tiles = record { ready = refl; start = refl; blocks = (refl, (refl, tt)); full = refl }

one_used-Live : Live one_used 40
one_used-Live = record {
  pre = [];
  size = 16;
  post = (arena_size - 96, true) ∷ [];
  tiles = one_used-Tiles;
  place = refl;
}

-- The first pointer is 40, which is not a multiple of 16.
first_pointer : (kmalloc init 10).0 ≡ some 40
unfolding kmalloc alloc_from take_block init heap_align_up
first_pointer = refl

kmalloc-Outcome_example : Outcome init fresh_blocks (heap_align_up 10) (kmalloc init 10)
kmalloc-Outcome_example = kmalloc-Outcome init fresh_blocks 10 init-Tiles (omega arith)

kmalloc_huge_example :
    (a : ℕ) × (g : ℕ) × ((kmalloc init (2 ^ 64 - 1)).0 ≡ some a)
    × (g < 56)
    × ((kmalloc init (2 ^ 64 - 1)).1.used_bytes ≡ add64 init.used_bytes g)
kmalloc_huge_example =
    kmalloc_huge init [] (arena_size - header_size) [] (2 ^ 64 - 1) init-Tiles (omega arith)
      (omega arith)

kfree-Freed_example : Freed one_used [] 16 ((arena_size - 96, true) ∷ []) (kfree one_used (some 40))
kfree-Freed_example = kfree-Freed one_used [] 16 ((arena_size - 96, true) ∷ []) one_used-Tiles

Reach-IsValid_example : (xs : List Seg) × IsValid (kfree one_used (some 40)) xs
unfolding one_used
Reach-IsValid_example = Reach-IsValid (frees 40 (allocates 10 boots) one_used-Live)

kfree-kmalloc_example : IsValid (kfree (kmalloc init 10).1 (some 40)) fresh_blocks
kfree-kmalloc_example =
    kfree-kmalloc init fresh_blocks 10 40 init-IsValid (omega arith) first_pointer

one_used-IsValid : IsValid one_used used_blocks
unfolding one_used kmalloc alloc_from take_block init heap_align_up
one_used-IsValid = record { tiles = one_used-Tiles; used = refl; joined = tt }

-- The block is joined with the free one behind it.
kfree_twice_example :
    (kfree (kfree one_used (some 40)) (some 40) ≡ kfree one_used (some 40))
    × IsValid
        (kfree (kfree one_used (some 40)) (some 40))
        (coalesce [] 16 ((arena_size - 96, true) ∷ []))
kfree_twice_example = kfree_twice one_used [] 16 ((arena_size - 96, true) ∷ []) one_used-IsValid
