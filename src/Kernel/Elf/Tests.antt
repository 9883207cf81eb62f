-- ===== src/Kernel/Elf/Tests.antt =====
-- The theorems about the loader, applied to an executable with one segment of two bytes.
use cleon_os_jgz_yes_fork.Base.{
  take, replicate, ℕ, zero, suc, ◌+◌, ◌-◌, ◌*◌, ◌/◌, ◌%◌, ◌^◌, ◌≤◌, ◌≡◌, refl, true, false, some,
  List, [], ◌∷◌, ◌++◌, arith,
}
use cleon_os_jgz_yes_fork.Kernel.Heap
use cleon_os_jgz_yes_fork.Kernel.Heap.{arena_size, header_size}
use cleon_os_jgz_yes_fork.Kernel.Heap.Chain.{Seg, Tiles}
use cleon_os_jgz_yes_fork.Kernel.Heap.Invariant.{init-IsValid}
use cleon_os_jgz_yes_fork.Kernel.Elf.{
  LoadedImage, ehdr_of, ehdr_size, phdr_size, nth_phdr, phdr_at, validate, load,
}
use cleon_os_jgz_yes_fork.Kernel.Elf.Inside.{IsInside, validate-IsInside}
use cleon_os_jgz_yes_fork.Kernel.Elf.Placed.{IsUsable, memory_span, load-IsUsable}
use cleon_os_jgz_yes_fork.Kernel.Elf.Restores.{Restores, load-Restores}

abbrev word : ℕ → ℕ → List ℕ
word zero v = []
word (suc n) v = (v % 256) ∷ word n (v / 256)

abbrev empty_heap : List Seg
empty_heap = (arena_size - header_size, true) ∷ []

-- Integers, each with its number of bytes.
abbrev fields : List (ℕ × ℕ) → List ℕ
fields [] = []
fields ((n, v) ∷ rest) = word n v ++ fields rest

-- The file header, one program header, and the two bytes of the segment.
abbrev demo_image : List ℕ
demo_image =
    (0x7F ∷ b'E' ∷ b'L' ∷ b'F' ∷ 2 ∷ 1 ∷ 1 ∷ []) ++ (replicate 9 0 ++ (header ++ (program ++ code)))
  where
    header : List ℕ
    header = fields (
        (2, 2)
        ∷ (2, 62)
        ∷ (4, 1)
        ∷ (8, 0x1000)
        ∷ (8, 64)
        ∷ (8, 0)
        ∷ (4, 0)
        ∷ (2, 64)
        ∷ (2, 56)
        ∷ (2, 1)
        ∷ (6, 0)
        ∷ [])

    program : List ℕ
    program =
        fields ((4, 1) ∷ (4, 5) ∷ (8, 120) ∷ (8, 0x1000) ∷ (8, 0) ∷ (8, 2) ∷ (8, 4) ∷ (8, 16) ∷ [])

    code : List ℕ
    code = 0xF4 ∷ 0xC3 ∷ []

demo_valid : validate demo_image 122 ≡ true
unfolding validate phdr_at
demo_valid = refl

demo_one : (ehdr_of demo_image).e_phnum ≡ 1
unfolding ehdr_of
demo_one = refl

validate-IsInside_example :
    (ehdr_size ≤ 122)
    × ((ehdr_of demo_image).e_phoff + (0 + 1) * phdr_size ≤ 122)
    × IsInside 122 (nth_phdr demo_image (ehdr_of demo_image) 0)
validate-IsInside_example = validate-IsInside demo_image 122 demo_valid 0 (omega (arith, demo_one))

abbrev demo_loaded : LoadedImage
demo_loaded = record {
  entry = 0x1000;
  image_base = 40;
  image_size = 4;
  image_vaddr_base = 0x1000;
  segments = record { base = 40; vaddr = 0x1000; memsz = 4; filesz = 2; flags = 5 } ∷ [];
  memory = 0xF4 ∷ 0xC3 ∷ 0 ∷ 0 ∷ [];
}

demo_load : (load demo_image 122 Heap.init).0 ≡ some demo_loaded
unfolding load Heap.kmalloc Heap.init Heap.alloc_from Heap.heap_align_up Heap.take_block
demo_load = refl

demo_span : memory_span demo_image ≡ 4
unfolding memory_span phdr_at ehdr_of
demo_span = refl

empty_heap-Tiles : Tiles Heap.init empty_heap
empty_heap-Tiles = init-IsValid.tiles

not_overrun : Heap.init.overrun ≡ false
unfolding Heap.init
not_overrun = refl

load-IsUsable_example : IsUsable (load demo_image 122 Heap.init).1 demo_loaded
load-IsUsable_example =
    load-IsUsable demo_image 122 Heap.init empty_heap demo_loaded empty_heap-Tiles not_overrun
      (omega (arith, demo_span)) demo_load

load-Restores_example : Restores empty_heap Heap.init.overrun (load demo_image 122 Heap.init)
load-Restores_example =
    load-Restores demo_image 122 Heap.init empty_heap init-IsValid (omega (arith, demo_span))

-- A program header that asks for 2^64 - 1 bytes: the load is accepted, and overruns the heap.
abbrev huge_image : List ℕ
huge_image =
    take 64 demo_image
    ++ fields ((4, 1) ∷ (4, 5) ∷ (8, 0) ∷ (8, 0) ∷ (8, 0) ∷ (8, 0) ∷ (8, 2 ^ 64 - 1) ∷ (8, 16) ∷ [])

huge_overruns : (load huge_image 120 Heap.init).1.overrun ≡ true
unfolding load phdr_at ehdr_of Heap.kmalloc Heap.init Heap.alloc_from Heap.heap_align_up
    Heap.take_block
huge_overruns = refl
