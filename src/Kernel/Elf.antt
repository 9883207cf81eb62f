-- ===== src/Kernel/Elf.antt =====
-- The loader of executables, clks/kernel/elf64.c. A file in memory is the list of its bytes; a
-- structure in it is read at its offset, least significant byte first, as x86_64 lays it out. The block
-- that holds a loaded image comes from Kernel/Heap, and its bytes are part of the loaded image.
pub mod Inside
pub mod Placed
pub mod Restores
mod Tests
use cleon_os_jgz_yes_fork.Base.{
  ltb, leb, ◌==◌, if◌then◌else◌, length, get_or, take, drop, replicate, add64, sub64, ℕ, zero, suc,
  ◌+◌, ◌-◌, ◌*◌, Bool, true, false, not, ◌&&◌, ◌||◌, Option, none, some, List, [], ◌∷◌, ◌++◌,
}
use cleon_os_jgz_yes_fork.Kernel.Heap.{Heap, kmalloc, kfree, fill}

-- CLKS_ELF64_MAX_SEGMENTS
abbrev pub max_segments : ℕ
max_segments = 16

-- CLKS_ELF64_PT_LOAD
abbrev pub pt_load : ℕ
pt_load = 1

-- `sizeof(struct clks_elf64_ehdr)`, `sizeof(struct clks_elf64_phdr)`
abbrev pub ehdr_size : ℕ
ehdr_size = 64

abbrev pub phdr_size : ℕ
phdr_size = 56

-- `struct clks_elf64_ehdr`; `ident` is its first seven bytes, which alone are read.
pub record Ehdr : Type 0 where
  pub ident : List ℕ
  pub e_type : ℕ
  pub e_machine : ℕ
  pub e_version : ℕ
  pub e_entry : ℕ
  pub e_phoff : ℕ
  pub e_ehsize : ℕ
  pub e_phentsize : ℕ
  pub e_phnum : ℕ

-- `struct clks_elf64_phdr`
pub record Phdr : Type 0 where
  pub p_type : ℕ
  pub p_flags : ℕ
  pub p_offset : ℕ
  pub p_vaddr : ℕ
  pub p_filesz : ℕ
  pub p_memsz : ℕ

-- `struct clks_elf64_info`
pub record Info : Type 0 where
  pub entry : ℕ
  pub phnum : ℕ
  pub loadable_segments : ℕ
  pub total_load_memsz : ℕ

-- `struct clks_elf64_loaded_segment`
pub record Segment : Type 0 where
  pub base : ℕ
  pub vaddr : ℕ
  pub memsz : ℕ
  pub filesz : ℕ
  pub flags : ℕ

-- `struct clks_elf64_loaded_image`, and the bytes of the block at `image_base`; the number of segments
-- is the length of the list.
pub record LoadedImage : Type 0 where
  pub entry : ℕ
  pub image_base : ℕ
  pub image_size : ℕ
  pub image_vaddr_base : ℕ
  pub segments : List Segment
  pub memory : List ℕ

-- An integer of `n` bytes at the start of a list.
unfoldable pub le_word : List ℕ → ℕ → ℕ
le_word bytes zero = 0
le_word [] (suc n) = 0
le_word (b ∷ bytes) (suc n) = b + 256 * le_word bytes n

abbrev pub word_at : List ℕ → ℕ → ℕ → ℕ
word_at image off n = le_word (drop off image) n

unfoldable pub ehdr_of : List ℕ → Ehdr
unfolding le_word
ehdr_of image = record {
  ident = take 7 image;
  e_type = word_at image 16 2;
  e_machine = word_at image 18 2;
  e_version = word_at image 20 4;
  e_entry = word_at image 24 8;
  e_phoff = word_at image 32 8;
  e_ehsize = word_at image 52 2;
  e_phentsize = word_at image 54 2;
  e_phnum = word_at image 56 2;
}

-- The program header at an offset of the image.
unfoldable pub phdr_at : List ℕ → ℕ → Phdr
unfolding le_word
phdr_at image off = record {
  p_type = word_at image off 4;
  p_flags = word_at image (off + 4) 4;
  p_offset = word_at image (off + 8) 8;
  p_vaddr = word_at image (off + 16) 8;
  p_filesz = word_at image (off + 32) 8;
  p_memsz = word_at image (off + 40) 8;
}

-- `(u8 *)image + eh->e_phoff + i * eh->e_phentsize`
abbrev pub nth_phdr : List ℕ → Ehdr → ℕ → Phdr
nth_phdr image eh i = phdr_at image (eh.e_phoff + i * eh.e_phentsize)

-- The part of `clks_elf64_header_ok` that looks at `e_ident`.
unfoldable pub ident_ok : List ℕ → Bool
ident_ok ident =
    (get_or ident 0 0 == 0x7F)
    && (get_or ident 1 0 == b'E')
    && (get_or ident 2 0 == b'L')
    && (get_or ident 3 0 == b'F')
    && (get_or ident 4 0 == 2)
    && (get_or ident 5 0 == 1)
    && (get_or ident 6 0 == 1)

-- `clks_elf64_header_ok`
unfoldable pub header_ok : Ehdr → Bool
unfolding ident_ok
header_ok eh =
    ident_ok eh.ident
    && (eh.e_version == 1)
    && ((eh.e_type == 2) || (eh.e_type == 3))
    && (eh.e_machine == 62)
    && (eh.e_ehsize == ehdr_size)
    && (eh.e_phentsize == phdr_size)

-- `clks_elf64_range_ok`
unfoldable pub range_ok : ℕ → ℕ → ℕ → Bool
range_ok off len total = if ltb total off then false else not (ltb (total - off) len)

-- The loop of `clks_elf64_validate` from program header `i` on.
unfoldable pub validate_from : List ℕ → ℕ → Ehdr → ℕ → ℕ → Bool
unfolding range_ok
validate_from image size eh i zero = true
validate_from image size eh i (suc rounds) =
    let rest = validate_from image size eh (i + 1) rounds in
    let ph = nth_phdr image eh i in
    if not (ph.p_type == pt_load)
    then rest
    else (if ltb ph.p_memsz ph.p_filesz
        then false
        else (if range_ok ph.p_offset ph.p_filesz size then rest else false))

-- `clks_elf64_validate` on an image that is not NULL.
unfoldable pub validate : List ℕ → ℕ → Bool
unfolding ehdr_of header_ok range_ok validate_from
validate image size =
    let eh = ehdr_of image in
    if ltb size ehdr_size
    then false
    else (if not (header_ok eh)
        then false
        else (if range_ok eh.e_phoff (eh.e_phnum * eh.e_phentsize) size
            then validate_from image size eh 0 eh.e_phnum
            else false))

-- The loop of `clks_elf64_inspect` from program header `i` on.
unfoldable pub inspect_from : List ℕ → Ehdr → ℕ → ℕ → Info → Info
unfolding phdr_at
inspect_from image eh i zero info = info
inspect_from image eh i (suc rounds) info =
    let ph = nth_phdr image eh i in
    inspect_from image eh (i + 1) rounds (
      if ph.p_type == pt_load
      then record info {
        loadable_segments = info.loadable_segments + 1;
        total_load_memsz = add64 info.total_load_memsz ph.p_memsz;
      }
      else info)

-- `clks_elf64_inspect`; `none` is failure.
unfoldable pub inspect : List ℕ → ℕ → Option Info
unfolding validate inspect_from
inspect image size =
    let eh = ehdr_of image in
    if validate image size
    then some (
        inspect_from image eh 0 eh.e_phnum (record {
          entry = eh.e_entry;
          phnum = eh.e_phnum;
          loadable_segments = 0;
          total_load_memsz = 0;
        }))
    else none

-- What the first loop of `clks_elf64_load` finds out.
pub record Window : Type 0 where
  pub load_count : ℕ
  pub min_vaddr : ℕ
  pub max_vaddr_end : ℕ

-- The test that a program header is loaded.
abbrev pub is_loaded : Phdr → Bool
is_loaded ph = (ph.p_type == pt_load) && not (ph.p_memsz == 0)

-- One round of that loop, for a header that is loaded; `none` where the end wraps around.
unfoldable pub widen : Window → Phdr → Option Window
widen w ph =
    let seg_end = add64 ph.p_vaddr ph.p_memsz in
    if ltb seg_end ph.p_vaddr
    then none
    else some (record {
      load_count = w.load_count + 1;
      min_vaddr =
          if (w.load_count == 0) || ltb ph.p_vaddr w.min_vaddr then ph.p_vaddr else w.min_vaddr;
      max_vaddr_end =
          if (w.load_count == 0) || ltb w.max_vaddr_end seg_end then seg_end else w.max_vaddr_end;
    })

-- That loop from program header `i` on.
unfoldable pub window_from : List ℕ → Ehdr → ℕ → ℕ → Window → Option Window
unfolding phdr_at widen
window_from image eh i zero w = some w
window_from image eh i (suc rounds) w =
    let rest = window_from image eh (i + 1) rounds in
    let ph = nth_phdr image eh i in
    if is_loaded ph then elim (widen w ph) [ none ↦ none | some w' ↦ rest w' ] else rest w

-- `clks_memcpy(seg_dst, image + p_offset, p_filesz)` on the bytes of the block.
unfoldable pub copy_in : List ℕ → ℕ → List ℕ → List ℕ
copy_in memory off bytes = take off memory ++ (bytes ++ drop (off + length bytes) memory)

-- One round of the second loop of `clks_elf64_load`, for a header that is loaded; `none` is failure.
unfoldable pub place : List ℕ → LoadedImage → Phdr → Option LoadedImage
unfolding copy_in
place image l ph =
    let seg_off = sub64 ph.p_vaddr l.image_vaddr_base in
    if leb max_segments (length l.segments)
    then none
    else (if ltb l.image_size seg_off || ltb (l.image_size - seg_off) ph.p_memsz
        then none
        else some (record l {
          memory = copy_in l.memory seg_off (take ph.p_filesz (drop ph.p_offset image));
          segments =
              l.segments
              ++ record {
                base = l.image_base + seg_off;
                vaddr = ph.p_vaddr;
                memsz = ph.p_memsz;
                filesz = ph.p_filesz;
                flags = ph.p_flags;
              }
                ∷ [];
        }))

-- That loop from program header `i` on.
unfoldable pub place_from : List ℕ → Ehdr → ℕ → ℕ → LoadedImage → Option LoadedImage
unfolding phdr_at place
place_from image eh i zero l = some l
place_from image eh i (suc rounds) l =
    let rest = place_from image eh (i + 1) rounds in
    let ph = nth_phdr image eh i in
    if is_loaded ph then elim (place image l ph) [ none ↦ none | some l' ↦ rest l' ] else rest l

-- The second half of `clks_elf64_load`: memory is allocated, cleared and the segments are placed. The
-- `clks_memset` of `span` bytes overruns a block that is smaller, which the heap then tells; the block
-- is smaller where the sum in `clks_heap_align_up` wraps around.
unfoldable pub load_window : List ℕ → Ehdr → Window → Heap → Option LoadedImage × Heap
unfolding place_from
load_window image eh w h =
    let span = sub64 w.max_vaddr_end w.min_vaddr in
    let (block, h') = kmalloc h span in
    if (w.load_count == 0) || ltb max_segments w.load_count || (span == 0)
    then (none, h)
    else elim block [
      | none ↦ (none, h')
      | some base ↦
          (let filled = fill h' base span in
            elim (place_from image eh 0 eh.e_phnum (record {
              entry = eh.e_entry;
              image_base = base;
              image_size = span;
              image_vaddr_base = w.min_vaddr;
              segments = [];
              memory = replicate span 0;
            }))
              as (λ _. Option LoadedImage × Heap) [
                | none ↦ (none, kfree filled (some base))
                | some l ↦ (some l, filled)
              ])
    ]

-- `clks_elf64_load`; `none` is failure.
unfoldable pub load : List ℕ → ℕ → Heap → Option LoadedImage × Heap
unfolding ehdr_of validate window_from load_window
load image size h =
    let eh = ehdr_of image in
    if validate image size
    then elim (window_from image eh 0 eh.e_phnum
          (record { load_count = 0; min_vaddr = 0; max_vaddr_end = 0 }))
        as (λ _. Option LoadedImage × Heap) [ none ↦ (none, h) | some w ↦ load_window image eh w h ]
    else (none, h)

-- `clks_elf64_unload` of an image that was loaded.
unfoldable pub unload : LoadedImage → Heap → Heap
unload l h = kfree h (some l.image_base)

-- `clks_elf64_entry_pointer`; `none` is NULL.
unfoldable pub entry_pointer : LoadedImage → ℕ → Option ℕ
entry_pointer l entry =
    if ltb entry l.image_vaddr_base
    then none
    else (if leb l.image_size (entry - l.image_vaddr_base)
        then none
        else some (l.image_base + (entry - l.image_vaddr_base)))
