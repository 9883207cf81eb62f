-- ===== src/Kernel/Heap.antt =====
-- The kernel heap, clks/kernel/heap.c: a doubly linked list of block headers in one arena.
-- An address is an offset into the arena and NULL is `none`; `mem` is the header that stands at
-- an address. What callers keep in their blocks is not modelled: they stay inside them.
pub mod Chain
pub mod Take
pub mod Malloc
pub mod Merge
pub mod Free
pub mod Joined
pub mod Invariant
pub mod Robust
pub mod Granted
mod Tests
use cleon_os_jgz_yes_fork.Base.{
  ltb, leb, ◌==◌, if◌then◌else◌, add64, sub64, align_up, store, ℕ, zero, suc, ◌+◌, ◌-◌, ◌*◌, Bool,
  true, false, not, ◌&&◌, ◌||◌, Option, none, some,
}

-- CLKS_HEAP_ARENA_SIZE
abbrev pub arena_size : ℕ
arena_size = 1024 * 1024

-- CLKS_HEAP_ALIGN
abbrev pub heap_align : ℕ
heap_align = 16

-- CLKS_HEAP_MAGIC
abbrev pub heap_magic : ℕ
heap_magic = 0x434C454F4E4F534F

-- sizeof(struct clks_heap_block) under the x86_64 ABI: 8, 4 and 4 of padding, 8, 8, 8.
abbrev pub header_size : ℕ
header_size = 40

-- `struct clks_heap_block`
pub record Block : Type 0 where
  pub size : ℕ
  pub is_free : Bool
  pub next : Option ℕ
  pub prev : Option ℕ
  pub magic : ℕ

-- The static variables of heap.c, and a mark of the model, `overrun`: `fill` was asked for more than a
-- block holds. From then on the arena may hold anything, and the other fields tell nothing.
pub record Heap : Type 0 where
  pub mem : ℕ → Block
  pub head : Option ℕ
  pub is_ready : Bool
  pub used_bytes : ℕ
  pub alloc_count : ℕ
  pub free_count : ℕ
  pub overrun : Bool

pub record HeapStats : Type 0 where
  pub total_bytes : ℕ
  pub used : ℕ
  pub free_bytes : ℕ
  pub allocs : ℕ
  pub frees : ℕ

-- The size that the header of the block behind a pointer tells.
abbrev pub block_size : Heap → ℕ → ℕ
block_size h ptr = (h.mem (sub64 ptr header_size)).size

-- A caller fills the first `n` bytes of its block, as the loader of executables does.
abbrev pub fill : Heap → ℕ → ℕ → Heap
fill h ptr n = record h { overrun = h.overrun || ltb (block_size h ptr) n }

abbrev pub set_block : Heap → ℕ → Block → Heap
set_block h a b = record h { mem = store h.mem a b }

-- `if (p != NULL) p->prev = v`
abbrev pub set_prev : Heap → Option ℕ → Option ℕ → Heap
set_prev h none v = h
set_prev h (some p) v = set_block h p (record b { prev = v })
  where
    b : Block
    b = h.mem p

-- `clks_heap_align_up`
unfoldable pub heap_align_up : ℕ → ℕ
heap_align_up value = align_up value heap_align

-- `clks_heap_split_block`
unfoldable pub split_block : Heap → ℕ → ℕ → Heap
split_block h at need =
    let block = h.mem at in
    let new_addr = at + header_size + need in
    let added = set_block h new_addr (record {
      size = sub64 (sub64 block.size need) header_size;
      is_free = true;
      next = block.next;
      prev = some at;
      magic = heap_magic;
    }) in
    let linked = set_prev added (added.mem at).next (some new_addr) in
    let old = linked.mem at in
    if ltb block.size (add64 need (header_size + heap_align))
    then h
    else set_block linked at (record old { next = some new_addr; size = need })

-- The two writes of `clks_heap_merge_next` once the next block is known to be free.
pub absorb : Heap → ℕ → ℕ → Heap
absorb h at next =
    let block = h.mem at in
    let after = h.mem next in
    let grown = set_block h at (record block {
      size = add64 block.size (add64 header_size after.size);
      next = after.next;
    }) in
    set_prev grown (grown.mem next).next (some at)

-- `clks_heap_merge_next`
pub merge_next : Heap → ℕ → Heap
unfolding absorb
merge_next h at = elim (h.mem at).next [
  | none ↦ h
  | some next ↦
      if not (h.mem next).is_free
      then h
      else (if (h.mem next).magic == heap_magic then absorb h at next else h)
]

-- `clks_heap_init`
unfoldable pub init : Heap
init = record {
  mem = λ a.
      (if a == 0
        then record {
          size = arena_size - header_size;
          is_free = true;
          next = none;
          prev = none;
          magic = heap_magic;
        }
        else record { size = 0; is_free = false; next = none; prev = none; magic = 0 });
  head = some 0;
  is_ready = true;
  used_bytes = 0;
  alloc_count = 0;
  free_count = 0;
  overrun = false;
}

-- The block at `at` is handed out: the body of the test in the loop of `clks_kmalloc`.
unfoldable pub take_block : Heap → ℕ → ℕ → Option ℕ × Heap
unfolding split_block
take_block h at aligned =
    let split = split_block h at aligned in
    let block = split.mem at in
    (
      some (at + header_size),
      record (set_block split at (record block { is_free = false })) {
        used_bytes = add64 split.used_bytes block.size;
        alloc_count = add64 split.alloc_count 1;
      },
    )

-- The loop of `clks_kmalloc`, on fuel.
unfoldable pub alloc_from : ℕ → Heap → Option ℕ → ℕ → Option ℕ × Heap
alloc_from zero h current aligned = (none, h)
alloc_from (suc fuel) h none aligned = (none, h)
alloc_from (suc fuel) h (some at) aligned =
    let block = h.mem at in
    let rest = alloc_from fuel h block.next aligned in
    if block.magic == heap_magic
    then (if block.is_free && leb aligned block.size then take_block h at aligned else rest)
    else (none, h)

-- More rounds than headers fit into the arena.
abbrev pub walk_fuel : ℕ
walk_fuel = 26216

-- `clks_kmalloc`
unfoldable pub kmalloc : Heap → ℕ → Option ℕ × Heap
kmalloc h size =
    if not h.is_ready
    then (none, h)
    else (if size == 0 then (none, h) else alloc_from walk_fuel h h.head (heap_align_up size))

-- The block is marked free and the counts are brought up to date.
pub release : Heap → ℕ → Heap
release h at =
    let block = h.mem at in
    record (set_block h at (record block { is_free = true })) {
      used_bytes = if leb block.size h.used_bytes then h.used_bytes - block.size else 0;
      free_count = add64 h.free_count 1;
    }

-- `if (block->prev != NULL && block->prev->is_free) clks_heap_merge_next(block->prev)`
pub merge_prev : Heap → ℕ → Heap
unfolding merge_next
merge_prev h at = elim (h.mem at).prev [
  | none ↦ h
  | some prev ↦ if (h.mem prev).is_free then merge_next h prev else h
]

-- `clks_kfree`
pub kfree : Heap → Option ℕ → Heap
unfolding merge_next merge_prev release
kfree h none = h
kfree h (some ptr) =
    let at = sub64 ptr header_size in
    if not h.is_ready
    then h
    else (if (h.mem at).magic == heap_magic
        then (if (h.mem at).is_free then h else merge_prev (merge_next (release h at) at) at)
        else h)

-- `clks_heap_get_stats`
pub get_stats : Heap → HeapStats
get_stats h = record {
  total_bytes = arena_size - header_size;
  used = h.used_bytes;
  free_bytes = sub64 (arena_size - header_size) h.used_bytes;
  allocs = h.alloc_count;
  frees = h.free_count;
}
