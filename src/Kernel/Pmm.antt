-- ===== src/Kernel/Pmm.antt =====
-- The physical page allocator, clks/kernel/pmm.c: a stack of free pages in a fixed array.
-- The array is a function of its index; the guards of the code keep the index in bounds.
pub mod Stack
pub mod Boot
mod Tests
use cleon_os_jgz_yes_fork.Base.{
  ltb, leb, ◌==◌, if◌then◌else◌, add64, sub64, align_down, align_up, store, ℕ, zero, suc, ◌+◌, ◌-◌,
  ◌/◌, ◌%◌, Option, none, some, List, [], ◌∷◌,
}

-- CLKS_PMM_MAX_TRACKED_PAGES
abbrev pub max_tracked_pages : ℕ
max_tracked_pages = 262144

-- CLKS_PMM_MIN_USABLE_ADDR
abbrev pub min_usable_addr : ℕ
min_usable_addr = 0x100000

-- CLKS_PAGE_SIZE
abbrev pub page_size : ℕ
page_size = 4096

-- LIMINE_MEMMAP_USABLE
abbrev pub memmap_usable : ℕ
memmap_usable = 0

-- `struct limine_memmap_entry`
pub record MemmapEntry : Type 0 where
  pub base : ℕ
  pub length : ℕ
  pub kind : ℕ

-- The static variables of pmm.c.
pub record Pmm : Type 0 where
  pub free_stack : ℕ → ℕ
  pub free_top : ℕ
  pub managed_pages : ℕ
  pub dropped_pages : ℕ

pub record PmmStats : Type 0 where
  pub managed : ℕ
  pub free : ℕ
  pub used : ℕ
  pub dropped : ℕ

pub empty : Pmm
empty = record { free_stack = λ i. 0; free_top = 0; managed_pages = 0; dropped_pages = 0 }

-- The body of the page loop of `clks_pmm_init`.
pub add_page : Pmm → ℕ → Pmm
add_page p addr =
    if ltb addr min_usable_addr
    then p
    else (if ltb p.free_top max_tracked_pages
        then record p {
          free_stack = store p.free_stack p.free_top addr;
          free_top = p.free_top + 1;
          managed_pages = p.managed_pages + 1;
        }
        else record p { dropped_pages = p.dropped_pages + 1 })

-- `for (addr = start; addr < end; addr += CLKS_PAGE_SIZE)`, on fuel.
pub add_range : ℕ → ℕ → ℕ → Pmm → Pmm
add_range zero addr end p = p
add_range (suc fuel) addr end p =
    let rest = add_range fuel (add64 addr page_size) end (add_page p addr) in
    if ltb addr end then rest else p

-- One entry of the memory map. Both ends are multiples of the page size, so the loop makes
-- `(end - start) / page_size` rounds.
pub add_entry : Option MemmapEntry → Pmm → Pmm
add_entry none p = p
add_entry (some e) p =
    if e.kind == memmap_usable
    then (let start = align_up e.base page_size in
        let end = align_down (add64 e.base e.length) page_size in
        if leb end start then p else add_range (suc (end / page_size)) start end p)
    else p

pub add_entries : List (Option MemmapEntry) → Pmm → Pmm
add_entries [] p = p
add_entries (e ∷ es) p = add_entries es (add_entry e p)

-- `clks_pmm_init`; `none` is a NULL memory map.
pub init : Option (List (Option MemmapEntry)) → Pmm
init none = empty
init (some es) = add_entries es empty

-- `clks_pmm_alloc_page`: the page, 0 if there is none, and the new state.
pub alloc_page : Pmm → ℕ × Pmm
alloc_page p =
    if p.free_top == 0
    then (0, p)
    else (p.free_stack (p.free_top - 1), record p { free_top = p.free_top - 1 })

pub free_page : Pmm → ℕ → Pmm
free_page p addr =
    if addr == 0
    then p
    else (if (addr % page_size) == 0
        then (if leb max_tracked_pages p.free_top then p else record p {
          free_stack = store p.free_stack p.free_top addr;
          free_top = p.free_top + 1;
        })
        else p)

pub get_stats : Pmm → PmmStats
get_stats p = record {
  managed = p.managed_pages;
  free = p.free_top;
  used = sub64 p.managed_pages p.free_top;
  dropped = p.dropped_pages;
}
