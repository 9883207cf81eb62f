-- ===== src/Kernel/Pmm/Tests.antt =====
-- clks/kernel/pmm.c at concrete memory maps.
use cleon_os_jgz_yes_fork.Base.{
  ◌==◌, if◌then◌else◌, All, ◌+◌, ◌-◌, ◌^◌, ◌≡◌, refl, Option, none, some, List, [], ◌∷◌, arith,
}
use cleon_os_jgz_yes_fork.Kernel.Pmm.{
  Pmm, MemmapEntry, empty, init, alloc_page, free_page, get_stats, add_page, add_range, add_entry,
  add_entries,
}
use cleon_os_jgz_yes_fork.Kernel.Pmm.Stack.{
  free_list, pop_page, alloc_page_refines, free_page_refines, alloc_page-free_page,
  double_free_aliases, used-double_free,
}
use cleon_os_jgz_yes_fork.Kernel.Pmm.Boot.{
  init-stacks_map, init-IsFreePage, Fits, high, map_pages, IsFreePage,
}

-- A reserved megabyte, then three pages that are not aligned to a page.
abbrev memory_map : List (Option MemmapEntry)
memory_map =
    some (record { base = 0; length = 0x100000; kind = 0 })
    ∷ none
    ∷ some (record { base = 0x100800; length = 0x3000; kind = 0 })
    ∷ some (record { base = 0x200000; length = 0x1000; kind = 1 })
    ∷ []

memory_map-Fits : Fits memory_map
memory_map-Fits = omega arith

-- Two free pages of three managed ones.
abbrev two_free : Pmm
two_free = record {
  free_stack = λ i. (if i == 0 then 0x101000 else 0x102000);
  free_top = 2;
  managed_pages = 3;
  dropped_pages = 0;
}

booted : free_list (init (some memory_map)) ≡ 0x102000 ∷ 0x101000 ∷ []
unfolding init empty add_entries add_entry add_range add_page
booted = refl

alloc_page_refines_example :
    let (a, p) = alloc_page two_free in (a, free_list p) ≡ pop_page (0x102000 ∷ 0x101000 ∷ [])
alloc_page_refines_example = alloc_page_refines two_free

free_page_refines_example :
    free_list (free_page two_free 0x105000) ≡ 0x105000 ∷ 0x102000 ∷ 0x101000 ∷ []
free_page_refines_example = free_page_refines two_free 0x105000

alloc_page-free_page_example :
    let (b, q) = alloc_page (free_page two_free 0x105000) in
    (b ≡ 0x105000) × (free_list q ≡ free_list two_free)
alloc_page-free_page_example =
    alloc_page-free_page two_free 0x105000 (omega arith) refl (omega arith)

double_free_aliases_example :
    let (b, q) = alloc_page (free_page (free_page two_free 0x105000) 0x105000) in
    let (c, r) = alloc_page q in (b ≡ 0x105000) × (c ≡ 0x105000)
double_free_aliases_example = double_free_aliases two_free 0x105000 (omega arith) refl (omega arith)

used-double_free_example :
    (get_stats (free_page (record two_free { managed_pages = 2 }) 0x105000)).used ≡ 2 ^ 64 - 1
used-double_free_example =
    used-double_free (record two_free { managed_pages = 2 }) 0x105000 (omega arith) refl refl
      (omega arith)

init-stacks_map_example :
    let p = init (some memory_map) in
    let found = high (map_pages memory_map) in
    (free_list p ≡ 0x102000 ∷ 0x101000 ∷ [])
    × (p.managed_pages ≡ 2)
    × (p.free_top ≡ p.managed_pages)
    × (p.managed_pages + p.dropped_pages ≡ 2)
init-stacks_map_example = init-stacks_map memory_map memory_map-Fits

init-IsFreePage_example : All (IsFreePage memory_map) (free_list (init (some memory_map)))
init-IsFreePage_example = init-IsFreePage memory_map memory_map-Fits
