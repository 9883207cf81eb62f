-- ===== src/Kernel/Pmm/Stack.antt =====
-- `clks_pmm_alloc_page` and `clks_pmm_free_page` against a bounded stack of pages, and what the
-- missing check for a double free costs.
use cleon_os_jgz_yes_fork.Base.{
  ltb, ◌==◌, if◌then◌else◌, length, u64_mod, store, ℕ, zero, suc, ◌+◌, ◌-◌, ◌%◌, ◌≤◌, ◌<◌, ◌≡◌,
  refl, ap₂, ◌≢◌, not, ◌&&◌, List, [], ◌∷◌, arith,
}
use cleon_os_jgz_yes_fork.Kernel.Pmm.{
  Pmm, max_tracked_pages, page_size, alloc_page, free_page, get_stats,
}

-- The free pages, the next one to be handed out first.
abbrev pub stacked : (ℕ → ℕ) → ℕ → List ℕ
stacked a zero = []
stacked a (suc n) = a n ∷ stacked a n

abbrev pub free_list : Pmm → List ℕ
free_list p = stacked p.free_stack p.free_top

pub stacked-store : (a : ℕ → ℕ) (n k v : ℕ) → n ≤ k → stacked (store a k v) n ≡ stacked a n
stacked-store a zero k v h = refl
stacked-store a (suc n) k v h = ap₂ ◌∷◌ (ground arith) (stacked-store a n k v (omega arith))

pub length-stacked : (a : ℕ → ℕ) (n : ℕ) → length (stacked a n) ≡ n
length-stacked a zero = refl
length-stacked a (suc n) = omega (arith, length-stacked a n)

-- The abstract stack: 0 stands for "no page".
abbrev pub pop_page : List ℕ → ℕ × List ℕ
pop_page [] = (0, [])
pop_page (x ∷ xs) = (x, xs)

abbrev pub push_page : ℕ → List ℕ → List ℕ
push_page a l =
    if not (a == 0) && ((a % page_size) == 0) && ltb (length l) max_tracked_pages then a ∷ l else l

stacked-pred : (a : ℕ → ℕ) (n : ℕ) → n ≢ 0 → stacked a n ≡ a (n - 1) ∷ stacked a (n - 1)
stacked-pred a zero h = absurd (h refl)
stacked-pred a (suc n) h = let e : suc n - 1 ≡ n = omega arith in rw e

-- Allocation pops the abstract stack of free pages: the returned address is its top, or 0 when
-- it is empty, and what is left is its tail.
pub alloc_page_refines :
    (p : Pmm) → let (a, p') = alloc_page p in (a, free_list p') ≡ pop_page (free_list p)
unfolding alloc_page
alloc_page_refines p = ground (arith, stacked-pred p.free_stack p.free_top)

-- Freeing pushes exactly the addresses that are not zero, are multiples of the page size and find
-- room below the limit of tracked pages, and ignores all others.
pub free_page_refines : (p : Pmm) (a : ℕ) → free_list (free_page p a) ≡ push_page a (free_list p)
unfolding free_page
free_page_refines p a = ground (
  arith,
  length-stacked p.free_stack p.free_top,
  stacked-store p.free_stack p.free_top p.free_top a,
)

-- A page that was just freed is handed out next, and the pages below it are untouched, provided
-- that the address is a nonzero multiple of the page size and the stack is below its limit.
pub alloc_page-free_page :
    (p : Pmm) (a : ℕ)
    → a ≢ 0
    → a % page_size ≡ 0
    → p.free_top < max_tracked_pages
    → let (b, q) = alloc_page (free_page p a) in (b ≡ a) × (free_list q ≡ free_list p)
unfolding free_page alloc_page
alloc_page-free_page p a nz aligned room =
    ground (arith, stacked-store p.free_stack p.free_top p.free_top a)

-- The allocator does not notice a double free: whenever two more pages fit, freeing a page twice
-- makes the next two allocations return that same page.
pub double_free_aliases :
    (p : Pmm) (a : ℕ)
    → a ≢ 0
    → a % page_size ≡ 0
    → p.free_top + 1 < max_tracked_pages
    → let (b, q) = alloc_page (free_page (free_page p a) a) in
      let (c, r) = alloc_page q in (b ≡ a) × (c ≡ a)
unfolding free_page alloc_page
double_free_aliases p a nz aligned room = ground arith

-- After a double free more pages are free than were ever managed, and the used count wraps round.
pub used-double_free :
    (p : Pmm) (a : ℕ)
    → a ≢ 0
    → a % page_size ≡ 0
    → p.free_top ≡ p.managed_pages
    → p.free_top < max_tracked_pages
    → (get_stats (free_page p a)).used ≡ u64_mod - 1
unfolding free_page get_stats
used-double_free p a nz aligned all_free room = ground arith
