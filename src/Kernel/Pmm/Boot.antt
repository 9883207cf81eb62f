-- ===== src/Kernel/Pmm/Boot.antt =====
-- `clks_pmm_init`: which pages the memory map yields, and in which order they are stacked.
use mathlib.Core.List.{reverse, reverse-cons, append_assoc, append-nil, foldl-append}
use cleon_os_jgz_yes_fork.Base.{
  ltb, ◌==◌, if◌then◌else◌, lt→ltb, ==_iff, Bool-cases, length, take, All, All-append, All-reverse,
  All-take, All-map, u64_mod, add64, align_down, align_up, ℕ, zero, suc, ◌+◌, ◌-◌, ◌*◌, ◌/◌, ◌%◌,
  ◌≤◌, ◌<◌, min, ◌≡◌, refl, ap, subst, ◌≢◌, ◌⊎◌, inl, inr, true, Option, none, some, List, [], ◌∷◌,
  ◌++◌, foldl, arith,
}
use cleon_os_jgz_yes_fork.Kernel.Pmm.{
  Pmm, MemmapEntry, max_tracked_pages, min_usable_addr, page_size, memmap_usable, add_page,
  add_range, add_entry, add_entries, init, empty,
}
use cleon_os_jgz_yes_fork.Kernel.Pmm.Stack.{free_list, stacked-store}

-- `n` consecutive pages.
abbrev pub pages : ℕ → ℕ → List ℕ
pages addr zero = []
pages addr (suc n) = addr ∷ pages (addr + page_size) n

abbrev pub first_page : MemmapEntry → ℕ
first_page e = (e.base + 4095) / page_size * page_size

-- The whole pages inside an entry, whatever the code computes.
abbrev pub whole_pages : MemmapEntry → ℕ
whole_pages e = (e.base + e.length) / page_size - (e.base + 4095) / page_size

abbrev pub entry_pages : Option MemmapEntry → List ℕ
entry_pages none = []
entry_pages (some e) = if e.kind == memmap_usable then pages (first_page e) (whole_pages e) else []

abbrev pub map_pages : List (Option MemmapEntry) → List ℕ
map_pages [] = []
map_pages (e ∷ es) = entry_pages e ++ map_pages es

-- Those from 1 MiB upwards.
abbrev pub high : List ℕ → List ℕ
high [] = []
high (a ∷ rest) = if ltb a min_usable_addr then high rest else a ∷ high rest

-- The entry ends a page below the top of the address space.
abbrev pub FitsEntry : Option MemmapEntry → Type 0
FitsEntry none = Unit {0}
FitsEntry (some e) = e.base + e.length + page_size ≤ u64_mod

abbrev pub Fits : List (Option MemmapEntry) → Type 0
Fits [] = Unit {0}
Fits (e ∷ es) = FitsEntry e × Fits es

-- The fuel is enough, and the loop visits the pages in order.
add_range_lem :
    (n fuel addr end : ℕ) (p : Pmm)
    → n < fuel
    → end ≡ addr + n * page_size
    → end < u64_mod
    → add_range fuel addr end p ≡ foldl add_page p (pages addr n)
unfolding add_range
add_range_lem n zero addr end p h e b = absurd (omega arith)
add_range_lem zero (suc f) addr end p h e b = ground arith
add_range_lem (suc n) (suc f) addr end p h e b =
    let next : add64 addr page_size ≡ addr + page_size = omega arith in
    let test : ltb addr end ≡ true = lt→ltb addr end (omega arith) in
    rw test (
      rw next
        (add_range_lem n f (addr + page_size) end (add_page p addr) (omega arith) (omega arith) b))

add_entry_lem :
    (e : Option MemmapEntry) (p : Pmm)
    → FitsEntry e
    → add_entry e p ≡ foldl add_page p (entry_pages e)
unfolding add_entry
add_entry_lem none p h = refl
add_entry_lem (some e) p h = ground (
  arith,
  add_range_lem (whole_pages e) (suc (align_down (add64 e.base e.length) page_size / page_size))
      (first_page e) (align_down (add64 e.base e.length) page_size) p,
  start,
  none_left,
)
  where
    start : align_up e.base page_size ≡ first_page e
    start = omega arith

    none_left : whole_pages e ≡ 0 → pages (first_page e) (whole_pages e) ≡ []
    none_left z = rw z

add_entries_lem :
    (es : List (Option MemmapEntry)) (p : Pmm)
    → Fits es
    → add_entries es p ≡ foldl add_page p (map_pages es)
unfolding add_entries
add_entries_lem [] p h = refl
add_entries_lem (e ∷ es) p h =
    rw (foldl-append, add_entry_lem e p h.0)
      (add_entries_lem es (foldl add_page p (entry_pages e)) h.1)

take-cons : (n x : ℕ) (xs : List ℕ) → n ≢ 0 → take n (x ∷ xs) ≡ x ∷ take (n - 1) xs
take-cons zero x xs h = absurd (h refl)
take-cons (suc n) x xs h = ap (λ k. x ∷ take k xs) (omega arith)

take-nil : (n : ℕ) → take {A = ℕ} n [] ≡ []
take-nil zero = refl
take-nil (suc n) = refl

record Boots (p : Pmm) (l : List ℕ) (q : Pmm) : Type 0 where
  stack : free_list q ≡ reverse (take (max_tracked_pages - p.free_top) l) ++ free_list p
  top : q.free_top ≡ min max_tracked_pages (p.free_top + length l)
  managed : q.managed_pages + p.free_top ≡ p.managed_pages + q.free_top
  dropped : q.dropped_pages + q.free_top ≡ p.dropped_pages + p.free_top + length l

add_pages-Boots :
    (l : List ℕ) (p : Pmm) → p.free_top ≤ max_tracked_pages → Boots p (high l) (foldl add_page p l)
unfolding add_page
add_pages-Boots [] p h = record {
  stack = rw take-nil;
  top = omega arith;
  managed = omega arith;
  dropped = omega arith;
}
add_pages-Boots (a ∷ rest) p h = ground (
  arith,
  add_pages-Boots rest (add_page p a),
  take-cons (max_tracked_pages - p.free_top) a (high rest),
  reverse-cons a (take (max_tracked_pages - p.free_top - 1) (high rest)),
  append_assoc (reverse (take (max_tracked_pages - p.free_top - 1) (high rest))) (a ∷ [])
      (free_list p),
  stacked-store p.free_stack p.free_top p.free_top a,
)

-- Over a memory map whose entries end a page below the top of the address space, booting stacks
-- the whole usable pages from 1 MiB upwards in map order, the last one on top, until the limit of
-- tracked pages is reached; it counts the stacked pages as managed and the others as dropped.
pub init-stacks_map :
    (es : List (Option MemmapEntry))
    → Fits es
    → let p = init (some es) in
      let found = high (map_pages es) in
      (free_list p ≡ reverse (take max_tracked_pages found))
      × (p.managed_pages ≡ min max_tracked_pages (length found))
      × (p.free_top ≡ p.managed_pages)
      × (p.managed_pages + p.dropped_pages ≡ length found)
unfolding init empty
init-stacks_map es h = rw (add_entries_lem es empty h) (
    ground (
      arith,
      add_pages-Boots (map_pages es) empty,
      append-nil (reverse (take max_tracked_pages (high (map_pages es)))),
    ))

-- An address is a page of a usable entry.
abbrev pub Usable : List (Option MemmapEntry) → ℕ → Type 0
Usable [] a = ⊥
Usable (none ∷ es) a = Usable es a
Usable (some e ∷ es) a =
    ((e.kind ≡ memmap_usable) × (e.base ≤ a) × (a + page_size ≤ e.base + e.length)) ⊎ Usable es a

-- What a stacked page of a memory map is.
abbrev pub IsFreePage : List (Option MemmapEntry) → ℕ → Type 0
IsFreePage es a = (min_usable_addr ≤ a) × (a % page_size ≡ 0) × Usable es a

pages-All :
    (P : ℕ → Type 0) (addr n : ℕ)
    → ((k : ℕ) → k < n → P (addr + k * page_size))
    → All P (pages addr n)
pages-All P addr zero f = tt
pages-All P addr (suc n) f = (
  subst P (omega arith) (f 0 (omega arith)),
  pages-All P (addr + page_size) n λ k h. subst P (omega arith) (f (suc k) (omega arith)),
)

abbrev PageOf : List (Option MemmapEntry) → ℕ → Type 0
PageOf es a = (a % page_size ≡ 0) × Usable es a

entry_pages-Usable :
    (e : Option MemmapEntry) (es : List (Option MemmapEntry))
    → All (PageOf (e ∷ es)) (entry_pages e)
entry_pages-Usable none es = tt
entry_pages-Usable (some e) es = elim (Bool-cases (e.kind == memmap_usable)) [
  | inl use_it ↦ rw use_it (
      pages-All (PageOf (some e ∷ es)) (first_page e) (whole_pages e)
        λ k h. (omega arith, inl ((==_iff _ _).0 use_it, omega arith, omega arith)))
  | inr skip ↦ rw skip tt
]

high-IsFreePage :
    (es : List (Option MemmapEntry)) (l : List ℕ) → All (PageOf es) l → All (IsFreePage es) (high l)
high-IsFreePage es [] h = tt
high-IsFreePage es (a ∷ rest) h = ground (arith, high-IsFreePage es rest h.1)

PageOf-cons :
    (e : Option MemmapEntry) (es : List (Option MemmapEntry)) (a : ℕ)
    → PageOf es a
    → PageOf (e ∷ es) a
PageOf-cons none es a h = h
PageOf-cons (some e) es a h = (h.0, inr h.1)

map_pages-Usable : (es : List (Option MemmapEntry)) → All (PageOf es) (map_pages es)
map_pages-Usable [] = tt
map_pages-Usable (e ∷ es) =
    All-append (PageOf (e ∷ es)) (entry_pages e) (map_pages es) (entry_pages-Usable e es)
      (All-map (PageOf es) (PageOf-cons e es) (map_pages es) (map_pages-Usable es))

-- For a memory map whose entries all end a page or more below 2^64 (the hypothesis `Fits`), every
-- page that booting makes free is a multiple of the page size, at 1 MiB or above, and lies wholly
-- inside a usable entry of the memory map.
pub init-IsFreePage :
    (es : List (Option MemmapEntry)) → Fits es → All (IsFreePage es) (free_list (init (some es)))
init-IsFreePage es h = rw ((init-stacks_map es h).0) (
    All-reverse (IsFreePage es) (take max_tracked_pages found) (
      All-take (IsFreePage es) max_tracked_pages found
        (high-IsFreePage es (map_pages es) (map_pages-Usable es))))
  where
    found : List ℕ
    found = high (map_pages es)
