-- ===== src/Kernel/Heap/Take.antt =====
-- Handing out a block: the split of the block and the writes behind it, on the list of blocks.
use native.Mathlib.Decide.{dec_lt}
use cleon_os_jgz_yes_fork.Base.{
  ltb, leb, if◌then◌else◌, lt→ltb, u64_mod, add64, store, store_self, ℕ, ◌+◌, ◌-◌, ◌≤◌, ◌<◌, ◌≡◌,
  refl, sym, subst, ◌∙◌, inl, inr, Bool, true, false, ◌&&◌, Option, none, some, List, [], ◌∷◌, ◌++◌,
  arith,
}
use cleon_os_jgz_yes_fork.Kernel.Heap.{
  Block, Heap, heap_align, header_size, arena_size, set_block, set_prev, split_block, take_block,
}
use cleon_os_jgz_yes_fork.Kernel.Heap.Chain.{
  Seg, header, span, first, last, Segment, Around, Tiles, Segment-store, Segment-set_prev,
  Segment-set_prev_later, mem-set_prev_later, Segment-of_Around, span-append,
}

-- The bytes that a block of `s` bytes yields for a request of `n`.
abbrev pub granted : ℕ → ℕ → ℕ
granted n s = if ltb s (n + header_size + heap_align) then s else n

-- The blocks that stand where a free block of `s` bytes stood, once `n` bytes are taken from it.
abbrev pub carve : ℕ → ℕ → List Seg
carve n s =
    if ltb s (n + header_size + heap_align)
    then (s, false) ∷ []
    else (n, false) ∷ (s - n - header_size, true) ∷ []

-- A block that cannot serve `n` bytes.
abbrev pub Unfit : ℕ → Seg → Type 0
Unfit n (s, f) = (f && leb n s) ≡ false

pub carve_small :
    (n s : ℕ) (post : List Seg)
    → s < n + header_size + heap_align
    → (carve n s ++ post ≡ (s, false) ∷ post) × (granted n s ≡ s)
carve_small n s post lt =
    let e : ltb s (n + header_size + heap_align) ≡ true = lt→ltb _ _ lt in rw e (refl, refl)

pub carve_large :
    (n s : ℕ) (post : List Seg)
    → n + header_size + heap_align ≤ s
    → (carve n s ++ post ≡ (n, false) ∷ (s - n - header_size, true) ∷ post) × (granted n s ≡ n)
carve_large n s post le =
    let e : ltb s (n + header_size + heap_align) ≡ false = ground arith in rw e (refl, refl)

-- What handing out a block does.
pub record Taken (h : Heap) (pre : List Seg) (n s : ℕ) (post : List Seg) (r : Option ℕ × Heap)
    : Type 0 where
  pub pointer : r.0 ≡ some (span pre + header_size)
  pub tiles : Tiles r.1 (pre ++ (carve n s ++ post))
  pub used : r.1.used_bytes ≡ add64 h.used_bytes (granted n s)
  pub counted : r.1.alloc_count ≡ add64 h.alloc_count 1
  pub frees : r.1.free_count ≡ h.free_count

-- Too small to be split: the whole block goes.
split_block-whole :
    (h : Heap) (at n : ℕ)
    → n + 56 < u64_mod
    → (h.mem at).size < n + header_size + heap_align
    → split_block h at n ≡ h
unfolding split_block
split_block-whole h at n b lt = ground arith

module _ (h : Heap) (pre : List Seg) (n s : ℕ) (post : List Seg) where
  abbrev at : ℕ
  at = span pre

  abbrev new_addr : ℕ
  new_addr = span pre + header_size + n

  abbrev beyond : Option ℕ
  beyond = first post (span pre + header_size + s) none

  -- The three writes of a split, with the values that they write.
  abbrev added : Heap
  added = set_block h new_addr (header (s - n - header_size) true beyond (some at))

  abbrev linked : Heap
  linked = set_prev added beyond (some new_addr)

  abbrev cut : Heap
  cut = set_block linked at (header n true (some new_addr) (last pre 0 none))

-- The header writes of a split.
record Split (m : ℕ → Block) (pre : List Seg) (n s : ℕ) (post : List Seg) : Type 0 where
  earlier : Segment m none 0 pre (some (span pre))
  here : m (span pre) ≡ header n true (some (span pre + header_size + n)) (last pre 0 none)
  tail :
      Segment m
        (some (span pre))
        (span pre + header_size + n)
        ((s - n - header_size, true) ∷ post)
        none

module _ (h : Heap) (pre : List Seg) (n s : ℕ) (post : List Seg) (a : Around h.mem pre s true post)
    (b : span pre + header_size + s ≤ arena_size) (fits : n + header_size + heap_align ≤ s) where
  split_block-eq-cut : split_block h (span pre) n ≡ cut h pre n s post
  unfolding split_block
  split_block-eq-cut = ground (
    arith,
    a.here,
    mem-set_prev_later (added h pre n s post) post (some (new_addr h pre n s post)) (span pre)
        (span pre + header_size + s),
  )

  cut-Split : Split (cut h pre n s post).mem pre n s post
  cut-Split = record {
    earlier = Segment-store _ pre none 0 _ (span pre) _ (inr (omega arith)) (
        Segment-set_prev_later _ pre post none _ _ 0 _ (omega arith)
          (Segment-store h.mem pre none 0 _ _ _ (inr (omega arith)) a.earlier));
    here = store_self (linked h pre n s post).mem (span pre) _;
    tail = (
      ground (
        arith,
        mem-set_prev_later (added h pre n s post) post (some (new_addr h pre n s post))
            (new_addr h pre n s post) (span pre + header_size + s),
      ),
      subst (λ k. Segment (cut h pre n s post).mem (some (new_addr h pre n s post)) k post none)
          (omega arith)
          (Segment-store (linked h pre n s post).mem post _ (span pre + header_size + s) none
            (span pre) _ (inl (omega arith))
            (Segment-set_prev (added h pre n s post) post _ _ (span pre + header_size + s) (
              Segment-store h.mem post _ (span pre + header_size + s) none _ _ (inl (omega arith))
                a.later))),
    );
  }

-- The header of the block that is handed out, marked as taken, between its neighbours.
taken-Segment :
    (m : ℕ → Block) (pre : List Seg) (s : ℕ) (f : Bool) (post : List Seg)
    → Around m pre s f post
    → Segment
        (store m (span pre) (record (m (span pre)) { is_free = false }))
        none
        0
        (pre ++ (s, false) ∷ post)
        none
taken-Segment m pre s f post a = Segment-of_Around _ pre s false post (record {
  earlier = Segment-store m pre none 0 _ (span pre) _ (inr (omega arith)) a.earlier;
  here = ground (arith, a.here);
  later =
      Segment-store m post _ (span pre + header_size + s) none (span pre) _ (inl (omega arith))
        a.later;
})

-- `take_block` behind the split.
abbrev hand_out : Heap → ℕ → Option ℕ × Heap
hand_out h at = (
  some (at + header_size),
  record (set_block h at (record (h.mem at) { is_free = false })) {
    used_bytes = add64 h.used_bytes (h.mem at).size;
    alloc_count = add64 h.alloc_count 1;
  },
)

-- The state between the split and the rest: the counters are those of before.
record Ready (h sp : Heap) : Type 0 where
  is_ready : sp.is_ready ≡ true
  start : sp.head ≡ some 0
  used : sp.used_bytes ≡ h.used_bytes
  allocs : sp.alloc_count ≡ h.alloc_count
  frees : sp.free_count ≡ h.free_count

pub first-zero : (xs : List Seg) (x : Seg) (ys : List Seg) → first (xs ++ x ∷ ys) 0 none ≡ some 0
first-zero [] x ys = refl
first-zero (y ∷ xs) x ys = refl

hand_out-Taken :
    (h sp : Heap) (pre : List Seg) (n s g : ℕ) (post post' : List Seg)
    → Ready h sp
    → Around sp.mem pre g true post'
    → carve n s ++ post ≡ (g, false) ∷ post'
    → granted n s ≡ g
    → span pre + header_size + g + span post' ≡ arena_size
    → Taken h pre n s post (hand_out sp (span pre))
hand_out-Taken h sp pre n s g post post' r a e eg b = record {
  pointer = refl;
  tiles = record {
    ready = r.is_ready;
    start =
        subst (λ l. sp.head ≡ first (pre ++ l) 0 none) (sym e)
          (r.start ∙ sym (first-zero pre (g, false) post'));
    blocks =
        subst (λ l. Segment (hand_out sp (span pre)).1.mem none 0 (pre ++ l) none) (sym e)
          (taken-Segment sp.mem pre g true post' a);
    full =
        subst (λ l. span (pre ++ l) ≡ arena_size) (sym e)
          (omega (arith, span-append pre ((g, false) ∷ post')));
  };
  used = ground (arith, r.used, a.here);
  counted = ground (arith, r.allocs);
  frees = r.frees;
}

set_prev-Ready : (h sp : Heap) (p v : Option ℕ) → Ready h sp → Ready h (set_prev sp p v)
set_prev-Ready h sp none v r = r
set_prev-Ready h sp (some p) v r = record {
  is_ready = r.is_ready;
  start = r.start;
  used = r.used;
  allocs = r.allocs;
  frees = r.frees;
}

module _ (h : Heap) (pre : List Seg) (n s : ℕ) (post : List Seg) (ready : h.is_ready ≡ true)
    (start : h.head ≡ some 0) (a : Around h.mem pre s true post)
    (b : span pre + header_size + s + span post ≡ arena_size) (fits : n ≤ s) where
  same-Ready : Ready h h
  same-Ready = record { is_ready = ready; start = start; used = refl; allocs = refl; frees = refl }

  added-Ready : Ready h (added h pre n s post)
  added-Ready = record { is_ready = ready; start = start; used = refl; allocs = refl; frees = refl }

  cut-Ready : Ready h (cut h pre n s post)
  cut-Ready =
      let r =
        set_prev-Ready h (added h pre n s post) (beyond h pre n s post)
          (some (new_addr h pre n s post)) added-Ready in
      record {
        is_ready = r.is_ready;
        start = r.start;
        used = r.used;
        allocs = r.allocs;
        frees = r.frees;
      }

  take_whole : s < n + header_size + heap_align → Taken h pre n s post (take_block h (span pre) n)
  unfolding take_block
  take_whole small =
      let e : split_block h (span pre) n ≡ h =
        split_block-whole h (span pre) n (omega arith) (rw a.here small) in
      subst (λ sp. Taken h pre n s post (hand_out sp (span pre))) (sym e)
        (hand_out-Taken h h pre n s s post post same-Ready a (carve_small n s post small).0
          (carve_small n s post small).1 b)

  take_cut : n + header_size + heap_align ≤ s → Taken h pre n s post (take_block h (span pre) n)
  unfolding take_block
  take_cut large =
      let e = split_block-eq-cut h pre n s post a (omega arith) large in
      let parts = cut-Split h pre n s post a (omega arith) large in
      subst (λ sp. Taken h pre n s post (hand_out sp (span pre))) (sym e)
        (hand_out-Taken h (cut h pre n s post) pre n s n post ((s - n - header_size, true) ∷ post)
          cut-Ready (record { earlier = parts.earlier; here = parts.here; later = parts.tail })
          (carve_large n s post large).0 (carve_large n s post large).1 (omega arith))

  pub take_block-Taken : Taken h pre n s post (take_block h (span pre) n)
  take_block-Taken = elim (dec_lt s (n + header_size + heap_align)) [
    | yes small ↦ take_whole small
    | no large ↦ take_cut (omega arith)
  ]
