-- ===== src/Kernel/Heap/Merge.antt =====
-- `clks_heap_merge_next`: a free block is joined to the one before it.
use cleon_os_jgz_yes_fork.Base.{
  store_self, ℕ, ◌+◌, ◌≤◌, ◌≡◌, refl, sym, subst, ◌∙◌, inl, inr, Bool, true, false, none, some,
  List, [], ◌∷◌, arith,
}
use cleon_os_jgz_yes_fork.Kernel.Heap.{
  Heap, header_size, arena_size, set_block, set_prev, merge_next,
}
use cleon_os_jgz_yes_fork.Kernel.Heap.Chain.{
  Seg, header, span, first, last, Segment, Around, Segment-store, Segment-set_prev,
  Segment-set_prev_later, mem-set_prev_later,
}

-- What no merge changes.
pub record Same (h r : Heap) : Type 0 where
  pub is_ready : r.is_ready ≡ h.is_ready
  pub start : r.head ≡ h.head
  pub used : r.used_bytes ≡ h.used_bytes
  pub allocs : r.alloc_count ≡ h.alloc_count
  pub frees : r.free_count ≡ h.free_count

pub Same-refl : (h : Heap) → Same h h
Same-refl h = record { is_ready = refl; start = refl; used = refl; allocs = refl; frees = refl }

pub merge_next-Same : (h : Heap) (at : ℕ) → Same h (merge_next h at)
unfolding merge_next
merge_next-Same h at = record {
  is_ready = ground arith;
  start = ground arith;
  used = ground arith;
  allocs = ground arith;
  frees = ground arith;
}

-- The block behind is missing or in use.
abbrev pub Busy : List Seg → Type 0
Busy [] = Unit {0}
Busy ((t, f) ∷ post) = f ≡ false

pub merge_next-Busy :
    (h : Heap) (pre : List Seg) (s : ℕ) (f : Bool) (post : List Seg)
    → Around h.mem pre s f post
    → Busy post
    → merge_next h (span pre) ≡ h
unfolding merge_next
merge_next-Busy h pre s f [] a b = ground (arith, a.here)
merge_next-Busy h pre s f ((t, g) ∷ post) a b = ground (arith, a.here, a.later)

module _ (h : Heap) (pre : List Seg) (s : ℕ) (f : Bool) (t : ℕ) (post : List Seg)
    (a : Around h.mem pre s f ((t, true) ∷ post))
    (b : span pre + header_size + s + header_size + t ≤ arena_size) where
  abbrev joined : ℕ
  joined = s + header_size + t

  abbrev end : ℕ
  end = span pre + header_size + (s + header_size + t)

  abbrev grown : Heap
  grown =
      set_block h (span pre)
        (header (s + header_size + t) f (first post end none) (last pre 0 none))

  abbrev merged : Heap
  merged = set_prev grown (first post end none) (some (span pre))

  end-eq : span pre + header_size + s + header_size + t ≡ end
  end-eq = omega arith

  merge_next-eq-merged : merge_next h (span pre) ≡ merged
  unfolding merge_next
  merge_next-eq-merged = ground (arith, a.here, a.later.0, end-eq)

  merged-Around : Around merged.mem pre joined f post
  merged-Around = record {
    earlier =
        Segment-set_prev_later grown pre post none _ _ 0 end (omega arith)
          (Segment-store h.mem pre none 0 _ (span pre) _ (inr (omega arith)) a.earlier);
    here =
        mem-set_prev_later grown post (some (span pre)) (span pre) end (omega arith)
        ∙ store_self h.mem (span pre) _;
    later = Segment-set_prev grown post _ _ end (
        Segment-store h.mem post _ end none (span pre) _ (inl (omega arith)) (
          subst (λ k. Segment h.mem (some (span pre + header_size + s)) k post none) end-eq
            a.later.1));
  }

  pub merge_next-Around : Around (merge_next h (span pre)).mem pre joined f post
  merge_next-Around =
      subst (λ r. Around r.mem pre joined f post) (sym merge_next-eq-merged) merged-Around
