-- ===== src/Kernel/Heap/Robust.antt =====
-- What a second `clks_kfree` of the same pointer does.
use cleon_os_jgz_yes_fork.Base.{
  ◌==◌, if_cases, option_cases, sub64, ℕ, ◌+◌, ◌≡◌, refl, sym, ap, subst, ◌∙◌, ◌⊎◌, inl, inr, true,
  false, not, some, List, ◌∷◌, ◌++◌, arith,
}
use cleon_os_jgz_yes_fork.Kernel.Heap.Chain.{Seg, span}
use cleon_os_jgz_yes_fork.Kernel.Heap.Free.{coalesce}
use cleon_os_jgz_yes_fork.Kernel.Heap.Invariant.{IsValid, kfree-IsValid}
use cleon_os_jgz_yes_fork.Kernel.Heap.{
  Heap, header_size, heap_magic, merge_next, merge_prev, release, kfree,
}

-- The flags of all headers are as they were.
record SameFlags (h r : Heap) (a : ℕ) : Type 0 where
  free : (r.mem a).is_free ≡ (h.mem a).is_free

merge_next-SameFlags : (h : Heap) (at a : ℕ) → SameFlags h (merge_next h at) a
unfolding merge_next
merge_next-SameFlags h at a = record { free = ground arith }

merge_prev-SameFlags : (h : Heap) (at a : ℕ) → SameFlags h (merge_prev h at) a
unfolding merge_prev
merge_prev-SameFlags h at a =
    option_cases (λ r. SameFlags h r a) (h.mem at).prev _ _ (λ _. same)
      λ p _.
        if_cases (λ r. SameFlags h r a) (h.mem p).is_free (λ _. merge_next-SameFlags h p a)
          λ _. same
  where
    same : SameFlags h h a
    same = record { free = refl }

kfree-settled :
    (h : Heap) (ptr : ℕ)
    → (kfree h (some ptr) ≡ h) ⊎ (((kfree h (some ptr)).mem (sub64 ptr header_size)).is_free ≡ true)
unfolding kfree release
kfree-settled h ptr =
    if_cases P (not h.is_ready) (λ _. inl refl)
      λ _.
        if_cases P ((h.mem at).magic == heap_magic)
          (λ _. if_cases P (h.mem at).is_free (λ _. inl refl) λ _. inr done) λ _. inl refl
  where
    at : ℕ
    at = sub64 ptr header_size

    P : Heap → Type 0
    P r = (r ≡ h) ⊎ ((r.mem at).is_free ≡ true)

    released : ((release h at).mem at).is_free ≡ true
    released = ground arith

    done : ((merge_prev (merge_next (release h at) at) at).mem at).is_free ≡ true
    done =
        (merge_prev-SameFlags (merge_next (release h at) at) at at).free
        ∙ (merge_next-SameFlags (release h at) at at).free
        ∙ released

kfree-free :
    (h : Heap) (ptr : ℕ) → (h.mem (sub64 ptr header_size)).is_free ≡ true → kfree h (some ptr) ≡ h
unfolding kfree
kfree-free h ptr e = ground arith

-- A second free of the same pointer finds the block free, or refuses it as the first one did.
kfree-again : (h : Heap) (ptr : ℕ) → kfree (kfree h (some ptr)) (some ptr) ≡ kfree h (some ptr)
kfree-again h ptr = elim (kfree-settled h ptr) [
  | inl same ↦ ap (λ r. kfree r (some ptr)) same
  | inr free ↦ kfree-free (kfree h (some ptr)) ptr free
]

-- On a valid heap, freeing the pointer to a block in use twice in a row is the same as freeing it
-- once, although the first free may have joined the block with its neighbours: the heap stays valid,
-- with the blocks that one free leaves.
pub kfree_twice :
    (h : Heap) (pre : List Seg) (s : ℕ) (post : List Seg)
    → IsValid h (pre ++ (s, false) ∷ post)
    → let p = some (span pre + header_size) in
      (kfree (kfree h p) p ≡ kfree h p) × IsValid (kfree (kfree h p) p) (coalesce pre s post)
kfree_twice h pre s post v =
    let again = kfree-again h (span pre + header_size) in
    (again, subst (λ r. IsValid r (coalesce pre s post)) (sym again) (kfree-IsValid h pre s post v))
