-- ===== src/Kernel/Elf/Restores.antt =====
-- What the loader does to the heap.
use mathlib.Core.Option.{some-injective}
use cleon_os_jgz_yes_fork.Base.{
  ltb, ◌==◌, if_cases, option_cases, u64_mod, sub64, ℕ, zero, suc, ◌+◌, ◌<◌, ◌≡◌, refl, sym, ap,
  subst, ◌∙◌, ◌≢◌, inl, inr, Bool, ◌||◌, Option, none, some, List, arith,
}
use cleon_os_jgz_yes_fork.Kernel.Heap.{Heap, kmalloc, kfree}
use cleon_os_jgz_yes_fork.Kernel.Heap.Chain.{Seg}
use cleon_os_jgz_yes_fork.Kernel.Heap.Malloc.{Outcome, kmalloc-Outcome}
use cleon_os_jgz_yes_fork.Kernel.Heap.Invariant.{IsValid, kfree-kmalloc}
use cleon_os_jgz_yes_fork.Kernel.Heap.Granted.{
  kmalloc-room, fill-room, kmalloc-overrun, kfree-overrun,
}
use cleon_os_jgz_yes_fork.Kernel.Elf.Placed.{
  none_seen, window_span, memory_span, cleared, nonzero_span,
}
use cleon_os_jgz_yes_fork.Kernel.Elf.{
  Ehdr, Phdr, LoadedImage, is_loaded, nth_phdr, place, Window, max_segments, ehdr_of, validate,
  window_from, place_from, load_window, load, unload,
}

-- The blocks `xs` are in order, and the heap is overrun only if `over` says that it was before.
abbrev pub Holds : List Seg → Bool → Heap → Type 0
Holds xs over h = IsValid h xs × (h.overrun ≡ over)

-- What a load left in the heap: nothing when it failed, and otherwise what an unload gives back.
abbrev pub Restores : List Seg → Bool → Option LoadedImage × Heap → Type 0
Restores xs over (none, h) = Holds xs over h
Restores xs over (some l, h) = Holds xs over (unload l h)

kmalloc-none :
    (h : Heap) (xs : List Seg) (size : ℕ)
    → IsValid h xs
    → size ≢ 0
    → (kmalloc h size).0 ≡ none
    → IsValid (kmalloc h size).1 xs
kmalloc-none h xs size v nz e = cases (kmalloc-Outcome h xs size v.tiles nz) e
  where
    cases : {r : Option ℕ × Heap} {n : ℕ} → Outcome h xs n r → r.0 ≡ none → IsValid r.1 xs
    cases (inl (u, same)) got = subst (λ (r : Option ℕ × Heap). IsValid r.1 xs) (sym same) v
    cases (inr (pre, s, post, split, u, le, t)) got = absurd (cc (got, t.pointer))

place-base :
    (image : List ℕ) (l k : LoadedImage) (ph : Phdr)
    → place image l ph ≡ some k
    → k.image_base ≡ l.image_base
unfolding place
place-base image l k ph e = ground (arith, e)

place_from-base :
    (image : List ℕ) (eh : Ehdr) (rounds i : ℕ) (l l' : LoadedImage)
    → place_from image eh i rounds l ≡ some l'
    → l'.image_base ≡ l.image_base
unfolding place_from
place_from-base image eh zero i l l' =
    λ e. ap (λ (k : LoadedImage). k.image_base) (sym (some-injective l l' e))
place_from-base image eh (suc rounds) i l l' =
    if_cases P (is_loaded ph)
      (λ _.
        option_cases P (place image l ph) _ _ (λ _ e. absurd (cc e))
          λ k got e. place_from-base image eh rounds (i + 1) k l' e ∙ place-base image l k ph got)
      λ _. place_from-base image eh rounds (i + 1) l l'
  where
    ph : Phdr
    ph = nth_phdr image eh i

    P : Option LoadedImage → Type 0
    P o = o ≡ some l' → l'.image_base ≡ l.image_base

freed :
    (h : Heap) (xs : List Seg) (span base : ℕ)
    → IsValid h xs
    → span ≢ 0
    → (kmalloc h span).0 ≡ some base
    → Holds xs h.overrun (kfree (kmalloc h span).1 (some base))
freed h xs span base v nz got = (
  kfree-kmalloc h xs span base v nz got,
  kfree-overrun (kmalloc h span).1 (some base) ∙ kmalloc-overrun h span,
)

load_window-Restores :
    (image : List ℕ) (eh : Ehdr) (w : Window) (h : Heap) (xs : List Seg)
    → IsValid h xs
    → sub64 w.max_vaddr_end w.min_vaddr + 15 < u64_mod
    → Restores xs h.overrun (load_window image eh w h)
unfolding load_window unload
load_window-Restores image eh w h xs v small =
    if_cases P ((w.load_count == 0) || ltb max_segments w.load_count || (span == 0))
      (λ _. (v, refl))
      λ some_span.
        option_cases P (kmalloc h span).0 _ _
          (λ got. (kmalloc-none h xs span v (nonzero_span w some_span) got, kmalloc-overrun h span))
          λ base got.
            subst (Q base)
              (sym (
                fill-room (kmalloc h span).1 base span
                  (kmalloc-room h xs span base v.tiles (nonzero_span w some_span) small got)))
              (option_cases P (place_from image eh 0 eh.e_phnum (cleared eh w base)) _ _
                (λ _. freed h xs span base v (nonzero_span w some_span) got)
                λ l placed.
                  subst (λ b. Holds xs h.overrun (kfree (kmalloc h span).1 (some b)))
                    (sym (place_from-base image eh eh.e_phnum 0 (cleared eh w base) l placed))
                    (freed h xs span base v (nonzero_span w some_span) got))
  where
    span : ℕ
    span = sub64 w.max_vaddr_end w.min_vaddr

    P : Option LoadedImage × Heap → Type 0
    P = Restores xs h.overrun

    Q : ℕ → Heap → Type 0
    Q base g =
        P
          (elim (place_from image eh 0 eh.e_phnum (cleared eh w base))
            as (λ _. Option LoadedImage × Heap) [
              | none ↦ (none, kfree g (some base))
              | some l ↦ (some l, g)
            ])

-- On a valid heap, for any file that asks for less memory than 2^64 - 15 bytes: a load that fails
-- leaves the same blocks in use as before, also when it fails after the memory was allocated, a load
-- that succeeds is undone by an unload, and neither overruns a block.
pub load-Restores :
    (image : List ℕ) (size : ℕ) (h : Heap) (xs : List Seg)
    → IsValid h xs
    → memory_span image + 15 < u64_mod
    → Restores xs h.overrun (load image size h)
unfolding load memory_span
load-Restores image size h xs v small =
    if_cases P (validate image size)
      (λ _.
        option_cases P (window_from image eh 0 eh.e_phnum none_seen) _ _ (λ _. (v, refl))
          λ w found.
            load_window-Restores image eh w h xs v
              (subst (λ o. window_span o + 15 < u64_mod) found small))
      λ _. (v, refl)
  where
    eh : Ehdr
    eh = ehdr_of image

    P : Option LoadedImage × Heap → Type 0
    P = Restores xs h.overrun
