-- ===== src/Kernel/Elf/Placed.antt =====
-- Where a loaded image stands, and what becomes of the heap.
use mathlib.Core.Option.{some-injective}
use cleon_os_jgz_yes_fork.Base.{
  ltb, leb, ◌==◌, if_cases, option_cases, length, take, drop, replicate, length-append,
  length-replicate, length-take, length-drop, All, All-append, u64_mod, sub64, ℕ, zero, suc, ◌+◌,
  ◌-◌, ◌≤◌, ◌<◌, ◌≡◌, refl, sym, ap, subst, ◌∙◌, ◌≢◌, true, false, ◌||◌, Option, none, some, List,
  [], ◌∷◌, ◌++◌, arith,
}
use cleon_os_jgz_yes_fork.Kernel.Heap.{Heap, block_size, kmalloc}
use cleon_os_jgz_yes_fork.Kernel.Heap.Chain.{Seg, Tiles}
use cleon_os_jgz_yes_fork.Kernel.Heap.Granted.{kmalloc-room, fill-room, kmalloc-overrun}
use cleon_os_jgz_yes_fork.Kernel.Elf.{
  Ehdr, Phdr, Segment, LoadedImage, Window, max_segments, pt_load, ehdr_of, nth_phdr, is_loaded,
  validate_from, validate, window_from, copy_in, place, place_from, load_window, load,
  entry_pointer,
}
use cleon_os_jgz_yes_fork.Kernel.Elf.Inside.{IsInside, validate_from_head, validate_parts}

-- A segment inside the block of `span` bytes at `base`.
abbrev pub Fits : ℕ → ℕ → Segment → Type 0
Fits base span s = (base ≤ s.base) × (s.base + s.memsz ≤ base + span) × (s.filesz ≤ s.memsz)

-- An image in the block of `span` bytes at `base`: the block is filled, and each segment is in it.
pub record IsPlaced (base span : ℕ) (l : LoadedImage) : Type 0 where
  pub at_base : l.image_base ≡ base
  pub has_span : l.image_size ≡ span
  pub filled : length l.memory ≡ span
  pub few : length l.segments ≤ max_segments
  pub fits : All (Fits base span) l.segments

length-copy_in :
    (memory : List ℕ) (off : ℕ) (bytes : List ℕ)
    → off + length bytes ≤ length memory
    → length (copy_in memory off bytes) ≡ length memory
unfolding copy_in
length-copy_in memory off bytes h = omega (
  arith,
  length-append (take off memory) (bytes ++ drop (off + length bytes) memory),
  length-append bytes (drop (off + length bytes) memory),
  length-take off memory,
  length-drop (off + length bytes) memory,
)

not_full : (n : ℕ) → leb max_segments n ≡ false → n + 1 ≤ max_segments
not_full n h = ground (arith, h)

window_room : (a b n : ℕ) → (ltb n a || ltb (n - a) b) ≡ false → a + b ≤ n
window_room a b n h = ground (arith, h)

place-IsPlaced :
    (image : List ℕ) (base span : ℕ) (l l' : LoadedImage) (ph : Phdr)
    → ph.p_filesz ≤ ph.p_memsz
    → IsPlaced base span l
    → place image l ph ≡ some l'
    → IsPlaced base span l'
unfolding place
place-IsPlaced image base span l l' ph h placed =
    if_cases P (leb max_segments (length l.segments)) (λ _ e. absurd (cc e))
      λ room.
        if_cases P (ltb l.image_size seg_off || ltb (l.image_size - seg_off) ph.p_memsz)
          (λ _ e. absurd (cc e))
          λ inside e. subst (IsPlaced base span) (some-injective grown l' e) (record {
            at_base = placed.at_base;
            has_span = placed.has_span;
            filled = full (window_room seg_off ph.p_memsz l.image_size inside);
            few =
                omega (
                  arith,
                  length-append l.segments (segment ∷ []),
                  not_full (length l.segments) room,
                );
            fits =
                All-append (Fits base span) l.segments (segment ∷ []) placed.fits
                  ((omega arith, ends (window_room seg_off ph.p_memsz l.image_size inside), h), tt);
          })
  where
    P : Option LoadedImage → Type 0
    P o = o ≡ some l' → IsPlaced base span l'

    seg_off : ℕ
    seg_off = sub64 ph.p_vaddr l.image_vaddr_base

    segment : Segment
    segment = record {
      base = l.image_base + seg_off;
      vaddr = ph.p_vaddr;
      memsz = ph.p_memsz;
      filesz = ph.p_filesz;
      flags = ph.p_flags;
    }

    full :
        seg_off + ph.p_memsz ≤ l.image_size
        → length (copy_in l.memory seg_off (take ph.p_filesz (drop ph.p_offset image))) ≡ span
    full i =
        length-copy_in l.memory seg_off (take ph.p_filesz (drop ph.p_offset image)) (
          omega (
            arith,
            i,
            h,
            placed.has_span,
            placed.filled,
            length-take ph.p_filesz (drop ph.p_offset image),
          ))
        ∙ placed.filled

    ends : seg_off + ph.p_memsz ≤ l.image_size → l.image_base + seg_off + ph.p_memsz ≤ base + span
    ends i = omega (arith, i, placed.at_base, placed.has_span)

    grown : LoadedImage
    grown = record l {
      memory = copy_in l.memory seg_off (take ph.p_filesz (drop ph.p_offset image));
      segments = l.segments ++ segment ∷ [];
    }

type_of : (ph : Phdr) → is_loaded ph ≡ true → ph.p_type ≡ pt_load
type_of ph h = ground (arith, h)

place_from-IsPlaced :
    (image : List ℕ) (size : ℕ) (eh : Ehdr) (base span rounds i : ℕ) (l l' : LoadedImage)
    → validate_from image size eh i rounds ≡ true
    → IsPlaced base span l
    → place_from image eh i rounds l ≡ some l'
    → IsPlaced base span l'
unfolding place_from
place_from-IsPlaced image size eh base span zero i l l' v placed =
    λ e. subst (IsPlaced base span) (some-injective l l' e) placed
place_from-IsPlaced image size eh base span (suc rounds) i l l' v placed =
    if_cases P (is_loaded ph)
      (λ loaded.
        option_cases P (place image l ph) _ _ (λ _ e. absurd (cc e))
          λ k got.
            place_from-IsPlaced image size eh base span rounds (i + 1) k l' here.1
              (place-IsPlaced image base span l k ph ((here.0 (type_of ph loaded)).0) placed got))
      λ _. place_from-IsPlaced image size eh base span rounds (i + 1) l l' here.1 placed
  where
    ph : Phdr
    ph = nth_phdr image eh i

    here : IsInside size ph × (validate_from image size eh (i + 1) rounds ≡ true)
    here = validate_from_head image size eh i rounds v

    P : Option LoadedImage → Type 0
    P o = o ≡ some l' → IsPlaced base span l'

-- What a loaded image is good for: it stands in a block of the heap that has room for it.
pub record IsUsable (h : Heap) (l : LoadedImage) : Type 0 where
  pub room : l.image_size ≤ block_size h l.image_base
  pub clean : h.overrun ≡ false
  pub placed : IsPlaced l.image_base l.image_size l
  pub entries :
      (entry p : ℕ)
      → entry_pointer l entry ≡ some p
      → (l.image_base ≤ p) × (p < l.image_base + l.image_size)

entry_pointer-inside :
    (l : LoadedImage) (entry p : ℕ)
    → entry_pointer l entry ≡ some p
    → (l.image_base ≤ p) × (p < l.image_base + l.image_size)
unfolding entry_pointer
entry_pointer-inside l entry p e = ground (arith, e)

IsPlaced-own :
    (h : Heap) (base span : ℕ) (l : LoadedImage)
    → span ≤ block_size h base
    → h.overrun ≡ false
    → IsPlaced base span l
    → IsUsable h l
IsPlaced-own h base span l room clean p = record {
  room = omega (arith, room, p.has_span, ap (block_size h) p.at_base);
  clean = clean;
  placed =
      subst (λ b. IsPlaced b l.image_size l) (sym p.at_base)
        (subst (λ n. IsPlaced base n l) (sym p.has_span) p);
  entries = entry_pointer-inside l;
}

-- The state before the first program header.
abbrev pub none_seen : Window
none_seen = record { load_count = 0; min_vaddr = 0; max_vaddr_end = 0 }

abbrev pub window_span : Option Window → ℕ
window_span none = 0
window_span (some w) = sub64 w.max_vaddr_end w.min_vaddr

-- The bytes of memory that an executable asks for, from its lowest address to its highest.
unfoldable pub memory_span : List ℕ → ℕ
unfolding window_from
memory_span image =
    window_span (window_from image (ehdr_of image) 0 (ehdr_of image).e_phnum none_seen)

-- The image before its segments are placed.
abbrev pub cleared : Ehdr → Window → ℕ → LoadedImage
cleared eh w base = record {
  entry = eh.e_entry;
  image_base = base;
  image_size = sub64 w.max_vaddr_end w.min_vaddr;
  image_vaddr_base = w.min_vaddr;
  segments = [];
  memory = replicate (sub64 w.max_vaddr_end w.min_vaddr) 0;
}

pub nonzero_span :
    (w : Window)
    → ((w.load_count == 0)
        || ltb max_segments w.load_count
        || (sub64 w.max_vaddr_end w.min_vaddr == 0))
      ≡ false
    → sub64 w.max_vaddr_end w.min_vaddr ≢ 0
nonzero_span w h e = ground (arith, h, e)

load_window-IsUsable :
    (image : List ℕ) (size : ℕ) (eh : Ehdr) (w : Window) (h : Heap) (xs : List Seg)
    (l : LoadedImage)
    → Tiles h xs
    → h.overrun ≡ false
    → sub64 w.max_vaddr_end w.min_vaddr + 15 < u64_mod
    → validate_from image size eh 0 eh.e_phnum ≡ true
    → (load_window image eh w h).0 ≡ some l
    → IsUsable (load_window image eh w h).1 l
unfolding load_window
load_window-IsUsable image size eh w h xs l t clean small v =
    if_cases P ((w.load_count == 0) || ltb max_segments w.load_count || (span == 0))
      (λ _ e. absurd (cc e))
      λ some_span.
        option_cases P (kmalloc h span).0 _ _ (λ _ e. absurd (cc e))
          λ base got.
            option_cases P (place_from image eh 0 eh.e_phnum (cleared eh w base)) _ _
              (λ _ e. absurd (cc e))
              λ k done e.
                subst (λ g. IsUsable g l)
                  (sym (
                    fill-room (kmalloc h span).1 base span
                      (room base (nonzero_span w some_span) got)))
                  (IsPlaced-own (kmalloc h span).1 base span l
                    (room base (nonzero_span w some_span) got) (kmalloc-overrun h span ∙ clean)
                    (place_from-IsPlaced image size eh base span eh.e_phnum 0 (cleared eh w base) l
                      v
                      (record {
                        at_base = refl;
                        has_span = refl;
                        filled = length-replicate span 0;
                        few = omega arith;
                        fits = tt;
                      })
                      (done ∙ e)))
  where
    span : ℕ
    span = sub64 w.max_vaddr_end w.min_vaddr

    P : Option LoadedImage × Heap → Type 0
    P r = r.0 ≡ some l → IsUsable r.1 l

    room :
        (base : ℕ)
        → span ≢ 0
        → (kmalloc h span).0 ≡ some base
        → span ≤ block_size (kmalloc h span).1 base
    room base nz got = kmalloc-room h xs span base t nz small got

-- An executable asks for less memory than 2^64 - 15 bytes, and the heap is one that blocks tile and
-- that no caller has overrun. Then, when the load succeeds, the header of the block that was
-- allocated tells a size with room for the image, and the heap is still not overrun; there are no
-- more than 16 segments, each stands with all its memory inside the image and takes no more bytes
-- from the file than it has in memory; and every entry pointer that is given out for the image points
-- into it.
pub load-IsUsable :
    (image : List ℕ) (size : ℕ) (h : Heap) (xs : List Seg) (l : LoadedImage)
    → Tiles h xs
    → h.overrun ≡ false
    → memory_span image + 15 < u64_mod
    → (load image size h).0 ≡ some l
    → IsUsable (load image size h).1 l
unfolding load memory_span
load-IsUsable image size h xs l t clean small =
    if_cases P (validate image size)
      (λ ok.
        option_cases P (window_from image eh 0 eh.e_phnum none_seen) _ _ (λ _ e. absurd (cc e))
          λ w found.
            load_window-IsUsable image size eh w h xs l t clean
              (subst (λ o. window_span o + 15 < u64_mod) found small)
              (validate_parts image size ok).3)
      λ _ e. absurd (cc e)
  where
    eh : Ehdr
    eh = ehdr_of image

    P : Option LoadedImage × Heap → Type 0
    P r = r.0 ≡ some l → IsUsable r.1 l
