-- ===== src/Kernel/Ramdisk/Entries.antt =====
-- What the walk over the image hands to the visitor: only entries that lie inside the image.
use cleon_os_jgz_yes_fork.Base.{
  ltb, leb, ◌==◌, if_cases, option_cases, length, take, drop, length-drop, add64, align_up, ℕ, zero,
  suc, ◌-◌, ◌≤◌, ◌<◌, ◌≡◌, refl, subst, Bool, true, false, ◌||◌, Option, none, some, List, [], ◌∷◌,
  arith,
}
use cleon_os_jgz_yes_fork.Kernel.Path.{path_max}
use cleon_os_jgz_yes_fork.Kernel.Ramdisk.{
  tar_block_size, tar_size, tar_typeflag, is_zero_block, parse_octal, build_path, strip_back,
  strip_front, raw_path,
}
use cleon_os_jgz_yes_fork.Kernel.Ramdisk.Walk.{
  RamdiskEntry, EntryOk, dir_entry, file_entry, entry_of, emit, iterate_from, iterate_fuel, iterate,
}

length-strip_back : (cs : List ℕ) → length (strip_back cs) ≤ length cs
unfolding strip_back
length-strip_back [] = omega arith
length-strip_back (c ∷ cs) = ground (arith, length-strip_back cs)

-- A path that is built is not empty and fits its buffer with its terminator.
pub build_path-fits :
    (hdr : List ℕ) (size : ℕ) (p : List ℕ)
    → build_path hdr size ≡ some p
    → (0 < length p) × (length p < size)
unfolding build_path
build_path-fits hdr size p =
    if_cases P (size == 0) (λ _ e. absurd (cc e))
      λ _.
        option_cases P (raw_path hdr) _ _ (λ _ e. absurd (cc e))
          λ raw _.
            if_cases P (ltb (length (strip_front raw)) size)
              (λ lt.
                let shorter = length-strip_back (strip_front raw) in
                cases (strip_back (strip_front raw)) (ground arith))
              λ _ e. absurd (cc e)
  where
    P : Option (List ℕ) → Type 0
    P r = r ≡ some p → (0 < length p) × (length p < size)

    cases :
        (cs : List ℕ)
        → length cs < size
        → P (elim cs as (λ _. Option (List ℕ)) [ [] ↦ none | d ∷ ds ↦ some (d ∷ ds) ])
    cases [] lt e = absurd (cc e)
    cases (d ∷ ds) lt e = ground arith

entry_of-EntryOk :
    (hdr payload : List ℕ) (n : ℕ) (e : RamdiskEntry)
    → n ≤ length payload
    → entry_of hdr payload n ≡ some e
    → EntryOk e
unfolding entry_of
entry_of-EntryOk hdr payload n e le =
    option_cases P (build_path hdr path_max) _ _ (λ _ q. absurd (cc q))
      λ path b.
        let fits = build_path-fits hdr path_max path b in
        if_cases P (tar_typeflag hdr == b'5')
          (λ _ q. subst EntryOk {x = dir_entry path} (cc q) fits)
          λ _.
            if_cases P ((tar_typeflag hdr == 0) || (tar_typeflag hdr == b'0'))
              (λ _ q. subst EntryOk {x = file_entry path payload n} (cc q) (fits.0, fits.1, le))
              λ _ q. absurd (cc q)
  where
    P : Option RamdiskEntry → Type 0
    P r = r ≡ some e → EntryOk e

module _ {ℓ κ} {S : Type ℓ} (visit : RamdiskEntry → S → Bool × S) (Inv : S → Type κ)
    (step : (e : RamdiskEntry) (s : S) → EntryOk e → Inv s → Inv (visit e s).1) where
  emit-Inv :
      (o : Option RamdiskEntry) (s : S)
      → ((e : RamdiskEntry) → o ≡ some e → EntryOk e)
      → Inv s
      → Inv (emit visit o s).1
  emit-Inv none s h i = i
  emit-Inv (some e) s h i = step e s (h e refl) i

  iterate_from-Inv :
      (fuel : ℕ) (bytes : List ℕ) (offset : ℕ) (s : S)
      → Inv s
      → (r : Bool × S) → iterate_from visit fuel bytes offset s ≡ some r
      → Inv r.1
  unfolding iterate_from
  iterate_from-Inv zero bytes offset s i r = λ q. absurd (cc q)
  iterate_from-Inv (suc fuel) bytes offset s i r =
      if_cases P (leb (add64 offset tar_block_size) (length bytes))
        (λ fits.
          if_cases P (is_zero_block hdr) (λ _. done true s i)
            λ _.
              option_cases P (parse_octal (tar_size hdr)) _ _ (λ _. done false s i)
                λ n _.
                  if_cases P (ltb (length bytes) payload || ltb (length bytes - payload) n)
                    (λ _. done false s i)
                    λ inside.
                      let len = length-drop payload bytes in
                      let ok = entry_of-EntryOk hdr (drop payload bytes) n in
                      let after =
                        emit-Inv (entry_of hdr (drop payload bytes) n) s (λ e. ok e (ground arith))
                          i in
                      if_cases P (go n).0
                        (λ _.
                          if_cases P (ltb (add64 payload (align_up n tar_block_size)) payload)
                            (λ _. done false (go n).1 after)
                            λ _.
                              iterate_from-Inv fuel bytes
                                (add64 payload (align_up n tar_block_size)) (go n).1 after r)
                        λ _. done false (go n).1 after)
        λ _. done true s i
    where
      P : Option (Bool × S) → Type (ℓ ⊔ κ)
      P o = o ≡ some r → Inv r.1

      done : (b : Bool) (s' : S) → Inv s' → P (some (b, s'))
      done b s' w q = subst (λ (x : Bool × S). Inv x.1) {x = (b, s')} {y = r} (cc q) w

      hdr : List ℕ
      hdr = take tar_block_size (drop offset bytes)

      payload : ℕ
      payload = add64 offset tar_block_size

      go : ℕ → Bool × S
      go n = emit visit (entry_of hdr (drop payload bytes) n) s

  -- A property of the visitor's state that it keeps on every entry whose file lies inside the image
  -- and whose path is not empty and fits its buffer, holds after the walk over any bytes at all,
  -- also when the walk fails: the visitor sees no other entries.
  pub iterate-Inv : (image : Option (List ℕ)) (s : S) → Inv s → Inv (iterate visit image s).1
  unfolding iterate
  iterate-Inv none s i = i
  iterate-Inv (some bytes) s i =
      option_cases P (iterate_from visit (iterate_fuel visit bytes) bytes 0 s) _ _ (λ _. i)
        λ r e. iterate_from-Inv (iterate_fuel visit bytes) bytes 0 s i r e
    where
      P : Bool × S → Type κ
      P r = Inv r.1
