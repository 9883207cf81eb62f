-- ===== src/Kernel/Elf/Inside.antt =====
-- What the loader reads stands inside the image it was given.
use cleon_os_jgz_yes_fork.Base.{
  ltb, if_cases, ℕ, zero, suc, ◌+◌, ◌*◌, ◌≤◌, ◌<◌, ◌≡◌, refl, ap, subst, Bool, true, false, not,
  List, arith,
}
use cleon_os_jgz_yes_fork.Kernel.Elf.{
  Ehdr, Phdr, ehdr_of, ehdr_size, phdr_size, pt_load, nth_phdr, header_ok, range_ok, validate_from,
  validate,
}

-- A loadable segment whose bytes stand in the first `size` bytes of the image and fit its memory.
abbrev pub IsInside : ℕ → Phdr → Type 0
IsInside size ph =
    ph.p_type ≡ pt_load → (ph.p_filesz ≤ ph.p_memsz) × (ph.p_offset + ph.p_filesz ≤ size)

pub range_ok_lem : (off len total : ℕ) → range_ok off len total ≡ true → off + len ≤ total
unfolding range_ok
range_ok_lem off len total h = ground (arith, h)

pub validate_from_head :
    (image : List ℕ) (size : ℕ) (eh : Ehdr) (i rounds : ℕ)
    → validate_from image size eh i (suc rounds) ≡ true
    → IsInside size (nth_phdr image eh i) × (validate_from image size eh (i + 1) rounds ≡ true)
unfolding validate_from
validate_from_head image size eh i rounds h =
    (λ e. ground (arith, h, e, range_ok_lem ph.p_offset ph.p_filesz size), ground (arith, h))
  where
    ph : Phdr
    ph = nth_phdr image eh i

pub validate_from-IsInside :
    (image : List ℕ) (size : ℕ) (eh : Ehdr) (rounds i j : ℕ)
    → validate_from image size eh i rounds ≡ true
    → j < rounds
    → IsInside size (nth_phdr image eh (i + j))
validate_from-IsInside image size eh zero i j h lt = absurd (omega arith)
validate_from-IsInside image size eh (suc rounds) i zero h lt =
    subst (λ k. IsInside size (nth_phdr image eh k)) (omega arith)
      (validate_from_head image size eh i rounds h).0
validate_from-IsInside image size eh (suc rounds) i (suc j) h lt =
    subst (λ k. IsInside size (nth_phdr image eh k)) (omega arith)
      (validate_from-IsInside image size eh rounds (i + 1) j
        (validate_from_head image size eh i rounds h).1 (omega arith))

at_least : (a b : ℕ) → ltb a b ≡ false → b ≤ a
at_least a b h = ground (arith, h)

holds : {b : Bool} → not b ≡ false → b ≡ true
holds {b = true} h = refl
holds {b = false} h = absurd (cc h)

phentsize_of : (eh : Ehdr) → header_ok eh ≡ true → eh.e_phentsize ≡ phdr_size
unfolding header_ok
phentsize_of eh h = ground (arith, h)

module _ (image : List ℕ) (size : ℕ) where
  abbrev eh : Ehdr
  eh = ehdr_of image

  abbrev pub Parts : Type 0
  Parts =
      (ehdr_size ≤ size)
      × (eh.e_phentsize ≡ phdr_size)
      × (eh.e_phoff + eh.e_phnum * eh.e_phentsize ≤ size)
      × (validate_from image size eh 0 eh.e_phnum ≡ true)

  -- What acceptance tells of the tests that were made.
  pub validate_parts : validate image size ≡ true → Parts
  unfolding validate
  validate_parts =
      if_cases P (ltb size ehdr_size) (λ _ e. absurd (cc e))
        λ long.
          if_cases P (not (header_ok eh)) (λ _ e. absurd (cc e))
            λ ok.
              if_cases P (range_ok eh.e_phoff (eh.e_phnum * eh.e_phentsize) size)
                (λ table e. (
                  at_least size ehdr_size long,
                  phentsize_of eh (holds ok),
                  range_ok_lem eh.e_phoff (eh.e_phnum * eh.e_phentsize) size table,
                  e,
                ))
                λ _ e. absurd (cc e)
    where
      P : Bool → Type 0
      P b = b ≡ true → Parts

  -- Nothing outside an image of `size` bytes is read from one that is accepted: the file header and
  -- every entry of the program header table end inside it, and for every loadable segment the bytes in
  -- the file end inside it and are no more than the segment has in memory.
  pub validate-IsInside :
      validate image size ≡ true
      → (j : ℕ) → j < eh.e_phnum
      → (ehdr_size ≤ size)
        × (eh.e_phoff + (j + 1) * phdr_size ≤ size)
        × IsInside size (nth_phdr image eh j)
  validate-IsInside h j lt = (
    parts.0,
    table_end,
    subst (λ k. IsInside size (nth_phdr image eh k)) (omega arith)
        (validate_from-IsInside image size eh eh.e_phnum 0 j parts.3 lt),
  )
    where
      parts : Parts
      parts = validate_parts h

      table_size : eh.e_phnum * eh.e_phentsize ≡ eh.e_phnum * phdr_size
      table_size = ap (λ k. eh.e_phnum * k) parts.1

      table_end : eh.e_phoff + (j + 1) * phdr_size ≤ size
      table_end = omega (arith, parts.2, table_size, lt)
