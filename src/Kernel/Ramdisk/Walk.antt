-- ===== src/Kernel/Ramdisk/Walk.antt =====
-- `clks_ramdisk_iterate` of clks/kernel/ramdisk.c, for a visitor over any state.
use cleon_os_jgz_yes_fork.Base.{
  ltb, leb, ◌==◌, if◌then◌else◌, length, take, drop, add64, align_up, ℕ, zero, suc, ◌-◌, ◌/◌, ◌≤◌,
  ◌<◌, Bool, true, false, ◌||◌, Option, none, some, List,
}
use cleon_os_jgz_yes_fork.Kernel.Path.{path_max}
use cleon_os_jgz_yes_fork.Kernel.Ramdisk.{
  tar_block_size, tar_size, tar_typeflag, is_zero_block, parse_octal, build_path,
}

-- `struct clks_ramdisk_entry`: a directory, or a file with what stands at its data pointer, to the
-- end of the image, and its size.
pub data RamdiskEntry : Type 0 where
  dir_entry : List ℕ → RamdiskEntry
  file_entry : List ℕ → List ℕ → ℕ → RamdiskEntry

-- The entry that a header yields, if it is a directory or a plain file with a usable name.
unfoldable pub entry_of : List ℕ → List ℕ → ℕ → Option RamdiskEntry
entry_of hdr payload file_size = elim (build_path hdr path_max) [
  | none ↦ none
  | some path ↦
      (if tar_typeflag hdr == b'5'
        then some (dir_entry path)
        else (if (tar_typeflag hdr == 0) || (tar_typeflag hdr == b'0')
            then some (file_entry path payload file_size)
            else none))
]

module _ {ℓ} {S : Type ℓ} (visit : RamdiskEntry → S → Bool × S) where
  -- `if (emit) if (iter_fn(&entry, ctx) == CLKS_FALSE) return CLKS_FALSE`
  abbrev pub emit : Option RamdiskEntry → S → Bool × S
  emit none s = (true, s)
  emit (some e) s = visit e s

  -- The loop, on fuel, from `offset` on; `none` is out of fuel.
  unfoldable pub iterate_from : ℕ → List ℕ → ℕ → S → Option (Bool × S)
  unfolding entry_of
  iterate_from zero bytes offset s = none
  iterate_from (suc fuel) bytes offset s =
      let image_size = length bytes in
      let hdr = take tar_block_size (drop offset bytes) in
      let payload_offset = add64 offset tar_block_size in
      if leb (add64 offset tar_block_size) image_size
      then (if is_zero_block hdr then some (true, s) else elim (parse_octal (tar_size hdr)) [
        | none ↦ some (false, s)
        | some file_size ↦
            (let (go_on, s') = emit (entry_of hdr (drop payload_offset bytes) file_size) s in
              let aligned_size = align_up file_size tar_block_size in
              let rest = iterate_from fuel bytes (add64 payload_offset aligned_size) s' in
              if ltb image_size payload_offset || ltb (image_size - payload_offset) file_size
              then some (false, s)
              else (if go_on
                  then (if ltb (add64 payload_offset aligned_size) payload_offset
                      then some (false, s')
                      else rest)
                  else some (false, s')))
      ])
      else some (true, s)

  -- Each round passes a header.
  abbrev pub iterate_fuel : List ℕ → ℕ
  iterate_fuel bytes = suc (length bytes / tar_block_size)

  -- `clks_ramdisk_iterate`; an image that is `none` is NULL.
  unfoldable pub iterate : Option (List ℕ) → S → Bool × S
  unfolding iterate_from
  iterate none s = (false, s)
  iterate (some bytes) s = elim (iterate_from (iterate_fuel bytes) bytes 0 s) [
    | none ↦ (false, s)
    | some r ↦ r
  ]

-- What holds of every entry that is visited: the file's bytes lie inside the image, and the path
-- is not empty and fits its buffer.
abbrev pub EntryOk : RamdiskEntry → Type 0
EntryOk (dir_entry path) = (0 < length path) × (length path < path_max)
EntryOk (file_entry path payload size) =
    (0 < length path) × (length path < path_max) × (size ≤ length payload)
