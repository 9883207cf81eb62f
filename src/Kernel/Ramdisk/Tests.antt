-- ===== src/Kernel/Ramdisk/Tests.antt =====
-- The theorems about the ramdisk reader, applied to an image of one directory entry.
use cleon_os_jgz_yes_fork.Base.{
  ltb, if◌then◌else◌, length, replicate, All, u64_mod, ℕ, ◌+◌, ◌*◌, ◌<◌, ◌≡◌, refl, ◌≢◌, Bool, true,
  none, some, List, [], ◌∷◌, ◌++◌, arith,
}
use cleon_os_jgz_yes_fork.Kernel.Ramdisk.{tar_block_size, parse_octal}
use cleon_os_jgz_yes_fork.Kernel.Ramdisk.Walk.{
  RamdiskEntry, EntryOk, iterate_from, iterate_fuel, iterate,
}
use cleon_os_jgz_yes_fork.Kernel.Ramdisk.Octal.{octal_value, parse_octal-value}
use cleon_os_jgz_yes_fork.Kernel.Ramdisk.Termination.{iterate_from-iterate_fuel}
use cleon_os_jgz_yes_fork.Kernel.Ramdisk.Entries.{iterate-Inv}

-- The header of the directory `a/`.
abbrev demo_image : List ℕ
demo_image = b'a' ∷ b'/' ∷ (replicate 154 0 ++ b'5' ∷ replicate 355 0)

-- A visitor that collects the entries.
abbrev collect : RamdiskEntry → List RamdiskEntry → Bool × List RamdiskEntry
collect e seen = (true, e ∷ seen)

demo_room : length demo_image + 2 * tar_block_size < u64_mod
demo_room = omega arith

iterate_from-iterate_fuel_example :
    iterate_from collect (iterate_fuel collect demo_image) demo_image 0 [] ≢ none
iterate_from-iterate_fuel_example = iterate_from-iterate_fuel collect demo_image [] demo_room

iterate-Inv_example : All EntryOk (iterate collect (some demo_image) []).1
iterate-Inv_example =
    iterate-Inv collect (All EntryOk) (λ e seen ok all. (ok, all)) (some demo_image) [] tt

parse_octal-value_example : parse_octal ((b' ' ∷ []) ++ b'1' ∷ ((b'7' ∷ []) ++ 0 ∷ [])) ≡ (
    if ltb (octal_value (b'1' ∷ b'7' ∷ []) 0) u64_mod
    then some (octal_value (b'1' ∷ b'7' ∷ []) 0)
    else none)
parse_octal-value_example =
    parse_octal-value (b' ' ∷ []) (b'7' ∷ []) [] b'1' 0 (refl, tt) (ground arith) refl
