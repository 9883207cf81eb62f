-- ===== src/Kernel/Ramdisk.antt =====
-- The reader of the ramdisk image, clks/kernel/ramdisk.c: a tar archive of 512-byte blocks. The
-- image is the list of its bytes, so its size is their number.
pub mod Walk
pub mod Octal
pub mod Termination
pub mod Entries
mod Tests
use cleon_os_jgz_yes_fork.Base.{
  ltb, leb, ◌==◌, if◌then◌else◌, length, get_or, take, drop, u64_mod, add64, ℕ, ◌+◌, ◌-◌, ◌*◌, ◌/◌,
  ◌%◌, Bool, true, false, ◌&&◌, ◌||◌, Option, none, some, List, [], ◌∷◌, ◌++◌,
}
use cleon_os_jgz_yes_fork.Kernel.Path.{path_max, slash}

-- CLKS_TAR_BLOCK_SIZE
abbrev pub tar_block_size : ℕ
tar_block_size = 512

-- A field of `struct clks_tar_header`: the offset and the size.
abbrev pub field : List ℕ → ℕ → ℕ → List ℕ
field hdr offset size = take size (drop offset hdr)

abbrev pub tar_name : List ℕ → List ℕ
tar_name hdr = field hdr 0 100

abbrev pub tar_size : List ℕ → List ℕ
tar_size hdr = field hdr 124 12

abbrev pub tar_typeflag : List ℕ → ℕ
tar_typeflag hdr = get_or hdr 156 0

abbrev pub tar_prefix : List ℕ → List ℕ
tar_prefix hdr = field hdr 345 155

-- `clks_ramdisk_is_zero_block`
unfoldable pub is_zero_block : List ℕ → Bool
is_zero_block [] = true
is_zero_block (b ∷ bs) = if b == 0 then is_zero_block bs else false

-- The bytes of a field before its terminator, `clks_ramdisk_field_len` of them.
unfoldable pub field_text : List ℕ → List ℕ
field_text [] = []
field_text (c ∷ cs) = if c == 0 then [] else c ∷ field_text cs

-- The blank characters of a number field.
abbrev pub is_blank : ℕ → Bool
is_blank c = (c == b' ') || (c == 0)

-- The first loop of `clks_ramdisk_parse_octal_u64`.
unfoldable pub skip_blanks : List ℕ → List ℕ
skip_blanks [] = []
skip_blanks (c ∷ cs) = if is_blank c then skip_blanks cs else c ∷ cs

-- The second loop. A byte of 128 or more is a negative `char`, below '0' as well.
unfoldable pub parse_digits : List ℕ → ℕ → Option ℕ
parse_digits [] value = some value
parse_digits (c ∷ cs) value =
    let rest = parse_digits cs (add64 (value * 8 % u64_mod) (c - b'0')) in
    if is_blank c
    then some value
    else (if ltb c b'0' || ltb b'7' c
        then none
        else (if ltb ((u64_mod - 1) / 8) value then none else rest))

-- `clks_ramdisk_parse_octal_u64`
unfoldable pub parse_octal : List ℕ → Option ℕ
unfolding skip_blanks parse_digits
parse_octal text = parse_digits (skip_blanks text) 0

-- The loop that drops slashes and `./` in front of a name.
unfoldable pub strip_front : List ℕ → List ℕ
strip_front [] = []
strip_front (c ∷ []) = if c == slash then [] else c ∷ []
strip_front (c ∷ d ∷ cs) =
    let after_slash = strip_front (d ∷ cs) in
    let after_both = strip_front cs in
    if c == slash
    then after_slash
    else (if (c == b'.') && (d == slash) then after_both else c ∷ d ∷ cs)

-- `while (out_cursor > 0 && out_path[out_cursor - 1] == '/') out_cursor--`
unfoldable pub strip_back : List ℕ → List ℕ
strip_back [] = []
strip_back (c ∷ cs) = elim (strip_back cs) [
  | [] ↦ (if c == slash then [] else c ∷ [])
  | d ∷ ds ↦ c ∷ d ∷ ds
]

-- The prefix and the name of a header, joined in a buffer of `path_max` bytes.
unfoldable pub raw_path : List ℕ → Option (List ℕ)
raw_path hdr =
    let prefix = field_text (tar_prefix hdr) in
    let name = field_text (tar_name hdr) in
    if length name == 0
    then none
    else (if length prefix == 0
        then (if leb path_max (length name) then none else some name)
        else (if leb path_max (length prefix + 1)
            then none
            else (if leb path_max (length prefix + 1 + length name)
                then none
                else some (prefix ++ slash ∷ name))))

-- `clks_ramdisk_build_path`
unfoldable pub build_path : List ℕ → ℕ → Option (List ℕ)
unfolding raw_path strip_front strip_back
build_path hdr out_size = if out_size == 0 then none else elim (raw_path hdr) [
  | none ↦ none
  | some raw ↦
      (let text = strip_front raw in
        if ltb (length text) out_size
        then elim (strip_back text) [ [] ↦ none | c ∷ cs ↦ some (c ∷ cs) ]
        else none)
]
