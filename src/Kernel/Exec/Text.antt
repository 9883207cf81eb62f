-- ===== src/Kernel/Exec/Text.antt =====
-- The text functions of clks/kernel/exec.c: prefixes and suffixes, and the items of an argument
-- line and of an environment line.
use cleon_os_jgz_yes_fork.Base.{
  ltb, ◌==◌, if◌then◌else◌, length, take, drop, char_at, copy_bounded, skip_while, until_first,
  from_first, ℕ, zero, suc, ◌-◌, Bool, true, false, ◌||◌, List, [], ◌∷◌,
}
use cleon_os_jgz_yes_fork.Kernel.Path.{slash}

-- CLKS_EXEC_ITEM_MAX
abbrev pub item_max : ℕ
item_max = 128

-- CLKS_EXEC_MAX_ARGS, CLKS_EXEC_MAX_ENVS
abbrev pub max_args : ℕ
max_args = 24

abbrev pub max_envs : ℕ
max_envs = 24

-- `clks_exec_has_prefix`
unfoldable pub has_prefix : List ℕ → List ℕ → Bool
has_prefix text [] = true
has_prefix [] (p ∷ ps) = false
has_prefix (t ∷ ts) (p ∷ ps) = if t == p then has_prefix ts ps else false

-- The last loop of `clks_exec_has_suffix`, which compares as many characters.
unfoldable pub same_text : List ℕ → List ℕ → Bool
same_text [] [] = true
same_text [] (s ∷ ss) = false
same_text (t ∷ ts) [] = false
same_text (t ∷ ts) (s ∷ ss) = if t == s then same_text ts ss else false

-- `clks_exec_has_suffix`
unfoldable pub has_suffix : List ℕ → List ℕ → Bool
unfolding same_text
has_suffix text suffix =
    if ltb (length text) (length suffix)
    then false
    else same_text (drop (length text - length suffix) text) suffix

abbrev pub system_dir : List ℕ
system_dir = b'/' ∷ b's' ∷ b'y' ∷ b's' ∷ b't' ∷ b'e' ∷ b'm' ∷ b'/' ∷ []

abbrev pub driver_dir : List ℕ
driver_dir = b'/' ∷ b'd' ∷ b'r' ∷ b'i' ∷ b'v' ∷ b'e' ∷ b'r' ∷ b'/' ∷ []

abbrev pub shell_dir : List ℕ
shell_dir = b'/' ∷ b's' ∷ b'h' ∷ b'e' ∷ b'l' ∷ b'l' ∷ b'/' ∷ []

abbrev pub elf_suffix : List ℕ
elf_suffix = b'.' ∷ b'e' ∷ b'l' ∷ b'f' ∷ []

-- `clks_exec_path_is_user_program`
unfoldable pub path_is_user_program : List ℕ → Bool
unfolding has_prefix has_suffix
path_is_user_program path =
    if char_at path 0 == slash
    then (if has_prefix path system_dir
        then false
        else (if has_prefix path driver_dir
            then false
            else (if has_prefix path shell_dir then true else has_suffix path elf_suffix)))
    else false

-- `clks_exec_copy_path` and `clks_exec_copy_line` to a buffer of `size` bytes.
unfoldable pub copy_text : ℕ → List ℕ → List ℕ
unfolding copy_bounded
copy_text size src = if size == 0 then [] else copy_bounded (size - 1) src

-- The blanks that end an argument.
abbrev pub is_space : ℕ → Bool
is_space c = (c == b' ') || (c == 9) || (c == 13) || (c == 10)

-- What stands before the next environment item, and what ends one.
abbrev pub is_env_gap : ℕ → Bool
is_env_gap c = (c == b' ') || (c == 9) || (c == b';') || (c == 13) || (c == 10)

abbrev pub is_env_end : ℕ → Bool
is_env_end c = (c == b';') || (c == 13) || (c == 10)

-- The loop of `clks_exec_parse_whitespace_items` from where it stands, on fuel; the number of items
-- that may still come is its last argument.
unfoldable pub items_from : ℕ → List ℕ → ℕ → List (List ℕ)
unfolding skip_while until_first from_first
items_from zero line room = []
items_from (suc fuel) line room =
    let text = skip_while is_space line in
    let item = take (item_max - 1) (until_first is_space text) in
    let rest = items_from fuel (from_first is_space text) (room - 1) in
    elim text [ [] ↦ [] | c ∷ cs ↦ (if room == 0 then [] else item ∷ rest) ]

-- `clks_exec_parse_whitespace_items`
unfoldable pub parse_whitespace_items : List ℕ → ℕ → List (List ℕ)
unfolding items_from
parse_whitespace_items line max_count = items_from (suc (length line)) line max_count

-- `while (p > 0 && (items[count][p - 1] == ' ' || items[count][p - 1] == '\t')) p--`
unfoldable pub trim_back : List ℕ → List ℕ
trim_back [] = []
trim_back (c ∷ cs) = elim (trim_back cs) [
  | [] ↦ (if (c == b' ') || (c == 9) then [] else c ∷ [])
  | d ∷ ds ↦ c ∷ d ∷ ds
]

-- The loop of `clks_exec_parse_env_items` from where it stands, on fuel.
unfoldable pub envs_from : ℕ → List ℕ → ℕ → List (List ℕ)
unfolding skip_while until_first from_first trim_back
envs_from zero line room = []
envs_from (suc fuel) line room =
    let text = skip_while is_env_gap line in
    let item = trim_back (take (item_max - 1) (until_first is_env_end text)) in
    let dropped = length item == 0 in
    let rest = envs_from fuel (from_first is_env_end text) (if dropped then room else room - 1) in
    elim text [
      | [] ↦ []
      | c ∷ cs ↦ (if room == 0 then [] else (if dropped then rest else item ∷ rest))
    ]

-- `clks_exec_parse_env_items`
unfoldable pub parse_env_items : List ℕ → ℕ → List (List ℕ)
unfolding envs_from
parse_env_items line max_count = envs_from (suc (length line)) line max_count
