-- ===== src/Kernel/Path.antt =====
-- The path functions of clks/kernel/fs.c. A loop over the characters of a component is a function
-- of the rest of the text.
pub mod Bounds
mod Tests
use cleon_os_jgz_yes_fork.Base.{
  leb, ◌==◌, if◌then◌else◌, length, take, drop, char_at, ℕ, zero, suc, ◌+◌, Bool, false, not, ◌&&◌,
  ◌||◌, Option, none, some, List, [], ◌∷◌, ◌++◌,
}

-- CLKS_FS_PATH_MAX, CLKS_RAMDISK_PATH_MAX
abbrev pub path_max : ℕ
path_max = 192

abbrev pub slash : ℕ
slash = b'/'

-- `while (path[i] == '/') i++`
unfoldable pub skip_slashes : List ℕ → List ℕ
skip_slashes [] = []
skip_slashes (c ∷ cs) = if c == slash then skip_slashes cs else c ∷ cs

-- `while (path[i] != 0 && path[i] != '/') i++`: the component and what follows it.
unfoldable pub component : List ℕ → List ℕ
component [] = []
component (c ∷ cs) = if c == slash then [] else c ∷ component cs

unfoldable pub after_component : List ℕ → List ℕ
after_component [] = []
after_component (c ∷ cs) = if c == slash then c ∷ cs else after_component cs

-- `comp_len == 1 && comp[0] == '.'`
abbrev pub is_dot : List ℕ → Bool
is_dot comp = (length comp == 1) && (char_at comp 0 == b'.')

-- `comp_len == 2 && comp[0] == '.' && comp[1] == '.'`
abbrev pub is_dot_dot : List ℕ → Bool
is_dot_dot comp = (length comp == 2) && (char_at comp 0 == b'.') && (char_at comp 1 == b'.')

-- A component is appended to the text in a buffer of `size` bytes, behind a slash if there is text.
unfoldable pub push_component : ℕ → List ℕ → List ℕ → Option (List ℕ)
push_component size out comp =
    if length out == 0
    then (if leb size (length comp) then none else some comp)
    else (if leb size (length out + 1)
        then none
        else (if leb size (length out + 1 + length comp) then none else some (out ++ slash ∷ comp)))

-- The loop of `clks_fs_normalize_external_path`, on fuel, over the text that is left.
unfoldable pub normalize_from : ℕ → ℕ → List ℕ → List ℕ → Option (List ℕ)
unfolding skip_slashes component after_component push_component
normalize_from zero size rest out = none
normalize_from (suc fuel) size [] out = some out
normalize_from (suc fuel) size (c ∷ cs) out =
    let comp = component (c ∷ cs) in
    let rest = skip_slashes (after_component (c ∷ cs)) in
    let skipped = normalize_from fuel size rest out in
    let pushed : Option (List ℕ) = elim (push_component size out comp) [
      | none ↦ none
      | some next ↦ normalize_from fuel size rest next
    ] in
    if length comp == 0
    then skipped
    else (if is_dot comp then skipped else (if is_dot_dot comp then none else pushed))

-- `clks_fs_normalize_external_path`; `none` for the path is NULL, for the result is failure.
unfoldable pub normalize : Option (List ℕ) → ℕ → Option (List ℕ)
unfolding normalize_from
normalize none size = none
normalize (some path) size =
    if size == 0
    then none
    else (if char_at path 0 == slash
        then normalize_from (suc (length path)) size (skip_slashes path) []
        else none)

-- `clks_fs_internal_in_temp_tree`
unfoldable pub in_temp_tree : List ℕ → Bool
in_temp_tree p =
    if (char_at p 0 == b't')
      && (char_at p 1 == b'e')
      && (char_at p 2 == b'm')
      && (char_at p 3 == b'p')
    then ((char_at p 4 == 0) || (char_at p 4 == slash))
    else false

-- `clks_fs_internal_is_temp_file_path`
unfoldable pub is_temp_file_path : List ℕ → Bool
unfolding in_temp_tree
is_temp_file_path p = if in_temp_tree p then not (char_at p 4 == 0) else false

-- `for (i = len; i != 0; i--) if (path[i - 1] == '/')`: the position of the last slash below `i`.
unfoldable pub last_slash : List ℕ → ℕ → Option ℕ
last_slash p zero = none
last_slash p (suc i) = if char_at p i == slash then some i else last_slash p i

-- `clks_fs_basename`
unfoldable pub basename : List ℕ → List ℕ
unfolding last_slash
basename p = elim (last_slash p (length p)) [ none ↦ p | some i ↦ drop (i + 1) p ]

-- `clks_fs_split_parent`
unfoldable pub split_parent : List ℕ → ℕ → Option (List ℕ)
unfolding last_slash
split_parent p size = if size == 0 then none else elim (last_slash p (length p)) [
  | none ↦ some []
  | some i ↦ (if leb size i then none else some (take i p))
]
