-- ===== src/Shell/Path.antt =====
-- The paths of the user shell: cleonos/c/apps/shell/shell_path.c. A path that is built up in a buffer
-- is the list of its characters, so that its length is `*io_len`. A result of 0 is `none`.
pub mod Parts
pub mod Stack
pub mod Resolve
pub mod Target
mod Tests
use cleon_os_jgz_yes_fork.Base.{
  ltb, leb, ◌==◌, if◌then◌else◌, length, take, drop, char_at, copy_bounded, skip_while, until_first,
  from_first, ℕ, zero, suc, ◌+◌, ◌-◌, Bool, true, false, not, ◌&&◌, ◌||◌, Option, none, some, List,
  [], ◌∷◌, ◌++◌,
}

-- '/', '.'
abbrev pub slash : ℕ
slash = b'/'

abbrev pub is_slash : ℕ → Bool
is_slash c = c == slash

-- `ush_path_push_component`
unfoldable pub push_component : ℕ → List ℕ → List ℕ → Option (List ℕ)
push_component path_size path component =
    if length component == 0
    then none
    else (if length path == 1
        then (if leb path_size (length path + length component)
            then none
            else some (take 1 path ++ component))
        else (if leb path_size (length path + 1 + length component)
            then none
            else some (path ++ slash ∷ component)))

-- `while (*io_len > 1ULL && path[*io_len - 1ULL] != '/') (*io_len)--`
unfoldable pub cut_back : List ℕ → ℕ → ℕ
cut_back path zero = 0
cut_back path (suc len) =
    let shorter = cut_back path len in
    if ltb 1 (suc len) && not (char_at path len == slash) then shorter else suc len

-- `ush_path_pop_component`
unfoldable pub pop_component : List ℕ → List ℕ
unfolding cut_back
pop_component path =
    let len = cut_back path (length path) in
    if leb (length path) 1 then slash ∷ [] else take (if ltb 1 len then len - 1 else len) path

-- "." and ".."
abbrev pub is_dot : List ℕ → Bool
is_dot w = (length w == 1) && (char_at w 0 == b'.')

abbrev pub is_dot_dot : List ℕ → Bool
is_dot_dot w = (length w == 2) && (char_at w 0 == b'.') && (char_at w 1 == b'.')

-- What `ush_path_parse_into` does with one component.
unfoldable pub enter : ℕ → List ℕ → List ℕ → Option (List ℕ)
unfolding push_component pop_component
enter out_size path component =
    if is_dot component
    then some path
    else (if is_dot_dot component
        then some (pop_component path)
        else push_component out_size path component)

-- The loop of `ush_path_parse_into` from where it stands, on fuel.
unfoldable pub parse_from : ℕ → ℕ → List ℕ → List ℕ → Option (List ℕ)
unfolding enter skip_while until_first from_first
parse_from out_size zero src path = some path
parse_from out_size (suc fuel) src path =
    let text = skip_while is_slash src in
    let component = until_first is_slash text in
    let rest = parse_from out_size fuel (from_first is_slash text) in
    elim text [
      | [] ↦ some path
      | c ∷ cs ↦ elim (enter out_size path component) [ none ↦ none | some path' ↦ rest path' ]
    ]

-- `ush_path_parse_into`
unfoldable pub parse_into : ℕ → List ℕ → List ℕ → Option (List ℕ)
unfolding parse_from
parse_into out_size src path =
    parse_from out_size (suc (length src)) (if char_at src 0 == slash then drop 1 src else src) path

-- `ush_resolve_path` for a shell in the directory `cwd`; an argument that is `none` is NULL.
unfoldable pub resolve_path : List ℕ → Option (List ℕ) → ℕ → Option (List ℕ)
unfolding parse_into
resolve_path cwd none out_size =
    if ltb out_size 2 then none else parse_into out_size cwd (slash ∷ [])
resolve_path cwd (some arg) out_size =
    if ltb out_size 2
    then none
    else (if length arg == 0
        then parse_into out_size cwd (slash ∷ [])
        else (if not (char_at arg 0 == slash)
            then elim (parse_into out_size cwd (slash ∷ [])) [
              | none ↦ none
              | some path ↦ parse_into out_size arg path
            ]
            else parse_into out_size arg (slash ∷ [])))

-- "/shell/", ".elf", "/system"
abbrev pub shell_prefix : List ℕ
shell_prefix = b'/' ∷ b's' ∷ b'h' ∷ b'e' ∷ b'l' ∷ b'l' ∷ b'/' ∷ []

abbrev pub elf_suffix : List ℕ
elf_suffix = b'.' ∷ b'e' ∷ b'l' ∷ b'f' ∷ []

abbrev pub system_path : List ℕ
system_path = b'/' ∷ b's' ∷ b'y' ∷ b's' ∷ b't' ∷ b'e' ∷ b'm' ∷ []

-- `strncmp(text, prefix, n) == 0` for a prefix of `n` characters.
unfoldable pub starts_with : List ℕ → List ℕ → Bool
starts_with text [] = true
starts_with [] (p ∷ ps) = false
starts_with (t ∷ ts) (p ∷ ps) = if t == p then starts_with ts ps else false

-- `ush_has_suffix`
unfoldable pub has_suffix : List ℕ → List ℕ → Bool
unfolding starts_with
has_suffix name suffix =
    if ltb (length name) (length suffix)
    then false
    else starts_with (drop (length name - length suffix) name) suffix

-- `ush_contains_char` for a character that is not the terminator.
unfoldable pub contains_char : List ℕ → ℕ → Bool
contains_char [] needle = false
contains_char (c ∷ cs) needle = if c == needle then true else contains_char cs needle

-- The loops of `ush_resolve_exec_path` that append characters while there is room.
unfoldable pub append_bounded : ℕ → List ℕ → List ℕ → Option (List ℕ)
append_bounded out_size path [] = some path
append_bounded out_size path (c ∷ cs) =
    let rest = append_bounded out_size (path ++ c ∷ []) cs in
    if leb out_size (length path + 1) then none else rest

-- `ush_resolve_exec_path`, for an argument that is not NULL.
unfoldable pub resolve_exec_path : List ℕ → List ℕ → ℕ → Option (List ℕ)
unfolding resolve_path contains_char append_bounded has_suffix copy_bounded
resolve_exec_path cwd arg out_size =
    let base =
      if char_at arg 0 == slash
      then some (copy_bounded (out_size - 1) arg)
      else (if contains_char arg slash
          then resolve_path cwd (some arg) out_size
          else (if leb out_size (length shell_prefix + 1)
              then none
              else append_bounded out_size shell_prefix arg)) in
    if out_size == 0
    then none
    else (if length arg == 0 then none else elim base [
      | none ↦ none
      | some path ↦
          (if has_suffix path elf_suffix
            then some path
            else append_bounded out_size path elf_suffix)
    ])

-- `ush_path_is_under_system`
unfoldable pub path_is_under_system : List ℕ → Bool
unfolding starts_with
path_is_under_system path =
    if starts_with path system_path
    then (length path == length system_path) || (char_at path (length system_path) == slash)
    else false
