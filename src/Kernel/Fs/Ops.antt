-- ===== src/Kernel/Fs/Ops.antt =====
-- The calls of the file system, clks/kernel/fs.c.
use cleon_os_jgz_yes_fork.Base.{
  ltb, ◌==◌, if◌then◌else◌, length, take, store, char_at, ℕ, zero, suc, ◌+◌, Bool, true, false, not,
  ◌&&◌, Option, none, some, List, [], ◌∷◌,
}
use cleon_os_jgz_yes_fork.Kernel.Heap.{kmalloc, kfree}
use cleon_os_jgz_yes_fork.Kernel.Path.{
  path_max, normalize, in_temp_tree, is_temp_file_path, basename, split_parent,
}
use cleon_os_jgz_yes_fork.Kernel.Fs.{
  Fs, Node, NodeInfo, Pointer, empty_file, block, file, is_dir, is_file, set_node, find_internal,
  find_external, create_or_update, block_address, release_heap_data,
}
use cleon_os_jgz_yes_fork.Kernel.Fs.Dirs.{ensure_dir_hierarchy}

-- "temp"
abbrev pub temp_name : List ℕ
temp_name = b't' ∷ b'e' ∷ b'm' ∷ b'p' ∷ []

-- `clks_fs_build_file_payload`: the pointer and whether it is the heap's; `none` is failure. The
-- caller's `data` is the bytes that it points to, or `none` for NULL.
unfoldable pub build_file_payload : Fs → Option (List ℕ) → ℕ → Option (Pointer × Bool) × Fs
build_file_payload fs bytes size =
    if size == 0 then (some (empty_file, false), fs) else elim bytes [
      | none ↦ (none, fs)
      | some b ↦
          (let (p, heap') = kmalloc fs.heap size in
            elim p [
              | none ↦ (none, record fs { heap = heap' })
              | some a ↦ (
                some (block a, true),
                record fs { heap = heap'; bytes = store fs.bytes a (take size b) },
              )
            ])
    ]

unfoldable pub stat : Fs → Option (List ℕ) → Option NodeInfo
stat fs path =
    if fs.is_ready
    then elim (find_external fs path) [
      | none ↦ none
      | some i ↦ some (record { info_kind = (fs.nodes i).kind; info_size = (fs.nodes i).size })
    ]
    else none

-- `clks_fs_read_all`: the pointer and the size, `none` for NULL.
unfoldable pub read_all : Fs → Option (List ℕ) → Option (Pointer × ℕ)
read_all fs path =
    if fs.is_ready
    then elim (find_external fs path) [
      | none ↦ none
      | some i ↦
          (let node = fs.nodes i in
            if is_file node.kind
            then some (if node.size == 0 then empty_file else node.data_at, node.size)
            else none)
    ]
    else none

-- The loop of `clks_fs_count_children` from node `i` on.
unfoldable pub count_from : (ℕ → Node) → ℕ → ℕ → ℕ → ℕ
count_from nodes d i zero = 0
count_from nodes d i (suc rounds) =
    let rest = count_from nodes d (i + 1) rounds in
    if (nodes i).used
    then (if d == i then rest else (if (nodes i).parent == d then rest + 1 else rest))
    else rest

unfoldable pub count_children : Fs → Option (List ℕ) → ℕ
count_children fs path =
    if fs.is_ready
    then elim (find_external fs path) [
      | none ↦ 0
      | some d ↦ (if is_dir (fs.nodes d).kind then count_from fs.nodes d 0 fs.nodes_used else 0)
    ]
    else 0

-- The loop of `clks_fs_get_child_name` from node `i` on, after `current` children.
unfoldable pub child_from : (ℕ → Node) → ℕ → ℕ → ℕ → ℕ → ℕ → ℕ → Option (List ℕ)
child_from nodes d index name_size current i zero = none
child_from nodes d index name_size current i (suc rounds) =
    let skip = child_from nodes d index name_size current (i + 1) rounds in
    let pass = child_from nodes d index name_size (current + 1) (i + 1) rounds in
    let base = basename (nodes i).path in
    if (nodes i).used
    then (if d == i
        then skip
        else (if (nodes i).parent == d
            then (if current == index
                then (if ltb name_size (length base + 1) then none else some base)
                else pass)
            else skip))
    else skip

unfoldable pub get_child_name : Fs → Option (List ℕ) → ℕ → ℕ → Option (List ℕ)
get_child_name fs path index name_size =
    if fs.is_ready && not (name_size == 0)
    then elim (find_external fs path) [
      | none ↦ none
      | some d ↦
          (if is_dir (fs.nodes d).kind
            then child_from fs.nodes d index name_size 0 0 fs.nodes_used
            else none)
    ]
    else none

-- `clks_fs_mkdir` behind the checks on its path.
unfoldable pub make_dir : Fs → List ℕ → Bool × Fs
make_dir fs internal =
    let (done, fs') = ensure_dir_hierarchy fs internal in
    if done
    then (
      elim (find_internal fs' internal) [ none ↦ false | some i ↦ is_dir (fs'.nodes i).kind ],
      fs',
    )
    else (false, fs')

unfoldable pub mkdir : Fs → Option (List ℕ) → Bool × Fs
mkdir fs path =
    if fs.is_ready
    then elim (normalize path path_max) [
      | none ↦ (false, fs)
      | some internal ↦
          (if in_temp_tree internal
            then (if char_at internal 0 == 0 then (false, fs) else make_dir fs internal)
            else (false, fs))
    ]
    else (false, fs)

-- `if (node_index >= 0) clks_fs_node_release_heap_data(node_index)`
abbrev pub release_old : Fs → Option ℕ → Fs
release_old fs none = fs
release_old fs (some i) = release_heap_data fs i

-- The end of `clks_fs_write_all`: the payload becomes the data of the node.
unfoldable pub install : Fs → List ℕ → ℕ → Option ℕ → Pointer → Bool → ℕ → Bool × Fs
install fs internal parent old p owned size =
    let (i, fs') = create_or_update (release_old fs old) internal file parent p size in
    elim i [
      | none ↦
          (false, if owned then record fs' { heap = kfree fs'.heap (block_address p) } else fs')
      | some k ↦
          (let node = fs'.nodes k in (true, set_node fs' k (record node { heap_data = owned })))
    ]

-- `clks_fs_write_all` once the parent directory is there.
unfoldable pub put_file : Fs → List ℕ → List ℕ → Option (List ℕ) → ℕ → Bool × Fs
put_file fs internal parent bytes size = elim (find_internal fs parent) [
  | none ↦ (false, fs)
  | some d ↦
      (let old = find_internal fs internal in
        let fits = elim old as (λ _. Bool) [ none ↦ true | some i ↦ is_file (fs.nodes i).kind ] in
        if is_dir (fs.nodes d).kind
        then (if fits
            then (let (payload, fs') = build_file_payload fs bytes size in
                elim payload [
                  | none ↦ (false, fs')
                  | some (p, owned) ↦ install fs' internal d old p owned size
                ])
            else (false, fs))
        else (false, fs))
]

-- `clks_fs_write_all` behind the checks on its path.
unfoldable pub write_internal : Fs → List ℕ → Option (List ℕ) → ℕ → Bool × Fs
write_internal fs internal bytes size = elim (split_parent internal path_max) [
  | none ↦ (false, fs)
  | some parent ↦
      (if in_temp_tree parent
        then (let (done, fs') = ensure_dir_hierarchy fs parent in
            if done then put_file fs' internal parent bytes size else (false, fs'))
        else (false, fs))
]

unfoldable pub write_all : Fs → Option (List ℕ) → Option (List ℕ) → ℕ → Bool × Fs
write_all fs path bytes size =
    if fs.is_ready
    then elim (normalize path path_max) [
      | none ↦ (false, fs)
      | some internal ↦
          (if is_temp_file_path internal
            then write_internal fs internal bytes size
            else (false, fs))
    ]
    else (false, fs)
