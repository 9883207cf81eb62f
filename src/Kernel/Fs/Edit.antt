-- ===== src/Kernel/Fs/Edit.antt =====
-- `clks_fs_append`, `clks_fs_remove` and `clks_fs_node_count` of clks/kernel/fs.c.
use cleon_os_jgz_yes_fork.Base.{
  ltb, ◌==◌, if◌then◌else◌, take, u64_mod, store, ℕ, zero, suc, ◌+◌, ◌-◌, Bool, true, false, ◌&&◌,
  Option, none, some, List, [], ◌∷◌, ◌++◌,
}
use cleon_os_jgz_yes_fork.Kernel.Heap.{kmalloc, kfree}
use cleon_os_jgz_yes_fork.Kernel.Strings.{str_eq}
use cleon_os_jgz_yes_fork.Kernel.Path.{path_max, normalize, in_temp_tree, is_temp_file_path}
use cleon_os_jgz_yes_fork.Kernel.Fs.{
  Fs, Node, Pointer, null, file, is_dir, is_file, set_node, find_internal, content,
  release_heap_data,
}
use cleon_os_jgz_yes_fork.Kernel.Fs.Ops.{write_all, temp_name}

-- The text that the merged buffer at `a` holds: the old one, then `size` bytes of the new one. An
-- old pointer that is NULL leaves the front of the buffer as it was.
unfoldable pub merged_bytes : Fs → ℕ → Pointer → ℕ → Option (List ℕ) → ℕ → List ℕ
merged_bytes fs a old_data old_size bytes size =
    let front : List ℕ = elim old_data [
      | null ↦ take old_size (fs.bytes a)
      | p ↦ take old_size (content fs p)
    ] in
    let back : List ℕ = elim bytes [ none ↦ [] | some b ↦ take size b ] in front ++ back

-- `clks_fs_append` for a file that is there: old and new bytes go to a buffer of their own, which
-- `clks_fs_write_all` copies and which is then freed.
unfoldable pub append_merged : Fs → Option (List ℕ) → Pointer → ℕ → Option (List ℕ) → ℕ → Bool × Fs
append_merged fs path old_data old_size bytes size =
    let (p, heap') = kmalloc fs.heap (old_size + size) in
    elim p [
      | none ↦ (false, record fs { heap = heap' })
      | some a ↦
          (let merged = merged_bytes fs a old_data old_size bytes size in
            let (done, fs') =
              write_all (record fs { heap = heap'; bytes = store fs.bytes a merged }) path
                (some merged) (old_size + size) in
            (done, record fs' { heap = kfree fs'.heap (some a) }))
    ]

unfoldable pub append_existing : Fs → Option (List ℕ) → ℕ → Option (List ℕ) → ℕ → Bool × Fs
append_existing fs path i bytes size =
    let node = fs.nodes i in
    if is_file node.kind
    then (if ltb (u64_mod - 1 - size) node.size
        then (false, fs)
        else (if node.size + size == 0
            then write_all fs path (some (0 ∷ [])) 0
            else append_merged fs path node.data_at node.size bytes size))
    else (false, fs)

-- `size > 0 && data == NULL`
abbrev pub lacks_data : Option (List ℕ) → ℕ → Bool
lacks_data none size = ltb 0 size
lacks_data (some b) size = false

-- `clks_fs_append`
unfoldable pub append : Fs → Option (List ℕ) → Option (List ℕ) → ℕ → Bool × Fs
append fs path bytes size =
    if fs.is_ready
    then (if lacks_data bytes size then (false, fs) else elim (normalize path path_max) [
      | none ↦ (false, fs)
      | some internal ↦
          (if is_temp_file_path internal
            then elim (find_internal fs internal) [
              | none ↦ write_all fs path bytes size
              | some i ↦ append_existing fs path i bytes size
            ]
            else (false, fs))
    ])
    else (false, fs)

-- The loop of `clks_fs_remove` over the nodes: has the directory a child?
unfoldable pub has_child_from : (ℕ → Node) → ℕ → ℕ → ℕ → Bool
has_child_from nodes d i zero = false
has_child_from nodes d i (suc rounds) =
    let rest = has_child_from nodes d (i + 1) rounds in
    if (nodes i).used then (if (nodes i).parent == d then true else rest) else rest

-- The node after the writes at the end of `clks_fs_remove`.
abbrev pub removed_node : Node
removed_node = record {
  used = false;
  kind = file;
  parent = 0;
  heap_data = false;
  data_at = null;
  size = 0;
  path = [];
}

unfoldable pub remove_node : Fs → ℕ → Bool × Fs
remove_node fs i =
    if is_dir (fs.nodes i).kind && has_child_from fs.nodes i 0 fs.nodes_used
    then (false, fs)
    else (true, set_node (release_heap_data fs i) i removed_node)

-- `clks_fs_remove`
unfoldable pub remove : Fs → Option (List ℕ) → Bool × Fs
remove fs path =
    if fs.is_ready
    then elim (normalize path path_max) [
      | none ↦ (false, fs)
      | some internal ↦
          (if in_temp_tree internal
            then (if str_eq internal temp_name
                then (false, fs)
                else elim (find_internal fs internal) [
                  | none ↦ (false, fs)
                  | some i ↦ remove_node fs i
                ])
            else (false, fs))
    ]
    else (false, fs)

-- The loop of `clks_fs_node_count`.
unfoldable pub count_used : (ℕ → Node) → ℕ → ℕ → ℕ
count_used nodes i zero = 0
count_used nodes i (suc rounds) =
    let rest = count_used nodes (i + 1) rounds in if (nodes i).used then rest + 1 else rest

unfoldable pub node_count : Fs → ℕ
node_count fs = if fs.is_ready then count_used fs.nodes 0 fs.nodes_used else 0
