-- ===== src/Kernel/Fs.antt =====
-- The file system, clks/kernel/fs.c: a table of nodes in one array. The kernel heap is part of the
-- state; `bytes` is what stands at a pointer that the heap gave out.
pub mod Find
pub mod Dirs
pub mod Frozen
pub mod Temp
pub mod Calls
pub mod ReadBack
pub mod RoundTrip
pub mod Children
pub mod Tree
pub mod Ops
pub mod Edit
pub mod Boot
mod Tests
use cleon_os_jgz_yes_fork.Base.{
  leb, ◌==◌, if◌then◌else◌, length, store, ℕ, zero, suc, ◌+◌, Bool, true, false, Option, none, some,
  List, [], ◌∷◌,
}
use cleon_os_jgz_yes_fork.Kernel.Heap.{Heap, kfree}
use cleon_os_jgz_yes_fork.Kernel.Strings.{str_eq}
use cleon_os_jgz_yes_fork.Kernel.Path.{path_max, normalize}

-- CLKS_FS_MAX_NODES
abbrev pub max_nodes : ℕ
max_nodes = 512

-- `enum clks_fs_node_type`; `unset` is the 0 of a cleared node.
pub data NodeType : Type 0 where
  unset file dir : NodeType

-- The pointers that a node may hold: NULL, `clks_fs_empty_file_data`, a part of the ramdisk image
-- with its bytes, and a block of the kernel heap.
pub data Pointer : Type 0 where
  null : Pointer
  empty_file : Pointer
  image : List ℕ → Pointer
  block : ℕ → Pointer

-- `struct clks_fs_node`; `heap_data` is the flag in `reserved`.
pub record Node : Type 0 where
  pub used : Bool
  pub kind : NodeType
  pub parent : ℕ
  pub heap_data : Bool
  pub data_at : Pointer
  pub size : ℕ
  pub path : List ℕ

-- The static variables of fs.c, and the heap.
pub record Fs : Type 0 where
  pub nodes : ℕ → Node
  pub nodes_used : ℕ
  pub is_ready : Bool
  pub heap : Heap
  pub bytes : ℕ → List ℕ

pub record NodeInfo : Type 0 where
  pub info_kind : NodeType
  pub info_size : ℕ

abbrev pub blank_node : Node
blank_node = record {
  used = false;
  kind = unset;
  parent = 0;
  heap_data = false;
  data_at = null;
  size = 0;
  path = [];
}

abbrev pub is_file : NodeType → Bool
is_file file = true
is_file _ = false

abbrev pub is_dir : NodeType → Bool
is_dir dir = true
is_dir _ = false

abbrev pub same_kind : NodeType → NodeType → Bool
same_kind unset unset = true
same_kind file file = true
same_kind dir dir = true
same_kind _ _ = false

abbrev pub set_node : Fs → ℕ → Node → Fs
set_node fs i n = record fs { nodes = store fs.nodes i n }

-- The loop of `clks_fs_find_node_by_internal` from index `i` on; `none` is -1.
unfoldable pub find_from : (ℕ → Node) → ℕ → ℕ → List ℕ → Option ℕ
find_from nodes i zero path = none
find_from nodes i (suc rounds) path =
    let rest = find_from nodes (i + 1) rounds path in
    if (nodes i).used then (if str_eq (nodes i).path path then some i else rest) else rest

unfoldable pub find_internal : Fs → List ℕ → Option ℕ
find_internal fs path = find_from fs.nodes 0 fs.nodes_used path

unfoldable pub find_external : Fs → Option (List ℕ) → Option ℕ
find_external fs path = elim (normalize path path_max) [
  | none ↦ none
  | some internal ↦ find_internal fs internal
]

-- The address to give to `clks_kfree`: the flag is set on heap blocks only.
abbrev pub block_address : Pointer → Option ℕ
block_address (block a) = some a
block_address _ = none

-- What stands at a pointer.
abbrev pub content : Fs → Pointer → List ℕ
content fs null = []
content fs empty_file = 0 ∷ []
content fs (image b) = b
content fs (block a) = fs.bytes a

unfoldable pub release_heap_data : Fs → ℕ → Fs
release_heap_data fs i =
    let node = fs.nodes i in
    if is_file node.kind
    then (let freed =
          if node.heap_data
          then elim node.data_at [
            | null ↦ fs
            | p ↦ record fs { heap = kfree fs.heap (block_address p) }
          ]
          else fs in
        set_node freed i (record node { heap_data = false }))
    else fs

-- The loop of `clks_fs_alloc_slot`.
unfoldable pub free_slot_from : (ℕ → Node) → ℕ → ℕ → Option ℕ
free_slot_from nodes i zero = none
free_slot_from nodes i (suc rounds) =
    let rest = free_slot_from nodes (i + 1) rounds in if (nodes i).used then rest else some i

unfoldable pub alloc_slot : Fs → Option ℕ × Fs
alloc_slot fs = elim (free_slot_from fs.nodes 0 fs.nodes_used) [
  | some i ↦ (some i, fs)
  | none ↦
      (if leb max_nodes fs.nodes_used
        then (none, fs)
        else (some fs.nodes_used, record fs { nodes_used = fs.nodes_used + 1 }))
]

-- The update of a node that is there.
unfoldable pub update_node : Fs → ℕ → NodeType → ℕ → Pointer → ℕ → Option ℕ × Fs
update_node fs i kind parent at size =
    let node = fs.nodes i in
    if same_kind node.kind kind
    then (
      some i,
      set_node fs i (
          if is_file kind
          then record node {
            used = true;
            parent = parent;
            heap_data = false;
            data_at = at;
            size = size;
          }
          else record node { used = true; parent = parent }),
    )
    else (none, fs)

-- The creation of a node in a free slot.
unfoldable pub create_node : Fs → List ℕ → NodeType → ℕ → Pointer → ℕ → Option ℕ × Fs
create_node fs path kind parent at size =
    let (slot, fs') = alloc_slot fs in
    elim slot [
      | none ↦ (none, fs')
      | some i ↦ (
        some i,
        set_node fs' i (record {
          used = true;
          kind = kind;
          parent = parent;
          heap_data = false;
          data_at = if is_file kind then at else null;
          size = if is_file kind then size else 0;
          path = path;
        }),
      )
    ]

-- `clks_fs_create_or_update_node`
unfoldable pub create_or_update : Fs → List ℕ → NodeType → ℕ → Pointer → ℕ → Option ℕ × Fs
unfolding update_node create_node
create_or_update fs path kind parent at size =
    if leb path_max (length path) then (none, fs) else elim (find_internal fs path) [
      | some i ↦ update_node fs i kind parent at size
      | none ↦ create_node fs path kind parent at size
    ]

-- `clks_fs_ensure_root`
pub ensure_root : Fs → Bool × Fs
ensure_root fs =
    let (i, fs') = create_or_update fs [] dir 0 null 0 in
    (elim i [ none ↦ false | some k ↦ k == 0 ], fs')
