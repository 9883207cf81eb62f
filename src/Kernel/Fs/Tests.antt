-- ===== src/Kernel/Fs/Tests.antt =====
-- The theorems about the file system, applied to a small table: the root, /temp, a file in it and
-- a file of the image.
use cleon_os_jgz_yes_fork.Base.{
  ◌==◌, if◌then◌else◌, length, take, ℕ, zero, suc, ◌<◌, ◌≡◌, refl, sym, ap, ◌∙◌, true, false, some,
  List, [], ◌∷◌, arith,
}
use cleon_os_jgz_yes_fork.Kernel.Heap
use cleon_os_jgz_yes_fork.Kernel.Fs.{content, Pointer, Fs, Node, null, image, file, dir, blank_node}
use cleon_os_jgz_yes_fork.Kernel.Fs.Frozen.{Frozen}
use cleon_os_jgz_yes_fork.Kernel.Heap.{kmalloc, alloc_from, take_block, split_block, heap_align_up}
use cleon_os_jgz_yes_fork.Kernel.Strings.{str_eq}
use cleon_os_jgz_yes_fork.Kernel.Path.{
  path_max, normalize, normalize_from, skip_slashes, component, after_component, push_component,
  in_temp_tree, is_temp_file_path, split_parent, last_slash,
}
use cleon_os_jgz_yes_fork.Kernel.Fs.{
  find_internal, find_from, create_or_update, update_node, create_node, alloc_slot, free_slot_from,
}
use cleon_os_jgz_yes_fork.Kernel.Fs.Dirs.{ensure_from, enter_dir, ensure_dir_hierarchy}
use cleon_os_jgz_yes_fork.Kernel.Fs.Ops.{
  temp_name, write_all, read_all, put_file, install, build_file_payload, write_internal,
}
use cleon_os_jgz_yes_fork.Kernel.Fs.RoundTrip.{read_all-write_all}
use cleon_os_jgz_yes_fork.Kernel.Fs.Children.{remove_refuses}
use cleon_os_jgz_yes_fork.Kernel.Fs.Edit.{remove}
use cleon_os_jgz_yes_fork.Kernel.Fs.Tree.{IsDirAt, IsTree}
use cleon_os_jgz_yes_fork.Kernel.Fs.Tree.Calls.{run-IsTree}
use cleon_os_jgz_yes_fork.Kernel.Fs.Calls.{
  Call, mkdir_call, write_call, append_call, remove_call, run, run-Frozen,
}

-- "/temp/a" and "/sys"
abbrev a_path : List ℕ
a_path = b'/' ∷ b't' ∷ b'e' ∷ b'm' ∷ b'p' ∷ b'/' ∷ b'a' ∷ []

abbrev sys_path : List ℕ
sys_path = b'/' ∷ b's' ∷ b'y' ∷ b's' ∷ []

abbrev dir_node : ℕ → List ℕ → Node
dir_node parent path = record {
  used = true;
  kind = dir;
  parent = parent;
  heap_data = false;
  data_at = null;
  size = 0;
  path = path;
}

abbrev sys_node : Node
sys_node = record {
  used = true;
  kind = file;
  parent = 0;
  heap_data = false;
  data_at = image (7 ∷ 8 ∷ []);
  size = 2;
  path = b's' ∷ b'y' ∷ b's' ∷ [];
}

abbrev demo_node : ℕ → Node
demo_node zero = dir_node 0 []
demo_node (suc zero) = dir_node 0 temp_name
demo_node (suc (suc zero)) = sys_node
demo_node _ = blank_node

abbrev demo : Fs
demo = record {
  nodes = demo_node;
  nodes_used = 3;
  is_ready = true;
  heap = Heap.init;
  bytes = λ a. [];
}

abbrev demo_calls : List Call
demo_calls =
    append_call (some a_path) (some (1 ∷ [])) 1
    ∷ append_call (some a_path) (some (2 ∷ [])) 1
    ∷ write_call (some sys_path) (some (1 ∷ [])) 1
    ∷ remove_call (some a_path)
    ∷ mkdir_call (some a_path)
    ∷ []

run-Frozen_example : Frozen demo (run demo_calls demo)
run-Frozen_example = run-Frozen demo_calls demo

abbrev a_bytes : List ℕ
a_bytes = 5 ∷ 6 ∷ 7 ∷ []

a_written : (write_all demo (some a_path) (some a_bytes) 2).0 ≡ true
unfolding write_all normalize normalize_from skip_slashes component after_component push_component
    in_temp_tree is_temp_file_path write_internal split_parent last_slash ensure_dir_hierarchy
    ensure_from enter_dir find_internal find_from str_eq put_file build_file_payload install
    create_or_update update_node create_node alloc_slot free_slot_from kmalloc alloc_from take_block
    split_block heap_align_up Heap.init
a_written = refl

read_all-write_all_example :
    (p : Pointer) × (read_all (write_all demo (some a_path) (some a_bytes) 2).1 (some a_path)
      ≡ some (p, 2))
    × (take 2 (content (write_all demo (some a_path) (some a_bytes) 2).1 p) ≡ take 2 a_bytes)
read_all-write_all_example = read_all-write_all demo (some a_path) a_bytes 2 a_written

-- "/temp" again, in a table where the file `temp/a` stands below it.
abbrev busy_node : ℕ → Node
busy_node zero = dir_node 0 []
busy_node (suc zero) = dir_node 0 (temp_name)
busy_node (suc (suc zero)) = dir_node 1 (b't' ∷ b'e' ∷ b'm' ∷ b'p' ∷ b'/' ∷ b'a' ∷ [])
busy_node (suc (suc (suc zero))) =
    dir_node 2 (b't' ∷ b'e' ∷ b'm' ∷ b'p' ∷ b'/' ∷ b'a' ∷ b'/' ∷ b'b' ∷ [])
busy_node _ = blank_node

abbrev busy : Fs
busy = record demo { nodes = busy_node; nodes_used = 4 }

a_normal : normalize (some a_path) path_max ≡ some (b't' ∷ b'e' ∷ b'm' ∷ b'p' ∷ b'/' ∷ b'a' ∷ [])
unfolding normalize normalize_from skip_slashes component after_component push_component
a_normal = refl

a_found : find_internal busy (b't' ∷ b'e' ∷ b'm' ∷ b'p' ∷ b'/' ∷ b'a' ∷ []) ≡ some 2
unfolding find_internal find_from str_eq
a_found = refl

remove_refuses_example : remove busy (some a_path) ≡ (false, busy)
remove_refuses_example =
    remove_refuses busy (some a_path) (b't' ∷ b'e' ∷ b'm' ∷ b'p' ∷ b'/' ∷ b'a' ∷ []) 2 3 a_normal
      a_found refl (omega arith) refl refl

busy_parents : (i : ℕ) → i < 4 → (busy_node i).used ≡ true → IsDirAt busy (busy_node i).parent
busy_parents zero a u = (omega arith, refl, refl)
busy_parents (suc zero) a u = (omega arith, refl, refl)
busy_parents (suc (suc zero)) a u = (omega arith, refl, refl)
busy_parents (suc (suc (suc zero))) a u = (omega arith, refl, refl)
busy_parents (suc (suc (suc (suc i)))) a u = absurd (omega arith)

-- The paths of the table have different lengths.
busy_lengths :
    (i j : ℕ) → i < 4 → j < 4 → length (busy_node i).path ≡ length (busy_node j).path → i ≡ j
busy_lengths i j a b e = length_rank i a ∙ (ap rank e ∙ sym (length_rank j b))
  where
    rank : ℕ → ℕ
    rank n = if n == 0 then 0 else (if n == 4 then 1 else (if n == 6 then 2 else 3))

    length_rank : (i : ℕ) → i < 4 → i ≡ rank (length (busy_node i).path)
    length_rank zero a = refl
    length_rank (suc zero) a = refl
    length_rank (suc (suc zero)) a = refl
    length_rank (suc (suc (suc zero))) a = refl
    length_rank (suc (suc (suc (suc i)))) a = absurd (omega arith)

busy-IsTree : IsTree busy
busy-IsTree = record {
  root = (omega arith, refl, refl);
  root_path = refl;
  parents = busy_parents;
  unique = λ i j a b u v e. busy_lengths i j a b (ap length e);
}

run-IsTree_example : IsTree (run demo_calls busy)
run-IsTree_example = run-IsTree demo_calls busy busy-IsTree
