-- ===== src/Kernel/Fs/Boot.antt =====
-- `clks_fs_init` of clks/kernel/fs.c: the nodes are built from the ramdisk image.
use cleon_os_jgz_yes_fork.Base.{
  if◌then◌else◌, ℕ, Bool, true, false, ◌&&◌, Option, none, some, List, [], ◌∷◌,
}
use cleon_os_jgz_yes_fork.Kernel.Heap.{Heap}
use cleon_os_jgz_yes_fork.Kernel.Ramdisk.Walk.{iterate}
use cleon_os_jgz_yes_fork.Kernel.Fs.{Fs, blank_node, ensure_root}
use cleon_os_jgz_yes_fork.Kernel.Fs.Dirs.{ramdisk_visit, require_directory}

abbrev system_path : List ℕ
system_path = b'/' ∷ b's' ∷ b'y' ∷ b's' ∷ b't' ∷ b'e' ∷ b'm' ∷ []

abbrev shell_path : List ℕ
shell_path = b'/' ∷ b's' ∷ b'h' ∷ b'e' ∷ b'l' ∷ b'l' ∷ []

abbrev temp_path : List ℕ
temp_path = b'/' ∷ b't' ∷ b'e' ∷ b'm' ∷ b'p' ∷ []

abbrev driver_path : List ℕ
driver_path = b'/' ∷ b'd' ∷ b'r' ∷ b'i' ∷ b'v' ∷ b'e' ∷ b'r' ∷ []

abbrev dev_path : List ℕ
dev_path = b'/' ∷ b'd' ∷ b'e' ∷ b'v' ∷ []

-- The cleared table, over the heap that is there.
abbrev pub cleared : Heap → (ℕ → List ℕ) → Fs
cleared heap bytes = record {
  nodes = λ i. blank_node;
  nodes_used = 0;
  is_ready = false;
  heap = heap;
  bytes = bytes;
}

-- The directories that must be there.
abbrev pub required : Fs → Bool
required fs =
    require_directory fs system_path
    && require_directory fs shell_path
    && require_directory fs temp_path
    && require_directory fs driver_path
    && require_directory fs dev_path

-- The ramdisk is read into the table.
unfoldable pub load : List ℕ → Fs → Bool × Fs
load image fs =
    let (done, s) =
      iterate ramdisk_visit (some image) (fs, record { file_count = 0; dir_count = 0 }) in
    (done, s.0)

-- `clks_fs_init`, the log lines aside. The boot loader's modules are a list; `none` is a module
-- that is NULL or has no address.
unfoldable pub init : List (Option (List ℕ)) → Heap → (ℕ → List ℕ) → Fs
unfolding load
init modules heap bytes =
    let (rooted, fs) = ensure_root (cleared heap bytes) in
    if rooted
    then elim modules [
      | [] ↦ fs
      | none ∷ _ ↦ fs
      | some [] ∷ _ ↦ fs
      | some (b ∷ bs) ∷ _ ↦
          (let (done, fs') = load (b ∷ bs) fs in
            if done then (if required fs' then record fs' { is_ready = true } else fs') else fs')
    ]
    else fs
