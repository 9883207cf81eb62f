-- ===== src/Kernel/Fs/Tree/Calls.antt =====
-- Every call keeps the node table a tree.
use cleon_os_jgz_yes_fork.Base.{
  ltb, ◌==◌, if_cases, option_cases, u64_mod, store, char_at, ℕ, ◌+◌, ◌-◌, ◌≡◌, refl, sym, ap, ◌∙◌,
  Bool, true, Option, none, some, List, [], ◌∷◌, arith,
}
use cleon_os_jgz_yes_fork.Kernel.Heap.{kmalloc}
use cleon_os_jgz_yes_fork.Kernel.Strings.{str_eq}
use cleon_os_jgz_yes_fork.Kernel.Path.{
  path_max, normalize, in_temp_tree, is_temp_file_path, split_parent,
}
use cleon_os_jgz_yes_fork.Kernel.Fs.{Fs, Pointer, is_dir, is_file, find_internal}
use cleon_os_jgz_yes_fork.Kernel.Fs.Frozen.{find_internal-path}
use cleon_os_jgz_yes_fork.Kernel.Fs.Temp.{build_file_payload-SameNodes}
use cleon_os_jgz_yes_fork.Kernel.Fs.Dirs.{ensure_dir_hierarchy}
use cleon_os_jgz_yes_fork.Kernel.Fs.Ops.{
  temp_name, build_file_payload, make_dir, mkdir, put_file, write_internal, write_all,
}
use cleon_os_jgz_yes_fork.Kernel.Fs.Edit.{
  merged_bytes, lacks_data, append_merged, append_existing, append, remove,
}
use cleon_os_jgz_yes_fork.Kernel.Fs.Calls.{
  Call, mkdir_call, write_call, append_call, remove_call, perform, run,
}
use cleon_os_jgz_yes_fork.Kernel.Fs.Tree.{IsTree, SameShape, SameShape-IsTree, SameShape-IsDirAt}
use cleon_os_jgz_yes_fork.Kernel.Fs.Tree.Change.{remove_node-IsTree}
use cleon_os_jgz_yes_fork.Kernel.Fs.Tree.Steps.{
  TreeAfter, SameNodes-SameShape, heap_change, install-IsTree, ensure_dir_hierarchy-IsTree,
}

put_file-IsTree :
    (fs : Fs) (internal parent : List ℕ) (bytes : Option (List ℕ)) (size : ℕ)
    → IsTree fs
    → TreeAfter (put_file fs internal parent bytes size)
unfolding put_file
put_file-IsTree fs internal parent bytes size t =
    option_cases TreeAfter (find_internal fs parent) _ _ (λ _. t)
      λ d e.
        if_cases TreeAfter (is_dir (fs.nodes d).kind)
          (λ k.
            if_cases TreeAfter
              (elim old as (λ _. Bool) [ none ↦ true | some i ↦ is_file (fs.nodes i).kind ])
              (λ _.
                option_cases TreeAfter built.0 _ _ (λ _. SameShape-IsTree shape t)
                  λ q _.
                    install-IsTree built.1 internal d old q.0 q.1 size (SameShape-IsTree shape t) (
                      SameShape-IsDirAt shape d
                        (let f = find_internal-path fs parent d e in (f.2, f.1, k))))
              λ _. t)
          λ _. t
  where
    old : Option ℕ
    old = find_internal fs internal

    built : Option (Pointer × Bool) × Fs
    built = build_file_payload fs bytes size

    shape : SameShape fs built.1
    shape = SameNodes-SameShape (build_file_payload-SameNodes fs bytes size)

write_internal-IsTree :
    (fs : Fs) (internal : List ℕ) (bytes : Option (List ℕ)) (size : ℕ)
    → IsTree fs
    → TreeAfter (write_internal fs internal bytes size)
unfolding write_internal
write_internal-IsTree fs internal bytes size t =
    option_cases TreeAfter (split_parent internal path_max) _ _ (λ _. t)
      λ parent _.
        let made = ensure_dir_hierarchy-IsTree fs parent t in
        if_cases TreeAfter (in_temp_tree parent)
          (λ _.
            if_cases TreeAfter (ensure_dir_hierarchy fs parent).0
              (λ _.
                put_file-IsTree (ensure_dir_hierarchy fs parent).1 internal parent bytes size made)
              λ _. made)
          λ _. t

write_all-IsTree :
    (fs : Fs) (path bytes : Option (List ℕ)) (size : ℕ)
    → IsTree fs
    → TreeAfter (write_all fs path bytes size)
unfolding write_all
write_all-IsTree fs path bytes size t =
    if_cases TreeAfter fs.is_ready
      (λ _.
        option_cases TreeAfter (normalize path path_max) _ _ (λ _. t)
          λ internal _.
            if_cases TreeAfter (is_temp_file_path internal)
              (λ _. write_internal-IsTree fs internal bytes size t) λ _. t)
      λ _. t

mkdir-IsTree : (fs : Fs) (path : Option (List ℕ)) → IsTree fs → TreeAfter (mkdir fs path)
unfolding mkdir make_dir
mkdir-IsTree fs path t =
    if_cases TreeAfter fs.is_ready
      (λ _.
        option_cases TreeAfter (normalize path path_max) _ _ (λ _. t)
          λ internal _.
            if_cases TreeAfter (in_temp_tree internal)
              (λ _.
                if_cases TreeAfter (char_at internal 0 == 0) (λ _. t)
                  λ _.
                    let made = ensure_dir_hierarchy-IsTree fs internal t in
                    if_cases TreeAfter (ensure_dir_hierarchy fs internal).0 (λ _. made) λ _. made)
              λ _. t)
      λ _. t

append_merged-IsTree :
    (fs : Fs) (path : Option (List ℕ)) (p : Pointer) (n : ℕ) (bytes : Option (List ℕ)) (size : ℕ)
    → IsTree fs
    → TreeAfter (append_merged fs path p n bytes size)
unfolding append_merged
append_merged-IsTree fs path p n bytes size t =
    option_cases TreeAfter (kmalloc fs.heap (n + size)).0 _ _
      (λ _. heap_change fs _ refl refl refl t)
      λ a _.
        heap_change
          (write_all
            (record fs {
              heap = (kmalloc fs.heap (n + size)).1;
              bytes = store fs.bytes a (merged_bytes fs a p n bytes size);
            })
            path (some (merged_bytes fs a p n bytes size)) (n + size)).1
          _ refl refl refl
          (write_all-IsTree _ path (some (merged_bytes fs a p n bytes size)) (n + size)
            (heap_change fs _ refl refl refl t))

append_existing-IsTree :
    (fs : Fs) (path : Option (List ℕ)) (i : ℕ) (bytes : Option (List ℕ)) (size : ℕ)
    → IsTree fs
    → TreeAfter (append_existing fs path i bytes size)
unfolding append_existing
append_existing-IsTree fs path i bytes size t =
    if_cases TreeAfter (is_file (fs.nodes i).kind)
      (λ _.
        if_cases TreeAfter (ltb (u64_mod - 1 - size) (fs.nodes i).size) (λ _. t)
          λ _.
            if_cases TreeAfter ((fs.nodes i).size + size == 0)
              (λ _. write_all-IsTree fs path (some (0 ∷ [])) 0 t)
              λ _. append_merged-IsTree fs path (fs.nodes i).data_at (fs.nodes i).size bytes size t)
      λ _. t

append-IsTree :
    (fs : Fs) (path bytes : Option (List ℕ)) (size : ℕ)
    → IsTree fs
    → TreeAfter (append fs path bytes size)
unfolding append
append-IsTree fs path bytes size t =
    if_cases TreeAfter fs.is_ready
      (λ _.
        if_cases TreeAfter (lacks_data bytes size) (λ _. t)
          λ _.
            option_cases TreeAfter (normalize path path_max) _ _ (λ _. t)
              λ internal _.
                if_cases TreeAfter (is_temp_file_path internal)
                  (λ _.
                    option_cases TreeAfter (find_internal fs internal) _ _
                      (λ _. write_all-IsTree fs path bytes size t)
                      λ i _. append_existing-IsTree fs path i bytes size t)
                  λ _. t)
      λ _. t

root_outside : in_temp_tree [] ≡ true → ⊥
unfolding in_temp_tree
root_outside h = absurd (ground arith)

remove-IsTree : (fs : Fs) (path : Option (List ℕ)) → IsTree fs → TreeAfter (remove fs path)
unfolding remove
remove-IsTree fs path t =
    if_cases TreeAfter fs.is_ready
      (λ _.
        option_cases TreeAfter (normalize path path_max) _ _ (λ _. t)
          λ internal _.
            if_cases TreeAfter (in_temp_tree internal)
              (λ temp.
                if_cases TreeAfter (str_eq internal temp_name) (λ _. t)
                  λ _.
                    option_cases TreeAfter (find_internal fs internal) _ _ (λ _. t)
                      λ i e.
                        remove_node-IsTree fs i t
                          (λ q. not_root (sym (find_internal-path fs internal i e).0 ∙ q) temp))
              λ _. t)
      λ _. t
  where
    not_root : {p : List ℕ} → p ≡ [] → in_temp_tree p ≡ true → ⊥
    not_root e temp = root_outside (sym (ap in_temp_tree e) ∙ temp)

perform-IsTree : (c : Call) (fs : Fs) → IsTree fs → IsTree (perform c fs)
unfolding perform
perform-IsTree (mkdir_call path) fs t = mkdir-IsTree fs path t
perform-IsTree (write_call path bytes size) fs t = write_all-IsTree fs path bytes size t
perform-IsTree (append_call path bytes size) fs t = append-IsTree fs path bytes size t
perform-IsTree (remove_call path) fs t = remove-IsTree fs path t

-- From a table that is a tree, any sequence of calls of mkdir, write_all, append and remove, failed
-- ones included, leads to a tree: node 0 is the root directory, no two nodes in use share a path, and
-- the parent of each node in use is a directory that is in use.
pub run-IsTree : (cs : List Call) (fs : Fs) → IsTree fs → IsTree (run cs fs)
unfolding run
run-IsTree [] fs t = t
run-IsTree (c ∷ cs) fs t = run-IsTree cs (perform c fs) (perform-IsTree c fs t)
