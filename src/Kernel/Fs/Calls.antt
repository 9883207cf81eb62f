-- ===== src/Kernel/Fs/Calls.antt =====
-- What a sequence of calls leaves alone: every node outside the temp tree.
use cleon_os_jgz_yes_fork.Base.{
  ltb, ◌==◌, if_cases, option_cases, u64_mod, ℕ, ◌+◌, ◌-◌, ◌≡◌, refl, ap, ◌∙◌, Bool, true, ◌&&◌,
  Option, none, some, List, [], ◌∷◌, arith,
}
use cleon_os_jgz_yes_fork.Kernel.Heap.{kmalloc}
use cleon_os_jgz_yes_fork.Kernel.Strings.{str_eq}
use cleon_os_jgz_yes_fork.Kernel.Path.{
  path_max, normalize, in_temp_tree, is_temp_file_path, split_parent,
}
use cleon_os_jgz_yes_fork.Kernel.Fs.{
  Fs, Node, Pointer, is_dir, is_file, find_internal, release_heap_data,
}
use cleon_os_jgz_yes_fork.Kernel.Fs.Frozen.{
  Frozen, Frozen-refl, Frozen-trans, Frozen-of_Keeps, set_node-Frozen, find_internal-path,
}
use cleon_os_jgz_yes_fork.Kernel.Fs.Temp.{
  FrozenBy, SameNodes, Frozen-of_SameNodes, build_file_payload-SameNodes, release_heap_data-Frozen,
  install-Frozen, mkdir-Frozen, ensure_dir_hierarchy-Keeps,
}
use cleon_os_jgz_yes_fork.Kernel.Fs.Dirs.{ensure_dir_hierarchy}
use cleon_os_jgz_yes_fork.Kernel.Fs.Ops.{
  temp_name, build_file_payload, mkdir, put_file, write_internal, write_all,
}
use cleon_os_jgz_yes_fork.Kernel.Fs.Edit.{
  merged_bytes, lacks_data, append_merged, append_existing, append, removed_node, has_child_from,
  remove_node, remove,
}

pub is_temp_file_path-in_temp_tree :
    (p : List ℕ) → is_temp_file_path p ≡ true → in_temp_tree p ≡ true
unfolding is_temp_file_path
is_temp_file_path-in_temp_tree p h = ground arith

-- The payload is built before the old node is given up: its nodes are the old ones.
payload_path :
    (fs fs' : Fs) (internal : List ℕ)
    → SameNodes fs fs'
    → (i : ℕ) → find_internal fs internal ≡ some i
    → (fs'.nodes i).path ≡ internal
payload_path fs fs' internal same i e =
    ap (λ (f : ℕ → Node). (f i).path) same.nodes ∙ (find_internal-path fs internal i e).0

put_file-Frozen :
    (fs : Fs) (internal parent : List ℕ) (bytes : Option (List ℕ)) (size : ℕ)
    → in_temp_tree internal ≡ true
    → FrozenBy fs (put_file fs internal parent bytes size)
unfolding put_file
put_file-Frozen fs internal parent bytes size t =
    option_cases (FrozenBy fs) (find_internal fs parent) _ _ (λ _. Frozen-refl fs)
      λ d _.
        if_cases (FrozenBy fs) (is_dir (fs.nodes d).kind)
          (λ _.
            if_cases (FrozenBy fs)
              (elim old as (λ _. Bool) [ none ↦ true | some i ↦ is_file (fs.nodes i).kind ])
              (λ _.
                option_cases (FrozenBy fs) built.0 _ _ (λ _. kept)
                  λ q _. Frozen-trans kept (
                    install-Frozen built.1 internal d old q.0 q.1 size
                      (payload_path fs built.1 internal same) t))
              λ _. Frozen-refl fs)
          λ _. Frozen-refl fs
  where
    old : Option ℕ
    old = find_internal fs internal

    built : Option (Pointer × Bool) × Fs
    built = build_file_payload fs bytes size

    same : SameNodes fs built.1
    same = build_file_payload-SameNodes fs bytes size

    kept : Frozen fs built.1
    kept = Frozen-of_SameNodes same

pub write_internal-Frozen :
    (fs : Fs) (internal : List ℕ) (bytes : Option (List ℕ)) (size : ℕ)
    → in_temp_tree internal ≡ true
    → FrozenBy fs (write_internal fs internal bytes size)
unfolding write_internal
write_internal-Frozen fs internal bytes size t =
    option_cases (FrozenBy fs) (split_parent internal path_max) _ _ (λ _. Frozen-refl fs)
      λ parent _.
        let made = Frozen-of_Keeps (ensure_dir_hierarchy-Keeps fs parent) in
        if_cases (FrozenBy fs) (in_temp_tree parent)
          (λ _.
            if_cases (FrozenBy fs) (ensure_dir_hierarchy fs parent).0
              (λ _.
                Frozen-trans made
                  (put_file-Frozen (ensure_dir_hierarchy fs parent).1 internal parent bytes size t))
              λ _. made)
          λ _. Frozen-refl fs

pub write_all-Frozen :
    (fs : Fs) (path bytes : Option (List ℕ)) (size : ℕ) → FrozenBy fs (write_all fs path bytes size)
unfolding write_all
write_all-Frozen fs path bytes size =
    if_cases (FrozenBy fs) fs.is_ready
      (λ _.
        option_cases (FrozenBy fs) (normalize path path_max) _ _ (λ _. Frozen-refl fs)
          λ internal _.
            if_cases (FrozenBy fs) (is_temp_file_path internal)
              (λ t.
                write_internal-Frozen fs internal bytes size
                  (is_temp_file_path-in_temp_tree internal t))
              λ _. Frozen-refl fs)
      λ _. Frozen-refl fs

append_merged-Frozen :
    (fs : Fs) (path : Option (List ℕ)) (p : Pointer) (n : ℕ) (bytes : Option (List ℕ)) (size : ℕ)
    → FrozenBy fs (append_merged fs path p n bytes size)
unfolding append_merged
append_merged-Frozen fs path p n bytes size =
    option_cases (FrozenBy fs) (kmalloc fs.heap (n + size)).0 _ _
      (λ _. Frozen-of_SameNodes (record { nodes = refl; used = refl; ready = refl }))
      λ a _.
        Frozen-trans (Frozen-of_SameNodes (record { nodes = refl; used = refl; ready = refl })) (
          Frozen-trans
            (write_all-Frozen _ path (some (merged_bytes fs a p n bytes size)) (n + size))
            (Frozen-of_SameNodes (record { nodes = refl; used = refl; ready = refl })))

append_existing-Frozen :
    (fs : Fs) (path : Option (List ℕ)) (i : ℕ) (bytes : Option (List ℕ)) (size : ℕ)
    → FrozenBy fs (append_existing fs path i bytes size)
unfolding append_existing
append_existing-Frozen fs path i bytes size =
    if_cases (FrozenBy fs) (is_file (fs.nodes i).kind)
      (λ _.
        if_cases (FrozenBy fs) (ltb (u64_mod - 1 - size) (fs.nodes i).size) (λ _. Frozen-refl fs)
          λ _.
            if_cases (FrozenBy fs) ((fs.nodes i).size + size == 0)
              (λ _. write_all-Frozen fs path (some (0 ∷ [])) 0)
              λ _. append_merged-Frozen fs path (fs.nodes i).data_at (fs.nodes i).size bytes size)
      λ _. Frozen-refl fs

append-Frozen :
    (fs : Fs) (path bytes : Option (List ℕ)) (size : ℕ) → FrozenBy fs (append fs path bytes size)
unfolding append
append-Frozen fs path bytes size =
    if_cases (FrozenBy fs) fs.is_ready
      (λ _.
        if_cases (FrozenBy fs) (lacks_data bytes size) (λ _. Frozen-refl fs)
          λ _.
            option_cases (FrozenBy fs) (normalize path path_max) _ _ (λ _. Frozen-refl fs)
              λ internal _.
                if_cases (FrozenBy fs) (is_temp_file_path internal)
                  (λ _.
                    option_cases (FrozenBy fs) (find_internal fs internal) _ _
                      (λ _. write_all-Frozen fs path bytes size)
                      λ i _. append_existing-Frozen fs path i bytes size)
                  λ _. Frozen-refl fs)
      λ _. Frozen-refl fs

release_heap_data-path :
    (fs : Fs) (i : ℕ)
    → in_temp_tree (fs.nodes i).path ≡ true
    → in_temp_tree ((release_heap_data fs i).nodes i).path ≡ true
unfolding release_heap_data
release_heap_data-path fs i t = ground arith

remove_node-Frozen :
    (fs : Fs) (i : ℕ) → in_temp_tree (fs.nodes i).path ≡ true → FrozenBy fs (remove_node fs i)
unfolding remove_node
remove_node-Frozen fs i t =
    if_cases (FrozenBy fs) (is_dir (fs.nodes i).kind && has_child_from fs.nodes i 0 fs.nodes_used)
      (λ _. Frozen-refl fs)
      λ _.
        Frozen-trans (release_heap_data-Frozen fs i t)
          (set_node-Frozen (release_heap_data fs i) i removed_node (release_heap_data-path fs i t))

remove-Frozen : (fs : Fs) (path : Option (List ℕ)) → FrozenBy fs (remove fs path)
unfolding remove
remove-Frozen fs path =
    if_cases (FrozenBy fs) fs.is_ready
      (λ _.
        option_cases (FrozenBy fs) (normalize path path_max) _ _ (λ _. Frozen-refl fs)
          λ internal _.
            if_cases (FrozenBy fs) (in_temp_tree internal)
              (λ t.
                if_cases (FrozenBy fs) (str_eq internal temp_name) (λ _. Frozen-refl fs)
                  λ _.
                    option_cases (FrozenBy fs) (find_internal fs internal) _ _ (λ _. Frozen-refl fs)
                      λ i e.
                        remove_node-Frozen fs i
                          (ap in_temp_tree (find_internal-path fs internal i e).0 ∙ t))
              λ _. Frozen-refl fs)
      λ _. Frozen-refl fs

-- A call that changes the file system, with its arguments.
pub data Call : Type 0 where
  mkdir_call : Option (List ℕ) → Call
  write_call append_call : Option (List ℕ) → Option (List ℕ) → ℕ → Call
  remove_call : Option (List ℕ) → Call

unfoldable pub perform : Call → Fs → Fs
perform (mkdir_call path) fs = (mkdir fs path).1
perform (write_call path bytes size) fs = (write_all fs path bytes size).1
perform (append_call path bytes size) fs = (append fs path bytes size).1
perform (remove_call path) fs = (remove fs path).1

unfoldable pub run : List Call → Fs → Fs
unfolding perform
run [] fs = fs
run (c ∷ cs) fs = run cs (perform c fs)

perform-Frozen : (c : Call) (fs : Fs) → Frozen fs (perform c fs)
unfolding perform
perform-Frozen (mkdir_call path) fs = mkdir-Frozen fs path
perform-Frozen (write_call path bytes size) fs = write_all-Frozen fs path bytes size
perform-Frozen (append_call path bytes size) fs = append-Frozen fs path bytes size
perform-Frozen (remove_call path) fs = remove-Frozen fs path

-- No sequence of calls of mkdir, write_all, append and remove, whatever their arguments and whether
-- they succeed or fail, changes a node that is in use outside the temp tree: it keeps its place, its
-- path, its kind, its parent, its size and its data pointer. The table never shrinks.
pub run-Frozen : (cs : List Call) (fs : Fs) → Frozen fs (run cs fs)
unfolding run
run-Frozen [] fs = Frozen-refl fs
run-Frozen (c ∷ cs) fs = Frozen-trans (perform-Frozen c fs) (run-Frozen cs (perform c fs))
