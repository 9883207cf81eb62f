-- ===== src/Kernel/Fs/Temp.antt =====
-- No call changes a node outside the temp tree: call by call, and for any sequence of calls.
use cleon_os_jgz_yes_fork.Base.{
  leb, ◌==◌, if◌then◌else◌, if_cases, option_cases, length, char_at, ℕ, zero, suc, ◌≡◌, refl, ap,
  ◌∙◌, Bool, true, Option, none, some, List, [], ◌∷◌, arith,
}
use cleon_os_jgz_yes_fork.Kernel.Path.{
  path_max, normalize, in_temp_tree, component, after_component, push_component,
}
use cleon_os_jgz_yes_fork.Kernel.Fs.{
  Fs, Node, NodeType, Pointer, null, dir, file, is_dir, find_internal, create_or_update,
  update_node, create_node, release_heap_data,
}
use cleon_os_jgz_yes_fork.Kernel.Fs.Frozen.{
  Frozen, Frozen-refl, Frozen-trans, Frozen-of_Keeps, Settled, create_or_update-Settled,
  set_node-Frozen,
}
use cleon_os_jgz_yes_fork.Kernel.Fs.Find.{Keeps, Keeps-refl, Keeps-trans, create_node-Created}
use cleon_os_jgz_yes_fork.Kernel.Fs.Dirs.{enter_dir, skip_slash, ensure_from, ensure_dir_hierarchy}
use cleon_os_jgz_yes_fork.Kernel.Fs.Ops.{build_file_payload, make_dir, mkdir, release_old, install}

-- Where no node is found, the node is created.
pub create_or_update-Keeps :
    (fs : Fs) (path : List ℕ) (kind : NodeType) (parent : ℕ) (at : Pointer) (size : ℕ)
    → find_internal fs path ≡ none
    → Keeps fs (create_or_update fs path kind parent at size).1
unfolding create_or_update
create_or_update-Keeps fs path kind parent at size e =
    if_cases (λ (r : Option ℕ × Fs). Keeps fs r.1) (leb path_max (length path)) (λ _. Keeps-refl fs)
      λ _. cases (find_internal fs path) e
  where
    cases :
        (o : Option ℕ)
        → o ≡ none
        → Keeps fs
            (elim o as (λ _. Option ℕ × Fs) [
              | some i ↦ update_node fs i kind parent at size
              | none ↦ create_node fs path kind parent at size
            ]).1
    cases none q = (create_node-Created fs path kind parent at size).keeps
    cases (some i) q = absurd (cc q)

pub enter_dir-Keeps :
    (fs : Fs) (prefix : List ℕ) (parent : ℕ) → Keeps fs (enter_dir fs prefix parent).1
unfolding enter_dir
enter_dir-Keeps fs prefix parent = cases (find_internal fs prefix) refl
  where
    cases :
        (o : Option ℕ)
        → find_internal fs prefix ≡ o
        → Keeps fs
            (elim o as (λ _. Option ℕ × Fs) [
              | none ↦ create_or_update fs prefix dir parent null 0
              | some i ↦ (if is_dir (fs.nodes i).kind then some i else none, fs)
            ]).1
    cases none e = create_or_update-Keeps fs prefix dir parent null 0 e
    cases (some i) e = Keeps-refl fs

-- Creating a hierarchy of directories changes no node that is in use.
pub ensure_from-Keeps :
    (fuel : ℕ) (fs : Fs) (rest prefix : List ℕ) (parent : ℕ)
    → Keeps fs (ensure_from fuel fs rest prefix parent).1
unfolding ensure_from
ensure_from-Keeps zero fs rest prefix parent = Keeps-refl fs
ensure_from-Keeps (suc fuel) fs [] prefix parent = Keeps-refl fs
ensure_from-Keeps (suc fuel) fs (c ∷ cs) prefix parent =
    if_cases P (length (component (c ∷ cs)) == 0) (λ _. Keeps-refl fs)
      λ _.
        option_cases P (push_component path_max prefix (component (c ∷ cs))) _ _
          (λ _. Keeps-refl fs)
          λ next _.
            let entered = enter_dir-Keeps fs next parent in
            option_cases P (enter_dir fs next parent).0 _ _ (λ _. entered)
              λ k _. Keeps-trans entered (
                ensure_from-Keeps fuel (enter_dir fs next parent).1
                  (skip_slash (after_component (c ∷ cs))) next k)
  where
    P : Bool × Fs → Type 0
    P r = Keeps fs r.1

-- Creating the directories of a path, whether it succeeds or fails halfway, changes no node that is
-- in use, wherever it stands, and never shrinks the table.
pub ensure_dir_hierarchy-Keeps :
    (fs : Fs) (path : List ℕ) → Keeps fs (ensure_dir_hierarchy fs path).1
unfolding ensure_dir_hierarchy
ensure_dir_hierarchy-Keeps fs path = ensure_from-Keeps (suc (length path)) fs path [] 0

abbrev pub FrozenBy : Fs → Bool × Fs → Type 0
FrozenBy fs r = Frozen fs r.1

make_dir-Frozen : (fs : Fs) (internal : List ℕ) → FrozenBy fs (make_dir fs internal)
unfolding make_dir
make_dir-Frozen fs internal =
    let e = Frozen-of_Keeps (ensure_dir_hierarchy-Keeps fs internal) in
    if_cases (FrozenBy fs) (ensure_dir_hierarchy fs internal).0 (λ _. e) λ _. e

pub mkdir-Frozen : (fs : Fs) (path : Option (List ℕ)) → FrozenBy fs (mkdir fs path)
unfolding mkdir
mkdir-Frozen fs path =
    if_cases (FrozenBy fs) fs.is_ready
      (λ _.
        option_cases (FrozenBy fs) (normalize path path_max) _ _ (λ _. Frozen-refl fs)
          λ internal _.
            if_cases (FrozenBy fs) (in_temp_tree internal)
              (λ _.
                if_cases (FrozenBy fs) (char_at internal 0 == 0) (λ _. Frozen-refl fs)
                  λ _. make_dir-Frozen fs internal)
              λ _. Frozen-refl fs)
      λ _. Frozen-refl fs

-- Nodes are as they were: only the heap and the contents of its blocks change.
pub record SameNodes (fs fs' : Fs) : Type 0 where
  pub nodes : fs'.nodes ≡ fs.nodes
  pub used : fs'.nodes_used ≡ fs.nodes_used
  pub ready : fs'.is_ready ≡ fs.is_ready

SameNodes-refl : (fs : Fs) → SameNodes fs fs
SameNodes-refl fs = record { nodes = refl; used = refl; ready = refl }

pub Frozen-of_SameNodes : {fs fs' : Fs} → SameNodes fs fs' → Frozen fs fs'
Frozen-of_SameNodes s = record {
  grows = omega (arith, s.used);
  ready = s.ready;
  kept = λ i h u t. ap (λ (f : ℕ → Node). f i) s.nodes;
}

pub build_file_payload-SameNodes :
    (fs : Fs) (bytes : Option (List ℕ)) (size : ℕ)
    → SameNodes fs (build_file_payload fs bytes size).1
unfolding build_file_payload
build_file_payload-SameNodes fs bytes size = record {
  nodes = ground arith;
  used = ground arith;
  ready = ground arith;
}

pub release_heap_data-Frozen :
    (fs : Fs) (i : ℕ) → in_temp_tree (fs.nodes i).path ≡ true → Frozen fs (release_heap_data fs i)
unfolding release_heap_data
release_heap_data-Frozen fs i t = record {
  grows = ground arith;
  ready = ground arith;
  kept = λ j lt u o. ground arith;
}

release_old-Frozen :
    (fs : Fs) (internal : List ℕ) (old : Option ℕ)
    → ((i : ℕ) → old ≡ some i → (fs.nodes i).path ≡ internal)
    → in_temp_tree internal ≡ true
    → Frozen fs (release_old fs old)
release_old-Frozen fs internal none h t = Frozen-refl fs
release_old-Frozen fs internal (some i) h t =
    release_heap_data-Frozen fs i (ap in_temp_tree (h i refl) ∙ t)

pub install-Frozen :
    (fs : Fs) (internal : List ℕ) (parent : ℕ) (old : Option ℕ) (p : Pointer) (owned : Bool)
    (size : ℕ)
    → ((i : ℕ) → old ≡ some i → (fs.nodes i).path ≡ internal)
    → in_temp_tree internal ≡ true
    → FrozenBy fs (install fs internal parent old p owned size)
unfolding install
install-Frozen fs internal parent old p owned size h t =
    option_cases (FrozenBy fs) made.0 _ _
      (λ _. Frozen-trans before (
        if_cases (Frozen made.1) owned
          (λ _. Frozen-of_SameNodes (record { nodes = refl; used = refl; ready = refl }))
          λ _. Frozen-refl made.1))
      λ k e.
        Frozen-trans before (set_node-Frozen made.1 k _ (ap in_temp_tree (settled.path_of k e) ∙ t))
  where
    made : Option ℕ × Fs
    made = create_or_update (release_old fs old) internal file parent p size

    settled : Settled (release_old fs old) internal made
    settled = create_or_update-Settled (release_old fs old) internal file parent p size t

    before : Frozen fs made.1
    before = Frozen-trans (release_old-Frozen fs internal old h t) settled.frozen
