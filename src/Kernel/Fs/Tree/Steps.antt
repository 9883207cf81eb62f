-- ===== src/Kernel/Fs/Tree/Steps.antt =====
-- The steps of the calls keep the node table a tree: the directories of a path, and a file's node.
use cleon_os_jgz_yes_fork.Base.{
  leb, ◌==◌, if◌then◌else◌, if_cases, option_cases, length, ℕ, zero, suc, ◌≡◌, refl, ap, Bool,
  Option, none, some, List, [], ◌∷◌, arith,
}
use cleon_os_jgz_yes_fork.Kernel.Path.{path_max, component, after_component, push_component}
use cleon_os_jgz_yes_fork.Kernel.Fs.{
  Fs, Node, Pointer, null, dir, file, is_dir, set_node, find_internal, create_or_update,
  update_node, create_node,
}
use cleon_os_jgz_yes_fork.Kernel.Fs.Find.{create_node-Created}
use cleon_os_jgz_yes_fork.Kernel.Fs.Frozen.{find_internal-path}
use cleon_os_jgz_yes_fork.Kernel.Fs.Temp.{SameNodes}
use cleon_os_jgz_yes_fork.Kernel.Fs.Dirs.{enter_dir, skip_slash, ensure_from, ensure_dir_hierarchy}
use cleon_os_jgz_yes_fork.Kernel.Fs.Ops.{release_old, install}
use cleon_os_jgz_yes_fork.Kernel.Fs.Tree.{
  IsDirAt, IsTree, SameShape, SameShape-IsTree, SameShape-IsDirAt, release_heap_data-SameShape,
}
use cleon_os_jgz_yes_fork.Kernel.Fs.Tree.Change.{create_or_update-IsTree}

created-IsDirAt :
    (fs : Fs) (path : List ℕ) (parent : ℕ)
    → find_internal fs path ≡ none
    → (k : ℕ) → (create_or_update fs path dir parent null 0).0 ≡ some k
    → IsDirAt (create_or_update fs path dir parent null 0).1 k
unfolding create_or_update
created-IsDirAt fs path parent e =
    if_cases P (leb path_max (length path)) (λ _ k q. absurd (cc q))
      λ _. cases (find_internal fs path) e
  where
    P : Option ℕ × Fs → Type 0
    P r = (k : ℕ) → r.0 ≡ some k → IsDirAt r.1 k

    cases :
        (o : Option ℕ)
        → o ≡ none
        → P (elim o as (λ _. Option ℕ × Fs) [
          | some i ↦ update_node fs i dir parent null 0
          | none ↦ create_node fs path dir parent null 0
        ])
    cases none q k r =
        let c = (create_node-Created fs path dir parent null 0).placed k r in
        (c.0, c.1, ap is_dir c.3)
    cases (some i) q k r = absurd (cc q)

-- The table is a tree, and the index that is returned is that of a directory.
abbrev Entered : Option ℕ × Fs → Type 0
Entered r = IsTree r.1 × ((k : ℕ) → r.0 ≡ some k → IsDirAt r.1 k)

enter_dir-Entered :
    (fs : Fs) (prefix : List ℕ) (parent : ℕ)
    → IsTree fs
    → IsDirAt fs parent
    → Entered (enter_dir fs prefix parent)
unfolding enter_dir
enter_dir-Entered fs prefix parent t p = cases (find_internal fs prefix) refl
  where
    cases :
        (o : Option ℕ)
        → find_internal fs prefix ≡ o
        → Entered (elim o as (λ _. Option ℕ × Fs) [
          | none ↦ create_or_update fs prefix dir parent null 0
          | some i ↦ (if is_dir (fs.nodes i).kind then some i else none, fs)
        ])
    cases none e = (
      create_or_update-IsTree fs prefix dir parent null 0 t p,
      created-IsDirAt fs prefix parent e,
    )
    cases (some i) e = let f = find_internal-path fs prefix i e in (t, λ k q. ground (arith, f))

-- The result of a call.
abbrev pub TreeAfter : Bool × Fs → Type 0
TreeAfter r = IsTree r.1

ensure_from-IsTree :
    (fuel : ℕ) (fs : Fs) (rest prefix : List ℕ) (parent : ℕ)
    → IsTree fs
    → IsDirAt fs parent
    → TreeAfter (ensure_from fuel fs rest prefix parent)
unfolding ensure_from
ensure_from-IsTree zero fs rest prefix parent t p = t
ensure_from-IsTree (suc fuel) fs [] prefix parent t p = t
ensure_from-IsTree (suc fuel) fs (c ∷ cs) prefix parent t p =
    if_cases TreeAfter (length (component (c ∷ cs)) == 0) (λ _. t)
      λ _.
        option_cases TreeAfter (push_component path_max prefix (component (c ∷ cs))) _ _ (λ _. t)
          λ next _.
            let entered = enter_dir-Entered fs next parent t p in
            option_cases TreeAfter (enter_dir fs next parent).0 _ _ (λ _. entered.0)
              λ k e.
                ensure_from-IsTree fuel (enter_dir fs next parent).1
                  (skip_slash (after_component (c ∷ cs))) next k entered.0 (entered.1 k e)

pub ensure_dir_hierarchy-IsTree :
    (fs : Fs) (path : List ℕ) → IsTree fs → TreeAfter (ensure_dir_hierarchy fs path)
unfolding ensure_dir_hierarchy
ensure_dir_hierarchy-IsTree fs path t = ensure_from-IsTree (suc (length path)) fs path [] 0 t t.root

pub SameNodes-SameShape : {fs fs' : Fs} → SameNodes fs fs' → SameShape fs fs'
SameNodes-SameShape {fs} {fs'} s = record {
  count = s.used;
  used_same = λ i. ap (λ (f : ℕ → Node). (f i).used) s.nodes;
  kind_same = λ i. ap (λ (f : ℕ → Node). (f i).kind) s.nodes;
  parent_same = λ i. ap (λ (f : ℕ → Node). (f i).parent) s.nodes;
  path_same = λ i. ap (λ (f : ℕ → Node). (f i).path) s.nodes;
}

pub heap_change :
    (fs fs' : Fs)
    → fs'.nodes ≡ fs.nodes
    → fs'.nodes_used ≡ fs.nodes_used
    → fs'.is_ready ≡ fs.is_ready
    → IsTree fs
    → IsTree fs'
heap_change fs fs' n u r =
    SameShape-IsTree (SameNodes-SameShape (record { nodes = n; used = u; ready = r }))

release_old-SameShape : (fs : Fs) (old : Option ℕ) → SameShape fs (release_old fs old)
release_old-SameShape fs none =
    SameNodes-SameShape (record { nodes = refl; used = refl; ready = refl })
release_old-SameShape fs (some i) = release_heap_data-SameShape fs i

pub install-IsTree :
    (fs : Fs) (internal : List ℕ) (parent : ℕ) (old : Option ℕ) (p : Pointer) (owned : Bool)
    (size : ℕ)
    → IsTree fs
    → IsDirAt fs parent
    → TreeAfter (install fs internal parent old p owned size)
unfolding install
install-IsTree fs internal parent old p owned size t d =
    option_cases TreeAfter made.0 _ _
      (λ _. if_cases IsTree owned (λ _. heap_change made.1 _ refl refl refl placed) λ _. placed)
      λ k e. SameShape-IsTree (flagged k) placed
  where
    shape : SameShape fs (release_old fs old)
    shape = release_old-SameShape fs old

    made : Option ℕ × Fs
    made = create_or_update (release_old fs old) internal file parent p size

    placed : IsTree made.1
    placed =
        create_or_update-IsTree (release_old fs old) internal file parent p size
          (SameShape-IsTree shape t) (SameShape-IsDirAt shape parent d)

    flagged :
        (k : ℕ)
        → SameShape made.1 (set_node made.1 k (record (made.1.nodes k) { heap_data = owned }))
    flagged k = record {
      count = refl;
      used_same = λ j. ground arith;
      kind_same = λ j. ground arith;
      parent_same = λ j. ground arith;
      path_same = λ j. ground arith;
    }
