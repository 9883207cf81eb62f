-- ===== src/Kernel/Fs/Tree/Change.antt =====
-- What updates and removes one node keeps the table a tree.
use cleon_os_jgz_yes_fork.Base.{
  leb, if_cases, length, ℕ, ◌<◌, ◌≡◌, refl, sym, ap, subst, ◌∙◌, ◌≢◌, ◌⊎◌, inl, inr, Bool, true,
  false, ◌&&◌, Option, none, some, List, [], arith,
}
use native.Mathlib.Decide.{ℕ_discrete}
use cleon_os_jgz_yes_fork.Kernel.Path.{path_max}
use cleon_os_jgz_yes_fork.Kernel.Fs.{
  Fs, NodeType, Pointer, is_dir, set_node, find_internal, update_node, create_node,
  create_or_update, release_heap_data,
}
use cleon_os_jgz_yes_fork.Kernel.Fs.Frozen.{find_internal-path}
use cleon_os_jgz_yes_fork.Kernel.Fs.Edit.{has_child_from, removed_node, remove_node}
use cleon_os_jgz_yes_fork.Kernel.Fs.Children.{has_child_from-true}
use cleon_os_jgz_yes_fork.Kernel.Fs.Tree.{
  IsDirAt, IsTree, SameShape, SameShape-IsTree, release_heap_data-SameShape, create_node-IsTree,
}

-- Nodes may get a new parent, and other data.
record Moved (parent : ℕ) (fs fs' : Fs) : Type 0 where
  count : fs'.nodes_used ≡ fs.nodes_used
  used_same : (i : ℕ) → (fs'.nodes i).used ≡ (fs.nodes i).used
  kind_same : (i : ℕ) → (fs'.nodes i).kind ≡ (fs.nodes i).kind
  path_same : (i : ℕ) → (fs'.nodes i).path ≡ (fs.nodes i).path
  parent_or :
      (i : ℕ) → ((fs'.nodes i).parent ≡ (fs.nodes i).parent) ⊎ ((fs'.nodes i).parent ≡ parent)

Moved-IsDirAt :
    {parent : ℕ} {fs fs' : Fs} → Moved parent fs fs' → (d : ℕ) → IsDirAt fs d → IsDirAt fs' d
Moved-IsDirAt {parent} {fs} {fs'} s d h = ground (arith, s.count, s.used_same d, s.kind_same d)

Moved-IsTree :
    {parent : ℕ} {fs fs' : Fs} → Moved parent fs fs' → IsDirAt fs parent → IsTree fs → IsTree fs'
Moved-IsTree {parent} {fs} {fs'} s p t = record {
  root = Moved-IsDirAt s 0 t.root;
  root_path = s.path_same 0 ∙ t.root_path;
  parents = λ i lt u. elim (s.parent_or i) [
    | inl e ↦ subst (IsDirAt fs') (sym e) (
        Moved-IsDirAt s (fs.nodes i).parent
          (t.parents i (omega (arith, s.count)) (sym (s.used_same i) ∙ u)))
    | inr e ↦ subst (IsDirAt fs') (sym e) (Moved-IsDirAt s parent p)
  ];
  unique = λ i j a b u v e.
      t.unique i j (omega (arith, s.count)) (omega (arith, s.count)) (sym (s.used_same i) ∙ u)
        (sym (s.used_same j) ∙ v) (sym (s.path_same i) ∙ (e ∙ s.path_same j));
}

update_node-Moved :
    (fs : Fs) (i : ℕ) (kind : NodeType) (parent : ℕ) (at : Pointer) (size : ℕ)
    → (fs.nodes i).used ≡ true
    → Moved parent fs (update_node fs i kind parent at size).1
unfolding update_node
update_node-Moved fs i kind parent at size u = record {
  count = ground arith;
  used_same = λ j. ground arith;
  kind_same = λ j. ground arith;
  path_same = λ j. ground arith;
  parent_or = λ j. ground arith;
}

-- A node that is found or created under a path, below a directory.
pub create_or_update-IsTree :
    (fs : Fs) (path : List ℕ) (kind : NodeType) (parent : ℕ) (at : Pointer) (size : ℕ)
    → IsTree fs
    → IsDirAt fs parent
    → IsTree (create_or_update fs path kind parent at size).1
unfolding create_or_update
create_or_update-IsTree fs path kind parent at size t p =
    if_cases P (leb path_max (length path)) (λ _. t) λ _. cases (find_internal fs path) refl
  where
    P : Option ℕ × Fs → Type 0
    P r = IsTree r.1

    cases :
        (o : Option ℕ)
        → find_internal fs path ≡ o
        → P (elim o [
          | some i ↦ update_node fs i kind parent at size
          | none ↦ create_node fs path kind parent at size
        ])
    cases none e = create_node-IsTree fs path kind parent at size t p e
    cases (some i) e =
        Moved-IsTree (update_node-Moved fs i kind parent at size (find_internal-path fs path i e).1)
          p t

-- A node without children is taken out.
removed-IsTree :
    (fs : Fs) (i : ℕ)
    → IsTree fs
    → (fs.nodes i).path ≢ []
    → ((j : ℕ) → j < fs.nodes_used → (fs.nodes j).used ≡ true → (fs.nodes j).parent ≢ i)
    → IsTree (set_node fs i removed_node)
removed-IsTree fs i t n childless = record {
  root = ground (arith, t.root, not_root);
  root_path = ground (arith, t.root_path, not_root);
  parents = λ j lt u. elim (ℕ_discrete j i) [
    | yes q ↦ absurd (ground arith)
    | no ne ↦
        let u' : (fs.nodes j).used ≡ true = ground arith in
        let c = childless j lt u' in let d = t.parents j lt u' in ground (arith, c, d)
  ];
  unique = λ j k a b u v e. elim (ℕ_discrete j i) [
    | yes q ↦ absurd (ground arith)
    | no ne ↦ elim (ℕ_discrete k i) [
      | yes r ↦ absurd (ground arith)
      | no nek ↦ t.unique j k a b (ground arith) (ground arith) (ground arith)
    ]
  ];
}
  where
    not_root : i ≢ 0
    not_root q = n (ap (λ x. (fs.nodes x).path) q ∙ t.root_path)

pub remove_node-IsTree :
    (fs : Fs) (i : ℕ) → IsTree fs → (fs.nodes i).path ≢ [] → IsTree (remove_node fs i).1
unfolding remove_node
remove_node-IsTree fs i t n =
    if_cases P (is_dir (fs.nodes i).kind && has_child_from fs.nodes i 0 fs.nodes_used) (λ _. t)
      λ kept.
        removed-IsTree (release_heap_data fs i) i (SameShape-IsTree shape t)
          (λ e. n (sym (shape.path_same i) ∙ e))
          (λ j lt u e.
            childless kept j (omega (arith, shape.count)) (sym (shape.used_same j) ∙ u)
              (sym (shape.parent_same j) ∙ e))
  where
    P : Bool × Fs → Type 0
    P r = IsTree r.1

    shape : SameShape fs (release_heap_data fs i)
    shape = release_heap_data-SameShape fs i

    childless :
        (is_dir (fs.nodes i).kind && has_child_from fs.nodes i 0 fs.nodes_used) ≡ false
        → (j : ℕ) → j < fs.nodes_used
        → (fs.nodes j).used ≡ true
        → (fs.nodes j).parent ≢ i
    childless kept j lt u e =
        let child =
          has_child_from-true fs.nodes i 0 fs.nodes_used j (omega arith) (omega arith) u e in
        let d : IsDirAt fs i = subst (IsDirAt fs) e (t.parents j lt u) in
        absurd (ground (arith, child, d))
