-- ===== src/Kernel/Fs/Tree.antt =====
-- The node table is a tree: no two nodes in use share a path, and each stands below a directory
-- that is in use. Here: what creates a node.
pub mod Change
pub mod Steps
pub mod Calls
use cleon_os_jgz_yes_fork.Base.{
  if◌then◌else◌, Option-cases, ℕ, ◌≤◌, ◌<◌, ◌≡◌, sym, ap, subst, ◌∙◌, ◌≢◌, ◌⊎◌, inl, inr, true,
  false, none, some, List, [], arith,
}
use native.Mathlib.Decide.{ℕ_discrete}
use cleon_os_jgz_yes_fork.Kernel.Strings.{str_eq_iff}
use cleon_os_jgz_yes_fork.Kernel.Fs.{
  Fs, Node, NodeType, Pointer, is_dir, is_file, find_internal, alloc_slot, free_slot_from,
  create_node, release_heap_data, null,
}
use cleon_os_jgz_yes_fork.Kernel.Fs.Find.{free_slot_from-free, Keeps}
use cleon_os_jgz_yes_fork.Kernel.Fs.ReadBack.{no_match}

-- A directory that is in use.
abbrev pub IsDirAt : Fs → ℕ → Type 0
IsDirAt fs d = (d < fs.nodes_used) × ((fs.nodes d).used ≡ true) × (is_dir (fs.nodes d).kind ≡ true)

pub record IsTree (fs : Fs) : Type 0 where
  pub root : IsDirAt fs 0
  pub root_path : (fs.nodes 0).path ≡ []
  pub parents :
      (i : ℕ) → i < fs.nodes_used → (fs.nodes i).used ≡ true → IsDirAt fs (fs.nodes i).parent
  pub unique :
      (i j : ℕ)
      → i < fs.nodes_used
      → j < fs.nodes_used
      → (fs.nodes i).used ≡ true
      → (fs.nodes j).used ≡ true
      → (fs.nodes i).path ≡ (fs.nodes j).path
      → i ≡ j

-- Nodes that differ in their data only.
pub record SameShape (fs fs' : Fs) : Type 0 where
  pub count : fs'.nodes_used ≡ fs.nodes_used
  pub used_same : (i : ℕ) → (fs'.nodes i).used ≡ (fs.nodes i).used
  pub kind_same : (i : ℕ) → (fs'.nodes i).kind ≡ (fs.nodes i).kind
  pub parent_same : (i : ℕ) → (fs'.nodes i).parent ≡ (fs.nodes i).parent
  pub path_same : (i : ℕ) → (fs'.nodes i).path ≡ (fs.nodes i).path

pub SameShape-IsDirAt : {fs fs' : Fs} → SameShape fs fs' → (d : ℕ) → IsDirAt fs d → IsDirAt fs' d
SameShape-IsDirAt {fs} {fs'} s d h = ground (arith, s.count, s.used_same d, s.kind_same d)

pub SameShape-IsTree : {fs fs' : Fs} → SameShape fs fs' → IsTree fs → IsTree fs'
SameShape-IsTree {fs} {fs'} s t = record {
  root = SameShape-IsDirAt s 0 t.root;
  root_path = s.path_same 0 ∙ t.root_path;
  parents = λ i lt u. subst (IsDirAt fs') (sym (s.parent_same i)) (
      SameShape-IsDirAt s (fs.nodes i).parent
        (t.parents i (omega (arith, s.count)) (sym (s.used_same i) ∙ u)));
  unique = λ i j a b u v e.
      t.unique i j (omega (arith, s.count)) (omega (arith, s.count)) (sym (s.used_same i) ∙ u)
        (sym (s.used_same j) ∙ v) (sym (s.path_same i) ∙ (e ∙ s.path_same j));
}

pub release_heap_data-SameShape : (fs : Fs) (i : ℕ) → SameShape fs (release_heap_data fs i)
unfolding release_heap_data
release_heap_data-SameShape fs i = record {
  count = ground arith;
  used_same = λ j. ground arith;
  kind_same = λ j. ground arith;
  parent_same = λ j. ground arith;
  path_same = λ j. ground arith;
}

-- Nodes in use stay where they are, so directories stay directories.
pub Keeps-IsDirAt : {fs fs' : Fs} → Keeps fs fs' → (d : ℕ) → IsDirAt fs d → IsDirAt fs' d
Keeps-IsDirAt {fs} {fs'} k d h =
    let e = k.kept d h.0 h.1 in
    (
      omega (arith, k.grows),
      ap (λ (n : Node). n.used) e ∙ h.1,
      ap (λ (n : Node). is_dir n.kind) e ∙ h.2,
    )

-- One node is put into a slot that was free.
record Added (fs fs' : Fs) (k : ℕ) (n : Node) : Type 0 where
  slot : (k ≡ fs.nodes_used) ⊎ ((k < fs.nodes_used) × ((fs.nodes k).used ≡ false))
  here : fs'.nodes k ≡ n
  there : (j : ℕ) → j ≢ k → fs'.nodes j ≡ fs.nodes j
  grown : (j : ℕ) → j < fs'.nodes_used → j ≢ k → j < fs.nodes_used
  grows : fs.nodes_used ≤ fs'.nodes_used

Added-IsDirAt :
    {fs fs' : Fs} {k : ℕ} {n : Node} → Added fs fs' k n → (d : ℕ) → IsDirAt fs d → IsDirAt fs' d
Added-IsDirAt {fs} {fs'} {k} a d h = elim (ℕ_discrete d k) [
  | yes q ↦ absurd (ground (arith, a.slot, h, q))
  | no ne ↦
      let e = a.there d ne in
      (
        omega (arith, a.grows),
        ap (λ (n : Node). n.used) e ∙ h.1,
        ap (λ (n : Node). is_dir n.kind) e ∙ h.2,
      )
]

Added-IsTree :
    {fs fs' : Fs} {k : ℕ} {n : Node}
    → Added fs fs' k n
    → IsTree fs
    → IsDirAt fs n.parent
    → ((j : ℕ) → j < fs.nodes_used → (fs.nodes j).used ≡ true → (fs.nodes j).path ≢ n.path)
    → IsTree fs'
Added-IsTree {fs} {fs'} {k} {n} a t p fresh = record {
  root = Added-IsDirAt a 0 t.root;
  root_path = elim (ℕ_discrete 0 k) [
    | yes q ↦ absurd (ground (arith, a.slot, t.root, q))
    | no ne ↦ ap (λ (m : Node). m.path) (a.there 0 ne) ∙ t.root_path
  ];
  parents = λ i lt u. elim (ℕ_discrete i k) [
    | yes q ↦
        subst (IsDirAt fs') (ap (λ (m : Node). m.parent) (sym a.here ∙ ap fs'.nodes (sym q)))
          (Added-IsDirAt a n.parent p)
    | no ne ↦
        let e = a.there i ne in
        subst (IsDirAt fs') (ap (λ (m : Node). m.parent) (sym e)) (
          Added-IsDirAt a (fs.nodes i).parent
            (t.parents i (a.grown i lt ne) (ap (λ (m : Node). m.used) (sym e) ∙ u)))
  ];
  unique = λ i j x y u v e. elim (ℕ_discrete i k) [
    | yes q ↦ elim (ℕ_discrete j k) [
      | yes r ↦ q ∙ sym r
      | no ne ↦ absurd (clash j ne y v (sym e ∙ ap (λ m. (fs'.nodes m).path) q))
    ]
    | no ne ↦ elim (ℕ_discrete j k) [
      | yes r ↦ absurd (clash i ne x u (e ∙ ap (λ m. (fs'.nodes m).path) r))
      | no nej ↦
          let ei = a.there i ne in
          let ej = a.there j nej in
          t.unique i j (a.grown i x ne) (a.grown j y nej) (ap (λ (m : Node). m.used) (sym ei) ∙ u)
            (ap (λ (m : Node). m.used) (sym ej) ∙ v)
            (ap (λ (m : Node). m.path) (sym ei) ∙ (e ∙ ap (λ (m : Node). m.path) ej))
    ]
  ];
}
  where
    clash :
        (j : ℕ)
        → j ≢ k
        → j < fs'.nodes_used
        → (fs'.nodes j).used ≡ true
        → (fs'.nodes j).path ≡ (fs'.nodes k).path
        → ⊥
    clash j ne lt u e =
        let w = a.there j ne in
        fresh j (a.grown j lt ne) (ap (λ (m : Node). m.used) (sym w) ∙ u)
          (ap (λ (m : Node). m.path) (sym w) ∙ (e ∙ ap (λ (m : Node). m.path) a.here))

abbrev new_node : List ℕ → NodeType → ℕ → Pointer → ℕ → Node
new_node path kind parent at size = record {
  used = true;
  kind = kind;
  parent = parent;
  heap_data = false;
  data_at = if is_file kind then at else null;
  size = if is_file kind then size else 0;
  path = path;
}

create_node-Added :
    (fs : Fs) (path : List ℕ) (kind : NodeType) (parent : ℕ) (at : Pointer) (size k : ℕ)
    → (create_node fs path kind parent at size).0 ≡ some k
    → Added fs (create_node fs path kind parent at size).1 k (new_node path kind parent at size)
unfolding create_node alloc_slot
create_node-Added fs path kind parent at size k q =
    elim (Option-cases (free_slot_from fs.nodes 0 fs.nodes_used)) [
      | inl f ↦ record {
        slot = inl (ground arith);
        here = ground arith;
        there = λ j ne. ground arith;
        grown = λ j lt ne. ground arith;
        grows = ground arith;
      }
      | inr (slot, f) ↦
          let free = free_slot_from-free fs.nodes 0 fs.nodes_used slot f in
          record {
            slot = inr (ground arith);
            here = ground arith;
            there = λ j ne. ground arith;
            grown = λ j lt ne. ground arith;
            grows = ground arith;
          }
    ]

create_node-none :
    (fs : Fs) (path : List ℕ) (kind : NodeType) (parent : ℕ) (at : Pointer) (size : ℕ)
    → (create_node fs path kind parent at size).0 ≡ none
    → (create_node fs path kind parent at size).1 ≡ fs
unfolding create_node alloc_slot
create_node-none fs path kind parent at size q = ground arith

pub create_node-IsTree :
    (fs : Fs) (path : List ℕ) (kind : NodeType) (parent : ℕ) (at : Pointer) (size : ℕ)
    → IsTree fs
    → IsDirAt fs parent
    → find_internal fs path ≡ none
    → IsTree (create_node fs path kind parent at size).1
create_node-IsTree fs path kind parent at size t p e =
    elim (Option-cases (create_node fs path kind parent at size).0) [
      | inl q ↦ subst IsTree (sym (create_node-none fs path kind parent at size q)) t
      | inr (k, q) ↦
          Added-IsTree (create_node-Added fs path kind parent at size k q) t p (λ j lt u same.
            let m = no_match fs path e j lt in
            absurd (ground (arith, str_eq_iff (fs.nodes j).path path)))
    ]
