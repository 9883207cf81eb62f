-- ===== src/Kernel/Fs/Frozen.antt =====
-- What the calls leave alone: every node outside the temp tree.
use cleon_os_jgz_yes_fork.Base.{
  leb, if_cases, length, ℕ, ◌≤◌, ◌<◌, ◌≡◌, refl, ap, ◌∙◌, true, false, Option, none, some, List,
  arith,
}
use cleon_os_jgz_yes_fork.Kernel.Strings.{str_eq_iff}
use cleon_os_jgz_yes_fork.Kernel.Path.{path_max, in_temp_tree}
use cleon_os_jgz_yes_fork.Kernel.Fs.{
  Fs, Node, NodeType, Pointer, set_node, find_internal, create_or_update, update_node, create_node,
}
use cleon_os_jgz_yes_fork.Kernel.Fs.Find.{find_from-Hit, Keeps, create_node-Created}

-- A node that is in use outside the temp tree stays exactly as it is; the table only grows.
pub record Frozen (fs fs' : Fs) : Type 0 where
  pub grows : fs.nodes_used ≤ fs'.nodes_used
  pub ready : fs'.is_ready ≡ fs.is_ready
  pub kept :
      (i : ℕ)
      → i < fs.nodes_used
      → (fs.nodes i).used ≡ true
      → in_temp_tree (fs.nodes i).path ≡ false
      → fs'.nodes i ≡ fs.nodes i

pub Frozen-refl : (fs : Fs) → Frozen fs fs
Frozen-refl fs = record { grows = omega arith; ready = refl; kept = λ i h u t. refl }

pub Frozen-trans : {a b c : Fs} → Frozen a b → Frozen b c → Frozen a c
Frozen-trans p q = record {
  grows = omega (arith, p.grows, q.grows);
  ready = q.ready ∙ p.ready;
  kept = λ i h u t.
      let e = p.kept i h u t in
      q.kept i (omega (arith, p.grows)) (ap (λ (n : Node). n.used) e ∙ u)
        (ap (λ (n : Node). in_temp_tree n.path) e ∙ t)
      ∙ e;
}

pub Frozen-of_Keeps : {fs fs' : Fs} → Keeps fs fs' → Frozen fs fs'
Frozen-of_Keeps k = record { grows = k.grows; ready = k.ready; kept = λ i h u t. k.kept i h u }

-- A change to a node of the temp tree.
pub set_node-Frozen :
    (fs : Fs) (i : ℕ) (n : Node)
    → in_temp_tree (fs.nodes i).path ≡ true
    → Frozen fs (set_node fs i n)
set_node-Frozen fs i n h = record {
  grows = omega arith;
  ready = refl;
  kept = λ j lt u t. ground arith;
}

-- The search by path, for a node that is found.
pub find_internal-path :
    (fs : Fs) (path : List ℕ) (i : ℕ)
    → find_internal fs path ≡ some i
    → ((fs.nodes i).path ≡ path) × ((fs.nodes i).used ≡ true) × (i < fs.nodes_used)
unfolding find_internal
find_internal-path fs path i e =
    let h = find_from-Hit fs.nodes 0 fs.nodes_used path i e in
    ground (arith, h.hit, h.below, str_eq_iff (fs.nodes i).path path)

-- Creating or updating a node under a path of the temp tree freezes the rest, and the node that
-- is returned is a node of that path.
pub record Settled (fs : Fs) (path : List ℕ) (r : Option ℕ × Fs) : Type 0 where
  pub frozen : Frozen fs r.1
  pub path_of : (k : ℕ) → r.0 ≡ some k → (r.1.nodes k).path ≡ path

update_node-Settled :
    (fs : Fs) (i : ℕ) (path : List ℕ) (kind : NodeType) (parent : ℕ) (at : Pointer) (size : ℕ)
    → (fs.nodes i).path ≡ path
    → in_temp_tree path ≡ true
    → Settled fs path (update_node fs i kind parent at size)
unfolding update_node
update_node-Settled fs i path kind parent at size e t = record {
  frozen = record { grows = ground arith; ready = ground arith; kept = λ j lt u o. ground arith };
  path_of = λ k q. ground arith;
}

pub create_or_update-Settled :
    (fs : Fs) (path : List ℕ) (kind : NodeType) (parent : ℕ) (at : Pointer) (size : ℕ)
    → in_temp_tree path ≡ true
    → Settled fs path (create_or_update fs path kind parent at size)
unfolding create_or_update
create_or_update-Settled fs path kind parent at size t =
    if_cases P (leb path_max (length path)) (λ _. nothing) λ _. cases (find_internal fs path) refl
  where
    P : Option ℕ × Fs → Type 0
    P r = Settled fs path r

    nothing : P (none, fs)
    nothing = record { frozen = Frozen-refl fs; path_of = λ k q. absurd (cc q) }

    created : P (create_node fs path kind parent at size)
    created =
        let c = create_node-Created fs path kind parent at size in
        record { frozen = Frozen-of_Keeps c.keeps; path_of = λ k q. (c.placed k q).2 }

    cases :
        (o : Option ℕ)
        → find_internal fs path ≡ o
        → P (elim o [
          | some i ↦ update_node fs i kind parent at size
          | none ↦ create_node fs path kind parent at size
        ])
    cases none e = created
    cases (some i) e =
        update_node-Settled fs i path kind parent at size (find_internal-path fs path i e).0 t
