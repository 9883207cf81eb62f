-- ===== src/Kernel/Fs/Find.antt =====
-- What the two searches of the node table find, and what a new or updated node does to the table.
use native.Mathlib.Decide.{ℕ_discrete}
use cleon_os_jgz_yes_fork.Base.{
  if◌then◌else◌, Bool-cases, Option-cases, ℕ, zero, suc, ◌+◌, ◌≤◌, ◌<◌, ◌≡◌, refl, sym, ap, subst,
  ◌∙◌, inl, inr, Bool, true, false, ◌&&◌, Option, none, some, List, arith,
}
use cleon_os_jgz_yes_fork.Kernel.Strings.{str_eq}
use cleon_os_jgz_yes_fork.Kernel.Fs.{
  Fs, Node, NodeType, Pointer, find_from, free_slot_from, alloc_slot, create_node,
}

-- Node `j` is in use under the path `p`.
abbrev pub matches : (ℕ → Node) → List ℕ → ℕ → Bool
matches nodes p j = (nodes j).used && str_eq (nodes j).path p

-- The first node under a path, from `i` on.
pub record Hit (nodes : ℕ → Node) (p : List ℕ) (i rounds k : ℕ) : Type 0 where
  pub from : i ≤ k
  pub below : k < i + rounds
  pub hit : matches nodes p k ≡ true
  pub least : (j : ℕ) → i ≤ j → j < k → matches nodes p j ≡ false

find_from_step :
    (nodes : ℕ → Node) (i rounds : ℕ) (p : List ℕ)
    → find_from nodes i (suc rounds) p
      ≡ (if matches nodes p i then some i else find_from nodes (i + 1) rounds p)
unfolding find_from
find_from_step nodes i rounds p = ground arith

pub find_from-Hit :
    (nodes : ℕ → Node) (i rounds : ℕ) (p : List ℕ) (k : ℕ)
    → find_from nodes i rounds p ≡ some k
    → Hit nodes p i rounds k
find_from-Hit nodes i zero p k e = absurd (none_left e)
  where
    none_left : find_from nodes i zero p ≡ some k → ⊥
    none_left = unfold find_from in λ h. cc h
find_from-Hit nodes i (suc rounds) p k e = elim (Bool-cases (matches nodes p i)) [
  | inl m ↦
      let here : i ≡ k = ground (arith, find_from_step nodes i rounds p) in
      subst (Hit nodes p i (suc rounds)) here (record {
        from = omega arith;
        below = omega arith;
        hit = m;
        least = λ j a b. absurd (omega arith);
      })
  | inr m ↦
      let later : find_from nodes (i + 1) rounds p ≡ some k =
        ground (arith, find_from_step nodes i rounds p) in
      let h = find_from-Hit nodes (i + 1) rounds p k later in
      record {
        from = omega (arith, h.from);
        below = omega (arith, h.below);
        hit = h.hit;
        least = λ j a b. elim (ℕ_discrete j i) [
          | yes q ↦ subst (λ x. matches nodes p x ≡ false) (sym q) m
          | no ne ↦ h.least j (omega arith) b
        ];
      }
]

pub find_from-least :
    (nodes : ℕ → Node) (i rounds : ℕ) (p : List ℕ) (k : ℕ)
    → Hit nodes p i rounds k
    → find_from nodes i rounds p ≡ some k
find_from-least nodes i zero p k h = absurd (omega (arith, h.from, h.below))
find_from-least nodes i (suc rounds) p k h = elim (ℕ_discrete k i) [
  | yes q ↦
      let m : matches nodes p i ≡ true = subst (λ x. matches nodes p x ≡ true) q h.hit in
      ground (arith, find_from_step nodes i rounds p)
  | no ne ↦
      let m = h.least i (omega arith) (omega (arith, h.from)) in
      let rest = find_from-least nodes (i + 1) rounds p k (record {
        from = omega (arith, h.from);
        below = omega (arith, h.below);
        hit = h.hit;
        least = λ j a b. h.least j (omega arith) b;
      }) in
      ground (arith, find_from_step nodes i rounds p)
]

pub find_from-none :
    (nodes : ℕ → Node) (i rounds : ℕ) (p : List ℕ)
    → find_from nodes i rounds p ≡ none
    → (j : ℕ) → i ≤ j
    → j < i + rounds
    → matches nodes p j ≡ false
find_from-none nodes i zero p e j h k = absurd (omega arith)
find_from-none nodes i (suc rounds) p e j h k = elim (Bool-cases (matches nodes p i)) [
  | inl m ↦ absurd (ground (arith, find_from_step nodes i rounds p))
  | inr m ↦ elim (ℕ_discrete j i) [
    | yes q ↦ subst (λ x. matches nodes p x ≡ false) (sym q) m
    | no ne ↦
        find_from-none nodes (i + 1) rounds p (ground (arith, find_from_step nodes i rounds p)) j
          (omega arith) (omega arith)
  ]
]

-- A slot that is given out is not in use.
pub free_slot_from-free :
    (nodes : ℕ → Node) (i rounds k : ℕ)
    → free_slot_from nodes i rounds ≡ some k
    → ((nodes k).used ≡ false) × (k < i + rounds)
unfolding free_slot_from
free_slot_from-free nodes i zero k e = absurd (cc e)
free_slot_from-free nodes i (suc rounds) k e =
    ground (arith, free_slot_from-free nodes (i + 1) rounds k)

-- Nothing that is in use changes, and the table only grows.
pub record Keeps (fs fs' : Fs) : Type 0 where
  pub grows : fs.nodes_used ≤ fs'.nodes_used
  pub ready : fs'.is_ready ≡ fs.is_ready
  pub kept : (i : ℕ) → i < fs.nodes_used → (fs.nodes i).used ≡ true → fs'.nodes i ≡ fs.nodes i

pub Keeps-refl : (fs : Fs) → Keeps fs fs
Keeps-refl fs = record { grows = omega arith; ready = refl; kept = λ i h u. refl }

pub Keeps-trans : {a b c : Fs} → Keeps a b → Keeps b c → Keeps a c
Keeps-trans p q = record {
  grows = omega (arith, p.grows, q.grows);
  ready = q.ready ∙ p.ready;
  kept = λ i h u.
      let e = p.kept i h u in
      q.kept i (omega (arith, p.grows)) (ap (λ (n : Node). n.used) e ∙ u) ∙ e;
}

-- A created node stands in a slot that was not in use, under its path.
pub record Created (fs : Fs) (path : List ℕ) (kind : NodeType) (r : Option ℕ × Fs) : Type 0 where
  pub keeps : Keeps fs r.1
  pub placed :
      (k : ℕ)
      → r.0 ≡ some k
      → (k < r.1.nodes_used)
        × ((r.1.nodes k).used ≡ true)
        × ((r.1.nodes k).path ≡ path)
        × ((r.1.nodes k).kind ≡ kind)

pub create_node-Created :
    (fs : Fs) (path : List ℕ) (kind : NodeType) (parent : ℕ) (at : Pointer) (size : ℕ)
    → Created fs path kind (create_node fs path kind parent at size)
unfolding create_node alloc_slot
create_node-Created fs path kind parent at size =
    elim (Option-cases (free_slot_from fs.nodes 0 fs.nodes_used)) [
      | inl e ↦ record {
        keeps = record { grows = ground arith; ready = ground arith; kept = λ i h u. ground arith };
        placed = λ k q. ground arith;
      }
      | inr (slot, e) ↦
          let free = free_slot_from-free fs.nodes 0 fs.nodes_used slot e in
          record {
            keeps = record {
              grows = ground arith;
              ready = ground arith;
              kept = λ i h u. ground arith;
            };
            placed = λ k q. ground arith;
          }
    ]
