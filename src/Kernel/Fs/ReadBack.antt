-- ===== src/Kernel/Fs/ReadBack.antt =====
-- What is written is what is read: `clks_fs_read_all` after a `clks_fs_write_all` that succeeded.
use cleon_os_jgz_yes_fork.Base.{
  leb, Option-cases, if_cases, length, ℕ, ◌<◌, ◌≡◌, refl, subst, ◌∙◌, inl, inr, true, false, Option,
  none, some, List, arith,
}
use cleon_os_jgz_yes_fork.Kernel.Strings.{str_eq_iff}
use cleon_os_jgz_yes_fork.Kernel.Fs.{
  Fs, Pointer, file, find_internal, update_node, create_node, create_or_update, alloc_slot,
  path_max, free_slot_from,
}
use cleon_os_jgz_yes_fork.Kernel.Fs.Find.{
  matches, find_from-Hit, find_from-least, find_from-none, free_slot_from-free,
}
use cleon_os_jgz_yes_fork.Kernel.Fs.Frozen.{find_internal-path}

-- The file that stands under a path afterwards.
pub record Placed (path : List ℕ) (at : Pointer) (size : ℕ) (k : ℕ) (fs : Fs) : Type 0 where
  pub found : find_internal fs path ≡ some k
  pub kind_is : (fs.nodes k).kind ≡ file
  pub at_is : (fs.nodes k).data_at ≡ at
  pub size_is : (fs.nodes k).size ≡ size

pub same_matches :
    (fs fs' : Fs) (path : List ℕ) (i : ℕ)
    → ((j : ℕ) → matches fs'.nodes path j ≡ matches fs.nodes path j)
    → fs'.nodes_used ≡ fs.nodes_used
    → find_internal fs path ≡ some i
    → find_internal fs' path ≡ some i
unfolding find_internal
same_matches fs fs' path i h u e =
    let hit = find_from-Hit fs.nodes 0 fs.nodes_used path i e in
    find_from-least fs'.nodes 0 fs'.nodes_used path i (record {
      from = omega arith;
      below = omega (arith, u, hit.below);
      hit = h i ∙ hit.hit;
      least = λ j a b. h j ∙ hit.least j a b;
    })

update_node-matches :
    (fs : Fs) (path : List ℕ) (i parent : ℕ) (at : Pointer) (size : ℕ)
    → find_internal fs path ≡ some i
    → (j : ℕ)
    → matches (update_node fs i file parent at size).1.nodes path j ≡ matches fs.nodes path j
unfolding update_node
update_node-matches fs path i parent at size e j =
    ground (arith, find_internal-path fs path i e, str_eq_iff path path)

update_node-used :
    (fs : Fs) (i parent : ℕ) (at : Pointer) (size k : ℕ)
    → (update_node fs i file parent at size).0 ≡ some k
    → (i ≡ k) × ((update_node fs i file parent at size).1.nodes_used ≡ fs.nodes_used)
unfolding update_node
update_node-used fs i parent at size k q = ground arith

update_node-Placed :
    (fs : Fs) (path : List ℕ) (i parent : ℕ) (at : Pointer) (size k : ℕ)
    → find_internal fs path ≡ some i
    → (update_node fs i file parent at size).0 ≡ some k
    → Placed path at size k (update_node fs i file parent at size).1
unfolding update_node
update_node-Placed fs path i parent at size k e q =
    let u = update_node-used fs i parent at size k q in
    record {
      found =
          subst (λ x. find_internal (update_node fs i file parent at size).1 path ≡ some x) u.0
            (same_matches fs (update_node fs i file parent at size).1 path i
              (update_node-matches fs path i parent at size e) u.1 e);
      kind_is = ground arith;
      at_is = ground arith;
      size_is = ground arith;
    }

-- The only node under a path is found.
only_match :
    (fs : Fs) (path : List ℕ) (k : ℕ)
    → k < fs.nodes_used
    → matches fs.nodes path k ≡ true
    → ((j : ℕ) → j < k → matches fs.nodes path j ≡ false)
    → find_internal fs path ≡ some k
unfolding find_internal
only_match fs path k lt m h =
    find_from-least fs.nodes 0 fs.nodes_used path k
      (record { from = omega arith; below = omega arith; hit = m; least = λ j a b. h j b })

pub no_match :
    (fs : Fs) (path : List ℕ)
    → find_internal fs path ≡ none
    → (j : ℕ) → j < fs.nodes_used
    → matches fs.nodes path j ≡ false
unfolding find_internal
no_match fs path e j lt =
    find_from-none fs.nodes 0 fs.nodes_used path e j (omega arith) (omega arith)

create_node-Placed :
    (fs : Fs) (path : List ℕ) (parent : ℕ) (at : Pointer) (size k : ℕ)
    → find_internal fs path ≡ none
    → (create_node fs path file parent at size).0 ≡ some k
    → Placed path at size k (create_node fs path file parent at size).1
unfolding create_node alloc_slot
create_node-Placed fs path parent at size k e q =
    elim (Option-cases (free_slot_from fs.nodes 0 fs.nodes_used)) [
      | inl f ↦ record {
        found =
            only_match (create_node fs path file parent at size).1 path k (ground arith)
              (ground (arith, str_eq_iff path path)) (λ j b. ground (arith, no_match fs path e j));
        kind_is = ground arith;
        at_is = ground arith;
        size_is = ground arith;
      }
      | inr (slot, f) ↦
          let free = free_slot_from-free fs.nodes 0 fs.nodes_used slot f in
          record {
            found =
                only_match (create_node fs path file parent at size).1 path k (ground arith)
                  (ground (arith, str_eq_iff path path))
                  (λ j b. ground (arith, no_match fs path e j));
            kind_is = ground arith;
            at_is = ground arith;
            size_is = ground arith;
          }
    ]

pub create_or_update-Placed :
    (fs : Fs) (path : List ℕ) (parent : ℕ) (at : Pointer) (size : ℕ)
    → (k : ℕ) → (create_or_update fs path file parent at size).0 ≡ some k
    → Placed path at size k (create_or_update fs path file parent at size).1
unfolding create_or_update
create_or_update-Placed fs path parent at size =
    if_cases P (leb path_max (length path)) (λ _ k q. absurd (cc q))
      λ _. cases (find_internal fs path) refl
  where
    P : Option ℕ × Fs → Type 0
    P r = (k : ℕ) → r.0 ≡ some k → Placed path at size k r.1

    cases :
        (o : Option ℕ)
        → find_internal fs path ≡ o
        → P (elim o [
          | some i ↦ update_node fs i file parent at size
          | none ↦ create_node fs path file parent at size
        ])
    cases none e k q = create_node-Placed fs path parent at size k e q
    cases (some i) e k q = update_node-Placed fs path i parent at size k e q
