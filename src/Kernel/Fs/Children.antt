-- ===== src/Kernel/Fs/Children.antt =====
-- The children of a directory: how the calls that count, list and remove them fit together.
use native.Mathlib.Decide.{ℕ_discrete}
use cleon_os_jgz_yes_fork.Base.{
  ℕ, zero, suc, ◌+◌, ◌≤◌, ◌<◌, ◌≡◌, sym, subst, true, false, Option, some, List, arith,
}
use cleon_os_jgz_yes_fork.Kernel.Path.{path_max, normalize}
use cleon_os_jgz_yes_fork.Kernel.Fs.{Fs, Node, is_dir, find_internal}
use cleon_os_jgz_yes_fork.Kernel.Fs.Edit.{has_child_from, remove_node, remove}

pub has_child_from-true :
    (nodes : ℕ → Node) (d i rounds j : ℕ)
    → i ≤ j
    → j < i + rounds
    → (nodes j).used ≡ true
    → (nodes j).parent ≡ d
    → has_child_from nodes d i rounds ≡ true
unfolding has_child_from
has_child_from-true nodes d i zero j a b u p = absurd (omega arith)
has_child_from-true nodes d i (suc rounds) j a b u p = elim (ℕ_discrete i j) [
  | yes q ↦
      let u' : (nodes i).used ≡ true = subst (λ x. (nodes x).used ≡ true) (sym q) u in
      let p' : (nodes i).parent ≡ d = subst (λ x. (nodes x).parent ≡ d) (sym q) p in ground arith
  | no ne ↦
      let rest = has_child_from-true nodes d (i + 1) rounds j (omega arith) (omega arith) u p in
      ground arith
]

-- A directory that a node in use names as its parent is not removed: the call fails and changes
-- nothing, not even the heap.
pub remove_refuses :
    (fs : Fs) (path : Option (List ℕ)) (internal : List ℕ) (d j : ℕ)
    → normalize path path_max ≡ some internal
    → find_internal fs internal ≡ some d
    → is_dir (fs.nodes d).kind ≡ true
    → j < fs.nodes_used
    → (fs.nodes j).used ≡ true
    → (fs.nodes j).parent ≡ d
    → remove fs path ≡ (false, fs)
unfolding remove remove_node
remove_refuses fs path internal d j n f k lt u p =
    let child = has_child_from-true fs.nodes d 0 fs.nodes_used j (omega arith) (omega arith) u p in
    ground (arith, child)
