-- ===== src/Kernel/Fs/RoundTrip.antt =====
-- What is written is what is read: `clks_fs_read_all` after a `clks_fs_write_all` that succeeded.
use cleon_os_jgz_yes_fork.Base.{
  ◌==◌, if◌then◌else◌, if_cases, option_cases, take, store, store_self, ℕ, zero, suc, ◌≡◌, refl,
  sym, ap, subst, ◌∙◌, Bool, true, false, Option, none, some, List, [], ◌∷◌, arith,
}
use cleon_os_jgz_yes_fork.Kernel.Heap.{Heap, kmalloc}
use cleon_os_jgz_yes_fork.Kernel.Path.{
  path_max, normalize, in_temp_tree, is_temp_file_path, split_parent,
}
use cleon_os_jgz_yes_fork.Kernel.Fs.{
  Fs, NodeType, Pointer, null, image, empty_file, block, file, is_dir, is_file, set_node,
  find_internal, find_external, alloc_slot, update_node, create_node, create_or_update, content,
  release_heap_data,
}
use cleon_os_jgz_yes_fork.Kernel.Fs.ReadBack.{Placed, create_or_update-Placed, same_matches}
use cleon_os_jgz_yes_fork.Kernel.Fs.Calls.{write_internal-Frozen, is_temp_file_path-in_temp_tree}
use cleon_os_jgz_yes_fork.Kernel.Fs.Dirs.{ensure_dir_hierarchy}
use cleon_os_jgz_yes_fork.Kernel.Fs.Ops.{
  build_file_payload, release_old, install, put_file, write_internal, write_all, read_all,
}

take-take {ℓ} : {A : Type ℓ} (n : ℕ) (xs : List A) → take n (take n xs) ≡ take n xs
take-take zero xs = refl
take-take (suc n) [] = refl
take-take (suc n) (x ∷ xs) = ap (λ l. x ∷ l) (take-take n xs)

pub content_same : (fs fs' : Fs) (p : Pointer) → fs'.bytes ≡ fs.bytes → content fs' p ≡ content fs p
content_same fs fs' null e = refl
content_same fs fs' empty_file e = refl
content_same fs fs' (image b) e = refl
content_same fs fs' (block a) e = ap (λ (f : ℕ → List ℕ). f a) e

release_old-bytes : (fs : Fs) (old : Option ℕ) → (release_old fs old).bytes ≡ fs.bytes
unfolding release_heap_data
release_old-bytes fs none = refl
release_old-bytes fs (some i) = ground arith

create_or_update-bytes :
    (fs : Fs) (path : List ℕ) (kind : NodeType) (parent : ℕ) (at : Pointer) (size : ℕ)
    → (create_or_update fs path kind parent at size).1.bytes ≡ fs.bytes
unfolding create_or_update update_node create_node alloc_slot
create_or_update-bytes fs path kind parent at size = ground arith

-- The payload holds the bytes.
build_file_payload-content :
    (fs : Fs) (bytes : List ℕ) (size : ℕ) (q : Pointer × Bool)
    → (build_file_payload fs (some bytes) size).0 ≡ some q
    → take size (content (build_file_payload fs (some bytes) size).1 q.0) ≡ take size bytes
unfolding build_file_payload
build_file_payload-content fs bytes size q =
    if_cases P (size == 0)
      (λ z e. subst (λ n. take n (content fs q.0) ≡ take n bytes) (sym (zero_of z)) refl)
      λ _. option_cases P (kmalloc fs.heap size).0 _ _ (λ _ e. absurd (cc e)) λ a _ e. stored a e
  where
    P : Option (Pointer × Bool) × Fs → Type 0
    P r = r.0 ≡ some q → take size (content r.1 q.0) ≡ take size bytes

    after : ℕ → Fs
    after a = record fs {
      heap = (kmalloc fs.heap size).1;
      bytes = store fs.bytes a (take size bytes);
    }

    zero_of : (size == 0) ≡ true → size ≡ 0
    zero_of z = ground arith

    stored :
        (a : ℕ)
        → some (block a, true) ≡ some q
        → take size (content (after a) q.0) ≡ take size bytes
    stored a e =
        let here : (block a, true) ≡ q = cc e in
        subst (λ (x : Pointer × Bool). take size (content (after a) x.0) ≡ take size bytes) here
          (ap (take size) (store_self fs.bytes a (take size bytes)) ∙ take-take size bytes)

abbrev Stored : List ℕ → List ℕ → ℕ → Bool × Fs → Type 0
Stored path bytes size r =
    r.0 ≡ true
    → (k : ℕ) × (p : Pointer) × Placed path p size k r.1
      × (take size (content r.1 p) ≡ take size bytes)

install-Stored :
    (fs : Fs) (path : List ℕ) (parent : ℕ) (old : Option ℕ) (p : Pointer) (owned : Bool) (size : ℕ)
    (bytes : List ℕ)
    → take size (content fs p) ≡ take size bytes
    → Stored path bytes size (install fs path parent old p owned size)
unfolding install
install-Stored fs path parent old p owned size bytes h =
    option_cases (Stored path bytes size) made.0 _ _ (λ _ e. absurd (cc e))
      λ k e _. (
        k,
        p,
        flagged k (create_or_update-Placed (release_old fs old) path parent p size k e),
        ap (take size) (content_same fs made.1 p same) ∙ h,
      )
  where
    made : Option ℕ × Fs
    made = create_or_update (release_old fs old) path file parent p size

    same : made.1.bytes ≡ fs.bytes
    same =
        create_or_update-bytes (release_old fs old) path file parent p size
        ∙ release_old-bytes fs old

    flagged :
        (k : ℕ)
        → Placed path p size k made.1
        → Placed path p size k (set_node made.1 k (record (made.1.nodes k) { heap_data = owned }))
    flagged k w = record {
      found =
          same_matches made.1 (set_node made.1 k (record (made.1.nodes k) { heap_data = owned }))
            path k (λ j. ground arith) refl w.found;
      kind_is = ground (arith, w.kind_is);
      at_is = ground (arith, w.at_is);
      size_is = ground (arith, w.size_is);
    }

put_file-Stored :
    (fs : Fs) (path parent bytes : List ℕ) (size : ℕ)
    → Stored path bytes size (put_file fs path parent (some bytes) size)
unfolding put_file
put_file-Stored fs path parent bytes size =
    option_cases P (find_internal fs parent) _ _ (λ _. failed fs)
      λ d _.
        if_cases P (is_dir (fs.nodes d).kind)
          (λ _.
            if_cases P
              (elim old as (λ _. Bool) [ none ↦ true | some i ↦ is_file (fs.nodes i).kind ])
              (λ _.
                option_cases P (build_file_payload fs (some bytes) size).0 _ _ (λ _. failed _)
                  λ q e.
                    install-Stored (build_file_payload fs (some bytes) size).1 path d old q.0 q.1
                      size bytes (build_file_payload-content fs bytes size q e))
              λ _. failed fs)
          λ _. failed fs
  where
    P : Bool × Fs → Type 0
    P r = Stored path bytes size r

    old : Option ℕ
    old = find_internal fs path

    failed : (fs' : Fs) → P (false, fs')
    failed fs' e = absurd (cc e)

write_internal-Stored :
    (fs : Fs) (path bytes : List ℕ) (size : ℕ)
    → Stored path bytes size (write_internal fs path (some bytes) size)
unfolding write_internal
write_internal-Stored fs path bytes size =
    option_cases P (split_parent path path_max) _ _ (λ _. failed fs)
      λ parent _.
        if_cases P (in_temp_tree parent)
          (λ _.
            if_cases P (ensure_dir_hierarchy fs parent).0
              (λ _. put_file-Stored (ensure_dir_hierarchy fs parent).1 path parent bytes size)
              λ _. failed _)
          λ _. failed fs
  where
    P : Bool × Fs → Type 0
    P r = Stored path bytes size r

    failed : (fs' : Fs) → P (false, fs')
    failed fs' e = absurd (cc e)

-- A file that stands under a path is read there.
Placed-read :
    (fs : Fs) (path : Option (List ℕ)) (internal : List ℕ) (p : Pointer) (size k : ℕ)
    → fs.is_ready ≡ true
    → normalize path path_max ≡ some internal
    → Placed internal p size k fs
    → read_all fs path ≡ some (if size == 0 then empty_file else p, size)
unfolding read_all find_external
Placed-read fs path internal p size k r e w = ground (arith, w.found, w.kind_is, w.at_is, w.size_is)

abbrev ReadsBack : Option (List ℕ) → List ℕ → ℕ → Bool × Fs → Type 0
ReadsBack path bytes size r =
    r.0 ≡ true
    → (p : Pointer) × (read_all r.1 path ≡ some (p, size))
      × (take size (content r.1 p) ≡ take size bytes)

write_internal-read_all :
    (fs : Fs) (path : Option (List ℕ)) (internal bytes : List ℕ) (size : ℕ)
    → (write_internal fs internal (some bytes) size).1.is_ready ≡ true
    → normalize path path_max ≡ some internal
    → ReadsBack path bytes size (write_internal fs internal (some bytes) size)
write_internal-read_all fs path internal bytes size r n e =
    let (k, p, w, c) = write_internal-Stored fs internal bytes size e in
    let got =
      Placed-read (write_internal fs internal (some bytes) size).1 path internal p size k r n w in
    (
      if size == 0 then empty_file else p,
      got,
      if_cases
          (λ x.
            take size (content (write_internal fs internal (some bytes) size).1 x)
            ≡ take size bytes)
          (size == 0) (λ z. empty z) λ _. c,
    )
  where
    empty : (size == 0) ≡ true → take size (0 ∷ []) ≡ take size bytes
    empty z =
        let is_zero : size ≡ 0 = ground arith in
        subst (λ n. take n (0 ∷ []) ≡ take n bytes) (sym is_zero) refl

-- After a call of write_all that succeeds, read_all of the same path text gives a pointer and
-- exactly the size that was written, and the bytes at the pointer, that many of them, are the bytes
-- that were written.
pub read_all-write_all :
    (fs : Fs) (path : Option (List ℕ)) (bytes : List ℕ) (size : ℕ)
    → (write_all fs path (some bytes) size).0 ≡ true
    → (p : Pointer) × (read_all (write_all fs path (some bytes) size).1 path ≡ some (p, size))
      × (take size (content (write_all fs path (some bytes) size).1 p) ≡ take size bytes)
unfolding write_all
read_all-write_all fs path bytes size =
    if_cases P fs.is_ready
      (λ r.
        option_cases P (normalize path path_max) _ _ (λ _. failed)
          λ internal n.
            if_cases P (is_temp_file_path internal)
              (λ t.
                write_internal-read_all fs path internal bytes size
                  ((write_internal-Frozen fs internal (some bytes) size
                      (is_temp_file_path-in_temp_tree internal t)).ready
                    ∙ r)
                  n)
              λ _. failed)
      λ _. failed
  where
    P : Bool × Fs → Type 0
    P r = ReadsBack path bytes size r

    failed : P (false, fs)
    failed e = absurd (cc e)

-- The heap has no part in what is read.
pub read_all-heap :
    (fs : Fs) (h : Heap) (path : Option (List ℕ))
    → read_all (record fs { heap = h }) path ≡ read_all fs path
unfolding read_all find_external find_internal
read_all-heap fs h path = refl
