-- ===== src/Kernel/Exec/Transfer.antt =====
-- What is written through a descriptor is what is read at its place.
use mathlib.Core.List.{append_assoc}
use cleon_os_jgz_yes_fork.Base.{
  ltb, leb, if◌then◌else◌, if_cases, option_cases, length, take, drop, replicate, length-append,
  length-replicate, length-take, u64_mod, add64, store, ℕ, zero, suc, ◌+◌, ◌-◌, ◌≤◌, ◌<◌, min, max,
  ◌≡◌, refl, sym, ap, subst, ◌∙◌, Bool, true, false, Option, none, some, List, [], ◌∷◌, ◌++◌, arith,
}
use cleon_os_jgz_yes_fork.Kernel.Heap.{kmalloc, kfree}
use cleon_os_jgz_yes_fork.Kernel.Fs.{Fs, Pointer, content}
use cleon_os_jgz_yes_fork.Kernel.Fs.Ops.{read_all, write_all}
use cleon_os_jgz_yes_fork.Kernel.Fs.RoundTrip.{read_all-write_all, read_all-heap, content_same}
use cleon_os_jgz_yes_fork.Kernel.Exec.{FdEntry}
use cleon_os_jgz_yes_fork.Kernel.Exec.Fds.{has_append}
use cleon_os_jgz_yes_fork.Kernel.Exec.Io.{file_read, merge_at, file_write}

take-append_left :
    (new rest : List ℕ) (n : ℕ) → length new ≤ n → take (length new) (take n (new ++ rest)) ≡ new
take-append_left [] rest n h = refl
take-append_left (x ∷ new) rest zero h = absurd (omega arith)
take-append_left (x ∷ new) rest (suc n) h =
    ap (λ l. x ∷ l) (take-append_left new rest n (omega arith))

middle :
    (front new rest : List ℕ) (n : ℕ)
    → length front + length new ≤ n
    → take (length new) (drop (length front) (take n (front ++ (new ++ rest)))) ≡ new
middle [] new rest n h = take-append_left new rest n (omega arith)
middle (x ∷ front) new rest zero h = absurd (omega arith)
middle (x ∷ front) new rest (suc n) h = middle front new rest n (omega arith)

-- The merged buffer holds the new bytes at their place.
merge_at-middle :
    (old new : List ℕ) (pos n : ℕ)
    → pos + length new ≤ n
    → take (length new) (drop pos (take n (merge_at old new pos))) ≡ new
unfolding merge_at
merge_at-middle old new pos n h =
    subst (λ p. take (length new) (drop p (take n (merged))) ≡ new) front_length
      (subst (λ l. take (length new) (drop (length front) (take n l)) ≡ new)
        (append_assoc (take pos old) (replicate (pos - length old) 0)
          (new ++ drop (pos + length new) old))
        (middle front new (drop (pos + length new) old) n (omega (arith, front_length))))
  where
    front : List ℕ
    front = take pos old ++ replicate (pos - length old) 0

    merged : List ℕ
    merged =
        take pos old ++ (replicate (pos - length old) 0 ++ (new ++ drop (pos + length new) old))

    front_length : length front ≡ pos
    front_length = omega (
      arith,
      length-append (take pos old) (replicate (pos - length old) 0),
      length-take pos old,
      length-replicate {A = ℕ} (pos - length old) 0,
    )

file_read_lem :
    (fs : Fs) (entry : FdEntry) (size n : ℕ) (q : Pointer)
    → read_all fs (some entry.path) ≡ some (q, n)
    → entry.offset < n
    → (file_read fs entry size).0
      ≡ some (take (min (n - entry.offset) size) (drop entry.offset (take n (content fs q))))
unfolding file_read
file_read_lem fs entry size n q e lt =
    subst
      (λ (o : Option (Pointer × ℕ)).
        (elim o as (λ _. Option (List ℕ) × FdEntry) [
          | none ↦ (none, entry)
          | some (p, file_size) ↦
              (let read_len = min (file_size - entry.offset) size in
                if leb file_size entry.offset then (some [], entry) else (
                  some (take read_len (drop entry.offset (take file_size (content fs p)))),
                  record entry { offset = add64 entry.offset read_len },
                ))
        ]).0
        ≡ some (take (min (n - entry.offset) size) (drop entry.offset (take n (content fs q)))))
      (sym e) (ground arith)

length-take_le : (size : ℕ) (bytes : List ℕ) → size ≤ length bytes → length (take size bytes) ≡ size
length-take_le size bytes h = omega (arith, length-take size bytes)

module _ (entry : FdEntry) (buffer : List ℕ) (size : ℕ) where
  abbrev pub ReadsAt : Option ℕ × (FdEntry × Fs) → Type 0
  ReadsAt r =
      (n : ℕ)
      → r.0 ≡ some n
      → (n ≡ size)
        × (r.1.0 ≡ record entry { offset = entry.offset + size })
        × ((file_read r.1.1 entry size).0 ≡ some (take size buffer))

  written :
      (fs : Fs) (old : List ℕ) (old_size a : ℕ)
      → 0 < size
      → size ≤ length buffer
      → let merged = merge_at old (take size buffer) entry.offset in
        let new_size = max (entry.offset + size) old_size in
        let done = write_all fs (some entry.path) (some merged) new_size in
        done.0 ≡ true
        → (file_read (record done.1 { heap = kfree done.1.heap (some a) }) entry size).0
          ≡ some (take size buffer)
  written fs old old_size a pos len ok =
      file_read_lem freed entry size new_size back.0
        (read_all-heap done.1 (kfree done.1.heap (some a)) (some entry.path) ∙ back.1) (omega arith)
      ∙ ap some (
          ap (λ k. take k (drop entry.offset (take new_size (content freed back.0)))) (omega arith)
          ∙ (ap (λ l. take size (drop entry.offset l))
                (ap (take new_size) (content_same done.1 freed back.0 refl) ∙ back.2)
              ∙ subst (λ k. take k (drop entry.offset (take new_size merged)) ≡ take size buffer)
                  shorter
                  (merge_at-middle old (take size buffer) entry.offset new_size
                    (omega (arith, shorter)))))
    where
      merged : List ℕ
      merged = merge_at old (take size buffer) entry.offset

      new_size : ℕ
      new_size = max (entry.offset + size) old_size

      done : Bool × Fs
      done = write_all fs (some entry.path) (some merged) new_size

      freed : Fs
      freed = record done.1 { heap = kfree done.1.heap (some a) }

      back :
          (q : Pointer) × (read_all done.1 (some entry.path) ≡ some (q, new_size))
          × (take new_size (content done.1 q) ≡ take new_size merged)
      back = read_all-write_all fs (some entry.path) merged new_size ok

      shorter : length (take size buffer) ≡ size
      shorter = length-take_le size buffer len

  -- A write through a descriptor that does not append, when it succeeds, wrote all `size` bytes and
  -- moved the descriptor's position behind them; a read of that many bytes at the old position gives
  -- exactly the bytes that were written, also where they replace old bytes or stand behind the old
  -- end of the file.
  pub file_read-file_write :
      (fs : Fs)
      → has_append entry.flags ≡ false
      → 0 < size
      → size ≤ length buffer
      → ReadsAt (file_write fs entry buffer size)
  unfolding file_write
  file_read-file_write fs no_append pos len =
      if_cases ReadsAt (has_append entry.flags) (λ h. absurd (cc (h, no_append)))
        λ _.
          option_cases ReadsAt (read_all fs (some entry.path)) _ _ (λ _ n e. absurd (cc e))
            λ q _.
              if_cases ReadsAt (ltb (u64_mod - 1 - size) entry.offset) (λ _ n e. absurd (cc e))
                λ _.
                  option_cases ReadsAt (kmalloc fs.heap (max (entry.offset + size) q.1)).0 _ _
                    (λ _ n e. absurd (cc e))
                    λ a _.
                      if_cases ReadsAt (stored q a).0
                        (λ ok n e. (
                          some_inj n e,
                          refl,
                          written (holding q a) (take q.1 (content fs q.0)) q.1 a pos len ok,
                        ))
                        λ _ n e. absurd (cc e)
    where
      holding : Pointer × ℕ → ℕ → Fs
      holding q a = record fs {
        heap = (kmalloc fs.heap (max (entry.offset + size) q.1)).1;
        bytes =
            store fs.bytes a (merge_at (take q.1 (content fs q.0)) (take size buffer) entry.offset);
      }

      stored : Pointer × ℕ → ℕ → Bool × Fs
      stored q a =
          write_all (holding q a) (some entry.path)
            (some (merge_at (take q.1 (content fs q.0)) (take size buffer) entry.offset))
            (max (entry.offset + size) q.1)

      some_inj : (n : ℕ) → some size ≡ some n → n ≡ size
      some_inj n e = ground (arith, e)
