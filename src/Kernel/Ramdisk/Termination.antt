-- ===== src/Kernel/Ramdisk/Termination.antt =====
-- The walk over the image ends, and what it hands to the visitor lies inside the image.
use cleon_os_jgz_yes_fork.Base.{
  ltb, leb, if_cases, option_cases, length, take, drop, u64_mod, add64, align_up, ℕ, zero, suc, ◌+◌,
  ◌-◌, ◌*◌, ◌≤◌, ◌<◌, ◌≢◌, Bool, ◌||◌, Option, none, List, arith,
}
use cleon_os_jgz_yes_fork.Kernel.Ramdisk.{tar_block_size, tar_size, is_zero_block, parse_octal}
use cleon_os_jgz_yes_fork.Kernel.Ramdisk.Walk.{
  RamdiskEntry, entry_of, emit, iterate_from, iterate_fuel,
}

-- The next header: on from this one, and not far behind the end of the image.
next_header :
    (size offset file_size : ℕ)
    → size + 2 * tar_block_size < u64_mod
    → offset + tar_block_size ≤ size
    → file_size ≤ size - (offset + tar_block_size)
    → let next = add64 (add64 offset tar_block_size) (align_up file_size tar_block_size) in
      (offset + tar_block_size ≤ next) × (next < size + tar_block_size)
next_header size offset file_size m o f = omega arith

module _ {ℓ} {S : Type ℓ} (visit : RamdiskEntry → S → Bool × S) where
  -- With a round for each header that is left, the loop does not run out of fuel.
  pub iterate_from-total :
      (fuel : ℕ) (bytes : List ℕ) (offset : ℕ) (s : S)
      → length bytes + 2 * tar_block_size < u64_mod
      → offset < length bytes + tar_block_size
      → length bytes - offset < fuel * tar_block_size
      → iterate_from visit fuel bytes offset s ≢ none
  unfolding iterate_from
  iterate_from-total zero bytes offset s m o f = absurd (omega arith)
  iterate_from-total (suc fuel) bytes offset s m o f =
      if_cases P (leb (add64 offset tar_block_size) (length bytes))
        (λ fits.
          if_cases P (is_zero_block hdr) (λ _ e. absurd (cc e))
            λ _.
              option_cases P (parse_octal (tar_size hdr)) _ _ (λ _ e. absurd (cc e))
                λ n _.
                  if_cases P (ltb (length bytes) payload || ltb (length bytes - payload) n)
                    (λ _ e. absurd (cc e))
                    λ inside.
                      if_cases P (go n).0
                        (λ _.
                          if_cases P (ltb (add64 payload (align_up n tar_block_size)) payload)
                            (λ _ e. absurd (cc e))
                            λ _.
                              let next =
                                next_header (length bytes) offset n m (ground arith)
                                  (ground arith) in
                              iterate_from-total fuel bytes
                                (add64 payload (align_up n tar_block_size)) (go n).1 m
                                (omega (arith, next)) (ground (arith, next)))
                        λ _ e. absurd (cc e))
        λ _ e. absurd (cc e)
    where
      P : Option (Bool × S) → Type ℓ
      P r = r ≢ none

      hdr : List ℕ
      hdr = take tar_block_size (drop offset bytes)

      payload : ℕ
      payload = add64 offset tar_block_size

      go : ℕ → Bool × S
      go n = emit visit (entry_of hdr (drop payload bytes) n) s

  -- The walk over an image of any length that leaves room for two blocks below 2^64 always ends: the
  -- rounds that the model allots are enough, whatever the visitor does and returns.
  pub iterate_from-iterate_fuel :
      (bytes : List ℕ) (s : S)
      → length bytes + 2 * tar_block_size < u64_mod
      → iterate_from visit (iterate_fuel visit bytes) bytes 0 s ≢ none
  iterate_from-iterate_fuel bytes s m =
      iterate_from-total (iterate_fuel visit bytes) bytes 0 s m (omega arith) (omega arith)
