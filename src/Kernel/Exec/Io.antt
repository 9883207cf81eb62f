-- ===== src/Kernel/Exec/Io.antt =====
-- Input and output through file descriptors: clks/kernel/exec.c. What a read writes to the caller's
-- buffer is part of its result; a result of (u64)-1 is `none`.
use cleon_os_jgz_yes_fork.Base.{
  ltb, leb, ◌==◌, if◌then◌else◌, length, take, drop, replicate, u64_mod, add64, store, char_at, ℕ,
  zero, suc, ◌+◌, ◌-◌, ◌*◌, ◌/◌, ◌%◌, ◌^◌, min, max, Bool, true, false, not, ◌&&◌, ◌||◌, Option,
  none, some, List, [], ◌∷◌, ◌++◌,
}
use Prim.Native.Nat.{bit_xor}
use cleon_os_jgz_yes_fork.Kernel.Path.{slash}
use cleon_os_jgz_yes_fork.Kernel.Strings.{str_eq}
use cleon_os_jgz_yes_fork.Kernel.Heap.{kmalloc, kfree}
use cleon_os_jgz_yes_fork.Kernel.Fs.{Fs, NodeInfo, is_file, content}
use cleon_os_jgz_yes_fork.Kernel.Fs.Ops.{stat, read_all, write_all}
use cleon_os_jgz_yes_fork.Kernel.Fs.Edit.{append}
use cleon_os_jgz_yes_fork.Kernel.Keyboard.{Keyboard, pop_char_for_tty}
use cleon_os_jgz_yes_fork.Kernel.Exec.{
  Proc, World, Devices, FdEntry, FdKind, no_kind, tty_kind, file_kind, dev_null, dev_zero,
  dev_random, set_proc, current_proc, exec_path_max,
}
use cleon_os_jgz_yes_fork.Kernel.Exec.Text.{copy_text}
use cleon_os_jgz_yes_fork.Kernel.Exec.Fds.{
  has_creat, has_trunc, has_append, access_mode_valid, can_read, can_write, tty_fd, find_free,
  fd_lookup, close_in, dup_in,
}

-- `clks_exec_fd_file_read` of at least one byte: the bytes, and the entry behind them.
unfoldable pub file_read : Fs → FdEntry → ℕ → Option (List ℕ) × FdEntry
file_read fs entry size = elim (read_all fs (some entry.path)) [
  | none ↦ (none, entry)
  | some (p, file_size) ↦
      (let read_len = min (file_size - entry.offset) size in
        if leb file_size entry.offset then (some [], entry) else (
          some (take read_len (drop entry.offset (take file_size (content fs p)))),
          record entry { offset = add64 entry.offset read_len },
        ))
]

-- The merged buffer of `clks_exec_fd_file_write`: zeros, the old bytes at its start, and the new bytes
-- at the position.
unfoldable pub merge_at : List ℕ → List ℕ → ℕ → List ℕ
merge_at old new pos =
    take pos old ++ (replicate (pos - length old) 0 ++ (new ++ drop (pos + length new) old))

-- `clks_exec_fd_file_write` of at least one byte: the number of bytes written.
unfoldable pub file_write : Fs → FdEntry → List ℕ → ℕ → Option ℕ × (FdEntry × Fs)
unfolding merge_at
file_write fs entry buffer size =
    let (appended, fs_appended) = append fs (some entry.path) (some buffer) size in
    if has_append entry.flags
    then (if appended
        then (some size, (record entry { offset = add64 entry.offset size }, fs_appended))
        else (none, (entry, fs_appended)))
    else elim (read_all fs (some entry.path)) [
      | none ↦ (none, (entry, fs))
      | some (p, old_size) ↦
          (let pos = entry.offset in
            let new_size = max (pos + size) old_size in
            let merged = merge_at (take old_size (content fs p)) (take size buffer) pos in
            let (m, heap') = kmalloc fs.heap new_size in
            if ltb (u64_mod - 1 - size) pos then (none, (entry, fs)) else elim m [
              | none ↦ (none, (entry, record fs { heap = heap' }))
              | some a ↦
                  (let (ok, fs') =
                      write_all (record fs { heap = heap'; bytes = store fs.bytes a merged })
                        (some entry.path) (some merged) new_size in
                    let freed = record fs' { heap = kfree fs'.heap (some a) } in
                    if ok
                    then (some size, (record entry { offset = pos + size }, freed))
                    else (none, (entry, freed)))
            ])
    ]

-- `v << n` and `v >> n` on u64.
abbrev pub shl64 : ℕ → ℕ → ℕ
shl64 v n = v * 2 ^ n % u64_mod

abbrev pub shr64 : ℕ → ℕ → ℕ
shr64 v n = v / 2 ^ n

-- `clks_exec_random_next_byte`: the new state, whose lowest byte is the result.
unfoldable pub random_step : ℕ → ℕ → ℕ
random_step s now =
    let s1 = bit_xor s (add64 now 0x9E3779B97F4A7C15) in
    let s2 = bit_xor s1 (shl64 s1 13) in
    let s3 = bit_xor s2 (shr64 s2 7) in bit_xor s3 (shl64 s3 17)

-- `n` random bytes; `now` is the timer, which an interrupt does not advance in between.
unfoldable pub random_bytes : ℕ → ℕ → ℕ → List ℕ × ℕ
unfolding random_step
random_bytes zero s now = ([], s)
random_bytes (suc n) s now =
    let s' = random_step s now in
    let (rest, last) = random_bytes n s' now in ((s' % 256) ∷ rest, last)

-- The loop of `clks_exec_fd_read` that takes at most `n` characters from the keyboard.
unfoldable pub pop_chars : ℕ → ℕ → Keyboard → ℕ → List ℕ × Keyboard
pop_chars zero tty_count k tty = ([], k)
pop_chars (suc n) tty_count k tty =
    let (ch, k') = pop_char_for_tty tty_count k tty in
    let (rest, last) = pop_chars n tty_count k' tty in
    elim ch [ none ↦ ([], k') | some c ↦ (c ∷ rest, last) ]

-- "/dev/tty", "/dev/null", "/dev/zero", "/dev/random", "/dev/urandom"
abbrev dev_dir : List ℕ
dev_dir = b'/' ∷ b'd' ∷ b'e' ∷ b'v' ∷ b'/' ∷ []

abbrev pub dev_tty_path : List ℕ
dev_tty_path = dev_dir ++ b't' ∷ b't' ∷ b'y' ∷ []

abbrev pub dev_null_path : List ℕ
dev_null_path = dev_dir ++ b'n' ∷ b'u' ∷ b'l' ∷ b'l' ∷ []

abbrev pub dev_zero_path : List ℕ
dev_zero_path = dev_dir ++ b'z' ∷ b'e' ∷ b'r' ∷ b'o' ∷ []

abbrev pub dev_random_path : List ℕ
dev_random_path = dev_dir ++ b'r' ∷ b'a' ∷ b'n' ∷ b'd' ∷ b'o' ∷ b'm' ∷ []

abbrev pub dev_urandom_path : List ℕ
dev_urandom_path = dev_dir ++ b'u' ∷ b'r' ∷ b'a' ∷ b'n' ∷ b'd' ∷ b'o' ∷ b'm' ∷ []

-- `clks_exec_path_is_dev_tty` and its three kin: the device that a path names.
unfoldable pub device_of : List ℕ → Option FdKind
device_of path =
    if str_eq path dev_tty_path
    then some tty_kind
    else (if str_eq path dev_null_path
        then some dev_null
        else (if str_eq path dev_zero_path
            then some dev_zero
            else (if str_eq path dev_random_path
                then some dev_random
                else (if str_eq path dev_urandom_path then some dev_random else none))))

-- The part of `clks_exec_fd_open` that looks for a file, creates it or truncates it; `none` is -1.
unfoldable pub open_file : Fs → List ℕ → ℕ → Option NodeInfo × Fs
open_file fs path flags =
    let created = write_all fs (some path) (some (0 ∷ [])) 0 in
    let (info, fs') = elim (stat fs (some path)) as (λ _. Option NodeInfo × Fs) [
      | some info ↦ (some info, fs)
      | none ↦
          (if has_creat flags && can_write flags
            then (if created.0 then stat created.1 (some path) else none, created.1)
            else (none, fs))
    ] in
    elim info [
      | none ↦ (none, fs')
      | some i ↦
          (let cut = write_all fs' (some path) (some (0 ∷ [])) 0 in
            if is_file i.info_kind
            then (if has_trunc flags
                then (if cut.0 then stat cut.1 (some path) else none, cut.1)
                else (some i, fs'))
            else (none, fs'))
    ]

module _ {T : Type 0} (d : Devices T) where
  abbrev pub set_fds : World T → ℕ → (ℕ → FdEntry) → World T
  set_fds w slot fds = record w { exec = set_proc w.exec slot (record p { fds = fds }) }
    where
      p : Proc
      p = w.exec.procs slot

  -- `clks_exec_fd_open`; a path that is `none` is NULL.
  unfoldable pub fd_open : Option (List ℕ) → ℕ → World T → Option ℕ × World T
  unfolding open_file device_of copy_text
  fd_open none flags w = (none, w)
  fd_open (some path) flags w = elim (current_proc w.exec) [
    | none ↦ (none, w)
    | some slot ↦
        (let p = w.exec.procs slot in
          if not (char_at path 0 == slash)
          then (none, w)
          else (if leb exec_path_max (length path) || not (access_mode_valid flags)
              then (none, w)
              else (if (has_trunc flags || has_append flags) && not (can_write flags)
                  then (none, w)
                  else elim (find_free p.fds) [
                    | none ↦ (none, w)
                    | some i ↦ elim (device_of path) [
                      | some kind ↦
                          (let entry = tty_fd flags p.tty_index in
                            (some i, set_fds w slot (store p.fds i (record entry { kind = kind }))))
                      | none ↦
                          (let (info, fs') = open_file w.fs path flags in
                            let w' = record w { fs = fs' } in
                            elim info [
                              | none ↦ (none, w')
                              | some n ↦ (
                                some i,
                                set_fds w' slot (
                                    store p.fds i (record {
                                      used = true;
                                      kind = file_kind;
                                      flags = flags;
                                      offset = if has_append flags then n.info_size else 0;
                                      tty_index = p.tty_index;
                                      path = copy_text exec_path_max path;
                                    })),
                              )
                            ])
                    ]
                  ])))
  ]

  -- The cases of `clks_exec_fd_read` by the kind of the descriptor.
  unfoldable pub read_kind : FdKind → World T → ℕ → ℕ → FdEntry → ℕ → Option (List ℕ) × World T
  unfolding file_read pop_chars random_bytes
  read_kind tty_kind w slot fd entry size =
      let (chars, k) = pop_chars size (d.tty_count w.devices) w.keyboard entry.tty_index in
      (some chars, record w { keyboard = k })
  read_kind dev_null w slot fd entry size = (some [], w)
  read_kind dev_zero w slot fd entry size =
      let p = w.exec.procs slot in
      (
        some (replicate size 0),
        set_fds w slot (store p.fds fd (record entry { offset = add64 entry.offset size })),
      )
  read_kind dev_random w slot fd entry size =
      let p = w.exec.procs slot in
      let (bytes, s) = random_bytes size w.exec.random_state (d.timer_ticks w.devices) in
      let x = record w.exec { random_state = s } in
      (
        some bytes,
        set_fds (record w { exec = x }) slot
            (store p.fds fd (record entry { offset = add64 entry.offset size })),
      )
  read_kind file_kind w slot fd entry size =
      let p = w.exec.procs slot in
      let (bytes, entry') = file_read w.fs entry size in
      (bytes, set_fds w slot (store p.fds fd entry'))
  read_kind no_kind w slot fd entry size = (none, w)

  -- `clks_exec_fd_read` into a buffer that is not NULL.
  unfoldable pub fd_read : ℕ → ℕ → World T → Option (List ℕ) × World T
  unfolding read_kind
  fd_read fd size w = elim (current_proc w.exec) [
    | none ↦ (none, w)
    | some slot ↦
        (let p = w.exec.procs slot in
          if size == 0 then (some [], w) else elim (fd_lookup p.fds fd) [
            | none ↦ (none, w)
            | some entry ↦
                (if can_read entry.flags
                  then read_kind entry.kind w slot fd entry size
                  else (none, w))
          ])
  ]

  -- The cases of `clks_exec_fd_write` by the kind of the descriptor: the number of bytes written.
  unfoldable pub write_kind : FdKind → World T → ℕ → ℕ → FdEntry → List ℕ → ℕ → Option ℕ × World T
  unfolding file_write
  write_kind tty_kind w slot fd entry buffer size =
      (some size, record w { devices = d.tty_write_n w.devices (take size buffer) })
  write_kind file_kind w slot fd entry buffer size =
      let p = w.exec.procs slot in
      let (done, (entry', fs')) = file_write w.fs entry buffer size in
      (done, set_fds (record w { fs = fs' }) slot (store p.fds fd entry'))
  write_kind no_kind w slot fd entry buffer size = (none, w)
  write_kind _ w slot fd entry buffer size =
      let p = w.exec.procs slot in
      (
        some size,
        set_fds w slot (store p.fds fd (record entry { offset = add64 entry.offset size })),
      )

  -- `clks_exec_fd_write` from a buffer that is not NULL.
  unfoldable pub fd_write : ℕ → List ℕ → ℕ → World T → Option ℕ × World T
  unfolding write_kind
  fd_write fd buffer size w = elim (current_proc w.exec) [
    | none ↦ (none, w)
    | some slot ↦
        (let p = w.exec.procs slot in
          if size == 0 then (some 0, w) else elim (fd_lookup p.fds fd) [
            | none ↦ (none, w)
            | some entry ↦
                (if can_write entry.flags
                  then write_kind entry.kind w slot fd entry buffer size
                  else (none, w))
          ])
  ]

  -- `clks_exec_fd_close`, `clks_exec_fd_dup`
  unfoldable pub fd_close : ℕ → World T → Bool × World T
  fd_close fd w = elim (current_proc w.exec) [
    | none ↦ (false, w)
    | some slot ↦ elim (close_in (w.exec.procs slot).fds fd) [
      | none ↦ (false, w)
      | some fds ↦ (true, set_fds w slot fds)
    ]
  ]

  unfoldable pub fd_dup : ℕ → World T → Option ℕ × World T
  fd_dup fd w = elim (current_proc w.exec) [
    | none ↦ (none, w)
    | some slot ↦ elim (dup_in (w.exec.procs slot).fds fd) [
      | none ↦ (none, w)
      | some (i, fds) ↦ (some i, set_fds w slot fds)
    ]
  ]
