-- ===== src/Kernel/Exec/Fds.antt =====
-- The table of file descriptors of a process: the functions of clks/kernel/exec.c that do not
-- transfer bytes. A table is a function of the descriptor below `fd_max`.
use cleon_os_jgz_yes_fork.Base.{
  leb, ◌==◌, if◌then◌else◌, store, ℕ, zero, suc, ◌+◌, ◌/◌, ◌%◌, Bool, true, false, not, ◌&&◌, ◌||◌,
  Option, none, some, [],
}
use cleon_os_jgz_yes_fork.Kernel.Exec.{FdEntry, fd_max, minus_one, tty_kind, blank_fd}

-- CLKS_EXEC_O_RDONLY, CLKS_EXEC_O_WRONLY, CLKS_EXEC_O_RDWR
abbrev pub o_rdonly : ℕ
o_rdonly = 0

abbrev pub o_wronly : ℕ
o_wronly = 1

abbrev pub o_rdwr : ℕ
o_rdwr = 2

-- `flags & CLKS_EXEC_FD_ACCESS_MASK`
abbrev pub access_mode : ℕ → ℕ
access_mode flags = flags % 4

-- `(flags & CLKS_EXEC_O_CREAT) != 0`, and so on: one bit of the flags.
abbrev pub has_creat : ℕ → Bool
has_creat flags = flags / 0x40 % 2 == 1

abbrev pub has_trunc : ℕ → Bool
has_trunc flags = flags / 0x200 % 2 == 1

abbrev pub has_append : ℕ → Bool
has_append flags = flags / 0x400 % 2 == 1

-- `clks_exec_fd_access_mode_valid`, `clks_exec_fd_can_read`, `clks_exec_fd_can_write`
unfoldable pub access_mode_valid : ℕ → Bool
access_mode_valid flags =
    (access_mode flags == o_rdonly)
    || (access_mode flags == o_wronly)
    || (access_mode flags == o_rdwr)

unfoldable pub can_read : ℕ → Bool
can_read flags = (access_mode flags == o_rdonly) || (access_mode flags == o_rdwr)

unfoldable pub can_write : ℕ → Bool
can_write flags = (access_mode flags == o_wronly) || (access_mode flags == o_rdwr)

abbrev pub tty_fd : ℕ → ℕ → FdEntry
tty_fd flags tty = record {
  used = true;
  kind = tty_kind;
  flags = flags;
  offset = 0;
  tty_index = tty;
  path = [];
}

-- `clks_exec_fd_init_defaults`, for a process of terminal `tty`.
unfoldable pub fd_init_defaults : ℕ → ℕ → FdEntry
fd_init_defaults tty i =
    if i == 0
    then tty_fd o_rdonly tty
    else (if i == 1
        then tty_fd o_wronly tty
        else (if i == 2 then tty_fd o_wronly tty else blank_fd))

-- `clks_exec_fd_copy_from_parent`; a parent that is `none` is NULL, a result that is `none` is failure.
unfoldable pub fd_copy_from_parent :
    (ℕ → FdEntry) → Option (ℕ → FdEntry) → ℕ → ℕ → Bool → Bool → Option (ℕ → FdEntry)
unfolding can_read can_write
fd_copy_from_parent child none parent_fd child_fd require_read require_write = none
fd_copy_from_parent child (some parent) parent_fd child_fd require_read require_write =
    let src = parent parent_fd in
    if leb fd_max parent_fd || leb fd_max child_fd
    then none
    else (if not src.used
        then none
        else (if require_read && not (can_read src.flags)
            then none
            else (if require_write && not (can_write src.flags)
                then none
                else some (store child child_fd src))))

-- One override of `clks_exec_fd_apply_stdio_overrides`.
abbrev pub override :
    Option (ℕ → FdEntry) → ℕ → ℕ → Bool → Bool → (ℕ → FdEntry) → Option (ℕ → FdEntry)
override parent fd child_fd require_read require_write child =
    if fd == minus_one
    then some child
    else fd_copy_from_parent child parent fd child_fd require_read require_write

-- `clks_exec_fd_apply_stdio_overrides`
unfoldable pub apply_stdio_overrides :
    (ℕ → FdEntry) → Option (ℕ → FdEntry) → ℕ → ℕ → ℕ → Option (ℕ → FdEntry)
unfolding fd_copy_from_parent
apply_stdio_overrides child parent stdin_fd stdout_fd stderr_fd =
    elim (override parent stdin_fd 0 true false child) [
      | none ↦ none
      | some c0 ↦ elim (override parent stdout_fd 1 false true c0) [
        | none ↦ none
        | some c1 ↦ override parent stderr_fd 2 false true c1
      ]
    ]

-- The loop of `clks_exec_fd_find_free` from descriptor `i` on; `none` is -1.
unfoldable pub find_free_from : (ℕ → FdEntry) → ℕ → ℕ → Option ℕ
find_free_from fds i zero = none
find_free_from fds i (suc rounds) =
    let rest = find_free_from fds (i + 1) rounds in if (fds i).used then rest else some i

unfoldable pub find_free : (ℕ → FdEntry) → Option ℕ
unfolding find_free_from
find_free fds = find_free_from fds 0 fd_max

-- `clks_exec_fd_lookup`; `none` is NULL.
unfoldable pub fd_lookup : (ℕ → FdEntry) → ℕ → Option FdEntry
fd_lookup fds fd = if leb fd_max fd then none else (if (fds fd).used then some (fds fd) else none)

-- `clks_exec_fd_close` and `clks_exec_fd_dup` on the table of the current process; `none` is -1.
unfoldable pub close_in : (ℕ → FdEntry) → ℕ → Option (ℕ → FdEntry)
unfolding fd_lookup
close_in fds fd = elim (fd_lookup fds fd) [
  | none ↦ none
  | some entry ↦ some (store fds fd blank_fd)
]

unfoldable pub dup_in : (ℕ → FdEntry) → ℕ → Option (ℕ × (ℕ → FdEntry))
unfolding fd_lookup find_free
dup_in fds fd = elim (fd_lookup fds fd) [
  | none ↦ none
  | some entry ↦ elim (find_free fds) [ none ↦ none | some i ↦ some (i, store fds i entry) ]
]
