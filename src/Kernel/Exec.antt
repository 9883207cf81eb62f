-- ===== src/Kernel/Exec.antt =====
-- Processes, clks/kernel/exec.c: the process table, the stack of running processes and the file
-- descriptors. The state of the file system (with the heap) and of the keyboard is part of the
-- world; the terminals and the timer are an interface over a state of theirs, `Devices`.
pub mod Text
pub mod Items
pub mod Fds
pub mod Procs
pub mod Run
pub mod Ends
pub mod Kill
pub mod Io
pub mod Transfer
mod Tests
use cleon_os_jgz_yes_fork.Base.{
  ◌==◌, if◌then◌else◌, u64_mod, add64, store, ℕ, zero, suc, ◌+◌, ◌-◌, Bool, true, false, Option,
  none, some, List, [],
}
use cleon_os_jgz_yes_fork.Kernel.Fs.{Fs}
use cleon_os_jgz_yes_fork.Kernel.Keyboard.{Keyboard}

-- CLKS_EXEC_MAX_PROCS
abbrev pub max_procs : ℕ
max_procs = 64

-- CLKS_EXEC_MAX_DEPTH
abbrev pub max_depth : ℕ
max_depth = 16

-- CLKS_EXEC_PATH_MAX
abbrev pub exec_path_max : ℕ
exec_path_max = 192

-- CLKS_EXEC_FD_MAX
abbrev pub fd_max : ℕ
fd_max = 32

-- CLKS_EXEC_FD_INHERIT, and the (u64)-1 of a failed call
abbrev pub minus_one : ℕ
minus_one = u64_mod - 1

-- `enum clks_exec_fd_kind`
pub data FdKind : Type 0 where
  no_kind tty_kind file_kind dev_null dev_zero dev_random : FdKind

-- `enum clks_exec_proc_state`
pub data ProcState : Type 0 where
  unused pending running exited stopped : ProcState

-- `struct clks_exec_fd_entry`
pub record FdEntry : Type 0 where
  pub used : Bool
  pub kind : FdKind
  pub flags : ℕ
  pub offset : ℕ
  pub tty_index : ℕ
  pub path : List ℕ

-- `struct clks_exec_proc_record`; the items are lists, so their number is their length.
pub record Proc : Type 0 where
  pub used : Bool
  pub state : ProcState
  pub pid : ℕ
  pub ppid : ℕ
  pub started_tick : ℕ
  pub exited_tick : ℕ
  pub run_started_tick : ℕ
  pub runtime_ticks_accum : ℕ
  pub exit_status : ℕ
  pub tty_index : ℕ
  pub image_mem_bytes : ℕ
  pub path : List ℕ
  pub argv_line : List ℕ
  pub env_line : List ℕ
  pub argv_items : List (List ℕ)
  pub env_items : List (List ℕ)
  pub last_signal : ℕ
  pub last_fault_vector : ℕ
  pub last_fault_error : ℕ
  pub last_fault_rip : ℕ
  pub fds : ℕ → FdEntry

-- One level of the stack of running processes: the entries of the `clks_exec_*_stack` arrays.
pub record Level : Type 0 where
  pub level_pid : ℕ
  pub exit_requested : Bool
  pub requested_status : ℕ
  pub stop_requested : Bool
  pub unwind_slot : ℕ
  pub unwind_valid : Bool
  pub image_begin : ℕ
  pub image_end : ℕ

-- The static variables of exec.c; the table of dynamic libraries is not part of the model.
pub record Exec : Type 0 where
  pub requests : ℕ
  pub success : ℕ
  pub running_depth : ℕ
  pub dispatch_active : Bool
  pub random_state : ℕ
  pub procs : ℕ → Proc
  pub next_pid : ℕ
  pub levels : ℕ → Level
  pub depth : ℕ

-- What exec.c asks of the terminals and the timer.
pub record Devices (T : Type 0) : Type 0 where
  pub tty_count : T → ℕ
  pub tty_active : T → ℕ
  pub tty_write_n : T → List ℕ → T
  pub timer_ticks : T → ℕ

pub record World (T : Type 0) : Type 0 where
  pub exec : Exec
  pub fs : Fs
  pub keyboard : Keyboard
  pub devices : T

abbrev pub blank_fd : FdEntry
blank_fd = record { used = false; kind = no_kind; flags = 0; offset = 0; tty_index = 0; path = [] }

abbrev pub blank_proc : Proc
blank_proc = record {
  used = false;
  state = unused;
  pid = 0;
  ppid = 0;
  started_tick = 0;
  exited_tick = 0;
  run_started_tick = 0;
  runtime_ticks_accum = 0;
  exit_status = 0;
  tty_index = 0;
  image_mem_bytes = 0;
  path = [];
  argv_line = [];
  env_line = [];
  argv_items = [];
  env_items = [];
  last_signal = 0;
  last_fault_vector = 0;
  last_fault_error = 0;
  last_fault_rip = 0;
  fds = λ i. blank_fd;
}

abbrev pub blank_level : Level
blank_level = record {
  level_pid = 0;
  exit_requested = false;
  requested_status = 0;
  stop_requested = false;
  unwind_slot = 0;
  unwind_valid = false;
  image_begin = 0;
  image_end = 0;
}

-- `clks_exec_init`
unfoldable pub init : Exec
init = record {
  requests = 0;
  success = 0;
  running_depth = 0;
  dispatch_active = false;
  random_state = 0xA5A55A5A12345678;
  procs = λ i. blank_proc;
  next_pid = 1;
  levels = λ i. blank_level;
  depth = 0;
}

-- Writes through pointers into the tables.
abbrev pub set_proc : Exec → ℕ → Proc → Exec
set_proc x i p = record x { procs = store x.procs i p }

abbrev pub set_level : Exec → ℕ → Level → Exec
set_level x i l = record x { levels = store x.levels i l }

abbrev pub is_pending : ProcState → Bool
is_pending pending = true
is_pending _ = false

abbrev pub is_running : ProcState → Bool
is_running running = true
is_running _ = false

abbrev pub is_exited : ProcState → Bool
is_exited exited = true
is_exited _ = false

abbrev pub is_stopped : ProcState → Bool
is_stopped stopped = true
is_stopped _ = false

-- The loop of `clks_exec_proc_find_slot_by_pid` from slot `i` on; `none` is -1.
unfoldable pub find_pid_from : (ℕ → Proc) → ℕ → ℕ → ℕ → Option ℕ
find_pid_from procs pid i zero = none
find_pid_from procs pid i (suc rounds) =
    let rest = find_pid_from procs pid (i + 1) rounds in
    if (procs i).used then (if (procs i).pid == pid then some i else rest) else rest

unfoldable pub find_slot_by_pid : Exec → ℕ → Option ℕ
unfolding find_pid_from
find_slot_by_pid x pid = find_pid_from x.procs pid 0 max_procs

-- The two loops of `clks_exec_proc_alloc_slot` from slot `i` on.
unfoldable pub free_slot_from : (ℕ → Proc) → ℕ → ℕ → Option ℕ
free_slot_from procs i zero = none
free_slot_from procs i (suc rounds) =
    let rest = free_slot_from procs (i + 1) rounds in if (procs i).used then rest else some i

unfoldable pub exited_slot_from : (ℕ → Proc) → ℕ → ℕ → Option ℕ
exited_slot_from procs i zero = none
exited_slot_from procs i (suc rounds) =
    let rest = exited_slot_from procs (i + 1) rounds in
    if is_exited (procs i).state then some i else rest

-- `clks_exec_proc_alloc_slot`
unfoldable pub alloc_slot : Exec → Option ℕ
unfolding free_slot_from exited_slot_from
alloc_slot x = elim (free_slot_from x.procs 0 max_procs) [
  | some i ↦ some i
  | none ↦ exited_slot_from x.procs 0 max_procs
]

-- `if (++clks_exec_next_pid == 0) clks_exec_next_pid = 1`
abbrev pub next_after : ℕ → ℕ
next_after pid = if add64 pid 1 == 0 then 1 else add64 pid 1

-- `clks_exec_alloc_pid`
unfoldable pub alloc_pid : Exec → ℕ × Exec
alloc_pid x =
    let after = next_after x.next_pid in
    if x.next_pid == 0
    then (after, record x { next_pid = next_after after })
    else (x.next_pid, record x { next_pid = after })

-- `clks_exec_current_pid`
unfoldable pub current_pid : Exec → ℕ
current_pid x = if x.depth == 0 then 0 else (x.levels (x.depth - 1)).level_pid

-- `clks_exec_current_proc`: the slot, `none` for NULL.
unfoldable pub current_proc : Exec → Option ℕ
unfolding find_slot_by_pid
current_proc x =
    if x.depth == 0 then none else find_slot_by_pid x (x.levels (x.depth - 1)).level_pid
