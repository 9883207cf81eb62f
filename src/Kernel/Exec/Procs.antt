-- ===== src/Kernel/Exec/Procs.antt =====
-- Records of the process table, and signals: clks/kernel/exec.c. `now` is what
-- `clks_interrupts_timer_ticks` returns.
use cleon_os_jgz_yes_fork.Base.{
  ltb, ◌==◌, if◌then◌else◌, add64, ℕ, zero, suc, ◌+◌, ◌-◌, ◌*◌, ◌%◌, ◌^◌, Bool, true, false, not,
  ◌&&◌, ◌||◌, Option, none, some, List, [], ◌∷◌,
}
use cleon_os_jgz_yes_fork.Kernel.Exec.{
  Exec, Proc, ProcState, running, exited, stopped, pending, is_pending, is_running, is_exited,
  is_stopped, set_proc, set_level, minus_one, find_slot_by_pid, current_pid, exec_path_max,
  max_procs,
}
use cleon_os_jgz_yes_fork.Kernel.Exec.Text.{
  copy_text, item_max, max_args, max_envs, parse_whitespace_items, parse_env_items,
}
use cleon_os_jgz_yes_fork.Kernel.Exec.Fds.{fd_init_defaults}

-- CLKS_EXEC_SIGNAL_TERM, CLKS_EXEC_SIGNAL_CONT, CLKS_EXEC_SIGNAL_STOP
abbrev pub signal_term : ℕ
signal_term = 15

abbrev pub signal_cont : ℕ
signal_cont = 18

abbrev pub signal_stop : ℕ
signal_stop = 19

-- CLKS_EXEC_ARG_LINE_MAX, CLKS_EXEC_ENV_LINE_MAX
abbrev pub arg_line_max : ℕ
arg_line_max = 256

abbrev pub env_line_max : ℕ
env_line_max = 512

-- `clks_exec_signal_from_vector`
unfoldable pub signal_from_vector : ℕ → ℕ
signal_from_vector v =
    if (v == 0) || (v == 16) || (v == 19)
    then 8
    else (if v == 6
        then 4
        else (if v == 3
            then 5
            else (if (v == 14) || (v == 13) || (v == 12) || (v == 11) || (v == 10) || (v == 17)
                then 11
                else 6)))

-- `clks_exec_encode_signal_status`: the four parts stand in bits of their own, so that `|` adds them.
unfoldable pub encode_signal_status : ℕ → ℕ → ℕ → ℕ
encode_signal_status signal vector error_code =
    2 ^ 63 + signal % 256 + vector % 256 * 256 + error_code % 65536 * 65536

-- `clks_exec_proc_mark_running`
unfoldable pub mark_running : Proc → ℕ → Proc
mark_running p now = record p {
  started_tick = if p.started_tick == 0 then now else p.started_tick;
  run_started_tick = now;
  state = running;
}

-- `clks_exec_proc_pause_runtime`
unfoldable pub pause_runtime : Proc → ℕ → Proc
pause_runtime p now = record p {
  runtime_ticks_accum =
      if not (p.run_started_tick == 0) && ltb p.run_started_tick now
      then add64 p.runtime_ticks_accum (now - p.run_started_tick)
      else p.runtime_ticks_accum;
  run_started_tick = 0;
}

-- `clks_exec_proc_mark_exited`
unfoldable pub mark_exited : Proc → ℕ → ℕ → Proc
unfolding pause_runtime
mark_exited p now status = record (pause_runtime p now) {
  state = exited;
  exit_status = status;
  exited_tick = now;
}

-- A line that is NULL is copied as an empty one.
abbrev pub line_of : Option (List ℕ) → List ℕ
line_of none = []
line_of (some line) = line

-- `clks_exec_prepare_proc_record` on a slot and a path: the record that it writes.
unfoldable pub new_record :
    ℕ → ℕ → ℕ → List ℕ → Option (List ℕ) → Option (List ℕ) → ProcState → Proc
unfolding copy_text
new_record tty pid ppid path argv_line env_line state =
    let argv = copy_text arg_line_max (line_of argv_line) in
    let env = copy_text env_line_max (line_of env_line) in
    record {
      used = true;
      state = state;
      pid = pid;
      ppid = ppid;
      started_tick = 0;
      exited_tick = 0;
      run_started_tick = 0;
      runtime_ticks_accum = 0;
      exit_status = minus_one;
      tty_index = tty;
      image_mem_bytes = 0;
      path = copy_text exec_path_max path;
      argv_line = argv;
      env_line = env;
      argv_items = copy_text item_max path ∷ parse_whitespace_items argv (max_args - 1);
      env_items = parse_env_items env max_envs;
      last_signal = 0;
      last_fault_vector = 0;
      last_fault_error = 0;
      last_fault_rip = 0;
      fds = fd_init_defaults tty;
    }

-- `clks_exec_request_exit`
unfoldable pub request_exit : Exec → ℕ → Bool × Exec
request_exit x status =
    let top = x.levels (x.depth - 1) in
    if x.depth == 0 then (false, x) else (
      true,
      set_level x (x.depth - 1) (record top { exit_requested = true; requested_status = status }),
    )

-- The signal that `clks_exec_proc_kill` delivers.
abbrev pub effective_signal : ℕ → ℕ
effective_signal signal = if signal == 0 then signal_term else signal % 256

-- `clks_exec_proc_kill` once the signal is recorded: process `slot`, which is not exited.
unfoldable pub kill_recorded : Exec → ℕ → ℕ → ℕ → ℕ → ℕ × Exec
unfolding mark_exited encode_signal_status
kill_recorded x slot pid sig now =
    let p = x.procs slot in
    let status = encode_signal_status sig 0 0 in
    let top = x.levels (x.depth - 1) in
    if sig == signal_cont
    then (1, if is_stopped p.state then set_proc x slot (record p { state = pending }) else x)
    else (if (sig == signal_stop) && is_pending p.state
        then (1, set_proc x slot (record p { state = stopped }))
        else (if (sig == signal_stop) && is_stopped p.state
            then (1, x)
            else (if is_pending p.state || is_stopped p.state
                then (1, set_proc x slot (mark_exited p now status))
                else (if is_running p.state
                    then (if (x.depth == 0) || not (current_pid x == pid) then (0, x) else (
                      1,
                      set_level x (x.depth - 1) (record top {
                        exit_requested = true;
                        requested_status = status;
                        stop_requested = if sig == signal_stop then true else top.stop_requested;
                      }),
                    ))
                    else (0, x)))))

-- `clks_exec_proc_kill`; the result is 1, 0 or (u64)-1.
unfoldable pub kill : Exec → ℕ → ℕ → ℕ → ℕ × Exec
unfolding kill_recorded
kill x pid signal now = elim (find_slot_by_pid x pid) [
  | none ↦ (minus_one, x)
  | some slot ↦
      (let p = x.procs slot in
        let sig = effective_signal signal in
        if pid == 0
        then (minus_one, x)
        else (if is_exited p.state
            then (1, x)
            else kill_recorded
                (set_proc x slot (record p {
                  last_signal = sig;
                  last_fault_vector = 0;
                  last_fault_error = 0;
                  last_fault_rip = 0;
                }))
                slot pid sig now))
]

-- `clks_exec_proc_runtime_ticks`, `clks_exec_proc_memory_bytes`
unfoldable pub runtime_ticks : Proc → ℕ → ℕ
runtime_ticks p now =
    if p.started_tick == 0
    then 0
    else (if is_running p.state && not (p.run_started_tick == 0) && ltb p.run_started_tick now
        then add64 p.runtime_ticks_accum (now - p.run_started_tick)
        else p.runtime_ticks_accum)

unfoldable pub memory_bytes : Proc → ℕ
memory_bytes p = if is_running p.state then add64 p.image_mem_bytes 65536 else p.image_mem_bytes

-- The loop of `clks_exec_proc_count`, and that of `clks_exec_proc_pid_at`, from slot `i` on.
unfoldable pub count_from : (ℕ → Proc) → ℕ → ℕ → ℕ
count_from procs i zero = 0
count_from procs i (suc rounds) =
    let rest = count_from procs (i + 1) rounds in if (procs i).used then rest + 1 else rest

unfoldable pub proc_count : Exec → ℕ
unfolding count_from
proc_count x = count_from x.procs 0 max_procs

unfoldable pub pid_at_from : (ℕ → Proc) → ℕ → ℕ → ℕ → ℕ → Option ℕ
pid_at_from procs index pos i zero = none
pid_at_from procs index pos i (suc rounds) =
    let rest = pid_at_from procs index (if (procs i).used then pos + 1 else pos) (i + 1) rounds in
    if (procs i).used then (if pos == index then some (procs i).pid else rest) else rest

unfoldable pub proc_pid_at : Exec → ℕ → Option ℕ
unfolding pid_at_from
proc_pid_at x index = pid_at_from x.procs index 0 0 max_procs
