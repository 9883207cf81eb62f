-- ===== src/Kernel/Exec/Run.antt =====
-- How processes start, run and end: clks/kernel/exec.c, on x86_64, the log lines, the interrupt
-- window and the dynamic libraries aside. The program that runs is an interface, `Machine`.
use cleon_os_jgz_yes_fork.Base.{
  leb, ◌==◌, if◌then◌else◌, take, add64, sub64, add32, align_down, store, char_at, ℕ, zero, suc,
  ◌+◌, ◌-◌, Bool, true, false, not, ◌&&◌, ◌||◌, Option, none, some, List,
}
use cleon_os_jgz_yes_fork.Kernel.Path.{slash}
use cleon_os_jgz_yes_fork.Kernel.Heap.{Heap, kmalloc, kfree}
use cleon_os_jgz_yes_fork.Kernel.Fs.{Fs, content}
use cleon_os_jgz_yes_fork.Kernel.Fs.Ops.{read_all}
use cleon_os_jgz_yes_fork.Kernel.Elf.{LoadedImage, inspect, load, unload, entry_pointer}
use cleon_os_jgz_yes_fork.Kernel.Exec.{
  Exec, Proc, ProcState, World, Devices, running, stopped, pending, is_pending, is_running,
  is_exited, is_stopped, set_proc, set_level, blank_proc, minus_one, find_slot_by_pid, alloc_slot,
  alloc_pid, current_pid, current_proc, max_procs, max_depth, FdEntry,
}
use cleon_os_jgz_yes_fork.Kernel.Exec.Fds.{apply_stdio_overrides}
use cleon_os_jgz_yes_fork.Kernel.Exec.Procs.{mark_running, pause_runtime, mark_exited, new_record}

-- CLKS_EXEC_RUN_STACK_BYTES
abbrev pub run_stack_bytes : ℕ
run_stack_bytes = 65536

-- CLKS_EXEC_UNWIND_CTX_BYTES
abbrev pub unwind_ctx_bytes : ℕ
unwind_ctx_bytes = 56

-- `clks_exec_call_on_stack_x86_64`: the user program at an entry pointer runs, with all that it does
-- to the world, and returns a value.
pub record Machine (T : Type 0) : Type 0 where
  pub call : ℕ → World T → ℕ × World T

-- The stack of running processes: the entry that `clks_exec_run_proc_slot` pushes for a process,
-- and what it leaves of it when it pops it.
unfoldable pub push_level : Exec → ℕ → Exec
push_level x pid =
    let old = x.levels x.depth in
    record (set_level x x.depth (record old {
      level_pid = pid;
      exit_requested = false;
      requested_status = 0;
      stop_requested = false;
      image_begin = 0;
      image_end = 0;
    })) { depth = x.depth + 1 }

unfoldable pub pop_level : Exec → ℕ → Exec
pop_level x at =
    let level = x.levels at in
    if x.depth == 0
    then x
    else record (set_level x at
        (record level { stop_requested = false; image_begin = 0; image_end = 0 })) {
          depth = x.depth - 1;
        }

-- `if (clks_exec_running_depth > 0) clks_exec_running_depth--`
abbrev pub leave_run : Exec → Exec
leave_run x = record x { running_depth = x.running_depth - 1 }

module _ {T : Type 0} (d : Devices T) (m : Machine T) where
  abbrev pub with_exec : World T → Exec → World T
  with_exec w x = record w { exec = x }

  abbrev pub with_heap : World T → Heap → World T
  with_heap w h = record w { fs = f }
    where
      f : Fs
      f = record w.fs { heap = h }

  -- The heap after an image was loaded, with the bytes of the image in its block.
  abbrev pub with_image : World T → Heap → LoadedImage → World T
  with_image w h l = record w { fs = f }
    where
      f : Fs
      f = record w.fs { heap = h; bytes = store w.fs.bytes l.image_base l.memory }

  abbrev pub unload_image : Option LoadedImage → World T → World T
  unload_image none w = w
  unload_image (some l) w = with_heap w (unload l w.fs.heap)

  -- The code behind the label `fail`.
  unfoldable pub fail_run : ℕ → ℕ → Option LoadedImage → Bool → World T → (Bool × ℕ) × World T
  unfolding mark_exited pop_level
  fail_run slot at loaded counted w =
      let x = if counted then leave_run w.exec else w.exec in
      let x' = set_proc x slot (mark_exited (x.procs slot) (d.timer_ticks w.devices) minus_one) in
      ((false, minus_one), unload_image loaded (with_exec w (pop_level x' at)))

  -- The code behind a program that returned.
  unfoldable pub finish_run : ℕ → ℕ → LoadedImage → ℕ → World T → (Bool × ℕ) × World T
  unfolding mark_exited pause_runtime pop_level
  finish_run slot at loaded ret w =
      let x = leave_run w.exec in
      let level = x.levels at in
      let run_ret = if level.exit_requested then level.requested_status else ret in
      let now = d.timer_ticks w.devices in
      let p = x.procs slot in
      let p' =
        if level.stop_requested
        then record (pause_runtime p now) {
          state = stopped;
          exit_status = run_ret;
          exited_tick = 0;
        }
        else mark_exited p now run_ret in
      let x' = set_proc (record x { success = add64 x.success 1 }) slot p' in
      ((true, run_ret), unload_image (some loaded) (with_exec w (pop_level x' at)))

  -- `clks_exec_invoke_entry`; `none` where there is no stack for the program.
  unfoldable pub invoke_entry : ℕ → ℕ → World T → Option ℕ × World T
  invoke_entry entry at w =
      let (stack, heap') = kmalloc w.fs.heap run_stack_bytes in
      elim stack [
        | none ↦ (none, with_heap w heap')
        | some base ↦
            (let x = w.exec in
              let level = x.levels at in
              let opened = set_level x at (record level {
                unwind_slot = sub64 (align_down (add64 base run_stack_bytes) 16) unwind_ctx_bytes;
                unwind_valid = true;
              }) in
              let (ret, w') = m.call entry (with_heap (with_exec w opened) heap') in
              let back = w'.exec.levels at in
              let closed =
                set_level w'.exec at (record back { unwind_valid = false; unwind_slot = 0 }) in
              (some ret, with_heap (with_exec w' closed) (kfree w'.fs.heap (some base))))
      ]

  -- An executable whose image window is known is run.
  unfoldable pub run_loaded : ℕ → ℕ → LoadedImage → ℕ → World T → (Bool × ℕ) × World T
  unfolding fail_run finish_run invoke_entry
  run_loaded slot at loaded entry w =
      let x = w.exec in
      let image_end = add64 loaded.image_base loaded.image_size in
      let level = x.levels at in
      let shown =
        set_level x at (record level { image_begin = loaded.image_base; image_end = image_end }) in
      let (ret, w') =
        invoke_entry entry at
          (with_exec w (record shown { running_depth = add32 x.running_depth 1 })) in
      if (loaded.image_base == 0) || (loaded.image_size == 0) || leb image_end loaded.image_base
      then fail_run slot at (some loaded) false w
      else elim ret [
        | none ↦ fail_run slot at (some loaded) true w'
        | some r ↦ finish_run slot at loaded r w'
      ]

  -- An executable that was read from its file is loaded and run.
  unfoldable pub run_image : ℕ → ℕ → List ℕ → ℕ → World T → (Bool × ℕ) × World T
  unfolding fail_run run_loaded
  run_image slot at image size w = elim (inspect image size) [
    | none ↦ fail_run slot at none false w
    | some info ↦
        (let p = w.exec.procs slot in
          let w1 =
            with_exec w
              (set_proc w.exec slot (record p { image_mem_bytes = info.total_load_memsz })) in
          let (loaded, heap') = load image size w1.fs.heap in
          elim loaded [
            | none ↦ fail_run slot at none false (with_heap w1 heap')
            | some l ↦ elim (entry_pointer l info.entry) [
              | none ↦ fail_run slot at (some l) false (with_image w1 heap' l)
              | some e ↦ run_loaded slot at l e (with_image w1 heap' l)
            ]
          ])
  ]

  -- `clks_exec_run_proc_slot` behind its checks: the process is marked as running and pushed.
  unfoldable pub run_pushed : ℕ → World T → (Bool × ℕ) × World T
  unfolding mark_running push_level fail_run run_image
  run_pushed slot w =
      let x = w.exec in
      let at = x.depth in
      let p = mark_running (x.procs slot) (d.timer_ticks w.devices) in
      let w1 = with_exec w (push_level (set_proc x slot p) p.pid) in
      elim (read_all w1.fs (some p.path)) [
        | none ↦ fail_run slot at none false w1
        | some (q, size) ↦
            (if size == 0
              then fail_run slot at none false w1
              else run_image slot at (take size (content w1.fs q)) size w1)
      ]

  -- `clks_exec_run_proc_slot`: whether it ran, and the status.
  unfoldable pub run_proc_slot : ℕ → World T → (Bool × ℕ) × World T
  unfolding mark_exited run_pushed
  run_proc_slot slot w =
      let x = w.exec in
      let p = x.procs slot in
      let refused =
        with_exec w (set_proc x slot (mark_exited p (d.timer_ticks w.devices) minus_one)) in
      if leb max_procs slot
      then ((false, minus_one), w)
      else (if not p.used
          then ((false, minus_one), w)
          else (if not (char_at p.path 0 == slash)
              then ((false, minus_one), refused)
              else (if leb max_depth x.depth
                  then ((false, minus_one), refused)
                  else run_pushed slot w)))

  -- The loop of `clks_exec_dispatch_pending_once` from slot `i` on: the first pending process.
  unfoldable pub pending_from : (ℕ → Proc) → ℕ → ℕ → Option ℕ
  pending_from procs i zero = none
  pending_from procs i (suc rounds) =
      let rest = pending_from procs (i + 1) rounds in
      if (procs i).used && is_pending (procs i).state then some i else rest

  -- A process runs with dispatch held off, as two callers have it.
  unfoldable pub dispatch_slot : ℕ → World T → World T
  unfolding run_proc_slot
  dispatch_slot slot w =
      let w' = (run_proc_slot slot (with_exec w (record w.exec { dispatch_active = true }))).1 in
      with_exec w' (record w'.exec { dispatch_active = false })

  -- `clks_exec_dispatch_pending_once`
  unfoldable pub dispatch_pending_once : World T → Bool × World T
  unfolding pending_from dispatch_slot
  dispatch_pending_once w =
      if w.exec.dispatch_active then (false, w) else elim (pending_from w.exec.procs 0 max_procs) [
        | none ↦ (false, w)
        | some i ↦ (true, dispatch_slot i w)
      ]

  -- The part that `clks_exec_run_path_internal` and `clks_exec_spawn_pathv` have in common: the
  -- request is counted and a record is made. `none` is failure.
  unfoldable pub make_proc :
      Option (List ℕ)
      → Option (List ℕ)
      → Option (List ℕ)
      → ProcState
      → World T
      → Option (ℕ × ℕ) × World T
  unfolding new_record
  make_proc none argv_line env_line state w =
      (none, with_exec w (record w.exec { requests = add64 w.exec.requests 1 }))
  make_proc (some path) argv_line env_line state w =
      let x = record w.exec { requests = add64 w.exec.requests 1 } in
      if char_at path 0 == slash
      then elim (alloc_slot x) [
        | none ↦ (none, with_exec w x)
        | some slot ↦
            (let (pid, x') = alloc_pid x in
              (
                some (slot, pid),
                with_exec w (
                    set_proc x' slot (
                      new_record (d.tty_active w.devices) pid (current_pid x') path argv_line
                        env_line state)),
              ))
      ]
      else (none, with_exec w x)

  -- `clks_exec_spawn_pathv`: the pid, `none` for failure.
  unfoldable pub spawn_pathv :
      Option (List ℕ) → Option (List ℕ) → Option (List ℕ) → World T → Option ℕ × World T
  unfolding make_proc
  spawn_pathv path argv_line env_line w =
      let (made, w') = make_proc path argv_line env_line pending w in
      (elim made as (λ _. Option ℕ) [ none ↦ none | some (slot, pid) ↦ some pid ], w')

  -- `clks_exec_run_path_internal`: whether it ran, the status and the pid.
  unfoldable pub run_path_internal :
      Option (List ℕ)
      → Option (List ℕ)
      → Option (List ℕ)
      → ℕ
      → ℕ
      → ℕ
      → World T
      → (Bool × ℕ × ℕ) × World T
  unfolding make_proc run_proc_slot
  run_path_internal path argv_line env_line stdin_fd stdout_fd stderr_fd w =
      let parent = current_proc w.exec in
      let (made, w') = make_proc path argv_line env_line running w in
      elim made [
        | none ↦ ((false, minus_one, minus_one), w')
        | some (slot, pid) ↦
            (let p = w'.exec.procs slot in
              let parent_fds = elim parent as (λ _. Option (ℕ → FdEntry)) [
                | none ↦ none
                | some i ↦ some (w'.exec.procs i).fds
              ] in
              elim (apply_stdio_overrides p.fds parent_fds stdin_fd stdout_fd stderr_fd) [
                | none ↦
                    ((false, minus_one, minus_one), with_exec w' (set_proc w'.exec slot blank_proc))
                | some fds ↦
                    (let (r, w2) =
                        run_proc_slot slot
                          (with_exec w' (set_proc w'.exec slot (record p { fds = fds }))) in
                      ((r.0, if r.0 then r.1 else minus_one, pid), w2))
              ])
      ]

  -- `clks_exec_wait_pid`: the result, and the status where it is written.
  unfoldable pub wait_pid : ℕ → World T → (ℕ × Option ℕ) × World T
  unfolding dispatch_slot
  wait_pid pid w = elim (find_slot_by_pid w.exec pid) [
    | none ↦ ((minus_one, none), w)
    | some slot ↦
        (let w' =
            if is_pending (w.exec.procs slot).state && not w.exec.dispatch_active
            then dispatch_slot slot w
            else w in
          let p = w'.exec.procs slot in
          if is_pending p.state || is_running p.state || is_stopped p.state
          then ((0, none), w')
          else (if is_exited p.state
              then ((1, some p.exit_status), w')
              else ((minus_one, none), w')))
  ]
