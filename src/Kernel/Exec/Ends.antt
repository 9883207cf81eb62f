-- ===== src/Kernel/Exec/Ends.antt =====
-- Every run of a process ends it and gives back its level of the stack, whichever way it fails.
use cleon_os_jgz_yes_fork.Base.{
  leb, ◌==◌, if◌then◌else◌, if_cases, option_cases, take, add64, add32, char_at, ℕ, suc, ◌<◌, ◌≡◌,
  refl, ◌∙◌, Bool, true, false, not, ◌||◌, Option, none, some, List, arith,
}
use cleon_os_jgz_yes_fork.Kernel.Path.{slash}
use cleon_os_jgz_yes_fork.Kernel.Heap.{kmalloc, Heap}
use cleon_os_jgz_yes_fork.Kernel.Fs.{content}
use cleon_os_jgz_yes_fork.Kernel.Fs.Ops.{read_all}
use cleon_os_jgz_yes_fork.Kernel.Elf.{Info, LoadedImage, inspect, load, entry_pointer}
use cleon_os_jgz_yes_fork.Kernel.Exec.{
  Exec, Proc, Level, ProcState, World, Devices, stopped, is_exited, is_stopped, set_proc, set_level,
  minus_one, max_procs, max_depth,
}
use cleon_os_jgz_yes_fork.Kernel.Exec.Procs.{mark_running, pause_runtime, mark_exited}
use cleon_os_jgz_yes_fork.Kernel.Exec.Run.{
  Machine, with_image, run_stack_bytes, push_level, pop_level, leave_run, with_exec, with_heap,
  unload_image, fail_run, finish_run, invoke_entry, run_loaded, run_image, run_pushed,
  run_proc_slot, with_image,
}

abbrev pub is_over : ProcState → Bool
is_over s = is_exited s || is_stopped s

push_level-depth : (x : Exec) (pid : ℕ) → (push_level x pid).depth ≡ suc x.depth
unfolding push_level
push_level-depth x pid = omega arith

module _ {T : Type 0} (d : Devices T) (m : Machine T) where
  -- The process in a slot has ended, and the stack of processes has a given depth.
  abbrev pub Ended : ℕ → ℕ → World T → Type 0
  Ended slot n w = (w.exec.depth ≡ n) × (is_over (w.exec.procs slot).state ≡ true)

  -- What the program does with its own processes, it undoes: when it returns, the stack is as deep as
  -- it was.
  abbrev pub IsBalanced : Type 0
  IsBalanced = (e : ℕ) (w : World T) → (m.call e w).1.exec.depth ≡ w.exec.depth

  unload-Ended :
      (slot n : ℕ) (l : Option LoadedImage) (w : World T)
      → Ended slot n w
      → Ended slot n (unload_image d m l w)
  unload-Ended slot n none w e = e
  unload-Ended slot n (some l) w e = e

  pop_level-Ended :
      (slot n at : ℕ) (x : Exec)
      → x.depth ≡ suc n
      → is_over (x.procs slot).state ≡ true
      → ((pop_level x at).depth ≡ n) × (is_over ((pop_level x at).procs slot).state ≡ true)
  unfolding pop_level
  pop_level-Ended slot n at x h o = (ground arith, ground arith)

  mark_exited-over : (p : Proc) (now status : ℕ) → is_over (mark_exited p now status).state ≡ true
  unfolding mark_exited
  mark_exited-over p now status = refl

  fail_run-Ended :
      (slot at n : ℕ) (l : Option LoadedImage) (counted : Bool) (w : World T)
      → w.exec.depth ≡ suc n
      → Ended slot n (fail_run d m slot at l counted w).1
  unfolding fail_run
  fail_run-Ended slot at n l counted w h =
      unload-Ended slot n l (with_exec d m w (pop_level marked at))
        (pop_level-Ended slot n at marked deep over)
    where
      left : Exec
      left = if counted then leave_run w.exec else w.exec

      marked : Exec
      marked =
          set_proc left slot (mark_exited (left.procs slot) (d.timer_ticks w.devices) minus_one)

      deep : marked.depth ≡ suc n
      deep = ground arith

      over : is_over (marked.procs slot).state ≡ true
      over = ground (arith, mark_exited-over (left.procs slot) (d.timer_ticks w.devices) minus_one)

  finish_run-Ended :
      (slot at n : ℕ) (l : LoadedImage) (ret : ℕ) (w : World T)
      → w.exec.depth ≡ suc n
      → Ended slot n (finish_run d m slot at l ret w).1
  unfolding finish_run
  finish_run-Ended slot at n l ret w h = pop_level-Ended slot n at marked h over
    where
      level : Level
      level = w.exec.levels at

      run_ret : ℕ
      run_ret = if level.exit_requested then level.requested_status else ret

      ended : Proc
      ended =
          if level.stop_requested
          then record (pause_runtime (w.exec.procs slot) (d.timer_ticks w.devices)) {
            state = stopped;
            exit_status = run_ret;
            exited_tick = 0;
          }
          else mark_exited (w.exec.procs slot) (d.timer_ticks w.devices) run_ret

      marked : Exec
      marked = set_proc (record (leave_run w.exec) { success = add64 w.exec.success 1 }) slot ended

      over : is_over (marked.procs slot).state ≡ true
      over = ground (arith, mark_exited-over (w.exec.procs slot) (d.timer_ticks w.devices) run_ret)

  invoke_entry-depth :
      IsBalanced
      → (entry at : ℕ) (w : World T) → (invoke_entry d m entry at w).1.exec.depth ≡ w.exec.depth
  unfolding invoke_entry
  invoke_entry-depth b entry at w =
      option_cases P (kmalloc w.fs.heap run_stack_bytes).0 _ _ (λ _. refl) λ base _. b entry _
    where
      P : Option ℕ × World T → Type 0
      P r = r.1.exec.depth ≡ w.exec.depth

  run_loaded-Ended :
      IsBalanced
      → (slot at n : ℕ) (l : LoadedImage) (entry : ℕ) (w : World T) → w.exec.depth ≡ suc n
      → Ended slot n (run_loaded d m slot at l entry w).1
  unfolding run_loaded
  run_loaded-Ended b slot at n l entry w h =
      if_cases P
        ((l.image_base == 0)
          || (l.image_size == 0)
          || leb (add64 l.image_base l.image_size) l.image_base)
        (λ _. fail_run-Ended slot at n (some l) false w h)
        λ _.
          option_cases P called.0 _ _ (λ _. fail_run-Ended slot at n (some l) true called.1 deep)
            λ r _. finish_run-Ended slot at n l r called.1 deep
    where
      P : (Bool × ℕ) × World T → Type 0
      P r = Ended slot n r.1

      level : Level
      level = w.exec.levels at

      before : World T
      before =
          with_exec d m w
            (record (set_level w.exec at (record level {
              image_begin = l.image_base;
              image_end = add64 l.image_base l.image_size;
            })) { running_depth = add32 w.exec.running_depth 1 })

      called : Option ℕ × World T
      called = invoke_entry d m entry at before

      deep : called.1.exec.depth ≡ suc n
      deep = invoke_entry-depth b entry at before ∙ h

  run_image-Ended :
      IsBalanced
      → (slot at n : ℕ) (image : List ℕ) (size : ℕ) (w : World T) → w.exec.depth ≡ suc n
      → Ended slot n (run_image d m slot at image size w).1
  unfolding run_image
  run_image-Ended b slot at n image size w h =
      option_cases P (inspect image size) _ _ (λ _. fail_run-Ended slot at n none false w h)
        λ info _.
          option_cases P (load image size w.fs.heap).0 _ _
            (λ _. fail_run-Ended slot at n none false (with_heap d m (inspected info) heap') h)
            λ l _.
              option_cases P (entry_pointer l info.entry) _ _
                (λ _.
                  fail_run-Ended slot at n (some l) false (with_image d m (inspected info) heap' l)
                    h)
                λ e _. run_loaded-Ended b slot at n l e (with_image d m (inspected info) heap' l) h
    where
      P : (Bool × ℕ) × World T → Type 0
      P r = Ended slot n r.1

      p : Proc
      p = w.exec.procs slot

      heap' : Heap
      heap' = (load image size w.fs.heap).1

      inspected : Info → World T
      inspected info =
          with_exec d m w
            (set_proc w.exec slot (record p { image_mem_bytes = info.total_load_memsz }))

  run_pushed-Ended :
      IsBalanced → (slot : ℕ) (w : World T) → Ended slot w.exec.depth (run_pushed d m slot w).1
  unfolding run_pushed
  run_pushed-Ended b slot w =
      option_cases P (read_all w.fs (some p.path)) _ _
        (λ _. fail_run-Ended slot w.exec.depth w.exec.depth none false pushed deep)
        λ q _.
          if_cases P (q.1 == 0)
            (λ _. fail_run-Ended slot w.exec.depth w.exec.depth none false pushed deep)
            λ _.
              run_image-Ended b slot w.exec.depth w.exec.depth (take q.1 (content w.fs q.0)) q.1
                pushed deep
    where
      P : (Bool × ℕ) × World T → Type 0
      P r = Ended slot w.exec.depth r.1

      p : Proc
      p = mark_running (w.exec.procs slot) (d.timer_ticks w.devices)

      pushed : World T
      pushed = with_exec d m w (push_level (set_proc w.exec slot p) p.pid)

      deep : pushed.exec.depth ≡ suc w.exec.depth
      deep = push_level-depth (set_proc w.exec slot p) p.pid

  -- However a process in use is run, with a program that leaves the stack of processes as deep as it
  -- found it: afterwards the process is exited or stopped, never left pending or running, and the
  -- stack is as deep as before. This covers a bad path, a full stack, a file that is missing or empty,
  -- an executable that is refused at any stage, no memory for the program's stack, a program that
  -- returns and one that is asked to exit or stop.
  pub run_proc_slot-Ended :
      IsBalanced
      → (slot : ℕ) (w : World T) → slot < max_procs
      → (w.exec.procs slot).used ≡ true
      → Ended slot w.exec.depth (run_proc_slot d m slot w).1
  unfolding run_proc_slot
  run_proc_slot-Ended b slot w lt u =
      if_cases P (leb max_procs slot) (λ h. absurd (ground arith))
        λ _.
          if_cases P (not (w.exec.procs slot).used) (λ h. absurd (ground arith))
            λ _.
              if_cases P (not (char_at (w.exec.procs slot).path 0 == slash)) (λ _. refused)
                λ _.
                  if_cases P (leb max_depth w.exec.depth) (λ _. refused)
                    λ _. run_pushed-Ended b slot w
    where
      P : (Bool × ℕ) × World T → Type 0
      P r = Ended slot w.exec.depth r.1

      gone : Proc
      gone = mark_exited (w.exec.procs slot) (d.timer_ticks w.devices) minus_one

      refused : Ended slot w.exec.depth (with_exec d m w (set_proc w.exec slot gone))
      refused = (
        refl,
        ground (arith, mark_exited-over (w.exec.procs slot) (d.timer_ticks w.devices) minus_one),
      )
