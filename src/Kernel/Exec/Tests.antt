-- ===== src/Kernel/Exec/Tests.antt =====
-- The theorems about processes, applied to a table with one pending process.
use cleon_os_jgz_yes_fork.Base.{
  length, ℕ, zero, suc, ◌+◌, ◌≡◌, refl, true, false, none, some, List, [], ◌∷◌, arith,
}
use cleon_os_jgz_yes_fork.Kernel.Heap
use cleon_os_jgz_yes_fork.Kernel.Keyboard
use cleon_os_jgz_yes_fork.Kernel.Heap.{kmalloc, alloc_from, take_block, split_block, heap_align_up}
use cleon_os_jgz_yes_fork.Kernel.Strings.{str_eq}
use cleon_os_jgz_yes_fork.Kernel.Path.{
  normalize, normalize_from, skip_slashes, component, after_component, push_component, in_temp_tree,
  is_temp_file_path, split_parent, last_slash,
}
use cleon_os_jgz_yes_fork.Kernel.Fs.{
  Fs, Node, blank_node, dir, null, find_external, release_heap_data, find_internal, find_from,
  create_or_update, update_node, create_node, alloc_slot, free_slot_from,
}
use cleon_os_jgz_yes_fork.Kernel.Fs.Dirs.{ensure_from, enter_dir, ensure_dir_hierarchy}
use cleon_os_jgz_yes_fork.Kernel.Fs.Ops.{
  temp_name, write_all, read_all, put_file, install, build_file_payload, write_internal,
}
use cleon_os_jgz_yes_fork.Kernel.Exec.{
  Exec, Proc, World, Devices, FdEntry, pending, file_kind, init, set_proc, find_slot_by_pid,
  find_pid_from,
}
use cleon_os_jgz_yes_fork.Kernel.Exec.Procs.{
  new_record, kill, encode_signal_status, effective_signal,
}
use cleon_os_jgz_yes_fork.Kernel.Exec.Text.{parse_whitespace_items}
use cleon_os_jgz_yes_fork.Kernel.Exec.Items.{join, parse_whitespace_items-join}
use cleon_os_jgz_yes_fork.Kernel.Exec.Run.{Machine, run_proc_slot, wait_pid}
use cleon_os_jgz_yes_fork.Kernel.Exec.Ends.{Ended, run_proc_slot-Ended}
use cleon_os_jgz_yes_fork.Kernel.Exec.Kill.{Signaled, kill-Signaled, wait_pid-kill}
use cleon_os_jgz_yes_fork.Kernel.Exec.Io.{file_read, file_write}
use cleon_os_jgz_yes_fork.Kernel.Exec.Transfer.{file_read-file_write}

abbrev demo_fs : Fs
demo_fs = record {
  nodes = λ i. blank_node;
  nodes_used = 0;
  is_ready = false;
  heap = Heap.init;
  bytes = λ a. [];
}

-- "/a"
abbrev a_path : List ℕ
a_path = b'/' ∷ b'a' ∷ []

abbrev waiting : Proc
waiting = new_record 0 1 0 a_path none none pending

abbrev demo_exec : Exec
demo_exec = set_proc init 0 waiting

-- One terminal, and a timer that stands still.
abbrev demo_devices : Devices ℕ
demo_devices = record {
  tty_count = λ t. 1;
  tty_active = λ t. 0;
  tty_write_n = λ t text. t + length text;
  timer_ticks = λ t. 5;
}

-- Every program returns 0.
abbrev demo_machine : Machine ℕ
demo_machine = record { call = λ e w. (0, w) }

abbrev demo : World ℕ
demo = record { exec = demo_exec; fs = demo_fs; keyboard = Keyboard.init; devices = 0 }

demo_used : (demo_exec.procs 0).used ≡ true
unfolding init new_record
demo_used = refl

demo_pending : (demo_exec.procs 0).state ≡ pending
unfolding init new_record
demo_pending = refl

demo_slot : find_slot_by_pid demo_exec 1 ≡ some 0
unfolding find_slot_by_pid find_pid_from init new_record
demo_slot = refl

run_proc_slot-Ended_example :
    Ended demo_devices demo_machine 0 demo.exec.depth
      (run_proc_slot demo_devices demo_machine 0 demo).1
run_proc_slot-Ended_example =
    run_proc_slot-Ended demo_devices demo_machine (λ e w. refl) 0 demo (omega arith) demo_used

kill-Signaled_example : Signaled (demo_exec.procs 0) ((kill demo_exec 1 9 5).1.procs 0)
kill-Signaled_example = kill-Signaled demo_exec 1 9 5 0

wait_pid-kill_example :
    wait_pid demo_devices demo_machine 1 (record demo { exec = (kill demo_exec 1 9 5).1 }) ≡ (
      (1, some (encode_signal_status (effective_signal 9) 0 0)),
      record demo { exec = (kill demo_exec 1 9 5).1 },
    )
wait_pid-kill_example =
    wait_pid-kill demo_devices demo_machine demo 1 9 5 0 demo_slot (λ e. absurd (omega arith))
      demo_pending (λ e. absurd (omega arith)) (λ e. absurd (omega arith))

abbrev demo_args : List (List ℕ)
demo_args = (b'-' ∷ b'l' ∷ []) ∷ (b'/' ∷ []) ∷ []

parse_whitespace_items-join_example : parse_whitespace_items (join demo_args) 23 ≡ demo_args
parse_whitespace_items-join_example =
    parse_whitespace_items-join demo_args 23
      ((omega arith, omega arith, (refl, (refl, tt))), ((omega arith, omega arith, (refl, tt)), tt))
      (omega arith)

abbrev dir_node : ℕ → List ℕ → Node
dir_node parent path = record {
  used = true;
  kind = dir;
  parent = parent;
  heap_data = false;
  data_at = null;
  size = 0;
  path = path;
}

-- "/temp/a"
abbrev temp_path : List ℕ
temp_path = b'/' ∷ b't' ∷ b'e' ∷ b'm' ∷ b'p' ∷ b'/' ∷ b'a' ∷ []

abbrev temp_node : ℕ → Node
temp_node zero = dir_node 0 []
temp_node (suc zero) = dir_node 0 temp_name
temp_node _ = blank_node

-- The root and "/temp", in which a file of two bytes is written.
abbrev temp_fs : Fs
temp_fs = (write_all empty_fs (some temp_path) (some (5 ∷ 6 ∷ [])) 2).1
  where
    empty_fs : Fs
    empty_fs = record {
      nodes = temp_node;
      nodes_used = 2;
      is_ready = true;
      heap = Heap.init;
      bytes = λ a. [];
    }

abbrev demo_entry : FdEntry
demo_entry = record {
  used = true;
  kind = file_kind;
  flags = 2;
  offset = 3;
  tty_index = 0;
  path = temp_path;
}

-- The write stands behind the end of the file, and succeeds.
demo_transfer : (file_write temp_fs demo_entry (7 ∷ 8 ∷ []) 2).0 ≡ some 2
unfolding file_write read_all find_external release_heap_data write_all normalize normalize_from
    skip_slashes component after_component push_component in_temp_tree is_temp_file_path
    write_internal split_parent last_slash ensure_dir_hierarchy ensure_from enter_dir find_internal
    find_from str_eq put_file build_file_payload install create_or_update update_node create_node
    alloc_slot free_slot_from kmalloc alloc_from take_block split_block heap_align_up Heap.init
demo_transfer = refl

abbrev two_bytes : ℕ
two_bytes = 2

file_read-file_write_example :
    let r = file_write temp_fs demo_entry (7 ∷ 8 ∷ []) 2 in
    (two_bytes ≡ 2)
    × (r.1.0 ≡ record demo_entry { offset = 3 + 2 })
    × ((file_read r.1.1 demo_entry 2).0 ≡ some (7 ∷ 8 ∷ []))
file_read-file_write_example =
    file_read-file_write demo_entry (7 ∷ 8 ∷ []) 2 temp_fs refl (omega arith) (omega arith) 2
      demo_transfer
