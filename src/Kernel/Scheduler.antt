-- ===== src/Kernel/Scheduler.antt =====
-- The round-robin scheduler, clks/kernel/scheduler.c. The array of task descriptors is a function
-- of its index. An entry function is a number; what running it does is a parameter of `dispatch`.
pub mod Order
pub mod Invariant
pub mod Fairness
mod Tests
use cleon_os_jgz_yes_fork.Base.{
  ltb, leb, ◌==◌, if◌then◌else◌, add64, add32, store, copy_bounded, ℕ, zero, suc, ◌+◌, ◌-◌, ◌%◌,
  Bool, true, false, Option, none, some, List, [], ◌∷◌,
}

-- CLKS_SCHED_MAX_TASKS
abbrev pub max_tasks : ℕ
max_tasks = 16

-- CLKS_SCHED_MIN_SLICE
abbrev pub min_slice : ℕ
min_slice = 1

-- CLKS_TASK_NAME_MAX
abbrev pub task_name_max : ℕ
task_name_max = 32

-- `enum clks_task_state`
pub data TaskState : Type 0 where
  unused ready running blocked : TaskState

-- `struct clks_task_descriptor`
pub record Task : Type 0 where
  pub id : ℕ
  pub name : List ℕ
  pub state : TaskState
  pub time_slice_ticks : ℕ
  pub remaining_ticks : ℕ
  pub total_ticks : ℕ
  pub switch_count : ℕ
  pub run_count : ℕ
  pub last_run_tick : ℕ
  pub entry : Option ℕ

-- The static variables of scheduler.c.
pub record Sched : Type 0 where
  pub tasks : ℕ → Task
  pub task_count : ℕ
  pub current_task : ℕ
  pub total_timer_ticks : ℕ
  pub context_switch_count : ℕ
  pub dispatch_active : Bool

pub record SchedStats : Type 0 where
  pub count : ℕ
  pub current_id : ℕ
  pub timer_ticks : ℕ
  pub switches : ℕ

-- A descriptor after `clks_memset(.., 0, ..)`.
abbrev pub blank_task : Task
blank_task = record {
  id = 0;
  name = [];
  state = unused;
  time_slice_ticks = 0;
  remaining_ticks = 0;
  total_ticks = 0;
  switch_count = 0;
  run_count = 0;
  last_run_tick = 0;
  entry = none;
}

-- `clks_sched_copy_name`
pub copy_name : List ℕ → List ℕ
unfolding copy_bounded
copy_name src = copy_bounded (task_name_max - 1) src

-- The test for READY or RUNNING that the code repeats.
abbrev pub is_runnable : TaskState → Bool
is_runnable ready = true
is_runnable running = true
is_runnable _ = false

abbrev pub is_running : TaskState → Bool
is_running running = true
is_running _ = false

-- A write through a pointer to one descriptor.
abbrev pub set_task : Sched → ℕ → Task → Sched
set_task s i t = record s { tasks = store s.tasks i t }

-- The loop of `clks_sched_next_ready_task`, from round `i` on with `rounds` rounds left.
pub next_ready_from : Sched → ℕ → ℕ → ℕ → ℕ
next_ready_from s from i zero = from
next_ready_from s from i (suc rounds) =
    let idx = add32 from i % s.task_count in
    let rest = next_ready_from s from (i + 1) rounds in
    if is_runnable (s.tasks idx).state then idx else rest

pub next_ready_task : Sched → ℕ → ℕ
next_ready_task s from = next_ready_from s from 1 s.task_count

-- `clks_scheduler_add_kernel_task_ex`; a name that is `none` is NULL.
pub add_kernel_task_ex : Sched → Option (List ℕ) → ℕ → Option ℕ → Bool × Sched
add_kernel_task_ex s none slice entry = (false, s)
add_kernel_task_ex s (some name) slice entry =
    if leb max_tasks s.task_count
    then (false, s)
    else (let ticks = if ltb slice min_slice then min_slice else slice in
        let task : Task = record {
          id = s.task_count;
          name = copy_name name;
          state = ready;
          time_slice_ticks = ticks;
          remaining_ticks = ticks;
          total_ticks = 0;
          switch_count = 0;
          run_count = 0;
          last_run_tick = 0;
          entry = entry;
        } in
        (true, record (set_task s s.task_count task) { task_count = s.task_count + 1 }))

pub add_kernel_task : Sched → Option (List ℕ) → ℕ → Bool × Sched
add_kernel_task s name slice = add_kernel_task_ex s name slice none

-- "idle"
abbrev idle_name : List ℕ
idle_name = b'i' ∷ b'd' ∷ b'l' ∷ b'e' ∷ []

abbrev blank_sched : Sched
blank_sched = record {
  tasks = λ i. blank_task;
  task_count = 0;
  current_task = 0;
  total_timer_ticks = 0;
  context_switch_count = 0;
  dispatch_active = false;
}

-- `clks_scheduler_init`: it clears all that it does not set.
pub init : Sched
unfolding add_kernel_task_ex
init =
    let s = (add_kernel_task_ex blank_sched (some idle_name) 1 none).1 in
    let idle = s.tasks 0 in
    set_task s 0 (record idle { state = running; remaining_ticks = idle.time_slice_ticks })

-- `clks_scheduler_dispatch_current`. `run f tick s` is the state after `f(tick)` from `s`.
pub dispatch_current : (ℕ → ℕ → Sched → Sched) → Sched → ℕ → Sched
dispatch_current run s tick =
    let current = s.tasks s.current_task in
    let started = set_task s s.current_task (record current {
      state = running;
      run_count = add64 current.run_count 1;
      last_run_tick = tick;
    }) in
    if s.task_count == 0
    then s
    else (if s.dispatch_active
        then s
        else (if is_runnable current.state
            then elim current.entry [
              | none ↦ started
              | some f ↦ record (run f tick (record started { dispatch_active = true })) {
                dispatch_active = false;
              }
            ]
            else s))

-- The current task is charged for the tick.
pub charge : Task → Task
charge t =
    if is_runnable t.state
    then record t {
      total_ticks = add64 t.total_ticks 1;
      remaining_ticks =
          if ltb 0 t.remaining_ticks then t.remaining_ticks - 1 else t.remaining_ticks;
    }
    else t

-- The switch to another task, once the slice of the current one is used up.
pub switch_to : Sched → ℕ → Sched
switch_to s next =
    let current = s.tasks s.current_task in
    let stopped =
      set_task s s.current_task
        (record current { state = if is_running current.state then ready else current.state }) in
    let chosen = stopped.tasks next in
    record (set_task stopped next (record chosen {
      state = running;
      switch_count = add64 chosen.switch_count 1;
      remaining_ticks = chosen.time_slice_ticks;
    })) { current_task = next; context_switch_count = add64 s.context_switch_count 1 }

-- What happens when the charged task may have used up its slice.
pub expire : Sched → Sched
unfolding switch_to
expire s =
    let current = s.tasks s.current_task in
    let next = next_ready_task s s.current_task in
    let renewed =
      set_task s s.current_task (record current { remaining_ticks = current.time_slice_ticks }) in
    if current.remaining_ticks == 0
    then (if next == s.current_task then renewed else switch_to renewed next)
    else s

-- `clks_scheduler_on_timer_tick`
pub on_timer_tick : Sched → ℕ → Sched
unfolding charge expire
on_timer_tick s tick =
    let timed = record s { total_timer_ticks = tick } in
    if s.task_count == 0
    then s
    else (if s.dispatch_active
        then timed
        else expire (set_task timed s.current_task (charge (s.tasks s.current_task))))

pub get_stats : Sched → SchedStats
get_stats s = record {
  count = s.task_count;
  current_id = s.current_task;
  timer_ticks = s.total_timer_ticks;
  switches = s.context_switch_count;
}

-- `none` is NULL.
pub get_task : Sched → ℕ → Option Task
get_task s i = if leb s.task_count i then none else some (s.tasks i)
