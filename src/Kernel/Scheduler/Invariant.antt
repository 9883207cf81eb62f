-- ===== src/Kernel/Scheduler/Invariant.antt =====
-- The invariant of the scheduler: the current task exists, each slice is positive and not used up
-- between ticks, and no other task is marked as running.
use native.Mathlib.Decide.{ℕ_discrete}
use cleon_os_jgz_yes_fork.Base.{
  ◌==◌, if_cases, option_cases, u32_mod, add64, ℕ, ◌≤◌, ◌<◌, ◌≡◌, refl, sym, subst, ◌≢◌, Bool, true,
  false, Option, none, some, List, arith,
}
use cleon_os_jgz_yes_fork.Kernel.Scheduler.{
  Sched, Task, running, is_runnable, set_task, max_tasks, init, add_kernel_task_ex,
  dispatch_current, charge, expire, switch_to, on_timer_tick, next_ready_task,
}
use cleon_os_jgz_yes_fork.Kernel.Scheduler.Order.{next_ready_task-lt}

pub record TaskOk (i : ℕ) (t : Task) : Type 0 where
  pub own_id : t.id ≡ i
  pub slice_pos : 1 ≤ t.time_slice_ticks
  pub slice_small : t.time_slice_ticks < u32_mod
  pub left_pos : 1 ≤ t.remaining_ticks
  pub left_le : t.remaining_ticks ≤ t.time_slice_ticks

pub record IsValid (s : Sched) : Type 0 where
  pub count_le : s.task_count ≤ max_tasks
  pub current_lt : s.current_task < s.task_count
  pub tasks_ok : (i : ℕ) → i < s.task_count → TaskOk i (s.tasks i)
  pub one_running : (i : ℕ) → i < s.task_count → (s.tasks i).state ≡ running → i ≡ s.current_task

-- The scheduler starts out valid.
pub init-IsValid : IsValid init
unfolding init
init-IsValid = record {
  count_le = omega arith;
  current_lt = omega arith;
  tasks_ok = λ i h. ground arith;
  one_running = λ i h e. ground arith;
}

-- Adding a task keeps the invariant, whatever slice below 2^32 is asked for.
pub add_kernel_task_ex-IsValid :
    (s : Sched) (name : Option (List ℕ)) (slice : ℕ) (entry : Option ℕ)
    → slice < u32_mod
    → IsValid s
    → IsValid (add_kernel_task_ex s name slice entry).1
unfolding add_kernel_task_ex
add_kernel_task_ex-IsValid s none slice entry h v = v
add_kernel_task_ex-IsValid s (some name) slice entry h v = record {
  count_le = ground (arith, v.count_le);
  current_lt = ground (arith, v.current_lt);
  tasks_ok = λ i k. ground (arith, v.tasks_ok i);
  one_running = λ i k e. ground (arith, v.one_running i);
}

-- Between the charge and the renewal of its slice, the current task may have no ticks left.
abbrev pub charged : Sched → ℕ → Sched
charged s tick =
    set_task (record s { total_timer_ticks = tick }) s.current_task
      (charge (s.tasks s.current_task))

-- The invariant, but for the ticks that the current task has left.
record Weak (s : Sched) : Type 0 where
  count_le : s.task_count ≤ max_tasks
  current_lt : s.current_task < s.task_count
  others_ok : (i : ℕ) → i < s.task_count → i ≢ s.current_task → TaskOk i (s.tasks i)
  current_ok : TaskOk s.current_task (record (s.tasks s.current_task) {
    remaining_ticks = (s.tasks s.current_task).time_slice_ticks;
  })
  le_slice : (s.tasks s.current_task).remaining_ticks ≤ (s.tasks s.current_task).time_slice_ticks
  one_running : (i : ℕ) → i < s.task_count → (s.tasks i).state ≡ running → i ≡ s.current_task

charge-slice :
    (t : Task)
    → ((charge t).id ≡ t.id)
      × ((charge t).time_slice_ticks ≡ t.time_slice_ticks)
      × ((charge t).remaining_ticks ≤ t.remaining_ticks)
      × ((charge t).state ≡ t.state)
unfolding charge
charge-slice t = ground arith

charged-Weak : (s : Sched) (tick : ℕ) → IsValid s → Weak (charged s tick)
charged-Weak s tick v =
    let c = charge-slice (s.tasks s.current_task) in
    let t = v.tasks_ok s.current_task v.current_lt in
    record {
      count_le = v.count_le;
      current_lt = v.current_lt;
      others_ok = λ i h ne. ground (arith, v.tasks_ok i);
      current_ok = ground (arith, c, t);
      le_slice = ground (arith, c, t);
      one_running = λ i h e. ground (arith, v.one_running i, c);
    }

abbrev renewed : Sched → Sched
renewed s =
    set_task s s.current_task (record current { remaining_ticks = current.time_slice_ticks })
  where
    current : Task
    current = s.tasks s.current_task

renewed-IsValid : (s : Sched) → Weak s → IsValid (renewed s)
renewed-IsValid s w = record {
  count_le = w.count_le;
  current_lt = w.current_lt;
  tasks_ok = λ i h. ground (arith, w.others_ok i, w.current_ok);
  one_running = λ i h e. ground (arith, w.one_running i);
}

unspent-IsValid : (s : Sched) → Weak s → (s.tasks s.current_task).remaining_ticks ≢ 0 → IsValid s
unspent-IsValid s w ne = record {
  count_le = w.count_le;
  current_lt = w.current_lt;
  tasks_ok = λ i h. elim (ℕ_discrete i s.current_task) [
    | yes e ↦ subst (λ k. TaskOk k (s.tasks k)) (sym e) (ground (arith, w.current_ok, w.le_slice))
    | no other ↦ w.others_ok i h other
  ];
  one_running = w.one_running;
}

switch_to-IsValid :
    (s : Sched) (next : ℕ)
    → IsValid s
    → next < s.task_count
    → next ≢ s.current_task
    → IsValid (switch_to s next)
unfolding switch_to
switch_to-IsValid s next v lt ne = record {
  count_le = v.count_le;
  current_lt = lt;
  tasks_ok = λ i h. ground (arith, v.tasks_ok i, v.tasks_ok s.current_task);
  one_running = λ i h e. ground (arith, v.one_running i);
}

expire-IsValid : (s : Sched) → Weak s → IsValid (expire s)
unfolding expire
expire-IsValid s w =
    if_cases IsValid ((s.tasks s.current_task).remaining_ticks == 0)
      (λ _.
        if_cases IsValid (next == s.current_task) (λ _. again)
          λ ne. switch_to-IsValid (renewed s) next again lt (ground arith))
      λ ne. unspent-IsValid s w (ground arith)
  where
    next : ℕ
    next = next_ready_task s s.current_task

    lt : next < s.task_count
    lt = next_ready_task-lt s s.current_task w.count_le w.current_lt

    again : IsValid (renewed s)
    again = renewed-IsValid s w

-- A timer tick keeps the invariant.
pub on_timer_tick-IsValid : (s : Sched) (tick : ℕ) → IsValid s → IsValid (on_timer_tick s tick)
unfolding on_timer_tick
on_timer_tick-IsValid s tick v =
    if_cases IsValid (s.task_count == 0) (λ _. v)
      λ _.
        if_cases IsValid s.dispatch_active (λ _. timed)
          λ _. expire-IsValid (charged s tick) (charged-Weak s tick v)
  where
    timed : IsValid (record s { total_timer_ticks = tick })
    timed = record {
      count_le = v.count_le;
      current_lt = v.current_lt;
      tasks_ok = v.tasks_ok;
      one_running = v.one_running;
    }

-- The state in which an entry function is entered.
abbrev pub started : Sched → ℕ → Bool → Sched
started s tick active =
    record (set_task s s.current_task (record current {
      state = running;
      run_count = add64 current.run_count 1;
      last_run_tick = tick;
    })) { dispatch_active = active }
  where
    open s use {tasks}

    current : Task
    current = tasks s.current_task

started-IsValid : (s : Sched) (tick : ℕ) (b : Bool) → IsValid s → IsValid (started s tick b)
started-IsValid s tick b v = record {
  count_le = v.count_le;
  current_lt = v.current_lt;
  tasks_ok = λ i h. ground (arith, v.tasks_ok i);
  one_running = λ i h e. ground (arith, v.one_running i);
}

-- Dispatching keeps the invariant, if every entry function does; and it leaves the guard against
-- nested dispatch as it found it, open or closed, whatever the entry function does to the guard.
pub dispatch_current-IsValid :
    (run : ℕ → ℕ → Sched → Sched) (s : Sched) (tick : ℕ)
    → ((f t : ℕ) (r : Sched) → IsValid r → IsValid (run f t r))
    → IsValid s
    → IsValid (dispatch_current run s tick)
      × ((dispatch_current run s tick).dispatch_active ≡ s.dispatch_active)
unfolding dispatch_current
dispatch_current-IsValid run s tick keep v =
    if_cases P (s.task_count == 0) (λ _. same)
      λ _.
        if_cases P s.dispatch_active (λ _. same)
          λ idle.
            if_cases P (is_runnable (s.tasks s.current_task).state)
              (λ _.
                option_cases P (s.tasks s.current_task).entry _ _
                  (λ _. (started-IsValid s tick s.dispatch_active v, refl))
                  λ f _.
                    close idle (keep f tick (started s tick true) (started-IsValid s tick true v)))
              λ _. same
  where
    P : Sched → Type 0
    P r = IsValid r × (r.dispatch_active ≡ s.dispatch_active)

    same : P s
    same = (v, refl)

    close :
        {r : Sched}
        → s.dispatch_active ≡ false
        → IsValid r
        → P (record r { dispatch_active = false })
    close idle w = (
      record {
        count_le = w.count_le;
        current_lt = w.current_lt;
        tasks_ok = w.tasks_ok;
        one_running = w.one_running;
      },
      sym idle,
    )
