-- ===== src/Kernel/Scheduler/Tests.antt =====
-- clks/kernel/scheduler.c with the idle task and one more.
use cleon_os_jgz_yes_fork.Base.{ℕ, ◌+◌, ◌≡◌, refl, none, some, [], ◌∷◌, arith}
use cleon_os_jgz_yes_fork.Kernel.Scheduler.{
  Sched, add_kernel_task_ex, init, on_timer_tick, dispatch_current, next_ready_task,
  next_ready_from,
}
use cleon_os_jgz_yes_fork.Kernel.Scheduler.Order.{Found, next_ready_task-Found}
use cleon_os_jgz_yes_fork.Kernel.Scheduler.Invariant.{
  IsValid, init-IsValid, add_kernel_task_ex-IsValid, on_timer_tick-IsValid,
  dispatch_current-IsValid,
}
use cleon_os_jgz_yes_fork.Kernel.Scheduler.Fairness.{
  run_ticks, AllRun, left, slice, run_ticks_keep, run_ticks_switch, dispatch, timer, nest,
  dispatch_current-nest,
}

-- The idle task and a shell with a slice of three ticks.
two_tasks : Sched
two_tasks = (add_kernel_task_ex init (some (b's' ∷ b'h' ∷ [])) 3 (some 7)).1

two_tasks-IsValid : IsValid two_tasks
unfolding two_tasks
two_tasks-IsValid =
    add_kernel_task_ex-IsValid init (some (b's' ∷ b'h' ∷ [])) 3 (some 7) (omega arith) init-IsValid

two_tasks-AllRun : AllRun two_tasks
unfolding two_tasks add_kernel_task_ex init
two_tasks-AllRun = record { idle = refl; runs = λ i h. ground arith }

-- Nothing happens when an entry function runs.
abbrev no_effect : ℕ → ℕ → Sched → Sched
no_effect f t s = s

next_ready_task-Found_example : Found two_tasks 0 1 2 (next_ready_task two_tasks 0)
unfolding two_tasks add_kernel_task_ex init
next_ready_task-Found_example = next_ready_task-Found two_tasks 0 (omega arith) (omega arith)

add_kernel_task_ex-IsValid_example : IsValid (add_kernel_task_ex two_tasks (some []) 0 none).1
add_kernel_task_ex-IsValid_example =
    add_kernel_task_ex-IsValid two_tasks (some []) 0 none (omega arith) two_tasks-IsValid

on_timer_tick-IsValid_example : IsValid (on_timer_tick two_tasks 1)
on_timer_tick-IsValid_example = on_timer_tick-IsValid two_tasks 1 two_tasks-IsValid

-- The shell is the current task, and has an entry function.
abbrev shell_current : Sched
shell_current = on_timer_tick two_tasks 1

shell_current_entry : (shell_current.tasks shell_current.current_task).entry ≡ some 7
unfolding two_tasks add_kernel_task_ex init on_timer_tick next_ready_task next_ready_from
shell_current_entry = refl

-- The entry function is interrupted by a tick, and leaves the guard closed.
abbrev ticking : ℕ → ℕ → Sched → Sched
ticking f t s = on_timer_tick s (t + 1)

dispatch_current-IsValid_example :
    IsValid (dispatch_current ticking shell_current 2)
    × ((dispatch_current ticking shell_current 2).dispatch_active ≡ shell_current.dispatch_active)
dispatch_current-IsValid_example =
    dispatch_current-IsValid ticking shell_current 2 (λ f t r v. on_timer_tick-IsValid r (t + 1) v)
      (on_timer_tick-IsValid two_tasks 1 two_tasks-IsValid)

run_ticks_keep_example :
    ((run_ticks (on_timer_tick two_tasks 1) (2 ∷ 3 ∷ [])).current_task ≡ 1)
    × (left (run_ticks (on_timer_tick two_tasks 1) (2 ∷ 3 ∷ [])) + 2 ≡ 3)
unfolding two_tasks add_kernel_task_ex init on_timer_tick next_ready_task next_ready_from
run_ticks_keep_example =
    run_ticks_keep (2 ∷ 3 ∷ []) (on_timer_tick two_tasks 1)
      (on_timer_tick-IsValid two_tasks 1 two_tasks-IsValid)
      (record { idle = refl; runs = λ i h. ground arith }) (omega arith)

run_ticks_switch_example :
    let s = run_ticks two_tasks (1 ∷ []) in (s.current_task ≡ 1) × (left s ≡ slice s)
unfolding two_tasks add_kernel_task_ex init
run_ticks_switch_example =
    run_ticks_switch (1 ∷ []) two_tasks two_tasks-IsValid two_tasks-AllRun refl

dispatch_current-nest_example :
    let r =
      dispatch_current (λ f tick r. nest no_effect r (timer 5 ∷ dispatch 6 ∷ [])) shell_current 2 in
    r ≡ record (dispatch_current (λ f tick r. r) shell_current 2) {
      total_timer_ticks = r.total_timer_ticks;
    }
dispatch_current-nest_example =
    dispatch_current-nest no_effect (timer 5 ∷ dispatch 6 ∷ []) shell_current 2
