-- ===== src/Kernel/Scheduler/Fairness.antt =====
-- Round robin: how long a task stays current, and which one follows; and what nested calls do
-- while an entry function runs.
use native.Mathlib.Decide.{ℕ_discrete}
use cleon_os_jgz_yes_fork.Base.{
  ◌==◌, length, ℕ, ◌+◌, ◌%◌, ◌≤◌, ◌<◌, ◌≡◌, refl, sym, ap, ap₂, subst, ◌∙◌, inl, inr, Bool, true,
  false, Option, none, some, List, [], ◌∷◌, arith,
}
use cleon_os_jgz_yes_fork.Kernel.Scheduler.{
  Sched, max_tasks, on_timer_tick, dispatch_current, next_ready_task, is_runnable,
}
use cleon_os_jgz_yes_fork.Kernel.Scheduler.Order.{Found, can_run, next_ready_task-Found}
use cleon_os_jgz_yes_fork.Kernel.Scheduler.Invariant.{
  IsValid, on_timer_tick-IsValid, charged, started,
}

-- The timer interrupts at the given times.
pub run_ticks : Sched → List ℕ → Sched
run_ticks s [] = s
run_ticks s (t ∷ ts) = run_ticks (on_timer_tick s t) ts

-- Every task can run, and no entry function is running.
pub record AllRun (s : Sched) : Type 0 where
  pub idle : s.dispatch_active ≡ false
  pub runs : (i : ℕ) → i < s.task_count → can_run s i ≡ true

abbrev pub left : Sched → ℕ
left s = (s.tasks s.current_task).remaining_ticks

abbrev pub slice : Sched → ℕ
slice s = (s.tasks s.current_task).time_slice_ticks

next_place :
    (s : Sched)
    → s.task_count ≤ max_tasks
    → s.current_task < s.task_count
    → ((i : ℕ) → i < s.task_count → can_run s i ≡ true)
    → next_ready_task s s.current_task ≡ (s.current_task + 1) % s.task_count
next_place s b h runs = first (next_ready_task-Found s s.current_task b h)
  where
    can : can_run s ((s.current_task + 1) % s.task_count) ≡ true
    can = runs ((s.current_task + 1) % s.task_count) (omega arith)

    first :
        {r : ℕ} → Found s s.current_task 1 s.task_count r → r ≡ (s.current_task + 1) % s.task_count
    first (inl (k, lo, hi, e, run, least)) = elim (ℕ_discrete k 1) [
      | yes one ↦ rw one at e
      | no more ↦ absurd (cc (can, least 1 (omega arith) (omega arith)))
    ]
    first (inr (e, none_runs)) = absurd (cc (can, none_runs 1 (omega arith) (omega arith)))

record Ticked (s s' : Sched) : Type 0 where
  same_count : s'.task_count ≡ s.task_count
  all_run : AllRun s'

tick-AllRun : (s : Sched) (t : ℕ) → IsValid s → AllRun s → Ticked s (on_timer_tick s t)
unfolding on_timer_tick
tick-AllRun s t v a = record {
  same_count = ground arith;
  all_run = record {
    idle = ground (arith, a.idle);
    runs = λ i h. ground (arith, a.idle, a.runs i, a.runs s.current_task);
  };
}

tick_early :
    (s : Sched) (t : ℕ)
    → IsValid s
    → AllRun s
    → 2 ≤ left s
    → ((on_timer_tick s t).current_task ≡ s.current_task) × (left (on_timer_tick s t) + 1 ≡ left s)
unfolding on_timer_tick
tick_early s t v a h = ground (arith, v.current_lt, a.idle, a.runs s.current_task)

tick_last :
    (s : Sched) (t : ℕ)
    → IsValid s
    → AllRun s
    → left s ≡ 1
    → ((on_timer_tick s t).current_task ≡ (s.current_task + 1) % s.task_count)
      × (left (on_timer_tick s t) ≡ slice (on_timer_tick s t))
unfolding on_timer_tick
tick_last s t v a h = ground (
  arith,
  v.current_lt,
  a.idle,
  a.runs s.current_task,
  next_place (charged s t) v.count_le v.current_lt λ i k. ground (arith, a.runs i),
)

-- While fewer ticks have passed than the current task has left, it stays the current one, and
-- each tick takes one from what it has left. (No task is blocked, no entry function is running.)
pub run_ticks_keep :
    (ts : List ℕ) (s : Sched)
    → IsValid s
    → AllRun s
    → length ts < left s
    → ((run_ticks s ts).current_task ≡ s.current_task)
      × (left (run_ticks s ts) + length ts ≡ left s)
unfolding run_ticks
run_ticks_keep [] s v a h = omega arith
run_ticks_keep (t ∷ ts) s v a h =
    let (same, less) = tick_early s t v a (omega arith) in
    let rest =
      run_ticks_keep ts (on_timer_tick s t) (on_timer_tick-IsValid s t v)
        (tick-AllRun s t v a).all_run (omega arith) in
    omega arith

-- After as many ticks as the current task had left, the task of the next number is current, the
-- first one after the last, and it has its whole slice left. (No task is blocked, no entry
-- function is running.)
pub run_ticks_switch :
    (ts : List ℕ) (s : Sched)
    → IsValid s
    → AllRun s
    → length ts ≡ left s
    → let s' = run_ticks s ts in
      (s'.current_task ≡ (s.current_task + 1) % s.task_count) × (left s' ≡ slice s')
unfolding run_ticks
run_ticks_switch [] s v a h =
    absurd (omega (arith, (v.tasks_ok s.current_task v.current_lt).left_pos))
run_ticks_switch (t ∷ []) s v a h = tick_last s t v a (omega arith)
run_ticks_switch (t ∷ u ∷ ts) s v a h =
    let (same, less) = tick_early s t v a (omega arith) in
    let ticked = tick-AllRun s t v a in
    let rest =
      run_ticks_switch (u ∷ ts) (on_timer_tick s t) (on_timer_tick-IsValid s t v) ticked.all_run
        (omega arith) in
    let e : (on_timer_tick s t).task_count ≡ s.task_count = ticked.same_count in
    (rest.0 ∙ rw (same, e), rest.1)

-- What may happen while an entry function runs.
pub data Nested : Type 0 where
  dispatch : ℕ → Nested
  timer : ℕ → Nested

pub nest : (ℕ → ℕ → Sched → Sched) → Sched → List Nested → Sched
nest run s [] = s
nest run s (dispatch t ∷ ns) = nest run (dispatch_current run s t) ns
nest run s (timer t ∷ ns) = nest run (on_timer_tick s t) ns

dispatch_current-active :
    (run : ℕ → ℕ → Sched → Sched) (s : Sched) (t : ℕ)
    → s.dispatch_active ≡ true
    → dispatch_current run s t ≡ s
unfolding dispatch_current
dispatch_current-active run s t a = ground arith

on_timer_tick-active :
    (s : Sched) (t : ℕ)
    → s.dispatch_active ≡ true
    → (on_timer_tick s t ≡ record s { total_timer_ticks = (on_timer_tick s t).total_timer_ticks })
      × ((on_timer_tick s t).dispatch_active ≡ true)
unfolding on_timer_tick
on_timer_tick-active s t a = ground arith

nest-keeps_tasks :
    (run : ℕ → ℕ → Sched → Sched) (ns : List Nested) (s : Sched)
    → s.dispatch_active ≡ true
    → nest run s ns ≡ record s { total_timer_ticks = (nest run s ns).total_timer_ticks }
unfolding nest
nest-keeps_tasks run [] s a = refl
nest-keeps_tasks run (dispatch t ∷ ns) s a =
    subst (λ r. nest run r ns ≡ record s { total_timer_ticks = (nest run r ns).total_timer_ticks })
      (sym (dispatch_current-active run s t a)) (nest-keeps_tasks run ns s a)
nest-keeps_tasks run (timer t ∷ ns) s a =
    let (ticked, active) = on_timer_tick-active s t a in
    let end = nest run (on_timer_tick s t) ns in
    nest-keeps_tasks run ns (on_timer_tick s t) active
    ∙ ap (λ (r : Sched). record r { total_timer_ticks = end.total_timer_ticks }) ticked

-- What a dispatch makes of the outcome `after` of the entry function.
dispatched : Sched → ℕ → (Sched → Sched) → Bool → Bool → Bool → Option ℕ → Sched
dispatched s t after true active runnable entry = s
dispatched s t after false true runnable entry = s
dispatched s t after false false false entry = s
dispatched s t after false false true none = started s t s.dispatch_active
dispatched s t after false false true (some f) = record (after (started s t true)) {
  dispatch_active = false;
}

dispatch_current-eq-dispatched :
    (s : Sched) (t : ℕ) (after : Sched → Sched)
    → dispatch_current (λ f tick r. after r) s t
      ≡ dispatched s t after
          (s.task_count == 0)
          s.dispatch_active
          (is_runnable (s.tasks s.current_task).state)
          (s.tasks s.current_task).entry
unfolding dispatch_current dispatched
dispatch_current-eq-dispatched s t after = ground arith

dispatched-nest :
    (s : Sched) (t : ℕ) (run : ℕ → ℕ → Sched → Sched) (ns : List Nested) (b active runnable : Bool)
    (entry : Option ℕ)
    → let r = dispatched s t (λ r. nest run r ns) b active runnable entry in
      r ≡ record (dispatched s t (λ r. r) b active runnable entry) {
        total_timer_ticks = r.total_timer_ticks;
      }
unfolding dispatched
dispatched-nest s t run ns true active runnable entry = refl
dispatched-nest s t run ns false true runnable entry = refl
dispatched-nest s t run ns false false false entry = refl
dispatched-nest s t run ns false false true none = refl
dispatched-nest s t run ns false false true (some f) =
    ap (λ (r : Sched). record r { dispatch_active = false })
      (nest-keeps_tasks run ns (started s t true) refl)

-- While the entry function of a dispatched task runs, timer interrupts and further dispatches come in
-- any number and order. When the dispatch is over, the state is that of a dispatch without them, but
-- for the time: no task was charged, switched or entered by them.
pub dispatch_current-nest :
    (run : ℕ → ℕ → Sched → Sched) (ns : List Nested) (s : Sched) (t : ℕ)
    → let r = dispatch_current (λ f tick r. nest run r ns) s t in
      r ≡ record (dispatch_current (λ f tick r. r) s t) { total_timer_ticks = r.total_timer_ticks }
dispatch_current-nest run ns s t =
    let with_nested = dispatch_current-eq-dispatched s t (λ r. nest run r ns) in
    let alone = dispatch_current-eq-dispatched s t (λ r. r) in
    with_nested
    ∙ dispatched-nest s t run ns (s.task_count == 0) s.dispatch_active
        (is_runnable (s.tasks s.current_task).state) (s.tasks s.current_task).entry
    ∙ ap₂ (λ (a b : Sched). record a { total_timer_ticks = b.total_timer_ticks }) (sym alone)
        (sym with_nested)
