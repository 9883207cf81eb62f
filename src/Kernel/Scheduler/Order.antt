-- ===== src/Kernel/Scheduler/Order.antt =====
-- `clks_sched_next_ready_task`: the first task that can run, going round from the given one.
use native.Mathlib.Decide.{ℕ_discrete}
use cleon_os_jgz_yes_fork.Base.{
  Bool-cases, u32_mod, add32, ℕ, zero, suc, ◌+◌, ◌%◌, ◌≤◌, ◌<◌, ◌≡◌, refl, ◌⊎◌, inl, inr, Bool,
  true, false, arith,
}
use cleon_os_jgz_yes_fork.Kernel.Scheduler.{
  Sched, is_runnable, max_tasks, next_ready_from, next_ready_task,
}

-- The task `k` places after `from`.
abbrev pub place : Sched → ℕ → ℕ → ℕ
place s from k = (from + k) % s.task_count

abbrev pub can_run : Sched → ℕ → Bool
can_run s i = is_runnable (s.tasks i).state

-- What a search from place `i` on with `rounds` rounds left finds.
abbrev pub Found : Sched → ℕ → ℕ → ℕ → ℕ → Type 0
Found s from i rounds r =
    ((k : ℕ) × (i ≤ k)
      × (k < i + rounds)
      × (r ≡ place s from k)
      × (can_run s r ≡ true)
      × ((j : ℕ) → i ≤ j → j < k → can_run s (place s from j) ≡ false))
    ⊎ ((r ≡ from) × ((j : ℕ) → i ≤ j → j < i + rounds → can_run s (place s from j) ≡ false))

next_ready_from-Found :
    (s : Sched) (from i rounds : ℕ)
    → from + i + rounds < u32_mod
    → Found s from i rounds (next_ready_from s from i rounds)
unfolding next_ready_from
next_ready_from-Found s from i zero b = inr (refl, λ j h k. absurd (omega arith))
next_ready_from-Found s from i (suc rounds) b =
    let e : add32 from i ≡ from + i = omega arith in
    rw e (elim (Bool-cases (can_run s (place s from i))) [
      | inl hit ↦
          rw hit (inl (i, omega arith, omega arith, refl, hit, λ j h k. absurd (omega arith)))
      | inr miss ↦ rw miss (skip miss (next_ready_from-Found s from (i + 1) rounds (omega arith)))
    ])
  where
    before :
        can_run s (place s from i) ≡ false
        → (n : ℕ) → ((j : ℕ) → i + 1 ≤ j → j < n → can_run s (place s from j) ≡ false)
        → (j : ℕ) → i ≤ j
        → j < n
        → can_run s (place s from j) ≡ false
    before miss n f j h k = elim (ℕ_discrete j i) [
      | yes e ↦ rw e miss
      | no ne ↦ f j (omega arith) k
    ]

    skip :
        can_run s (place s from i) ≡ false
        → {r : ℕ} → Found s from (i + 1) rounds r
        → Found s from i (suc rounds) r
    skip miss (inl (k, lo, hi, e, run, least)) =
        inl (k, omega arith, omega arith, e, run, before miss k least)
    skip miss (inr (e, none_runs)) =
        inr (e, λ j h k. before miss (i + 1 + rounds) none_runs j h (omega arith))

-- The next task is the nearest one after `from`, going round, that is ready or running; if there
-- is none among all the tasks, `from` itself, it is `from`.
pub next_ready_task-Found :
    (s : Sched) (from : ℕ)
    → s.task_count ≤ max_tasks
    → from < s.task_count
    → Found s from 1 s.task_count (next_ready_task s from)
unfolding next_ready_task
next_ready_task-Found s from b h = next_ready_from-Found s from 1 s.task_count (omega arith)

-- It is a task, whatever the states are.
pub next_ready_task-lt :
    (s : Sched) (from : ℕ)
    → s.task_count ≤ max_tasks
    → from < s.task_count
    → next_ready_task s from < s.task_count
next_ready_task-lt s from b h = in_range (next_ready_task-Found s from b h)
  where
    in_range : {r : ℕ} → Found s from 1 s.task_count r → r < s.task_count
    in_range (inl (k, lo, hi, e, run, least)) = omega arith
    in_range (inr (e, none_runs)) = omega arith
