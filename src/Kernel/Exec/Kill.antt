-- ===== src/Kernel/Exec/Kill.antt =====
-- What a signal does to the process table.
use native.Mathlib.Decide.{ℕ_discrete}
use cleon_os_jgz_yes_fork.Base.{
  ◌==◌, if_cases, option_cases, u64_mod, store_self, ℕ, zero, suc, ◌+◌, ◌/◌, ◌%◌, ◌^◌, ◌≤◌, ◌<◌,
  ◌≡◌, refl, sym, ap, subst, ◌∙◌, ◌≢◌, true, false, not, ◌&&◌, ◌||◌, some, arith,
}
use cleon_os_jgz_yes_fork.Kernel.Exec.{
  Exec, Proc, ProcState, World, Devices, unused, running, exited, stopped, pending, is_pending,
  is_running, is_exited, is_stopped, set_proc, find_pid_from, find_slot_by_pid, current_pid,
  max_procs,
}
use cleon_os_jgz_yes_fork.Kernel.Exec.Procs.{
  signal_cont, signal_stop, pause_runtime, mark_exited, effective_signal, encode_signal_status,
  kill_recorded, kill,
}
use cleon_os_jgz_yes_fork.Kernel.Exec.Run.{Machine, wait_pid}

-- The steps that a signal may make.
infix 40 ◌⟶◌
pub data ◌⟶◌ : ProcState → ProcState → Type 0 where
  stay : {s : ProcState} → s ⟶ s
  stop : pending ⟶ stopped
  continue : stopped ⟶ pending
  end_pending : pending ⟶ exited
  end_stopped : stopped ⟶ exited

ruleset edges = (stay, stop, continue, end_pending, end_stopped)

-- What a signal leaves alone, and the step it makes.
pub record Signaled (p p' : Proc) : Type 0 where
  pub step : p.state ⟶ p'.state
  pub same_pid : p'.pid ≡ p.pid
  pub same_used : p'.used ≡ p.used
  pub sealed : p.state ≡ exited → p' ≡ p

Signaled-refl : (p : Proc) → Signaled p p
Signaled-refl p = record { step = stay; same_pid = refl; same_used = refl; sealed = λ e. refl }

-- One slot takes a step, and the others are as they were.
record Touched (slot : ℕ) (x x' : Exec) : Type 0 where
  others : (j : ℕ) → j ≢ slot → x'.procs j ≡ x.procs j
  edge : (x.procs slot).state ⟶ (x'.procs slot).state
  pid_same : (x'.procs slot).pid ≡ (x.procs slot).pid
  used_same : (x'.procs slot).used ≡ (x.procs slot).used

Touched-same : (slot : ℕ) (x x' : Exec) → x'.procs ≡ x.procs → Touched slot x x'
Touched-same slot x x' e = record {
  others = λ j ne. ap (λ (f : ℕ → Proc). f j) e;
  edge = subst (λ (f : ℕ → Proc). (x.procs slot).state ⟶ (f slot).state) (sym e) stay;
  pid_same = ap (λ (f : ℕ → Proc). (f slot).pid) e;
  used_same = ap (λ (f : ℕ → Proc). (f slot).used) e;
}

Touched-set :
    (slot : ℕ) (x : Exec) (p : Proc)
    → (x.procs slot).state ⟶ p.state
    → p.pid ≡ (x.procs slot).pid
    → p.used ≡ (x.procs slot).used
    → Touched slot x (set_proc x slot p)
Touched-set slot x p e same used = record {
  others = λ j ne. ground arith;
  edge = subst (λ (q : Proc). (x.procs slot).state ⟶ q.state) (sym (store_self x.procs slot p)) e;
  pid_same = ap (λ (q : Proc). q.pid) (store_self x.procs slot p) ∙ same;
  used_same = ap (λ (q : Proc). q.used) (store_self x.procs slot p) ∙ used;
}

stopped_of : (s : ProcState) → is_stopped s ≡ true → s ≡ stopped
stopped_of s h = ground arith

pending_of : (s : ProcState) → is_pending s ≡ true → s ≡ pending
pending_of s h = ground arith

ends : (s : ProcState) → (is_pending s || is_stopped s) ≡ true → s ⟶ exited
ends pending h = end_pending
ends stopped h = end_stopped
ends unused h = absurd (cc h)
ends running h = absurd (cc h)
ends exited h = absurd (cc h)

kill_recorded-Touched :
    (x : Exec) (slot pid sig now : ℕ) → Touched slot x (kill_recorded x slot pid sig now).1
unfolding kill_recorded mark_exited pause_runtime
kill_recorded-Touched x slot pid sig now =
    if_cases P (sig == signal_cont)
      (λ _.
        if_cases (λ (y : Exec). Touched slot x y) (is_stopped s)
          (λ h.
            Touched-set slot x (record (x.procs slot) { state = pending })
              (subst (λ t. t ⟶ pending) (sym (stopped_of s h)) continue) refl refl)
          λ _. Touched-same slot x x refl)
      λ _.
        if_cases P ((sig == signal_stop) && is_pending s)
          (λ h.
            Touched-set slot x (record (x.procs slot) { state = stopped })
              (subst (λ t. t ⟶ stopped) (sym (pending_of s (ground arith))) stop) refl refl)
          λ _.
            if_cases P ((sig == signal_stop) && is_stopped s) (λ _. Touched-same slot x x refl)
              λ _.
                if_cases P (is_pending s || is_stopped s)
                  (λ h.
                    Touched-set slot x
                      (mark_exited (x.procs slot) now (encode_signal_status sig 0 0)) (ends s h)
                      refl refl)
                  λ _.
                    if_cases P (is_running s)
                      (λ _.
                        if_cases P ((x.depth == 0) || not (current_pid x == pid))
                          (λ _. Touched-same slot x x refl) λ _. Touched-same slot x _ refl)
                      λ _. Touched-same slot x x refl
  where
    P : ℕ × Exec → Type 0
    P r = Touched slot x r.1

    s : ProcState
    s = (x.procs slot).state

-- A signal to any pid moves every process along an edge of the diagram, stay, pending to stopped,
-- stopped to pending, or pending or stopped to exited, and no other; it changes no pid and no used
-- flag, and a process that has exited keeps its whole record, its exit status included.
pub kill-Signaled :
    (x : Exec) (pid signal now : ℕ) (j : ℕ)
    → Signaled (x.procs j) ((kill x pid signal now).1.procs j)
unfolding kill
kill-Signaled x pid signal now j =
    option_cases P (find_slot_by_pid x pid) _ _ (λ _. Signaled-refl (x.procs j))
      λ slot _.
        if_cases P (pid == 0) (λ _. Signaled-refl (x.procs j))
          λ _.
            if_cases P (is_exited (x.procs slot).state) (λ _. Signaled-refl (x.procs j))
              λ alive.
                at_slot slot alive
                  (kill_recorded-Touched (noted slot) slot pid (effective_signal signal) now)
  where
    P : ℕ × Exec → Type 0
    P r = Signaled (x.procs j) (r.1.procs j)

    note : Proc → Proc
    note p = record p {
      last_signal = effective_signal signal;
      last_fault_vector = 0;
      last_fault_error = 0;
      last_fault_rip = 0;
    }

    noted : ℕ → Exec
    noted slot = set_proc x slot (note (x.procs slot))

    at_slot :
        (slot : ℕ)
        → is_exited (x.procs slot).state ≡ false
        → {y : Exec} → Touched slot (noted slot) y
        → Signaled (x.procs j) (y.procs j)
    at_slot slot alive {y} t = elim (ℕ_discrete j slot) [
      | yes q ↦
          let here = store_self x.procs slot (note (x.procs slot)) in
          subst (λ i. Signaled (x.procs i) (y.procs i)) (sym q)
            (record {
              step = subst (λ (p : Proc). p.state ⟶ (y.procs slot).state) here t.edge;
              same_pid = t.pid_same ∙ ap (λ (p : Proc). p.pid) here;
              same_used = t.used_same ∙ ap (λ (p : Proc). p.used) here;
              sealed = λ e. absurd (ground arith);
            })
      | no ne ↦
          let same : y.procs j ≡ x.procs j = t.others j ne ∙ ground arith in
          subst (λ p. Signaled (x.procs j) p) (sym same) (Signaled-refl (x.procs j))
    ]

find_pid_from-same :
    (procs procs' : ℕ → Proc) (pid i rounds : ℕ)
    → ((j : ℕ) → Signaled (procs j) (procs' j))
    → find_pid_from procs' pid i rounds ≡ find_pid_from procs pid i rounds
unfolding find_pid_from
find_pid_from-same procs procs' pid i zero h = refl
find_pid_from-same procs procs' pid i (suc rounds) h =
    ground
      (arith, (h i).same_pid, (h i).same_used, find_pid_from-same procs procs' pid (i + 1) rounds h)

kill-pending :
    (x : Exec) (pid signal now slot : ℕ)
    → find_slot_by_pid x pid ≡ some slot
    → pid ≢ 0
    → (x.procs slot).state ≡ pending
    → effective_signal signal ≢ signal_cont
    → effective_signal signal ≢ signal_stop
    → (((kill x pid signal now).1.procs slot).state ≡ exited)
      × (((kill x pid signal now).1.procs slot).exit_status
          ≡ encode_signal_status (effective_signal signal) 0 0)
unfolding kill kill_recorded mark_exited pause_runtime
kill-pending x pid signal now slot e n s c t = (ground arith, ground arith)

-- A process is pending and gets a signal other than CONT and STOP. Then a wait for its pid that comes
-- directly after the signal returns 1 with the status that encodes the signal, and changes nothing:
-- it does not run the process, whatever machine would.
pub wait_pid-kill :
    {T : Type 0} (d : Devices T) (m : Machine T) (w : World T) (pid signal now slot : ℕ)
    → find_slot_by_pid w.exec pid ≡ some slot
    → pid ≢ 0
    → (w.exec.procs slot).state ≡ pending
    → effective_signal signal ≢ signal_cont
    → effective_signal signal ≢ signal_stop
    → let w' = record w { exec = (kill w.exec pid signal now).1 } in
      wait_pid d m pid w' ≡ ((1, some (encode_signal_status (effective_signal signal) 0 0)), w')
unfolding wait_pid find_slot_by_pid
wait_pid-kill d m w pid signal now slot e n s c t =
    let k = kill-pending w.exec pid signal now slot e n s c t in
    let found =
      find_pid_from-same w.exec.procs (kill w.exec pid signal now).1.procs pid 0 max_procs
        (kill-Signaled w.exec pid signal now)
      ∙ e in
    ground (arith, k, found)

-- A status that a signal made is told from an ordinary one by its top bit, and gives back the low
-- bits of the signal, the vector and the error code.
pub encode_signal_status-parts :
    (signal vector error_code : ℕ)
    → let status = encode_signal_status signal vector error_code in
      (2 ^ 63 ≤ status)
      × (status < u64_mod)
      × (status % 256 ≡ signal % 256)
      × (status / 256 % 256 ≡ vector % 256)
      × (status / 65536 % 65536 ≡ error_code % 65536)
unfolding encode_signal_status
encode_signal_status-parts signal vector error_code =
    (omega arith, omega arith, omega arith, omega arith, omega arith)
