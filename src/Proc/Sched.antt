-- ===== src/Proc/Sched.antt =====
-- sched and scheduler (Source Code/proc.c). What a process does between the scheduler's switch to
-- it and its switch back is the parameter `run`.
use tugas_sistem_operasi.Base.{
  ℕ, zero, suc, Option, none, some, Bool, true, false, if◌then◌else◌, ◌==◌, modify, not,
}
use tugas_sistem_operasi.Proc.State.{
  ProcState, running, is_running, is_runnable, Ptable, proc_at, nproc,
}

pub data SchedPanic : Type 0 where
  ptable_lock locks running_still interruptible : SchedPanic

-- The checks of sched, in order; `none` goes on to swtch.
unfoldable pub sched : (holding : Bool) → (ncli : ℕ) → ProcState → (intr : Bool) → Option SchedPanic
sched holding ncli state intr =
    if not holding
    then some ptable_lock
    else if not (ncli == 1)
    then some locks
    else if is_running state
    then some running_still
    else if intr
    then some interruptible
    else none

-- struct cpu's pointer to the process that runs on it, with the rest of the kernel's state.
pub record Machine (W : Type 0) : Type 0 where
  pub current : Option ℕ
  pub table : Ptable W

module _ {W : Type 0} (run : Machine W → Ptable W) where
  -- c->proc = p; p->state = RUNNING; swtch; c->proc = 0.
  unfoldable pub dispatch : ℕ → Ptable W → Ptable W
  dispatch i k = run (record {
    current = some i;
    table = record k { procs = modify k.procs i (λ p. record p { state = running }) };
  })

  -- The loop over the table, with `n` entries left from `i` on. The flag is `idle`.
  unfoldable pub sched_loop : ℕ → ℕ → Bool → Ptable W → Bool × Ptable W
  unfolding dispatch
  sched_loop zero i idle k = (idle, k)
  sched_loop (suc n) i idle k =
      let ready = is_runnable (proc_at k.procs i).state in
      sched_loop n (suc i) (if ready then false else idle) (if ready then dispatch i k else k)

  -- One turn of the scheduler's outer loop: whether the processor halts, and the state after it.
  unfoldable pub scheduler : Ptable W → Bool × Machine W
  unfolding sched_loop
  scheduler k =
      let (idle, k') = sched_loop nproc 0 true k in (idle, record { current = none; table = k' })
