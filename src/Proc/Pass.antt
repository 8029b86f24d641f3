-- ===== src/Proc/Pass.antt =====
-- A pass of the scheduler over the table, and the guards of sched (Source Code/proc.c).
use tugas_sistem_operasi.Base.{
  ℕ, zero, suc, ◌+◌, ◌≤◌, ◌<◌, ◌≡◌, refl, inl, inr, ap, none, some, Bool, true, false, arith, ◌==◌,
  get_elem?, modify, Bool-cases, ◌↔◌, length, get_elem?-some, get_elem?-modify_self,
}
use tugas_sistem_operasi.Proc.State.{
  ProcState, runnable, running, is_running, is_runnable, Proc, Ptable, proc_at, nproc,
}
use tugas_sistem_operasi.Proc.Sched.{sched, Machine, dispatch, sched_loop, scheduler}

module _ {W : Type 0} (run : Machine W → Ptable W) where
  -- Nothing in [i, i + n) is runnable.
  abbrev Quiet : ℕ → ℕ → Ptable W → Type 0
  Quiet n i k = (j : ℕ) → i ≤ j → j < i + n → is_runnable (proc_at k.procs j).state ≡ false

  busy_stays : (n i : ℕ) (k : Ptable W) → (sched_loop run n i false k).0 ≡ false
  unfolding sched_loop
  busy_stays zero i k = refl
  busy_stays (suc n) i k = elim (Bool-cases (is_runnable (proc_at k.procs i).state)) [
    | inl ready ↦ rw (ready, sched_loop) (busy_stays n (suc i) (dispatch run i k))
    | inr idle ↦ rw (idle, sched_loop) (busy_stays n (suc i) k)
  ]

  Quiet-idle : (n i : ℕ) (k : Ptable W) → Quiet n i k → sched_loop run n i true k ≡ (true, k)
  unfolding sched_loop
  Quiet-idle zero i k q = refl
  Quiet-idle (suc n) i k q =
      rw (q i (omega arith) (omega arith))
        (Quiet-idle n (suc i) k (λ j le lt. q j (omega arith) (omega arith)))

  idle-Quiet : (n i : ℕ) (k : Ptable W) → (sched_loop run n i true k).0 ≡ true → Quiet n i k
  unfolding sched_loop
  idle-Quiet zero i k e j le lt = absurd (omega arith)
  idle-Quiet (suc n) i k e j le lt = elim (Bool-cases (is_runnable (proc_at k.procs i).state)) [
    | inl ready ↦ absurd (ground (arith, busy_stays n (suc i) (dispatch run i k)))
    | inr idle ↦ elim (Bool-cases (i == j)) [
      | inl same ↦ let s : i ≡ j = ground arith in rw (← s) idle
      | inr other ↦ idle-Quiet n (suc i) k (ground arith) j (ground arith) (omega arith)
    ]
  ]

  -- The processor halts after a pass exactly when no entry of the table was runnable, and then the
  -- pass has changed nothing; after every pass it has no current process.
  pub scheduler_idle_iff :
      (k : Ptable W)
      → (((scheduler run k).0 ≡ true)
          ↔ ((j : ℕ) → j < nproc → is_runnable (proc_at k.procs j).state ≡ false))
        × ((scheduler run k).0 ≡ true → (scheduler run k).1.table ≡ k)
        × ((scheduler run k).1.current ≡ none)
  unfolding scheduler
  scheduler_idle_iff k = (
    (
      λ e j lt. idle-Quiet nproc 0 k e j (omega arith) (omega arith),
      λ q. ap (λ (r : Bool × Ptable W). r.0) (Quiet-idle nproc 0 k (λ j le lt. q j (omega arith))),
    ),
    λ e. ap (λ (r : Bool × Ptable W). r.1) (Quiet-idle nproc 0 k (idle-Quiet nproc 0 k e)),
    refl,
  )

  -- What holds of the machine whenever the scheduler switches to a process.
  abbrev Switched : Machine W → Type 0
  Switched c =
      (i : ℕ) × (p : Proc) × (c.current ≡ some i)
      × (get_elem? c.table.procs i ≡ some p)
      × (p.state ≡ running)

  module _ {ℓ} (P : Ptable W → Type ℓ) (sized : (k : Ptable W) → P k → length k.procs ≡ nproc)
      (marks : (k : Ptable W) (i : ℕ)
        → P k
        → (proc_at k.procs i).state ≡ runnable
        → P (record k { procs = modify k.procs i (λ p. record p { state = running }) }))
      (runs : (c : Machine W) → P c.table → Switched c → P (run c)) where
    dispatch_keeps :
        (k : Ptable W) (i : ℕ)
        → i < nproc
        → P k
        → is_runnable (proc_at k.procs i).state ≡ true
        → P (dispatch run i k)
    unfolding dispatch
    dispatch_keeps k i lt h ready =
        let state : (proc_at k.procs i).state ≡ runnable = ground arith in
        let (p, at) = get_elem?-some k.procs i (omega (arith, sized k h)) in
        runs _ (marks k i h state)
          (i, record p { state = running }, refl, rw (get_elem?-modify_self, at), refl)

    loop_keeps :
        (n i : ℕ) (b : Bool) (k : Ptable W) → i + n ≤ nproc → P k → P (sched_loop run n i b k).1
    unfolding sched_loop
    loop_keeps zero i b k le h = h
    loop_keeps (suc n) i b k le h = elim (Bool-cases (is_runnable (proc_at k.procs i).state)) [
      | inl ready ↦
          rw (ready, sched_loop)
            (loop_keeps n (suc i) false (dispatch run i k) (omega arith)
              (dispatch_keeps k i (omega arith) h ready))
      | inr idle ↦ rw (idle, sched_loop) (loop_keeps n (suc i) b k (omega arith) h)
    ]

    -- The scheduler switches only to a process that it has found runnable and marked running, as
    -- the processor's current one: a property that this marking keeps, and that every process so
    -- switched to keeps, holds after the pass.
    pub scheduler_keeps : (k : Ptable W) → P k → P (scheduler run k).1.table
    unfolding scheduler
    scheduler_keeps k h = loop_keeps nproc 0 true k (omega arith) h

-- sched goes on to the switch exactly when its caller holds ptable.lock and no other lock, with
-- interrupts off and its state changed from running.
pub sched_passes_iff :
    (holding : Bool) (ncli : ℕ) (state : ProcState) (intr : Bool)
    → (sched holding ncli state intr ≡ none)
      ↔ ((holding ≡ true) × (ncli ≡ 1) × (is_running state ≡ false) × (intr ≡ false))
unfolding sched
sched_passes_iff holding ncli state intr = ground arith
