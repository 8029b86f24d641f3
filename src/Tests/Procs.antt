-- ===== src/Tests/Procs.antt =====
-- The theorems on the process table at concrete tables.
use tugas_sistem_operasi.Base.{◌≡◌, refl, some, true, [], ◌∷◌, ◌++◌, arith, inl, get_elem?, modify}
use tugas_sistem_operasi.Proc.State.{runnable, null, proc, Proc, proc_at, zero_proc}
use tugas_sistem_operasi.Proc.Alloc.{allocproc}
use tugas_sistem_operasi.Proc.Sleep.{kill, sleep_on}
use tugas_sistem_operasi.Proc.Life.{wait}
use tugas_sistem_operasi.Proc.Valid.{IsValid}
use tugas_sistem_operasi.Proc.Search.{FirstUnused, Allocated, allocproc-Allocated}
use tugas_sistem_operasi.Proc.Kill.{
  marked, kill_lem, kill_unused, wakes, kills, run_events, sleep_no_lost_wakeup,
}
use tugas_sistem_operasi.Proc.Run.{Reach, here, step, first, forks, Reach-IsValid}
use tugas_sistem_operasi.Proc.Exit.{Fate, exit_children, exit_wakes, parent_chan}
use tugas_sistem_operasi.Proc.Reap.{Waits, wait-Waits}
use tugas_sistem_operasi.Tests.Machine.{
  toy, booted, with_init, with_child, with_grandchild, init_waits, child_exits, orphaned, exit_runs,
}

child_reached : Reach toy booted with_child
unfolding with_child
child_reached =
    step (step here (first booted with_init (unfold with_child in omega arith) refl))
      (forks 0 with_init (unfold with_child in omega arith))

Reach-IsValid_example : IsValid with_child
Reach-IsValid_example = Reach-IsValid toy 100 5 child_reached

allocproc-Allocated_example :
    Allocated toy booted (allocproc toy booted).1 0 × ((p : Proc) × FirstUnused booted.procs 0 p)
allocproc-Allocated_example = allocproc-Allocated toy booted 0 (unfold allocproc in refl)

-- The entries of the child and of the grandchild.
unfoldable child : Proc
unfolding with_child
child = proc_at with_child.procs 1

child-IsValid : IsValid with_child
child-IsValid = Reach-IsValid toy 100 5 child_reached

kill_lem_example :
    kill child.pid with_child
    ≡ (true, record with_child { procs = modify with_child.procs 1 marked })
kill_lem_example =
    kill_lem with_child 1 child child-IsValid (unfold child in refl) (λ e. unfold child in cc)

kill_unused_example : (kill 0 booted).0 ≡ true
kill_unused_example = kill_unused booted 5 zero_proc refl refl

sleep_no_lost_wakeup_example :
    (p : Proc) × (get_elem?
        (run_events
          ((kills 7 ∷ wakes null ∷ []) ++ wakes (proc 0) ∷ (kills 1 ∷ []))
          (sleep_on (proc 0) 0 booted)).procs
        0
      ≡ some p)
    × (p.state ≡ runnable)
sleep_no_lost_wakeup_example =
    sleep_no_lost_wakeup booted 0 (proc 0) (kills 7 ∷ wakes null ∷ []) (kills 1 ∷ []) (omega arith)

grandchild : Proc
unfolding with_grandchild
grandchild = proc_at with_grandchild.procs 2

exit_children_example :
    (q : Proc) × (get_elem? orphaned.procs 2 ≡ some q)
    × Fate toy 1 with_grandchild.initproc (parent_chan toy 1 with_grandchild) grandchild q
exit_children_example =
    exit_children toy 1 2 with_grandchild orphaned grandchild (unfold with_grandchild in refl)
      (unfold orphaned in exit_runs 1 with_grandchild (unfold with_grandchild in refl))
      (λ e. omega arith) (unfold grandchild in refl)

waiting : Proc
unfolding init_waits
waiting = proc_at init_waits.procs 0

exit_wakes_example : (q : Proc) × (get_elem? child_exits.procs 0 ≡ some q) × (q.state ≡ runnable)
exit_wakes_example =
    exit_wakes toy 1 0 0 init_waits child_exits waiting (unfold init_waits in refl)
      (unfold child_exits in exit_runs 1 init_waits (unfold init_waits in refl))
      (unfold init_waits in refl) (λ e. omega arith) (unfold waiting in refl)
      (unfold waiting in refl) (inl (unfold waiting in refl))

wait-Waits_example : Waits toy 0 child_exits (wait toy 0 child_exits)
wait-Waits_example = wait-Waits toy 0 child_exits
