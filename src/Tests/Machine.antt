-- ===== src/Tests/Machine.antt =====
-- A small kernel below proc.c, and the process tables of its first steps.
use tugas_sistem_operasi.Base.{
  ℕ, ◌+◌, ◌-◌, ◌*◌, ◌≡◌, refl, Option, none, some, false, if◌then◌else◌, ◌==◌,
}
use tugas_sistem_operasi.Proc.State.{proc, points_to, Ptable, Kernel, zero_frame}
use tugas_sistem_operasi.Proc.Sleep.{sleep_on}
use tugas_sistem_operasi.Proc.Life.{userinit, fork, exit, wait}
use tugas_sistem_operasi.Proc.Run.{boot}

-- The world counts the pages that are left; a page's address is made from the count.
abbrev pub toy : Kernel
toy = record {
  World = ℕ;
  forkret = 4096;
  stale_frame = λ page w. zero_frame;
  kalloc = λ w. if w == 0 then (0, 0) else (w * 4096, w - 1);
  kfree = λ page w. w + 1;
  setupkvm = λ w. (7, w);
  inituvm = λ dir w. w;
  copyuvm = λ dir sz w. (8, w);
  freevm = λ dir w. w;
  allocuvm = λ dir old new w. (new, w);
  deallocuvm = λ dir old new w. (new, w);
  filedup = λ f w. w;
  fileclose = λ f w. w;
  idup = λ i w. w;
  begin_op = λ w. w;
  iput = λ i w. w;
  end_op = λ w. w;
  root = λ w. (3, w);
}

-- At boot with five pages, and with none.
abbrev pub booted : Ptable ℕ
booted = boot 100 5

abbrev pub empty_handed : Ptable ℕ
empty_handed = boot 100 0

abbrev pub or_same : Option (Ptable ℕ) → Ptable ℕ → Ptable ℕ
or_same none k = k
or_same (some m) k = m

-- The first process.
unfoldable pub with_init : Ptable ℕ
unfolding userinit
with_init = or_same (userinit toy booted) booted

-- Its child, in entry 1, and the child's child, in entry 2.
unfoldable pub with_child : Ptable ℕ
unfolding with_init fork
with_child = (fork toy 0 with_init).1

unfoldable pub with_grandchild : Ptable ℕ
unfolding with_child
with_grandchild = (fork toy 1 with_child).1

-- init asleep in wait, and the table after its child's exit.
unfoldable pub init_waits : Ptable ℕ
unfolding with_child wait
init_waits = sleep_on (proc 0) 0 with_child

unfoldable pub child_exits : Ptable ℕ
child_exits = or_same (exit toy 1 init_waits) init_waits

-- The child's exit while it has a child of its own.
unfoldable pub orphaned : Ptable ℕ
orphaned = or_same (exit toy 1 with_grandchild) with_grandchild

-- exit of a process other than init does not panic.
pub exit_runs :
    (cur : ℕ) (k : Ptable ℕ)
    → points_to k.initproc cur ≡ false
    → exit toy cur k ≡ some (or_same (exit toy cur k) k)
unfolding exit
exit_runs cur k h = rw (h, exit) refl
