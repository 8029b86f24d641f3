-- ===== src/Proc/Life.antt =====
-- userinit, growproc, fork, exit and wait (Source Code/proc.c).
use tugas_sistem_operasi.Base.{
  ℕ, zero, suc, ◌+◌, ◌-◌, ◌%◌, ◌^◌, Option, none, some, Bool, true, false, ◌&&◌, ◌||◌, not, List,
  [], ◌∷◌, if◌then◌else◌, ◌==◌, modify, set, get_or, get_elem?, ℤ, pos, negsuc,
}
use tugas_sistem_operasi.Proc.State.{
  unused, runnable, zombie, is_zombie, chan_of, points_to, zero_frame, Proc, Ptable, Kernel,
  proc_at, nproc,
}
use tugas_sistem_operasi.Proc.Alloc.{allocproc}
use tugas_sistem_operasi.Proc.Sleep.{wakeup1, sleep_on}

abbrev pub page_size : ℕ
page_size = 4096

-- The literal "initcode" with its NUL.
abbrev pub initcode : List ℕ
initcode = b'i' ∷ b'n' ∷ b'i' ∷ b't' ∷ b'c' ∷ b'o' ∷ b'd' ∷ b'e' ∷ 0 ∷ []

-- safestrcpy(name, t, sizeof(name)): the bytes of `t` up to its NUL, a second NUL behind that, and
-- the last byte always NUL.
unfoldable pub copy_name : List ℕ → List ℕ → List ℕ
copy_name _ [] = []
copy_name _ (y ∷ []) = 0 ∷ []
copy_name [] (y ∷ z ∷ ys) = y ∷ z ∷ ys
copy_name (x ∷ xs) (y ∷ z ∷ ys) =
    let rest = copy_name xs (z ∷ ys) in if x == 0 then 0 ∷ 0 ∷ ys else x ∷ rest

-- name[0] = 0.
abbrev pub blank : List ℕ → List ℕ
blank [] = []
blank (_ ∷ r) = 0 ∷ r

-- The first process, with its page directory and the root directory.
abbrev pub first_user : ℕ → ℕ → Proc → Proc
first_user dir cwd p = record p {
  pgdir = dir;
  sz = page_size;
  tf = record zero_frame {
    cs = 0x1b;
    ds = 0x23;
    es = 0x23;
    ss = 0x23;
    eflags = 0x200;
    esp = page_size;
    eip = 0;
  };
  name = copy_name initcode p.name;
  cwd = cwd;
  state = runnable;
}

-- p->parent = initproc.
abbrev pub reparent : Option ℕ → Proc → Proc
reparent init p = record p { parent = init }

abbrev pub is_child : ℕ → Option Proc → Bool
is_child cur none = false
is_child cur (some p) = points_to p.parent cur

abbrev pub is_zombie_child : ℕ → Option Proc → Bool
is_zombie_child cur none = false
is_zombie_child cur (some p) = points_to p.parent cur && is_zombie p.state

-- One round of exit's loop over the table, at entry `i`.
unfoldable pub pass_child : ℕ → Option ℕ → ℕ → List Proc → List Proc
unfolding wakeup1
pass_child cur init i ps =
    if is_child cur (get_elem? ps i)
    then (let qs = modify ps i (reparent init) in
        if is_zombie_child cur (get_elem? ps i) then wakeup1 (chan_of init) qs else qs)
    else ps

-- The loop, with `n` entries left from `i` on.
unfoldable pub pass_children : ℕ → Option ℕ → ℕ → ℕ → List Proc → List Proc
unfolding pass_child
pass_children cur init zero i ps = ps
pass_children cur init (suc n) i ps = pass_children cur init n (suc i) (pass_child cur init i ps)

-- What the scan of wait finds: the first zombie child, or whether there are children at all.
pub data Scan : Type 0 where
  found : ℕ → Proc → Scan
  missing : Bool → Scan

unfoldable pub wait_scan : ℕ → ℕ → Bool → List Proc → Scan
wait_scan cur i havekids [] = missing havekids
wait_scan cur i havekids (p ∷ ps) =
    let mine = points_to p.parent cur in
    let rest = wait_scan cur (suc i) (mine || havekids) ps in
    if mine && is_zombie p.state then found i p else rest

pub data Waited (W : Type 0) : Type 0 where
  -- The child's pid is returned.
  reaped : ℕ → Ptable W → Waited W
  -- -1 is returned.
  failed : Ptable W → Waited W
  -- The process sleeps on its own address; the scan starts again when it runs.
  asleep : Ptable W → Waited W

-- The reset of a zombie child in wait.
abbrev pub reset : Proc → Proc
reset p = record p {
  kstack = 0;
  pid = 0;
  parent = none;
  name = blank p.name;
  killed = false;
  state = unused;
}

module _ (K : Kernel) where
  open K use {World, kfree, setupkvm, inituvm, copyuvm, freevm, allocuvm, deallocuvm}
  open K use {filedup, fileclose, idup, begin_op, iput, end_op, root}

  -- `none` is a panic, or the fault at a null entry that allocproc returns.
  unfoldable pub userinit : Ptable World → Option (Ptable World)
  unfolding allocproc
  userinit k =
      let (slot, k1) = allocproc K k in
      elim slot [
        | none ↦ none
        | some i ↦
            let (dir, w) = setupkvm k1.world in
            let (cwd, w2) = root (inituvm dir w) in
            if dir == 0
            then none
            else some (record k1 {
              procs = modify k1.procs i (first_user dir cwd);
              initproc = some i;
              world = w2;
            })
      ]

  -- `cur` is the current process. `false` is the result -1.
  unfoldable pub set_size : ℕ → ℕ × World → Ptable World → Bool × Ptable World
  set_size cur (sz, w) k =
      if sz == 0
      then (false, record k { world = w })
      else (true, record k { procs = modify k.procs cur (λ p. record p { sz = sz }); world = w })

  unfoldable pub growproc : ℤ → ℕ → Ptable World → Bool × Ptable World
  unfolding set_size
  growproc (pos zero) cur k = (true, k)
  growproc (pos (suc n)) cur k =
      let c = proc_at k.procs cur in
      set_size cur (allocuvm c.pgdir c.sz ((c.sz + suc n) % 2 ^ 32) k.world) k
  growproc (negsuc n) cur k =
      let c = proc_at k.procs cur in
      set_size cur (deallocuvm c.pgdir c.sz ((c.sz + 2 ^ 32 - suc n) % 2 ^ 32) k.world) k

  -- for(i = 0; i < NOFILE; i++) if(curproc->ofile[i]) np->ofile[i] = filedup(curproc->ofile[i]);
  unfoldable pub dup_files : List ℕ → List ℕ → World → List ℕ × World
  dup_files [] theirs w = (theirs, w)
  dup_files (f ∷ fs) [] w = ([], w)
  dup_files (f ∷ fs) (g ∷ gs) w =
      let (rest, w') = dup_files fs gs (if f == 0 then w else filedup f w) in
      ((if f == 0 then g else f) ∷ rest, w')

  -- fork from copyuvm on, with the entry `n` that allocproc gave.
  unfoldable pub fork_into : ℕ → ℕ → Ptable World → Option ℕ × Ptable World
  unfolding dup_files
  fork_into cur n k =
      let c = proc_at k.procs cur in
      let child = proc_at k.procs n in
      let (dir, w) = copyuvm c.pgdir c.sz k.world in
      if dir == 0
      then (
        none,
        record k {
          procs = modify k.procs n (λ p. record p { pgdir = 0; kstack = 0; state = unused });
          world = kfree child.kstack w;
        },
      )
      else (let (files, w2) = dup_files c.ofile child.ofile w in
          (
            some child.pid,
            record k {
              procs = modify k.procs n (λ p. record p {
                pgdir = dir;
                sz = c.sz;
                parent = some cur;
                tf = record c.tf { eax = 0 };
                ofile = files;
                cwd = c.cwd;
                name = copy_name c.name p.name;
                state = runnable;
              });
              world = idup c.cwd w2;
            },
          ))

  -- `none` is the result -1.
  unfoldable pub fork : ℕ → Ptable World → Option ℕ × Ptable World
  unfolding allocproc fork_into
  fork cur k =
      let (slot, k1) = allocproc K k in
      elim slot [ none ↦ (none, k1) | some n ↦ fork_into cur n k1 ]

  -- What exit does before it takes ptable.lock, a call to a step: fileclose, begin_op, iput and end_op
  -- may sleep and wake others, which are steps of their own before and after. First the round of its
  -- loop for file descriptor `fd`.
  unfoldable pub close_file : ℕ → ℕ → Ptable World → Ptable World
  close_file fd cur k =
      let f = get_or (proc_at k.procs cur).ofile fd 0 in
      if f == 0 then k else record k {
        procs = modify k.procs cur (λ p. record p { ofile = set p.ofile fd 0 });
        world = fileclose f k.world;
      }

  unfoldable pub exit_begin_op : Ptable World → Ptable World
  exit_begin_op k = record k { world = begin_op k.world }

  unfoldable pub exit_iput : ℕ → Ptable World → Ptable World
  exit_iput cur k = record k { world = iput (proc_at k.procs cur).cwd k.world }

  -- end_op(); curproc->cwd = 0.
  unfoldable pub exit_end_op : ℕ → Ptable World → Ptable World
  exit_end_op cur k = record k {
    procs = modify k.procs cur (λ p. record p { cwd = 0 });
    world = end_op k.world;
  }

  -- The table after the loop of exit: the parent woken, the children passed on.
  abbrev pub passed_on : ℕ → Ptable World → List Proc
  passed_on cur k =
      pass_children cur k.initproc nproc 0 (wakeup1 (chan_of (proc_at k.procs cur).parent) k.procs)

  -- exit with ptable.lock held, up to its call of sched, from which it does not return. `none` is the
  -- panic of init, which the code tests for at the start; initproc does not change in between.
  unfoldable pub exit : ℕ → Ptable World → Option (Ptable World)
  unfolding pass_children wakeup1
  exit cur k =
      if points_to k.initproc cur
      then none
      else some (record k {
        procs = modify (passed_on cur k) cur (λ p. record p { state = zombie; sz = 0 });
      })

  -- One turn of wait's outer loop.
  unfoldable pub wait : ℕ → Ptable World → Waited World
  unfolding wait_scan sleep_on
  wait cur k = elim (wait_scan cur 0 false k.procs) [
    | found i p ↦ reaped p.pid (record k {
      procs = modify k.procs i reset;
      world = freevm p.pgdir (kfree p.kstack k.world);
    })
    | missing havekids ↦
        if not havekids || (proc_at k.procs cur).killed
        then failed k
        else asleep (sleep_on (chan_of (some cur)) cur k)
  ]
