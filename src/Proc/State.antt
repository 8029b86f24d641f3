-- ===== src/Proc/State.antt =====
-- struct proc, enum procstate, struct trapframe and struct context (Source Code/proc.h, x86.h),
-- and the state that proc.c works on: ptable, nextpid, initproc, ticks. A `struct proc*` is an
-- index into ptable.proc; the addresses of pages, inodes and files are numbers, with 0 for NULL.
-- What kalloc.c, vm.c, file.c, fs.c and log.c do for proc.c is the interface `Kernel`; its `World`
-- is their state.
use tugas_sistem_operasi.Base.{
  ℕ, Option, none, some, Bool, true, false, List, ◌==◌, get_or, replicate,
}

pub data ProcState : Type 0 where
  unused embryo sleeping runnable running zombie : ProcState

abbrev pub is_unused : ProcState → Bool
is_unused unused = true
is_unused _ = false

abbrev pub is_sleeping : ProcState → Bool
is_sleeping sleeping = true
is_sleeping _ = false

abbrev pub is_runnable : ProcState → Bool
is_runnable runnable = true
is_runnable _ = false

abbrev pub is_running : ProcState → Bool
is_running running = true
is_running _ = false

abbrev pub is_zombie : ProcState → Bool
is_zombie zombie = true
is_zombie _ = false

-- What a `void *chan` can be: NULL, the address of a process, or another address.
pub data Chan : Type 0 where
  null : Chan
  proc : ℕ → Chan
  addr : ℕ → Chan

abbrev pub chan_eq : Chan → Chan → Bool
chan_eq null null = true
chan_eq (proc p) (proc q) = p == q
chan_eq (addr p) (addr q) = p == q
chan_eq _ _ = false

-- The address of a process as a channel.
abbrev pub chan_of : Option ℕ → Chan
chan_of none = null
chan_of (some p) = proc p

-- A `struct proc*` compared with the address of process `q`.
abbrev pub points_to : Option ℕ → ℕ → Bool
points_to none q = false
points_to (some p) q = p == q

-- The user registers that proc.c sets; `regs` is the rest of the frame.
pub record TrapFrame : Type 0 where
  pub cs : ℕ
  pub ds : ℕ
  pub es : ℕ
  pub ss : ℕ
  pub eflags : ℕ
  pub esp : ℕ
  pub eip : ℕ
  pub eax : ℕ
  pub regs : List ℕ

pub record Context : Type 0 where
  pub edi : ℕ
  pub esi : ℕ
  pub ebx : ℕ
  pub ebp : ℕ
  pub eip : ℕ

pub record Proc : Type 0 where
  pub start_ticks : ℕ
  pub sz : ℕ
  pub pgdir : ℕ
  pub kstack : ℕ
  pub state : ProcState
  pub pid : ℕ
  pub parent : Option ℕ
  pub tf : TrapFrame
  pub context : Context
  pub chan : Chan
  pub killed : Bool
  pub ofile : List ℕ
  pub cwd : ℕ
  pub name : List ℕ

abbrev pub nproc : ℕ
nproc = 64

abbrev pub nofile : ℕ
nofile = 16

abbrev pub zero_frame : TrapFrame
zero_frame = record {
  cs = 0;
  ds = 0;
  es = 0;
  ss = 0;
  eflags = 0;
  esp = 0;
  eip = 0;
  eax = 0;
  regs = replicate 11 0;
}

abbrev pub zero_context : Context
zero_context = record { edi = 0; esi = 0; ebx = 0; ebp = 0; eip = 0 }

-- An entry of ptable as the kernel starts: zeroed memory.
abbrev pub zero_proc : Proc
zero_proc = record {
  start_ticks = 0;
  sz = 0;
  pgdir = 0;
  kstack = 0;
  state = unused;
  pid = 0;
  parent = none;
  tf = zero_frame;
  context = zero_context;
  chan = null;
  killed = false;
  ofile = replicate nofile 0;
  cwd = 0;
  name = replicate 16 0;
}

pub record Ptable (W : Type 0) : Type 0 where
  pub procs : List Proc
  pub next_pid : ℕ
  pub initproc : Option ℕ
  pub ticks : ℕ
  pub world : W

-- `*p` for a process at index `i` of the table.
abbrev pub proc_at : List Proc → ℕ → Proc
proc_at ps i = get_or ps i zero_proc

-- The calls that proc.c makes of the other parts of the kernel. An address result is 0 for NULL.
pub record Kernel : Type 1 where
  pub World : Type 0
  -- The address of forkret, and what a fresh kernel stack holds in place of the trap frame.
  pub forkret : ℕ
  pub stale_frame : ℕ → World → TrapFrame
  pub kalloc : World → ℕ × World
  pub kfree : ℕ → World → World
  pub setupkvm : World → ℕ × World
  pub inituvm : ℕ → World → World
  pub copyuvm : ℕ → ℕ → World → ℕ × World
  pub freevm : ℕ → World → World
  pub allocuvm : ℕ → ℕ → ℕ → World → ℕ × World
  pub deallocuvm : ℕ → ℕ → ℕ → World → ℕ × World
  pub filedup : ℕ → World → World
  pub fileclose : ℕ → World → World
  pub idup : ℕ → World → World
  pub begin_op : World → World
  pub iput : ℕ → World → World
  pub end_op : World → World
  pub root : World → ℕ × World
