-- ===== src/Proc/Alloc.antt =====
-- allocproc (Source Code/proc.c).
use tugas_sistem_operasi.Base.{
  ℕ, suc, ◌+◌, ◌%◌, ◌^◌, Option, none, some, List, [], ◌∷◌, if◌then◌else◌, ◌==◌, modify,
}
use tugas_sistem_operasi.Proc.State.{unused, embryo, is_unused, Proc, Ptable, Kernel, zero_context}

-- The loop that looks for an UNUSED entry.
unfoldable pub find_unused : List Proc → Option ℕ
find_unused [] = none
find_unused (p ∷ ps) =
    let rest = find_unused ps in
    if is_unused p.state then some 0 else elim rest [ none ↦ none | some i ↦ some (suc i) ]

module _ (K : Kernel) where
  open K use {World, kalloc, forkret, stale_frame}

  -- p->state = EMBRYO; p->pid = nextpid++; under the lock.
  unfoldable pub claim : ℕ → Ptable World → Ptable World
  claim i k = record k {
    procs = modify k.procs i (λ p. record p { state = embryo; pid = k.next_pid });
    next_pid = (k.next_pid + 1) % 2 ^ 32;
  }

  -- With no page for the kernel stack, p->kstack is 0 and p->state = UNUSED again.
  abbrev pub unstacked : ℕ → World → Ptable World → Ptable World
  unstacked i w k = record k {
    procs = modify k.procs i (λ p. record p { kstack = 0; state = unused });
    world = w;
  }

  -- The kernel stack, the context at its bottom and the start time.
  abbrev pub stacked : ℕ → ℕ → World → Ptable World → Ptable World
  stacked i page w k = record k {
    procs = modify k.procs i (λ p. record p {
      kstack = page;
      tf = stale_frame page w;
      context = record zero_context { eip = forkret };
      start_ticks = k.ticks;
    });
    world = w;
  }

  unfoldable pub give_stack : ℕ → Ptable World → Option ℕ × Ptable World
  give_stack i k =
      let (page, w) = kalloc k.world in
      if page == 0 then (none, unstacked i w k) else (some i, stacked i page w k)

  unfoldable pub allocproc : Ptable World → Option ℕ × Ptable World
  unfolding find_unused claim give_stack
  allocproc k = elim (find_unused k.procs) [ none ↦ (none, k) | some i ↦ give_stack i (claim i k) ]
