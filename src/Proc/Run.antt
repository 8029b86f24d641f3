-- ===== src/Proc/Run.antt =====
-- The kernel's runs as far as the process table goes: any sequence of the operations of proc.c,
-- by any processes in use, from the table at boot.
use tugas_sistem_operasi.Base.{
  get_or, ℕ, zero, suc, ◌+◌, ◌^◌, ◌≡◌, refl, ◌⊎◌, inl, inr, ap, ◌∙◌, none, some, Bool, false, arith,
  ◌<◌, ◌==◌, ℤ, pos, negsuc, get_elem?, modify, replicate, length-modify, Bool-cases,
  length-replicate, Option-cases, get_or_of_elem, replicate-entry, not, ◌||◌, sym, modify-id,
}
use tugas_sistem_operasi.Proc.State.{
  runnable, is_sleeping, running, Chan, Proc, Ptable, Kernel, proc_at, nproc, zero_proc,
}
use tugas_sistem_operasi.Proc.Alloc.{allocproc}
use tugas_sistem_operasi.Proc.Search.{allocproc-Allocated}
use tugas_sistem_operasi.Proc.Sleep.{wakeup, kill, kill_mark, sleep_on, sleep_wake, yield_cpu}
use tugas_sistem_operasi.Proc.Kill.{kill-cases}
use tugas_sistem_operasi.Proc.Life.{
  wait_scan, found, missing, Scan, Waited, reaped, failed, asleep, growproc, set_size, fork, exit,
  close_file, exit_begin_op, exit_iput, exit_end_op, reset, wait, userinit, first_user,
}
use tugas_sistem_operasi.Proc.Wakeup.{length-wakeup1}
use tugas_sistem_operasi.Proc.Valid.{
  Live, IsValid, Kept-modify, Kept-IsValid, Stays-Kept, Stays-modify,
}
use tugas_sistem_operasi.Proc.Pids.{
  Uses, Stays-wakeup1, modify-IsValid, allocproc-IsValid, Allocated-Uses, fork-IsValid,
  exit-IsValid,
}

abbrev pub after_wait : {W : Type 0} → Waited W → Ptable W
after_wait (reaped pid k) = k
after_wait (failed k) = k
after_wait (asleep k) = k

-- The table as the kernel is loaded.
abbrev pub boot : {W : Type 0} → ℕ → W → Ptable W
boot ticks w = record {
  procs = replicate nproc zero_proc;
  next_pid = 1;
  initproc = none;
  ticks = ticks;
  world = w;
}

module _ (K : Kernel) where
  open K use {World}

  pub data Step : Ptable World → Ptable World → Type 0 where
    first : (k m : Ptable World) → k.next_pid + 1 < 2 ^ 32 → userinit K k ≡ some m → Step k m
    forks : (cur : ℕ) (k : Ptable World) → k.next_pid + 1 < 2 ^ 32 → Step k (fork K cur k).1
    -- The calls of exit on the files and the directory of the process.
    closes : (fd cur : ℕ) (k : Ptable World) → Step k (close_file K fd cur k)
    opens_op : (k : Ptable World) → Step k (exit_begin_op K k)
    drops : (cur : ℕ) (k : Ptable World) → Step k (exit_iput K cur k)
    shuts_op : (cur : ℕ) (k : Ptable World) → Step k (exit_end_op K cur k)
    exits : (cur : ℕ) (k m : Ptable World) → Uses k cur → exit K cur k ≡ some m → Step k m
    waits : (cur : ℕ) (k : Ptable World) → Uses k cur → Step k (after_wait (wait K cur k))
    grows : (n : ℤ) (cur : ℕ) (k : Ptable World) → Step k (growproc K n cur k).1
    wakes : (c : Chan) (k : Ptable World) → Step k (wakeup c k)
    kills : (pid : ℕ) (k : Ptable World) → Step k (kill pid k).1
    sleeps : (c : Chan) (cur : ℕ) (k : Ptable World) → Uses k cur → Step k (sleep_on c cur k)
    tidies : (cur : ℕ) (k : Ptable World) → Step k (sleep_wake cur k)
    yields : (cur : ℕ) (k : Ptable World) → Uses k cur → Step k (yield_cpu cur k)
    -- The scheduler's change of a runnable entry.
    runs :
        (i : ℕ) (k : Ptable World)
        → (proc_at k.procs i).state ≡ runnable
        → Step k (record k { procs = modify k.procs i (λ p. record p { state = running }) })
    -- The clock, and the rest of the kernel.
    ticks : (k : Ptable World) (t : ℕ) (w : World) → Step k (record k { ticks = t; world = w })

  pub data Reach (k : Ptable World) : Ptable World → Type 0 where
    here : Reach k k
    step : {m n : Ptable World} → Reach k m → Step m n → Reach k n

  stays_modify-IsValid :
      {k m : Ptable World} (i : ℕ) (f : Proc → Proc)
      → IsValid k
      → ((p : Proc) → ((f p).pid ≡ p.pid) × (Live (f p) → Live p))
      → m.procs ≡ modify k.procs i f
      → m.next_pid ≡ k.next_pid
      → IsValid m
  stays_modify-IsValid {k} i f v same shape next =
      Kept-IsValid v (rw shape (length-modify k.procs i f)) next
        (rw shape (Stays-Kept k.procs _ (Stays-modify k.procs i f (λ p e. same p))))

  userinit-IsValid :
      (k m : Ptable World) → IsValid k → k.next_pid + 1 < 2 ^ 32 → userinit K k ≡ some m → IsValid m
  unfolding userinit
  userinit-IsValid k m v room e = elim (Option-cases (allocproc K k).0) [
    | inl no_entry ↦ absurd (ground arith)
    | inr (i, got) ↦
        let k1 = (allocproc K k).1 in
        let dir = (K.setupkvm k1.world).0 in
        let cwd = (K.root (K.inituvm dir (K.setupkvm k1.world).1)).0 in
        let used = Allocated-Uses K i (allocproc-Allocated K k i got).0 in
        let shape : m.procs ≡ modify k1.procs i (first_user dir cwd) = ground arith in
        modify-IsValid i (first_user dir cwd) (allocproc-IsValid K k v room) used (λ p. refl) shape
          (ground arith)
  ]

  Scan-cases :
      (s : Scan) → ((i : ℕ) × ((p : Proc) × (s ≡ found i p))) ⊎ ((kids : Bool) × (s ≡ missing kids))
  Scan-cases (found i p) = inl (i, (p, refl))
  Scan-cases (missing kids) = inr (kids, refl)

  wait-IsValid :
      (cur : ℕ) (k : Ptable World) → IsValid k → Uses k cur → IsValid (after_wait (wait K cur k))
  unfolding wait sleep_on
  wait-IsValid cur k v used = elim (Scan-cases (wait_scan cur 0 false k.procs)) [
    | inl (i, (p, hit)) ↦
        rw (hit, wait)
          (Kept-IsValid v (length-modify k.procs i reset) refl
            (Kept-modify k.procs i reset (λ q e. inr (refl, refl))))
    | inr (kids, miss) ↦
        rw (miss, wait)
          (elim (Bool-cases (not kids || (proc_at k.procs cur).killed)) [
            | inl alone ↦ rw alone v
            | inr some_kid ↦ rw some_kid (modify-IsValid cur _ v used (λ p. refl) refl refl)
          ])
  ]

  set_size-IsValid :
      (cur : ℕ) (r : ℕ × World) (k : Ptable World) → IsValid k → IsValid (set_size K cur r k).1
  unfolding set_size
  set_size-IsValid cur r k v = elim (Bool-cases (r.0 == 0)) [
    | inl out ↦ rw out (
        stays_modify-IsValid cur (λ p. p) v (λ p. (refl, λ l. l)) (sym (modify-id k.procs cur))
          refl)
    | inr got ↦ rw got (stays_modify-IsValid cur _ v (λ p. (refl, λ l. l)) refl refl)
  ]

  kill_mark_stays : (p : Proc) → ((kill_mark p).pid ≡ p.pid) × (Live (kill_mark p) → Live p)
  kill_mark_stays p = elim (Bool-cases (is_sleeping p.state)) [
    | inl s ↦ (ground arith, ground arith)
    | inr s ↦ (ground arith, ground arith)
  ]

  world-IsValid : (k : Ptable World) (w : World) → IsValid k → IsValid (record k { world = w })
  world-IsValid k w v = record {
    size = v.size;
    started = v.started;
    given = v.given;
    named = v.named;
    unique = v.unique;
  }

  close_file-IsValid : (fd cur : ℕ) (k : Ptable World) → IsValid k → IsValid (close_file K fd cur k)
  unfolding close_file
  close_file-IsValid fd cur k v = elim (Bool-cases (get_or (proc_at k.procs cur).ofile fd 0 == 0)) [
    | inl none_open ↦ rw none_open v
    | inr some_open ↦ rw some_open (stays_modify-IsValid cur _ v (λ p. (refl, λ l. l)) refl refl)
  ]

  Step-IsValid : {k m : Ptable World} → Step k m → IsValid k → IsValid m
  unfolding growproc wakeup sleep_on sleep_wake yield_cpu exit_begin_op exit_iput exit_end_op
  Step-IsValid (first k m room e) v = userinit-IsValid k m v room e
  Step-IsValid (forks cur k room) v = fork-IsValid K cur k v room
  Step-IsValid (closes fd cur k) v = close_file-IsValid fd cur k v
  Step-IsValid (opens_op k) v = world-IsValid k (K.begin_op k.world) v
  Step-IsValid (drops cur k) v = world-IsValid k (K.iput (proc_at k.procs cur).cwd k.world) v
  Step-IsValid (shuts_op cur k) v = stays_modify-IsValid cur _ v (λ p. (refl, λ l. l)) refl refl
  Step-IsValid (exits cur k m used e) v = exit-IsValid K cur k m v used e
  Step-IsValid (waits cur k used) v = wait-IsValid cur k v used
  Step-IsValid (grows (pos zero) cur k) v = v
  Step-IsValid (grows (pos (suc n)) cur k) v = set_size-IsValid cur _ k v
  Step-IsValid (grows (negsuc n) cur k) v = set_size-IsValid cur _ k v
  Step-IsValid (wakes c k) v =
      Kept-IsValid v (length-wakeup1 c k.procs) refl (Stays-Kept _ _ (Stays-wakeup1 c k.procs))
  Step-IsValid (kills pid k) v = elim (kill-cases pid k) [
    | inl (result, _) ↦ rw result v
    | inr (j, q, at, same, result) ↦
        rw result (stays_modify-IsValid j kill_mark v kill_mark_stays refl refl)
  ]
  Step-IsValid (sleeps c cur k used) v = modify-IsValid cur _ v used (λ p. refl) refl refl
  Step-IsValid (tidies cur k) v = stays_modify-IsValid cur _ v (λ p. (refl, λ l. l)) refl refl
  Step-IsValid (yields cur k used) v = modify-IsValid cur _ v used (λ p. refl) refl refl
  Step-IsValid (runs i k ready) v =
      modify-IsValid i _ v
        (λ p at free.
          let same = get_or_of_elem k.procs i zero_proc at in ground (arith, same, ready, free))
        (λ p. refl) refl refl
  Step-IsValid (ticks k t w) v = record {
    size = v.size;
    started = v.started;
    given = v.given;
    named = v.named;
    unique = v.unique;
  }

  table-IsValid :
      (t : ℕ) (w : World) (n : ℕ)
      → n ≡ nproc
      → IsValid {W = World} (record {
        procs = replicate n zero_proc;
        next_pid = 1;
        initproc = none;
        ticks = t;
        world = w;
      })
  table-IsValid t w n size =
      let zeroed = λ (i : ℕ) (p : Proc) (e : get_elem? (replicate n zero_proc) i ≡ some p).
        replicate-entry n zero_proc i e in
      record {
        size = length-replicate n zero_proc ∙ size;
        started = omega arith;
        given = λ i p e. rw (zeroed i p e) (omega arith);
        named = λ i p e live. absurd (live (ap (λ (x : Proc). x.state) (zeroed i p e)));
        unique = λ i j p q ep eq n same. absurd (n (ap (λ (x : Proc). x.pid) (zeroed i p ep)));
      }

  -- In every table that the operations reach from boot, a process in use has a pid that is not 0,
  -- was given out, and is no other entry's.
  pub Reach-IsValid : (t : ℕ) (w : World) {m : Ptable World} → Reach (boot t w) m → IsValid m
  Reach-IsValid t w here = table-IsValid t w nproc refl
  Reach-IsValid t w (step r s) = Step-IsValid s (Reach-IsValid t w r)
