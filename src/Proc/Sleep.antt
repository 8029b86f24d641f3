-- ===== src/Proc/Sleep.antt =====
-- wakeup1, wakeup, kill, sleep, yield and the checks of sched (Source Code/proc.c). Each runs with
-- ptable.lock held, so it is one step on the table; a call that switches to the scheduler is the
-- step up to the switch, and what follows the switch is a step of its own.
use tugas_sistem_operasi.Base.{
  ℕ, Option, none, some, Bool, true, false, ◌&&◌, List, [], ◌∷◌, if◌then◌else◌, ◌==◌, modify,
}
use tugas_sistem_operasi.Proc.State.{
  sleeping, runnable, is_sleeping, Chan, null, chan_eq, Proc, Ptable,
}

-- The body of the loop in wakeup1.
abbrev pub wake : Chan → Proc → Proc
wake c p = if is_sleeping p.state && chan_eq p.chan c then record p { state = runnable } else p

unfoldable pub wakeup1 : Chan → List Proc → List Proc
wakeup1 c [] = []
wakeup1 c (p ∷ ps) = wake c p ∷ wakeup1 c ps

-- What kill does to the process that it finds.
abbrev pub kill_mark : Proc → Proc
kill_mark p =
    let q = record p { killed = true } in
    if is_sleeping q.state then record q { state = runnable } else q

-- The loop of kill: the first process with the pid is marked.
unfoldable pub kill_scan : ℕ → List Proc → Option (List Proc)
kill_scan pid [] = none
kill_scan pid (p ∷ ps) =
    let rest = kill_scan pid ps in
    if p.pid == pid
    then some (kill_mark p ∷ ps)
    else elim rest [ none ↦ none | some qs ↦ some (p ∷ qs) ]

module _ {W : Type 0} where
  unfoldable pub wakeup : Chan → Ptable W → Ptable W
  unfolding wakeup1
  wakeup c k = record k { procs = wakeup1 c k.procs }

  -- 0 is the success of kill, `false` its failure.
  unfoldable pub kill : ℕ → Ptable W → Bool × Ptable W
  unfolding kill_scan
  kill pid k = elim (kill_scan pid k.procs) [
    | none ↦ (false, k)
    | some ps ↦ (true, record k { procs = ps })
  ]

  -- sleep up to its call of sched.
  unfoldable pub sleep_on : Chan → ℕ → Ptable W → Ptable W
  sleep_on c cur k = record k {
    procs = modify k.procs cur (λ p. record p { chan = c; state = sleeping });
  }

  -- sleep after its call of sched.
  unfoldable pub sleep_wake : ℕ → Ptable W → Ptable W
  sleep_wake cur k = record k { procs = modify k.procs cur (λ p. record p { chan = null }) }

  -- yield up to its call of sched.
  unfoldable pub yield_cpu : ℕ → Ptable W → Ptable W
  yield_cpu cur k = record k { procs = modify k.procs cur (λ p. record p { state = runnable }) }
