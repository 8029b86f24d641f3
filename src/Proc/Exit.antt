-- ===== src/Proc/Exit.antt =====
-- What exit leaves behind (Source Code/proc.c).
use tugas_sistem_operasi.Base.{
  ℕ, zero, suc, ◌+◌, ◌≤◌, ◌<◌, ◌≡◌, ◌≢◌, ◌⊎◌, inl, inr, ap, sym, ◌∙◌, Option, some, true, false,
  ◌&&◌, List, arith, ◌==◌, if◌then◌else◌, get_elem?, length, modify, get_elem?-modify_ne,
  Bool-cases, get_elem?-lt, some-inj,
}
use mathlib.Core.Option
use tugas_sistem_operasi.Proc.State.{
  sleeping, runnable, zombie, is_sleeping, Chan, proc, chan_of, chan_eq, points_to, Proc, Ptable,
  Kernel, proc_at, nproc,
}
use tugas_sistem_operasi.Proc.Sleep.{wake, wakeup1}
use tugas_sistem_operasi.Proc.Wakeup.{get_elem?-wakeup1, chan_eq_refl}
use tugas_sistem_operasi.Proc.Life.{reparent, pass_child, pass_children, passed_on, exit}
use tugas_sistem_operasi.Proc.Orphans.{
  Woken, Woken-runnable, Woken-zombie, heir, pass_child_other, pass_children-Entry, pass_child_self,
}

module _ (cur init : ℕ) where
  -- The round at a zombie child wakes every process that sleeps on init.
  pass_child-wakes :
      (i j : ℕ) (ps : List Proc) (p s : Proc)
      → get_elem? ps i ≡ some p
      → points_to p.parent cur ≡ true
      → p.state ≡ zombie
      → get_elem? ps j ≡ some s
      → s.state ≡ sleeping
      → s.chan ≡ proc init
      → i ≢ j
      → (q : Proc) × (get_elem? (pass_child cur (some init) i ps) j ≡ some q) × (q.state ≡ runnable)
  unfolding pass_child
  pass_child-wakes i j ps p s at mine dead sat asleep chan ne =
      let still : get_elem? (modify ps i (reparent (some init))) j ≡ some s =
        get_elem?-modify_ne ps i j (reparent (some init)) ne ∙ sat in
      rw at (
        rw (mine, dead)
          (
            wake (proc init) s,
            rw (get_elem?-wakeup1, still),
            rw (asleep, chan, chan_eq_refl (proc init)),
          ))

  abbrev Runs : List Proc → ℕ → Type 0
  Runs qs j = (q : Proc) × (get_elem? qs j ≡ some q) × (q.state ≡ runnable)

  round :
      (i j : ℕ) (ps : List Proc) (p : Proc)
      → get_elem? ps j ≡ some p
      → (q : Proc) × (get_elem? (pass_child cur (some init) i ps) j ≡ some q)
        × Woken (proc init) p q
  round i j ps p at = elim (Bool-cases (i == j)) [
    | inl same ↦
        let e : i ≡ j = ground arith in
        let (q, qat, par, w) = pass_child_self cur (some init) j ps p at in rw e (q, qat, w)
    | inr other ↦
        let (q, qat, par, w) = pass_child_other cur (some init) i j ps p (ground arith) at in
        (q, qat, w)
  ]

  stays_runnable :
      (n i j : ℕ) (ps : List Proc) → Runs ps j → Runs (pass_children cur (some init) n i ps) j
  unfolding pass_children
  stays_runnable zero i j ps h = h
  stays_runnable (suc n) i j ps (p, at, run) =
      let (q, qat, w) = round i j ps p at in
      stays_runnable n (suc i) j (pass_child cur (some init) i ps)
        (q, qat, Woken-runnable (proc init) p q w run)

  pub pass_children-wakes :
      (n i z j : ℕ) (ps : List Proc) (p s : Proc)
      → i ≤ z
      → z < i + n
      → get_elem? ps z ≡ some p
      → points_to p.parent cur ≡ true
      → p.state ≡ zombie
      → get_elem? ps j ≡ some s
      → s.state ≡ sleeping
      → s.chan ≡ proc init
      → Runs (pass_children cur (some init) n i ps) j
  unfolding pass_children
  pass_children-wakes zero i z j ps p s le lt at mine dead sat asleep chan = absurd (omega arith)
  pass_children-wakes (suc n) i z j ps p s le lt at mine dead sat asleep chan =
      let zj : z ≢ j = λ e.
        let here : get_elem? ps j ≡ some p = rw (← e) at in
        let same : p ≡ s = some-inj (sym here ∙ sat) in
        absurd (ground (arith, asleep, dead, same)) in
      elim (Bool-cases (i == z)) [
        | inl same ↦
            let e : i ≡ z = ground arith in
            stays_runnable n (suc i) j _
              (pass_child-wakes i j ps p s (rw e at) mine dead sat asleep chan (rw e zj))
        | inr other ↦
            let (q, qat, par, w) = pass_child_other cur (some init) i z ps p (ground arith) at in
            let (t, tat, v) = round i j ps s sat in
            elim (Bool-cases (is_sleeping t.state)) [
              | inl still ↦
                  pass_children-wakes n (suc i) z j (pass_child cur (some init) i ps) q t
                    (ground arith) (omega arith) qat (rw par mine)
                    (Woken-zombie (proc init) p q w dead) tat (ground arith) (v.chan ∙ chan)
              | inr woke ↦
                  stays_runnable n (suc i) j (pass_child cur (some init) i ps)
                    (t, tat, ground (arith, v.state, asleep))
            ]
      ]

module _ (K : Kernel) where
  open K use {World}

  exit-shape :
      (cur : ℕ) (k m : Ptable World)
      → exit K cur k ≡ some m
      → (m.procs ≡ modify (passed_on K cur k) cur (λ p. record p { state = zombie; sz = 0 }))
        × (points_to k.initproc cur ≡ false)
  unfolding exit
  exit-shape cur k m e = ground arith

  -- The channel on which the parent of `cur` may wait.
  abbrev pub parent_chan : ℕ → Ptable World → Chan
  parent_chan cur k = chan_of (proc_at k.procs cur).parent

  -- Another process as it stands before the loop.
  before_loop :
      (cur j : ℕ) (k : Ptable World) (p : Proc)
      → get_elem? k.procs j ≡ some p
      → get_elem? (wakeup1 (parent_chan cur k) k.procs) j ≡ some (wake (parent_chan cur k) p)
  before_loop cur j k p at =
      get_elem?-wakeup1 (parent_chan cur k) k.procs j
      ∙ ap (Option.map (wake (parent_chan cur k))) at

  -- What happens to another process: `c` is the parent's channel.
  abbrev pub Fate : ℕ → Option ℕ → Chan → Proc → Proc → Type 0
  Fate cur init c p q =
      (q.pid ≡ p.pid)
      × (q.parent ≡ (if points_to p.parent cur then init else p.parent))
      × (points_to q.parent cur ≡ false)
      × ((q.state ≡ p.state)
          ⊎ ((p.state ≡ sleeping)
              × ((chan_eq p.chan c ≡ true) ⊎ (chan_eq p.chan (chan_of init) ≡ true))
              × (q.state ≡ runnable)))

  Woken-Fate :
      (cur : ℕ) (init : Option ℕ) (c : Chan) (p q : Proc)
      → points_to init cur ≡ false
      → q.parent ≡ heir cur init (wake c p)
      → Woken (chan_of init) (wake c p) q
      → Fate cur init c p q
  Woken-Fate cur init c p q other par w =
      elim (Bool-cases (is_sleeping p.state && chan_eq p.chan c)) [
        | inl woke ↦ (
          w.pid ∙ ground arith,
          par ∙ ground arith,
          rw par (ground arith),
          ground (arith, w.state),
        )
        | inr not_woke ↦ (
          w.pid ∙ ground arith,
          par ∙ ground arith,
          rw par (ground arith),
          ground (arith, w.state),
        )
      ]

  -- Let exit hold ptable.lock, in a process other than init. In its section under the lock, every other
  -- entry of the table keeps its pid, becomes a child of init exactly if it was a child of the exiting
  -- process, is no longer a child of that process, and changes state only by waking from a sleep on the
  -- address of the parent or of init.
  pub exit_children :
      (cur j : ℕ) (k m : Ptable World) (p : Proc)
      → length k.procs ≡ nproc
      → exit K cur k ≡ some m
      → cur ≢ j
      → get_elem? k.procs j ≡ some p
      → (q : Proc) × (get_elem? m.procs j ≡ some q) × Fate cur k.initproc (parent_chan cur k) p q
  exit_children cur j k m p size e ne at =
      let (shape, not_init) = exit-shape cur k m e in
      let c = parent_chan cur k in
      let lt = get_elem?-lt k.procs j at in
      let (q, qat, par, woken) =
        pass_children-Entry cur k.initproc nproc 0 j _ (wake c p) (omega arith) (omega arith)
          (before_loop cur j k p at) in
      (
        q,
        rw shape (get_elem?-modify_ne (passed_on K cur k) cur j _ ne ∙ qat),
        Woken-Fate cur k.initproc c p q not_init par woken,
      )

  -- After the section of exit under ptable.lock, in a process other than init, another process that
  -- slept on the address of the exiting process's parent is runnable, and so is one that slept on
  -- the address of init if some other child of the exiting process is a zombie.
  pub exit_wakes :
      (cur init j : ℕ) (k m : Ptable World) (s : Proc)
      → length k.procs ≡ nproc
      → exit K cur k ≡ some m
      → k.initproc ≡ some init
      → cur ≢ j
      → get_elem? k.procs j ≡ some s
      → s.state ≡ sleeping
      → (s.chan ≡ parent_chan cur k)
        ⊎ ((s.chan ≡ proc init)
            × ((z : ℕ) × (p : Proc) × (cur ≢ z)
                × (get_elem? k.procs z ≡ some p)
                × (points_to p.parent cur ≡ true)
                × (p.state ≡ zombie)))
      → (q : Proc) × (get_elem? m.procs j ≡ some q) × (q.state ≡ runnable)
  unfolding before_loop
  exit_wakes cur init j k m s size e is_init ne at asleep (inl chan) =
      let (shape, not_init) = exit-shape cur k m e in
      let c = parent_chan cur k in
      let lt = get_elem?-lt k.procs j at in
      let (q, qat, par, woken) =
        pass_children-Entry cur k.initproc nproc 0 j _ (wake c s) (omega arith) (omega arith)
          (before_loop cur j k s at) in
      let up : (wake c s).state ≡ runnable = rw (asleep, chan, chan_eq_refl c) in
      (
        q,
        rw shape (get_elem?-modify_ne (passed_on K cur k) cur j _ ne ∙ qat),
        Woken-runnable (chan_of k.initproc) (wake c s) q woken up,
      )
  exit_wakes cur init j k m s size e is_init ne at asleep
        (inr (chan, (z, p, zne, zat, mine, dead))) =
      let (shape, not_init) = exit-shape cur k m e in
      let c = parent_chan cur k in
      let lt = get_elem?-lt k.procs j at in
      let zlt = get_elem?-lt k.procs z zat in
      let same : wake c p ≡ p = ground arith in
      let start = before_loop cur j k s at in
      let (q, qat, up) =
        loop_wakes c _ start (before_loop cur z k p zat ∙ ap some same) (omega arith) in
      (q, rw shape (get_elem?-modify_ne (passed_on K cur k) cur j _ ne ∙ rw is_init qat), up)
    where
      loop_wakes :
          (c : Chan) (ps : List Proc)
          → get_elem? ps j ≡ some (wake c s)
          → get_elem? ps z ≡ some p
          → z < nproc
          → Runs cur init (pass_children cur (some init) nproc 0 ps) j
      loop_wakes c ps start child lt = elim (Bool-cases (is_sleeping p.state)) [
        | inl no_sleep ↦ absurd (ground (arith, dead, no_sleep))
        | inr _ ↦ elim (Bool-cases (chan_eq s.chan c)) [
          | inl woke ↦ stays_runnable cur init nproc 0 j ps (wake c s, start, rw (asleep, woke))
          | inr waits ↦
              pass_children-wakes cur init nproc 0 z j ps p s (omega arith) lt child mine dead
                (start ∙ ap some (ground arith)) asleep chan
        ]
      ]
