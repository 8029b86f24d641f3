-- ===== src/Proc/Kill.antt =====
-- kill by pid, and sleeping processes under sequences of wakeup and kill (Source Code/proc.c).
use tugas_sistem_operasi.Base.{
  ℕ, zero, suc, if◌then◌else◌, ◌≡◌, refl, ◌≢◌, ◌↔◌, ◌⊎◌, inl, inr, ap, sym, ◌∙◌, some, true, false,
  List, [], ◌∷◌, ◌++◌, arith, ◌==◌, ◌<◌, get_elem?, length, modify, get_elem?-modify_self,
  Option-cases, get_elem?-some, get_elem?-modify_ne, Bool-cases,
}
use mathlib.Core.Option
use tugas_sistem_operasi.Proc.State.{unused, sleeping, runnable, is_sleeping, Chan, Proc, Ptable}
use tugas_sistem_operasi.Proc.Sleep.{wake, kill_mark, kill_scan, wakeup, kill, sleep_on}
use tugas_sistem_operasi.Proc.Wakeup.{
  get_elem?-wakeup1, kill_scan-found, kill_scan-missing, chan_eq_refl,
}
use tugas_sistem_operasi.Proc.Valid.{Live, IsValid}

-- A process that is killed: marked, and runnable if it was asleep.
abbrev pub marked : Proc → Proc
marked q = record q { killed = true; state = if is_sleeping q.state then runnable else q.state }

kill_mark_fields : (q : Proc) → kill_mark q ≡ marked q
kill_mark_fields q = elim (Bool-cases (is_sleeping q.state)) [
  | inl e ↦ rw e refl
  | inr e ↦ rw e refl
]

modify_same :
    (ps : List Proc) (i : ℕ) (f g : Proc → Proc)
    → ((p : Proc) → f p ≡ g p)
    → modify ps i f ≡ modify ps i g
modify_same [] i f g e = refl
modify_same (p ∷ ps) zero f g e = ap (λ (q : Proc). q ∷ ps) (e p)
modify_same (p ∷ ps) (suc i) f g e = ap (◌∷◌ p) (modify_same ps i f g e)

module _ {W : Type 0} where
  -- kill finds no entry and changes nothing, or marks one with the pid.
  pub kill-cases :
      (pid : ℕ) (k : Ptable W)
      → ((kill pid k ≡ (false, k))
          × ((i : ℕ) (p : Proc) → get_elem? k.procs i ≡ some p → p.pid ≢ pid))
        ⊎ ((j : ℕ) × (q : Proc) × (get_elem? k.procs j ≡ some q)
            × (q.pid ≡ pid)
            × (kill pid k ≡ (true, record k { procs = modify k.procs j kill_mark })))
  unfolding kill
  kill-cases pid k = elim (Option-cases (kill_scan pid k.procs)) [
    | inl no_entry ↦ inl (rw (no_entry, kill), kill_scan-missing pid k.procs no_entry)
    | inr (qs, found) ↦
        let (j, q, jq, same, shape) = kill_scan-found pid k.procs found in
        inr (j, q, jq, same, rw (found, kill) (rw shape))
  ]

  -- In a valid table, kill with the pid of a process in use succeeds and changes the entry of
  -- that process alone: it is marked killed, and is runnable if it was asleep.
  pub kill_lem :
      (k : Ptable W) (i : ℕ) (p : Proc)
      → IsValid k
      → get_elem? k.procs i ≡ some p
      → Live p
      → kill p.pid k ≡ (true, record k { procs = modify k.procs i marked })
  kill_lem k i p v at live = elim (kill-cases p.pid k) [
    | inl (_, no_entry) ↦ absurd (no_entry i p at refl)
    | inr (j, q, jq, same, result) ↦
        let e : i ≡ j = v.unique i j p q at jq (v.named i p at live) (sym same) in
        rw (e, result)
          (ap (λ (ps : List Proc). (true, record k { procs = ps }))
            (modify_same k.procs j kill_mark marked kill_mark_fields))
  ]

  -- kill returns failure and leaves the table alone exactly when no entry holds the pid.
  pub kill_fails_iff :
      (k : Ptable W) (pid : ℕ)
      → (kill pid k ≡ (false, k))
        ↔ ((i : ℕ) (p : Proc) → get_elem? k.procs i ≡ some p → p.pid ≢ pid)
  kill_fails_iff k pid = elim (kill-cases pid k) [
    | inl (result, no_entry) ↦ (λ e. no_entry, λ h. result)
    | inr (j, q, jq, same, result) ↦
        (λ e. absurd (ground (arith, e, result)), λ h. absurd (h j q jq same))
  ]

  -- kill reports success for a pid that an unused entry holds, such as pid 0.
  pub kill_unused :
      (k : Ptable W) (i : ℕ) (p : Proc)
      → get_elem? k.procs i ≡ some p
      → p.state ≡ unused
      → (kill p.pid k).0 ≡ true
  kill_unused k i p at free = elim (kill-cases p.pid k) [
    | inl (_, no_entry) ↦ absurd (no_entry i p at refl)
    | inr (j, q, jq, same, result) ↦ rw result
  ]

-- What other processes do to a sleeper.
pub data Event : Type 0 where
  wakes : Chan → Event
  kills : ℕ → Event

module _ {W : Type 0} where
  unfoldable pub run_event : Event → Ptable W → Ptable W
  run_event (wakes c) k = wakeup c k
  run_event (kills pid) k = (kill pid k).1

  unfoldable pub run_events : List Event → Ptable W → Ptable W
  unfolding run_event
  run_events [] k = k
  run_events (e ∷ es) k = run_events es (run_event e k)

  run_events-append :
      (es fs : List Event) (k : Ptable W)
      → run_events (es ++ fs) k ≡ run_events fs (run_events es k)
  unfolding run_events
  run_events-append [] fs k = refl
  run_events-append (e ∷ es) fs k = run_events-append es fs (run_event e k)

  -- Entry `i` is asleep on `c`, or runnable.
  abbrev Waits : Chan → ℕ → Ptable W → Type 0
  Waits c i k =
      (p : Proc) × (get_elem? k.procs i ≡ some p)
      × (((p.state ≡ sleeping) × (p.chan ≡ c)) ⊎ (p.state ≡ runnable))

  abbrev Ready : ℕ → Ptable W → Type 0
  Ready i k = (p : Proc) × (get_elem? k.procs i ≡ some p) × (p.state ≡ runnable)

  wakeup-Ready : (c : Chan) (i : ℕ) (k : Ptable W) → Waits c i k → Ready i (wakeup c k)
  unfolding wakeup
  wakeup-Ready c i k (p, at, s) = (wake c p, rw (get_elem?-wakeup1, at), woken s)
    where
      woken :
          ((p.state ≡ sleeping) × (p.chan ≡ c)) ⊎ (p.state ≡ runnable) → (wake c p).state ≡ runnable
      woken (inl h) = rw (h.0, h.1, chan_eq_refl c)
      woken (inr h) = ground arith

  -- An entry of the table after a kill.
  kill-entry :
      (pid i : ℕ) (k : Ptable W) (p : Proc)
      → get_elem? k.procs i ≡ some p
      → (get_elem? (kill pid k).1.procs i ≡ some p)
        ⊎ (get_elem? (kill pid k).1.procs i ≡ some (kill_mark p))
  kill-entry pid i k p at = elim (kill-cases pid k) [
    | inl (result, _) ↦ inl (rw result at)
    | inr (j, q, jq, same, result) ↦ elim (Bool-cases (j == i)) [
      | inl hit ↦
          let e : j ≡ i = ground arith in
          inr (
            rw result
              (rw e (get_elem?-modify_self k.procs i kill_mark ∙ ap (Option.map kill_mark) at)))
      | inr miss ↦ inl (rw result (get_elem?-modify_ne k.procs j i kill_mark (ground arith) ∙ at))
    ]
  ]

  run_event-Waits :
      (e : Event) (c : Chan) (i : ℕ) (k : Ptable W) → Waits c i k → Waits c i (run_event e k)
  unfolding run_event wakeup
  run_event-Waits (wakes d) c i k (p, at, s) = (wake d p, rw (get_elem?-wakeup1, at), ground arith)
  run_event-Waits (kills pid) c i k (p, at, s) = elim (kill-entry pid i k p at) [
    | inl same ↦ (p, same, s)
    | inr hit ↦ (kill_mark p, hit, ground arith)
  ]

  run_event-Ready : (e : Event) (i : ℕ) (k : Ptable W) → Ready i k → Ready i (run_event e k)
  unfolding run_event wakeup
  run_event-Ready (wakes d) i k (p, at, s) = (wake d p, rw (get_elem?-wakeup1, at), ground arith)
  run_event-Ready (kills pid) i k (p, at, s) = elim (kill-entry pid i k p at) [
    | inl same ↦ (p, same, s)
    | inr hit ↦ (kill_mark p, hit, ground arith)
  ]

  run_events-Waits :
      (es : List Event) (c : Chan) (i : ℕ) (k : Ptable W)
      → Waits c i k
      → Waits c i (run_events es k)
  unfolding run_events
  run_events-Waits [] c i k h = h
  run_events-Waits (e ∷ es) c i k h =
      run_events-Waits es c i (run_event e k) (run_event-Waits e c i k h)

  run_events-Ready :
      (es : List Event) (i : ℕ) (k : Ptable W) → Ready i k → Ready i (run_events es k)
  unfolding run_events
  run_events-Ready [] i k h = h
  run_events-Ready (e ∷ es) i k h = run_events-Ready es i (run_event e k) (run_event-Ready e i k h)

  -- No wakeup is lost: once a process has gone to sleep on a channel, a wakeup of that channel
  -- leaves it runnable, whatever other wakeups and kills come before and after.
  pub sleep_no_lost_wakeup :
      (k : Ptable W) (i : ℕ) (c : Chan) (before after : List Event)
      → i < length k.procs
      → (p : Proc) × (get_elem? (run_events (before ++ wakes c ∷ after) (sleep_on c i k)).procs i
          ≡ some p)
        × (p.state ≡ runnable)
  unfolding run_events run_event sleep_on
  sleep_no_lost_wakeup k i c before after lt =
      let (p, at) = get_elem?-some k.procs i lt in
      let asleep : Waits c i (sleep_on c i k) = (
        record p { chan = c; state = sleeping },
        rw (get_elem?-modify_self, at),
        inl (refl, refl),
      ) in
      let m = run_events before (sleep_on c i k) in
      rw (run_events-append before (wakes c ∷ after) (sleep_on c i k)) (
        run_events-Ready after i (wakeup c m)
          (wakeup-Ready c i m (run_events-Waits before c i (sleep_on c i k) asleep)))
