-- ===== src/Proc/Reap.antt =====
-- wait (Source Code/proc.c): which child it reaps, when it gives up and when it sleeps.
use tugas_sistem_operasi.Base.{
  get_or, ℕ, zero, suc, ◌+◌, ◌<◌, ◌≡◌, refl, ◌⊎◌, inl, inr, some, Bool, true, false, ◌&&◌, ◌||◌,
  List, [], ◌∷◌, arith, get_elem?, modify, Bool-cases, ◌≢◌, none, ap, ◌∙◌, get_elem?-modify_self,
  get_elem?-modify_ne,
}
use mathlib.Core.Option
use tugas_sistem_operasi.Proc.State.{
  unused, zombie, is_zombie, proc, points_to, Proc, Ptable, Kernel, proc_at,
}
use tugas_sistem_operasi.Proc.Sleep.{sleep_on}
use tugas_sistem_operasi.Proc.Life.{
  Scan, found, missing, wait_scan, Waited, reaped, failed, asleep, blank, reset, wait,
}

abbrev pub ZombieChild : ℕ → Proc → Type 0
ZombieChild cur p = (points_to p.parent cur ≡ true) × (p.state ≡ zombie)

-- What a scan of `ps` that starts with `kids` returns, its indices counted from `i`.
pub data Scanned (cur i : ℕ) (kids : Bool) (ps : List Proc) : Scan → Type 0 where
  hit :
      (j k : ℕ) (p : Proc)
      → k ≡ i + j
      → get_elem? ps j ≡ some p
      → ZombieChild cur p
      → ((l : ℕ) (q : Proc) → l < j → get_elem? ps l ≡ some q → ¬ (ZombieChild cur q))
      → Scanned cur i kids ps (found k p)
  childless :
      kids ≡ false
      → ((l : ℕ) (q : Proc) → get_elem? ps l ≡ some q → points_to q.parent cur ≡ false)
      → Scanned cur i kids ps (missing false)
  alive :
      ((l : ℕ) (q : Proc) → get_elem? ps l ≡ some q → ¬ (ZombieChild cur q))
      → (kids ≡ true)
        ⊎ ((l : ℕ) × (q : Proc) × (get_elem? ps l ≡ some q) × (points_to q.parent cur ≡ true))
      → Scanned cur i kids ps (missing true)

pub wait_scan-Scanned :
    (cur i : ℕ) (kids : Bool) (ps : List Proc) → Scanned cur i kids ps (wait_scan cur i kids ps)
unfolding wait_scan
wait_scan-Scanned cur i false [] = childless refl (λ l q e. absurd (cc))
wait_scan-Scanned cur i true [] = alive (λ l q e. absurd (cc)) (inl refl)
wait_scan-Scanned cur i kids (p ∷ ps) =
    elim (Bool-cases (points_to p.parent cur && is_zombie p.state)) [
      | inl now ↦
          rw now (hit 0 i p (omega arith) refl (ground arith) (λ l q lt e. absurd (omega arith)))
      | inr later ↦
          rw later
            (skip p later (wait_scan-Scanned cur (suc i) (points_to p.parent cur || kids) ps))
    ]
  where
    none_at :
        (p : Proc) (l : ℕ) (q : Proc)
        → (points_to p.parent cur && is_zombie p.state) ≡ false
        → ((m : ℕ) (q : Proc) → m < l → get_elem? ps m ≡ some q → ¬ (ZombieChild cur q))
        → (m : ℕ) → m < suc l
        → get_elem? (p ∷ ps) m ≡ some q
        → ¬ (ZombieChild cur q)
    none_at p l q later rest zero lt e = λ z. ground arith
    none_at p l q later rest (suc m) lt e = rest m q (omega arith) e

    no_child :
        (p : Proc)
        → points_to p.parent cur ≡ false
        → ((l : ℕ) (q : Proc) → get_elem? ps l ≡ some q → points_to q.parent cur ≡ false)
        → (l : ℕ) (q : Proc) → get_elem? (p ∷ ps) l ≡ some q
        → points_to q.parent cur ≡ false
    no_child p free others zero q e = ground arith
    no_child p free others (suc l) q e = others l q e

    all_alive :
        (p : Proc)
        → (points_to p.parent cur && is_zombie p.state) ≡ false
        → ((l : ℕ) (q : Proc) → get_elem? ps l ≡ some q → ¬ (ZombieChild cur q))
        → (l : ℕ) (q : Proc) → get_elem? (p ∷ ps) l ≡ some q
        → ¬ (ZombieChild cur q)
    all_alive p later rest zero q e = λ z. ground arith
    all_alive p later rest (suc l) q e = rest l q e

    a_kid :
        (p : Proc)
        → ((points_to p.parent cur || kids) ≡ true)
          ⊎ ((l : ℕ) × (q : Proc) × (get_elem? ps l ≡ some q) × (points_to q.parent cur ≡ true))
        → (kids ≡ true)
          ⊎ ((l : ℕ) × (q : Proc) × (get_elem? (p ∷ ps) l ≡ some q)
              × (points_to q.parent cur ≡ true))
    a_kid p (inr (l, q, e, mine)) = inr (suc l, q, e, mine)
    a_kid p (inl some_kid) = elim (Bool-cases (points_to p.parent cur)) [
      | inl mine ↦ inr (0, p, refl, mine)
      | inr other ↦ inl (ground arith)
    ]

    skip :
        {s : Scan} (p : Proc)
        → (points_to p.parent cur && is_zombie p.state) ≡ false
        → Scanned cur (suc i) (points_to p.parent cur || kids) ps s
        → Scanned cur i kids (p ∷ ps) s
    skip p later (hit j k q e at z first) =
        hit (suc j) k q (omega arith) at z (λ l r lt e. none_at p j r later first l lt e)
    skip p later (childless no_kids others) =
        childless (ground arith) (no_child p (ground arith) others)
    skip p later (alive no_zombie kid) = alive (all_alive p later no_zombie) (a_kid p kid)

-- An entry that wait has freed: no process, no stack, no name and no parent is left in it.
pub record Freed (q : Proc) : Type 0 where
  pub state : q.state ≡ unused
  pub pid : q.pid ≡ 0
  pub parent : q.parent ≡ none
  pub killed : q.killed ≡ false
  pub kstack : q.kstack ≡ 0
  pub name : get_or q.name 0 0 ≡ 0

blank_first : (name : List ℕ) → get_or (blank name) 0 0 ≡ 0
blank_first [] = refl
blank_first (c ∷ cs) = refl

reset-Freed : (p : Proc) → Freed (reset p)
reset-Freed p = record {
  state = refl;
  pid = refl;
  parent = refl;
  killed = refl;
  kstack = refl;
  name = blank_first p.name;
}

module _ (K : Kernel) (cur : ℕ) (k : Ptable K.World) where
  -- Entry `i`, which held `p`, is freed with its stack and its pages; all else is as before.
  pub record Reaps (i : ℕ) (p : Proc) (m : Ptable K.World) : Type 0 where
    pub entry : Proc
    pub at : get_elem? m.procs i ≡ some entry
    pub freed : Freed entry
    pub others : (j : ℕ) → i ≢ j → get_elem? m.procs j ≡ get_elem? k.procs j
    pub next_pid : m.next_pid ≡ k.next_pid
    pub world : m.world ≡ K.freevm p.pgdir (K.kfree p.kstack k.world)

  reset-Reaps :
      (i : ℕ) (p : Proc)
      → get_elem? k.procs i ≡ some p
      → Reaps i p (record k {
        procs = modify k.procs i reset;
        world = K.freevm p.pgdir (K.kfree p.kstack k.world);
      })
  reset-Reaps i p at = record {
    entry = reset p;
    at = get_elem?-modify_self k.procs i reset ∙ ap (Option.map reset) at;
    freed = reset-Freed p;
    others = λ j ne. get_elem?-modify_ne k.procs i j reset ne;
    next_pid = refl;
    world = refl;
  }

  -- The three ends of a turn of wait.
  pub data Waits : Waited K.World → Type 0 where
    reaps :
        (i : ℕ) (p : Proc) (m : Ptable K.World)
        → get_elem? k.procs i ≡ some p
        → ZombieChild cur p
        → ((l : ℕ) (q : Proc) → l < i → get_elem? k.procs l ≡ some q → ¬ (ZombieChild cur q))
        → Reaps i p m
        → Waits (reaped p.pid m)
    gives_up :
        ((l : ℕ) (q : Proc) → get_elem? k.procs l ≡ some q → ¬ (ZombieChild cur q))
        → ((l : ℕ) (q : Proc) → get_elem? k.procs l ≡ some q → points_to q.parent cur ≡ false)
          ⊎ ((proc_at k.procs cur).killed ≡ true)
        → Waits (failed k)
    sleeps :
        ((l : ℕ) (q : Proc) → get_elem? k.procs l ≡ some q → ¬ (ZombieChild cur q))
        → (l : ℕ) (q : Proc) → get_elem? k.procs l ≡ some q
        → points_to q.parent cur ≡ true
        → (proc_at k.procs cur).killed ≡ false
        → Waits (asleep (sleep_on (proc cur) cur k))

  Scanned-Waits :
      (s : Scan)
      → Scanned cur 0 false k.procs s
      → wait_scan cur 0 false k.procs ≡ s
      → Waits (wait K cur k)
  unfolding wait
  Scanned-Waits s (hit j i p e at z first) is =
      let same : i ≡ j = omega arith in
      let m : Ptable K.World = record k {
        procs = modify k.procs j reset;
        world = K.freevm p.pgdir (K.kfree p.kstack k.world);
      } in
      rw (is, wait) (rw same (reaps j p m at z first (reset-Reaps j p at)))
  Scanned-Waits s (childless _ others) is =
      rw (is, wait) (gives_up (λ l q e z. absurd (ground (arith, z.0, others l q e))) (inl others))
  Scanned-Waits s (alive no_zombie (inl bad)) is = absurd (cc)
  Scanned-Waits s (alive no_zombie (inr (l, q, at, mine))) is =
      elim (Bool-cases (proc_at k.procs cur).killed) [
        | inl dead ↦ rw (is, wait) (rw dead (gives_up no_zombie (inr dead)))
        | inr live ↦ rw (is, wait) (rw live (sleeps no_zombie l q at mine live))
      ]

  -- A turn of wait returns the pid of the first zombie child; it frees its stack and its pages, leaves
  -- its entry unused, with pid 0, without parent and not killed, and changes no other entry. Without a
  -- zombie child it fails exactly when there is no child or the caller is killed, and otherwise goes to
  -- sleep on the caller's own address.
  pub wait-Waits : Waits (wait K cur k)
  wait-Waits =
      Scanned-Waits (wait_scan cur 0 false k.procs) (wait_scan-Scanned cur 0 false k.procs) refl
