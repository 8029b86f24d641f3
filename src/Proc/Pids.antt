-- ===== src/Proc/Pids.antt =====
-- Every operation of proc.c keeps the table valid, and so does every sequence of them from boot.
use tugas_sistem_operasi.Base.{
  ℕ, zero, suc, ◌+◌, ◌^◌, ◌≡◌, refl, inl, inr, ap, sym, ◌∙◌, Option, some, List, arith, ◌<◌, ◌==◌,
  get_elem?, length, modify, length-modify, modify-entry, map-entry, Bool-cases, some-inj,
  Option-cases,
}
use tugas_sistem_operasi.Proc.State.{
  embryo, zombie, is_sleeping, Chan, chan_of, points_to, Proc, Ptable, Kernel, proc_at, nproc,
}
use tugas_sistem_operasi.Proc.Alloc.{claim, allocproc}
use tugas_sistem_operasi.Proc.Search.{
  Outcome, full, no_page, handed, allocproc-Outcome, Allocated, allocproc-Allocated,
}
use tugas_sistem_operasi.Proc.Sleep.{wake, wakeup1}
use tugas_sistem_operasi.Proc.Life.{
  reparent, is_child, is_zombie_child, pass_child, pass_children, fork, fork_into, exit, passed_on,
}
use tugas_sistem_operasi.Proc.Wakeup.{wakeup1-map, length-wakeup1}
use tugas_sistem_operasi.Proc.Valid.{
  Live, IsValid, Kept-modify, Kept-IsValid, Stays, Stays-trans, Stays-Kept, Stays-modify,
}

Stays-refl : (ps : List Proc) → Stays ps ps
Stays-refl ps i q e = (q, e, refl, λ l. l)

wake_stays : (c : Chan) (p : Proc) → ((wake c p).pid ≡ p.pid) × (Live (wake c p) → Live p)
wake_stays c p = elim (Bool-cases (is_sleeping p.state)) [
  | inl s ↦ (ground arith, ground arith)
  | inr s ↦ (ground arith, ground arith)
]

pub Stays-wakeup1 : (c : Chan) (ps : List Proc) → Stays ps (wakeup1 c ps)
Stays-wakeup1 c ps i q e =
    let (p, at, shape) =
      map-entry ps i (wake c) (sym (ap (λ l. get_elem? l i) (wakeup1-map c ps)) ∙ e) in
    let (pid, live) = wake_stays c p in
    (p, at, ap (λ (x : Proc). x.pid) shape ∙ pid, λ l. live (rw shape at l))

Stays-pass_child :
    (cur : ℕ) (init : Option ℕ) (i : ℕ) (ps : List Proc) → Stays ps (pass_child cur init i ps)
unfolding pass_child
Stays-pass_child cur init i ps =
    let changed : Stays ps (modify ps i (reparent init)) =
      Stays-modify ps i (reparent init) (λ p e. (refl, λ l. l)) in
    let woken = Stays-wakeup1 (chan_of init) (modify ps i (reparent init)) in
    elim (Bool-cases (is_child cur (get_elem? ps i))) [
      | inr other ↦ rw other (Stays-refl ps)
      | inl mine ↦ rw mine (elim (Bool-cases (is_zombie_child cur (get_elem? ps i))) [
        | inr alive ↦ rw alive changed
        | inl dead ↦ rw dead (Stays-trans ps _ _ changed woken)
      ])
    ]

length-pass_child :
    (cur : ℕ) (init : Option ℕ) (i : ℕ) (ps : List Proc)
    → length (pass_child cur init i ps) ≡ length ps
unfolding pass_child
length-pass_child cur init i ps =
    let changed = length-modify ps i (reparent init) in
    ground (arith, changed, length-wakeup1 (chan_of init) (modify ps i (reparent init)))

pub Stays-pass_children :
    (cur : ℕ) (init : Option ℕ) (n i : ℕ) (ps : List Proc)
    → Stays ps (pass_children cur init n i ps)
unfolding pass_children
Stays-pass_children cur init zero i ps = Stays-refl ps
Stays-pass_children cur init (suc n) i ps =
    Stays-trans ps _ _ (Stays-pass_child cur init i ps)
      (Stays-pass_children cur init n (suc i) (pass_child cur init i ps))

pub length-pass_children :
    (cur : ℕ) (init : Option ℕ) (n i : ℕ) (ps : List Proc)
    → length (pass_children cur init n i ps) ≡ length ps
unfolding pass_children
length-pass_children cur init zero i ps = refl
length-pass_children cur init (suc n) i ps =
    length-pass_children cur init n (suc i) (pass_child cur init i ps)
    ∙ length-pass_child cur init i ps

-- The entry of a process in use, such as the current one.
abbrev pub Uses : {W : Type 0} → Ptable W → ℕ → Type 0
Uses k i = (p : Proc) → get_elem? k.procs i ≡ some p → Live p

-- A change of one entry that keeps its pid, where it is in use.
pub modify-IsValid :
    {W : Type 0} {k m : Ptable W} (i : ℕ) (f : Proc → Proc)
    → IsValid k
    → Uses k i
    → ((p : Proc) → (f p).pid ≡ p.pid)
    → m.procs ≡ modify k.procs i f
    → m.next_pid ≡ k.next_pid
    → IsValid m
modify-IsValid {k} {m} i f v used same shape next =
    Kept-IsValid v (rw shape (length-modify k.procs i f)) next
      (rw shape (Kept-modify k.procs i f (λ p e. inl (same p, λ l. used p e))))

module _ (K : Kernel) where
  open K use {World}

  abbrev taken : Ptable World → Proc → Proc
  taken k p = record p { state = embryo; pid = k.next_pid }

  claim-IsValid :
      (k : Ptable World) (i : ℕ) → IsValid k → k.next_pid + 1 < 2 ^ 32 → IsValid (claim K i k)
  unfolding claim
  claim-IsValid k i v room = record {
    size = length-modify k.procs i (taken k) ∙ v.size;
    started = omega (arith, room);
    given = λ j q e. elim (modify-entry k.procs i j (taken k) e) [
      | inl (_, (p, at, shape)) ↦
          let same : q.pid ≡ k.next_pid = ap (λ (x : Proc). x.pid) shape in omega arith
      | inr old ↦ omega (arith, v.given j q old)
    ];
    named = λ j q e live. elim (modify-entry k.procs i j (taken k) e) [
      | inl (_, (p, at, shape)) ↦
          let same : q.pid ≡ k.next_pid = ap (λ (x : Proc). x.pid) shape in omega (arith, v.started)
      | inr old ↦ v.named j q old live
    ];
    unique = λ j l q r eq er n same. elim (modify-entry k.procs i j (taken k) eq) [
      | inl (ij, (p, at, shape)) ↦ elim (modify-entry k.procs i l (taken k) er) [
        | inl (il, _) ↦ sym ij ∙ il
        | inr old ↦
            let new : q.pid ≡ k.next_pid = ap (λ (x : Proc). x.pid) shape in
            absurd (omega (arith, v.given l r old))
      ]
      | inr fst ↦ elim (modify-entry k.procs i l (taken k) er) [
        | inl (il, (p, at, shape)) ↦
            let new : r.pid ≡ k.next_pid = ap (λ (x : Proc). x.pid) shape in
            absurd (omega (arith, v.given j q fst))
        | inr snd ↦ v.unique j l q r fst snd n same
      ]
    ];
  }

  Outcome-IsValid :
      {k : Ptable World} {r : Option ℕ × Ptable World}
      → Outcome K k r
      → IsValid k
      → k.next_pid + 1 < 2 ^ 32
      → IsValid r.1
  Outcome-IsValid (full h) v room = v
  Outcome-IsValid {k} (no_page i p first out) v room =
      Kept-IsValid (claim-IsValid k i v room) (length-modify _ i _) refl
        (Kept-modify (claim K i k).procs i _ (λ q e. inl (refl, λ l. absurd (l refl))))
  Outcome-IsValid {k} (handed i p first got) v room =
      Kept-IsValid (claim-IsValid k i v room) (length-modify _ i _) refl
        (Kept-modify (claim K i k).procs i _ (λ q e. inl (refl, λ l. l)))

  pub allocproc-IsValid :
      (k : Ptable World) → IsValid k → k.next_pid + 1 < 2 ^ 32 → IsValid (allocproc K k).1
  allocproc-IsValid k v room = Outcome-IsValid (allocproc-Outcome K k) v room

  pub Allocated-Uses : {k m : Ptable World} (n : ℕ) → Allocated K k m n → Uses m n
  Allocated-Uses n a q at =
      let same : q ≡ a.entry = some-inj (sym at ∙ a.at) in
      λ free. absurd (ground (arith, same, a.embryo_state, free))

  -- In fork_into the entry of the child keeps its pid or is given up.
  fork_into-IsValid :
      (cur n : ℕ) (k : Ptable World) → IsValid k → Uses k n → IsValid (fork_into K cur n k).1
  unfolding fork_into
  fork_into-IsValid cur n k v used =
      elim (Bool-cases
        ((K.copyuvm (proc_at k.procs cur).pgdir (proc_at k.procs cur).sz k.world).0 == 0)) [
          | inl out ↦ rw out (
              Kept-IsValid v (length-modify k.procs n _) refl
                (Kept-modify k.procs n _ (λ q e. inl (refl, λ l. absurd (l refl)))))
          | inr got ↦ rw got (modify-IsValid n _ v used (λ p. refl) refl refl)
        ]

  pub fork-IsValid :
      (cur : ℕ) (k : Ptable World) → IsValid k → k.next_pid + 1 < 2 ^ 32 → IsValid (fork K cur k).1
  unfolding fork
  fork-IsValid cur k v room = elim (Option-cases (allocproc K k).0) [
    | inl no_entry ↦ rw (no_entry, fork) (allocproc-IsValid k v room)
    | inr (n, got) ↦
        rw (got, fork)
          (fork_into-IsValid cur n (allocproc K k).1 (allocproc-IsValid k v room)
            (Allocated-Uses n (allocproc-Allocated K k n got).0))
  ]

  Stays-passed_on : (cur : ℕ) (k : Ptable World) → Stays k.procs (passed_on K cur k)
  Stays-passed_on cur k =
      Stays-trans k.procs _ _ (Stays-wakeup1 (chan_of (proc_at k.procs cur).parent) k.procs)
        (Stays-pass_children cur k.initproc nproc 0 _)

  length-passed_on : (cur : ℕ) (k : Ptable World) → length (passed_on K cur k) ≡ length k.procs
  length-passed_on cur k =
      length-pass_children cur k.initproc nproc 0 _
      ∙ length-wakeup1 (chan_of (proc_at k.procs cur).parent) k.procs

  pub exit-IsValid :
      (cur : ℕ) (k m : Ptable World) → IsValid k → Uses k cur → exit K cur k ≡ some m → IsValid m
  unfolding exit
  exit-IsValid cur k m v used e = elim (Bool-cases (points_to k.initproc cur)) [
    | inl init ↦ absurd (ground arith)
    | inr other ↦
        let qs = passed_on K cur k in
        let dead = λ (p : Proc). record p { state = zombie; sz = 0 } in
        let shape : m.procs ≡ modify qs cur dead = ground arith in
        Kept-IsValid v (rw shape (length-modify qs cur dead ∙ length-passed_on cur k))
          (ground arith)
          (rw shape (λ i q at. elim (modify-entry qs cur i dead at) [
            | inl (ci, (p, pat, qp)) ↦
                let (o, oat, pid, live) = Stays-passed_on cur k i p pat in
                (o, oat, inl (ap (λ (x : Proc). x.pid) qp ∙ pid, λ l. used o (rw ci oat)))
            | inr old ↦ Stays-Kept k.procs qs (Stays-passed_on cur k) i q old
          ]))
  ]
