-- ===== src/Proc/Search.antt =====
-- The search of allocproc for an unused entry, and the entry that allocproc hands out.
use tugas_sistem_operasi.Base.{
  ℕ, zero, suc, ◌+◌, ◌%◌, ◌^◌, ◌≡◌, refl, ◌≢◌, ◌⊎◌, inl, inr, ap, ◌∙◌, Option, none, some, List, [],
  ◌∷◌, arith, ◌<◌, ◌==◌, false, sym, some-inj, get_elem?, get_elem?-modify_self,
  get_elem?-modify_ne, Bool-cases, Option-cases,
}
use tugas_sistem_operasi.Proc.State.{unused, embryo, is_unused, Proc, Ptable, Kernel, zero_context}
use tugas_sistem_operasi.Proc.Alloc.{find_unused, claim, stacked, unstacked, allocproc}

abbrev pub FirstUnused : List Proc → ℕ → Proc → Type 0
FirstUnused ps i p =
    (get_elem? ps i ≡ some p)
    × (p.state ≡ unused)
    × ((j : ℕ) (q : Proc) → j < i → get_elem? ps j ≡ some q → q.state ≢ unused)

-- An entry in use in front moves the first unused one by one.
FirstUnused-suc :
    (p q : Proc) (ps : List Proc) (m i : ℕ)
    → is_unused p.state ≡ false
    → i ≡ suc m
    → FirstUnused ps m q
    → FirstUnused (p ∷ ps) i q
FirstUnused-suc p q ps m i miss s (at, free, first) = rw s (at, free, before)
  where
    before : (j : ℕ) (r : Proc) → j < suc m → get_elem? (p ∷ ps) j ≡ some r → r.state ≢ unused
    before zero r lt e = λ z. ground arith
    before (suc j) r lt e = first j r (omega arith) e

pub find_unused-found :
    (ps : List Proc) {i : ℕ} → find_unused ps ≡ some i → (p : Proc) × FirstUnused ps i p
unfolding find_unused
find_unused-found [] e = absurd (cc)
find_unused-found (p ∷ ps) {i} e = elim (Bool-cases (is_unused p.state)) [
  | inl hit ↦
      let z : i ≡ 0 = ground arith in
      (p, (rw z refl, ground arith, λ j q lt at. absurd (omega (arith, z))))
  | inr miss ↦ elim (Option-cases (find_unused ps)) [
    | inl no_entry ↦ absurd (ground arith)
    | inr (m, found) ↦
        let s : i ≡ suc m = ground arith in
        let (q, first) = find_unused-found ps found in (q, FirstUnused-suc p q ps m i miss s first)
  ]
]

pub find_unused-missing :
    (ps : List Proc)
    → find_unused ps ≡ none
    → (i : ℕ) (p : Proc) → get_elem? ps i ≡ some p
    → p.state ≢ unused
unfolding find_unused
find_unused-missing [] e i p at = absurd (cc)
find_unused-missing (q ∷ ps) e zero p at = λ free. ground arith
find_unused-missing (q ∷ ps) e (suc i) p at = find_unused-missing ps (ground arith) i p at

module _ (K : Kernel) where
  open K use {World}

  -- What allocproc has changed when it succeeds with entry `i`.
  pub record Allocated (k m : Ptable World) (i : ℕ) : Type 0 where
    pub entry : Proc
    pub at : get_elem? m.procs i ≡ some entry
    pub embryo_state : entry.state ≡ embryo
    pub pid : entry.pid ≡ k.next_pid
    pub stack : entry.kstack ≢ 0
    pub starts : entry.context.eip ≡ K.forkret
    pub ticks : entry.start_ticks ≡ k.ticks
    pub others : (j : ℕ) → i ≢ j → get_elem? m.procs j ≡ get_elem? k.procs j
    pub next : m.next_pid ≡ (k.next_pid + 1) % 2 ^ 32

  stacked-Allocated :
      (k : Ptable World) (i page : ℕ) (w : World) (p : Proc)
      → get_elem? k.procs i ≡ some p
      → page ≢ 0
      → Allocated k (stacked K i page w (claim K i k)) i
  unfolding claim
  stacked-Allocated k i page w p at ne =
      let new : Proc = record p {
        state = embryo;
        pid = k.next_pid;
        kstack = page;
        tf = K.stale_frame page w;
        context = record zero_context { eip = K.forkret };
        start_ticks = k.ticks;
      } in
      record {
        entry = new;
        at = rw (get_elem?-modify_self, get_elem?-modify_self, at) refl;
        embryo_state = refl;
        pid = refl;
        stack = ne;
        starts = refl;
        ticks = refl;
        others = λ j d. get_elem?-modify_ne _ i j _ d ∙ get_elem?-modify_ne _ i j _ d;
        next = refl;
      }

  -- The results of allocproc: no entry is unused, or there is no page for the stack, or the first
  -- unused entry is handed out.
  pub data Outcome (k : Ptable World) : Option ℕ × Ptable World → Type 0 where
    full :
        ((i : ℕ) (p : Proc) → get_elem? k.procs i ≡ some p → p.state ≢ unused) → Outcome k (none, k)
    no_page :
        (i : ℕ) (p : Proc)
        → FirstUnused k.procs i p
        → (K.kalloc k.world).0 ≡ 0
        → Outcome k (none, unstacked K i (K.kalloc k.world).1 (claim K i k))
    handed :
        (i : ℕ) (p : Proc)
        → FirstUnused k.procs i p
        → (K.kalloc k.world).0 ≢ 0
        → Outcome k (some i, stacked K i (K.kalloc k.world).0 (K.kalloc k.world).1 (claim K i k))

  pub allocproc-Outcome : (k : Ptable World) → Outcome k (allocproc K k)
  unfolding allocproc
  allocproc-Outcome k = elim (Option-cases (find_unused k.procs)) [
    | inl no_entry ↦ rw (no_entry, allocproc) (full (find_unused-missing k.procs no_entry))
    | inr (i, found) ↦
        let (p, first) = find_unused-found k.procs found in
        elim (Bool-cases ((K.kalloc k.world).0 == 0)) [
          | inl out ↦ rw (found, allocproc) (rw out (no_page i p first (ground arith)))
          | inr got ↦ rw (found, allocproc) (rw got (handed i p first (ground arith)))
        ]
  ]

  Outcome-Allocated :
      {k : Ptable World} {r : Option ℕ × Ptable World} (i : ℕ)
      → Outcome k r
      → r.0 ≡ some i
      → Allocated k r.1 i × ((p : Proc) × FirstUnused k.procs i p)
  Outcome-Allocated i (full h) e = absurd (cc)
  Outcome-Allocated i (no_page j p first out) e = absurd (cc)
  Outcome-Allocated {k} i (handed j p first got) e =
      let ji : j ≡ i = some-inj e in rw (← ji) (stacked-Allocated k j _ _ p first.0 got, (p, first))

  -- When allocproc returns entry `i`, that entry was the first unused one and now is an embryo
  -- with a fresh pid, a kernel stack and a context that starts at forkret, and every other entry
  -- is as before.
  pub allocproc-Allocated :
      (k : Ptable World) (i : ℕ)
      → (allocproc K k).0 ≡ some i
      → Allocated k (allocproc K k).1 i × ((p : Proc) × FirstUnused k.procs i p)
  allocproc-Allocated k i e = Outcome-Allocated i (allocproc-Outcome k) e

  Outcome-failed :
      {k : Ptable World} {r : Option ℕ × Ptable World}
      → Outcome k r
      → r.0 ≡ none
      → (((i : ℕ) (p : Proc) → get_elem? k.procs i ≡ some p → p.state ≢ unused)
          ⊎ ((K.kalloc k.world).0 ≡ 0))
        × ((j : ℕ) (p : Proc)
            → get_elem? k.procs j ≡ some p
            → p.state ≢ unused
            → get_elem? r.1.procs j ≡ some p)
  unfolding claim
  Outcome-failed (full h) e = (inl h, λ j p at live. at)
  Outcome-failed (no_page i q first out) e = (
    inr out,
    λ j p at live.
        let ne : i ≢ j = λ ij.
          live (ap (λ (x : Proc). x.state) (some-inj (sym at ∙ (rw ij at first.0))) ∙ first.1) in
        get_elem?-modify_ne _ i j _ ne ∙ get_elem?-modify_ne _ i j _ ne ∙ at,
  )
  Outcome-failed (handed j p first got) e = absurd (cc)

  -- allocproc fails only when no entry is unused or no page is left for the kernel stack, and the
  -- entries of the processes in use are then as before.
  pub allocproc_failed :
      (k : Ptable World)
      → (allocproc K k).0 ≡ none
      → (((i : ℕ) (p : Proc) → get_elem? k.procs i ≡ some p → p.state ≢ unused)
          ⊎ ((K.kalloc k.world).0 ≡ 0))
        × ((j : ℕ) (p : Proc)
            → get_elem? k.procs j ≡ some p
            → p.state ≢ unused
            → get_elem? (allocproc K k).1.procs j ≡ some p)
  allocproc_failed k e = Outcome-failed (allocproc-Outcome k) e
