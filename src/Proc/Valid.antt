-- ===== src/Proc/Valid.antt =====
-- The invariant of the process table: pids are given out already, are 0 only in unused entries,
-- and differ from one another otherwise.
use tugas_sistem_operasi.Base.{
  ℕ, ◌<◌, ◌≡◌, refl, ◌≢◌, ◌⊎◌, inl, inr, ap, sym, ◌∙◌, some, List, arith, get_elem?, length, modify,
  modify-entry,
}
use tugas_sistem_operasi.Proc.State.{unused, Proc, Ptable, nproc}

abbrev pub Live : Proc → Type 0
Live p = p.state ≢ unused

pub record IsValid {W : Type 0} (k : Ptable W) : Type 0 where
  pub size : length k.procs ≡ nproc
  pub started : 0 < k.next_pid
  pub given : (i : ℕ) (p : Proc) → get_elem? k.procs i ≡ some p → p.pid < k.next_pid
  pub named : (i : ℕ) (p : Proc) → get_elem? k.procs i ≡ some p → Live p → p.pid ≢ 0
  pub unique :
      (i j : ℕ) (p q : Proc)
      → get_elem? k.procs i ≡ some p
      → get_elem? k.procs j ≡ some q
      → p.pid ≢ 0
      → p.pid ≡ q.pid
      → i ≡ j

-- An entry keeps its pid and comes into no use, or is given up.
abbrev pub Follows : Proc → Proc → Type 0
Follows p q = ((q.pid ≡ p.pid) × (Live q → Live p)) ⊎ ((q.pid ≡ 0) × (q.state ≡ unused))

abbrev pub Kept : List Proc → List Proc → Type 0
Kept ps qs =
    (i : ℕ) (q : Proc)
    → get_elem? qs i ≡ some q
    → (p : Proc) × (get_elem? ps i ≡ some p) × Follows p q

Follows-trans : (p q r : Proc) → Follows p q → Follows q r → Follows p r
Follows-trans p q r f (inr g) = inr g
Follows-trans p q r (inl f) (inl g) = inl (g.0 ∙ f.0, λ l. f.1 (g.1 l))
Follows-trans p q r (inr f) (inl g) = inr (g.0 ∙ f.0, ground (arith, g.1))

pub Kept-trans : (ps qs rs : List Proc) → Kept ps qs → Kept qs rs → Kept ps rs
Kept-trans ps qs rs f g i r e =
    let (q, eq, fq) = g i r e in let (p, ep, fp) = f i q eq in (p, ep, Follows-trans p q r fp fq)

pub Kept-modify :
    (ps : List Proc) (i : ℕ) (f : Proc → Proc)
    → ((p : Proc) → get_elem? ps i ≡ some p → Follows p (f p))
    → Kept ps (modify ps i f)
Kept-modify ps i f h j q e = elim (modify-entry ps i j f e) [
  | inl (ij, (p, ep, qp)) ↦ (p, ep, rw qp (h p (rw ij ep)))
  | inr old ↦ (q, old, inl (refl, λ l. l))
]

-- An entry keeps its pid and comes into no use.
abbrev pub Stays : List Proc → List Proc → Type 0
Stays ps qs =
    (i : ℕ) (q : Proc)
    → get_elem? qs i ≡ some q
    → (p : Proc) × (get_elem? ps i ≡ some p) × (q.pid ≡ p.pid) × (Live q → Live p)

pub Stays-trans : (ps qs rs : List Proc) → Stays ps qs → Stays qs rs → Stays ps rs
Stays-trans ps qs rs f g i r e =
    let (q, eq, gp, gl) = g i r e in
    let (p, ep, fp, fl) = f i q eq in (p, ep, gp ∙ fp, λ l. fl (gl l))

pub Stays-Kept : (ps qs : List Proc) → Stays ps qs → Kept ps qs
Stays-Kept ps qs f i q e = let (p, ep, pid, live) = f i q e in (p, ep, inl (pid, live))

pub Stays-modify :
    (ps : List Proc) (i : ℕ) (f : Proc → Proc)
    → ((p : Proc) → get_elem? ps i ≡ some p → ((f p).pid ≡ p.pid) × (Live (f p) → Live p))
    → Stays ps (modify ps i f)
Stays-modify ps i f h j q e = elim (modify-entry ps i j f e) [
  | inl (ij, (p, ep, qp)) ↦
      let (pid, live) = h p (rw ij ep) in
      (p, ep, ap (λ (x : Proc). x.pid) qp ∙ pid, λ l. live (rw qp at l))
  | inr old ↦ (q, old, refl, λ l. l)
]

pub Kept-IsValid :
    {W : Type 0} {k m : Ptable W}
    → IsValid k
    → length m.procs ≡ length k.procs
    → m.next_pid ≡ k.next_pid
    → Kept k.procs m.procs
    → IsValid m
Kept-IsValid {k} {m} v size next kept = record {
  size = size ∙ v.size;
  started = rw next v.started;
  given = λ i q e. let (p, ep, f) = kept i q e in given p q f (v.given i p ep);
  named = λ i q e l. let (p, ep, f) = kept i q e in named p q f l (v.named i p ep);
  unique = λ i j q r eq er lq same.
      let (p, ep, f) = kept i q eq in
      let (s, es, g) = kept j r er in
      let ps = pids p q r s f g lq same in v.unique i j p s ep es ps.0 ps.1;
}
  where
    given : (p q : Proc) → Follows p q → p.pid < k.next_pid → q.pid < m.next_pid
    given p q (inl f) h = omega (arith, f.0, next)
    given p q (inr f) h = omega (arith, f.0, next, v.started)

    named : (p q : Proc) → Follows p q → Live q → (Live p → p.pid ≢ 0) → q.pid ≢ 0
    named p q (inl f) l h = λ z. h (f.1 l) (sym f.0 ∙ z)
    named p q (inr f) l h = absurd (l f.1)

    pids :
        (p q r s : Proc)
        → Follows p q
        → Follows s r
        → q.pid ≢ 0
        → q.pid ≡ r.pid
        → (p.pid ≢ 0) × (p.pid ≡ s.pid)
    pids p q r s (inr f) g n same = absurd (n f.0)
    pids p q r s (inl f) (inr g) n same = absurd (n (same ∙ g.0))
    pids p q r s (inl f) (inl g) n same = (λ z. n (f.0 ∙ z), sym f.0 ∙ same ∙ g.0)
