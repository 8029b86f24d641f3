-- ===== src/Proc/Orphans.antt =====
-- exit's loop over the table: every child of the exiting process becomes a child of init, and init
-- is woken if one of them is a zombie already.
use tugas_sistem_operasi.Base.{
  ℕ, zero, suc, ◌+◌, ◌≤◌, ◌<◌, ◌≡◌, refl, ◌≢◌, ◌⊎◌, inl, inr, ap, sym, ◌∙◌, Option, some, true,
  List, arith, ◌==◌, if◌then◌else◌, get_elem?, modify, get_elem?-modify_self, get_elem?-modify_ne,
  Bool-cases,
}
use mathlib.Core.Option
use tugas_sistem_operasi.Proc.State.{
  sleeping, runnable, zombie, is_zombie, Chan, chan_of, chan_eq, points_to, Proc,
}
use tugas_sistem_operasi.Proc.Sleep.{wake}
use tugas_sistem_operasi.Proc.Wakeup.{get_elem?-wakeup1}
use tugas_sistem_operasi.Proc.Life.{reparent, is_child, is_zombie_child, pass_child, pass_children}

-- `q` is `p` with another parent perhaps, and woken if it was asleep on `c`, perhaps.
pub record Woken (c : Chan) (p q : Proc) : Type 0 where
  pub pid : q.pid ≡ p.pid
  pub chan : q.chan ≡ p.chan
  pub state :
      (q.state ≡ p.state)
      ⊎ ((p.state ≡ sleeping) × (chan_eq p.chan c ≡ true) × (q.state ≡ runnable))

pub Woken-refl : (c : Chan) (p : Proc) → Woken c p p
Woken-refl c p = record { pid = refl; chan = refl; state = inl refl }

pub Woken-trans : (c : Chan) (p q r : Proc) → Woken c p q → Woken c q r → Woken c p r
Woken-trans c p q r f g = record {
  pid = g.pid ∙ f.pid;
  chan = g.chan ∙ f.chan;
  state = states f.state g.state;
}
  where
    states :
        (q.state ≡ p.state)
          ⊎ ((p.state ≡ sleeping) × (chan_eq p.chan c ≡ true) × (q.state ≡ runnable))
        → (r.state ≡ q.state)
          ⊎ ((q.state ≡ sleeping) × (chan_eq q.chan c ≡ true) × (r.state ≡ runnable))
        → (r.state ≡ p.state)
          ⊎ ((p.state ≡ sleeping) × (chan_eq p.chan c ≡ true) × (r.state ≡ runnable))
    states (inl a) (inl b) = inl (b ∙ a)
    states (inl a) (inr b) = inr (sym a ∙ b.0, rw (← f.chan) b.1, b.2)
    states (inr a) (inl b) = inr (a.0, a.1, b ∙ a.2)
    states (inr a) (inr b) = absurd (ground (arith, a.2, b.0))

pub wake-Woken : (c : Chan) (p : Proc) → Woken c p (wake c p)
wake-Woken c p = ground arith

pub Woken-runnable : (c : Chan) (p q : Proc) → Woken c p q → p.state ≡ runnable → q.state ≡ runnable
Woken-runnable c p q w e = ground (arith, w.state)

pub Woken-zombie : (c : Chan) (p q : Proc) → Woken c p q → p.state ≡ zombie → q.state ≡ zombie
Woken-zombie c p q w e = ground (arith, w.state)

module _ (cur : ℕ) (init : Option ℕ) where
  abbrev pub heir : Proc → Option ℕ
  heir p = if points_to p.parent cur then init else p.parent

  -- An entry `q` of a table that stood as `p` before, with the given parent.
  abbrev pub Entry : List Proc → ℕ → Proc → Option ℕ → Type 0
  Entry qs j p parent =
      (q : Proc) × (get_elem? qs j ≡ some q) × (q.parent ≡ parent) × Woken (chan_of init) p q

  pub pass_child_other :
      (i j : ℕ) (ps : List Proc) (p : Proc)
      → i ≢ j
      → get_elem? ps j ≡ some p
      → Entry (pass_child cur init i ps) j p p.parent
  unfolding pass_child
  pass_child_other i j ps p ne at =
      let c = chan_of init in
      let still : get_elem? (modify ps i (reparent init)) j ≡ some p =
        get_elem?-modify_ne ps i j (reparent init) ne ∙ at in
      elim (Bool-cases (is_child cur (get_elem? ps i))) [
        | inr other ↦ rw other (p, at, refl, Woken-refl c p)
        | inl mine ↦ rw mine (elim (Bool-cases (is_zombie_child cur (get_elem? ps i))) [
          | inr alive ↦ rw alive (p, still, refl, Woken-refl c p)
          | inl dead ↦
              rw dead (wake c p, rw (get_elem?-wakeup1, still), ground arith, wake-Woken c p)
        ])
      ]

  pub pass_child_self :
      (i : ℕ) (ps : List Proc) (p : Proc)
      → get_elem? ps i ≡ some p
      → Entry (pass_child cur init i ps) i p (heir p)
  unfolding pass_child
  pass_child_self i ps p at = rw at (
      let c = chan_of init in
      let q = reparent init p in
      let changed : get_elem? (modify ps i (reparent init)) i ≡ some q =
        get_elem?-modify_self ps i (reparent init) ∙ ap (Option.map (reparent init)) at in
      elim (Bool-cases (points_to p.parent cur)) [
        | inr other ↦ rw other (p, at, refl, Woken-refl c p)
        | inl mine ↦ rw mine (elim (Bool-cases (is_zombie p.state)) [
          | inr alive ↦
              rw alive (q, changed, refl, record { pid = refl; chan = refl; state = inl refl })
          | inl dead ↦
              rw dead (wake c q, rw (get_elem?-wakeup1, changed), ground arith, ground arith)
        ])
      ])

  -- Entries in front of the loop's position keep their parent.
  pass_children_before :
      (n i j : ℕ) (ps : List Proc) (p : Proc)
      → j < i
      → get_elem? ps j ≡ some p
      → Entry (pass_children cur init n i ps) j p p.parent
  unfolding pass_children
  pass_children_before zero i j ps p lt at = (p, at, refl, Woken-refl (chan_of init) p)
  pass_children_before (suc n) i j ps p lt at =
      let (q, qat, par, w) = pass_child_other i j ps p (omega arith) at in
      let (r, rat, par', w') =
        pass_children_before n (suc i) j (pass_child cur init i ps) q (omega arith) qat in
      (r, rat, par' ∙ par, Woken-trans (chan_of init) p q r w w')

  pub pass_children-Entry :
      (n i j : ℕ) (ps : List Proc) (p : Proc)
      → i ≤ j
      → j < i + n
      → get_elem? ps j ≡ some p
      → Entry (pass_children cur init n i ps) j p (heir p)
  unfolding pass_children
  pass_children-Entry zero i j ps p le lt at = absurd (omega arith)
  pass_children-Entry (suc n) i j ps p le lt at = elim (Bool-cases (i == j)) [
    | inl same ↦
        let e : i ≡ j = ground arith in
        let (q, qat, par, w) = pass_child_self j ps p at in
        let (r, rat, par', w') =
          pass_children_before n (suc j) j (pass_child cur init j ps) q (omega arith) qat in
        rw e (r, rat, par' ∙ par, Woken-trans (chan_of init) p q r w w')
    | inr other ↦
        let ne : i ≢ j = ground arith in
        let (q, qat, par, w) = pass_child_other i j ps p ne at in
        let (r, rat, par', w') =
          pass_children-Entry n (suc i) j (pass_child cur init i ps) q (omega arith) (omega arith)
            qat in
        (
          r,
          rat,
          par' ∙ ap (λ (o : Option ℕ). if points_to o cur then init else o) par,
          Woken-trans (chan_of init) p q r w w',
        )
  ]
