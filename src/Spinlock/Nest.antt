-- ===== src/Spinlock/Nest.antt =====
-- pushcli and popcli match, and acquire and release with them.
use tugas_sistem_operasi.Base.{
  ℕ, ◌-◌, ◌≡◌, refl, ◌∙◌, ap, sym, ◌⊎◌, inl, inr, Option, none, some, Bool, true, false, ◌&&◌,
  arith, if◌then◌else◌, ◌==◌, ==_refl, Bool-cases,
}
use tugas_sistem_operasi.Spinlock.{
  Cpu, Spinlock, pushcli, popcli, holding, is_cpu, acquired, acquire, unlock, release,
}

-- Inside a section interrupts are off.
abbrev pub Consistent : Cpu → Type 0
Consistent c = (c.ncli ≡ 0) ⊎ (c.iflag ≡ false)

-- Interrupts, the depth, and what a section has saved are the same.
abbrev pub Same : Cpu → Cpu → Type 0
Same c d = (d.iflag ≡ c.iflag) × (d.ncli ≡ c.ncli) × ((c.ncli ≡ 0) ⊎ (d.intena ≡ c.intena))

-- A popcli after a pushcli and anything that leaves the processor the same.
pub popcli-pushcli :
    (c e : Cpu) → Consistent c → Same (pushcli c) e → (d : Cpu) × (popcli e ≡ some d) × Same c d
unfolding popcli pushcli
popcli-pushcli c e ok (off, depth, kept) =
    let saved : e.intena ≡ (if c.ncli == 0 then c.iflag else c.intena) = elim kept [
      | inl z ↦ absurd (omega arith)
      | inr k ↦ k
    ] in
    let more : (e.ncli == 0) ≡ false = ground arith in
    let back : e.ncli - 1 ≡ c.ncli = omega arith in
    elim (Bool-cases ((e.ncli - 1 == 0) && e.intena)) [
      | inl on ↦ (
        record e { ncli = e.ncli - 1; iflag = true },
        rw (off, popcli) (rw more (rw on refl)),
        (ground arith, back, ground arith),
      )
      | inr stay ↦ (
        record e { ncli = e.ncli - 1 },
        rw (off, popcli) (rw more (rw stay refl)),
        (ground arith, back, ground arith),
      )
    ]

-- Sections one after the other, with sections inside them.
pub data Nesting : Type 0 where
  done : Nesting
  section : (inside behind : Nesting) → Nesting

abbrev pub then_run : (Cpu → Option Cpu) → Option Cpu → Option Cpu
then_run f none = none
then_run f (some c) = f c

unfoldable pub run : Nesting → Cpu → Option Cpu
run done c = some c
run (section inside behind) c =
    then_run (λ e. then_run (run behind) (popcli e)) (run inside (pushcli c))

push-Consistent : (c : Cpu) → Consistent (pushcli c)
unfolding pushcli
push-Consistent c = inr refl

Same-Consistent : (c d : Cpu) → Same c d → Consistent c → Consistent d
Same-Consistent c d (flag, depth, kept) (inl z) = inl (depth ∙ z)
Same-Consistent c d (flag, depth, kept) (inr off) = inr (flag ∙ off)

Same-compose : (c d e : Cpu) → Same c d → Same d e → Same c e
Same-compose c d e (flag, depth, kept) (flag2, depth2, kept2) =
    (flag2 ∙ flag, depth2 ∙ depth, both kept kept2)
  where
    both :
        (c.ncli ≡ 0) ⊎ (d.intena ≡ c.intena)
        → (d.ncli ≡ 0) ⊎ (e.intena ≡ d.intena)
        → (c.ncli ≡ 0) ⊎ (e.intena ≡ c.intena)
    both (inl z) other = inl z
    both (inr k) (inl z) = inl (sym depth ∙ z)
    both (inr k) (inr k2) = inr (k2 ∙ k)

-- However pushcli and popcli are nested, as long as they match, none of them panics, and in the end
-- interrupts are on exactly if they were on at first, at the same depth.
pub run-Same : (n : Nesting) (c : Cpu) → Consistent c → (d : Cpu) × (run n c ≡ some d) × Same c d
unfolding run
run-Same done c ok = (c, refl, (refl, refl, inr refl))
run-Same (section inside behind) c ok =
    let (e, ran, same) = run-Same inside (pushcli c) (push-Consistent c) in
    let (d, popped, here) = popcli-pushcli c e ok same in
    let (f, rest, last) = run-Same behind d (Same-Consistent c d here ok) in
    (f, rw (ran, run) (rw popped rest), Same-compose c d f here last)

holding_lem :
    (me : ℕ) (lk : Spinlock) (c : Cpu)
    → Consistent c
    → (d : Cpu) × (holding me lk c ≡ some (lk.locked && is_cpu me lk.cpu, d)) × Same c d
unfolding holding
holding_lem me lk c ok =
    let (d, popped, same) = popcli-pushcli c (pushcli c) ok (refl, refl, inr refl) in
    (d, rw (popped, holding) refl, same)

abbrev pub free : Spinlock
free = record { locked = false; cpu = none }

abbrev pub mine : ℕ → Spinlock
mine me = record { locked = true; cpu = some me }

release-mine :
    (me : ℕ) (f g d : Cpu)
    → holding me (mine me) f ≡ some (true && (me == me), g)
    → popcli g ≡ some d
    → release me (mine me) f ≡ some (free, d)
unfolding release
release-mine me f g d held popped =
    ap (unlock (mine me)) (held ∙ ap (λ (b : Bool). some (b, g)) (==_refl me))
    ∙ rw (popped, unlock) refl

-- A free lock is acquired at the first exchange; a release after that, with the processor as
-- acquire or nested sections left it, frees the lock and restores the interrupts and the depth.
pub release-acquire :
    (me : ℕ) (n : Nesting) (c : Cpu)
    → Consistent c
    → (e f d : Cpu) × (acquire me free c ≡ acquired (mine me) e)
      × (run n e ≡ some f)
      × (release me (mine me) f ≡ some (free, d))
      × Same c d
unfolding acquire release
release-acquire me n c ok =
    let (e, held, same) = holding_lem me free (pushcli c) (push-Consistent c) in
    let oke = Same-Consistent (pushcli c) e same (push-Consistent c) in
    let (f, ran, same2) = run-Same n e oke in
    let (g, held2, same3) = holding_lem me (mine me) f (Same-Consistent e f same2 oke) in
    let inner = Same-compose (pushcli c) e g same (Same-compose e f g same2 same3) in
    let (d, popped, back) = popcli-pushcli c g ok inner in
    (e, f, d, rw (held, acquire) refl, ran, release-mine me f g d held2 popped, back)
