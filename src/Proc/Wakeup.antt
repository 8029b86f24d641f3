-- ===== src/Proc/Wakeup.antt =====
-- What wakeup and kill do to the entries of the table, and that no wakeup is lost.
use tugas_sistem_operasi.Base.{
  ℕ, zero, suc, ◌≡◌, refl, ◌≢◌, inl, inr, none, some, true, List, [], ◌∷◌, map, arith, ◌==◌,
  get_elem?, length, modify, get_elem?-map, length-map, ==_refl, Bool-cases, Option-cases,
}
use mathlib.Core.Option
use tugas_sistem_operasi.Proc.State.{Chan, null, proc, addr, chan_eq, Proc}
use tugas_sistem_operasi.Proc.Sleep.{wake, wakeup1, kill_mark, kill_scan}

pub wakeup1-map : (c : Chan) (ps : List Proc) → wakeup1 c ps ≡ map (wake c) ps
unfolding wakeup1
wakeup1-map c [] = refl
wakeup1-map c (p ∷ ps) = rw (wakeup1-map c ps)

pub length-wakeup1 : (c : Chan) (ps : List Proc) → length (wakeup1 c ps) ≡ length ps
length-wakeup1 c ps = rw (wakeup1-map c ps) (length-map ps (wake c))

pub get_elem?-wakeup1 :
    (c : Chan) (ps : List Proc) (i : ℕ)
    → get_elem? (wakeup1 c ps) i ≡ Option.map (wake c) (get_elem? ps i)
get_elem?-wakeup1 c ps i = rw (wakeup1-map c ps) (get_elem?-map ps (wake c) i)

pub chan_eq_refl : (c : Chan) → chan_eq c c ≡ true
chan_eq_refl null = refl
chan_eq_refl (proc p) = ==_refl p
chan_eq_refl (addr p) = ==_refl p

-- The entry that kill marks is the first with the pid.
pub kill_scan-found :
    (pid : ℕ) (ps : List Proc) {qs : List Proc}
    → kill_scan pid ps ≡ some qs
    → (i : ℕ) × (p : Proc) × (get_elem? ps i ≡ some p)
      × (p.pid ≡ pid)
      × (qs ≡ modify ps i kill_mark)
unfolding kill_scan
kill_scan-found pid [] e = absurd (cc)
kill_scan-found pid (p ∷ ps) e = elim (Bool-cases (p.pid == pid)) [
  | inl hit ↦ (0, p, refl, ground arith, ground arith)
  | inr miss ↦ elim (Option-cases (kill_scan pid ps)) [
    | inl no_entry ↦ absurd (ground arith)
    | inr (rs, found) ↦
        let (i, q, eq, same, shape) = kill_scan-found pid ps found in
        (suc i, q, eq, same, ground arith)
  ]
]

pub kill_scan-missing :
    (pid : ℕ) (ps : List Proc)
    → kill_scan pid ps ≡ none
    → (i : ℕ) (p : Proc) → get_elem? ps i ≡ some p
    → p.pid ≢ pid
unfolding kill_scan
kill_scan-missing pid [] e i p at = absurd (cc)
kill_scan-missing pid (q ∷ ps) e zero p at = ground arith
kill_scan-missing pid (q ∷ ps) e (suc i) p at = kill_scan-missing pid ps (ground arith) i p at
