-- ===== src/Spinlock.antt =====
-- Spin locks (Source Code/spinlock.c) as one processor runs their functions. The stack of callers
-- that a lock records for debugging is left out.
pub mod Nest
use tugas_sistem_operasi.Base.{
  ℕ, zero, suc, ◌+◌, ◌-◌, Option, none, some, Bool, true, false, ◌&&◌, List, [], ◌∷◌, if◌then◌else◌,
  ◌==◌,
}

-- The interrupt flag of the processor, and the fields of struct cpu that pushcli keeps.
pub record Cpu : Type 0 where
  pub iflag : Bool
  pub ncli : ℕ
  pub intena : Bool

-- `cpu` is the index of the processor that holds the lock.
pub record Spinlock : Type 0 where
  pub locked : Bool
  pub cpu : Option ℕ

unfoldable pub pushcli : Cpu → Cpu
pushcli c = record {
  iflag = false;
  ncli = c.ncli + 1;
  intena = if c.ncli == 0 then c.iflag else c.intena;
}

-- `none` is a panic; --ncli < 0 is ncli being 0 before.
unfoldable pub popcli : Cpu → Option Cpu
popcli c =
    let d = record c { ncli = c.ncli - 1 } in
    if c.iflag
    then none
    else if c.ncli == 0
    then none
    else some (if (d.ncli == 0) && d.intena then record d { iflag = true } else d)

abbrev pub is_cpu : ℕ → Option ℕ → Bool
is_cpu me none = false
is_cpu me (some c) = c == me

-- `me` is the index of the processor.
unfoldable pub holding : ℕ → Spinlock → Cpu → Option (Bool × Cpu)
unfolding pushcli popcli
holding me lk c =
    let r = lk.locked && is_cpu me lk.cpu in
    elim (popcli (pushcli c)) [ none ↦ none | some d ↦ some (r, d) ]

pub data Acquire : Type 0 where
  panics : Acquire
  -- The exchange has found the lock taken; it is tried again.
  spins : Cpu → Acquire
  acquired : Spinlock → Cpu → Acquire

abbrev pub exchange : ℕ → Spinlock → Option (Bool × Cpu) → Acquire
exchange me lk none = panics
exchange me lk (some (true, c)) = panics
exchange me lk (some (false, c)) =
    if lk.locked then spins c else acquired (record { locked = true; cpu = some me }) c

-- acquire up to its first exchange.
unfoldable pub acquire : ℕ → Spinlock → Cpu → Acquire
unfolding holding pushcli
acquire me lk c = exchange me lk (holding me lk (pushcli c))

abbrev pub unlock : Spinlock → Option (Bool × Cpu) → Option (Spinlock × Cpu)
unlock lk none = none
unlock lk (some (false, c)) = none
unlock lk (some (true, c)) = elim (popcli c) [
  | none ↦ none
  | some d ↦ some (record { locked = false; cpu = none }, d)
]

-- `none` is a panic.
unfoldable pub release : ℕ → Spinlock → Cpu → Option (Spinlock × Cpu)
unfolding holding popcli
release me lk c = unlock lk (holding me lk c)
