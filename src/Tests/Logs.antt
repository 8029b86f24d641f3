-- ===== src/Tests/Logs.antt =====
-- The theorems on the log at concrete disks.
use tugas_sistem_operasi.Base.{
  ℕ, zero, suc, ◌+◌, ◌<◌, ◌==◌, ◌≡◌, refl, ◌⊎◌, none, some, false, List, [], ◌∷◌, arith, replicate,
}
use tugas_sistem_operasi.Log.Disk.{Store, put, head_of}
use tugas_sistem_operasi.Log.Commit.{commit}
use tugas_sistem_operasi.Log.Ops.{Log, max_op_blocks, begin_op, log_write}
use tugas_sistem_operasi.Log.Loops.{mem}
use tugas_sistem_operasi.Log.Short.{log_writes, Distinct, log_write_short}
use tugas_sistem_operasi.Log.Crash.{updated, Clean, recover_once, recoveries}
use tugas_sistem_operasi.Log.Atomic.{Fits, contents, commit_atomic, commit_durable}
use tugas_sistem_operasi.Log.Space.{sum, Reserved, begin_op-Reserved, log_write-Reserved}

-- The log of five blocks starts at block 2; blocks 10 and 11 are changed in the cache. The machine
-- makes `power` more disk writes.
abbrev cached : ℕ → Store
cached power = record {
  disk = λ a. [];
  dirty = put (put (λ a. none) 10 (some (1 ∷ []))) 11 (some (2 ∷ []));
  power = power;
}

abbrev changed : List ℕ
changed = 10 ∷ 11 ∷ []

cached-Fits : (power : ℕ) → Fits 2 5 changed (cached power)
unfolding head_of
cached-Fits power = (λ a lo hi. ground arith, (ground arith, (ground arith, tt)), omega arith, refl)

-- The machine stops after four writes, and again after one write of the first recovery.
commit_atomic_example :
    let d = recover_once 2 9 (recoveries 2 (1 ∷ []) (commit 2 changed (cached 4)).disk) in
    Clean 2 5 (cached 4).disk d
    ⊎ Clean 2 5 (updated (cached 4).disk (contents (cached 4)) changed) d
commit_atomic_example =
    commit_atomic 2 5 (omega arith) changed (cached 4) (1 ∷ []) 9 (cached-Fits 4) (omega arith)

commit_durable_example :
    Clean 2 5
      (updated (cached 6).disk (contents (cached 6)) changed)
      (commit 2 changed (cached 6)).disk
commit_durable_example =
    commit_durable 2 5 (omega arith) changed (cached 6) (cached-Fits 6) (omega arith)

-- A log with `n` blocks in its header and the given number of operations.
abbrev log_of : ℕ → ℕ → ℕ → Log
log_of size n outstanding = record {
  start = 2;
  size = size;
  outstanding = outstanding;
  committing = false;
  lh = replicate n 10;
  store = cached 99;
}

begin_op-Reserved_example : Reserved (max_op_blocks ∷ 4 ∷ []) (log_of 31 6 2)
unfolding sum begin_op
begin_op-Reserved_example =
    begin_op-Reserved (log_of 31 6 1) (log_of 31 6 2) (4 ∷ []) (omega arith) refl

log_write-Reserved_example :
    (m : Log) × (log_write 12 (5 ∷ []) (log_of 31 6 1) ≡ some m) × Reserved (3 ∷ []) m
unfolding sum
log_write-Reserved_example =
    log_write-Reserved 12 3 (5 ∷ []) (log_of 31 6 1) [] (omega arith) (omega arith)

-- `n` blocks from `b` on.
abbrev blocks_from : (n b : ℕ) → List ℕ
blocks_from zero b = []
blocks_from (suc n) b = b ∷ blocks_from n (b + 1)

blocks_from-mem : (n b a : ℕ) → a < b → mem a (blocks_from n b) ≡ false
blocks_from-mem zero b a lt = refl
blocks_from-mem (suc n) b a lt =
    let rest = blocks_from-mem n (b + 1) a (omega arith) in
    let ne : (b == a) ≡ false = ground arith in rw (ne, rest) refl

blocks_from-Distinct : (n b : ℕ) → Distinct (blocks_from n b)
blocks_from-Distinct zero b = tt
blocks_from-Distinct (suc n) b =
    (blocks_from-mem n (b + 1) b (omega arith), blocks_from-Distinct n (b + 1))

log_write_short_example : log_writes (blocks_from 30 100) (λ b. b ∷ []) (log_of 30 0 3) ≡ none
unfolding begin_op
log_write_short_example =
    log_write_short (log_of 30 0 0) (log_of 30 0 1) (log_of 30 0 2) (log_of 30 0 3)
      (blocks_from 30 100) (λ b. b ∷ []) refl refl refl refl refl refl (blocks_from-Distinct 30 100)
