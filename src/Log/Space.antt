-- ===== src/Log/Space.antt =====
-- The space that begin_op reserves, and what log_write finds (Source Code/log.c).
use tugas_sistem_operasi.Base.{
  ℕ, suc, ◌+◌, ◌*◌, ◌≤◌, ◌<◌, ◌≡◌, ◌⊎◌, some, true, List, [], ◌∷◌, arith, length,
}
use tugas_sistem_operasi.Log.Disk.{Block, put}
use tugas_sistem_operasi.Log.Ops.{Log, max_op_blocks, log_size, begin_op, absorb, log_write}
use tugas_sistem_operasi.Log.Loops.{mem}

unfoldable pub sum : List ℕ → ℕ
sum [] = 0
sum (b ∷ bs) = b + sum bs

abbrev pub Within : List ℕ → Type 0
Within [] = Unit
Within (b ∷ bs) = (b ≤ max_op_blocks) × Within bs

sum-le : (bs : List ℕ) → Within bs → sum bs ≤ length bs * max_op_blocks
unfolding sum
sum-le [] w = omega arith
sum-le (b ∷ bs) w = omega (arith, w.0, sum-le bs w.1)

-- The operations that are outstanding, each with the number of blocks that it may still log:
-- the header and what is still to come fit into the log.
pub record Reserved (left : List ℕ) (l : Log) : Type 0 where
  pub count : l.outstanding ≡ length left
  pub each : Within left
  pub fits : length l.lh + sum left ≤ log_size

length-absorb : (b : ℕ) (bs : List ℕ) → length (absorb b bs) ≤ length bs + 1
unfolding absorb
length-absorb b [] = omega arith
length-absorb b (c ∷ cs) = ground (arith, length-absorb b cs)

pub mem-absorb : (a b : ℕ) (bs : List ℕ) → mem a (absorb b bs) ≡ true → (b ≡ a) ⊎ (mem a bs ≡ true)
unfolding absorb
mem-absorb a b [] h = ground arith
mem-absorb a b (c ∷ cs) h = ground (arith, mem-absorb a b cs)

-- begin_op, when it does not sleep, reserves max_op_blocks blocks for the operation.
pub begin_op-Reserved :
    (l m : Log) (left : List ℕ)
    → Reserved left l
    → begin_op l ≡ some m
    → Reserved (max_op_blocks ∷ left) m
unfolding begin_op sum
begin_op-Reserved l m left r e = ground (arith, r, sum-le left r.each)

-- An operation with space left can log a block, provided that the log on the disk has a block
-- for the header beside the log_size blocks, and uses up one of its blocks.
pub log_write-Reserved :
    (b n : ℕ) (v : Block) (l : Log) (rest : List ℕ)
    → Reserved (suc n ∷ rest) l
    → log_size < l.size
    → (m : Log) × (log_write b v l ≡ some m) × Reserved (n ∷ rest) m
unfolding log_write sum
log_write-Reserved b n v l rest r room = (
  record l {
    lh = absorb b l.lh;
    store = record (l.store) { dirty = put (l.store.dirty) b (some v) };
  },
  ground (arith, r),
  ground (arith, r, length-absorb b l.lh),
)
