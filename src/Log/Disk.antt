-- ===== src/Log/Disk.antt =====
-- The disk below log.c: bread and bwrite (Source Code/bio.c) as far as log.c uses them. A block is
-- a list of words. A clean buffer holds what the disk holds, so only the data of dirty buffers is
-- kept beside the disk. `power` is the number of disk writes until the machine stops: a write
-- without power changes nothing, so the disk of a run is the one that a crash leaves.
use tugas_sistem_operasi.Base.{
  ℕ, suc, ◌-◌, Option, none, some, List, [], ◌∷◌, ◌++◌, if◌then◌else◌, ◌==◌, length, take, drop,
}

abbrev pub Block : Type 0
Block = List ℕ

abbrev pub Disk : Type 0
Disk = ℕ → Block

abbrev pub put : {A : Type 0} → (ℕ → A) → ℕ → A → ℕ → A
put d b v a = if b == a then v else d a

pub record Store : Type 0 where
  pub disk : Disk
  pub dirty : ℕ → Option Block
  pub power : ℕ

abbrev pub data_of : Option Block → Block → Block
data_of none b = b
data_of (some v) b = v

-- The data of the buffer for block `b`.
unfoldable pub bread : ℕ → Store → Block
bread b s = data_of (s.dirty b) (s.disk b)

-- iderw writes the buffer and clears B_DIRTY.
unfoldable pub bwrite : ℕ → Block → Store → Store
bwrite b v s = record s {
  disk = if s.power == 0 then s.disk else put s.disk b v;
  dirty = put s.dirty b none;
  power = s.power - 1;
}

-- The struct logheader at the start of a block: the count n and the block numbers. log_write keeps n
-- below LOGSIZE, so that the header stays inside of its array and of the block.
unfoldable pub head_of : Block → List ℕ
head_of [] = []
head_of (n ∷ bs) = take n bs

unfoldable pub put_head : List ℕ → Block → Block
put_head hs b = length hs ∷ (hs ++ drop (suc (length hs)) b)
