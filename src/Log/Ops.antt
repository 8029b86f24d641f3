-- ===== src/Log/Ops.antt =====
-- begin_op, end_op, log_write and initlog (Source Code/log.c). The sections under log.lock are
-- steps; a call that sleeps on the log ends its step, and is made again after a wakeup.
use tugas_sistem_operasi.Base.{
  ℕ, ◌+◌, ◌-◌, ◌*◌, Option, none, some, Bool, true, false, ◌||◌, List, [], ◌∷◌, if◌then◌else◌, ◌==◌,
  ltb, leb, length,
}
use tugas_sistem_operasi.Log.Disk.{Block, Store, put}
use tugas_sistem_operasi.Log.Commit.{commit, recover_from_log}

abbrev pub max_op_blocks : ℕ
max_op_blocks = 10

abbrev pub log_size : ℕ
log_size = max_op_blocks * 3

pub record Log : Type 0 where
  pub start : ℕ
  pub size : ℕ
  pub outstanding : ℕ
  pub committing : Bool
  pub lh : List ℕ
  pub store : Store

-- After recovery the header is empty.
unfoldable pub initlog : (logstart nlog : ℕ) → Store → Log
unfolding recover_from_log
initlog logstart nlog s = record {
  start = logstart;
  size = nlog;
  outstanding = 0;
  committing = false;
  lh = [];
  store = recover_from_log logstart s;
}

-- One turn of begin_op's loop: the log with the operation counted, or `none` for a sleep.
unfoldable pub begin_op : Log → Option Log
begin_op l =
    if l.committing
    then none
    else if ltb log_size (length l.lh + (l.outstanding + 1) * max_op_blocks)
    then none
    else some (record l { outstanding = l.outstanding + 1 })

pub data Ended : Type 0 where
  panics : Ended
  -- Other operations are outstanding; a sleeper on the log is woken.
  goes_on : Log → Ended
  -- The count would be -1; no begin_op has let the operation start.
  unmatched : Ended
  -- The caller is to commit.
  commits : Log → Ended

-- The first section of end_op.
unfoldable pub end_op : Log → Ended
end_op l =
    let m = record l { outstanding = l.outstanding - 1 } in
    if l.committing
    then panics
    else if l.outstanding == 0
    then unmatched
    else if m.outstanding == 0
    then commits (record m { committing = true })
    else goes_on m

-- commit, with log.lh.n = 0 after it, and the second section of end_op.
unfoldable pub end_commit : Log → Log
unfolding commit
end_commit l = record l { store = commit l.start l.lh l.store; lh = []; committing = false }

-- The search for the block number in the header; it is added behind the last one otherwise.
unfoldable pub absorb : ℕ → List ℕ → List ℕ
absorb b [] = b ∷ []
absorb b (c ∷ cs) = let rest = absorb b cs in if c == b then c ∷ cs else c ∷ rest

-- The caller's data `v` of buffer `b` is pinned in the cache. `none` is a panic.
unfoldable pub log_write : ℕ → Block → Log → Option Log
unfolding absorb
log_write b v l =
    if leb log_size (length l.lh) || leb (l.size - 1) (length l.lh)
    then none
    else if ltb l.outstanding 1
    then none
    else some (record l {
      lh = absorb b l.lh;
      store = record (l.store) { dirty = put (l.store.dirty) b (some v) };
    })
