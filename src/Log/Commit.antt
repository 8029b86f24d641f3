-- ===== src/Log/Commit.antt =====
-- install_trans, read_head, write_head, recover_from_log, write_log and commit (Source Code/log.c).
-- The in-memory header, log.lh, is the list of its first n block numbers.
use tugas_sistem_operasi.Base.{ℕ, suc, ◌+◌, List, [], ◌∷◌}
use tugas_sistem_operasi.Log.Disk.{Store, bread, bwrite, head_of, put_head}

module _ (start : ℕ) where
  -- The loop of install_trans from `tail` on: log block to home block.
  unfoldable pub install_from : ℕ → List ℕ → Store → Store
  unfolding bread bwrite
  install_from tail [] s = s
  install_from tail (b ∷ bs) s =
      install_from (suc tail) bs (bwrite b (bread (start + tail + 1) s) s)

  unfoldable pub install_trans : List ℕ → Store → Store
  unfolding install_from
  install_trans bs s = install_from 0 bs s

  unfoldable pub read_head : Store → List ℕ
  unfolding bread head_of
  read_head s = head_of (bread start s)

  unfoldable pub write_head : List ℕ → Store → Store
  unfolding bread bwrite put_head
  write_head bs s = bwrite start (put_head bs (bread start s)) s

  unfoldable pub recover_from_log : Store → Store
  unfolding read_head install_trans write_head
  recover_from_log s = write_head [] (install_trans (read_head s) s)

  -- The loop of write_log from `tail` on: cached block to log block.
  unfoldable pub write_from : ℕ → List ℕ → Store → Store
  unfolding bread bwrite
  write_from tail [] s = s
  write_from tail (b ∷ bs) s = write_from (suc tail) bs (bwrite (start + tail + 1) (bread b s) s)

  unfoldable pub write_log : List ℕ → Store → Store
  unfolding write_from
  write_log bs s = write_from 0 bs s

  unfoldable pub commit : List ℕ → Store → Store
  commit [] s = s
  commit (b ∷ bs) s =
      let logged = write_log (b ∷ bs) s in
      let committed = write_head (b ∷ bs) logged in write_head [] (install_trans (b ∷ bs) committed)
