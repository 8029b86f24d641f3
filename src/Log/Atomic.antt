-- ===== src/Log/Atomic.antt =====
-- commit under a crash at any disk write, and the recoveries after it (Source Code/log.c).
use tugas_sistem_operasi.Base.{
  ℕ, ◌+◌, ◌*◌, ◌≤◌, ◌<◌, ◌≡◌, refl, ◌⊎◌, inl, inr, ap, ◌∙◌, List, [], ◌∷◌, arith, ◌==◌, length,
  Bool-cases,
}
use tugas_sistem_operasi.Log.Disk.{Block, Disk, Store, bread, bwrite, head_of, put_head}
use tugas_sistem_operasi.Log.Commit.{install_trans, write_head, write_from, write_log, commit}
use tugas_sistem_operasi.Log.Head.{head_of-put_head}
use tugas_sistem_operasi.Log.Loops.{
  bwrite-power, bwrite-ne, bwrite-on, bwrite-off, Out, AllOut, CleanLog, Logged-same,
  bwrite-CleanLog, write_from-power, write_from-ne, write_from-CleanLog, write_from-Logged,
}
use tugas_sistem_operasi.Log.Crash.{
  updated, Clean, Committed, finish, finish_off, recoveries, recover_once, recover_once-Clean,
  recover_once-Committed, start-ne,
}

-- The buffers' contents when the commit starts.
abbrev pub contents : Store → ℕ → Block
contents s b = bread b s

-- A transaction that log_write has let in, with an empty log on the disk.
abbrev pub Fits : ℕ → ℕ → List ℕ → Store → Type 0
Fits start size bs s =
    (CleanLog start size s)
    × (AllOut start size bs)
    × (length bs < size)
    × (head_of (s.disk start) ≡ [])

module _ (start size : ℕ) (room : 0 < size) where
  -- The three kinds of disk that a stop can leave: the old contents, the transaction in the log,
  -- the new contents.
  pub data Phase (x : Disk) (val : ℕ → Block) (bs : List ℕ) (d : Disk) : Type 0 where
    before : Clean start size x d → Phase x val bs d
    during : Committed start size x val bs d → Phase x val bs d
    after : Clean start size (updated x val bs) d → Phase x val bs d

  write_log-Clean :
      (bs : List ℕ) (s : Store)
      → Fits start size bs s
      → Clean start size s.disk (write_log start bs s).disk
  unfolding write_log
  write_log-Clean bs s (c, out, fit, head) = record {
    head = ap head_of (write_from-ne start size 0 bs s start (inl (omega arith))) ∙ head;
    same = λ a o. write_from-ne start size 0 bs s a (far a o);
  }
    where
      far : (a : ℕ) → Out start size a → (a ≤ start + 0) ⊎ (start + 0 + length bs < a)
      far a (inl lo) = inl (omega arith)
      far a (inr hi) = inr (omega arith)

  Clean-same : (x d e : Disk) → Clean start size x d → ((a : ℕ) → e a ≡ d a) → Clean start size x e
  Clean-same x d e c same = record {
    head = ap head_of (same start) ∙ c.head;
    same = λ a o. same a ∙ c.same a o;
  }

  write_head-Committed :
      (bs : List ℕ) (s : Store)
      → Fits start size bs s
      → length bs < s.power
      → Committed start size s.disk
          (contents s)
          bs
          (write_head start bs (write_log start bs s)).disk
  unfolding write_head write_log
  write_head-Committed bs s (c, out, fit, head) on =
      let s1 = write_from start 0 bs s in
      let v = put_head bs (bread start s1) in
      let on1 : 0 < s1.power = omega (arith, write_from-power start size 0 bs s) in
      let log =
        write_from-Logged start size (contents s) 0 bs s (λ b o. refl) out (omega arith)
          (omega arith) in
      let old = write_log-Clean bs s (c, out, fit, head) in
      record {
        head =
            ap head_of (bwrite-on start v s1 start on1)
            ∙ ground (arith, head_of-put_head bs (bread start s1));
        logged =
            Logged-same start size (contents s) 0 bs s1.disk (bwrite start v s1).disk (omega arith)
              (λ a lo hi. bwrite-ne start v s1 a (omega arith)) log;
        home = λ a o. inl (
            bwrite-ne start v s1 a (start-ne start size room a o)
            ∙ (unfold write_log in old.same a o));
      }

  commit_blocks :
      (bs : List ℕ) (s : Store)
      → Fits start size bs s
      → let d =
          (write_head start []
            (install_trans start bs (write_head start bs (write_log start bs s)))).disk in
        Phase s.disk (contents s) bs d
        × (2 * length bs + 1 < s.power → Clean start size (updated s.disk (contents s) bs) d)
  unfolding write_head write_log
  commit_blocks bs s (c, out, fit, head) =
      let s1 = write_from start 0 bs s in
      let v = put_head bs (bread start s1) in
      let s2 = bwrite start v s1 in
      let power = write_from-power start size 0 bs s in
      let clean = bwrite-CleanLog start size start v s1 (write_from-CleanLog start size 0 bs s c) in
      elim (Bool-cases (s1.power == 0)) [
        | inl off ↦
            let off1 : s1.power ≡ 0 = ground arith in
            let off2 : s2.power ≡ 0 = omega (arith, bwrite-power start v s1) in
            (
              before (
                  Clean-same s.disk s1.disk _ (write_log-Clean bs s (c, out, fit, head)) (λ a.
                    finish_off start size room bs s2 off2 a
                    ∙ ap (λ (d : Disk). d a) (bwrite-off start v s1 off1))),
              λ on. absurd (omega (arith, on)),
            )
        | inr on ↦
            let enough : length bs < s.power = ground (arith, power) in
            let (either, done) =
              finish start size room s.disk (contents s) bs s2 clean out fit
                (write_head-Committed bs s (c, out, fit, head) enough) in
            (phase either, λ all. done (omega (arith, bwrite-power start v s1)))
      ]
    where
      phase :
          {d : Disk}
          → Committed start size s.disk (contents s) bs d
            ⊎ Clean start size (updated s.disk (contents s) bs) d
          → Phase s.disk (contents s) bs d
      phase (inl h) = during h
      phase (inr h) = after h

  commit-Phase :
      (bs : List ℕ) (s : Store)
      → Fits start size bs s
      → Phase s.disk (contents s) bs (commit start bs s).disk
        × (2 * length bs + 1 < s.power
            → Clean start size (updated s.disk (contents s) bs) (commit start bs s).disk)
  unfolding commit
  commit-Phase [] s (c, out, fit, head) = (
    before (record { head = head; same = λ a o. refl }),
    λ on. record { head = head; same = λ a o. refl },
  )
  commit-Phase (b ∷ r) s f = commit_blocks (b ∷ r) s f

  recover_once-Phase :
      (x : Disk) (val : ℕ → Block) (bs : List ℕ) (p : ℕ) (d : Disk)
      → AllOut start size bs
      → length bs < size
      → Phase x val bs d
      → Phase x val bs (recover_once start p d)
  recover_once-Phase x val bs p d out fit (before c) =
      before (recover_once-Clean start size room x p d c)
  recover_once-Phase x val bs p d out fit (after c) =
      after (recover_once-Clean start size room (updated x val bs) p d c)
  recover_once-Phase x val bs p d out fit (during c) =
      elim (recover_once-Committed start size room x val bs p d out fit c).0 [
        | inl h ↦ during h
        | inr h ↦ after h
      ]

  recoveries-Phase :
      (x : Disk) (val : ℕ → Block) (bs ps : List ℕ) (d : Disk)
      → AllOut start size bs
      → length bs < size
      → Phase x val bs d
      → Phase x val bs (recoveries start ps d)
  unfolding recoveries
  recoveries-Phase x val bs [] d out fit h = h
  recoveries-Phase x val bs (p ∷ ps) d out fit h =
      recoveries-Phase x val bs ps (recover_once start p d) out fit
        (recover_once-Phase x val bs p d out fit h)

  -- A recovery with power for its writes ends with the old or the new contents.
  settle :
      (x : Disk) (val : ℕ → Block) (bs : List ℕ) (p : ℕ) (d : Disk)
      → AllOut start size bs
      → length bs < size
      → length bs < p
      → Phase x val bs d
      → Clean start size x (recover_once start p d)
        ⊎ Clean start size (updated x val bs) (recover_once start p d)
  settle x val bs p d out fit on (before c) = inl (recover_once-Clean start size room x p d c)
  settle x val bs p d out fit on (after c) =
      inr (recover_once-Clean start size room (updated x val bs) p d c)
  settle x val bs p d out fit on (during c) =
      inr ((recover_once-Committed start size room x val bs p d out fit c).1 on)

  -- A commit is atomic: wherever the machine stops during the commit, and in each of any number of
  -- recoveries after it, a recovery that then runs to its end leaves an empty log and, outside of
  -- the log, either every block as before or every block of the transaction with its new contents
  -- and all others as before.
  pub commit_atomic :
      (bs : List ℕ) (s : Store) (stops : List ℕ) (power : ℕ)
      → Fits start size bs s
      → size ≤ power
      → let d = recover_once start power (recoveries start stops (commit start bs s).disk) in
        Clean start size s.disk d ⊎ Clean start size (updated s.disk (contents s) bs) d
  commit_atomic bs s stops power f on =
      settle s.disk (contents s) bs power _ f.1 f.2 (omega arith)
        (recoveries-Phase s.disk (contents s) bs stops _ f.1 f.2 (commit-Phase bs s f).0)

  -- A commit that is not interrupted takes effect. Let the log on the disk be empty, the
  -- transaction's blocks lie outside the log and fit into it, and no log block be dirty in the
  -- cache: with power for its 2n + 2 disk writes, the commit ends with an empty log and the new
  -- contents on the disk, all other blocks outside the log being as before.
  pub commit_durable :
      (bs : List ℕ) (s : Store)
      → Fits start size bs s
      → 2 * length bs + 2 ≤ s.power
      → Clean start size (updated s.disk (contents s) bs) (commit start bs s).disk
  commit_durable bs s f on = (commit-Phase bs s f).1 (omega arith)
