-- ===== src/Log/Crash.antt =====
-- A commit takes effect as a whole or not at all, wherever the machine stops during it and during
-- the recoveries that follow (Source Code/log.c).
use tugas_sistem_operasi.Base.{
  ℕ, suc, ◌+◌, ◌≤◌, ◌<◌, ◌≡◌, refl, ◌≢◌, ◌⊎◌, inl, inr, ap, ◌∙◌, none, true, List, [], ◌∷◌, arith,
  ◌==◌, if◌then◌else◌, length, Bool-cases,
}
use tugas_sistem_operasi.Log.Disk.{Block, Disk, Store, bread, bwrite, head_of, put_head}
use tugas_sistem_operasi.Log.Commit.{
  install_from, install_trans, read_head, write_head, recover_from_log,
}
use tugas_sistem_operasi.Log.Head.{head_of-put_head}
use tugas_sistem_operasi.Log.Loops.{
  mem, bwrite-power, bwrite-ne, bwrite-on, bwrite-off, Out, AllOut, CleanLog, Logged, Logged-same,
  install_from-power, install_from-log, install_from-either, install_from-all,
}

-- The contents after a transaction: `val` for its blocks, and `x` elsewhere.
abbrev pub updated : Disk → (ℕ → Block) → List ℕ → Disk
updated x val bs a = if mem a bs then val a else x a

-- The machine after a restart: no buffer is cached.
abbrev pub restart : ℕ → Disk → Store
restart power d = record { disk = d; dirty = λ b. none; power = power }

module _ (start : ℕ) where
  -- A recovery that stops after `power` disk writes, if it has not ended by then.
  pub recover_once : ℕ → Disk → Disk
  recover_once power d = (recover_from_log start (restart power d)).disk

  -- One recovery after another.
  unfoldable pub recoveries : List ℕ → Disk → Disk
  recoveries [] d = d
  recoveries (p ∷ ps) d = recoveries ps (recover_once p d)

module _ (start size : ℕ) where
  -- No transaction is in the log of `d`, which holds `x` outside of the log.
  pub record Clean (x d : Disk) : Type 0 where
    pub head : head_of (d start) ≡ []
    pub same : (a : ℕ) → Out start size a → d a ≡ x a

  -- The transaction is in the log of `d`, and some of its blocks may be at home already.
  pub record Committed (x : Disk) (val : ℕ → Block) (bs : List ℕ) (d : Disk) : Type 0 where
    pub head : head_of (d start) ≡ bs
    pub logged : Logged start size val 0 bs d
    pub home : (a : ℕ) → Out start size a → (d a ≡ x a) ⊎ ((mem a bs ≡ true) × (d a ≡ val a))

  module _ (room : 0 < size) where
    -- A block before (`p`) and after (`q`) an installation.
    home_either :
        (x : Disk) (val : ℕ → Block) (bs : List ℕ) (a : ℕ) (p q : Block)
        → (q ≡ p) ⊎ ((mem a bs ≡ true) × (q ≡ val a))
        → (p ≡ x a) ⊎ ((mem a bs ≡ true) × (p ≡ val a))
        → (q ≡ x a) ⊎ ((mem a bs ≡ true) × (q ≡ val a))
    home_either x val bs a p q (inr new) h = inr new
    home_either x val bs a p q (inl old) (inl h) = inl (old ∙ h)
    home_either x val bs a p q (inl old) (inr h) = inr (h.0, old ∙ h.1)

    home_done :
        (x : Disk) (val : ℕ → Block) (bs : List ℕ) (a : ℕ) (p q : Block)
        → (mem a bs ≡ true → q ≡ val a)
        → (q ≡ p) ⊎ ((mem a bs ≡ true) × (q ≡ val a))
        → (p ≡ x a) ⊎ ((mem a bs ≡ true) × (p ≡ val a))
        → q ≡ updated x val bs a
    home_done x val bs a p q all i h = elim (Bool-cases (mem a bs)) [
      | inl here ↦ rw here (all here)
      | inr gone ↦ rw gone (ground (arith, gone, i, h))
    ]

    pub start-ne : (a : ℕ) → Out start size a → start ≢ a
    start-ne a (inl lo) = omega arith
    start-ne a (inr hi) = omega arith

    write_head-Clean :
        (x : Disk) (s : Store) → Clean x s.disk → Clean x (write_head start [] s).disk
    unfolding write_head
    write_head-Clean x s c = record {
      head = elim (Bool-cases (s.power == 0)) [
        | inl off ↦ rw (bwrite-off start (put_head [] (bread start s)) s (ground arith)) c.head
        | inr on ↦
            ap head_of (bwrite-on start (put_head [] (bread start s)) s start (ground arith))
            ∙ ground (arith, head_of-put_head [] (bread start s))
      ];
      same = λ a o. bwrite-ne start (put_head [] (bread start s)) s a (start-ne a o) ∙ c.same a o;
    }

    -- Installing a committed transaction and clearing the header leaves it committed or done, and
    -- done when there is power for all the writes.
    pub finish :
        (x : Disk) (val : ℕ → Block) (bs : List ℕ) (s : Store)
        → CleanLog start size s
        → AllOut start size bs
        → length bs < size
        → Committed x val bs s.disk
        → let d = (write_head start [] (install_trans start bs s)).disk in
          (Committed x val bs d ⊎ Clean (updated x val bs) d)
          × (length bs < s.power → Clean (updated x val bs) d)
    unfolding install_trans write_head
    finish x val bs s c out fit h =
        let s1 = install_from start 0 bs s in
        let fit0 : 0 + length bs < size = omega arith in
        let v = put_head [] (bread start s1) in
        let power = install_from-power start size 0 bs s in
        let either = λ (a : ℕ). install_from-either start size val 0 bs s a c out fit0 h.logged in
        let log = λ (a : ℕ) (lo : start ≤ a) (hi : a < start + size).
          install_from-log start size 0 bs s a out lo hi in
        let done : length bs < s.power → Clean (updated x val bs) (bwrite start v s1).disk = λ on.
          record {
            head =
                ap head_of (bwrite-on start v s1 start (omega arith))
                ∙ ground (arith, head_of-put_head [] (bread start s1));
            same = λ a o.
                bwrite-ne start v s1 a (start-ne a o)
                ∙ home_done x val bs a _ _
                    (install_from-all start size val 0 bs s a c out fit0 h.logged (omega arith))
                    (either a) (h.home a o);
          } in
        (
          elim (Bool-cases (s1.power == 0)) [
            | inl off ↦ inl (
                rw (bwrite-off start v s1 (ground arith)) (record {
                  head = ap head_of (log start (omega arith) (omega arith)) ∙ h.head;
                  logged =
                      Logged-same start size val 0 bs s.disk s1.disk fit0
                        (λ a lo hi. log a (omega arith) hi) h.logged;
                  home = λ a o. home_either x val bs a _ _ (either a) (h.home a o);
                }))
            | inr on ↦ inr (done (ground (arith, power)))
          ],
          done,
        )

    CleanLog-restart : (power : ℕ) (d : Disk) → CleanLog start size (restart power d)
    CleanLog-restart power d a lo hi = refl

    pub recover_once-Clean :
        (x : Disk) (p : ℕ) (d : Disk) → Clean x d → Clean x (recover_once start p d)
    unfolding recover_once recover_from_log read_head install_trans install_from bread
    recover_once-Clean x p d c = rw c.head (write_head-Clean x (restart p d) c)

    pub recover_once-Committed :
        (x : Disk) (val : ℕ → Block) (bs : List ℕ) (p : ℕ) (d : Disk)
        → AllOut start size bs
        → length bs < size
        → Committed x val bs d
        → (Committed x val bs (recover_once start p d)
            ⊎ Clean (updated x val bs) (recover_once start p d))
          × (length bs < p → Clean (updated x val bs) (recover_once start p d))
    unfolding recover_once recover_from_log read_head bread
    recover_once-Committed x val bs p d out fit h =
        rw h.head (finish x val bs (restart p d) (CleanLog-restart p d) out fit h)

    -- With no power nothing on the disk changes any more.
    pub finish_off :
        (bs : List ℕ) (s : Store)
        → s.power ≡ 0
        → (a : ℕ) → (write_head start [] (install_trans start bs s)).disk a ≡ s.disk a
    unfolding write_head install_trans
    finish_off bs s off a =
        let s1 = install_from start 0 bs s in
        let off1 : s1.power ≡ 0 = omega (arith, install_from-power start size 0 bs s) in
        ap (λ (d : Disk). d a) (bwrite-off start (put_head [] (bread start s1)) s1 off1)
        ∙ install_off 0 bs s off
      where
        install_off :
            (tail : ℕ) (bs : List ℕ) (s : Store)
            → s.power ≡ 0
            → (install_from start tail bs s).disk a ≡ s.disk a
        install_off tail [] s off = refl
        install_off tail (b ∷ bs) s off =
            let v = bread (start + tail + 1) s in
            install_off (suc tail) bs (bwrite b v s) (omega (arith, bwrite-power b v s))
            ∙ ap (λ (d : Disk). d a) (bwrite-off b v s off)
