-- ===== src/Log/Loops.antt =====
-- The loops of write_log and install_trans on a machine that may stop at any disk write.
use tugas_sistem_operasi.Base.{
  ℕ, suc, ◌+◌, ◌-◌, ◌≤◌, ◌<◌, ◌≡◌, refl, ◌≢◌, ◌⊎◌, inl, inr, ap, ◌∙◌, none, Bool, true, false, ◌||◌,
  List, [], ◌∷◌, arith, ◌==◌, length, Bool-cases,
}
use tugas_sistem_operasi.Log.Disk.{Block, Disk, Store, put, bread, bwrite}
use tugas_sistem_operasi.Log.Commit.{install_from, write_from}

abbrev pub mem : ℕ → List ℕ → Bool
mem a [] = false
mem a (b ∷ bs) = (b == a) || mem a bs

-- One write, with and without power.
pub bwrite-power : (b : ℕ) (v : Block) (s : Store) → (bwrite b v s).power ≡ s.power - 1
unfolding bwrite
bwrite-power b v s = refl

pub bwrite-ne : (b : ℕ) (v : Block) (s : Store) (a : ℕ) → b ≢ a → (bwrite b v s).disk a ≡ s.disk a
unfolding bwrite
bwrite-ne b v s a ne = ground arith

pub bwrite-on :
    (b : ℕ) (v : Block) (s : Store) (a : ℕ) → 0 < s.power → (bwrite b v s).disk a ≡ put s.disk b v a
unfolding bwrite
bwrite-on b v s a on = ground arith

pub bwrite-off : (b : ℕ) (v : Block) (s : Store) → s.power ≡ 0 → (bwrite b v s).disk ≡ s.disk
unfolding bwrite
bwrite-off b v s off = rw off

pub bwrite-either :
    (b : ℕ) (v : Block) (s : Store) (a : ℕ)
    → ((bwrite b v s).disk a ≡ s.disk a) ⊎ ((b ≡ a) × ((bwrite b v s).disk a ≡ v))
unfolding bwrite
bwrite-either b v s a = ground arith

module _ (start size : ℕ) where
  -- A block that is not part of the log.
  abbrev pub Out : ℕ → Type 0
  Out a = (a < start) ⊎ (start + size ≤ a)

  abbrev pub AllOut : List ℕ → Type 0
  AllOut [] = Unit
  AllOut (b ∷ bs) = Out b × AllOut bs

  -- The log's own blocks are not dirty in the cache.
  abbrev pub CleanLog : Store → Type 0
  CleanLog s = (a : ℕ) → start ≤ a → a < start + size → s.dirty a ≡ none

  -- From `tail` on, the log on `d` holds the contents `val` of the blocks.
  abbrev pub Logged : (ℕ → Block) → ℕ → List ℕ → Disk → Type 0
  Logged val tail [] d = Unit
  Logged val tail (b ∷ bs) d = (d (start + tail + 1) ≡ val b) × Logged val (suc tail) bs d

  pub Logged-same :
      (val : ℕ → Block) (tail : ℕ) (bs : List ℕ) (d e : Disk)
      → tail + length bs < size
      → ((a : ℕ) → start + tail < a → a < start + size → e a ≡ d a)
      → Logged val tail bs d
      → Logged val tail bs e
  Logged-same val tail [] d e fit same h = h
  Logged-same val tail (b ∷ bs) d e fit same h = (
    same (start + tail + 1) (omega arith) (omega arith) ∙ h.0,
    Logged-same val (suc tail) bs d e (omega arith) (λ a lo hi. same a (omega arith) hi) h.1,
  )

  pub bwrite-CleanLog : (b : ℕ) (v : Block) (s : Store) → CleanLog s → CleanLog (bwrite b v s)
  unfolding bwrite
  bwrite-CleanLog b v s c a lo hi = ground (arith, c a lo hi)

  pub write_from-power :
      (tail : ℕ) (bs : List ℕ) (s : Store)
      → (write_from start tail bs s).power ≡ s.power - length bs
  unfolding write_from
  write_from-power tail [] s = omega arith
  write_from-power tail (b ∷ bs) s = omega (
    arith,
    write_from-power (suc tail) bs (bwrite (start + tail + 1) (bread b s) s),
    bwrite-power (start + tail + 1) (bread b s) s,
  )

  -- write_log writes only its own log blocks.
  pub write_from-ne :
      (tail : ℕ) (bs : List ℕ) (s : Store) (a : ℕ)
      → (a ≤ start + tail) ⊎ (start + tail + length bs < a)
      → (write_from start tail bs s).disk a ≡ s.disk a
  unfolding write_from
  write_from-ne tail [] s a far = refl
  write_from-ne tail (b ∷ bs) s a far =
      write_from-ne (suc tail) bs (bwrite (start + tail + 1) (bread b s) s) a (ground arith)
      ∙ bwrite-ne (start + tail + 1) (bread b s) s a (ground arith)

  pub write_from-CleanLog :
      (tail : ℕ) (bs : List ℕ) (s : Store) → CleanLog s → CleanLog (write_from start tail bs s)
  unfolding write_from
  write_from-CleanLog tail [] s c = c
  write_from-CleanLog tail (b ∷ bs) s c =
      write_from-CleanLog (suc tail) bs (bwrite (start + tail + 1) (bread b s) s)
        (bwrite-CleanLog (start + tail + 1) (bread b s) s c)

  bread-bwrite :
      (l : ℕ) (v : Block) (s : Store) (b : ℕ) → l ≢ b → bread b (bwrite l v s) ≡ bread b s
  unfolding bread bwrite
  bread-bwrite l v s b ne = ground arith

  -- With power for all its writes, write_log leaves the buffers' contents in the log.
  pub write_from-Logged :
      (val : ℕ → Block) (tail : ℕ) (bs : List ℕ) (s : Store)
      → ((b : ℕ) → Out b → bread b s ≡ val b)
      → AllOut bs
      → tail + length bs < size
      → length bs ≤ s.power
      → Logged val tail bs (write_from start tail bs s).disk
  unfolding write_from
  write_from-Logged val tail [] s vals out fit on = tt
  write_from-Logged val tail (b ∷ bs) s vals out fit on =
      let l = start + tail + 1 in
      let s1 = bwrite l (bread b s) s in
      (
        write_from-ne (suc tail) bs s1 l (inl (omega arith))
            ∙ bwrite-on l (bread b s) s l (omega arith)
            ∙ ground (arith, vals b out.0),
        write_from-Logged val (suc tail) bs s1
            (λ c o. bread-bwrite l (bread b s) s c (ground arith) ∙ vals c o) out.1 (omega arith)
            (omega (arith, bwrite-power l (bread b s) s)),
      )

  pub install_from-power :
      (tail : ℕ) (bs : List ℕ) (s : Store)
      → (install_from start tail bs s).power ≡ s.power - length bs
  unfolding install_from
  install_from-power tail [] s = omega arith
  install_from-power tail (b ∷ bs) s =
      let v = bread (start + tail + 1) s in
      omega (arith, install_from-power (suc tail) bs (bwrite b v s), bwrite-power b v s)

  pub install_from-CleanLog :
      (tail : ℕ) (bs : List ℕ) (s : Store) → CleanLog s → CleanLog (install_from start tail bs s)
  unfolding install_from
  install_from-CleanLog tail [] s c = c
  install_from-CleanLog tail (b ∷ bs) s c =
      let v = bread (start + tail + 1) s in
      install_from-CleanLog (suc tail) bs (bwrite b v s) (bwrite-CleanLog b v s c)

  -- install_trans leaves the log alone.
  pub install_from-log :
      (tail : ℕ) (bs : List ℕ) (s : Store) (a : ℕ)
      → AllOut bs
      → start ≤ a
      → a < start + size
      → (install_from start tail bs s).disk a ≡ s.disk a
  unfolding install_from
  install_from-log tail [] s a out lo hi = refl
  install_from-log tail (b ∷ bs) s a out lo hi =
      let v = bread (start + tail + 1) s in
      install_from-log (suc tail) bs (bwrite b v s) a out.1 lo hi ∙ bwrite-ne b v s a (ground arith)

  log_data :
      (val : ℕ → Block) (l b : ℕ) (s : Store)
      → CleanLog s
      → start ≤ l
      → l < start + size
      → s.disk l ≡ val b
      → bread l s ≡ val b
  unfolding bread
  log_data val l b s c lo hi e = rw (c l lo hi) e

  Logged-bwrite :
      (val : ℕ → Block) (tail : ℕ) (bs : List ℕ) (b : ℕ) (v : Block) (s : Store)
      → Out b
      → tail + length bs < size
      → Logged val tail bs s.disk
      → Logged val tail bs (bwrite b v s).disk
  Logged-bwrite val tail bs b v s out fit h =
      Logged-same val tail bs s.disk (bwrite b v s).disk fit
        (λ a lo hi. bwrite-ne b v s a (ground arith)) h

  -- Each block is as before, or is one of the header's and has its logged contents.
  pub install_from-either :
      (val : ℕ → Block) (tail : ℕ) (bs : List ℕ) (s : Store) (a : ℕ)
      → CleanLog s
      → AllOut bs
      → tail + length bs < size
      → Logged val tail bs s.disk
      → ((install_from start tail bs s).disk a ≡ s.disk a)
        ⊎ ((mem a bs ≡ true) × ((install_from start tail bs s).disk a ≡ val a))
  unfolding install_from
  install_from-either val tail [] s a c out fit h = inl refl
  install_from-either val tail (b ∷ bs) s a c out fit h =
      let v = bread (start + tail + 1) s in
      let is : v ≡ val b = log_data val (start + tail + 1) b s c (omega arith) (omega arith) h.0 in
      elim (install_from-either val (suc tail) bs (bwrite b v s) a (bwrite-CleanLog b v s c) out.1
        (omega arith) (Logged-bwrite val (suc tail) bs b v s out.0 (omega arith) h.1)) [
          | inr (m, e) ↦ inr (ground arith, e)
          | inl e ↦ elim (bwrite-either b v s a) [
            | inl old ↦ inl (e ∙ old)
            | inr (ba, now) ↦ inr (ground arith, e ∙ now ∙ is ∙ ap val ba)
          ]
        ]

  -- With power for all its writes, install_trans leaves every logged block at home.
  pub install_from-all :
      (val : ℕ → Block) (tail : ℕ) (bs : List ℕ) (s : Store) (a : ℕ)
      → CleanLog s
      → AllOut bs
      → tail + length bs < size
      → Logged val tail bs s.disk
      → length bs ≤ s.power
      → mem a bs ≡ true
      → (install_from start tail bs s).disk a ≡ val a
  unfolding install_from
  install_from-all val tail [] s a c out fit h on m = absurd (cc)
  install_from-all val tail (b ∷ bs) s a c out fit h on m =
      let v = bread (start + tail + 1) s in
      let s1 = bwrite b v s in
      let is : v ≡ val b = log_data val (start + tail + 1) b s c (omega arith) (omega arith) h.0 in
      let c1 = bwrite-CleanLog b v s c in
      let h1 = Logged-bwrite val (suc tail) bs b v s out.0 (omega arith) h.1 in
      elim (Bool-cases (mem a bs)) [
        | inl later ↦
            install_from-all val (suc tail) bs s1 a c1 out.1 (omega arith) h1
              (omega (arith, bwrite-power b v s)) later
        | inr last ↦
            let ba : b ≡ a = ground arith in
            let now : s1.disk a ≡ val a =
              bwrite-on b v s a (omega arith) ∙ ground (arith, is, ba) in
            elim (install_from-either val (suc tail) bs s1 a c1 out.1 (omega arith) h1) [
              | inl e ↦ e ∙ now
              | inr (_, e) ↦ e
            ]
      ]
