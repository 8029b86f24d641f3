-- ===== src/Fs/Store.antt =====
-- A write into one block of an inode.
use tugas_sistem_operasi.Base.{
  ℕ, ◌-◌, ◌/◌, ◌%◌, ◌≤◌, ◌<◌, ◌≡◌, refl, ◌∙◌, ap, sym, ◌≢◌, inl, inr, arith, ◌==◌, Bool-cases,
}
use tugas_sistem_operasi.Fs.{bpb, Block, Disk, put_block, Superblock, bblock, bit}
use tugas_sistem_operasi.Fs.Bitmap.{used, put_block_at, put_block_ne}
use tugas_sistem_operasi.Fs.Inode.{Inode, word_at}
use tugas_sistem_operasi.Fs.Own.{Layout, IsData, Owns, byte_at, Grows, bblock-lt}
use tugas_sistem_operasi.Fs.Entry.{entry, entry_direct, entry_missing, entry_listed, place-cases}
use tugas_sistem_operasi.Fs.Read.{found_byte}

-- Block `a` in place `n` of the inode gets the contents `v`.
module _ (sb : Superblock) (ip : Inode) (d : Disk) (n a : ℕ) (v : Block) (l : Layout sb d)
    (o : Owns sb d (entry ip d)) (lt : n < 140) (at : a ≡ entry ip d n) (nz : a ≢ 0) where
  abbrev pub e : Disk
  e = put_block a v d

  a-IsData : IsData sb d a
  a-IsData = rw at (o.owned n (omega arith) (λ z. nz (at ∙ z)))

  off_map : (c : ℕ) → c < sb.size → a ≢ bblock c sb
  off_map c ltc z = absurd (omega (arith, a-IsData.low, z, bblock-lt sb c ltc))

  used_same : (c : ℕ) → c < sb.size → used sb e c ≡ used sb d c
  used_same c ltc =
      ap (λ (b : Block). bit (b (c % bpb / 8)) (c % bpb % 8))
        (put_block_ne a (bblock c sb) v d (off_map c ltc))

  indirect_same : ip.addrs 12 ≢ 0 → e (ip.addrs 12) ≡ d (ip.addrs 12)
  indirect_same some_block = put_block_ne a (ip.addrs 12) v d (λ z.
      o.distinct n 140 (omega arith) (omega arith) (omega arith) (λ w. nz (at ∙ w)) (sym at ∙ z))

  entry_same : (i : ℕ) → i ≤ 140 → entry ip e i ≡ entry ip d i
  entry_same i lei = elim (place-cases i lei) [
    | inl direct ↦ entry_direct ip e i direct ∙ sym (entry_direct ip d i direct)
    | inr (inl last) ↦ rw last refl
    | inr (inr (lo, hi)) ↦ elim (Bool-cases (ip.addrs 12 == 0)) [
      | inl z ↦
          entry_missing ip e i lo hi (ground arith)
          ∙ sym (entry_missing ip d i lo hi (ground arith))
      | inr some_block ↦
          let z : ip.addrs 12 ≢ 0 = ground arith in
          entry_listed ip e i lo hi z
          ∙ ap (λ (b : Block). word_at b (i - 12)) (indirect_same z)
          ∙ sym (entry_listed ip d i lo hi z)
    ]
  ]

  IsData-stays : (k : ℕ) → IsData sb d k → IsData sb e k
  IsData-stays k h = record { low = h.low; high = h.high; taken = used_same k h.high ∙ h.taken }

  pub store-Grows : Grows sb d e (entry ip d) (entry ip e)
  store-Grows = record {
    layout = record {
      small = l.small;
      boot = l.boot;
      meta = λ c ltc. used_same c (omega (arith, a-IsData.low, a-IsData.high)) ∙ l.meta c ltc;
    };
    owns = record {
      owned = λ i le ne.
          let s = entry_same i le in
          rw s (IsData-stays (entry ip d i) (o.owned i le (λ w. ne (s ∙ w))));
      distinct = λ i j lei lej ne some_block eq.
          o.distinct i j lei lej ne (λ w. some_block (entry_same i lei ∙ w))
            (sym (entry_same i lei) ∙ eq ∙ entry_same j lej);
    };
    kept = λ i le ne. entry_same i le;
    fresh = λ i le. inl (entry_same i le);
    frame = λ k h off.
        put_block_ne a k v d (λ z. off n (omega arith) (entry_same n (omega arith) ∙ sym at ∙ z));
    stays = IsData-stays;
  }

  pub store_here : (b : ℕ) → byte_at (entry ip e) e n b ≡ v b
  store_here b =
      found_byte ip e a n b (at ∙ sym (entry_same n (omega arith))) nz
      ∙ ap (λ (w : Block). w b) (put_block_at a v d)

  pub store_other :
      (i b : ℕ) → i < 140 → n ≢ i → byte_at (entry ip e) e i b ≡ byte_at (entry ip d) d i b
  store_other i b lti ne =
      let s = entry_same i (omega arith) in
      elim (Bool-cases (entry ip d i == 0)) [
        | inl z ↦ rw (s, z) refl
        | inr some_block ↦
            let apart : a ≢ entry ip d i =
              λ z. o.distinct n i (omega arith) (omega arith) ne (λ w. nz (at ∙ w)) (sym at ∙ z) in
            rw (s, some_block) (ap (λ (w : Block). w b) (put_block_ne a (entry ip d i) v d apart))
      ]
