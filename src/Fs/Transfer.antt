-- ===== src/Fs/Transfer.antt =====
-- readi and writei on every branch for an inode that is no device.
use tugas_sistem_operasi.Base.{
  ℕ, ◌+◌, ◌-◌, ◌*◌, ◌/◌, ◌%◌, ◌^◌, ◌≤◌, ◌<◌, ◌≡◌, refl, ◌∙◌, ap, sym, ◌≢◌, ◌⊎◌, inl, inr, List,
  arith, ◌==◌, Bool-cases,
}
use tugas_sistem_operasi.Fs.{b_size, bpb, Block, Disk, put_block, Superblock, bblock, bit}
use tugas_sistem_operasi.Fs.Bitmap.{used, put_block_ne}
use tugas_sistem_operasi.Fs.Inode.{Inode, word_at}
use tugas_sistem_operasi.Fs.Own.{Layout, IsData, Owns, Grows, Extends}
use tugas_sistem_operasi.Fs.Entry.{entry, entry_direct, entry_missing, entry_listed, place-cases}
use tugas_sistem_operasi.Fs.Data.{Transfer, panics, fails, moved, max_file}
use tugas_sistem_operasi.Fs.Read.{file_byte, Shows}
use tugas_sistem_operasi.Fs.Read

-- A block before the bitmap is changed.
module _ (sb : Superblock) (ip : Inode) (d : Disk) (k : ℕ) (v : Block) (l : Layout sb d)
    (o : Owns sb d (entry ip d)) (before : k < sb.bmapstart) where
  abbrev pub e : Disk
  e = put_block k v d

  used_same : (c : ℕ) → used sb e c ≡ used sb d c
  used_same c =
      ap (λ (b : Block). bit (b (c % bpb / 8)) (c % bpb % 8))
        (put_block_ne k (bblock c sb) v d (omega arith))

  data_same : (a : ℕ) → IsData sb d a → e a ≡ d a
  data_same a h = put_block_ne k a v d (omega (arith, h.low))

  entry_same : (i : ℕ) → i ≤ 140 → entry ip e i ≡ entry ip d i
  entry_same i lei = elim (place-cases i lei) [
    | inl direct ↦ entry_direct ip e i direct ∙ sym (entry_direct ip d i direct)
    | inr (inl last) ↦ rw last refl
    | inr (inr (lo, hi)) ↦ elim (Bool-cases (ip.addrs 12 == 0)) [
      | inl z ↦
          entry_missing ip e i lo hi (ground arith)
          ∙ sym (entry_missing ip d i lo hi (ground arith))
      | inr some_block ↦
          let z : ip.addrs 12 ≢ 0 = ground arith in
          entry_listed ip e i lo hi z
          ∙ ap (λ (b : Block). word_at b (i - 12))
              (data_same (ip.addrs 12) (o.owned 140 (omega arith) z))
          ∙ sym (entry_listed ip d i lo hi z)
    ]
  ]

  IsData-stays : (a : ℕ) → IsData sb d a → IsData sb e a
  IsData-stays a h = record { low = h.low; high = h.high; taken = used_same a ∙ h.taken }

  pub meta-Grows : Grows sb d e (entry ip d) (entry ip e)
  meta-Grows = record {
    layout = record { small = l.small; boot = l.boot; meta = λ c ltc. used_same c ∙ l.meta c ltc };
    owns = record {
      owned = λ i le ne.
          let s = entry_same i le in
          rw s (IsData-stays (entry ip d i) (o.owned i le (λ w. ne (s ∙ w))));
      distinct = λ i j lei lej ne some_block eq.
          o.distinct i j lei lej ne (λ w. some_block (entry_same i lei ∙ w))
            (sym (entry_same i lei) ∙ eq ∙ entry_same j lej);
    };
    kept = λ i le ne. entry_same i le;
    fresh = λ i le. inl (entry_same i le);
    frame = λ a h off. data_same a h;
    stays = IsData-stays;
  }

  pub meta_bytes : (b : ℕ) → b < max_file * b_size → file_byte ip e b ≡ file_byte ip d b
  meta_bytes b lt =
      let i = b / b_size in
      let s = entry_same i (omega arith) in
      elim (Bool-cases (entry ip d i == 0)) [
        | inl z ↦ rw (s, z) refl
        | inr some_block ↦
            rw (s, some_block)
              (ap (λ (w : Block). w (b % b_size))
                (data_same (entry ip d i) (o.owned i (omega arith) (ground arith))))
      ]

-- The results of readi for `n` bytes at offset `off`.
pub data Delivers (sb : Superblock) (ip : Inode) (d : Disk) (off n : ℕ) : Transfer → Type 0 where
  refuses : (ip.size < off) ⊎ (2 ^ 32 ≤ off + n) → Delivers sb ip d off n fails
  no_room :
      (jp : Inode) (e : Disk)
      → Extends sb d e (entry ip d) (entry jp e)
      → ((c : ℕ) → c < sb.size → used sb e c ≡ 1)
      → Delivers sb ip d off n panics
  delivers :
      (bytes : List ℕ) (addrs : ℕ → ℕ) (e : Disk) (m : ℕ)
      → ((off + n ≤ ip.size) × (m ≡ n)) ⊎ ((ip.size < off + n) × (m ≡ ip.size - off))
      → Shows ip d off m bytes
      → Extends sb d e (entry ip d) (entry (record ip { addrs = addrs }) e)
      → Delivers sb ip d off n (moved bytes (record ip { addrs = addrs }) e)
