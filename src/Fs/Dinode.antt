-- ===== src/Fs/Dinode.antt =====
-- An inode that iupdate writes is read back by ilock.
use tugas_sistem_operasi.Base.{
  ℕ, zero, suc, ◌+◌, ◌-◌, ◌*◌, ◌/◌, ◌%◌, ◌^◌, ◌<◌, ◌≡◌, refl, ◌∙◌, ap, sym, ◌≢◌, inl, inr, true,
  false, arith, ◌==◌, ltb, Bool-cases, some,
}
use tugas_sistem_operasi.Fs.{Block, Disk, Superblock}
use tugas_sistem_operasi.Fs.Bitmap.{put_block_at, put_block_ne}
use tugas_sistem_operasi.Fs.Inode.{
  Inode, word_at, byte_of, short_of, dinode_byte, ipb, iblock, put_dinode, iupdate,
}
use tugas_sistem_operasi.Fs.Icache.{load, ilock}

-- The fields of an inode fit in those of the disk.
pub record IsStorable (ip : Inode) : Type 0 where
  pub type_short : ip.type < 2 ^ 16
  pub major_short : ip.major < 2 ^ 16
  pub minor_short : ip.minor < 2 ^ 16
  pub nlink_short : ip.nlink < 2 ^ 16
  pub size_word : ip.size < 2 ^ 32
  pub addrs_words : (i : ℕ) → i < 13 → ip.addrs i < 2 ^ 32

-- The byte at an offset of the inode's slot.
pub dinode_at :
    (s o : ℕ) (ip : Inode) (bp : Block)
    → o < 64
    → put_dinode s ip bp (64 * s + o) ≡ dinode_byte ip o
dinode_at s o ip bp lt =
    let e : ((64 * s + o) / 64 == s) ≡ true = ground arith in
    let f : (64 * s + o) % 64 ≡ o = omega arith in rw (e, f) refl

short_byte :
    (j k : ℕ) (ip : Inode) → j < 4 → k < 2 → dinode_byte ip (2 * j + k) ≡ byte_of (short_of ip j) k
unfolding dinode_byte
short_byte j k ip lt ltk =
    let e : ltb (2 * j + k) 8 ≡ true = ground arith in
    let f : (2 * j + k) / 2 ≡ j = omega arith in
    let g : (2 * j + k) % 2 ≡ k = omega arith in rw (e, f, g) refl

-- The size and the addresses, as words.
abbrev word_of : Inode → ℕ → ℕ
word_of ip zero = ip.size
word_of ip (suc t) = ip.addrs t

word_byte :
    (t k : ℕ) (ip : Inode)
    → t < 14
    → k < 4
    → dinode_byte ip (8 + 4 * t + k) ≡ byte_of (word_of ip t) k
unfolding dinode_byte
word_byte zero k ip lt ltk =
    let e : ltb (8 + 4 * 0 + k) 8 ≡ false = ground arith in
    let f : ltb (8 + 4 * 0 + k) 12 ≡ true = ground arith in
    let g : (8 + 4 * 0 + k) % 4 ≡ k = omega arith in rw (e, f, g) refl
word_byte (suc t) k ip lt ltk =
    let e : ltb (8 + 4 * suc t + k) 8 ≡ false = ground arith in
    let f : ltb (8 + 4 * suc t + k) 12 ≡ false = ground arith in
    let g : (8 + 4 * suc t + k) % 4 ≡ k = omega arith in
    let h : (8 + 4 * suc t + k) / 4 - 3 ≡ t = omega arith in rw (e, f, g, h) refl

module _ (s : ℕ) (ip : Inode) (bp : Block) where
  abbrev written : Block
  written = put_dinode s ip bp

  slot_byte : (a o : ℕ) → a ≡ 64 * s + o → o < 64 → written a ≡ dinode_byte ip o
  slot_byte a o e lt = ap written e ∙ dinode_at s o ip bp lt

  half_read :
      (a j : ℕ)
      → a ≡ 64 * s + 2 * j
      → j < 4
      → short_of ip j < 2 ^ 16
      → written a + 2 ^ 8 * written (a + 1) ≡ short_of ip j
  half_read a j e lt small =
      let lo : written a ≡ short_of ip j % 256 =
        slot_byte a (2 * j + 0) (omega arith) (omega arith) ∙ short_byte j 0 ip lt (omega arith) in
      let hi : written (a + 1) ≡ short_of ip j / 2 ^ 8 % 256 =
        slot_byte (a + 1) (2 * j + 1) (omega arith) (omega arith)
        ∙ short_byte j 1 ip lt (omega arith) in
      omega arith

  word_read :
      (i t : ℕ)
      → i ≡ 16 * s + 2 + t
      → t < 14
      → word_of ip t < 2 ^ 32
      → word_at written i ≡ word_of ip t
  unfolding word_at
  word_read i t e lt small =
      let w0 : written (4 * i) ≡ word_of ip t % 256 =
        slot_byte (4 * i) (8 + 4 * t + 0) (omega arith) (omega arith)
        ∙ word_byte t 0 ip lt (omega arith) in
      let w1 : written (4 * i + 1) ≡ word_of ip t / 2 ^ 8 % 256 =
        slot_byte (4 * i + 1) (8 + 4 * t + 1) (omega arith) (omega arith)
        ∙ word_byte t 1 ip lt (omega arith) in
      let w2 : written (4 * i + 2) ≡ word_of ip t / 2 ^ 16 % 256 =
        slot_byte (4 * i + 2) (8 + 4 * t + 2) (omega arith) (omega arith)
        ∙ word_byte t 2 ip lt (omega arith) in
      let w3 : written (4 * i + 3) ≡ word_of ip t / 2 ^ 24 % 256 =
        slot_byte (4 * i + 3) (8 + 4 * t + 3) (omega arith) (omega arith)
        ∙ word_byte t 3 ip lt (omega arith) in
      omega arith

-- `jp` has the fields of `ip` that stand on the disk.
pub record SameFields (ip jp : Inode) : Type 0 where
  pub type_same : jp.type ≡ ip.type
  pub major_same : jp.major ≡ ip.major
  pub minor_same : jp.minor ≡ ip.minor
  pub nlink_same : jp.nlink ≡ ip.nlink
  pub size_same : jp.size ≡ ip.size
  pub addrs_same : (i : ℕ) → i < 13 → jp.addrs i ≡ ip.addrs i

load-put_dinode :
    (s : ℕ) (ip jp : Inode) (bp : Block)
    → IsStorable ip
    → SameFields ip (load s (put_dinode s ip bp) jp)
unfolding load
load-put_dinode s ip jp bp v = record {
  type_same = half_read s ip bp (64 * s) 0 (omega arith) (omega arith) v.type_short;
  major_same = half_read s ip bp (64 * s + 2) 1 (omega arith) (omega arith) v.major_short;
  minor_same = half_read s ip bp (64 * s + 4) 2 (omega arith) (omega arith) v.minor_short;
  nlink_same = half_read s ip bp (64 * s + 6) 3 (omega arith) (omega arith) v.nlink_short;
  size_same = word_read s ip bp (16 * s + 2) 0 (omega arith) (omega arith) v.size_word;
  addrs_same = λ i lt.
      word_read s ip bp (16 * s + 3 + i) (suc i) (omega arith) (omega arith) (v.addrs_words i lt);
}

nonzero : (n m : ℕ) → n ≡ m → m ≢ 0 → (n == 0) ≡ false
nonzero n m e ne = ground arith

-- ilock of an entry that is not valid, where the block of the inode is `bp`.
ilock_reads :
    (sb : Superblock) (kp : Inode) (d : Disk) (bp : Block)
    → d (iblock kp.inum sb) ≡ bp
    → 0 < kp.ref
    → kp.valid ≡ false
    → ((load (kp.inum % ipb) bp kp).type == 0) ≡ false
    → ilock sb kp d ≡ some (record (load (kp.inum % ipb) bp kp) { valid = true })
unfolding ilock
ilock_reads sb kp d bp at live stale typed =
    let held : ltb kp.ref 1 ≡ false = ground arith in
    rw (held, ilock) (rw (stale, ilock) (rw at (rw typed refl)))

iupdate_others :
    (sb : Superblock) (ip : Inode) (d : Disk) (j o : ℕ)
    → j ≢ ip.inum
    → o < 64
    → iupdate ip sb d (iblock j sb) (64 * (j % ipb) + o) ≡ d (iblock j sb) (64 * (j % ipb) + o)
unfolding iupdate
iupdate_others sb ip d j o ne lt = elim (Bool-cases (iblock ip.inum sb == iblock j sb)) [
  | inr apart ↦
      ap (λ (b : Block). b (64 * (j % ipb) + o))
        (put_block_ne (iblock ip.inum sb) (iblock j sb) _ d (ground arith))
  | inl here ↦
      let z : iblock ip.inum sb ≡ iblock j sb = ground arith in
      let slot : ((64 * (j % ipb) + o) / 64 == ip.inum % ipb) ≡ false = ground arith in
      ap (λ (k : ℕ). iupdate ip sb d k (64 * (j % ipb) + o)) (sym z)
      ∙ ap (λ (b : Block). b (64 * (j % ipb) + o)) (put_block_at (iblock ip.inum sb) _ d)
      ∙ rw slot (ap (λ (k : ℕ). d k (64 * (j % ipb) + o)) z)
]

-- iupdate of an inode and then ilock of an entry of the cache for the same number, which was not valid,
-- gives the entry the type, the device numbers, the links, the size and the addresses of the inode.
-- The bytes of every other inode on the disk stay as they are.
pub ilock-iupdate :
    (sb : Superblock) (ip kp : Inode) (d : Disk)
    → IsStorable ip
    → ip.type ≢ 0
    → kp.inum ≡ ip.inum
    → 0 < kp.ref
    → kp.valid ≡ false
    → ((r : Inode) × (ilock sb kp (iupdate ip sb d) ≡ some r) × SameFields ip r × (r.valid ≡ true))
      × ((j o : ℕ)
          → j ≢ ip.inum
          → o < 64
          → iupdate ip sb d (iblock j sb) (64 * (j % ipb) + o)
            ≡ d (iblock j sb) (64 * (j % ipb) + o))
unfolding iupdate
ilock-iupdate sb ip kp d v typed same live stale =
    let k = iblock ip.inum sb in
    let bp = put_dinode (kp.inum % ipb) ip (d k) in
    let fields = load-put_dinode (kp.inum % ipb) ip kp (d k) v in
    let at : iupdate ip sb d (iblock kp.inum sb) ≡ bp =
      ap (λ (n : ℕ). iupdate ip sb d (iblock n sb)) same
      ∙ put_block_at k (put_dinode (ip.inum % ipb) ip (d k)) d
      ∙ ap (λ (n : ℕ). put_dinode (n % ipb) ip (d k)) (sym same) in
    let read = record (load (kp.inum % ipb) bp kp) { valid = true } in
    (
      (
        read,
        ilock_reads sb kp (iupdate ip sb d) bp at live stale
            (nonzero (load (kp.inum % ipb) bp kp).type ip.type fields.type_same typed),
        record {
          type_same = fields.type_same;
          major_same = fields.major_same;
          minor_same = fields.minor_same;
          nlink_same = fields.nlink_same;
          size_same = fields.size_same;
          addrs_same = fields.addrs_same;
        },
        refl,
      ),
      λ j o ne lt. iupdate_others sb ip d j o ne lt,
    )
