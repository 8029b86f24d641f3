-- ===== src/Tests/Disks.antt =====
-- The theorems on the file system at a disk of 40 blocks whose bitmap is block 4, and whose blocks 0 to 4
-- are in use.
use tugas_sistem_operasi.Base.{
  ℕ, zero, suc, inl, inr, ◌+◌, ◌*◌, ◌%◌, ◌<◌, ◌≡◌, ◌≢◌, refl, none, some, true, false, List, [],
  ◌∷◌, arith, if◌then◌else◌, ◌==◌, Bool-cases,
}
use tugas_sistem_operasi.Fs.{Block, Disk, Superblock, bit, balloc}
use tugas_sistem_operasi.Fs.Bitmap.{used}
use tugas_sistem_operasi.Fs.Alloc.{Allocates, balloc-Allocates}
use tugas_sistem_operasi.Fs.Inode.{Inode, ipb, iblock, iupdate}
use tugas_sistem_operasi.Fs.Data.{Devsw}
use tugas_sistem_operasi.Fs.Own.{Layout, Layout-MetaUsed}
use tugas_sistem_operasi.Fs.Icache.{blank, inode_at, iget, ilock}
use tugas_sistem_operasi.Fs.Dinode.{IsStorable, SameFields, ilock-iupdate}
use tugas_sistem_operasi.Fs.Iget.{Unique, Gets, iget-Gets}

abbrev small_sb : Superblock
small_sb = record {
  size = 40;
  nblocks = 35;
  ninodes = 8;
  nlog = 0;
  logstart = 2;
  inodestart = 2;
  bmapstart = 4;
}

abbrev bitmap : Block
bitmap i = if i == 0 then 31 else 0

abbrev small_disk : Disk
small_disk k i = if k == 4 then bitmap i else 0

abbrev empty_file : Inode
empty_file = record {
  dev = 1;
  inum = 3;
  ref = 1;
  valid = true;
  type = 2;
  major = 0;
  minor = 0;
  nlink = 1;
  size = 0;
  addrs = λ i. 0;
}

abbrev no_devices : Devsw
no_devices = record { read = λ k. none; write = λ k. none }

-- The first bits of the bitmap.
low_bits : (c : ℕ) → c < 5 → used small_sb small_disk c ≡ 1
unfolding bit
low_bits zero lt = refl
low_bits (suc zero) lt = refl
low_bits (suc (suc zero)) lt = refl
low_bits (suc (suc (suc zero))) lt = refl
low_bits (suc (suc (suc (suc zero)))) lt = refl
low_bits (suc (suc (suc (suc (suc c))))) lt = absurd (omega arith)

small-Layout : Layout small_sb small_disk
small-Layout = record {
  small = omega arith;
  boot = omega arith;
  meta = λ c lt. low_bits c (omega arith);
}

balloc-Allocates_example : Allocates small_sb small_disk (balloc small_sb small_disk)
balloc-Allocates_example =
    balloc-Allocates small_sb small_disk (Layout-MetaUsed small_sb small_disk small-Layout)

empty_file-IsStorable : IsStorable empty_file
empty_file-IsStorable = record {
  type_short = omega arith;
  major_short = omega arith;
  minor_short = omega arith;
  nlink_short = omega arith;
  size_word = omega arith;
  addrs_words = λ i lt. omega arith;
}

abbrev stale_entry : Inode
stale_entry = record {
  dev = 1;
  inum = 3;
  ref = 1;
  valid = false;
  type = 0;
  major = 0;
  minor = 0;
  nlink = 0;
  size = 0;
  addrs = λ i. 0;
}

ilock-iupdate_example :
    ((r : Inode) × (ilock small_sb stale_entry (iupdate empty_file small_sb small_disk) ≡ some r)
      × SameFields empty_file r
      × (r.valid ≡ true))
    × ((j o : ℕ)
        → j ≢ 3
        → o < 64
        → iupdate empty_file small_sb small_disk (iblock j small_sb) (64 * (j % ipb) + o)
          ≡ small_disk (iblock j small_sb) (64 * (j % ipb) + o))
ilock-iupdate_example =
    ilock-iupdate small_sb empty_file stale_entry small_disk empty_file-IsStorable (omega arith)
      refl (omega arith) refl

abbrev cache : List Inode
cache = blank ∷ empty_file ∷ []

cache-free : (i : ℕ) → i ≢ 1 → (inode_at cache i).ref ≡ 0
cache-free zero ne = refl
cache-free (suc zero) ne = absurd (ne refl)
cache-free (suc (suc i)) ne = refl

cache-Unique : Unique cache
cache-Unique i j dev inum hi hj = elim (Bool-cases (i == 1)) [
  | inl a ↦ elim (Bool-cases (j == 1)) [
    | inl b ↦ ground arith
    | inr b ↦ absurd (omega (arith, hj.in_use, cache-free j (ground arith)))
  ]
  | inr a ↦ absurd (omega (arith, hi.in_use, cache-free i (ground arith)))
]

iget-Gets_example : Gets 1 5 cache (iget 1 5 cache)
iget-Gets_example = iget-Gets 1 5 cache cache-Unique
