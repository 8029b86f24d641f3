-- ===== src/Fs.antt =====
-- The disk as the file system sees it through the buffer cache, and the allocator of blocks
-- (Source Code/fs.c, Source Code/fs.h). A change followed by log_write is a change of the block,
-- in a transaction that has room in the log (Log.Space says when log_write does not panic).
pub mod Bits
pub mod Bitmap
pub mod Alloc
pub mod Inode
pub mod Data
pub mod Own
pub mod Place
pub mod Entry
pub mod Map
pub mod Read
pub mod Store
pub mod Write
pub mod Transfer
pub mod Update
pub mod Icache
pub mod Dinode
pub mod Iget
use tugas_sistem_operasi.Base.{
  ℕ, zero, suc, ◌+◌, ◌-◌, ◌*◌, ◌/◌, ◌%◌, ◌^◌, Option, none, some, if◌then◌else◌, ◌==◌, ltb,
}

abbrev pub b_size : ℕ
b_size = 512

-- BPB, the bits of a block.
abbrev pub bpb : ℕ
bpb = 4096

-- The bytes of a block, and the blocks by number.
abbrev pub Block : Type 0
Block = ℕ → ℕ

abbrev pub Disk : Type 0
Disk = ℕ → Block

abbrev pub put_block : ℕ → Block → Disk → Disk
put_block k b d j = if k == j then b else d j

pub record Superblock : Type 0 where
  pub size : ℕ
  pub nblocks : ℕ
  pub ninodes : ℕ
  pub nlog : ℕ
  pub logstart : ℕ
  pub inodestart : ℕ
  pub bmapstart : ℕ

-- BBLOCK(b, sb).
abbrev pub bblock : ℕ → Superblock → ℕ
bblock b sb = b / bpb + sb.bmapstart

abbrev pub bzero : ℕ → Disk → Disk
bzero b d = put_block b (λ i. 0) d

-- byte & (1 << k), as 0 or 1.
unfoldable pub bit : ℕ → ℕ → ℕ
bit b zero = b % 2
bit b (suc k) = bit (b / 2) k

-- data[bi/8] |= m, where the bit is clear.
abbrev pub set_bit : ℕ → Block → Block
set_bit bi bp i = if bi / 8 == i then bp i + 2 ^ (bi % 8) else bp i

-- data[bi/8] &= ~m, where the bit is set.
abbrev pub clear_bit : ℕ → Block → Block
clear_bit bi bp i = if bi / 8 == i then bp i - 2 ^ (bi % 8) else bp i

-- The inner loop of balloc from bit `bi` on: the first free bit.
unfoldable pub scan_bits : (rounds b bi size : ℕ) → Block → Option ℕ
unfolding bit
scan_bits zero b bi size bp = none
scan_bits (suc n) b bi size bp =
    let rest = scan_bits n b (bi + 1) size bp in
    if ltb (b + bi) size then (if bit (bp (bi / 8)) (bi % 8) == 0 then some bi else rest) else none

-- The outer loop from block `b` on; `none` is the panic at its end.
unfoldable pub balloc_from : (rounds b : ℕ) → Superblock → Disk → Option (ℕ × Disk)
balloc_from zero b sb d = none
balloc_from (suc n) b sb d =
    let rest = balloc_from n (b + bpb) sb d in
    let bp = d (bblock b sb) in
    if ltb b sb.size
    then elim (scan_bits bpb b 0 sb.size bp) [
      | none ↦ rest
      | some bi ↦ some (b + bi, bzero (b + bi) (put_block (bblock b sb) (set_bit bi bp) d))
    ]
    else none

-- A bitmap block covers `bpb` blocks of the disk.
unfoldable pub balloc : Superblock → Disk → Option (ℕ × Disk)
unfolding balloc_from
balloc sb d = balloc_from ((sb.size + bpb - 1) / bpb) 0 sb d

-- `none` is a panic.
unfoldable pub bfree : ℕ → Superblock → Disk → Option Disk
unfolding bit
bfree b sb d =
    let bp = d (bblock b sb) in
    let bi = b % bpb in
    if bit (bp (bi / 8)) (bi % 8) == 0
    then none
    else some (put_block (bblock b sb) (clear_bit bi bp) d)
