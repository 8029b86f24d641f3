-- ===== src/Fs/Inode.antt =====
-- The data of an inode: bmap, itrunc, readi and writei (Source Code/fs.c), the inode on the disk and
-- iupdate. The inode in memory is `struct inode` of Source Code/file.h without its lock.
use tugas_sistem_operasi.Base.{
  ℕ, zero, suc, ◌+◌, ◌-◌, ◌*◌, ◌/◌, ◌%◌, ◌^◌, Option, none, some, Bool, if◌then◌else◌, ◌==◌, ltb,
}
use tugas_sistem_operasi.Memory.{poke, poke_word}
use tugas_sistem_operasi.Fs.{Block, Disk, put_block, Superblock, balloc, bfree}

abbrev pub n_direct : ℕ
n_direct = 12

abbrev pub n_indirect : ℕ
n_indirect = 128

abbrev pub t_dir : ℕ
t_dir = 1

abbrev pub t_dev : ℕ
t_dev = 3

abbrev pub n_dev : ℕ
n_dev = 10

-- `major` is a short, as its 16-bit word.
pub record Inode : Type 0 where
  pub dev : ℕ
  pub inum : ℕ
  pub ref : ℕ
  pub valid : Bool
  pub type : ℕ
  pub major : ℕ
  pub minor : ℕ
  pub nlink : ℕ
  pub size : ℕ
  pub addrs : ℕ → ℕ

-- ((uint*)data)[i].
unfoldable pub word_at : Block → ℕ → ℕ
word_at a i = a (4 * i) + 2 ^ 8 * a (4 * i + 1) + 2 ^ 16 * a (4 * i + 2) + 2 ^ 24 * a (4 * i + 3)

abbrev pub put_word : ℕ → ℕ → Block → Block
put_word i w a = poke_word (4 * i) w a

-- The bytes of a struct dinode: four shorts, the size and the addresses.
abbrev pub byte_of : ℕ → ℕ → ℕ
byte_of w k =
    if k == 0
    then w % 256
    else if k == 1
    then w / 2 ^ 8 % 256
    else if k == 2
    then w / 2 ^ 16 % 256
    else w / 2 ^ 24 % 256

abbrev pub short_of : Inode → ℕ → ℕ
short_of ip j =
    if j == 0 then ip.type else if j == 1 then ip.major else if j == 2 then ip.minor else ip.nlink

unfoldable pub dinode_byte : Inode → ℕ → ℕ
dinode_byte ip o =
    if ltb o 8
    then byte_of (short_of ip (o / 2)) (o % 2)
    else if ltb o 12
    then byte_of ip.size (o % 4)
    else byte_of (ip.addrs (o / 4 - 3)) (o % 4)

abbrev pub ipb : ℕ
ipb = 8

-- IBLOCK(i, sb).
abbrev pub iblock : ℕ → Superblock → ℕ
iblock i sb = i / ipb + sb.inodestart

abbrev pub put_dinode : ℕ → Inode → Block → Block
put_dinode slot ip bp i = if i / 64 == slot then dinode_byte ip (i % 64) else bp i

unfoldable pub iupdate : Inode → Superblock → Disk → Disk
unfolding dinode_byte
iupdate ip sb d =
    put_block (iblock ip.inum sb) (put_dinode (ip.inum % ipb) ip (d (iblock ip.inum sb))) d

module _ (sb : Superblock) where
  -- The block in ip->addrs[i], which is allocated if there is none.
  unfoldable pub addr_or_alloc : ℕ → Inode → Disk → Option (ℕ × Inode × Disk)
  addr_or_alloc i ip d =
      if ip.addrs i == 0
      then elim (balloc sb d) [
        | none ↦ none
        | some (b, e) ↦ some (b, record ip { addrs = poke i b ip.addrs }, e)
      ]
      else some (ip.addrs i, ip, d)

  -- Entry `bn` of the indirect block `addr`, which is allocated if there is none.
  unfoldable pub entry_or_alloc : (addr bn : ℕ) → Disk → Option (ℕ × Disk)
  unfolding word_at
  entry_or_alloc addr bn d =
      if word_at (d addr) bn == 0
      then elim (balloc sb d) [
        | none ↦ none
        | some (b, e) ↦ some (b, put_block addr (put_word bn b (e addr)) e)
      ]
      else some (word_at (d addr) bn, d)

  -- `none` is a panic.
  unfoldable pub bmap : ℕ → Inode → Disk → Option (ℕ × Inode × Disk)
  unfolding addr_or_alloc entry_or_alloc
  bmap bn ip d =
      if ltb bn n_direct
      then addr_or_alloc bn ip d
      else if ltb (bn - n_direct) n_indirect
      then elim (addr_or_alloc n_direct ip d) [
        | none ↦ none
        | some (addr, ip1, d1) ↦ elim (entry_or_alloc addr (bn - n_direct) d1) [
          | none ↦ none
          | some (b, d2) ↦ some (b, ip1, d2)
        ]
      ]
      else none

  -- The loop over the direct blocks, with `n` left from `i` on.
  unfoldable pub free_direct : (n i : ℕ) → Inode → Disk → Option (Inode × Disk)
  free_direct zero i ip d = some (ip, d)
  free_direct (suc n) i ip d =
      let keep = free_direct n (i + 1) ip d in
      if ip.addrs i == 0 then keep else elim (bfree (ip.addrs i) sb d) [
        | none ↦ none
        | some e ↦ free_direct n (i + 1) (record ip { addrs = poke i 0 ip.addrs }) e
      ]

  -- The loop over the entries of the indirect block, as they stood when it was read.
  unfoldable pub free_entries : (n j : ℕ) → Block → Disk → Option Disk
  unfolding word_at
  free_entries zero j a d = some d
  free_entries (suc n) j a d =
      let keep = free_entries n (j + 1) a d in
      if word_at a j == 0
      then keep
      else elim (bfree (word_at a j) sb d) [ none ↦ none | some e ↦ free_entries n (j + 1) a e ]

  unfoldable pub free_indirect : Inode → Disk → Option (Inode × Disk)
  unfolding free_entries
  free_indirect ip d =
      if ip.addrs n_direct == 0
      then some (ip, d)
      else elim (free_entries n_indirect 0 (d (ip.addrs n_direct)) d) [
        | none ↦ none
        | some e ↦ elim (bfree (ip.addrs n_direct) sb e) [
          | none ↦ none
          | some f ↦ some (record ip { addrs = poke n_direct 0 ip.addrs }, f)
        ]
      ]

  unfoldable pub itrunc : Inode → Disk → Option (Inode × Disk)
  unfolding free_direct free_indirect iupdate
  itrunc ip d = elim (free_direct n_direct 0 ip d) [
    | none ↦ none
    | some (ip1, d1) ↦ elim (free_indirect ip1 d1) [
      | none ↦ none
      | some (ip2, d2) ↦ let ip3 = record ip2 { size = 0 } in some (ip3, iupdate ip3 sb d2)
    ]
  ]
