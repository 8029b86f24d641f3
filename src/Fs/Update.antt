-- ===== src/Fs/Update.antt =====
-- writei on every branch for an inode that is no device, and readi behind it.
use tugas_sistem_operasi.Base.{
  ℕ, ◌+◌, ◌*◌, ◌/◌, ◌%◌, ◌^◌, ◌≤◌, ◌<◌, ◌≡◌, ◌≢◌, ◌⊎◌, List, [], length,
}
use tugas_sistem_operasi.Fs.{b_size, Disk, Superblock}
use tugas_sistem_operasi.Fs.Bitmap.{used}
use tugas_sistem_operasi.Fs.Inode.{Inode, ipb, iblock, put_dinode, dinode_byte, iupdate}
use tugas_sistem_operasi.Fs.Own.{Layout, Owns, Grows}
use tugas_sistem_operasi.Fs.Entry.{entry}
use tugas_sistem_operasi.Fs.Data.{Transfer, panics, fails, moved, copy_in, max_file}
use tugas_sistem_operasi.Fs.Read.{file_byte}
use tugas_sistem_operasi.Fs.Transfer.{meta-Grows, meta_bytes}

-- The inode on the disk, byte by byte.
pub record OnDisk (sb : Superblock) (ip : Inode) (d : Disk) : Type 0 where
  pub bytes : (o : ℕ) → o < 64 → d (iblock ip.inum sb) (64 * (ip.inum % ipb) + o) ≡ dinode_byte ip o

-- The results of writei for some bytes at offset `off`.
pub data Updates (sb : Superblock) (ip : Inode) (d : Disk) (off : ℕ) (bytes : List ℕ)
    : Transfer → Type 0 where
  refuses :
      (ip.size < off) ⊎ ((2 ^ 32 ≤ off + length bytes) ⊎ (max_file * b_size < off + length bytes))
      → Updates sb ip d off bytes fails
  no_room :
      (jp : Inode) (e : Disk)
      → Grows sb d e (entry ip d) (entry jp e)
      → ((c : ℕ) → c < sb.size → used sb e c ≡ 1)
      → Updates sb ip d off bytes panics
  updates :
      (addrs : ℕ → ℕ) (size : ℕ) (e : Disk)
      → ((off + length bytes ≤ ip.size) × (size ≡ ip.size))
        ⊎ ((ip.size < off + length bytes)
            × (size ≡ off + length bytes)
            × OnDisk sb (record ip { addrs = addrs; size = size }) e)
      → Grows sb d e (entry ip d) (entry (record ip { addrs = addrs; size = size }) e)
      → ((o : ℕ)
          → o < max_file * b_size
          → file_byte (record ip { addrs = addrs; size = size }) e o
            ≡ copy_in bytes off (file_byte ip d) o)
      → ((k : ℕ)
          → k ≢ 0
          → sb.bmapstart ≢ k
          → iblock ip.inum sb ≢ k
          → addrs 12 ≢ k
          → ((i : ℕ)
              → off / b_size ≤ i
              → i < off / b_size + 4
              → i < 140
              → entry (record ip { addrs = addrs; size = size }) e i ≢ k)
          → e k ≡ d k)
      → Updates sb ip d off bytes (moved [] (record ip { addrs = addrs; size = size }) e)

module _ (sb : Superblock) where
  -- The inode is written to its block, which lies before the bitmap.
  pub iupdate-Grows :
      (ip : Inode) (d : Disk)
      → iblock ip.inum sb < sb.bmapstart
      → Layout sb d
      → Owns sb d (entry ip d)
      → Grows sb d (iupdate ip sb d) (entry ip d) (entry ip (iupdate ip sb d))
        × ((o : ℕ) → o < max_file * b_size → file_byte ip (iupdate ip sb d) o ≡ file_byte ip d o)
  unfolding iupdate
  iupdate-Grows ip d before l o =
      let k = iblock ip.inum sb in
      let v = put_dinode (ip.inum % ipb) ip (d k) in
      (meta-Grows sb ip d k v l o before, meta_bytes sb ip d k v l o before)
