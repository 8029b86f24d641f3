-- ===== src/Fs/Data.antt =====
-- readi and writei (Source Code/fs.c). The log_write behind a change panics if the transaction has no room;
-- writei is called for pieces that fit in one.
use tugas_sistem_operasi.Base.{
  ℕ, zero, suc, ◌+◌, ◌-◌, ◌*◌, ◌/◌, ◌%◌, ◌^◌, Option, none, some, ◌&&◌, ◌||◌, List, [], ◌∷◌, ◌++◌,
  if◌then◌else◌, ◌==◌, ltb, leb, length, take, drop, get_or, ℤ,
}
use tugas_sistem_operasi.Fs.{b_size, Block, Disk, put_block, Superblock}
use tugas_sistem_operasi.Fs.Inode.{Inode, t_dev, n_dev, n_direct, n_indirect, bmap, iupdate}

abbrev pub max_file : ℕ
max_file = n_direct + n_indirect

abbrev pub min : ℕ → ℕ → ℕ
min a b = if ltb a b then a else b

-- The table of devices by major number: the result of a read with its bytes, and that of a write.
pub record Devsw : Type 0 where
  pub read : ℕ → Option (ℕ → ℤ × List ℕ)
  pub write : ℕ → Option (List ℕ → ℤ)

-- `n` bytes of a block from offset `o` on.
unfoldable pub bytes_from : (n o : ℕ) → Block → List ℕ
bytes_from zero o b = []
bytes_from (suc n) o b = b o ∷ bytes_from n (o + 1) b

-- memmove of the bytes to offset `o` of a block.
abbrev pub copy_in : List ℕ → ℕ → Block → Block
copy_in bytes o b j = if leb o j && ltb j (o + length bytes) then get_or bytes (j - o) 0 else b j

pub data Transfer : Type 0 where
  panics : Transfer
  -- -1.
  fails : Transfer
  -- The result of a device, and the bytes that it has read.
  device : ℤ → List ℕ → Transfer
  -- The bytes that are read, if any, the inode and the disk.
  moved : List ℕ → Inode → Disk → Transfer

module _ (sb : Superblock) where
  -- The loop of readi, with `left` = n - tot bytes to go; every round moves at least one.
  unfoldable pub read_loop : (rounds left off : ℕ) → Inode → Disk → Option (List ℕ × Inode × Disk)
  unfolding bytes_from
  read_loop zero left off ip d = some ([], ip, d)
  read_loop (suc n) left off ip d =
      let m = min left (b_size - off % b_size) in
      let step : Option (List ℕ × Inode × Disk) = elim (bmap sb (off / b_size) ip d) [
        | none ↦ none
        | some (a, ip1, d1) ↦ elim (read_loop n (left - m) (off + m) ip1 d1) [
          | none ↦ none
          | some (rest, ip2, d2) ↦ some (bytes_from m (off % b_size) (d1 a) ++ rest, ip2, d2)
        ]
      ] in
      if ltb 0 left then step else some ([], ip, d)

  -- The loop of writei, with the bytes to go.
  unfoldable pub write_loop :
      (rounds : ℕ) → List ℕ → (off : ℕ) → Inode → Disk → Option (Inode × Disk)
  write_loop zero bytes off ip d = some (ip, d)
  write_loop (suc n) bytes off ip d =
      let m = min (length bytes) (b_size - off % b_size) in
      let step : Option (Inode × Disk) = elim (bmap sb (off / b_size) ip d) [
        | none ↦ none
        | some (a, ip1, d1) ↦
            write_loop n (drop m bytes) (off + m) ip1
              (put_block a (copy_in (take m bytes) (off % b_size) (d1 a)) d1)
      ] in
      if ltb 0 (length bytes) then step else some (ip, d)

  abbrev pub of_read : Option (List ℕ × Inode × Disk) → Transfer
  of_read none = panics
  of_read (some (bytes, ip, d)) = moved bytes ip d

  abbrev pub dev_read : Option (ℕ → ℤ × List ℕ) → ℕ → Transfer
  dev_read none n = fails
  dev_read (some f) n = let (r, bytes) = f n in device r bytes

  abbrev pub dev_write : Option (List ℕ → ℤ) → List ℕ → Transfer
  dev_write none bytes = fails
  dev_write (some f) bytes = device (f bytes) []

  -- `major` below 0 is a word from 2^15 on, which is not below NDEV either.
  unfoldable pub readi : Devsw → Inode → (off n : ℕ) → Disk → Transfer
  unfolding read_loop
  readi devs ip off n d =
      let m = if ltb ip.size (off + n) then ip.size - off else n in
      if ip.type == t_dev
      then (if leb n_dev ip.major then fails else dev_read (devs.read ip.major) n)
      else if ltb ip.size off || ltb ((off + n) % 2 ^ 32) off
      then fails
      else of_read (read_loop m m off ip d)

  -- The end of writei, with the offset behind the bytes.
  abbrev pub grow : ℕ → ℕ → Option (Inode × Disk) → Transfer
  grow n off none = panics
  grow n off (some (ip, d)) =
      let longer = record ip { size = off } in
      if ltb 0 n && ltb ip.size off then moved [] longer (iupdate longer sb d) else moved [] ip d

  unfoldable pub writei : Devsw → Inode → List ℕ → (off : ℕ) → Disk → Transfer
  unfolding write_loop
  writei devs ip bytes off d =
      let n = length bytes in
      if ip.type == t_dev
      then (if leb n_dev ip.major then fails else dev_write (devs.write ip.major) bytes)
      else if ltb ip.size off || ltb ((off + n) % 2 ^ 32) off
      then fails
      else if ltb (max_file * b_size) (off + n)
      then fails
      else grow n (off + n) (write_loop n bytes off ip d)
