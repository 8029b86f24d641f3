-- ===== src/Fs/Icache.antt =====
-- The cache of inodes in memory: iget, idup, ilock, iput and ialloc (Source Code/fs.c). A pointer to
-- an entry is its index. The sleep lock of an inode is the boundary of the steps.
use tugas_sistem_operasi.Base.{
  ℕ, zero, suc, ◌+◌, ◌-◌, ◌*◌, ◌%◌, ◌^◌, Option, none, some, Bool, true, false, ◌&&◌, List, [], ◌∷◌,
  if◌then◌else◌, ◌==◌, ltb, get_elem?, modify,
}
use tugas_sistem_operasi.Fs.{Block, Disk, put_block, Superblock}
use tugas_sistem_operasi.Fs.Inode.{Inode, word_at, ipb, iblock, put_dinode, iupdate, itrunc}

-- An entry as the boot leaves it; also what an index outside of the array stands for.
abbrev pub blank : Inode
blank = record {
  dev = 0;
  inum = 0;
  ref = 0;
  valid = false;
  type = 0;
  major = 0;
  minor = 0;
  nlink = 0;
  size = 0;
  addrs = λ i. 0;
}

abbrev pub entry_of : Option Inode → Inode
entry_of none = blank
entry_of (some ip) = ip

abbrev pub inode_at : List Inode → ℕ → Inode
inode_at ips i = entry_of (get_elem? ips i)

pub data Search : Type 0 where
  cached : ℕ → Search
  vacant : ℕ → Search
  full : Search

abbrev pub remember : Option ℕ → ℕ → ℕ → Option ℕ
remember (some j) i ref = some j
remember none i ref = if ref == 0 then some i else none

abbrev pub at_end : Option ℕ → Search
at_end none = full
at_end (some j) = vacant j

abbrev pub is_cached : ℕ → ℕ → Inode → Bool
is_cached dev inum ip = ltb 0 ip.ref && ip.dev == dev && ip.inum == inum

-- The loop of iget from entry `i` on, with the first free entry seen.
unfoldable pub search_from : (dev inum i : ℕ) → Option ℕ → List Inode → Search
search_from dev inum i empty [] = at_end empty
search_from dev inum i empty (ip ∷ ips) =
    let rest = search_from dev inum (suc i) (remember empty i ip.ref) ips in
    if is_cached dev inum ip then cached i else rest

-- `none` is a panic.
unfoldable pub iget : (dev inum : ℕ) → List Inode → Option (ℕ × List Inode)
unfolding search_from
iget dev inum ips = elim (search_from dev inum 0 none ips) [
  | cached i ↦ some (i, modify ips i (λ ip. record ip { ref = ip.ref + 1 }))
  | vacant i ↦
      some (i, modify ips i (λ ip. record ip { dev = dev; inum = inum; ref = 1; valid = false }))
  | full ↦ none
]

abbrev pub idup : ℕ → List Inode → List Inode
idup i ips = modify ips i (λ ip. record ip { ref = ip.ref + 1 })

abbrev half_at : Block → ℕ → ℕ
half_at bp o = bp o + 2 ^ 8 * bp (o + 1)

-- The fields of inode `slot` of a block, into an inode in memory.
unfoldable pub load : ℕ → Block → Inode → Inode
unfolding word_at
load slot bp ip = record ip {
  type = half_at bp (64 * slot);
  major = half_at bp (64 * slot + 2);
  minor = half_at bp (64 * slot + 4);
  nlink = half_at bp (64 * slot + 6);
  size = word_at bp (16 * slot + 2);
  addrs = λ i. word_at bp (16 * slot + 3 + i);
}

module _ (sb : Superblock) where
  -- ilock behind its acquiresleep, on the entry; `none` is a panic.
  unfoldable pub ilock : Inode → Disk → Option Inode
  unfolding load
  ilock ip d =
      let read = record (load (ip.inum % ipb) (d (iblock ip.inum sb)) ip) { valid = true } in
      if ltb ip.ref 1
      then none
      else if ip.valid
      then some ip
      else if read.type == 0
      then none
      else some read

  -- What iput does to an inode without links before its last reference goes.
  unfoldable pub free_inode : Inode → Disk → Option (Inode × Disk)
  unfolding itrunc iupdate
  free_inode ip d = elim (itrunc sb ip d) [
    | none ↦ none
    | some (jp, e) ↦
        let gone = record jp { type = 0 } in some (record gone { valid = false }, iupdate gone sb e)
  ]

  -- iput with its sleep lock held from the first to the last access of the fields.
  unfoldable pub iput : Inode → Disk → Option (Inode × Disk)
  unfolding free_inode
  iput ip d =
      let freed =
        if ip.valid && (ip.nlink == 0) && (ip.ref == 1) then free_inode ip d else some (ip, d) in
      elim freed [ none ↦ none | some (jp, e) ↦ some (record jp { ref = jp.ref - 1 }, e) ]

  -- The loop of ialloc with `n` inodes left from `inum` on: the first free one, and the disk on which
  -- it has its type; `none` is a panic.
  unfoldable pub ialloc_from : (n inum type : ℕ) → Disk → Option (ℕ × Disk)
  unfolding load
  ialloc_from zero inum type d = none
  ialloc_from (suc n) inum type d =
      let rest = ialloc_from n (inum + 1) type d in
      let bp = d (iblock inum sb) in
      if (load (inum % ipb) bp blank).type == 0
      then some (
        inum,
        put_block (iblock inum sb) (put_dinode (inum % ipb) (record blank { type = type }) bp) d,
      )
      else rest

  unfoldable pub ialloc : (dev type : ℕ) → List Inode → Disk → Option (ℕ × List Inode × Disk)
  unfolding ialloc_from iget
  ialloc dev type ips d = elim (ialloc_from (sb.ninodes - 1) 1 type d) [
    | none ↦ none
    | some (inum, e) ↦ elim (iget dev inum ips) [ none ↦ none | some (i, jps) ↦ some (i, jps, e) ]
  ]
