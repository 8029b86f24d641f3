-- ===== src/Bio.antt =====
-- The buffer cache (Source Code/bio.c): the list of the buffers, the most recently used first. A pointer to
-- a buffer is its index in bcache.buf. The sleep lock of a buffer and the disk are the boundary.
pub mod Cache
pub mod Tally
pub mod Unique
use tugas_sistem_operasi.Base.{
  ℕ, zero, suc, ◌+◌, ◌-◌, ◌/◌, ◌%◌, ◌^◌, Option, none, some, Bool, true, false, ◌&&◌, List, [], ◌∷◌,
  if◌then◌else◌, ◌==◌,
}

-- NBUF.
abbrev pub n_buf : ℕ
n_buf = 30

pub record Buf : Type 0 where
  pub index : ℕ
  pub flags : ℕ
  pub dev : ℕ
  pub blockno : ℕ
  pub refcnt : ℕ

-- The loop of binit, with `n` buffers left from `i` on: each is put in front.
unfoldable pub link : (n i : ℕ) → List Buf → List Buf
link zero i bs = bs
link (suc n) i bs =
    link n (i + 1) (record { index = i; flags = 0; dev = 0; blockno = 0; refcnt = 0 } ∷ bs)

unfoldable pub binit : List Buf
unfolding link
binit = link n_buf 0 []

abbrev pub holds : (dev blockno : ℕ) → Buf → Bool
holds dev blockno b = b.dev == dev && b.blockno == blockno

-- refcnt == 0 && (flags & B_DIRTY) == 0; B_DIRTY is 4.
abbrev pub is_free : Buf → Bool
is_free b = b.refcnt == 0 && b.flags / 4 % 2 == 0

abbrev pub behind : Buf → Option (ℕ × List Buf) → Option (ℕ × List Buf)
behind b none = none
behind b (some (i, cs)) = some (i, b ∷ cs)

-- The loop of bget from the most recently used buffer on.
unfoldable pub find_cached : (dev blockno : ℕ) → List Buf → Option (ℕ × List Buf)
find_cached dev blockno [] = none
find_cached dev blockno (b ∷ bs) =
    let rest = find_cached dev blockno bs in
    if holds dev blockno b
    then some (b.index, record b { refcnt = (b.refcnt + 1) % 2 ^ 32 } ∷ bs)
    else behind b rest

-- The loop of bget from the least recently used buffer on.
unfoldable pub recycle : (dev blockno : ℕ) → List Buf → Option (ℕ × List Buf)
recycle dev blockno [] = none
recycle dev blockno (b ∷ bs) = elim (recycle dev blockno bs) [
  | some (i, cs) ↦ some (i, b ∷ cs)
  | none ↦
      if is_free b
      then some (b.index, record b { dev = dev; blockno = blockno; flags = 0; refcnt = 1 } ∷ bs)
      else none
]

-- `none` is a panic.
unfoldable pub bget : (dev blockno : ℕ) → List Buf → Option (ℕ × List Buf)
unfolding find_cached recycle
bget dev blockno bs = elim (find_cached dev blockno bs) [
  | some r ↦ some r
  | none ↦ recycle dev blockno bs
]

-- The buffer of an index with one reference less, and the others in their order.
unfoldable pub unlink : ℕ → List Buf → Option (Buf × List Buf)
unlink i [] = none
unlink i (b ∷ bs) =
    let rest : Option (Buf × List Buf) = elim (unlink i bs) [
      | none ↦ none
      | some (c, cs) ↦ some (c, b ∷ cs)
    ] in
    if b.index == i then some (record b { refcnt = (b.refcnt + 2 ^ 32 - 1) % 2 ^ 32 }, bs) else rest

-- A buffer with one reference less, in its place.
unfoldable pub lower : ℕ → List Buf → List Buf
lower i [] = []
lower i (b ∷ bs) =
    let rest = lower i bs in
    if b.index == i then record b { refcnt = (b.refcnt + 2 ^ 32 - 1) % 2 ^ 32 } ∷ bs else b ∷ rest

-- brelse behind its sleep lock: without references, the buffer moves to the front.
unfoldable pub brelse : ℕ → List Buf → List Buf
unfolding unlink lower
brelse i bs = elim (unlink i bs) [
  | none ↦ bs
  | some (b, cs) ↦ if b.refcnt == 0 then b ∷ cs else lower i bs
]
