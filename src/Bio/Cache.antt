-- ===== src/Bio/Cache.antt =====
-- What bget returns, and that a block has one buffer (Source Code/bio.c).
use tugas_sistem_operasi.Base.{
  ℕ, ◌+◌, ◌%◌, ◌^◌, ◌≡◌, refl, ap, inl, inr, Option, none, some, true, false, List, [], ◌∷◌, ◌++◌,
  arith, if◌then◌else◌, Bool-cases, ◌≢◌, ◌/◌, ◌⊎◌,
}
use tugas_sistem_operasi.Bio.{Buf, holds, is_free, behind, find_cached, recycle, bget}

pub data Every (P : Buf → Type 0) : List Buf → Type 0 where
  none_left : Every P []
  and_more : (b : Buf) (bs : List Buf) → P b → Every P bs → Every P (b ∷ bs)

abbrev pub NotFor : (dev blockno : ℕ) → Buf → Type 0
NotFor dev blockno b = (b.dev ≢ dev) ⊎ (b.blockno ≢ blockno)

-- B_DIRTY is bit 2 of the flags.
abbrev pub Dirty : Buf → Type 0
Dirty b = b.flags / 4 % 2 ≡ 1

abbrev pub Busy : Buf → Type 0
Busy b = (b.refcnt ≢ 0) ⊎ Dirty b

pub holds-NotFor : (dev blockno : ℕ) (b : Buf) → holds dev blockno b ≡ false → NotFor dev blockno b
holds-NotFor dev blockno b e = ground arith

pub NotFor-holds : (dev blockno : ℕ) (b : Buf) → NotFor dev blockno b → holds dev blockno b ≡ false
NotFor-holds dev blockno b h = ground arith

is_free-Busy : (b : Buf) → is_free b ≡ false → Busy b
is_free-Busy b e = ground arith

is_free-refcnt : (b : Buf) → is_free b ≡ true → (b.refcnt ≡ 0) × (b.flags / 4 % 2 ≡ 0)
is_free-refcnt b e = ground arith

-- The results of bget: a buffer for the block, with one reference more; the least recently used free
-- buffer, if no buffer is for the block; a panic, if there is no free one either.
pub data Gets (dev blockno : ℕ) (bs : List Buf) : Option (ℕ × List Buf) → Type 0 where
  cached :
      (front back : List Buf) (b : Buf)
      → bs ≡ front ++ b ∷ back
      → b.dev ≡ dev
      → b.blockno ≡ blockno
      → Gets dev blockno bs
          (some (b.index, front ++ record b { refcnt = (b.refcnt + 1) % 2 ^ 32 } ∷ back))
  recycled :
      (front back : List Buf) (b : Buf)
      → bs ≡ front ++ b ∷ back
      → Every (NotFor dev blockno) bs
      → b.refcnt ≡ 0
      → b.flags / 4 % 2 ≡ 0
      → Every Busy back
      → Gets dev blockno bs (
          some (
            b.index,
            front ++ record b { dev = dev; blockno = blockno; flags = 0; refcnt = 1 } ∷ back,
          ))
  exhausted : Every (NotFor dev blockno) bs → Every Busy bs → Gets dev blockno bs none

-- The results of the two loops.
data Found (dev blockno : ℕ) (bs : List Buf) : Option (ℕ × List Buf) → Type 0 where
  found :
      (front back : List Buf) (b : Buf)
      → bs ≡ front ++ b ∷ back
      → b.dev ≡ dev
      → b.blockno ≡ blockno
      → Found dev blockno bs
          (some (b.index, front ++ record b { refcnt = (b.refcnt + 1) % 2 ^ 32 } ∷ back))
  missing : Every (NotFor dev blockno) bs → Found dev blockno bs none

data Taken (dev blockno : ℕ) (bs : List Buf) : Option (ℕ × List Buf) → Type 0 where
  taken :
      (front back : List Buf) (b : Buf)
      → bs ≡ front ++ b ∷ back
      → b.refcnt ≡ 0
      → b.flags / 4 % 2 ≡ 0
      → Every Busy back
      → Taken dev blockno bs (
          some (
            b.index,
            front ++ record b { dev = dev; blockno = blockno; flags = 0; refcnt = 1 } ∷ back,
          ))
  all_busy : Every Busy bs → Taken dev blockno bs none

module _ (dev blockno : ℕ) where
  Found-behind :
      (b : Buf) (bs : List Buf)
      → NotFor dev blockno b
      → (r : Option (ℕ × List Buf)) → Found dev blockno bs r
      → Found dev blockno (b ∷ bs) (behind b r)
  Found-behind b bs e _ (found front back c s d k) =
      found (b ∷ front) back c (ap (λ (cs : List Buf). b ∷ cs) s) d k
  Found-behind b bs e _ (missing x) = missing (and_more b bs e x)

  find_cached-Found : (bs : List Buf) → Found dev blockno bs (find_cached dev blockno bs)
  unfolding find_cached
  find_cached-Found [] = missing none_left
  find_cached-Found (b ∷ bs) = elim (Bool-cases (holds dev blockno b)) [
    | inl e ↦ rw e (found [] bs b refl (ground arith) (ground arith))
    | inr e ↦ rw e (
        Found-behind b bs (holds-NotFor dev blockno b e) (find_cached dev blockno bs)
          (find_cached-Found bs))
  ]

  Taken-behind :
      (b : Buf) (bs : List Buf) (r : Option (ℕ × List Buf))
      → Taken dev blockno bs r
      → Taken dev blockno (b ∷ bs) (elim r [
        | some (i, cs) ↦ some (i, b ∷ cs)
        | none ↦
            if is_free b
            then some
                (b.index, record b { dev = dev; blockno = blockno; flags = 0; refcnt = 1 } ∷ bs)
            else none
      ])
  Taken-behind b bs _ (taken front back c s f g x) =
      taken (b ∷ front) back c (ap (λ (cs : List Buf). b ∷ cs) s) f g x
  Taken-behind b bs _ (all_busy x) = elim (Bool-cases (is_free b)) [
    | inl e ↦ let (z, clean) = is_free-refcnt b e in rw e (taken [] bs b refl z clean x)
    | inr e ↦ rw e (all_busy (and_more b bs (is_free-Busy b e) x))
  ]

  recycle-Taken : (bs : List Buf) → Taken dev blockno bs (recycle dev blockno bs)
  unfolding recycle
  recycle-Taken [] = all_busy none_left
  recycle-Taken (b ∷ bs) = Taken-behind b bs (recycle dev blockno bs) (recycle-Taken bs)

  Gets-recycle :
      (bs : List Buf)
      → Every (NotFor dev blockno) bs
      → (r : Option (ℕ × List Buf)) → Taken dev blockno bs r
      → Gets dev blockno bs r
  Gets-recycle bs x _ (taken front back b s f g y) = recycled front back b s x f g y
  Gets-recycle bs x _ (all_busy y) = exhausted x y

  Gets-find :
      (bs : List Buf) (r : Option (ℕ × List Buf))
      → Found dev blockno bs r
      → Gets dev blockno bs (elim r [ some s ↦ some s | none ↦ recycle dev blockno bs ])
  Gets-find bs _ (found front back b s d k) = cached front back b s d k
  Gets-find bs _ (missing x) = Gets-recycle bs x (recycle dev blockno bs) (recycle-Taken bs)

  -- bget returns a buffer that is for the block and counts one reference more; if there is none, the least
  -- recently used buffer that has no references and is not dirty, which becomes the block's with one
  -- reference and without flags. No other buffer and no place in the list changes. It panics only if no
  -- buffer is for the block and every buffer has references or is dirty.
  pub bget-Gets : (bs : List Buf) → Gets dev blockno bs (bget dev blockno bs)
  unfolding bget
  bget-Gets bs = Gets-find bs (find_cached dev blockno bs) (find_cached-Found bs)
