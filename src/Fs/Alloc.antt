-- ===== src/Fs/Alloc.antt =====
-- balloc takes a free block and bfree gives one back.
use tugas_sistem_operasi.Base.{
  ℕ, zero, suc, ◌+◌, ◌-◌, ◌*◌, ◌/◌, ◌%◌, ◌≤◌, ◌<◌, ◌≡◌, refl, ◌∙◌, ap, sym, ◌≢◌, ◌⊎◌, inl, inr,
  Option, none, some, arith, ◌==◌, ltb, Bool-cases, Option-cases, some-inj,
}
use tugas_sistem_operasi.Fs.{
  bpb, Disk, Superblock, bblock, bzero, bit, scan_bits, balloc_from, balloc, bfree,
}
use tugas_sistem_operasi.Fs.Bits.{bit-lt}
use tugas_sistem_operasi.Fs.Bitmap.{
  used, mark, unmark, put_block_at, put_block_ne, used-mark_self, used-mark_ne, used-unmark_self,
  used-unmark_ne, scan_bits-some, scan_bits-none,
}

-- The blocks of the bitmap are marked as used.
abbrev pub MetaUsed : Superblock → Disk → Type 0
MetaUsed sb d = (c : ℕ) → c < sb.size → used sb d (bblock c sb) ≡ 1

-- The results of balloc.
pub data Allocates (sb : Superblock) (d : Disk) : Option (ℕ × Disk) → Type 0 where
  full : ((c : ℕ) → c < sb.size → used sb d c ≡ 1) → Allocates sb d none
  takes :
      (a : ℕ) (e : Disk)
      → a < sb.size
      → used sb d a ≡ 0
      → used sb e a ≡ 1
      → ((c : ℕ) → c < sb.size → a ≢ c → used sb e c ≡ used sb d c)
      → e a ≡ (λ i. 0)
      → ((k : ℕ) → a ≢ k → bblock a sb ≢ k → e k ≡ d k)
      → Allocates sb d (some (a, e))

module _ (sb : Superblock) where
  -- The block of a bit is in the bitmap block that is searched.
  covered :
      (b r : ℕ) → b % bpb ≡ 0 → r < bpb → ((b + r) % bpb ≡ r) × (bblock (b + r) sb ≡ bblock b sb)
  covered b r z lt = (omega arith, omega arith)

  balloc_from-some :
      (n b a : ℕ) (d e : Disk)
      → b % bpb ≡ 0
      → balloc_from n b sb d ≡ some (a, e)
      → (a < sb.size) × (used sb d a ≡ 0) × (e ≡ bzero a (mark a sb d))
  unfolding balloc_from
  balloc_from-some zero b a d e z h = absurd (cc)
  balloc_from-some (suc n) b a d e z h = elim (Bool-cases (ltb b sb.size)) [
    | inr end ↦ absurd (cc (rw (end, balloc_from) at h))
    | inl inside ↦
        let bp = d (bblock b sb) in
        elim (Option-cases (scan_bits bpb b 0 sb.size bp)) [
          | inl nothing ↦
              balloc_from-some n (b + bpb) a d e (omega arith)
                (rw (nothing, balloc_from) at (rw (inside, balloc_from) at h))
          | inr (r, found) ↦
              let (lo, hi, lt, clear) = scan_bits-some bpb b 0 sb.size r bp found in
              let (rest, block) = covered b r z (omega arith) in
              let pair = some-inj (rw (found, balloc_from) at (rw (inside, balloc_from) at h)) in
              let at : b + r ≡ a = ap (λ (p : ℕ × Disk). p.0) pair in
              let disk = ap (λ (p : ℕ × Disk). p.1) pair in
              rw (← at) (lt, rw (rest, block) clear, rw (rest, block) (sym disk))
        ]
  ]

  balloc_from-none :
      (n b c : ℕ) (d : Disk)
      → b % bpb ≡ 0
      → balloc_from n b sb d ≡ none
      → b ≤ c
      → c < b + n * bpb
      → c < sb.size
      → used sb d c ≡ 1
  unfolding balloc_from
  balloc_from-none zero b c d z h lo hi lt = absurd (omega arith)
  balloc_from-none (suc n) b c d z h lo hi lt = elim (Bool-cases (ltb b sb.size)) [
    | inr end ↦ absurd (ground arith)
    | inl inside ↦
        let bp = d (bblock b sb) in
        elim (Option-cases (scan_bits bpb b 0 sb.size bp)) [
          | inr (r, found) ↦
              absurd (cc (rw (found, balloc_from) at (rw (inside, balloc_from) at h)))
          | inl nothing ↦ elim (Bool-cases (ltb c (b + bpb))) [
            | inr later ↦
                balloc_from-none n (b + bpb) c d (omega arith)
                  (rw (nothing, balloc_from) at (rw (inside, balloc_from) at h)) (ground arith)
                  (omega arith) lt
            | inl here ↦
                let near : c - b < bpb = ground arith in
                let rest : c - b ≡ c % bpb = omega arith in
                let block : bblock b sb ≡ bblock c sb = omega arith in
                let taken =
                  scan_bits-none bpb b 0 sb.size (c - b) bp nothing (omega arith) (omega arith)
                    (omega arith) in
                rw (rest, block) at taken
          ]
        ]
  ]

  -- A block that is zeroed after its bit is set, if it is not of the bitmap.
  zeroed-Allocates :
      (a : ℕ) (d : Disk)
      → MetaUsed sb d
      → a < sb.size
      → used sb d a ≡ 0
      → Allocates sb d (some (a, bzero a (mark a sb d)))
  zeroed-Allocates a d meta lt free =
      takes a (bzero a (mark a sb d)) lt free
        (ap (λ bp. bit (bp (a % bpb / 8)) (a % bpb % 8))
            (put_block_ne a (bblock a sb) (λ i. 0) (mark a sb d) (off a lt))
          ∙ used-mark_self sb a d free)
        (λ c ltc ne.
          ap (λ bp. bit (bp (c % bpb / 8)) (c % bpb % 8))
            (put_block_ne a (bblock c sb) (λ i. 0) (mark a sb d) (off c ltc))
          ∙ used-mark_ne sb a c d free ne)
        (put_block_at a (λ i. 0) (mark a sb d))
        (λ k ne off_map.
          put_block_ne a k (λ i. 0) (mark a sb d) ne ∙ put_block_ne (bblock a sb) k _ d off_map)
    where
      off : (c : ℕ) → c < sb.size → a ≢ bblock c sb
      off c ltc e = absurd (ground (arith, meta c ltc, free, ap (used sb d) e))

  -- While the blocks of the bitmap are marked as used, balloc panics only if every block of the disk
  -- is used. Otherwise it takes a block that was free, marks it and no other, fills it with zeros, and
  -- changes no other block but that of the bitmap which holds the mark.
  pub balloc-Allocates : (d : Disk) → MetaUsed sb d → Allocates sb d (balloc sb d)
  unfolding balloc
  balloc-Allocates d meta = elim (Option-cases (balloc_from ((sb.size + bpb - 1) / bpb) 0 sb d)) [
    | inl nothing ↦ rw nothing (
        full
          (λ c lt. balloc_from-none _ 0 c d (omega arith) nothing (omega arith) (omega arith) lt))
    | inr ((a, e), found) ↦
        let (lt, free, shape) = balloc_from-some _ 0 a d e (omega arith) found in
        rw (found, shape) (zeroed-Allocates a d meta lt free)
  ]

-- bfree of a block in use clears its mark and no other, and changes no block but that of the bitmap
-- which holds the mark; bfree of a free block panics.
pub bfree_lem :
    (b : ℕ) (sb : Superblock) (d : Disk)
    → ((used sb d b ≡ 0) × (bfree b sb d ≡ none))
      ⊎ ((used sb d b ≡ 1)
          × (bfree b sb d ≡ some (unmark b sb d))
          × (used sb (unmark b sb d) b ≡ 0)
          × ((c : ℕ) → b ≢ c → used sb (unmark b sb d) c ≡ used sb d c)
          × ((k : ℕ) → bblock b sb ≢ k → unmark b sb d k ≡ d k))
unfolding bfree
bfree_lem b sb d = elim (Bool-cases (used sb d b == 0)) [
  | inl free ↦ inl (ground arith, rw (free, bfree) refl)
  | inr taken ↦
      let one : used sb d b ≡ 1 =
        ground (arith, bit-lt (d (bblock b sb) (b % bpb / 8)) (b % bpb % 8)) in
      inr (
        one,
        rw (taken, bfree) refl,
        used-unmark_self sb b d one,
        λ c ne. used-unmark_ne sb b c d one ne,
        λ k ne. put_block_ne (bblock b sb) k _ d ne,
      )
]
