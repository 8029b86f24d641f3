-- ===== src/Fs/Bitmap.antt =====
-- balloc and bfree as changes of a set of blocks.
use tugas_sistem_operasi.Base.{
  ℕ, zero, suc, ◌+◌, ◌/◌, ◌%◌, ◌≤◌, ◌<◌, ◌≡◌, refl, ◌∙◌, ap, sym, ◌≢◌, inl, inr, none, some, false,
  arith, ◌==◌, ==_refl, ltb, Bool-cases, some-inj,
}
use tugas_sistem_operasi.Fs.{
  bpb, Block, Disk, put_block, Superblock, bblock, bit, set_bit, clear_bit, scan_bits,
}
use tugas_sistem_operasi.Fs.Bits.{bit-lt, bit-add_self, bit-add_ne, bit-sub_self, bit-sub_ne}

-- The bit of a block in a bitmap block, and in the bitmap: 1 for a block in use.
abbrev slot : ℕ → Block → ℕ
slot b bp = bit (bp (b % bpb / 8)) (b % bpb % 8)

abbrev pub used : Superblock → Disk → ℕ → ℕ
used sb d b = slot b (d (bblock b sb))

abbrev pub mark : ℕ → Superblock → Disk → Disk
mark b sb d = put_block (bblock b sb) (set_bit (b % bpb) (d (bblock b sb))) d

abbrev pub unmark : ℕ → Superblock → Disk → Disk
unmark b sb d = put_block (bblock b sb) (clear_bit (b % bpb) (d (bblock b sb))) d

pub put_block_at : (k : ℕ) (v : Block) (d : Disk) → put_block k v d k ≡ v
put_block_at k v d = rw (==_refl k, put_block) refl

pub put_block_ne : (k j : ℕ) (v : Block) (d : Disk) → k ≢ j → put_block k v d j ≡ d j
put_block_ne k j v d ne = let e : (k == j) ≡ false = ground arith in rw (e, put_block) refl

set_bit-slot_self : (b : ℕ) (bp : Block) → slot b bp ≡ 0 → slot b (set_bit (b % bpb) bp) ≡ 1
set_bit-slot_self b bp e = rw (==_refl (b % bpb / 8), set_bit) (bit-add_self _ _ e)

-- Another block of the same bitmap block.
set_bit-slot_ne :
    (b c : ℕ) (bp : Block)
    → slot b bp ≡ 0
    → b % bpb ≢ c % bpb
    → slot c (set_bit (b % bpb) bp) ≡ slot c bp
set_bit-slot_ne b c bp e ne = elim (Bool-cases (b % bpb / 8 == c % bpb / 8)) [
  | inl same ↦
      let s : b % bpb / 8 ≡ c % bpb / 8 = ground arith in
      let r : b % bpb % 8 ≢ c % bpb % 8 = omega arith in
      rw (same, set_bit) (rw s at (bit-add_ne (bp (b % bpb / 8)) (b % bpb % 8) (c % bpb % 8) e r))
  | inr other ↦ rw (other, set_bit) refl
]

clear_bit-slot_self : (b : ℕ) (bp : Block) → slot b bp ≡ 1 → slot b (clear_bit (b % bpb) bp) ≡ 0
clear_bit-slot_self b bp e = rw (==_refl (b % bpb / 8), clear_bit) (bit-sub_self _ _ e)

clear_bit-slot_ne :
    (b c : ℕ) (bp : Block)
    → slot b bp ≡ 1
    → b % bpb ≢ c % bpb
    → slot c (clear_bit (b % bpb) bp) ≡ slot c bp
clear_bit-slot_ne b c bp e ne = elim (Bool-cases (b % bpb / 8 == c % bpb / 8)) [
  | inl same ↦
      let s : b % bpb / 8 ≡ c % bpb / 8 = ground arith in
      let r : b % bpb % 8 ≢ c % bpb % 8 = omega arith in
      rw (same, clear_bit) (rw s at (bit-sub_ne (bp (b % bpb / 8)) (b % bpb % 8) (c % bpb % 8) e r))
  | inr other ↦ rw (other, clear_bit) refl
]

module _ (sb : Superblock) where
  pub used-mark_self : (b : ℕ) (d : Disk) → used sb d b ≡ 0 → used sb (mark b sb d) b ≡ 1
  used-mark_self b d e =
      ap (slot b) (put_block_at (bblock b sb) (set_bit (b % bpb) (d (bblock b sb))) d)
      ∙ set_bit-slot_self b (d (bblock b sb)) e

  pub used-mark_ne :
      (b c : ℕ) (d : Disk) → used sb d b ≡ 0 → b ≢ c → used sb (mark b sb d) c ≡ used sb d c
  used-mark_ne b c d e ne = elim (Bool-cases (bblock b sb == bblock c sb)) [
    | inr other ↦ ap (slot c) (put_block_ne (bblock b sb) (bblock c sb) _ d (ground arith))
    | inl same ↦
        let s : bblock b sb ≡ bblock c sb = ground arith in
        ap (λ (k : ℕ). slot c (mark b sb d k)) (sym s)
        ∙ ap (slot c) (put_block_at (bblock b sb) (set_bit (b % bpb) (d (bblock b sb))) d)
        ∙ set_bit-slot_ne b c (d (bblock b sb)) e (omega arith)
        ∙ ap (λ (k : ℕ). slot c (d k)) s
  ]

  pub used-unmark_self : (b : ℕ) (d : Disk) → used sb d b ≡ 1 → used sb (unmark b sb d) b ≡ 0
  used-unmark_self b d e =
      ap (slot b) (put_block_at (bblock b sb) (clear_bit (b % bpb) (d (bblock b sb))) d)
      ∙ clear_bit-slot_self b (d (bblock b sb)) e

  pub used-unmark_ne :
      (b c : ℕ) (d : Disk) → used sb d b ≡ 1 → b ≢ c → used sb (unmark b sb d) c ≡ used sb d c
  used-unmark_ne b c d e ne = elim (Bool-cases (bblock b sb == bblock c sb)) [
    | inr other ↦ ap (slot c) (put_block_ne (bblock b sb) (bblock c sb) _ d (ground arith))
    | inl same ↦
        let s : bblock b sb ≡ bblock c sb = ground arith in
        ap (λ (k : ℕ). slot c (unmark b sb d k)) (sym s)
        ∙ ap (slot c) (put_block_at (bblock b sb) (clear_bit (b % bpb) (d (bblock b sb))) d)
        ∙ clear_bit-slot_ne b c (d (bblock b sb)) e (omega arith)
        ∙ ap (λ (k : ℕ). slot c (d k)) s
  ]

-- The bit that the inner loop finds is in range and clear.
pub scan_bits-some :
    (n b bi size r : ℕ) (bp : Block)
    → scan_bits n b bi size bp ≡ some r
    → (bi ≤ r) × (r < bi + n) × (b + r < size) × (bit (bp (r / 8)) (r % 8) ≡ 0)
unfolding scan_bits
scan_bits-some zero b bi size r bp e = absurd (cc)
scan_bits-some (suc n) b bi size r bp e = elim (Bool-cases (ltb (b + bi) size)) [
  | inr end ↦ absurd (cc (rw (end, scan_bits) at e))
  | inl inside ↦ elim (Bool-cases (bit (bp (bi / 8)) (bi % 8) == 0)) [
    | inl free ↦
        let at : bi ≡ r = some-inj (rw free at (rw (inside, scan_bits) at e)) in
        rw (← at) (omega arith, omega arith, ground arith, ground arith)
    | inr taken ↦
        let (lo, hi, lt, clear) =
          scan_bits-some n b (bi + 1) size r bp (rw taken at (rw (inside, scan_bits) at e)) in
        (omega arith, omega arith, lt, clear)
  ]
]

pub scan_bits-none :
    (n b bi size r : ℕ) (bp : Block)
    → scan_bits n b bi size bp ≡ none
    → bi ≤ r
    → r < bi + n
    → b + r < size
    → bit (bp (r / 8)) (r % 8) ≡ 1
unfolding scan_bits
scan_bits-none zero b bi size r bp e lo hi lt = absurd (omega arith)
scan_bits-none (suc n) b bi size r bp e lo hi lt = elim (Bool-cases (ltb (b + bi) size)) [
  | inr end ↦ absurd (ground arith)
  | inl inside ↦ elim (Bool-cases (bit (bp (bi / 8)) (bi % 8) == 0)) [
    | inl free ↦ absurd (cc (rw free at (rw (inside, scan_bits) at e)))
    | inr taken ↦ elim (Bool-cases (bi == r)) [
      | inl same ↦
          let s : bi ≡ r = ground arith in rw (← s) (ground (arith, bit-lt (bp (bi / 8)) (bi % 8)))
      | inr other ↦
          scan_bits-none n b (bi + 1) size r bp (rw taken at (rw (inside, scan_bits) at e))
            (ground arith) (omega arith) lt
    ]
  ]
]
