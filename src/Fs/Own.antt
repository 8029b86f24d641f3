-- ===== src/Fs/Own.antt =====
-- The blocks that an inode owns, through the numbers of its blocks: places 0 to 139 are the blocks of
-- the data, and place 140 is the indirect block.
use tugas_sistem_operasi.Base.{
  ℕ, ◌+◌, ◌/◌, ◌%◌, ◌^◌, ◌≤◌, ◌<◌, ◌≡◌, refl, ◌∙◌, sym, ◌≢◌, ◌⊎◌, inl, inr, arith, if◌then◌else◌,
  ◌==◌, Bool-cases,
}
use tugas_sistem_operasi.Fs.{bpb, Disk, Superblock, bblock}
use tugas_sistem_operasi.Fs.Bits.{bit-lt}
use tugas_sistem_operasi.Fs.Bitmap.{used}
use tugas_sistem_operasi.Fs.Alloc.{MetaUsed}

-- mkfs puts the data behind the bitmap.
abbrev pub first_data : Superblock → ℕ
first_data sb = sb.bmapstart + sb.size / bpb + 1

pub record Layout (sb : Superblock) (d : Disk) : Type 0 where
  pub small : sb.size < 2 ^ 32
  pub boot : 0 < sb.bmapstart
  pub meta : (c : ℕ) → c < first_data sb → used sb d c ≡ 1

-- A block of the data area that is in use.
pub record IsData (sb : Superblock) (d : Disk) (b : ℕ) : Type 0 where
  pub low : first_data sb ≤ b
  pub high : b < sb.size
  pub taken : used sb d b ≡ 1

pub record IsFree (sb : Superblock) (d : Disk) (b : ℕ) : Type 0 where
  pub low : first_data sb ≤ b
  pub high : b < sb.size
  pub clear : used sb d b ≡ 0

pub record Owns (sb : Superblock) (d : Disk) (E : ℕ → ℕ) : Type 0 where
  pub owned : (i : ℕ) → i ≤ 140 → E i ≢ 0 → IsData sb d (E i)
  pub distinct : (i j : ℕ) → i ≤ 140 → j ≤ 140 → i ≢ j → E i ≢ 0 → E i ≢ E j

-- The data by place and offset; a place without a block reads as zeros.
abbrev pub byte_at : (ℕ → ℕ) → Disk → ℕ → ℕ → ℕ
byte_at E d i o = if E i == 0 then 0 else d (E i) o

-- The same blocks, with more blocks perhaps, that were free before; other data blocks are as before.
pub record Grows (sb : Superblock) (d e : Disk) (E F : ℕ → ℕ) : Type 0 where
  pub layout : Layout sb e
  pub owns : Owns sb e F
  pub kept : (i : ℕ) → i ≤ 140 → E i ≢ 0 → F i ≡ E i
  pub fresh : (i : ℕ) → i ≤ 140 → (F i ≡ E i) ⊎ IsFree sb d (F i)
  pub frame : (k : ℕ) → IsData sb d k → ((i : ℕ) → i ≤ 140 → F i ≢ k) → e k ≡ d k
  pub stays : (k : ℕ) → IsData sb d k → IsData sb e k

-- With the same data.
pub record Extends (sb : Superblock) (d e : Disk) (E F : ℕ → ℕ) : Type 0 where
  pub grows : Grows sb d e E F
  pub same : (i o : ℕ) → i < 140 → byte_at F e i o ≡ byte_at E d i o

-- A block other than the boot block and those of the bitmap.
pub record OffMap (sb : Superblock) (k : ℕ) : Type 0 where
  pub some_block : 0 < k
  pub off : (b : ℕ) → b < sb.size → bblock b sb ≢ k

pub bblock-lt : (sb : Superblock) (c : ℕ) → c < sb.size → bblock c sb < first_data sb
bblock-lt sb c lt = omega arith

pub Layout-MetaUsed : (sb : Superblock) (d : Disk) → Layout sb d → MetaUsed sb d
Layout-MetaUsed sb d l c lt = l.meta (bblock c sb) (bblock-lt sb c lt)

pub Grows-refl :
    (sb : Superblock) (d : Disk) (E : ℕ → ℕ) → Layout sb d → Owns sb d E → Grows sb d d E E
Grows-refl sb d E l o = record {
  layout = l;
  owns = o;
  kept = λ i le ne. refl;
  fresh = λ i le. inl refl;
  frame = λ k data_block off. refl;
  stays = λ k h. h;
}

pub Extends-refl :
    (sb : Superblock) (d : Disk) (E : ℕ → ℕ) → Layout sb d → Owns sb d E → Extends sb d d E E
Extends-refl sb d E l o = record { grows = Grows-refl sb d E l o; same = λ i b lt. refl }

pub Grows-trans :
    (sb : Superblock) (d e f : Disk) (E F G : ℕ → ℕ)
    → Grows sb d e E F
    → Grows sb e f F G
    → Grows sb d f E G
Grows-trans sb d e f E F G x y = record {
  layout = y.layout;
  owns = y.owns;
  kept = λ i le ne. y.kept i le (λ z. ne (sym (x.kept i le ne) ∙ z)) ∙ x.kept i le ne;
  fresh = new;
  frame = λ k h off. y.frame k (x.stays k h) off ∙ x.frame k h (λ i le z. reached k h off i le z);
  stays = λ k h. y.stays k (x.stays k h);
}
  where
    was_free : (k : ℕ) → IsFree sb e k → used sb d k ≡ 0
    was_free k free = elim (Bool-cases (used sb d k == 0)) [
      | inl z ↦ ground arith
      | inr nz ↦
          let one : used sb d k ≡ 1 =
            ground (arith, bit-lt (d (bblock k sb) (k % bpb / 8)) (k % bpb % 8)) in
          let later = x.stays k (record { low = free.low; high = free.high; taken = one }) in
          absurd (omega (arith, later.taken, free.clear))
    ]

    new : (i : ℕ) → i ≤ 140 → (G i ≡ E i) ⊎ IsFree sb d (G i)
    new i le = elim (y.fresh i le) [
      | inl s ↦ elim (x.fresh i le) [ inl t ↦ inl (s ∙ t) | inr t ↦ inr (rw s t) ]
      | inr free ↦ inr (record { low = free.low; high = free.high; clear = was_free (G i) free })
    ]

    reached : (k : ℕ) → IsData sb d k → ((i : ℕ) → i ≤ 140 → G i ≢ k) → (i : ℕ) → i ≤ 140 → F i ≢ k
    reached k h off i le z =
        let nz : F i ≢ 0 = λ w. absurd (omega (arith, h.low, z, w)) in off i le (y.kept i le nz ∙ z)

pub Extends-trans :
    (sb : Superblock) (d e f : Disk) (E F G : ℕ → ℕ)
    → Extends sb d e E F
    → Extends sb e f F G
    → Extends sb d f E G
Extends-trans sb d e f E F G x y = record {
  grows = Grows-trans sb d e f E F G x.grows y.grows;
  same = λ i o lt. y.same i o lt ∙ x.same i o lt;
}
