-- ===== src/Log/Short.antt =====
-- The log that mkfs makes is one block short of what begin_op reserves (Source Code/log.c, mkfs.c).
use tugas_sistem_operasi.Base.{
  ℕ, ◌+◌, ◌-◌, ◌*◌, ◌<◌, ◌≡◌, refl, ◌∙◌, ap, inl, inr, Option, none, some, true, false, List, [],
  ◌∷◌, arith, length, Bool-cases, Option-cases,
}
use tugas_sistem_operasi.Log.Disk.{Block}
use tugas_sistem_operasi.Log.Ops.{Log, max_op_blocks, log_size, begin_op, absorb, log_write}
use tugas_sistem_operasi.Log.Loops.{mem}
use tugas_sistem_operasi.Log.Space.{mem-absorb}

abbrev pub or_panic : Option Log → (Log → Option Log) → Option Log
or_panic none f = none
or_panic (some l) f = f l

-- log_write of one block after another; `v` gives the data.
unfoldable pub log_writes : List ℕ → (ℕ → Block) → Log → Option Log
log_writes [] v l = some l
log_writes (b ∷ bs) v l = or_panic (log_write b (v b) l) (log_writes bs v)

abbrev pub Distinct : List ℕ → Type 0
Distinct [] = Unit
Distinct (b ∷ bs) = (mem b bs ≡ false) × Distinct bs

length-absorb_new : (b : ℕ) (cs : List ℕ) → mem b cs ≡ false → length (absorb b cs) ≡ length cs + 1
unfolding absorb
length-absorb_new b [] e = refl
length-absorb_new b (c ∷ cs) e = ground (arith, length-absorb_new b cs)

log_write-some :
    (b : ℕ) (v : Block) (l m : Log)
    → log_write b v l ≡ some m
    → (m.lh ≡ absorb b l.lh) × (m.size ≡ l.size) × (length l.lh < l.size - 1)
unfolding log_write
log_write-some b v l m e = ground arith

-- The blocks that are left and those in the header fill the log together.
log_writes-full :
    (bs : List ℕ) (v : ℕ → Block) (l : Log)
    → l.size ≡ log_size
    → length l.lh < log_size
    → length l.lh + length bs ≡ log_size
    → Distinct bs
    → ((a : ℕ) → mem a bs ≡ true → mem a l.lh ≡ false)
    → log_writes bs v l ≡ none
unfolding log_writes
log_writes-full [] v l size room full d apart = absurd (omega arith)
log_writes-full (b ∷ bs) v l size room full d apart = elim (Option-cases (log_write b (v b) l)) [
  | inl panics ↦ rw panics refl
  | inr (m, e) ↦
      let (lh, same, below) = log_write-some b (v b) l m e in
      let fresh : mem b l.lh ≡ false = apart b (ground arith) in
      let more : length m.lh ≡ length l.lh + 1 = ap length lh ∙ length-absorb_new b l.lh fresh in
      rw e (
        log_writes-full bs v m (same ∙ size) (omega (arith, more, below, size))
          (omega (arith, more, full)) d.1
          (λ a later. elim (Bool-cases (mem a m.lh)) [
            | inr out ↦ out
            | inl inside ↦ elim (mem-absorb a b l.lh (rw (← lh) inside)) [
              | inl same_block ↦ absurd (cc (d.0, later, ap (λ (c : ℕ). mem c bs) same_block))
              | inr old ↦ absurd (cc (old, apart a (ground (arith, later))))
            ]
          ]))
]

begin_op-some : (l m : Log) → begin_op l ≡ some m → (m.lh ≡ l.lh) × (m.size ≡ l.size)
unfolding begin_op
begin_op-some l m e = ground arith

-- Let the log on the disk have LOGSIZE blocks, as mkfs makes it, and be empty. When begin_op has let
-- three operations start, and they write the MAXOPBLOCKS blocks that it reserves for each, log_write
-- panics, if no two of these blocks are the same.
pub log_write_short :
    (l k m n : Log) (bs : List ℕ) (v : ℕ → Block)
    → l.size ≡ log_size
    → l.lh ≡ []
    → begin_op l ≡ some k
    → begin_op k ≡ some m
    → begin_op m ≡ some n
    → length bs ≡ 3 * max_op_blocks
    → Distinct bs
    → log_writes bs v n ≡ none
log_write_short l k m n bs v size empty first second third long d =
    let (h1, s1) = begin_op-some l k first in
    let (h2, s2) = begin_op-some k m second in
    let (h3, s3) = begin_op-some m n third in
    let none_yet : n.lh ≡ [] = h3 ∙ h2 ∙ h1 ∙ empty in
    let zero_length : length n.lh ≡ 0 = ap length none_yet in
    log_writes-full bs v n (s3 ∙ s2 ∙ s1 ∙ size) (omega (arith, zero_length))
      (omega (arith, zero_length, long)) d (λ a h. rw none_yet refl)
