-- ===== src/Fs/Entry.antt =====
-- The number of the block in each place of an inode, and how it changes.
use tugas_sistem_operasi.Base.{
  ℕ, ◌+◌, ◌-◌, ◌*◌, ◌/◌, ◌%◌, ◌^◌, ◌≤◌, ◌<◌, ◌≡◌, refl, ◌∙◌, ap, sym, ◌≢◌, ◌⊎◌, inl, inr, true,
  false, arith, if◌then◌else◌, ◌==◌, ltb, Bool-cases,
}
use tugas_sistem_operasi.Memory.{poke, poke_word}
use tugas_sistem_operasi.Fs.{Block, Disk}
use tugas_sistem_operasi.Fs.Inode.{Inode, word_at, put_word}

poke_word_0 : (p w : ℕ) (a : Block) → poke_word p w a p ≡ w % 256
poke_word_0 p w a = ground arith

poke_word_1 : (p w : ℕ) (a : Block) → poke_word p w a (p + 1) ≡ w / 2 ^ 8 % 256
poke_word_1 p w a = ground arith

poke_word_2 : (p w : ℕ) (a : Block) → poke_word p w a (p + 2) ≡ w / 2 ^ 16 % 256
poke_word_2 p w a = ground arith

poke_word_3 : (p w : ℕ) (a : Block) → poke_word p w a (p + 3) ≡ w / 2 ^ 24 % 256
poke_word_3 p w a = ground arith

poke_word_off : (p w q : ℕ) (a : Block) → (q < p) ⊎ (p + 4 ≤ q) → poke_word p w a q ≡ a q
poke_word_off p w q a out = ground arith

pub word_at-put_word_self : (j w : ℕ) (a : Block) → w < 2 ^ 32 → word_at (put_word j w a) j ≡ w
unfolding word_at
word_at-put_word_self j w a lt = omega (
  arith,
  poke_word_0 (4 * j) w a,
  poke_word_1 (4 * j) w a,
  poke_word_2 (4 * j) w a,
  poke_word_3 (4 * j) w a,
)

pub word_at-put_word_ne : (j w i : ℕ) (a : Block) → j ≢ i → word_at (put_word j w a) i ≡ word_at a i
unfolding word_at
word_at-put_word_ne j w i a ne = omega (
  arith,
  poke_word_off (4 * j) w (4 * i) a (omega arith),
  poke_word_off (4 * j) w (4 * i + 1) a (omega arith),
  poke_word_off (4 * j) w (4 * i + 2) a (omega arith),
  poke_word_off (4 * j) w (4 * i + 3) a (omega arith),
)

pub word_at-zeros : (i : ℕ) → word_at (λ k. 0) i ≡ 0
unfolding word_at
word_at-zeros i = omega arith

-- The number of the block in each place.
abbrev pub entry : Inode → Disk → ℕ → ℕ
entry ip d i =
    if ltb i 12
    then ip.addrs i
    else if i == 140
    then ip.addrs 12
    else if ip.addrs 12 == 0
    then 0
    else word_at (d (ip.addrs 12)) (i - 12)

-- The place of an element of ip->addrs.
abbrev pub place : ℕ → ℕ
place i = if ltb i 12 then i else 140

pub entry_direct : (ip : Inode) (d : Disk) (i : ℕ) → i < 12 → entry ip d i ≡ ip.addrs i
entry_direct ip d i lt = let e : ltb i 12 ≡ true = ground arith in rw e refl

pub entry_missing :
    (ip : Inode) (d : Disk) (i : ℕ) → 12 ≤ i → i < 140 → ip.addrs 12 ≡ 0 → entry ip d i ≡ 0
entry_missing ip d i lo hi z =
    let e : ltb i 12 ≡ false = ground arith in
    let f : (i == 140) ≡ false = ground arith in
    let g : (ip.addrs 12 == 0) ≡ true = ground arith in rw (e, f, g) refl

pub entry_listed :
    (ip : Inode) (d : Disk) (i : ℕ)
    → 12 ≤ i
    → i < 140
    → ip.addrs 12 ≢ 0
    → entry ip d i ≡ word_at (d (ip.addrs 12)) (i - 12)
entry_listed ip d i lo hi nz =
    let e : ltb i 12 ≡ false = ground arith in
    let f : (i == 140) ≡ false = ground arith in
    let g : (ip.addrs 12 == 0) ≡ false = ground arith in rw (e, f, g) refl

-- A place is direct, or the indirect block, or listed in it.
pub place-cases : (i : ℕ) → i ≤ 140 → (i < 12) ⊎ ((i ≡ 140) ⊎ ((12 ≤ i) × (i < 140)))
place-cases i le = ground arith

entry-poke_low :
    (ip : Inode) (d e : Disk) (s b : ℕ)
    → s < 12
    → ip.addrs s ≡ 0
    → (ip.addrs 12 ≢ 0 → e (ip.addrs 12) ≡ d (ip.addrs 12))
    → (i : ℕ) → i ≤ 140
    → entry (record ip { addrs = poke s b ip.addrs }) e i
      ≡ (if place s == i then b else entry ip d i)
entry-poke_low ip d e s b lt empty stays i lei =
    let jp = record ip { addrs = poke s b ip.addrs } in
    let at : place s ≡ s = ground arith in
    let top : poke s b ip.addrs 12 ≡ ip.addrs 12 = ground arith in
    elim (place-cases i lei) [
      | inl direct ↦
          entry_direct jp e i direct
          ∙ ap (λ (v : ℕ). if s == i then b else v) (sym (entry_direct ip d i direct))
          ∙ ap (λ (v : ℕ). if v == i then b else entry ip d i) (sym at)
      | inr (inl last) ↦ let ne : (place s == i) ≡ false = ground arith in rw (ne, last) top
      | inr (inr (lo, hi)) ↦
          let ne : (place s == i) ≡ false = ground arith in
          elim (Bool-cases (ip.addrs 12 == 0)) [
            | inl z ↦
                let z0 : ip.addrs 12 ≡ 0 = ground arith in
                rw ne (entry_missing jp e i lo hi (top ∙ z0) ∙ sym (entry_missing ip d i lo hi z0))
            | inr nz ↦
                let n0 : ip.addrs 12 ≢ 0 = ground arith in
                rw ne (
                  entry_listed jp e i lo hi (λ w. n0 (sym top ∙ w))
                  ∙ ap (λ (k : ℕ). word_at (e k) (i - 12)) top
                  ∙ ap (λ (v : Block). word_at v (i - 12)) (stays n0)
                  ∙ sym (entry_listed ip d i lo hi n0))
          ]
    ]

entry-poke_top :
    (ip : Inode) (d e : Disk) (s b : ℕ)
    → s ≡ 12
    → ip.addrs s ≡ 0
    → e b ≡ (λ i. 0)
    → (i : ℕ) → i ≤ 140
    → entry (record ip { addrs = poke s b ip.addrs }) e i
      ≡ (if place s == i then b else entry ip d i)
entry-poke_top ip d e s b s12 empty zeros i lei =
    let jp = record ip { addrs = poke s b ip.addrs } in
    let at : place s ≡ 140 = ground arith in
    let top : poke s b ip.addrs 12 ≡ b = ground arith in
    let old : ip.addrs 12 ≡ 0 = ap ip.addrs (sym s12) ∙ empty in
    elim (place-cases i lei) [
      | inl direct ↦
          let ne : (place s == i) ≡ false = ground arith in
          let other : poke s b ip.addrs i ≡ ip.addrs i = ground arith in
          rw ne (entry_direct jp e i direct ∙ other ∙ sym (entry_direct ip d i direct))
      | inr (inl last) ↦ let eq : (place s == i) ≡ true = ground arith in rw (eq, last) top
      | inr (inr (lo, hi)) ↦
          let ne : (place s == i) ≡ false = ground arith in
          rw ne (listed jp lo hi top ∙ sym (entry_missing ip d i lo hi old))
    ]
  where
    listed : (jp : Inode) → 12 ≤ i → i < 140 → jp.addrs 12 ≡ b → entry jp e i ≡ 0
    listed jp lo hi top = elim (Bool-cases (jp.addrs 12 == 0)) [
      | inl z ↦ entry_missing jp e i lo hi (ground arith)
      | inr nz ↦
          entry_listed jp e i lo hi (ground arith)
          ∙ ap (λ (k : ℕ). word_at (e k) (i - 12)) top
          ∙ ap (λ (v : Block). word_at v (i - 12)) zeros
          ∙ word_at-zeros (i - 12)
    ]

-- The places after a new block `b` in ip->addrs[s].
pub entry-poke :
    (ip : Inode) (d e : Disk) (s b : ℕ)
    → s ≤ 12
    → ip.addrs s ≡ 0
    → e b ≡ (λ i. 0)
    → (ip.addrs 12 ≢ 0 → e (ip.addrs 12) ≡ d (ip.addrs 12))
    → (i : ℕ) → i ≤ 140
    → entry (record ip { addrs = poke s b ip.addrs }) e i
      ≡ (if place s == i then b else entry ip d i)
entry-poke ip d e s b le empty zeros stays i lei = elim (Bool-cases (s == 12)) [
  | inl top ↦ let s12 : s ≡ 12 = ground arith in entry-poke_top ip d e s b s12 empty zeros i lei
  | inr low ↦ entry-poke_low ip d e s b (ground arith) empty stays i lei
]

-- The places after a new entry `bn` in the indirect block.
pub entry-put_word :
    (ip : Inode) (d e : Disk) (bn b : ℕ)
    → bn < 128
    → b < 2 ^ 32
    → ip.addrs 12 ≢ 0
    → e (ip.addrs 12) ≡ put_word bn b (d (ip.addrs 12))
    → (i : ℕ) → i ≤ 140
    → entry ip e i ≡ (if bn + 12 == i then b else entry ip d i)
entry-put_word ip d e bn b lt word nz changed i lei = elim (place-cases i lei) [
  | inl direct ↦
      let ne : (bn + 12 == i) ≡ false = ground arith in
      rw ne (entry_direct ip e i direct ∙ sym (entry_direct ip d i direct))
  | inr (inl last) ↦ let ne : (bn + 12 == i) ≡ false = ground arith in rw (ne, last) refl
  | inr (inr (lo, hi)) ↦
      entry_listed ip e i lo hi nz
      ∙ ap (λ (v : Block). word_at v (i - 12)) changed
      ∙ elim (Bool-cases (bn + 12 == i)) [
        | inl same ↦
            let z : i - 12 ≡ bn = ground arith in
            rw same (rw z (word_at-put_word_self bn b (d (ip.addrs 12)) word))
        | inr other ↦
            let z : bn ≢ i - 12 = ground arith in
            rw other (
              word_at-put_word_ne bn b (i - 12) (d (ip.addrs 12)) z
              ∙ sym (entry_listed ip d i lo hi nz))
      ]
]
