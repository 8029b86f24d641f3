-- ===== src/Fs/Map.antt =====
-- bmap finds the block of a place, or adds one.
use tugas_sistem_operasi.Base.{
  ℕ, ◌+◌, ◌-◌, ◌≤◌, ◌<◌, ◌≡◌, refl, ◌∙◌, ap, sym, ◌≢◌, inl, inr, Option, none, some, Bool, true,
  arith, if◌then◌else◌, ◌==◌, ==_refl, ltb, Bool-cases,
}
use tugas_sistem_operasi.Memory.{poke}
use tugas_sistem_operasi.Fs.{Disk, put_block, Superblock, bblock, balloc}
use tugas_sistem_operasi.Fs.Bitmap.{used, put_block_at, put_block_ne}
use tugas_sistem_operasi.Fs.Alloc.{Allocates, full, takes, balloc-Allocates}
use tugas_sistem_operasi.Fs.Inode.{Inode, word_at, put_word, addr_or_alloc, entry_or_alloc, bmap}
use tugas_sistem_operasi.Fs.Own.{
  Layout, Layout-MetaUsed, Owns, OffMap, Extends, Extends-refl, Extends-trans, bblock-lt,
}
use tugas_sistem_operasi.Fs.Place.{place-Extends}
use tugas_sistem_operasi.Fs.Entry.{
  entry, place, entry_direct, entry_listed, entry-poke, entry-put_word,
}

-- The results of a search for the block in a place.
pub data Maps (sb : Superblock) (ip : Inode) (d : Disk) (i : ℕ)
    : Option (ℕ × Inode × Disk) → Type 0 where
  no_space :
      (jp : Inode) (e : Disk)
      → Extends sb d e (entry ip d) (entry jp e)
      → ((c : ℕ) → c < sb.size → used sb e c ≡ 1)
      → Maps sb ip d i none
  found :
      (a : ℕ) (addrs : ℕ → ℕ) (e : Disk)
      → Extends sb d e (entry ip d) (entry (record ip { addrs = addrs }) e)
      → a ≡ entry (record ip { addrs = addrs }) e i
      → a ≢ 0
      → ((k : ℕ) → OffMap sb k → a ≢ k → addrs 12 ≢ k → e k ≡ d k)
      → Maps sb ip d i (some (a, record ip { addrs = addrs }, e))

module _ (sb : Superblock) where
  -- A block in use for a place keeps its contents when another is allocated.
  owned_stays :
      (d e : Disk) (E : ℕ → ℕ) (a i : ℕ)
      → Owns sb d E
      → a < sb.size
      → used sb d a ≡ 0
      → ((k : ℕ) → a ≢ k → bblock a sb ≢ k → e k ≡ d k)
      → i ≤ 140
      → E i ≢ 0
      → e (E i) ≡ d (E i)
  owned_stays d e E a i o lt free blocks le nz =
      let h = o.owned i le nz in
      blocks (E i) (λ z. absurd (omega (arith, ap (used sb d) z, free, h.taken)))
        (λ z. absurd (omega (arith, h.low, z, bblock-lt sb a lt)))

  entry_place : (s : ℕ) (ip : Inode) (d : Disk) → s ≤ 12 → entry ip d (place s) ≡ ip.addrs s
  entry_place s ip d le = elim (Bool-cases (ltb s 12)) [
    | inl direct ↦ rw direct (entry_direct ip d s (ground arith))
    | inr top ↦ let e : 12 ≡ s = ground arith in rw top (ap ip.addrs e)
  ]

  -- The inode and the disk after balloc, for the place of ip->addrs[s].
  filled :
      (s : ℕ) (ip : Inode) (d : Disk)
      → s ≤ 12
      → ip.addrs s ≡ 0
      → Layout sb d
      → Owns sb d (entry ip d)
      → (r : Option (ℕ × Disk)) → Allocates sb d r
      → Maps sb ip d (place s) (elim r [
        | none ↦ none
        | some (b, e) ↦ some (b, record ip { addrs = poke s b ip.addrs }, e)
      ])
  filled s ip d le empty l o _ (full all_used) =
      no_space ip d (Extends-refl sb d (entry ip d) l o) all_used
  filled s ip d le empty l o _ (takes b e lt free taken others zeros blocks) =
      let at = entry_place s ip d le in
      let now =
        entry-poke ip d e s b le empty zeros
          (λ nz. owned_stays d e (entry ip d) b 140 o lt free blocks (omega arith) nz) in
      let inside : place s ≤ 140 = ground arith in
      let x =
        place-Extends sb d e e (entry ip d) (entry (record ip { addrs = poke s b ip.addrs }) e) b
          (place s) l o lt free taken others zeros blocks inside (at ∙ empty) now (λ k ne. refl) in
      let nz : b ≢ 0 =
        λ z. absurd (omega (arith, ap (used sb d) z, free, l.meta 0 (omega arith))) in
      found b (poke s b ip.addrs) e x
        (sym (
          now (place s) inside
          ∙ ap (λ (c : Bool). if c then b else entry ip d (place s)) (==_refl (place s))))
        nz (λ k h ne top. blocks k ne (h.off b lt))

  -- addr_or_alloc finds or fills the place of ip->addrs[s].
  addr_or_alloc-Maps :
      (s : ℕ) (ip : Inode) (d : Disk)
      → s ≤ 12
      → Layout sb d
      → Owns sb d (entry ip d)
      → Maps sb ip d (place s) (addr_or_alloc sb s ip d)
  unfolding addr_or_alloc
  addr_or_alloc-Maps s ip d le l o = elim (Bool-cases (ip.addrs s == 0)) [
    | inr some_block ↦
        rw (some_block, addr_or_alloc)
          (found (ip.addrs s) ip.addrs d (Extends-refl sb d (entry ip d) l o)
            (sym (entry_place s ip d le)) (ground arith) (λ k h ne top. refl))
    | inl none_yet ↦
        let empty : ip.addrs s ≡ 0 = ground arith in
        rw (none_yet, addr_or_alloc)
          (filled s ip d le empty l o (balloc sb d)
            (balloc-Allocates sb d (Layout-MetaUsed sb d l)))
  ]

  -- The results of entry_or_alloc for entry `bn` of an inode's indirect block.
  pub data Lists (ip : Inode) (d : Disk) (bn : ℕ) : Option (ℕ × Disk) → Type 0 where
    no_entry : ((c : ℕ) → c < sb.size → used sb d c ≡ 1) → Lists ip d bn none
    listed :
        (b : ℕ) (e : Disk)
        → Extends sb d e (entry ip d) (entry ip e)
        → b ≡ entry ip e (bn + 12)
        → b ≢ 0
        → ((k : ℕ) → OffMap sb k → b ≢ k → ip.addrs 12 ≢ k → e k ≡ d k)
        → Lists ip d bn (some (b, e))

  entry_at :
      (ip : Inode) (d : Disk) (bn : ℕ)
      → bn < 128
      → ip.addrs 12 ≢ 0
      → entry ip d (bn + 12) ≡ word_at (d (ip.addrs 12)) bn
  entry_at ip d bn lt nz =
      entry_listed ip d (bn + 12) (omega arith) (omega arith) nz
      ∙ ap (word_at (d (ip.addrs 12))) (omega arith)

  added :
      (ip : Inode) (d : Disk) (bn : ℕ)
      → bn < 128
      → ip.addrs 12 ≢ 0
      → word_at (d (ip.addrs 12)) bn ≡ 0
      → Layout sb d
      → Owns sb d (entry ip d)
      → (r : Option (ℕ × Disk)) → Allocates sb d r
      → Lists ip d bn (elim r [
        | none ↦ none
        | some (b, e) ↦ some (b, put_block (ip.addrs 12) (put_word bn b (e (ip.addrs 12))) e)
      ])
  added ip d bn lt nz empty l o _ (full all_used) = no_entry all_used
  added ip d bn lt nz empty l o _ (takes b e ltb free taken others zeros blocks) =
      let addr = ip.addrs 12 in
      let f = put_block addr (put_word bn b (e addr)) e in
      let stays = owned_stays d e (entry ip d) b 140 o ltb free blocks (omega arith) nz in
      let changed = put_block_at addr (put_word bn b (e addr)) e ∙ ap (put_word bn b) stays in
      let now = entry-put_word ip d f bn b lt (omega (arith, l.small)) nz changed in
      let x =
        place-Extends sb d e f (entry ip d) (entry ip f) b (bn + 12) l o ltb free taken others zeros
          blocks (omega arith) (entry_at ip d bn lt nz ∙ empty) now
          (λ k ne. put_block_ne addr k (put_word bn b (e addr)) e ne) in
      let nz0 : b ≢ 0 =
        λ z. absurd (omega (arith, ap (used sb d) z, free, l.meta 0 (omega arith))) in
      listed b f x
        (sym (
          now (bn + 12) (omega arith)
          ∙ ap (λ (c : Bool). if c then b else entry ip d (bn + 12)) (==_refl (bn + 12))))
        nz0
        (λ k h ne top.
          put_block_ne addr k (put_word bn b (e addr)) e top ∙ blocks k ne (h.off b ltb))

  entry_or_alloc-Lists :
      (ip : Inode) (d : Disk) (bn : ℕ)
      → bn < 128
      → ip.addrs 12 ≢ 0
      → Layout sb d
      → Owns sb d (entry ip d)
      → Lists ip d bn (entry_or_alloc sb (ip.addrs 12) bn d)
  unfolding entry_or_alloc
  entry_or_alloc-Lists ip d bn lt nz l o = elim (Bool-cases (word_at (d (ip.addrs 12)) bn == 0)) [
    | inr some_block ↦
        rw (some_block, entry_or_alloc)
          (listed (word_at (d (ip.addrs 12)) bn) d (Extends-refl sb d (entry ip d) l o)
            (sym (entry_at ip d bn lt nz)) (ground arith) (λ k h ne top. refl))
    | inl none_yet ↦
        rw (none_yet, entry_or_alloc)
          (added ip d bn lt nz (ground arith) l o (balloc sb d)
            (balloc-Allocates sb d (Layout-MetaUsed sb d l)))
  ]

  -- The block `a` of the indirect block is known; the entry in it follows.
  with_entry :
      (ip : Inode) (d : Disk) (addrs : ℕ → ℕ) (e : Disk) (i : ℕ)
      → 12 ≤ i
      → i < 140
      → Extends sb d e (entry ip d) (entry (record ip { addrs = addrs }) e)
      → ((k : ℕ) → OffMap sb k → addrs 12 ≢ k → e k ≡ d k)
      → (r : Option (ℕ × Disk)) → Lists (record ip { addrs = addrs }) e (i - 12) r
      → Maps sb ip d i
          (elim r [ none ↦ none | some (b, f) ↦ some (b, record ip { addrs = addrs }, f) ])
  with_entry ip d addrs e i lo hi x first _ (no_entry all_used) =
      no_space (record ip { addrs = addrs }) e x all_used
  with_entry ip d addrs e i lo hi x first _ (listed b f y at nz touched) =
      let jp = record ip { addrs = addrs } in
      let same : i - 12 + 12 ≡ i = omega arith in
      found b addrs f (Extends-trans sb d e f (entry ip d) (entry jp e) (entry jp f) x y)
        (at ∙ ap (entry jp f) same) nz (λ k h ne top. touched k h ne top ∙ first k h top)

  with_indirect :
      (ip : Inode) (d : Disk) (i : ℕ)
      → 12 ≤ i
      → i < 140
      → (r : Option (ℕ × Inode × Disk)) → Maps sb ip d 140 r
      → Maps sb ip d i (elim r [
        | none ↦ none
        | some (addr, ip1, d1) ↦ elim (entry_or_alloc sb addr (i - 12) d1) [
          | none ↦ none
          | some (b, d2) ↦ some (b, ip1, d2)
        ]
      ])
  with_indirect ip d i lo hi _ (no_space jp e x all_used) = no_space jp e x all_used
  with_indirect ip d i lo hi _ (found a addrs e x at nz touched) =
      let jp = record ip { addrs = addrs } in
      rw at (
        with_entry ip d addrs e i lo hi x (λ k h top. touched k h (λ z. top (sym at ∙ z)) top)
          (entry_or_alloc sb (jp.addrs 12) (i - 12) e)
          (entry_or_alloc-Lists jp e (i - 12) (omega arith) (λ z. nz (at ∙ z)) x.grows.layout
            x.grows.owns))

  pub bmap-Maps :
      (i : ℕ) (ip : Inode) (d : Disk)
      → i < 140
      → Layout sb d
      → Owns sb d (entry ip d)
      → Maps sb ip d i (bmap sb i ip d)
  unfolding bmap
  bmap-Maps i ip d lt l o = elim (Bool-cases (ltb i 12)) [
    | inl direct ↦
        let at : place i ≡ i = ground arith in
        let m = addr_or_alloc-Maps i ip d (ground arith) l o in rw (direct, bmap) (rw at at m)
    | inr indirect ↦
        let near : ltb (i - 12) 128 ≡ true = ground arith in
        rw (indirect, bmap)
          (rw near (
            with_indirect ip d i (ground arith) lt (addr_or_alloc sb 12 ip d)
              (addr_or_alloc-Maps 12 ip d (omega arith) l o)))
  ]
