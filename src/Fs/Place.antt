-- ===== src/Fs/Place.antt =====
-- A new block in one place of an inode: what holds before still holds.
use tugas_sistem_operasi.Base.{
  ℕ, ◌/◌, ◌%◌, ◌≤◌, ◌<◌, ◌≡◌, refl, ◌∙◌, ap, sym, ◌≢◌, inl, inr, Bool, true, false, arith,
  if◌then◌else◌, ◌==◌, ==_refl, ltb, Bool-cases,
}
use tugas_sistem_operasi.Fs.{bpb, Block, Disk, Superblock, bblock, bit}
use tugas_sistem_operasi.Fs.Bitmap.{used}
use tugas_sistem_operasi.Fs.Own.{
  first_data, Layout, IsData, Owns, byte_at, Grows, Extends, bblock-lt,
}

-- Block `a` of disk `d` was free and is allocated on disk `e`; disk `f` differs from `e` in the
-- indirect block at most; place `s` was empty and holds `a` now.
module _ (sb : Superblock) (d e f : Disk) (E F : ℕ → ℕ) (a s : ℕ) (l : Layout sb d)
    (o : Owns sb d E) (lt : a < sb.size) (free : used sb d a ≡ 0) (taken : used sb e a ≡ 1)
    (others : (c : ℕ) → c < sb.size → a ≢ c → used sb e c ≡ used sb d c) (zeros : e a ≡ (λ i. 0))
    (blocks : (k : ℕ) → a ≢ k → bblock a sb ≢ k → e k ≡ d k) (inside : s ≤ 140) (empty : E s ≡ 0)
    (now : (i : ℕ) → i ≤ 140 → F i ≡ (if s == i then a else E i))
    (differ : (k : ℕ) → E 140 ≢ k → f k ≡ e k) where
  a_low : first_data sb ≤ a
  a_low = elim (Bool-cases (ltb a (first_data sb))) [
    | inl low ↦ absurd (ground (arith, l.meta a, free))
    | inr high ↦ ground arith
  ]

  -- The indirect block is not of the bitmap.
  off_map : (c : ℕ) → c < sb.size → E 140 ≢ bblock c sb
  off_map c ltc z = elim (Bool-cases (E 140 == 0)) [
    | inl none_yet ↦ absurd (ground (arith, z, l.boot))
    | inr some_block ↦
        let h = o.owned 140 (omega arith) (ground arith) in
        absurd (omega (arith, h.low, z, bblock-lt sb c ltc))
  ]

  used_now : (c : ℕ) → c < sb.size → used sb f c ≡ used sb e c
  used_now c ltc =
      ap (λ (b : Block). bit (b (c % bpb / 8)) (c % bpb % 8)) (differ (bblock c sb) (off_map c ltc))

  used_other : (c : ℕ) → c < sb.size → a ≢ c → used sb f c ≡ used sb d c
  used_other c ltc ne = used_now c ltc ∙ others c ltc ne

  IsData-stays : (k : ℕ) → IsData sb d k → IsData sb f k
  IsData-stays k h =
      let ne : a ≢ k = λ z. absurd (omega (arith, ap (used sb d) z, free, h.taken)) in
      record { low = h.low; high = h.high; taken = used_other k h.high ne ∙ h.taken }

  -- A data block other than the new and the indirect one.
  block_stays : (k : ℕ) → IsData sb d k → E 140 ≢ k → f k ≡ d k
  block_stays k h ne =
      let new : a ≢ k = λ z. absurd (omega (arith, ap (used sb d) z, free, h.taken)) in
      let off : bblock a sb ≢ k = λ z. absurd (omega (arith, h.low, z, bblock-lt sb a lt)) in
      differ k ne ∙ blocks k new off

  at_s : F s ≡ a
  at_s = now s inside ∙ ap (λ (b : Bool). if b then a else E s) (==_refl s)

  at_other : (i : ℕ) → i ≤ 140 → s ≢ i → F i ≡ E i
  at_other i le ne =
      let z : (s == i) ≡ false = ground arith in
      now i le ∙ ap (λ (b : Bool). if b then a else E i) z

  a-IsData : IsData sb f a
  a-IsData = record { low = a_low; high = lt; taken = used_now a lt ∙ taken }

  -- No place held the new block.
  not_held : (i : ℕ) → i ≤ 140 → E i ≢ a
  not_held i le z =
      let h = o.owned i le (λ w. absurd (omega (arith, a_low, z, w))) in
      absurd (omega (arith, ap (used sb d) z, free, h.taken))

  place-Owns : Owns sb f F
  place-Owns = record {
    owned = λ i le ne. elim (Bool-cases (s == i)) [
      | inl same ↦ let z : s ≡ i = ground arith in rw (← z, at_s) a-IsData
      | inr other ↦
          let z : s ≢ i = ground arith in
          let kept = at_other i le z in
          rw kept (IsData-stays (E i) (o.owned i le (λ w. ne (kept ∙ w))))
    ];
    distinct = λ i j lei lej ne nz. elim (Bool-cases (s == i)) [
      | inl same ↦
          let z : s ≡ i = ground arith in
          let zj : s ≢ j = λ w. ne (sym z ∙ w) in
          λ eq. not_held j lej (sym (at_other j lej zj) ∙ sym eq ∙ ap F (sym z) ∙ at_s)
      | inr other ↦
          let zi : s ≢ i = ground arith in
          let kept = at_other i lei zi in
          elim (Bool-cases (s == j)) [
            | inl same ↦
                let z : s ≡ j = ground arith in
                λ eq. not_held i lei (sym kept ∙ eq ∙ ap F (sym z) ∙ at_s)
            | inr apart ↦
                let zj : s ≢ j = ground arith in
                λ eq.
                  o.distinct i j lei lej ne (λ w. nz (kept ∙ w)) (sym kept ∙ eq ∙ at_other j lej zj)
          ]
    ];
  }

  place-Layout : Layout sb f
  place-Layout = record {
    small = l.small;
    boot = l.boot;
    meta = λ c ltc.
        let inside_disk : c < sb.size = omega (arith, a_low) in
        let ne : a ≢ c = omega (arith, a_low) in used_other c inside_disk ne ∙ l.meta c ltc;
  }

  same_byte : (i b : ℕ) → i < 140 → byte_at F f i b ≡ byte_at E d i b
  same_byte i b lti = elim (Bool-cases (s == i)) [
    | inl same ↦
        let z : s ≡ i = ground arith in
        let fi : F i ≡ a = ap F (sym z) ∙ at_s in
        let ei : E i ≡ 0 = ap E (sym z) ∙ empty in
        let nz : (a == 0) ≡ false = ground (arith, a_low) in
        let ez : (E i == 0) ≡ true = ground arith in
        let block : f a b ≡ 0 =
          ap (λ (v : Block). v b) (differ a (not_held 140 (omega arith)) ∙ zeros) in
        rw (fi, nz, ez) block
    | inr other ↦
        let z : s ≢ i = ground arith in
        let kept = at_other i (omega arith) z in
        elim (Bool-cases (E i == 0)) [
          | inl none_yet ↦ rw (kept, none_yet) refl
          | inr some_block ↦
              let nz : E i ≢ 0 = ground arith in
              let apart : E 140 ≢ E i =
                λ w. o.distinct i 140 (omega arith) (omega arith) (omega arith) nz (sym w) in
              rw (kept, some_block)
                (ap (λ (v : Block). v b) (block_stays (E i) (o.owned i (omega arith) nz) apart))
        ]
  ]

  indirect_held : (k : ℕ) → IsData sb d k → E 140 ≡ k → ¬ ((i : ℕ) → i ≤ 140 → F i ≢ k)
  indirect_held k h z off =
      let ne : s ≢ 140 = λ w. absurd (omega (arith, h.low, z, ap E w, empty)) in
      off 140 (omega arith) (at_other 140 (omega arith) ne ∙ z)

  place-Grows : Grows sb d f E F
  place-Grows = record {
    layout = place-Layout;
    owns = place-Owns;
    kept = λ i le ne. at_other i le (λ z. ne (ap E (sym z) ∙ empty));
    fresh = λ i le. elim (Bool-cases (s == i)) [
      | inl same ↦
          let z : s ≡ i = ground arith in
          inr (rw (← z, at_s) (record { low = a_low; high = lt; clear = free }))
      | inr other ↦ inl (at_other i le (ground arith))
    ];
    frame = λ k h off. block_stays k h (λ z. indirect_held k h z off);
    stays = IsData-stays;
  }

  pub place-Extends : Extends sb d f E F
  place-Extends = record { grows = place-Grows; same = same_byte }
