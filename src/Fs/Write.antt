-- ===== src/Fs/Write.antt =====
-- The loop of writei puts the bytes into the data of the inode.
use tugas_sistem_operasi.Base.{
  ℕ, zero, suc, ◌+◌, ◌-◌, ◌*◌, ◌/◌, ◌%◌, ◌≤◌, ◌<◌, ◌≡◌, refl, ◌∙◌, ap, sym, ◌≢◌, inl, inr, Option,
  none, some, true, false, ◌&&◌, List, arith, if◌then◌else◌, ◌==◌, ltb, leb, length, take, drop,
  get_or, length-take, length-drop, get_or-take, get_or-drop, Bool-cases,
}
use tugas_sistem_operasi.Fs.{b_size, Block, Disk, put_block, Superblock}
use tugas_sistem_operasi.Fs.Bitmap.{used, put_block_ne}
use tugas_sistem_operasi.Fs.Inode.{Inode, bmap}
use tugas_sistem_operasi.Fs.Own.{Layout, Owns, OffMap, byte_at, Grows, Grows-refl, Grows-trans}
use tugas_sistem_operasi.Fs.Entry.{entry}
use tugas_sistem_operasi.Fs.Map.{Maps, no_space, found, bmap-Maps}
use tugas_sistem_operasi.Fs.Data.{min, max_file, copy_in, write_loop}
use tugas_sistem_operasi.Fs.Read.{file_byte, found_byte}
use tugas_sistem_operasi.Fs.Store.{store-Grows, store_here, store_other}

-- The results of the loop of writei for some bytes at offset `off`.
pub data Wrote (sb : Superblock) (ip : Inode) (d : Disk) (off : ℕ) (bytes : List ℕ)
    : Option (Inode × Disk) → Type 0 where
  blocked :
      (jp : Inode) (e : Disk)
      → Grows sb d e (entry ip d) (entry jp e)
      → ((c : ℕ) → c < sb.size → used sb e c ≡ 1)
      → Wrote sb ip d off bytes none
  wrote :
      (addrs : ℕ → ℕ) (e : Disk)
      → Grows sb d e (entry ip d) (entry (record ip { addrs = addrs }) e)
      → ((o : ℕ)
          → o < max_file * b_size
          → file_byte (record ip { addrs = addrs }) e o ≡ copy_in bytes off (file_byte ip d) o)
      → ((k : ℕ)
          → OffMap sb k
          → addrs 12 ≢ k
          → ((i : ℕ)
              → off / b_size ≤ i
              → i * b_size < off + length bytes
              → entry (record ip { addrs = addrs }) e i ≢ k)
          → e k ≡ d k)
      → Wrote sb ip d off bytes (some (record ip { addrs = addrs }, e))

-- The first bytes and those behind them.
copy_in-split :
    (m off o : ℕ) (bytes : List ℕ) (f : ℕ → ℕ)
    → m ≤ length bytes
    → copy_in (drop m bytes) (off + m) (copy_in (take m bytes) off f) o ≡ copy_in bytes off f o
copy_in-split m off o bytes f le =
    let t = length-take m bytes le in
    let r = length-drop m bytes in
    elim (Bool-cases (leb (off + m) o && ltb o (off + m + length (drop m bytes)))) [
      | inl late ↦
          let all : (leb off o && ltb o (off + length bytes)) ≡ true = ground (arith, r) in
          let there : m + (o - (off + m)) ≡ o - off = ground arith in
          rw (late, all)
            (get_or-drop m (o - (off + m)) bytes ∙ ap (λ (k : ℕ). get_or bytes k 0) there)
      | inr early ↦ elim (Bool-cases (leb off o && ltb o (off + length (take m bytes)))) [
        | inl here ↦
            let all : (leb off o && ltb o (off + length bytes)) ≡ true = ground (arith, t) in
            rw (early, here, all) (get_or-take m (o - off) bytes (ground (arith, t)))
        | inr out ↦
            let none_of : (leb off o && ltb o (off + length bytes)) ≡ false =
              ground (arith, t, r) in
            rw (early, out, none_of) refl
      ]
    ]

-- Within its block, a piece lies at the same place as in the file.
copy_in_block :
    (off o : ℕ) (piece : List ℕ) (v : Block) (f : ℕ → ℕ)
    → length piece ≤ b_size - off % b_size
    → off / b_size ≡ o / b_size
    → v (o % b_size) ≡ f o
    → copy_in piece (off % b_size) v (o % b_size) ≡ copy_in piece off f o
copy_in_block off o piece v f fits same at =
    elim (Bool-cases (leb off o && ltb o (off + length piece))) [
      | inl here ↦
          let inside : (leb (off % b_size) (o % b_size)
                && ltb (o % b_size) (off % b_size + length piece))
              ≡ true =
            ground arith in
          let there : o % b_size - off % b_size ≡ o - off = omega arith in
          rw (here, inside) (ap (λ (k : ℕ). get_or piece k 0) there)
      | inr out ↦
          let outside : (leb (off % b_size) (o % b_size)
                && ltb (o % b_size) (off % b_size + length piece))
              ≡ false =
            ground arith in
          rw (out, outside) at
    ]

copy_in_other :
    (off o : ℕ) (piece : List ℕ) (f : ℕ → ℕ)
    → length piece ≤ b_size - off % b_size
    → off / b_size ≢ o / b_size
    → copy_in piece off f o ≡ f o
copy_in_other off o piece f fits ne =
    let outside : (leb off o && ltb o (off + length piece)) ≡ false = ground arith in
    rw outside refl

copy_in-ap :
    (off o : ℕ) (bytes : List ℕ) (f g : ℕ → ℕ)
    → f o ≡ g o
    → copy_in bytes off f o ≡ copy_in bytes off g o
copy_in-ap off o bytes f g e =
    ap (λ (v : ℕ). if leb off o && ltb o (off + length bytes) then get_or bytes (o - off) 0 else v)
      e

module _ (sb : Superblock) where
  -- The data after one round, on a disk with the data of before.
  round_bytes :
      (ip jp : Inode) (d e : Disk) (off a o : ℕ) (piece : List ℕ)
      → Layout sb e
      → Owns sb e (entry jp e)
      → off / b_size < 140
      → length piece ≤ b_size - off % b_size
      → ((i b : ℕ) → i < 140 → byte_at (entry jp e) e i b ≡ byte_at (entry ip d) d i b)
      → a ≡ entry jp e (off / b_size)
      → a ≢ 0
      → o < max_file * b_size
      → file_byte jp (put_block a (copy_in piece (off % b_size) (e a)) e) o
        ≡ copy_in piece off (file_byte ip d) o
  round_bytes ip jp d e off a o piece l own lt fits same at nz lto =
      let v = copy_in piece (off % b_size) (e a) in
      elim (Bool-cases (off / b_size == o / b_size)) [
        | inl here ↦
            let z : off / b_size ≡ o / b_size = ground arith in
            let atz : a ≡ entry jp e (o / b_size) = at ∙ ap (entry jp e) z in
            store_here sb jp e (o / b_size) a v l own (omega arith) atz nz (o % b_size)
            ∙ copy_in_block off o piece (e a) (file_byte ip d) fits z (
                sym (found_byte jp e a (o / b_size) (o % b_size) atz nz)
                ∙ same (o / b_size) (o % b_size) (omega arith))
        | inr there ↦
            let ne : off / b_size ≢ o / b_size = ground arith in
            store_other sb jp e (off / b_size) a v l own lt at nz (o / b_size) (o % b_size)
              (omega arith) ne
            ∙ same (o / b_size) (o % b_size) (omega arith)
            ∙ sym (copy_in_other off o piece (file_byte ip d) fits ne)
      ]

  -- A round and the rounds behind it.
  with_rest :
      (ip : Inode) (d e : Disk) (off m : ℕ) (bytes : List ℕ) (addrs : ℕ → ℕ)
      → m ≤ length bytes
      → Grows sb d e (entry ip d) (entry (record ip { addrs = addrs }) e)
      → ((o : ℕ)
          → o < max_file * b_size
          → file_byte (record ip { addrs = addrs }) e o
            ≡ copy_in (take m bytes) off (file_byte ip d) o)
      → 0 < length bytes
      → off + length bytes ≤ max_file * b_size
      → entry (record ip { addrs = addrs }) e (off / b_size) ≢ 0
      → ((k : ℕ)
          → OffMap sb k
          → entry (record ip { addrs = addrs }) e (off / b_size) ≢ k
          → addrs 12 ≢ k
          → e k ≡ d k)
      → (r : Option (Inode × Disk))
      → Wrote sb (record ip { addrs = addrs }) e (off + m) (drop m bytes) r
      → Wrote sb ip d off bytes r
  with_rest ip d e off m bytes addrs le x first lt room nz touched _ (blocked jp f y all_used) =
      blocked jp f
        (Grows-trans sb d e f (entry ip d) (entry (record ip { addrs = addrs }) e) (entry jp f) x y)
        all_used
  with_rest ip d e off m bytes addrs le x first lt room nz touched _ (wrote more f y rest later) =
      wrote more f
        (Grows-trans sb d e f (entry ip d) (entry (record ip { addrs = addrs }) e)
          (entry (record ip { addrs = more }) f) x y)
        (λ o lt.
          rest o lt
          ∙ copy_in-ap (off + m) o (drop m bytes) (file_byte (record ip { addrs = addrs }) e)
              (copy_in (take m bytes) off (file_byte ip d)) (first o lt)
          ∙ copy_in-split m off o bytes (file_byte ip d) le)
        (λ k h top places.
          let jp = record ip { addrs = addrs } in
          let indirect : addrs 12 ≢ k = λ z.
            let live : addrs 12 ≢ 0 = λ w. absurd (omega (arith, h.some_block, z, w)) in
            top (y.kept 140 (omega arith) live ∙ z) in
          let here : entry jp e (off / b_size) ≢ k = λ z.
            places (off / b_size) (omega arith) (omega (arith, lt))
              (y.kept (off / b_size) (omega (arith, room, lt)) nz ∙ z) in
          let behind = length-drop m bytes in
          later k h top (λ i lo hi. places i (omega (arith, lo)) (omega (arith, hi, behind, le)))
          ∙ touched k h here indirect)

  round :
      (n off : ℕ)
      → 0 < n
      → (0 < min n (b_size - off % b_size))
        × (min n (b_size - off % b_size) ≤ n)
        × (min n (b_size - off % b_size) ≤ b_size - off % b_size)
  round n off lt = ground arith

  with_block :
      (rounds : ℕ) (ip : Inode) (d : Disk) (off : ℕ) (bytes : List ℕ)
      → 0 < length bytes
      → off + length bytes ≤ max_file * b_size
      → ((m : ℕ) (jp : Inode) (e : Disk)
          → 0 < m
          → m ≤ length bytes
          → Layout sb e
          → Owns sb e (entry jp e)
          → Wrote sb jp e
              (off + m)
              (drop m bytes)
              (write_loop sb rounds (drop m bytes) (off + m) jp e))
      → (r : Option (ℕ × Inode × Disk)) → Maps sb ip d (off / b_size) r
      → Wrote sb ip d off bytes (elim r [
        | none ↦ none
        | some (a, ip1, d1) ↦
            write_loop sb rounds
              (drop (min (length bytes) (b_size - off % b_size)) bytes)
              (off + min (length bytes) (b_size - off % b_size))
              ip1
              (put_block a
                (copy_in
                  (take (min (length bytes) (b_size - off % b_size)) bytes)
                  (off % b_size)
                  (d1 a))
                d1)
      ])
  with_block rounds ip d off bytes lt room loop _ (no_space jp e x all_used) =
      blocked jp e x.grows all_used
  with_block rounds ip d off bytes lt room loop _ (found a addrs e x at nz touched) =
      let m = min (length bytes) (b_size - off % b_size) in
      let jp = record ip { addrs = addrs } in
      let (some_byte, le, fits) = round (length bytes) off lt in
      let v = copy_in (take m bytes) (off % b_size) (e a) in
      let f = put_block a v e in
      let size = length-take m bytes le in
      let y =
        store-Grows sb jp e (off / b_size) a v x.grows.layout x.grows.owns (omega arith) at nz in
      let grows = Grows-trans sb d e f (entry ip d) (entry jp e) (entry jp f) x.grows y in
      with_rest ip d f off m bytes addrs le grows
        (λ o lto.
          round_bytes ip jp d e off a o (take m bytes) x.grows.layout x.grows.owns (omega arith)
            (omega (arith, size)) x.same at nz lto)
        lt room
        (λ z.
          nz (at ∙ sym (y.kept (off / b_size) (omega (arith, room, lt)) (λ w. nz (at ∙ w))) ∙ z))
        (λ k h ne top.
          let there : a ≢ k = λ z.
            ne (y.kept (off / b_size) (omega (arith, room, lt)) (λ w. nz (at ∙ w)) ∙ sym at ∙ z) in
          put_block_ne a k v e there ∙ touched k h there top)
        (write_loop sb rounds (drop m bytes) (off + m) jp f)
        (loop m jp f some_byte le y.layout y.owns)

  nothing_written :
      (ip : Inode) (d : Disk) (off : ℕ) (bytes : List ℕ)
      → length bytes ≡ 0
      → Layout sb d
      → Owns sb d (entry ip d)
      → Wrote sb ip d off bytes (some (ip, d))
  nothing_written ip d off bytes z l o =
      wrote ip.addrs d (Grows-refl sb d (entry ip d) l o)
        (λ b lt.
          let outside : (leb off b && ltb b (off + length bytes)) ≡ false = ground arith in
          rw outside refl)
        (λ k h top places. refl)

  pub write_loop-Wrote :
      (rounds : ℕ) (ip : Inode) (d : Disk) (off : ℕ) (bytes : List ℕ)
      → length bytes ≤ rounds
      → off + length bytes ≤ max_file * b_size
      → Layout sb d
      → Owns sb d (entry ip d)
      → Wrote sb ip d off bytes (write_loop sb rounds bytes off ip d)
  unfolding write_loop
  write_loop-Wrote zero ip d off bytes le room l o =
      nothing_written ip d off bytes (omega arith) l o
  write_loop-Wrote (suc rounds) ip d off bytes le room l o =
      elim (Bool-cases (ltb 0 (length bytes))) [
        | inr done ↦ rw (done, write_loop) (nothing_written ip d off bytes (ground arith) l o)
        | inl more ↦
            let lt : 0 < length bytes = ground arith in
            rw (more, write_loop)
              (with_block rounds ip d off bytes lt room
                (λ m jp e some_byte lem lay own.
                  write_loop-Wrote rounds jp e (off + m) (drop m bytes)
                    (omega (arith, length-drop m bytes)) (omega (arith, length-drop m bytes)) lay
                    own)
                (bmap sb (off / b_size) ip d) (bmap-Maps sb (off / b_size) ip d (omega arith) l o))
      ]
