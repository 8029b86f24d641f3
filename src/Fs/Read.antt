-- ===== src/Fs/Read.antt =====
-- readi delivers the data of the inode.
use tugas_sistem_operasi.Base.{
  ℕ, zero, suc, ◌+◌, ◌-◌, ◌*◌, ◌/◌, ◌%◌, ◌≤◌, ◌<◌, ◌≡◌, refl, ◌∙◌, ap, sym, ◌≢◌, inl, inr, Option,
  none, some, false, List, [], ◌++◌, arith, ◌==◌, ltb, length, length-append, get_or,
  get_or-append_left, get_or-append_right, Bool-cases,
}
use tugas_sistem_operasi.Fs.{b_size, Block, Disk, Superblock}
use tugas_sistem_operasi.Fs.Bitmap.{used}
use tugas_sistem_operasi.Fs.Inode.{Inode, bmap}
use tugas_sistem_operasi.Fs.Own.{Layout, Owns, byte_at, Extends, Extends-refl, Extends-trans}
use tugas_sistem_operasi.Fs.Entry.{entry}
use tugas_sistem_operasi.Fs.Map.{Maps, no_space, found, bmap-Maps}
use tugas_sistem_operasi.Fs.Data.{min, max_file, bytes_from, read_loop}

-- The data of an inode by offset; a block that is not there reads as zeros.
abbrev pub file_byte : Inode → Disk → ℕ → ℕ
file_byte ip d o = byte_at (entry ip d) d (o / b_size) (o % b_size)

-- The bytes of a block that bmap has found are those of the file.
pub found_byte :
    (ip : Inode) (d : Disk) (a i o : ℕ)
    → a ≡ entry ip d i
    → a ≢ 0
    → byte_at (entry ip d) d i o ≡ d a o
found_byte ip d a i o at nz =
    let e : (entry ip d i == 0) ≡ false = ground (arith, at) in
    rw e (ap (λ (k : ℕ). d k o) (sym at))

length-bytes_from : (n o : ℕ) (b : Block) → length (bytes_from n o b) ≡ n
unfolding bytes_from
length-bytes_from zero o b = refl
length-bytes_from (suc n) o b = ap suc (length-bytes_from n (o + 1) b)

get_or-bytes_from : (n o i : ℕ) (b : Block) → i < n → get_or (bytes_from n o b) i 0 ≡ b (o + i)
unfolding bytes_from
get_or-bytes_from zero o i b lt = absurd (omega arith)
get_or-bytes_from (suc n) o zero b lt = ap b (omega arith)
get_or-bytes_from (suc n) o (suc i) b lt =
    get_or-bytes_from n (o + 1) i b (omega arith) ∙ ap b (omega arith)

-- `bytes` are `n` bytes of the file from `off` on.
abbrev pub Shows : Inode → Disk → (off n : ℕ) → List ℕ → Type 0
Shows ip d off n bytes =
    (length bytes ≡ n) × ((i : ℕ) → i < n → get_or bytes i 0 ≡ file_byte ip d (off + i))

-- The results of the loop of readi.
pub data Reads (sb : Superblock) (ip : Inode) (d : Disk) (off n : ℕ)
    : Option (List ℕ × Inode × Disk) → Type 0 where
  blocked :
      (jp : Inode) (e : Disk)
      → Extends sb d e (entry ip d) (entry jp e)
      → ((c : ℕ) → c < sb.size → used sb e c ≡ 1)
      → Reads sb ip d off n none
  reads :
      (bytes : List ℕ) (addrs : ℕ → ℕ) (e : Disk)
      → Extends sb d e (entry ip d) (entry (record ip { addrs = addrs }) e)
      → Shows ip d off n bytes
      → Reads sb ip d off n (some (bytes, record ip { addrs = addrs }, e))

-- The bytes of one block, and those behind them.
Shows-append :
    (ip jp : Inode) (d e : Disk) (off m n a : ℕ) (rest : List ℕ)
    → 0 < m
    → m ≤ n
    → m ≤ b_size - off % b_size
    → off + n ≤ max_file * b_size
    → ((i o : ℕ) → i < 140 → byte_at (entry jp e) e i o ≡ byte_at (entry ip d) d i o)
    → a ≡ entry jp e (off / b_size)
    → a ≢ 0
    → Shows jp e (off + m) (n - m) rest
    → Shows ip d off n (bytes_from m (off % b_size) (e a) ++ rest)
Shows-append ip jp d e off m n a rest some_byte le fits room same at nz (size, shown) = (
  length-append (bytes_from m (off % b_size) (e a)) rest
      ∙ omega (arith, length-bytes_from m (off % b_size) (e a)),
  λ i lt. elim (Bool-cases (ltb i m)) [
    | inl early ↦
        let near : i < m = ground arith in
        let block : off / b_size ≡ (off + i) / b_size = omega arith in
        let offset : off % b_size + i ≡ (off + i) % b_size = omega arith in
        get_or-append_left piece rest i (omega (arith, piece_size))
        ∙ get_or-bytes_from m (off % b_size) i (e a) near
        ∙ sym (found_byte jp e a (off / b_size) (off % b_size + i) at nz)
        ∙ same (off / b_size) (off % b_size + i) (omega arith)
        ∙ ap (λ (k : ℕ). byte_at (entry ip d) d k (off % b_size + i)) block
        ∙ ap (byte_at (entry ip d) d ((off + i) / b_size)) offset
    | inr late ↦
        let far : m ≤ i = ground arith in
        let there : off + m + (i - m) ≡ off + i = omega arith in
        get_or-append_right piece rest i (omega (arith, piece_size))
        ∙ ap (λ (k : ℕ). get_or rest (i - k) 0) piece_size
        ∙ shown (i - m) (omega arith)
        ∙ ap (file_byte jp e) there
        ∙ same ((off + i) / b_size) ((off + i) % b_size) (omega arith)
  ],
)
  where
    piece : List ℕ
    piece = bytes_from m (off % b_size) (e a)

    piece_size : length piece ≡ m
    piece_size = length-bytes_from m (off % b_size) (e a)

Shows-nil : (ip : Inode) (d : Disk) (off n : ℕ) → n ≡ 0 → Shows ip d off n []
Shows-nil ip d off n z = (sym z, λ i lt. absurd (omega arith))

module _ (sb : Superblock) where
  -- The bytes of the round are put before those of the later ones.
  with_rest :
      (ip : Inode) (d : Disk) (off n m a : ℕ) (addrs : ℕ → ℕ) (e : Disk)
      → 0 < m
      → m ≤ n
      → m ≤ b_size - off % b_size
      → off + n ≤ max_file * b_size
      → Extends sb d e (entry ip d) (entry (record ip { addrs = addrs }) e)
      → a ≡ entry (record ip { addrs = addrs }) e (off / b_size)
      → a ≢ 0
      → (r : Option (List ℕ × Inode × Disk))
      → Reads sb (record ip { addrs = addrs }) e (off + m) (n - m) r
      → Reads sb ip d off n (elim r [
        | none ↦ none
        | some (rest, ip2, d2) ↦ some (bytes_from m (off % b_size) (e a) ++ rest, ip2, d2)
      ])
  with_rest ip d off n m a addrs e some_byte le fits room x at nz _ (blocked jp f y all_used) =
      blocked jp f
        (Extends-trans sb d e f (entry ip d) (entry (record ip { addrs = addrs }) e) (entry jp f) x
          y)
        all_used
  with_rest ip d off n m a addrs e some_byte le fits room x at nz _ (reads rest more f y shown) =
      reads (bytes_from m (off % b_size) (e a) ++ rest) more f
        (Extends-trans sb d e f (entry ip d) (entry (record ip { addrs = addrs }) e)
          (entry (record ip { addrs = more }) f) x y)
        (Shows-append ip (record ip { addrs = addrs }) d e off m n a rest some_byte le fits room
          x.same at nz shown)

  round :
      (n off : ℕ)
      → 0 < n
      → (0 < min n (b_size - off % b_size))
        × (min n (b_size - off % b_size) ≤ n)
        × (min n (b_size - off % b_size) ≤ b_size - off % b_size)
  round n off lt = ground arith

  -- With the inode's block at hand, a round and the rounds behind it.
  with_block :
      (rounds : ℕ) (ip : Inode) (d : Disk) (off n : ℕ)
      → 0 < n
      → off + n ≤ max_file * b_size
      → ((m : ℕ) (jp : Inode) (e : Disk)
          → 0 < m
          → m ≤ n
          → Layout sb e
          → Owns sb e (entry jp e)
          → Reads sb jp e (off + m) (n - m) (read_loop sb rounds (n - m) (off + m) jp e))
      → (r : Option (ℕ × Inode × Disk)) → Maps sb ip d (off / b_size) r
      → Reads sb ip d off n (elim r [
        | none ↦ none
        | some (a, ip1, d1) ↦
            elim (read_loop sb rounds
              (n - min n (b_size - off % b_size))
              (off + min n (b_size - off % b_size))
              ip1
              d1) [
                | none ↦ none
                | some (rest, ip2, d2) ↦ some (
                  bytes_from (min n (b_size - off % b_size)) (off % b_size) (d1 a) ++ rest,
                  ip2,
                  d2,
                )
              ]
      ])
  with_block rounds ip d off n lt room loop _ (no_space jp e x all_used) = blocked jp e x all_used
  with_block rounds ip d off n lt room loop _ (found a addrs e x at nz touched) =
      let m = min n (b_size - off % b_size) in
      let jp = record ip { addrs = addrs } in
      let (some_byte, le, fits) = round n off lt in
      with_rest ip d off n m a addrs e some_byte le fits room x at nz
        (read_loop sb rounds (n - m) (off + m) jp e)
        (loop m jp e some_byte le x.grows.layout x.grows.owns)

  pub read_loop-Reads :
      (rounds : ℕ) (ip : Inode) (d : Disk) (off n : ℕ)
      → n ≤ rounds
      → off + n ≤ max_file * b_size
      → Layout sb d
      → Owns sb d (entry ip d)
      → Reads sb ip d off n (read_loop sb rounds n off ip d)
  unfolding read_loop
  read_loop-Reads zero ip d off n le room l o =
      reads [] ip.addrs d (Extends-refl sb d (entry ip d) l o) (Shows-nil ip d off n (omega arith))
  read_loop-Reads (suc rounds) ip d off n le room l o = elim (Bool-cases (ltb 0 n)) [
    | inr done ↦
        rw (done, read_loop)
          (reads [] ip.addrs d (Extends-refl sb d (entry ip d) l o)
            (Shows-nil ip d off n (ground arith)))
    | inl more ↦
        let lt : 0 < n = ground arith in
        rw (more, read_loop)
          (with_block rounds ip d off n lt room
            (λ m jp e some_byte lem lay own.
              read_loop-Reads rounds jp e (off + m) (n - m) (omega arith) (omega arith) lay own)
            (bmap sb (off / b_size) ip d) (bmap-Maps sb (off / b_size) ip d (omega arith) l o))
  ]
