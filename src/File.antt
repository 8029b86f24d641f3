-- ===== src/File.antt =====
-- The table of open files (Source Code/file.c). Each section under ftable.lock is a step. A file
-- has fewer than 2^31 references, so `ref` does not overflow.
pub mod Refs
pub mod Held
pub mod Write
use tugas_sistem_operasi.Base.{
  ℕ, zero, suc, ◌+◌, ◌-◌, ◌*◌, ◌/◌, ◌%◌, ◌^◌, Option, none, some, Bool, true, false, not, List, [],
  ◌∷◌, if◌then◌else◌, ◌==◌, ltb, length, take, drop, modify, get_elem?, ℤ, pos, negsuc,
}

pub data FileType : Type 0 where
  fd_none fd_pipe fd_inode : FileType

pub record File : Type 0 where
  pub kind : FileType
  pub ref : ℕ
  pub readable : Bool
  pub writable : Bool
  pub pipe : ℕ
  pub ip : ℕ
  pub off : ℕ

-- What file.c calls of pipe.c, log.c and fs.c. A read gives its result and the bytes read.
pub record Backend : Type 1 where
  pub World : Type 0
  pub pipeclose : (pipe : ℕ) → (writable : Bool) → World → World
  pub piperead : (pipe n : ℕ) → World → ℤ × List ℕ × World
  pub pipewrite : (pipe : ℕ) → List ℕ → World → ℤ × World
  pub begin_op : World → World
  pub end_op : World → World
  pub ilock : ℕ → World → World
  pub iunlock : ℕ → World → World
  pub iput : ℕ → World → World
  pub readi : (ip off n : ℕ) → World → ℤ × List ℕ × World
  pub writei : (ip : ℕ) → List ℕ → (off : ℕ) → World → ℤ × World

pub record Ftable (W : Type 0) : Type 0 where
  pub files : List File
  pub world : W

-- Outside of the array, a file that is not open.
abbrev pub entry : Option File → File
entry none = record {
  kind = fd_none;
  ref = 0;
  readable = false;
  writable = false;
  pipe = 0;
  ip = 0;
  off = 0;
}
entry (some f) = f

abbrev pub file_at : List File → ℕ → File
file_at fs i = entry (get_elem? fs i)

-- The loop of filealloc.
unfoldable pub find_free : List File → Option ℕ
find_free [] = none
find_free (f ∷ fs) =
    let rest = find_free fs in
    if f.ref == 0 then some 0 else elim rest [ none ↦ none | some i ↦ some (suc i) ]

-- off += r, if r > 0.
abbrev pub advance : ℤ → ℕ → ℕ
advance (pos n) off = (off + n) % 2 ^ 32
advance (negsuc n) off = off

module _ {W : Type 0} where
  unfoldable pub filealloc : Ftable W → Option ℕ × Ftable W
  unfolding find_free
  filealloc k = elim (find_free k.files) [
    | none ↦ (none, k)
    | some i ↦ (some i, record k { files = modify k.files i (λ f. record f { ref = 1 }) })
  ]

  -- `none` is a panic.
  unfoldable pub filedup : ℕ → Ftable W → Option (Ftable W)
  filedup i k =
      if ltb (file_at k.files i).ref 1
      then none
      else some (record k { files = modify k.files i (λ f. record f { ref = f.ref + 1 }) })

-- int max = ((MAXOPBLOCKS-1-1-2) / 2) * 512.
abbrev pub max_chunk : ℕ
max_chunk = (10 - 1 - 1 - 2) / 2 * 512

-- The bytes of one round, n1.
abbrev pub chunk : ℕ → ℕ
chunk left = if ltb max_chunk left then max_chunk else left

module _ (K : Backend) where
  open K use {World, pipeclose, piperead, pipewrite, begin_op, end_op, ilock, iunlock, iput}
  open K use {readi, writei}

  -- What fileclose does with the copy of a file that nobody refers to any more.
  unfoldable pub shut : FileType → File → World → World
  shut fd_none f w = w
  shut fd_pipe f w = pipeclose f.pipe f.writable w
  shut fd_inode f w = end_op (iput f.ip (begin_op w))

  -- `none` is a panic.
  unfoldable pub fileclose : ℕ → Ftable World → Option (Ftable World)
  unfolding shut
  fileclose i k =
      let f = file_at k.files i in
      if ltb f.ref 1
      then none
      else if ltb 0 (f.ref - 1)
      then some (record k { files = modify k.files i (λ g. record g { ref = g.ref - 1 }) })
      else some (record k {
        files = modify k.files i (λ g. record g { ref = 0; kind = fd_none });
        world = shut f.kind f k.world;
      })

  pub data Fileread : Type 0 where
    panics : Fileread
    -- The result and the bytes that are read.
    returns : ℤ → List ℕ → Ftable World → Fileread

  unfoldable pub read_kind : FileType → (i n : ℕ) → File → Ftable World → Fileread
  read_kind fd_none i n f k = panics
  read_kind fd_pipe i n f k =
      let (r, bytes, w) = piperead f.pipe n k.world in returns r bytes (record k { world = w })
  read_kind fd_inode i n f k =
      let (r, bytes, w) = readi f.ip f.off n (ilock f.ip k.world) in
      returns r bytes (record k {
        files = modify k.files i (λ g. record g { off = advance r g.off });
        world = iunlock f.ip w;
      })

  unfoldable pub fileread : (i n : ℕ) → Ftable World → Fileread
  unfolding read_kind
  fileread i n k =
      let f = file_at k.files i in
      if not f.readable then returns (negsuc 0) [] k else read_kind f.kind i n f k

  pub data Filewrite : Type 0 where
    short_write : Filewrite
    -- The result of filewrite, with f->off and the world behind it.
    ends : ℤ → (off : ℕ) → World → Filewrite
    -- The rounds that the model allows are used up.
    starved : Filewrite

  -- What a round makes of the result of writei for `n1` bytes.
  abbrev pub after_write : ℤ → (n1 : ℕ) → (off : ℕ) → World → Filewrite → Filewrite
  after_write (negsuc r) n1 off w rest = ends (negsuc 0) off w
  after_write (pos r) n1 off w rest = if r == n1 then rest else short_write

  -- The loop of filewrite with `bytes`, n - i of them, left; the result is n if all are written.
  unfoldable pub write_loop : (rounds n ip : ℕ) → List ℕ → (off : ℕ) → World → Filewrite
  write_loop rounds n ip [] off w = ends (pos n) off w
  write_loop zero n ip (b ∷ bs) off w = starved
  write_loop (suc rounds) n ip (b ∷ bs) off w =
      let n1 = chunk (length (b ∷ bs)) in
      let (r, w1) = writei ip (take n1 (b ∷ bs)) off (ilock ip (begin_op w)) in
      let off1 = advance r off in
      let w2 = end_op (iunlock ip w1) in
      let rest = write_loop rounds n ip (drop n1 (b ∷ bs)) off1 w2 in after_write r n1 off1 w2 rest

  -- A write through a file that is open for an inode: every round writes at least a byte.
  unfoldable pub inode_write : ℕ → List ℕ → ℕ → World → Filewrite
  unfolding write_loop
  inode_write ip bytes off w = write_loop (length bytes) (length bytes) ip bytes off w

  pub data Written : Type 0 where
    write_panics : Written
    write_starves : Written
    write_returns : ℤ → Ftable World → Written

  -- f->off after the rounds; nobody else uses the file meanwhile.
  abbrev pub finish : ℕ → Ftable World → Filewrite → Written
  finish i k short_write = write_panics
  finish i k starved = write_starves
  finish i k (ends r off w) =
      write_returns r
        (record k { files = modify k.files i (λ g. record g { off = off }); world = w })

  unfoldable pub write_kind : FileType → ℕ → List ℕ → File → Ftable World → Written
  unfolding inode_write
  write_kind fd_none i bytes f k = write_panics
  write_kind fd_pipe i bytes f k =
      let (r, w) = pipewrite f.pipe bytes k.world in write_returns r (record k { world = w })
  write_kind fd_inode i bytes f k = finish i k (inode_write f.ip bytes f.off k.world)

  unfoldable pub filewrite : ℕ → List ℕ → Ftable World → Written
  unfolding write_kind
  filewrite i bytes k =
      let f = file_at k.files i in
      if not f.writable then write_returns (negsuc 0) k else write_kind f.kind i bytes f k
