-- ===== src/File/Write.antt =====
-- filewrite cuts a long write into transactions that the log has room for.
use tugas_sistem_operasi.Base.{
  ℕ, zero, suc, ◌+◌, ◌%◌, ◌^◌, ◌≤◌, ◌<◌, ◌≡◌, refl, ◌∙◌, ap, ◌≢◌, ◌⊎◌, inl, inr, true, List, [],
  ◌∷◌, ◌++◌, arith, ◌==◌, modify, length, take, drop, length-take, length-drop, Bool-cases, ℤ, pos,
  negsuc,
}
use tugas_sistem_operasi.File.{
  fd_inode, Ftable, Backend, file_at, max_chunk, chunk, advance, Filewrite, ends, short_write,
  starved, after_write, write_loop, inode_write, Written, write_panics, write_returns, finish,
  write_kind, filewrite,
}

take-drop : (n : ℕ) (xs : List ℕ) → xs ≡ take n xs ++ drop n xs
take-drop zero xs = refl
take-drop (suc n) [] = refl
take-drop (suc n) (x ∷ xs) = ap (◌∷◌ x) (take-drop n xs)

chunk-bounds :
    (n : ℕ)
    → 0 < n
    → (0 < chunk n) × (chunk n ≤ n) × ((chunk n ≡ max_chunk) ⊎ ((chunk n ≡ n) × (n ≤ max_chunk)))
chunk-bounds n lt = ground arith

-- The first piece of some bytes: as many as a transaction takes, or all of them.
pub record Piece (front back bytes : List ℕ) : Type 0 where
  pub parts : bytes ≡ front ++ back
  pub nonempty : 0 < length front
  pub size : (length front ≡ 1536) ⊎ ((length front < 1536) × (length back ≡ 0))

chunk-Piece :
    (bytes : List ℕ)
    → 0 < length bytes
    → Piece (take (chunk (length bytes)) bytes) (drop (chunk (length bytes)) bytes) bytes
chunk-Piece bytes lt =
    let c = chunk (length bytes) in
    let (some_byte, inside, which) = chunk-bounds (length bytes) lt in
    let front = length-take c bytes inside in
    let back = length-drop c bytes in
    record {
      parts = take-drop c bytes;
      nonempty = omega (arith, front, some_byte);
      size = elim which [
        | inl big ↦ inl (front ∙ big)
        | inr (all, small) ↦ elim (Bool-cases (length bytes == 1536)) [
          | inl full ↦ let z : length bytes ≡ 1536 = ground arith in inl (front ∙ all ∙ z)
          | inr less ↦
              let ne : length bytes ≢ 1536 = ground arith in
              let short : length bytes < 1536 = omega (arith, small, ne) in
              inr (omega (arith, front, all, short), omega (arith, back, all))
        ]
      ];
    }

module _ (K : Backend) where
  open K use {World, begin_op, end_op, ilock, iunlock, writei}

  -- What becomes of some bytes that are written to an inode from an offset on, piece by piece, each
  -- piece by writei in a transaction of its own; `n` is the result if all pieces are written whole.
  pub data Rounds (n ip : ℕ) : List ℕ → (off : ℕ) → World → Filewrite K → Type 0 where
    all_written : (off : ℕ) (w : World) → Rounds n ip [] off w (ends (pos n) off w)
    whole :
        (front back bytes : List ℕ) (off : ℕ) (w v : World) (r : Filewrite K)
        → Piece front back bytes
        → writei ip front off (ilock ip (begin_op w)) ≡ (pos (length front), v)
        → Rounds n ip back ((off + length front) % 2 ^ 32) (end_op (iunlock ip v)) r
        → Rounds n ip bytes off w r
    failed :
        (front back bytes : List ℕ) (off e : ℕ) (w v : World)
        → Piece front back bytes
        → writei ip front off (ilock ip (begin_op w)) ≡ (negsuc e, v)
        → Rounds n ip bytes off w (ends (negsuc 0) off (end_op (iunlock ip v)))
    cut_short :
        (front back bytes : List ℕ) (off r : ℕ) (w v : World)
        → Piece front back bytes
        → writei ip front off (ilock ip (begin_op w)) ≡ (pos r, v)
        → r ≢ length front
        → Rounds n ip bytes off w short_write

  not-starved :
      (n ip : ℕ) (bytes : List ℕ) (off : ℕ) (w : World) → ¬ Rounds n ip bytes off w starved
  not-starved n ip _ _ _ (whole front back bytes off w v _ p e x) =
      not-starved n ip back ((off + length front) % 2 ^ 32) (end_op (iunlock ip v)) x

  abbrev locked : ℕ → World → World
  locked ip w = ilock ip (begin_op w)

  -- A round, with the rounds behind it.
  round-Rounds :
      (rounds n ip off c : ℕ) (front back bytes : List ℕ) (w v : World)
      → Piece front back bytes
      → length front ≡ c
      → ((o : ℕ) (u : World) → Rounds n ip back o u (write_loop K rounds n ip back o u))
      → (r : ℤ) → writei ip front off (locked ip w) ≡ (r, v)
      → Rounds n ip bytes off w (
          after_write K r c
            (advance r off)
            (end_op (iunlock ip v))
            (write_loop K rounds n ip back (advance r off) (end_op (iunlock ip v))))
  round-Rounds rounds n ip off c front back bytes w v p size rest (negsuc e) result =
      failed front back bytes off e w v p result
  round-Rounds rounds n ip off c front back bytes w v p size rest (pos x) result =
      elim (Bool-cases (x == c)) [
        | inl same ↦
            let z : x ≡ length front = ground (arith, size) in
            rw same (
              whole front back bytes off w v _ p (result ∙ ap (λ (k : ℕ). (pos k, v)) z)
                (rw (← z) (rest ((off + x) % 2 ^ 32) (end_op (iunlock ip v)))))
        | inr other ↦
            let z : x ≢ length front = ground (arith, size) in
            rw other (cut_short front back bytes off x w v p result z)
      ]

  write_loop-Rounds :
      (rounds n ip : ℕ) (bytes : List ℕ) (off : ℕ) (w : World)
      → length bytes ≤ rounds
      → Rounds n ip bytes off w (write_loop K rounds n ip bytes off w)
  unfolding write_loop
  write_loop-Rounds rounds n ip [] off w le = all_written off w
  write_loop-Rounds zero n ip (b ∷ bs) off w le = absurd (omega arith)
  write_loop-Rounds (suc rounds) n ip (b ∷ bs) off w le =
      let bytes = b ∷ bs in
      let c = chunk (length bytes) in
      let (some_byte, inside, which) = chunk-bounds (length bytes) (omega arith) in
      let r = writei ip (take c bytes) off (locked ip w) in
      round-Rounds rounds n ip off c (take c bytes) (drop c bytes) bytes w r.1
        (chunk-Piece bytes (omega arith)) (length-take c bytes inside)
        (λ o u.
          write_loop-Rounds rounds n ip (drop c bytes) o u (omega (arith, length-drop c bytes)))
        r.0 refl

  -- The results of filewrite to an inode `ip` from the offset `off` on.
  pub data Filewrites (i ip off : ℕ) (bytes : List ℕ) (k : Ftable World) : Written K → Type 0 where
    panics :
        Rounds (length bytes) ip bytes off k.world short_write
        → Filewrites i ip off bytes k write_panics
    returns :
        (r : ℤ) (end : ℕ) (w : World)
        → Rounds (length bytes) ip bytes off k.world (ends r end w)
        → Filewrites i ip off bytes k (
            write_returns r
              (record k { files = modify k.files i (λ g. record g { off = end }); world = w }))

  finish-Filewrites :
      (i ip off : ℕ) (bytes : List ℕ) (k : Ftable World) (r : Filewrite K)
      → Rounds (length bytes) ip bytes off k.world r
      → Filewrites i ip off bytes k (finish K i k r)
  finish-Filewrites i ip off bytes k (ends r end w) x = returns r end w x
  finish-Filewrites i ip off bytes k short_write x = panics x
  finish-Filewrites i ip off bytes k starved x =
      absurd (not-starved (length bytes) ip bytes off k.world x)

  -- filewrite to a writable file on an inode, with any writei, cuts the bytes into pieces of 1536, the
  -- last one shorter perhaps, and passes each to writei in a transaction of its own, at the offset at
  -- which the piece before ended. It returns the number of the bytes if writei writes every piece
  -- whole, and -1 after the first piece for which writei fails, with the file's offset behind the
  -- pieces that were written; it panics if writei writes a part of a piece. The rounds of the model are
  -- never used up.
  pub filewrite_all :
      (i : ℕ) (bytes : List ℕ) (k : Ftable World)
      → (file_at k.files i).writable ≡ true
      → (file_at k.files i).kind ≡ fd_inode
      → Filewrites i (file_at k.files i).ip (file_at k.files i).off bytes k (filewrite K i bytes k)
  unfolding filewrite write_kind inode_write
  filewrite_all i bytes k writable kind =
      let f = file_at k.files i in
      let x =
        write_loop-Rounds (length bytes) (length bytes) f.ip bytes f.off k.world (omega arith) in
      rw (writable, filewrite)
        (rw (kind, write_kind)
          (finish-Filewrites i f.ip f.off bytes k
            (write_loop K (length bytes) (length bytes) f.ip bytes f.off k.world) x))
