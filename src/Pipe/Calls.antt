-- ===== src/Pipe/Calls.antt =====
-- What pipewrite and piperead do to the contents of the pipe.
use mathlib.Core.List.{append_assoc, append-nil}
use tugas_sistem_operasi.Base.{
  ℕ, zero, suc, ◌≡◌, refl, ◌≢◌, ◌⊎◌, inl, inr, ap, sym, ◌∙◌, Bool, true, false, ◌&&◌, ◌||◌, not,
  List, [], ◌∷◌, ◌++◌, arith, take, drop, Bool-cases,
}
use tugas_sistem_operasi.Pipe.{
  Pipe, pipe_size, push, pop, is_full, is_empty, Write, wrote, broken, waits, pipewrite, Read, got,
  stopped, sleeps, read_loop, piperead,
}
use tugas_sistem_operasi.Pipe.Ring.{
  used, contents, IsValid, push-IsValid, contents-push, pop-IsValid, contents-pop, contents-nil,
  is_full-used,
}

-- The two ends of the pipe are as before.
abbrev pub SameEnds : Pipe → Pipe → Type 0
SameEnds p q = (q.readopen ≡ p.readopen) × (q.writeopen ≡ p.writeopen)

-- The ends of a call of pipewrite with the bytes `bs`.
pub data Writes (killed : Bool) (p : Pipe) (bs : List ℕ) : Write → Type 0 where
  all :
      (q : Pipe)
      → IsValid q
      → SameEnds p q
      → contents q ≡ contents p ++ bs
      → Writes killed p bs (wrote q)
  some_bytes :
      (q : Pipe) (done left : List ℕ)
      → IsValid q
      → SameEnds p q
      → contents q ≡ contents p ++ done
      → bs ≡ done ++ left
      → left ≢ []
      → used q ≡ pipe_size
      → p.readopen ≡ true
      → killed ≡ false
      → Writes killed p bs (waits left q)
  gives_up :
      (q : Pipe) (done left : List ℕ)
      → IsValid q
      → SameEnds p q
      → contents q ≡ contents p ++ done
      → bs ≡ done ++ left
      → left ≢ []
      → used q ≡ pipe_size
      → (p.readopen ≡ false) ⊎ (killed ≡ true)
      → Writes killed p bs (broken q)

push-SameEnds : (b : ℕ) (p q : Pipe) → SameEnds (push b p) q → SameEnds p q
unfolding push
push-SameEnds b p q same = same

-- One byte more in front.
Writes-cons :
    (killed : Bool) (p : Pipe) (b : ℕ) (bs : List ℕ) {w : Write}
    → contents (push b p) ≡ contents p ++ b ∷ []
    → Writes killed (push b p) bs w
    → Writes killed p (b ∷ bs) w
unfolding push
Writes-cons killed p b bs e (all q v same shape) =
    all q v same (shape ∙ ap (λ l. l ++ bs) e ∙ append_assoc (contents p) (b ∷ []) bs)
Writes-cons killed p b bs e (some_bytes q done left v same shape split ne full reader alive) =
    some_bytes q (b ∷ done) left v same
      (shape ∙ ap (λ l. l ++ done) e ∙ append_assoc (contents p) (b ∷ []) done) (ap (◌∷◌ b) split)
      ne full reader alive
Writes-cons killed p b bs e (gives_up q done left v same shape split ne full why) =
    gives_up q (b ∷ done) left v same
      (shape ∙ ap (λ l. l ++ done) e ∙ append_assoc (contents p) (b ∷ []) done) (ap (◌∷◌ b) split)
      ne full why

-- pipewrite appends to the contents the bytes that it has taken, in order: all of them when it
-- returns their number; otherwise the pipe is full, and it sleeps with the rest while the pipe has
-- a reader and the caller is not killed, and returns -1 if not.
pub pipewrite-Writes :
    (killed : Bool) (bs : List ℕ) (p : Pipe)
    → IsValid p
    → Writes killed p bs (pipewrite killed bs p)
unfolding pipewrite
pipewrite-Writes killed [] p v = all p v (refl, refl) (sym (append-nil (contents p)))
pipewrite-Writes killed (b ∷ bs) p v = elim (Bool-cases (is_full p)) [
  | inr free ↦
      rw (free, pipewrite)
        (Writes-cons killed p b bs (contents-push b p v free)
          (pipewrite-Writes killed bs (push b p) (push-IsValid b p v free)))
  | inl full ↦
      let size : used p ≡ pipe_size = ground (arith, is_full-used p v) in
      let same = sym (append-nil (contents p)) in
      elim (Bool-cases (not p.readopen || killed)) [
        | inl dead ↦
            rw (full, pipewrite)
              (rw dead
                (gives_up p [] (b ∷ bs) v (refl, refl) same refl (λ e. cc) size (ground arith)))
        | inr live ↦
            rw (full, pipewrite)
              (rw live (
                some_bytes p [] (b ∷ bs) v (refl, refl) same refl (λ e. cc) size (ground arith)
                  (ground arith)))
      ]
]

pop-ends : (p : Pipe) → SameEnds p (pop p).1
unfolding pop
pop-ends p = (refl, refl)

-- The copying loop takes bytes from the front, `n` of them or all that there are.
read_loop-take :
    (n : ℕ) (p : Pipe)
    → IsValid p
    → IsValid (read_loop n p).1
      × SameEnds p (read_loop n p).1
      × ((read_loop n p).0 ≡ take n (contents p))
      × (contents (read_loop n p).1 ≡ drop n (contents p))
unfolding read_loop
read_loop-take zero p v = (v, (refl, refl), refl, refl)
read_loop-take (suc n) p v = elim (Bool-cases (is_empty p)) [
  | inl none_left ↦
      let e = contents-nil p v none_left in
      rw (none_left, read_loop) (v, (refl, refl), rw e refl, rw e refl)
  | inr some_byte ↦
      let q = (pop p).1 in
      let (vq, same, bytes, rest) = read_loop-take n q (pop-IsValid p v some_byte) in
      let e = contents-pop p v some_byte in
      rw (some_byte, read_loop) (vq, ends same, rw e (ap (◌∷◌ (pop p).0) bytes), rw e rest)
]
  where
    ends : SameEnds (pop p).1 (read_loop n (pop p).1).1 → SameEnds p (read_loop n (pop p).1).1
    ends same = (same.0 ∙ (pop-ends p).0, same.1 ∙ (pop-ends p).1)

-- The ends of a call of piperead.
pub data Reads (killed : Bool) (n : ℕ) (p : Pipe) : Read → Type 0 where
  takes :
      (q : Pipe)
      → IsValid q
      → SameEnds p q
      → contents q ≡ drop n (contents p)
      → (contents p ≢ []) ⊎ (p.writeopen ≡ false)
      → Reads killed n p (got (take n (contents p)) q)
  rests : contents p ≡ [] → p.writeopen ≡ true → killed ≡ false → Reads killed n p (sleeps p)
  quits : contents p ≡ [] → p.writeopen ≡ true → killed ≡ true → Reads killed n p (stopped p)

-- piperead returns the first n bytes of the contents, or all if there are fewer, and leaves the
-- rest; it sleeps, or returns -1 if the caller is killed, exactly when the pipe is empty and still
-- has a writer.
pub piperead-Reads :
    (killed : Bool) (n : ℕ) (p : Pipe) → IsValid p → Reads killed n p (piperead killed n p)
unfolding piperead
piperead-Reads killed n p v = elim (Bool-cases (is_empty p && p.writeopen)) [
  | inr ready ↦
      let (vq, same, bytes, rest) = read_loop-take n p v in
      rw (ready, piperead) (rw bytes (takes (read_loop n p).1 vq same rest (why ready)))
  | inl wait ↦
      let nil = contents-nil p v (ground arith) in
      elim (Bool-cases killed) [
        | inl dead ↦ rw (wait, piperead) (rw dead (quits nil (ground arith) refl))
        | inr live ↦ rw (wait, piperead) (rw live (rests nil (ground arith) refl))
      ]
]
  where
    why : (is_empty p && p.writeopen) ≡ false → (contents p ≢ []) ⊎ (p.writeopen ≡ false)
    why e = elim (Bool-cases p.writeopen) [
      | inr closed ↦ inr closed
      | inl writer ↦
          let full : is_empty p ≡ false = ground arith in
          inl (λ nil. absurd (ground (arith, nil, contents-pop p v full)))
    ]
