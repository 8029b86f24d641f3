-- ===== src/Pipe/Ring.antt =====
-- The bytes that are in the pipe, as a list, and what push and pop do to it. The counters wrap at
-- 2^32, a multiple of the size of the ring.
use tugas_sistem_operasi.Base.{
  ℕ, zero, suc, ◌+◌, ◌-◌, ◌%◌, ◌^◌, ◌≤◌, ◌<◌, ◌≡◌, refl, ◌≢◌, ap, ◌∙◌, true, false, List, [], ◌∷◌,
  ◌++◌, arith, ◌==◌, length,
}
use tugas_sistem_operasi.Pipe.{Pipe, uint, store, pipe_size, push, pop, is_full, is_empty}

-- `n` bytes from counter `r` on.
unfoldable pub slice : (ℕ → ℕ) → ℕ → ℕ → List ℕ
slice d r zero = []
slice d r (suc n) = d (r % pipe_size) ∷ slice d (uint (r + 1)) n

unfoldable pub used : Pipe → ℕ
used p = uint (p.nwrite + 2 ^ 32 - p.nread)

unfoldable pub contents : Pipe → List ℕ
contents p = slice p.bytes p.nread (used p)

-- The counters are uints, and at most the ring's size apart.
pub record IsValid (p : Pipe) : Type 0 where
  pub read_word : p.nread < 2 ^ 32
  pub write_word : p.nwrite < 2 ^ 32
  pub room : used p ≤ pipe_size

slice-store :
    (d : ℕ → ℕ) (w b r n : ℕ)
    → r < 2 ^ 32
    → n < pipe_size
    → w ≡ (r + n) % pipe_size
    → slice (store d w b) r n ≡ slice d r n
unfolding slice
slice-store d w b r zero word lt e = refl
slice-store d w b r (suc n) word lt e =
    let apart : w ≢ r % pipe_size = omega arith in
    let kept : store d w b (r % pipe_size) ≡ d (r % pipe_size) = ground arith in
    rw (kept, slice-store d w b (uint (r + 1)) n (omega arith) (omega arith) (omega arith))

slice_snoc :
    (d : ℕ → ℕ) (r n : ℕ)
    → r < 2 ^ 32
    → slice d r (suc n) ≡ slice d r n ++ d ((r + n) % pipe_size) ∷ []
unfolding slice
slice_snoc d r zero word = ap (λ (i : ℕ). d i ∷ []) (omega arith)
slice_snoc d r (suc n) word = ap (◌∷◌ (d (r % pipe_size))) (
    slice_snoc d (uint (r + 1)) n (omega arith)
    ∙ ap (λ (i : ℕ). slice d (uint (r + 1)) n ++ d i ∷ []) (omega arith))

pub length-contents : (p : Pipe) → length (contents p) ≡ used p
unfolding contents slice
length-contents p = length-slice p.bytes p.nread (used p)
  where
    length-slice : (d : ℕ → ℕ) (r n : ℕ) → length (slice d r n) ≡ n
    length-slice d r zero = refl
    length-slice d r (suc n) = ap suc (length-slice d (uint (r + 1)) n)

pub is_full-used : (p : Pipe) → IsValid p → is_full p ≡ (used p == pipe_size)
unfolding is_full used
is_full-used p v = ground arith

pub is_empty-used : (p : Pipe) → IsValid p → is_empty p ≡ (used p == 0)
unfolding is_empty used
is_empty-used p v = ground arith

pub push-used : (b : ℕ) (p : Pipe) → IsValid p → is_full p ≡ false → used (push b p) ≡ used p + 1
unfolding push used is_full
push-used b p v free = ground arith

pub push-IsValid : (b : ℕ) (p : Pipe) → IsValid p → is_full p ≡ false → IsValid (push b p)
unfolding push used is_full
push-IsValid b p v free = ground arith

push-lt : (p : Pipe) → IsValid p → is_full p ≡ false → used p < pipe_size
push-lt p v free = ground (arith, is_full-used p v, v.room)

-- The writer's place in the ring.
write_at : (p : Pipe) → IsValid p → p.nwrite % pipe_size ≡ (p.nread + used p) % pipe_size
unfolding used
write_at p v = omega (arith, v.read_word, v.write_word)

pop-used : (p : Pipe) → IsValid p → is_empty p ≡ false → used p ≡ suc (used (pop p).1)
unfolding pop used is_empty
pop-used p v some_byte = ground arith

-- A byte that is pushed is the last of the contents.
pub contents-push :
    (b : ℕ) (p : Pipe) → IsValid p → is_full p ≡ false → contents (push b p) ≡ contents p ++ b ∷ []
unfolding contents push
contents-push b p v free =
    let n = used p in
    let r = p.nread in
    let w = p.nwrite % pipe_size in
    let more : used (push b p) ≡ suc n = omega (arith, push-used b p v free) in
    let lt : n < pipe_size = push-lt p v free in
    let at : w ≡ (r + n) % pipe_size = write_at p v in
    let last : store p.bytes w b ((r + n) % pipe_size) ≡ b = ground arith in
    ap (slice (store p.bytes w b) r) more
    ∙ slice_snoc (store p.bytes w b) r n v.read_word
    ∙ rw (last, slice-store p.bytes w b r n v.read_word lt at)

pub pop-IsValid : (p : Pipe) → IsValid p → is_empty p ≡ false → IsValid (pop p).1
unfolding pop used is_empty
pop-IsValid p v some_byte = ground arith

-- The byte that is popped was the first of the contents.
pub contents-pop :
    (p : Pipe) → IsValid p → is_empty p ≡ false → contents p ≡ (pop p).0 ∷ contents (pop p).1
unfolding contents pop slice
contents-pop p v some_byte = ap (slice p.bytes p.nread) (pop-used p v some_byte)

pub contents-nil : (p : Pipe) → IsValid p → is_empty p ≡ true → contents p ≡ []
unfolding contents slice
contents-nil p v e =
    let zero_used : used p ≡ 0 = ground (arith, is_empty-used p v) in
    ap (slice p.bytes p.nread) zero_used
