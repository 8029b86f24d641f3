-- ===== src/Bio/Unique.antt =====
-- A block has at most one buffer, whatever bget and brelse do (Source Code/bio.c).
use tugas_sistem_operasi.Base.{
  ℕ, zero, suc, ◌+◌, ◌%◌, ◌^◌, ◌≤◌, ◌≡◌, refl, ◌∙◌, ap, sym, ◌≢◌, inl, inr, Option, some, Bool,
  true, false, List, [], ◌∷◌, ◌++◌, arith, if◌then◌else◌, length, Bool-cases, some-inj,
}
use tugas_sistem_operasi.Bio.{n_buf, Buf, link, binit, holds, bget, brelse}
use tugas_sistem_operasi.Bio.Cache.{
  Every, none_left, and_more, NotFor, NotFor-holds, Gets, cached, recycled, exhausted, bget-Gets,
}
use tugas_sistem_operasi.Bio.Tally.{
  tally, put_flags, Steady, tally-append, tally-put_flags, tally-brelse, tally-length,
}

pub data Reach : List Buf → Type 0 where
  boots : Reach binit
  gets :
      (dev blockno i : ℕ) (bs cs : List Buf)
      → Reach bs
      → bget dev blockno bs ≡ some (i, cs)
      → Reach cs
  releases : (i : ℕ) (bs : List Buf) → Reach bs → Reach (brelse i bs)
  flags : (i f : ℕ) (bs : List Buf) → Reach bs → Reach (put_flags i f bs)

abbrev pub count : (dev blockno : ℕ) → List Buf → ℕ
count dev blockno bs = tally (holds dev blockno) bs

count-none :
    (dev blockno : ℕ) (bs : List Buf) → Every (NotFor dev blockno) bs → count dev blockno bs ≡ 0
unfolding tally
count-none dev blockno _ none_left = refl
count-none dev blockno _ (and_more b bs h x) =
    rw (NotFor-holds dev blockno b h) (ap (λ (k : ℕ). 0 + k) (count-none dev blockno bs x))

-- A list with at most one buffer for each block of a device other than 0, which the boot's buffers have.
abbrev pub Unique : List Buf → Type 0
Unique bs = (dev blockno : ℕ) → dev ≢ 0 → count dev blockno bs ≤ 1

abbrev one_if : Bool → ℕ
one_if b = if b then 1 else 0

-- A buffer that is taken for a block that had none.
recycled-Unique :
    (dev blockno : ℕ) (front back : List Buf) (b : Buf)
    → Every (NotFor dev blockno) (front ++ b ∷ back)
    → Unique (front ++ b ∷ back)
    → Unique (front ++ record b { dev = dev; blockno = blockno; flags = 0; refcnt = 1 } ∷ back)
recycled-Unique dev blockno front back b x u e k ne =
    let c : Buf = record b { dev = dev; blockno = blockno; flags = 0; refcnt = 1 } in
    let before = tally-append (holds e k) b front back in
    let after = tally-append (holds e k) c front back in
    elim (Bool-cases (holds e k c)) [
      | inl same ↦
          let z : dev ≡ e = ground arith in
          let y : blockno ≡ k = ground arith in
          let free = count-none dev blockno (front ++ b ∷ back) x in
          let here : count e k (front ++ b ∷ back) ≡ 0 = rw (sym z, sym y) free in
          let one : one_if (holds e k c) ≡ 1 = rw same refl in
          omega (arith, before, after, here, one)
      | inr other ↦
          let one : one_if (holds e k c) ≡ 0 = rw other refl in
          omega (arith, before, after, u e k ne, one)
    ]

pub record IsSound (bs : List Buf) : Type 0 where
  pub size : length bs ≡ n_buf
  pub unique : Unique bs

length_same :
    (bs cs : List Buf)
    → tally (λ b. true) cs ≡ tally (λ b. true) bs
    → length bs ≡ n_buf
    → length cs ≡ n_buf
length_same bs cs e n = sym (tally-length cs) ∙ e ∙ tally-length bs ∙ n

-- One buffer of the list is replaced.
length_replaced :
    (b c : Buf) (front back : List Buf)
    → tally (λ b. true) (front ++ c ∷ back) ≡ tally (λ b. true) (front ++ b ∷ back)
length_replaced b c front back =
    tally-append (λ b. true) c front back ∙ sym (tally-append (λ b. true) b front back)

bget-IsSound :
    (dev blockno i : ℕ) (bs cs : List Buf)
    → IsSound bs
    → (r : Option (ℕ × List Buf)) → Gets dev blockno bs r
    → r ≡ some (i, cs)
    → IsSound cs
bget-IsSound dev blockno i bs cs u _ (cached front back b s d k) e =
    let c : Buf = record b { refcnt = (b.refcnt + 1) % 2 ^ 32 } in
    let at : front ++ c ∷ back ≡ cs = ap (λ (v : ℕ × List Buf). v.1) (some-inj e) in
    rw (sym at) (record {
      size = length_same bs (front ++ c ∷ back) (rw s (length_replaced b c front back)) u.size;
      unique = λ e k ne.
          let same : count e k (front ++ c ∷ back) ≡ count e k (front ++ b ∷ back) =
            tally-append (holds e k) c front back ∙ sym (tally-append (holds e k) b front back) in
          let before : count e k (front ++ b ∷ back) ≤ 1 = rw (sym s) (u.unique e k ne) in
          omega (arith, same, before);
    })
bget-IsSound dev blockno i bs cs u _ (recycled front back b s x f g y) e =
    let c : Buf = record b { dev = dev; blockno = blockno; flags = 0; refcnt = 1 } in
    let at : front ++ c ∷ back ≡ cs = ap (λ (v : ℕ × List Buf). v.1) (some-inj e) in
    rw (sym at) (record {
      size = length_same bs (front ++ c ∷ back) (rw s (length_replaced b c front back)) u.size;
      unique = recycled-Unique dev blockno front back b (rw (sym s) x) (rw (sym s) u.unique);
    })
bget-IsSound dev blockno i bs cs u _ (exhausted x y) e = absurd (cc e)

tally_same-IsSound :
    (bs cs : List Buf)
    → ((p : Buf → Bool) → Steady p → tally p cs ≡ tally p bs)
    → IsSound bs
    → IsSound cs
tally_same-IsSound bs cs same u = record {
  size = length_same bs cs (same (λ b. true) (λ b f r. (refl, refl))) u.size;
  unique = λ e k ne.
      let z = same (holds e k) (λ b f r. (refl, refl)) in omega (arith, z, u.unique e k ne);
}

length-link : (n i : ℕ) (bs : List Buf) → length (link n i bs) ≡ n + length bs
unfolding link
length-link zero i bs = omega arith
length-link (suc n) i bs = omega (
  arith,
  length-link n (i + 1) (record { index = i; flags = 0; dev = 0; blockno = 0; refcnt = 0 } ∷ bs),
)

count-link : (e k n i : ℕ) (bs : List Buf) → e ≢ 0 → count e k (link n i bs) ≡ count e k bs
unfolding link tally
count-link e k zero i bs ne = refl
count-link e k (suc n) i bs ne =
    let c : Buf = record { index = i; flags = 0; dev = 0; blockno = 0; refcnt = 0 } in
    let other : holds e k c ≡ false = ground arith in
    let one : one_if (holds e k c) ≡ 0 = rw other refl in
    count-link e k n (i + 1) (c ∷ bs) ne ∙ omega (arith, one)

binit-IsSound : IsSound binit
unfolding binit tally
binit-IsSound = record {
  size = length-link n_buf 0 [];
  unique = λ e k ne. let z = count-link e k n_buf 0 [] ne in omega (arith, z);
}

-- From boot on, whatever sequence of bget, brelse and changes of flags is run, the list has NBUF buffers,
-- and no block of a device other than 0 has more than one of them.
pub Reach-IsSound : (bs : List Buf) → Reach bs → IsSound bs
Reach-IsSound _ boots = binit-IsSound
Reach-IsSound _ (gets dev blockno i bs cs x e) =
    bget-IsSound dev blockno i bs cs (Reach-IsSound bs x) (bget dev blockno bs)
      (bget-Gets dev blockno bs) e
Reach-IsSound _ (releases i bs x) =
    tally_same-IsSound bs (brelse i bs) (λ p s. tally-brelse p s i bs) (Reach-IsSound bs x)
Reach-IsSound _ (flags i f bs x) =
    tally_same-IsSound bs (put_flags i f bs) (λ p s. tally-put_flags p s i f bs)
      (Reach-IsSound bs x)
