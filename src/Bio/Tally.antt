-- ===== src/Bio/Tally.antt =====
-- bget, brelse and changes of flags as permutations and replacements in the list (Source Code/bio.c): the
-- numbers of buffers with a property.
use tugas_sistem_operasi.Base.{
  ℕ, ◌+◌, ◌-◌, ◌%◌, ◌^◌, ◌≡◌, refl, ap, inl, inr, Option, none, some, Bool, true, List, [], ◌∷◌,
  ◌++◌, arith, if◌then◌else◌, ◌==◌, length, Bool-cases,
}
use tugas_sistem_operasi.Bio.{Buf, unlink, lower, brelse}

-- The number of buffers with a property.
unfoldable pub tally : (Buf → Bool) → List Buf → ℕ
tally p [] = 0
tally p (b ∷ bs) = (if p b then 1 else 0) + tally p bs

-- The driver and log.c set the flags of a buffer.
unfoldable pub put_flags : (i flags : ℕ) → List Buf → List Buf
put_flags i flags [] = []
put_flags i flags (b ∷ bs) =
    let rest = put_flags i flags bs in
    if b.index == i then record b { flags = flags } ∷ bs else b ∷ rest

pub tally-append :
    (p : Buf → Bool) (b : Buf) (front back : List Buf)
    → tally p (front ++ b ∷ back) ≡ tally p front + (if p b then 1 else 0) + tally p back
unfolding tally
tally-append p b [] back = omega arith
tally-append p b (c ∷ front) back = omega (arith, tally-append p b front back)

-- A property that does not look at the flags and the references.
abbrev pub Steady : (Buf → Bool) → Type 0
Steady p =
    (b : Buf) (f r : ℕ) → (p (record b { flags = f }) ≡ p b) × (p (record b { refcnt = r }) ≡ p b)

pub tally-put_flags :
    (p : Buf → Bool)
    → Steady p
    → (i f : ℕ) (bs : List Buf) → tally p (put_flags i f bs) ≡ tally p bs
unfolding tally put_flags
tally-put_flags p s i f [] = refl
tally-put_flags p s i f (b ∷ bs) = elim (Bool-cases (b.index == i)) [
  | inl e ↦ rw e (ap (λ (v : Bool). (if v then 1 else 0) + tally p bs) (s b f 0).0)
  | inr e ↦ rw e (ap (λ (k : ℕ). (if p b then 1 else 0) + k) (tally-put_flags p s i f bs))
]

tally-lower :
    (p : Buf → Bool) → Steady p → (i : ℕ) (bs : List Buf) → tally p (lower i bs) ≡ tally p bs
unfolding tally lower
tally-lower p s i [] = refl
tally-lower p s i (b ∷ bs) = elim (Bool-cases (b.index == i)) [
  | inl e ↦ rw e (
      ap (λ (v : Bool). (if v then 1 else 0) + tally p bs)
        (s b 0 ((b.refcnt + 2 ^ 32 - 1) % 2 ^ 32)).1)
  | inr e ↦ rw e (ap (λ (k : ℕ). (if p b then 1 else 0) + k) (tally-lower p s i bs))
]

-- What unlink leaves, with the buffer in front.
data Unlinked (p : Buf → Bool) (bs : List Buf) : Option (Buf × List Buf) → Type 0 where
  absent : Unlinked p bs none
  unlinked :
      (b : Buf) (cs : List Buf) → tally p (b ∷ cs) ≡ tally p bs → Unlinked p bs (some (b, cs))

Unlinked-behind :
    (p : Buf → Bool) (b : Buf) (bs : List Buf) (r : Option (Buf × List Buf))
    → Unlinked p bs r
    → Unlinked p (b ∷ bs) (elim r [ none ↦ none | some (c, cs) ↦ some (c, b ∷ cs) ])
unfolding tally
Unlinked-behind p b bs _ absent = absent
Unlinked-behind p b bs _ (unlinked c cs e) = unlinked c (b ∷ cs) (omega (arith, e))

unlink-Unlinked :
    (p : Buf → Bool) → Steady p → (i : ℕ) (bs : List Buf) → Unlinked p bs (unlink i bs)
unfolding unlink tally
unlink-Unlinked p s i [] = absent
unlink-Unlinked p s i (b ∷ bs) = elim (Bool-cases (b.index == i)) [
  | inl e ↦ rw e (
      unlinked (record b { refcnt = (b.refcnt + 2 ^ 32 - 1) % 2 ^ 32 }) bs
        (ap (λ (v : Bool). (if v then 1 else 0) + tally p bs)
          (s b 0 ((b.refcnt + 2 ^ 32 - 1) % 2 ^ 32)).1))
  | inr e ↦ rw e (Unlinked-behind p b bs (unlink i bs) (unlink-Unlinked p s i bs))
]

brelse_tally :
    (p : Buf → Bool)
    → Steady p
    → (i : ℕ) (bs : List Buf) → (r : Option (Buf × List Buf)) → Unlinked p bs r
    → tally p (elim r [ none ↦ bs | some (b, cs) ↦ if b.refcnt == 0 then b ∷ cs else lower i bs ])
      ≡ tally p bs
brelse_tally p s i bs _ absent = refl
brelse_tally p s i bs _ (unlinked b cs e) = elim (Bool-cases (b.refcnt == 0)) [
  | inl z ↦ rw z e
  | inr z ↦ rw z (tally-lower p s i bs)
]

pub tally-brelse :
    (p : Buf → Bool) → Steady p → (i : ℕ) (bs : List Buf) → tally p (brelse i bs) ≡ tally p bs
unfolding brelse
tally-brelse p s i bs = brelse_tally p s i bs (unlink i bs) (unlink-Unlinked p s i bs)

pub tally-length : (bs : List Buf) → tally (λ b. true) bs ≡ length bs
unfolding tally
tally-length [] = refl
tally-length (b ∷ bs) = omega (arith, tally-length bs)
