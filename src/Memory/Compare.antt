-- ===== src/Memory/Compare.antt =====
-- memcmp and strncmp stop at the first place where they must.
use tugas_sistem_operasi.Base.{
  ℕ, zero, suc, ◌+◌, ◌<◌, ◌≡◌, ◌∙◌, ◌≢◌, ◌⊎◌, inl, inr, false, ◌&&◌, not, arith, ◌==◌, Bool-cases,
  ℤ, pos, sub_ℕ,
}
use tugas_sistem_operasi.Memory.{Memory, memcmp, strncmp}
use tugas_sistem_operasi.Memory.Copy.{at_start, behind}

-- The bytes at offset `i` of two arrays are equal.
abbrev pub Agree : ℕ → ℕ → Memory → ℕ → Type 0
Agree p q m i = m (p + i) ≡ m (q + i)

-- They are, and the strings do not end there.
abbrev pub Goes : ℕ → ℕ → Memory → ℕ → Type 0
Goes p q m i = Agree p q m i × (m (p + i) ≢ 0)

-- The results of memcmp on `n` bytes.
pub data Compared (p q n : ℕ) (m : Memory) : ℤ → Type 0 where
  same : ((i : ℕ) → i < n → Agree p q m i) → Compared p q n m (pos 0)
  differ :
      (i x y : ℕ)
      → i < n
      → ((j : ℕ) → j < i → Agree p q m j)
      → m (p + i) ≡ x
      → m (q + i) ≡ y
      → x ≢ y
      → Compared p q n m (sub_ℕ x y)

-- The results of strncmp on at most `n` bytes.
pub data StringCompared (p q n : ℕ) (m : Memory) : ℤ → Type 0 where
  goes_on : ((i : ℕ) → i < n → Goes p q m i) → StringCompared p q n m (pos 0)
  stops :
      (i x y : ℕ)
      → i < n
      → ((j : ℕ) → j < i → Goes p q m j)
      → m (p + i) ≡ x
      → m (q + i) ≡ y
      → (x ≡ 0) ⊎ (x ≢ y)
      → StringCompared p q n m (sub_ℕ x y)

Agree-cons :
    (p q n : ℕ) (m : Memory)
    → m p ≡ m q
    → ((i : ℕ) → i < n → Agree (p + 1) (q + 1) m i)
    → (i : ℕ) → i < suc n
    → Agree p q m i
Agree-cons p q n m e agree zero lt = rw (at_start p m, at_start q m) e
Agree-cons p q n m e agree (suc i) lt = rw (behind p i m, behind q i m) (agree i (omega arith))

Goes-cons :
    (p q n : ℕ) (m : Memory)
    → m p ≡ m q
    → m p ≢ 0
    → ((i : ℕ) → i < n → Goes (p + 1) (q + 1) m i)
    → (i : ℕ) → i < suc n
    → Goes p q m i
Goes-cons p q n m e ne goes zero lt = rw (at_start p m, at_start q m) (e, ne)
Goes-cons p q n m e ne goes (suc i) lt = rw (behind p i m, behind q i m) (goes i (omega arith))

-- One place more in front.
Compared-cons :
    (p q n : ℕ) (m : Memory) {r : ℤ}
    → m p ≡ m q
    → Compared (p + 1) (q + 1) n m r
    → Compared p q (suc n) m r
Compared-cons p q n m e (same agree) = same (Agree-cons p q n m e agree)
Compared-cons p q n m e (differ i x y lt agree at_p at_q ne) =
    differ (suc i) x y (omega arith) (Agree-cons p q i m e agree) (behind p i m ∙ at_p)
      (behind q i m ∙ at_q) ne

StringCompared-cons :
    (p q n : ℕ) (m : Memory) {r : ℤ}
    → m p ≡ m q
    → m p ≢ 0
    → StringCompared (p + 1) (q + 1) n m r
    → StringCompared p q (suc n) m r
StringCompared-cons p q n m e ne (goes_on goes) = goes_on (Goes-cons p q n m e ne goes)
StringCompared-cons p q n m e ne (stops i x y lt goes at_p at_q why) =
    stops (suc i) x y (omega arith) (Goes-cons p q i m e ne goes) (behind p i m ∙ at_p)
      (behind q i m ∙ at_q) why

-- memcmp returns 0 if the two arrays of n bytes are equal, and otherwise the difference of the two
-- unsigned bytes at the first place where they differ.
pub memcmp-Compared : (n p q : ℕ) (m : Memory) → Compared p q n m (memcmp p q n m)
unfolding memcmp
memcmp-Compared zero p q m = same (λ i lt. absurd (omega arith))
memcmp-Compared (suc n) p q m = elim (Bool-cases (m p == m q)) [
  | inl e ↦
      rw (e, memcmp) (Compared-cons p q n m (ground arith) (memcmp-Compared n (p + 1) (q + 1) m))
  | inr e ↦
      rw (e, memcmp)
        (differ 0 (m p) (m q) (omega arith) (λ j lt. absurd (omega arith)) (at_start p m)
          (at_start q m) (ground arith))
]

-- strncmp returns 0 if the first n bytes of the strings are equal and hold no NUL, and otherwise
-- the difference of the two unsigned bytes at the first place where the strings differ or the first
-- of them ends.
pub strncmp-StringCompared : (n p q : ℕ) (m : Memory) → StringCompared p q n m (strncmp p q n m)
unfolding strncmp
strncmp-StringCompared zero p q m = goes_on (λ i lt. absurd (omega arith))
strncmp-StringCompared (suc n) p q m = elim (Bool-cases (not (m p == 0) && (m p == m q))) [
  | inl e ↦
      rw (e, strncmp)
        (StringCompared-cons p q n m (ground arith) (ground arith)
          (strncmp-StringCompared n (p + 1) (q + 1) m))
  | inr e ↦
      rw (e, strncmp)
        (stops 0 (m p) (m q) (omega arith) (λ j lt. absurd (omega arith)) (at_start p m)
          (at_start q m) (why (m p) (m q) e))
]
  where
    why : (x y : ℕ) → (not (x == 0) && (x == y)) ≡ false → (x ≡ 0) ⊎ (x ≢ y)
    why x y e = elim (Bool-cases (x == 0)) [
      | inl z ↦ inl (ground arith)
      | inr nz ↦ inr (ground arith)
    ]
