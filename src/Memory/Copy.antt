-- ===== src/Memory/Copy.antt =====
-- memmove copies whatever way its arrays overlap; memset fills.
use tugas_sistem_operasi.Base.{
  ℕ, zero, suc, ◌+◌, ◌-◌, ◌≤◌, ◌<◌, ◌≡◌, refl, ◌∙◌, ap, sym, ◌⊎◌, inl, inr, ◌&&◌, arith, ◌==◌, ltb,
  Bool-cases,
}
use tugas_sistem_operasi.Memory.{Memory, poke, copy_up, copy_down, memmove}

-- `n` bytes from `d` on are those of `f`, and the others are those of `m`.
abbrev pub Filled : ℕ → ℕ → (ℕ → ℕ) → Memory → Memory → Type 0
Filled d n f m r =
    ((i : ℕ) → i < n → r (d + i) ≡ f i) × ((a : ℕ) → (a < d) ⊎ (d + n ≤ a) → r a ≡ m a)

pub at_start : (p : ℕ) (m : Memory) → m (p + 0) ≡ m p
at_start p m = ap m (omega arith)

pub behind : (p i : ℕ) (m : Memory) → m (p + suc i) ≡ m (p + 1 + i)
behind p i m = ap m (omega arith)

pub poke_at : (a b : ℕ) (m : Memory) → poke a b m a ≡ b
poke_at a b m = ground arith

pub poke_off : (a b j : ℕ) (m : Memory) → (a < j) ⊎ (j < a) → poke a b m j ≡ m j
poke_off a b j m ne = ground arith

-- The first byte, and then the others.
Filled-up :
    (n d s : ℕ) (m r : Memory)
    → (d ≤ s) ⊎ (s + suc n ≤ d)
    → Filled (d + 1) n (λ i. poke d (m s) m (s + 1 + i)) (poke d (m s) m) r
    → Filled d (suc n) (λ i. m (s + i)) m r
Filled-up n d s m r apart (others, outside) = (
  λ i lt. elim (Bool-cases (i == 0)) [
    | inl first ↦
        let e : d ≡ d + i = ground arith in
        let f : s ≡ s + i = ground arith in
        rw (← e, ← f) (outside d (omega arith) ∙ poke_at d (m s) m)
    | inr later ↦
        let e : d + 1 + (i - 1) ≡ d + i = ground arith in
        let f : s + 1 + (i - 1) ≡ s + i = ground arith in
        ap r (sym e)
        ∙ others (i - 1) (ground arith)
        ∙ rw f (poke_off d (m s) (s + i) m (ground arith))
  ],
  λ a out. outside a (omega arith) ∙ poke_off d (m s) a m (omega arith),
)

copy_up-Filled :
    (n d s : ℕ) (m : Memory)
    → (d ≤ s) ⊎ (s + n ≤ d)
    → Filled d n (λ i. m (s + i)) m (copy_up d s n m)
unfolding copy_up
copy_up-Filled zero d s m apart = (λ i lt. absurd (omega arith), λ a out. refl)
copy_up-Filled (suc n) d s m apart =
    Filled-up n d s m (copy_up d s (suc n) m) apart
      (copy_up-Filled n (d + 1) (s + 1) (poke d (m s) m) (omega arith))

-- The last byte, and then the others.
Filled-down :
    (n d s : ℕ) (m r : Memory)
    → s ≤ d
    → Filled d n (λ i. poke (d + n) (m (s + n)) m (s + i)) (poke (d + n) (m (s + n)) m) r
    → Filled d (suc n) (λ i. m (s + i)) m r
Filled-down n d s m r le (others, outside) = (
  λ i lt. elim (Bool-cases (i == n)) [
    | inl last ↦
        let e : i ≡ n = ground arith in
        rw e (outside (d + n) (omega arith) ∙ poke_at (d + n) (m (s + n)) m)
    | inr early ↦
        let before : i < n = ground arith in
        others i before ∙ poke_off (d + n) (m (s + n)) (s + i) m (omega arith)
  ],
  λ a out. outside a (omega arith) ∙ poke_off (d + n) (m (s + n)) a m (omega arith),
)

copy_down-Filled :
    (n d s : ℕ) (m : Memory) → s ≤ d → Filled d n (λ i. m (s + i)) m (copy_down (d + n) (s + n) n m)
unfolding copy_down
copy_down-Filled zero d s m le = (λ i lt. absurd (omega arith), λ a out. refl)
copy_down-Filled (suc n) d s m le =
    let dst : d + suc n - 1 ≡ d + n = omega arith in
    let src : s + suc n - 1 ≡ s + n = omega arith in
    Filled-down n d s m (copy_down (d + suc n) (s + suc n) (suc n) m) le
      (rw (dst, src) (copy_down-Filled n d s (poke (d + n) (m (s + n)) m) le))

-- memmove leaves at the destination the n bytes that the source held before the call, also when
-- the two overlap, and changes no other byte.
pub memmove_lem : (d s n : ℕ) (m : Memory) → Filled d n (λ i. m (s + i)) m (memmove d s n m)
unfolding memmove
memmove_lem d s n m = elim (Bool-cases (ltb s d && ltb d (s + n))) [
  | inl down ↦ rw (down, memmove) (copy_down-Filled n d s m (ground arith))
  | inr up ↦ rw (up, memmove) (copy_up-Filled n d s m (ground arith))
]
