-- ===== src/Memory/Strings.antt =====
-- strncpy and safestrcpy, between arrays that do not overlap.
use tugas_sistem_operasi.Base.{
  ℕ, zero, suc, ◌+◌, ◌≤◌, ◌<◌, ◌≡◌, refl, ◌∙◌, ap, sym, ◌⊎◌, inl, inr, ◌≢◌, true, false, arith,
  if◌then◌else◌, ◌==◌, Bool-cases,
}
use tugas_sistem_operasi.Memory.{Memory, poke, pad, strncpy, safe_loop, safestrcpy, strlen}
use tugas_sistem_operasi.Memory.Copy.{Filled, poke_at, poke_off, at_start, behind}

abbrev pub Apart : ℕ → ℕ → ℕ → Type 0
Apart s t n = (t + n ≤ s) ⊎ (s + n ≤ t)

-- The array at `s` of result `r` holds the string at `t` of `m`, cut to less than `n` bytes.
pub record Holds (s t n : ℕ) (m r : Memory) : Type 0 where
  pub size : ℕ
  pub fits : size < n
  pub bytes : (i : ℕ) → i < size → (r (s + i) ≡ m (t + i)) × (m (t + i) ≢ 0)
  pub ended : r (s + size) ≡ 0
  pub cut : (m (t + size) ≡ 0) ⊎ (suc size ≡ n)
  pub kept : (a : ℕ) → (a < s) ⊎ (s + n ≤ a) → r a ≡ m a

Holds-nil :
    (s t n : ℕ) (m r : Memory)
    → r s ≡ 0
    → (m t ≡ 0) ⊎ (n ≡ 0)
    → ((a : ℕ) → (a < s) ⊎ (s + suc n ≤ a) → r a ≡ m a)
    → Holds s t (suc n) m r
Holds-nil s t n m r end why kept = record {
  size = 0;
  fits = omega arith;
  bytes = λ i lt. absurd (omega arith);
  ended = at_start s r ∙ end;
  cut = rw (at_start t m) (omega arith);
  kept = kept;
}

Holds-cons :
    (s t n : ℕ) (m r : Memory)
    → Apart s t (suc (suc n))
    → m t ≢ 0
    → Holds (s + 1) (t + 1) (suc n) (poke s (m t) m) r
    → Holds s t (suc (suc n)) m r
Holds-cons s t n m r apart ne h = record {
  size = suc h.size;
  fits = omega (arith, h.fits);
  bytes = all_bytes;
  ended = behind s h.size r ∙ h.ended;
  cut = why h.cut;
  kept = λ a out. h.kept a (omega arith) ∙ poke_off s (m t) a m (omega arith);
}
  where
    unmoved : (i : ℕ) → i < suc n → poke s (m t) m (t + 1 + i) ≡ m (t + suc i)
    unmoved i lt = poke_off s (m t) (t + 1 + i) m (omega arith) ∙ sym (behind t i m)

    all_bytes : (i : ℕ) → i < suc h.size → (r (s + i) ≡ m (t + i)) × (m (t + i) ≢ 0)
    all_bytes zero lt =
        rw (at_start s r, at_start t m) (h.kept s (omega arith) ∙ poke_at s (m t) m, ne)
    all_bytes (suc i) lt =
        let (e, nz) = h.bytes i (omega arith) in
        let u = unmoved i (omega (arith, h.fits)) in (behind s i r ∙ e ∙ u, λ z. nz (u ∙ z))

    why :
        (poke s (m t) m (t + 1 + h.size) ≡ 0) ⊎ (suc h.size ≡ suc n)
        → (m (t + suc h.size) ≡ 0) ⊎ (suc (suc h.size) ≡ suc (suc n))
    why (inl z) = inl (sym (unmoved h.size h.fits) ∙ z)
    why (inr e) = inr (ap suc e)

safe_loop-Holds :
    (n s t : ℕ) (m : Memory) → Apart s t (suc n) → Holds s t (suc n) m (safe_loop s t n m)
unfolding safe_loop
safe_loop-Holds zero s t m apart =
    Holds-nil s t 0 m (poke s 0 m) (poke_at s 0 m) (inr refl)
      (λ a out. poke_off s 0 a m (omega arith))
safe_loop-Holds (suc n) s t m apart = elim (Bool-cases (m t == 0)) [
  | inr e ↦
      rw (e, safe_loop)
        (Holds-cons s t n m (safe_loop (s + 1) (t + 1) n (poke s (m t) m)) apart (ground arith)
          (safe_loop-Holds n (s + 1) (t + 1) (poke s (m t) m) (omega arith)))
  | inl e ↦
      let z : m t ≡ 0 = ground arith in
      let copied = poke s (m t) m in
      rw (e, safe_loop)
        (Holds-nil s t (suc n) m (poke (s + 1) 0 copied)
          (poke_off (s + 1) 0 s copied (omega arith) ∙ poke_at s (m t) m ∙ z) (inl z)
          (λ a out. poke_off (s + 1) 0 a copied (omega arith) ∙ poke_off s (m t) a m (omega arith)))
]

-- safestrcpy into n > 0 bytes that do not overlap the source leaves there the source's string, cut
-- to n - 1 bytes if it is longer, with a NUL behind it, and changes no byte outside of the n.
pub safestrcpy-Holds :
    (s t n : ℕ) (m : Memory) → Apart s t (suc n) → Holds s t (suc n) m (safestrcpy s t (suc n) m)
unfolding safestrcpy
safestrcpy-Holds s t n m apart = safe_loop-Holds n s t m apart

-- The byte at offset `i` of the string at `t` with NULs behind its end.
unfoldable pub padded : Memory → ℕ → ℕ → ℕ
padded m t zero = m t
padded m t (suc i) = let rest = padded m (t + 1) i in if m t == 0 then 0 else rest

-- The first byte, and then the others.
Filled-cons :
    (s n b : ℕ) (f : ℕ → ℕ) (m r : Memory)
    → f 0 ≡ b
    → Filled (s + 1) n (λ i. f (suc i)) (poke s b m) r
    → Filled s (suc n) f m r
Filled-cons s n b f m r e (others, outside) =
    (all_bytes, λ a out. outside a (omega arith) ∙ poke_off s b a m (omega arith))
  where
    all_bytes : (i : ℕ) → i < suc n → r (s + i) ≡ f i
    all_bytes zero lt = at_start s r ∙ outside s (omega arith) ∙ poke_at s b m ∙ sym e
    all_bytes (suc i) lt = behind s i r ∙ others i (omega arith)

pad-Filled : (n s : ℕ) (m : Memory) → Filled s n (λ i. 0) m (pad s n m)
unfolding pad
pad-Filled zero s m = (λ i lt. absurd (omega arith), λ a out. refl)
pad-Filled (suc n) s m =
    Filled-cons s n 0 (λ i. 0) m (pad (s + 1) n (poke s 0 m)) refl
      (pad-Filled n (s + 1) (poke s 0 m))

-- A byte that is stored outside of the string does not change it.
padded-poke :
    (i t a b : ℕ) (m : Memory) → (a < t) ⊎ (t + i < a) → padded (poke a b m) t i ≡ padded m t i
unfolding padded
padded-poke zero t a b m out = poke_off a b t m (omega arith)
padded-poke (suc i) t a b m out =
    rw (poke_off a b t m (omega arith), padded-poke i (t + 1) a b m (omega arith)) refl

Filled-trans :
    (s n : ℕ) (f g : ℕ → ℕ) (m r : Memory)
    → ((i : ℕ) → i < n → f i ≡ g i)
    → Filled s n f m r
    → Filled s n g m r
Filled-trans s n f g m r e (inside, outside) = (λ i lt. inside i lt ∙ e i lt, outside)

padded_live : (m : Memory) (t i : ℕ) → (m t == 0) ≡ false → padded m t (suc i) ≡ padded m (t + 1) i
unfolding padded
padded_live m t i e = rw (e, padded) refl

padded_ended : (m : Memory) (t i : ℕ) → (m t == 0) ≡ true → padded m t (suc i) ≡ 0
unfolding padded
padded_ended m t i e = rw (e, padded) refl

padded_first : (m : Memory) (t : ℕ) → padded m t 0 ≡ m t
unfolding padded
padded_first m t = refl

-- strncpy fills n bytes that do not overlap the source with the source's string, cut if it is
-- longer and padded with NULs if it is shorter, and changes no other byte.
pub strncpy-Filled :
    (n s t : ℕ) (m : Memory) → Apart s t n → Filled s n (padded m t) m (strncpy s t n m)
unfolding strncpy
strncpy-Filled zero s t m apart = (λ i lt. absurd (omega arith), λ a out. refl)
strncpy-Filled (suc n) s t m apart =
    let copied = poke s (m t) m in
    elim (Bool-cases (m t == 0)) [
      | inl e ↦
          rw (e, strncpy)
            (Filled-cons s n (m t) (padded m t) m (pad (s + 1) n copied) (padded_first m t) (
              Filled-trans (s + 1) n (λ i. 0) (λ i. padded m t (suc i)) copied
                (pad (s + 1) n copied) (λ i lt. sym (padded_ended m t i e))
                (pad-Filled n (s + 1) copied)))
      | inr e ↦
          rw (e, strncpy)
            (Filled-cons s n (m t) (padded m t) m (strncpy (s + 1) (t + 1) n copied)
              (padded_first m t)
              (Filled-trans (s + 1) n (padded copied (t + 1)) (λ i. padded m t (suc i)) copied
                (strncpy (s + 1) (t + 1) n copied)
                (λ i lt. padded-poke i (t + 1) s (m t) m (omega arith) ∙ sym (padded_live m t i e))
                (strncpy-Filled n (s + 1) (t + 1) copied (omega arith))))
    ]

-- strlen of a string that ends within the bound is the offset of its first NUL, and does not depend
-- on the bound.
pub strlen_lem :
    (bound len s : ℕ) (m : Memory)
    → len < bound
    → ((i : ℕ) → i < len → m (s + i) ≢ 0)
    → m (s + len) ≡ 0
    → strlen bound s m ≡ len
unfolding strlen
strlen_lem zero len s m lt live end = absurd (omega arith)
strlen_lem (suc bound) zero s m lt live end =
    let e : (m s == 0) ≡ true = ground (arith, sym (at_start s m) ∙ end) in rw (e, strlen) refl
strlen_lem (suc bound) (suc len) s m lt live end =
    let nz : m s ≢ 0 = λ z. live 0 (omega arith) (at_start s m ∙ z) in
    let e : (m s == 0) ≡ false = ground (arith, nz) in
    let rest =
      strlen_lem bound len (s + 1) m (omega arith)
        (λ i less z. live (suc i) (omega arith) (behind s i m ∙ z)) (sym (behind s len m) ∙ end) in
    rw (e, strlen) (omega (arith, rest))
