-- ===== src/Memory/Fill.antt =====
-- memset fills, whether it stores bytes or words; strncpy copies up to the NUL and pads.
use tugas_sistem_operasi.Base.{
  ℕ, zero, suc, ◌+◌, ◌-◌, ◌*◌, ◌/◌, ◌%◌, ◌^◌, ◌<◌, ◌≡◌, refl, ◌∙◌, ap, sym, inl, inr, ◌&&◌, arith,
  ◌==◌, ltb, Bool-cases,
}
use tugas_sistem_operasi.Memory.{Memory, poke, poke_word, stosb, stosl, memset}
use tugas_sistem_operasi.Memory.Copy.{Filled}

-- A first part and then the rest.
pub Filled-append :
    (d k n : ℕ) (f : ℕ → ℕ) (m mid r : Memory)
    → Filled d k f m mid
    → Filled (d + k) n (λ i. f (k + i)) mid r
    → Filled d (k + n) f m r
Filled-append d k n f m mid r (part, kept) (rest, outside) = (
  λ i lt. elim (Bool-cases (ltb i k)) [
    | inl early ↦ outside (d + i) (ground arith) ∙ part i (ground arith)
    | inr late ↦
        let e : d + k + (i - k) ≡ d + i = ground arith in
        let at : k + (i - k) ≡ i = ground arith in
        ap r (sym e) ∙ rest (i - k) (ground arith) ∙ ap f at
  ],
  λ a out. outside a (omega arith) ∙ kept a (omega arith),
)

poke-Filled : (d b : ℕ) (m : Memory) → Filled d 1 (λ i. b) m (poke d b m)
poke-Filled d b m = (λ i lt. ground arith, λ a out. ground arith)

poke_word-Filled :
    (d b : ℕ) (m : Memory)
    → b < 256
    → Filled d 4 (λ i. b) m (poke_word d (b * 2 ^ 24 + b * 2 ^ 16 + b * 2 ^ 8 + b) m)
poke_word-Filled d b m lt =
    let w = b * 2 ^ 24 + b * 2 ^ 16 + b * 2 ^ 8 + b in
    let b0 : w % 256 ≡ b = omega arith in
    let b1 : w / 2 ^ 8 % 256 ≡ b = omega arith in
    let b2 : w / 2 ^ 16 % 256 ≡ b = omega arith in
    let b3 : w / 2 ^ 24 % 256 ≡ b = omega arith in
    rw (b0, b1, b2, b3) (λ i l. ground arith, λ a out. ground arith)

stosb-Filled : (n d c : ℕ) (m : Memory) → Filled d n (λ i. c % 256) m (stosb d c n m)
unfolding stosb
stosb-Filled zero d c m = (λ i lt. absurd (omega arith), λ a out. refl)
stosb-Filled (suc n) d c m =
    let size : suc n ≡ 1 + n = omega arith in
    rw size (
      Filled-append d 1 n (λ i. c % 256) m (poke d (c % 256) m) (stosb d c (suc n) m)
        (poke-Filled d (c % 256) m) (stosb-Filled n (d + 1) c (poke d (c % 256) m)))

stosl-Filled :
    (n d b : ℕ) (m : Memory)
    → b < 256
    → Filled d (n * 4) (λ i. b) m (stosl d (b * 2 ^ 24 + b * 2 ^ 16 + b * 2 ^ 8 + b) n m)
unfolding stosl
stosl-Filled zero d b m lt = (λ i l. absurd (omega arith), λ a out. refl)
stosl-Filled (suc n) d b m lt =
    let w = b * 2 ^ 24 + b * 2 ^ 16 + b * 2 ^ 8 + b in
    let size : suc n * 4 ≡ 4 + n * 4 = omega arith in
    rw size (
      Filled-append d 4 (n * 4) (λ i. b) m (poke_word d w m) (stosl d w (suc n) m)
        (poke_word-Filled d b m lt) (stosl-Filled n (d + 4) b (poke_word d w m) lt))

-- memset sets n bytes from the destination on to the low byte of c, whether it stores bytes or
-- whole words, and changes no other byte.
pub memset_lem : (d c n : ℕ) (m : Memory) → Filled d n (λ i. c % 256) m (memset d c n m)
unfolding memset
memset_lem d c n m = elim (Bool-cases ((d % 4 == 0) && (n % 4 == 0))) [
  | inr bytes ↦ rw (bytes, memset) (stosb-Filled n d c m)
  | inl words ↦
      let size : n / 4 * 4 ≡ n = ground arith in
      let filled = stosl-Filled (n / 4) d (c % 256) m (omega arith) in
      rw (words, memset) (rw size at filled)
]
