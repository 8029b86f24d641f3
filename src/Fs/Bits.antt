-- ===== src/Fs/Bits.antt =====
-- Setting and clearing one bit of a byte.
use native.Mathlib.Numerals.{unary_clauses}
use tugas_sistem_operasi.Base.{
  ℕ, zero, suc, ◌+◌, ◌-◌, ◌*◌, ◌/◌, ◌^◌, ◌≤◌, ◌<◌, ◌≡◌, refl, ◌∙◌, ap, ◌≢◌, arith,
}
use tugas_sistem_operasi.Fs.{bit}

double : (n : ℕ) → 2 ^ suc n ≡ 2 * 2 ^ n
double n = simp unary_clauses (omega arith)

pub bit-lt : (b k : ℕ) → bit b k < 2
unfolding bit
bit-lt b zero = omega arith
bit-lt b (suc k) = bit-lt (b / 2) k

pub bit-add_self : (b k : ℕ) → bit b k ≡ 0 → bit (b + 2 ^ k) k ≡ 1
unfolding bit
bit-add_self b zero e = omega arith
bit-add_self b (suc k) e =
    let half : (b + 2 ^ suc k) / 2 ≡ b / 2 + 2 ^ k = omega (arith, double k) in
    ap (λ (n : ℕ). bit n k) half ∙ bit-add_self (b / 2) k e

pub bit-add_ne : (b k j : ℕ) → bit b k ≡ 0 → k ≢ j → bit (b + 2 ^ k) j ≡ bit b j
unfolding bit
bit-add_ne b zero zero e ne = absurd (ne refl)
bit-add_ne b zero (suc j) e ne = ap (λ (n : ℕ). bit n j) (omega arith)
bit-add_ne b (suc k) zero e ne = omega (arith, double k)
bit-add_ne b (suc k) (suc j) e ne =
    let half : (b + 2 ^ suc k) / 2 ≡ b / 2 + 2 ^ k = omega (arith, double k) in
    ap (λ (n : ℕ). bit n j) half ∙ bit-add_ne (b / 2) k j e (λ s. ne (ap suc s))

-- A byte in which the bit is set is at least its value.
pub pow-le-of_bit : (b k : ℕ) → bit b k ≡ 1 → 2 ^ k ≤ b
unfolding bit
pow-le-of_bit b zero e = omega arith
pow-le-of_bit b (suc k) e = omega (arith, double k, pow-le-of_bit (b / 2) k e)

pub bit-sub_self : (b k : ℕ) → bit b k ≡ 1 → bit (b - 2 ^ k) k ≡ 0
unfolding bit
bit-sub_self b zero e = omega arith
bit-sub_self b (suc k) e =
    let half : (b - 2 ^ suc k) / 2 ≡ b / 2 - 2 ^ k =
      omega (arith, double k, pow-le-of_bit (b / 2) k e) in
    ap (λ (n : ℕ). bit n k) half ∙ bit-sub_self (b / 2) k e

pub bit-sub_ne : (b k j : ℕ) → bit b k ≡ 1 → k ≢ j → bit (b - 2 ^ k) j ≡ bit b j
unfolding bit
bit-sub_ne b zero zero e ne = absurd (ne refl)
bit-sub_ne b zero (suc j) e ne = ap (λ (n : ℕ). bit n j) (omega arith)
bit-sub_ne b (suc k) zero e ne = omega (arith, double k, pow-le-of_bit (b / 2) k e)
bit-sub_ne b (suc k) (suc j) e ne =
    let half : (b - 2 ^ suc k) / 2 ≡ b / 2 - 2 ^ k =
      omega (arith, double k, pow-le-of_bit (b / 2) k e) in
    ap (λ (n : ℕ). bit n j) half ∙ bit-sub_ne (b / 2) k j e (λ s. ne (ap suc s))
