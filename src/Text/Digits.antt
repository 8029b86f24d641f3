-- ===== src/Text/Digits.antt =====
-- The digits that printint puts, as atoi and atoo read them.
use native.Mathlib.Numerals.{unary_clauses}
use tugas_sistem_operasi.Base.{
  ℕ, zero, suc, ◌+◌, ◌-◌, ◌*◌, ◌/◌, ◌%◌, ◌^◌, ◌≤◌, ◌<◌, ◌≡◌, refl, ◌∙◌, ap, sym, ◌⊎◌, inl, inr,
  true, ◌&&◌, List, ◌∷◌, arith, ◌==◌, leb, Bool-cases,
}
use tugas_sistem_operasi.Text.{uint, digit, digits, put_back, scan_digits}

-- The bases of atoi and atoo.
abbrev pub Base : ℕ → Type 0
Base base = (base ≡ 10) ⊎ (base ≡ 8)

double : (n : ℕ) → 2 ^ suc n ≡ 2 * 2 ^ n
double n = simp unary_clauses (omega arith)

less_left : (base n x : ℕ) → Base base → x < 2 ^ suc n → x / base < 2 ^ n
less_left base n x (inl e) lt = rw e (omega (arith, double n))
less_left base n x (inr e) lt = rw e (omega (arith, double n))

last_digit : (base x : ℕ) → Base base → x / base * base + x % base ≡ x
last_digit base x (inl e) = rw e (omega arith)
last_digit base x (inr e) = rw e (omega arith)

-- One more digit is read.
scan_one :
    (base n d : ℕ) (rest : List ℕ)
    → Base base
    → d < base
    → scan_digits base n (digit d ∷ rest) ≡ scan_digits base (uint (n * base + d)) rest
unfolding scan_digits
scan_one base n d rest b lt =
    let at : digit d ≡ b'0' + d = digit_at d (small base d b lt) in
    let inside : (leb b'0' (b'0' + d) && leb (b'0' + d) (b'0' + base - 1)) ≡ true = ground arith in
    let value : b'0' + d - b'0' ≡ d = omega arith in
    rw at (rw (inside, scan_digits) (rw value refl))
  where
    small : (base d : ℕ) → Base base → d < base → d ≤ 9
    small base d b lt = omega (arith, b)

    digit_at : (d : ℕ) → d ≤ 9 → digit d ≡ b'0' + d
    digit_at d le = ground arith

pub digit_lt : (base x : ℕ) → Base base → x % base < base
digit_lt base x (inl e) = rw e (omega arith)
digit_lt base x (inr e) = rw e (omega arith)

-- The digits of x are read as x.
pub scan-put_back :
    (n base x : ℕ) (rest : List ℕ)
    → Base base
    → x < 2 ^ 32
    → x < 2 ^ n
    → scan_digits base 0 (put_back (digits n base x) rest) ≡ scan_digits base x rest
unfolding put_back digits
scan-put_back zero base x rest b word lt = ap (λ (v : ℕ). scan_digits base v rest) (omega arith)
scan-put_back (suc n) base x rest b word lt =
    let value = last_digit base x b in
    let in_word : uint x ≡ x = omega arith in
    elim (Bool-cases (x / base == 0)) [
      | inl last ↦
          let e : x / base ≡ 0 = ground arith in
          rw (last, digits)
            (scan_one base 0 (x % base) rest b (digit_lt base x b)
              ∙ ap (λ (v : ℕ). scan_digits base v rest)
                  (ap (λ (q : ℕ). uint (q * base + x % base)) (sym e) ∙ ap uint value ∙ in_word))
      | inr more ↦
          rw (more, digits)
            (scan-put_back n base (x / base) (digit (x % base) ∷ rest) b (quotient base x b word)
                (less_left base n x b lt)
              ∙ scan_one base (x / base) (x % base) rest b (digit_lt base x b)
              ∙ ap (λ (v : ℕ). scan_digits base v rest) (ap uint value ∙ in_word))
    ]
  where
    quotient : (base x : ℕ) → Base base → x < 2 ^ 32 → x / base < 2 ^ 32
    quotient base x (inl e) lt = rw e (omega arith)
    quotient base x (inr e) lt = rw e (omega arith)
