-- ===== src/Text/Buffer.antt =====
-- The size of the buffer in printint, char buf[16].
use native.Mathlib.Numerals.{unary_clauses}
use tugas_sistem_operasi.Base.{
  ℕ, zero, suc, ◌+◌, ◌-◌, ◌*◌, ◌/◌, ◌^◌, ◌≤◌, ◌<◌, ◌≡◌, ◌∙◌, ◌⊎◌, inl, inr, Bool, ◌&&◌, List, [],
  ◌∷◌, ◌++◌, arith, ◌==◌, leb, length, length-append, Bool-cases,
}
use tugas_sistem_operasi.Text.{uint, digits, put_back, printint}

eightfold : (k : ℕ) → 8 ^ suc k ≡ 8 * 8 ^ k
eightfold k = simp unary_clauses (omega arith)

-- The bases that printf passes.
abbrev pub Printed : ℕ → Type 0
Printed base = (base ≡ 10) ⊎ (base ≡ 16)

fewer : (base k x : ℕ) → Printed base → x < 8 ^ suc k → x / base < 8 ^ k
fewer base k x (inl e) lt = rw e (omega (arith, eightfold k))
fewer base k x (inr e) lt = rw e (omega (arith, eightfold k))

-- The quotient of a number with a further digit is not 0.
one_more :
    (len k q : ℕ) → 0 < q → q < 8 ^ k → ((j : ℕ) → q < 8 ^ suc j → len ≤ suc j) → suc len ≤ suc k
one_more len zero q more lt shorter = absurd (omega arith)
one_more len (suc k) q more lt shorter = omega (arith, shorter k lt)

length-digits : (n base k x : ℕ) → Printed base → x < 8 ^ suc k → length (digits n base x) ≤ suc k
unfolding digits
length-digits zero base k x b lt = omega arith
length-digits (suc n) base k x b lt = elim (Bool-cases (x / base == 0)) [
  | inl last ↦ rw (last, digits) (omega arith)
  | inr more ↦
      rw (more, digits)
        (one_more (length (digits n base (x / base))) k (x / base) (ground arith)
          (fewer base k x b lt) (λ j less. length-digits n base j (x / base) b less))
]

length-put_back : (xs later : List ℕ) → length (put_back xs later) ≡ length xs + length later
unfolding put_back
length-put_back [] later = omega arith
length-put_back (x ∷ xs) later = length-put_back xs (x ∷ later) ∙ omega arith

-- In the bases that printf passes, the text of a 32-bit number has at most 12 bytes, so printint
-- stays inside its buffer of 16.
pub length-printint :
    (base : ℕ) (sgn : Bool) (x : ℕ) → Printed base → x < 2 ^ 32 → length (printint base sgn x) ≤ 12
unfolding printint
length-printint base sgn x b word = elim (Bool-cases (sgn && leb (2 ^ 31) x)) [
  | inl neg ↦
      let ds = digits 32 base (uint (2 ^ 32 - x)) in
      let size = length-digits 32 base 10 (uint (2 ^ 32 - x)) b (omega arith) in
      rw (neg, printint)
        (omega (arith, size, length-put_back (ds ++ b'-' ∷ []) [], length-append ds (b'-' ∷ [])))
  | inr plain ↦
      let ds = digits 32 base x in
      let size = length-digits 32 base 10 x b (omega arith) in
      rw (plain, printint) (omega (arith, size, length-put_back (ds ++ []) [], length-append ds []))
]
