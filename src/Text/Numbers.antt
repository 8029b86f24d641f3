-- ===== src/Text/Numbers.antt =====
-- atoi and atoo read back the numbers that printint puts.
use tugas_sistem_operasi.Base.{
  ℕ, zero, suc, ◌+◌, ◌-◌, ◌/◌, ◌%◌, ◌^◌, ◌≤◌, ◌<◌, ◌≡◌, refl, ◌∙◌, ◌≢◌, ap, ◌⊎◌, inl, inr, Bool,
  false, ◌&&◌, List, [], ◌∷◌, ◌++◌, arith, ◌==◌, leb, Bool-cases,
}
use tugas_sistem_operasi.Text.{
  uint, digit, digits, put_back, printint, skip_spaces, scan_digits, signed, atoi, atoo,
}
use tugas_sistem_operasi.Text.Digits.{Base, digit_lt, scan-put_back}

-- The first byte of a string; its end reads as NUL.
abbrev pub first : List ℕ → ℕ
first [] = 0
first (c ∷ cs) = c

abbrev IsDigit : ℕ → Type 0
IsDigit c = (b'0' ≤ c) × (c ≤ b'9')

digit-IsDigit : (base x : ℕ) → Base base → IsDigit (digit (x % base))
digit-IsDigit base x b = range (x % base) (omega (arith, digit_lt base x b, b))
  where
    range : (d : ℕ) → d ≤ 9 → IsDigit (digit d)
    range d le = ground arith

first_put :
    (n base x : ℕ) (rest : List ℕ)
    → Base base
    → IsDigit (first rest)
    → IsDigit (first (put_back (digits n base x) rest))
unfolding put_back digits
first_put zero base x rest b h = h
first_put (suc n) base x rest b h = elim (Bool-cases (x / base == 0)) [
  | inl last ↦ rw (last, digits) (digit-IsDigit base x b)
  | inr more ↦
      rw (more, digits)
        (first_put n base (x / base) (digit (x % base) ∷ rest) b (digit-IsDigit base x b))
]

-- The first byte that is put is a digit, whatever comes behind the number.
first_of_number :
    (n base x : ℕ) (rest : List ℕ)
    → Base base
    → IsDigit (first (put_back (digits (suc n) base x) rest))
unfolding put_back digits
first_of_number n base x rest b = elim (Bool-cases (x / base == 0)) [
  | inl last ↦ rw (last, digits) (digit-IsDigit base x b)
  | inr more ↦
      rw (more, digits)
        (first_put n base (x / base) (digit (x % base) ∷ rest) b (digit-IsDigit base x b))
]

skip_spaces-first : (s : List ℕ) → first s ≢ b' ' → skip_spaces s ≡ s
unfolding skip_spaces
skip_spaces-first [] ne = refl
skip_spaces-first (c ∷ cs) ne =
    let e : (c == b' ') ≡ false = ground arith in rw (e, skip_spaces) refl

signed-first : (base : ℕ) (s : List ℕ) → IsDigit (first s) → signed base s ≡ scan_digits base 0 s
unfolding signed scan_digits
signed-first base [] h = refl
signed-first base (c ∷ cs) h =
    let minus : (c == b'-') ≡ false = ground arith in
    let plus : (c == b'+') ≡ false = ground arith in rw (minus, signed) (rw plus refl)

signed_minus :
    (base : ℕ) (s : List ℕ) → signed base (b'-' ∷ s) ≡ uint (2 ^ 32 - scan_digits base 0 s)
unfolding signed
signed_minus base s = refl

-- The number ends before `rest`.
scan_end :
    (base x : ℕ) (rest : List ℕ)
    → Base base
    → (first rest < b'0') ⊎ (b'9' < first rest)
    → scan_digits base x rest ≡ x
unfolding scan_digits
scan_end base x [] b out = refl
scan_end base x (c ∷ cs) b out =
    let e : (leb b'0' c && leb c (b'0' + base - 1)) ≡ false = outside base c b out in
    rw (e, scan_digits) refl
  where
    outside :
        (base c : ℕ)
        → Base base
        → (c < b'0') ⊎ (b'9' < c)
        → (leb b'0' c && leb c (b'0' + base - 1)) ≡ false
    outside base c (inl e) out = rw e (ground arith)
    outside base c (inr e) out = rw e (ground arith)

put_back-append : (xs ys rest : List ℕ) → put_back (xs ++ ys) rest ≡ put_back ys (put_back xs rest)
unfolding put_back
put_back-append [] ys rest = refl
put_back-append (x ∷ xs) ys rest = put_back-append xs ys (x ∷ rest)

put_back-rest : (xs later rest : List ℕ) → put_back xs later ++ rest ≡ put_back xs (later ++ rest)
unfolding put_back
put_back-rest [] later rest = refl
put_back-rest (x ∷ xs) later rest = put_back-rest xs (x ∷ later) rest

-- What printint puts, before a text.
printint_text :
    (base : ℕ) (sgn : Bool) (x : ℕ) (rest : List ℕ)
    → (printint base sgn x ++ rest ≡ put_back (digits 32 base x) rest)
      ⊎ ((2 ^ 31 ≤ x)
          × (printint base sgn x ++ rest
              ≡ b'-' ∷ put_back (digits 32 base (uint (2 ^ 32 - x))) rest))
unfolding printint put_back
printint_text base sgn x rest = elim (Bool-cases (sgn && leb (2 ^ 31) x)) [
  | inl neg ↦
      let ds = digits 32 base (uint (2 ^ 32 - x)) in
      inr (
        ground arith,
        rw (neg, printint)
            (put_back-rest (ds ++ b'-' ∷ []) [] rest ∙ put_back-append ds (b'-' ∷ []) rest),
      )
  | inr plain ↦ inl (
      rw (plain, printint)
        (put_back-rest (digits 32 base x ++ []) [] rest
          ∙ put_back-append (digits 32 base x) [] rest))
]

-- The number is read back behind its sign.
read_back :
    (base : ℕ) (sgn : Bool) (x : ℕ) (rest : List ℕ)
    → Base base
    → x < 2 ^ 32
    → (first rest < b'0') ⊎ (b'9' < first rest)
    → signed base (skip_spaces (printint base sgn x ++ rest)) ≡ x
read_back base sgn x rest b word end = elim (printint_text base sgn x rest) [
  | inl e ↦
      let text = put_back (digits 32 base x) rest in
      let h : IsDigit (first text) = first_of_number 31 base x rest b in
      ap (λ s. signed base (skip_spaces s)) e
      ∙ ap (signed base) (skip_spaces-first text (omega (arith, h)))
      ∙ signed-first base text h
      ∙ scan-put_back 32 base x rest b word word
      ∙ scan_end base x rest b end
  | inr (big, e) ↦
      let v = uint (2 ^ 32 - x) in
      let text = put_back (digits 32 base v) rest in
      ap (λ s. signed base (skip_spaces s)) e
      ∙ ap (signed base) (skip_spaces-first (b'-' ∷ text) (omega arith))
      ∙ signed_minus base text
      ∙ ap (λ (n : ℕ). uint (2 ^ 32 - n))
          (scan-put_back 32 base v rest b (omega arith) (omega arith) ∙ scan_end base v rest b end)
      ∙ omega arith
]

-- atoi of the text that printint puts for an int in base 10, signed or not, is that int, when no
-- further digit follows.
pub atoi-printint :
    (sgn : Bool) (x : ℕ) (rest : List ℕ)
    → x < 2 ^ 32
    → (first rest < b'0') ⊎ (b'9' < first rest)
    → atoi (printint 10 sgn x ++ rest) ≡ x
unfolding atoi
atoi-printint sgn x rest word end = read_back 10 sgn x rest (inl refl) word end

-- atoo of the text that printint puts for an int in base 8, signed or not, is that int, when no
-- further digit follows.
pub atoo-printint :
    (sgn : Bool) (x : ℕ) (rest : List ℕ)
    → x < 2 ^ 32
    → (first rest < b'0') ⊎ (b'9' < first rest)
    → atoo (printint 8 sgn x ++ rest) ≡ x
unfolding atoo
atoo-printint sgn x rest word end = read_back 8 sgn x rest (inr refl) word end
