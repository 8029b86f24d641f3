-- ===== src/Shell/Runs.antt =====
-- The loops of gettoken and peek (Source Code/sh.c).
use tugas_sistem_operasi.Base.{
  ℕ, zero, suc, ◌+◌, ◌-◌, ◌≤◌, ◌<◌, ◌≡◌, refl, ◌∙◌, ap, sym, ◌⊎◌, inl, inr, Bool, true, false,
  arith, ◌==◌, Bool-cases,
}
use tugas_sistem_operasi.Memory.{Memory}
use tugas_sistem_operasi.Shell.{strchr, whitespace, in_word, skip_spaces, spaces, word_end}

-- A loop that goes from `s` to `r` at most `n` bytes on, over bytes with a property, as far as it can.
pub record Runs (m : Memory) (ok : ℕ → Bool) (n s r : ℕ) : Type 0 where
  pub low : s ≤ r
  pub high : r ≤ s + n
  pub over : (k : ℕ) → s ≤ k → k < r → ok (m k) ≡ true
  pub ends : (r ≡ s + n) ⊎ (ok (m r) ≡ false)

Runs-zero : (m : Memory) (ok : ℕ → Bool) (s : ℕ) → Runs m ok 0 s s
Runs-zero m ok s = record {
  low = omega arith;
  high = omega arith;
  over = λ k le lt. absurd (omega arith);
  ends = inl (omega arith);
}

Runs-stop : (m : Memory) (ok : ℕ → Bool) (n s : ℕ) → ok (m s) ≡ false → Runs m ok n s s
Runs-stop m ok n s e = record {
  low = omega arith;
  high = omega arith;
  over = λ k le lt. absurd (omega arith);
  ends = inr e;
}

Runs-suc :
    (m : Memory) (ok : ℕ → Bool) (n s r : ℕ)
    → ok (m s) ≡ true
    → Runs m ok n (s + 1) r
    → Runs m ok (suc n) s r
Runs-suc m ok n s r e x = record {
  low = omega (arith, x.low);
  high = omega (arith, x.high);
  over = λ k le lt. elim (Bool-cases (s == k)) [
    | inl here ↦ let z : s ≡ k = ground arith in ap (λ (j : ℕ). ok (m j)) (sym z) ∙ e
    | inr there ↦ x.over k (ground arith) lt
  ];
  ends = elim x.ends [ inl z ↦ inl (omega arith) | inr z ↦ inr z ];
}

module _ (m : Memory) (es : ℕ) where
  skip_spaces-Runs : (n s : ℕ) → Runs m (strchr whitespace) n s (skip_spaces m es n s)
  unfolding skip_spaces
  skip_spaces-Runs zero s = Runs-zero m (strchr whitespace) s
  skip_spaces-Runs (suc n) s = elim (Bool-cases (strchr whitespace (m s))) [
    | inl e ↦ rw e (Runs-suc m (strchr whitespace) n s _ e (skip_spaces-Runs n (s + 1)))
    | inr e ↦ rw e (Runs-stop m (strchr whitespace) (suc n) s e)
  ]

  pub word_end-Runs : (n s : ℕ) → Runs m in_word n s (word_end m es n s)
  unfolding word_end
  word_end-Runs zero s = Runs-zero m in_word s
  word_end-Runs (suc n) s = elim (Bool-cases (in_word (m s))) [
    | inl e ↦ rw e (Runs-suc m in_word n s _ e (word_end-Runs n (s + 1)))
    | inr e ↦ rw e (Runs-stop m in_word (suc n) s e)
  ]

  pub spaces-low : (s : ℕ) → s ≤ spaces m es s
  spaces-low s = (skip_spaces-Runs (es - s) s).low

  pub spaces-high : (s : ℕ) → s ≤ es → spaces m es s ≤ es
  spaces-high s le = omega (arith, (skip_spaces-Runs (es - s) s).high)

  -- Behind the blanks is the end or a byte that is none.
  pub spaces-stop :
      (s : ℕ) → s ≤ es → (spaces m es s ≡ es) ⊎ (strchr whitespace (m (spaces m es s)) ≡ false)
  spaces-stop s le = elim (skip_spaces-Runs (es - s) s).ends [
    | inl z ↦ inl (omega arith)
    | inr z ↦ inr z
  ]

  pub skip_spaces_none : (n s : ℕ) → strchr whitespace (m s) ≡ false → skip_spaces m es n s ≡ s
  unfolding skip_spaces
  skip_spaces_none zero s e = refl
  skip_spaces_none (suc n) s e = rw e refl

  pub skip_spaces_end : (s : ℕ) → s ≡ es → spaces m es s ≡ s
  unfolding skip_spaces
  skip_spaces_end s e = let z : es - s ≡ 0 = omega arith in rw z refl

  pub spaces-spaces : (s : ℕ) → s ≤ es → spaces m es (spaces m es s) ≡ spaces m es s
  spaces-spaces s le = elim (spaces-stop s le) [
    | inl z ↦ skip_spaces_end (spaces m es s) z
    | inr z ↦ skip_spaces_none (es - spaces m es s) (spaces m es s) z
  ]
