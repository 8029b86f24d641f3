-- ===== src/Shell/Lexing.antt =====
-- What gettoken and peek take of a line (Source Code/sh.c).
use tugas_sistem_operasi.Base.{
  ℕ, ◌+◌, ◌-◌, ◌≤◌, ◌<◌, ◌≡◌, refl, ◌∙◌, ap, ◌≢◌, ◌⊎◌, inl, inr, true, false, List, arith, ◌==◌,
  Bool-cases,
}
use tugas_sistem_operasi.Memory.{Memory}
use tugas_sistem_operasi.Shell.{
  Word, Token, strchr, whitespace, symbols, single, in_word, spaces, word_end, lex, gettoken, peek,
}
use tugas_sistem_operasi.Shell.Runs.{
  spaces-low, spaces-high, spaces-stop, spaces-spaces, word_end-Runs,
}

-- A word of the line: bytes that are neither blanks nor symbols, up to the end or to one that is.
pub record IsWord (m : Memory) (es : ℕ) (w : Word) : Type 0 where
  pub nonempty : w.start < w.end
  pub inside : w.end ≤ es
  pub bytes : (k : ℕ) → w.start ≤ k → k < w.end → in_word (m k) ≡ true
  pub stop : (w.end ≡ es) ⊎ (in_word (m w.end) ≡ false)

pub record IsToken (m : Memory) (es s : ℕ) (t : Token) : Type 0 where
  pub low : s ≤ t.next
  pub high : t.next ≤ es
  pub moves : t.kind ≢ 0 → s < t.next
  pub word : t.kind ≡ 97 → IsWord m es t.word

single-symbols : (c : ℕ) → strchr single c ≡ false → (c == 62) ≡ false → strchr symbols c ≡ false
unfolding strchr
single-symbols c e f = ground arith

single-kind : (c : ℕ) → strchr single c ≡ true → c ≢ 97
unfolding strchr
single-kind c e z = ground arith

-- The results of lex: the end or a NUL, a symbol, a word.
data Lexes (m : Memory) (es q : ℕ) : ℕ × ℕ → Type 0 where
  nothing : m q ≡ 0 → Lexes m es q (0, q)
  symbol : (c n : ℕ) → c ≢ 0 → c ≢ 97 → q < n → n ≤ es → Lexes m es q (c, n)
  letters : (n : ℕ) → IsWord m es (record { start = q; end = n }) → Lexes m es q (97, n)

module _ (m : Memory) (es : ℕ) (nul : m es ≡ 0) where
  -- A position of a byte is before the end.
  before_end : (q : ℕ) → q ≤ es → m q ≢ 0 → q < es
  before_end q le ne = elim (Bool-cases (q == es)) [
    | inl z ↦ let at : q ≡ es = ground arith in absurd (ne (ap m at ∙ nul))
    | inr z ↦ ground arith
  ]

  letters_IsWord :
      (q : ℕ)
      → q < es
      → in_word (m q) ≡ true
      → IsWord m es (record { start = q; end = word_end m es (es - q) q })
  letters_IsWord q lt e =
      let x = word_end-Runs m es (es - q) q in
      record {
        nonempty = elim (Bool-cases (q == word_end m es (es - q) q)) [
          | inl z ↦
              let at : q ≡ word_end m es (es - q) q = ground arith in
              elim x.ends [
                | inl full ↦ absurd (omega (arith, full, at))
                | inr none ↦ absurd (cc (e, none, ap (λ (k : ℕ). in_word (m k)) at))
              ]
          | inr z ↦ let ne : q ≢ word_end m es (es - q) q = ground arith in omega (arith, x.low)
        ];
        inside = omega (arith, x.high);
        bytes = x.over;
        stop = elim x.ends [ inl z ↦ inl (omega arith) | inr z ↦ inr z ];
      }

  lex-Lexes :
      (q : ℕ) → q ≤ es → (q ≡ es) ⊎ (strchr whitespace (m q) ≡ false) → Lexes m es q (lex m es q)
  unfolding lex
  lex-Lexes q le behind = elim (Bool-cases (m q == 0)) [
    | inl z ↦ rw (z, lex) (nothing (ground arith))
    | inr z ↦
        let ne : m q ≢ 0 = ground arith in
        let lt = before_end q le ne in
        elim (Bool-cases (strchr single (m q))) [
          | inl one ↦
              rw (z, lex)
                (rw one
                  (symbol (m q) (q + 1) ne (single-kind (m q) one) (omega arith) (omega arith)))
          | inr other ↦ elim (Bool-cases (m q == 62)) [
            | inl more ↦ elim (Bool-cases (m (q + 1) == 62)) [
              | inl twice ↦
                  let lt2 = before_end (q + 1) (omega arith) (ground arith) in
                  rw (z, lex)
                    (rw other (
                      rw more (
                        rw twice (
                          symbol 43 (q + 2) (omega arith) (omega arith) (omega arith)
                            (omega arith)))))
              | inr once ↦
                  rw (z, lex)
                    (rw other (
                      rw more (
                        rw once
                          (symbol (m q) (q + 1) ne (ground arith) (omega arith) (omega arith)))))
            ]
            | inr letter ↦
                let e : strchr whitespace (m q) ≡ false = elim behind [
                  | inl at ↦ absurd (omega (arith, at, lt))
                  | inr b ↦ b
                ] in
                let f = single-symbols (m q) other letter in
                let g : in_word (m q) ≡ true = rw (e, f) refl in
                rw (z, lex)
                  (rw other
                    (rw letter (letters (word_end m es (es - q) q) (letters_IsWord q lt g))))
          ]
        ]
  ]

  IsToken-of :
      (s q : ℕ)
      → s ≤ q
      → (t : ℕ × ℕ) → Lexes m es q t
      → q ≤ es
      → IsToken m es s (
          let (kind, e) = t in
          record { kind = kind; word = record { start = q; end = e }; next = spaces m es e })
  IsToken-of s q le _ (nothing z) leq = record {
    low = omega (arith, spaces-low m es q);
    high = spaces-high m es q leq;
    moves = λ ne. absurd (ne refl);
    word = λ e. absurd (omega (arith, e));
  }
  IsToken-of s q le _ (symbol c n nz nw lt len) leq = record {
    low = omega (arith, spaces-low m es n);
    high = spaces-high m es n len;
    moves = λ ne. omega (arith, spaces-low m es n);
    word = λ e. absurd (nw e);
  }
  IsToken-of s q le _ (letters n w) leq = record {
    low = omega (arith, spaces-low m es n, w.nonempty);
    high = spaces-high m es n w.inside;
    moves = λ ne. omega (arith, spaces-low m es n, w.nonempty);
    word = λ e. w;
  }

  -- gettoken stays on the line, goes on unless it is at the end, and takes whole words.
  pub gettoken-IsToken : (s : ℕ) → s ≤ es → IsToken m es s (gettoken m es s)
  unfolding gettoken
  gettoken-IsToken s le =
      let lo = spaces-low m es s in
      let hi = spaces-high m es s le in
      IsToken-of s (spaces m es s) lo (lex m es (spaces m es s))
        (lex-Lexes (spaces m es s) hi (spaces-stop m es s le)) hi

  token_moves :
      (s q : ℕ)
      → s ≤ q
      → m q ≢ 0
      → (t : ℕ × ℕ) → Lexes m es q t
      → s < (let (kind, e) = t in spaces m es e)
  token_moves s q le ne _ (nothing z) = absurd (ne z)
  token_moves s q le ne _ (symbol c n nz nw lt len) = omega (arith, spaces-low m es n)
  token_moves s q le ne _ (letters n w) = omega (arith, spaces-low m es n, w.nonempty)

  -- The token behind a peek that succeeds.
  pub peek-gettoken :
      (toks : List ℕ) (s : ℕ)
      → s ≤ es
      → peek m es toks s ≡ true
      → (s < (gettoken m es (spaces m es s)).next) × ((gettoken m es (spaces m es s)).next ≤ es)
  unfolding peek gettoken
  peek-gettoken toks s le e =
      let lo = spaces-low m es s in
      let hi = spaces-high m es s le in
      let t = gettoken-IsToken (spaces m es s) hi in
      let ne : m (spaces m es s) ≢ 0 = ground arith in
      let once = spaces-spaces m es s le in
      let moves =
        token_moves s (spaces m es s) lo ne (lex m es (spaces m es s))
          (lex-Lexes (spaces m es s) hi (spaces-stop m es s le)) in
      (rw once moves, t.high)
