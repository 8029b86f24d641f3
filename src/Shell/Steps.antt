-- ===== src/Shell/Steps.antt =====
-- One step of the shell's parser at a known byte (Source Code/sh.c).
use tugas_sistem_operasi.Base.{
  ℕ, suc, ◌+◌, ◌-◌, ◌<◌, ◌≡◌, refl, ◌∙◌, ap, sym, ◌≢◌, ◌⊎◌, inl, inr, Bool, true, false, ◌&&◌, not,
  List, [], ◌∷◌, arith, ◌==◌, ltb, Bool-cases,
}
use tugas_sistem_operasi.Memory.{Memory}
use tugas_sistem_operasi.Shell.{
  Word, strchr, whitespace, single, in_word, skip_spaces, spaces, word_end, lex, gettoken, peek,
}
use tugas_sistem_operasi.Shell.Lexing.{IsWord}
use tugas_sistem_operasi.Shell.Runs.{skip_spaces_none, word_end-Runs}

pub in_word-strchr :
    (c : ℕ)
    → in_word c ≡ true
    → (strchr whitespace c ≡ false) × (strchr single c ≡ false) × ((c == 62) ≡ false)
unfolding strchr
in_word-strchr c e = ground arith

-- The strings that the parser looks for in front of a word.
pub in_word-looks :
    (c : ℕ)
    → in_word c ≡ true
    → (strchr (60 ∷ 62 ∷ []) c ≡ false)
      × (strchr (124 ∷ 41 ∷ 38 ∷ 59 ∷ []) c ≡ false)
      × (strchr (40 ∷ []) c ≡ false)
unfolding strchr
in_word-looks c e = ground arith

-- Where the parser stands at the end of a command: at the NUL or at a ')'.
abbrev pub Ends : Memory → ℕ → Type 0
Ends m t = (m t ≡ 0) ⊎ (m t ≡ 41)

module _ (m : Memory) (es : ℕ) where
  pub peek-strchr :
      (toks : List ℕ) (c s : ℕ) (b : Bool)
      → m s ≡ c
      → strchr whitespace c ≡ false
      → (not (c == 0) && strchr toks c) ≡ b
      → peek m es toks s ≡ b
  unfolding peek
  peek-strchr toks c s b at plain e =
      let stay = skip_spaces_none m es (es - s) s (ap (strchr whitespace) at ∙ plain) in
      rw stay (rw at e)

  pub spaces_none : (c s : ℕ) → m s ≡ c → strchr whitespace c ≡ false → spaces m es s ≡ s
  spaces_none c s at plain = skip_spaces_none m es (es - s) s (ap (strchr whitespace) at ∙ plain)

  -- One blank in front of a byte that is none.
  pub spaces_one :
      (s : ℕ) → s < es → m s ≡ 32 → strchr whitespace (m (s + 1)) ≡ false → spaces m es s ≡ s + 1
  unfolding skip_spaces strchr
  spaces_one s lt at plain =
      let n : es - s ≡ suc (es - (s + 1)) = omega arith in
      let e : strchr whitespace (m s) ≡ true = ap (strchr whitespace) at in
      rw n (rw e (skip_spaces_none m es (es - (s + 1)) (s + 1) plain))

  lex-single :
      (c s : ℕ) → m s ≡ c → (c == 0) ≡ false → strchr single c ≡ true → lex m es s ≡ (c, s + 1)
  unfolding lex
  lex-single c s at nz one = rw at (rw nz (rw one refl))

  pub gettoken-single :
      (c s : ℕ)
      → m s ≡ c
      → strchr whitespace c ≡ false
      → (c == 0) ≡ false
      → strchr single c ≡ true
      → (gettoken m es s).next ≡ spaces m es (s + 1)
  unfolding gettoken
  gettoken-single c s at plain nz one =
      rw (spaces_none c s at plain) (rw (lex-single c s at nz one) refl)

  lex-redirect : (s : ℕ) → m s ≡ 62 → (m (s + 1) == 62) ≡ false → lex m es s ≡ (62, s + 1)
  unfolding lex strchr
  lex-redirect s at other = rw (at, lex) (rw other refl)

  -- The tokens '<' and '>' in front of a word.
  pub gettoken-redirect :
      (c s : ℕ)
      → m s ≡ c
      → (c ≡ 60) ⊎ ((c ≡ 62) × (m (s + 1) ≢ 62))
      → ((gettoken m es s).kind ≡ c) × ((gettoken m es s).next ≡ spaces m es (s + 1))
  unfolding gettoken strchr
  gettoken-redirect c s at (inl z) =
      let here : m s ≡ 60 = at ∙ z in
      rw (spaces_none 60 s here refl) (rw (lex-single 60 s here refl refl) (sym z, refl))
  gettoken-redirect c s at (inr (z, ne)) =
      let here : m s ≡ 62 = at ∙ z in
      let other : (m (s + 1) == 62) ≡ false = ground arith in
      rw (spaces_none 62 s here refl) (rw (lex-redirect s here other) (sym z, refl))

  pub gettoken-nul : (s : ℕ) → m s ≡ 0 → ((gettoken m es s).kind ≡ 0) × ((gettoken m es s).next ≡ s)
  unfolding gettoken lex strchr
  gettoken-nul s at =
      let stay = spaces_none 0 s at refl in rw (stay, gettoken) (rw (at, lex) (refl, stay))

  word_end-IsWord : (w : Word) → IsWord m es w → word_end m es (es - w.start) w.start ≡ w.end
  word_end-IsWord w x =
      let r = word_end m es (es - w.start) w.start in
      let y = word_end-Runs m es (es - w.start) w.start in
      elim (Bool-cases (r == w.end)) [
        | inl z ↦ ground arith
        | inr z ↦ elim (Bool-cases (ltb r w.end)) [
          | inl less ↦
              let before : r < w.end = ground arith in
              elim y.ends [
                | inl full ↦ absurd (omega (arith, full, before, x.inside, x.nonempty))
                | inr none ↦ absurd (cc (none, x.bytes r y.low before))
              ]
          | inr more ↦
              let behind : w.end < r = ground arith in
              elim x.stop [
                | inl full ↦ absurd (omega (arith, full, behind, y.high, x.nonempty))
                | inr none ↦ absurd (cc (none, y.over w.end (omega (arith, x.nonempty)) behind))
              ]
        ]
      ]

  lex-word : (w : Word) → IsWord m es w → m w.start ≢ 0 → lex m es w.start ≡ (97, w.end)
  unfolding lex
  lex-word w x ne =
      let first = x.bytes w.start (omega arith) x.nonempty in
      let (plain, one, more) = in_word-strchr (m w.start) first in
      let nz : (m w.start == 0) ≡ false = ground arith in
      rw nz (rw one (rw more (ap (λ (e : ℕ). (97, e)) (word_end-IsWord w x))))

  pub gettoken-word :
      (w : Word)
      → IsWord m es w
      → m w.start ≢ 0
      → gettoken m es w.start ≡ record { kind = 97; word = w; next = spaces m es w.end }
  unfolding gettoken
  gettoken-word w x ne =
      let first = x.bytes w.start (omega arith) x.nonempty in
      let (plain, one, more) = in_word-strchr (m w.start) first in
      rw (skip_spaces_none m es (es - w.start) w.start plain) (rw (lex-word w x ne) refl)
