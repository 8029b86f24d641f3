-- ===== src/Shell/Args.antt =====
-- parseexec of a command without a block (Source Code/sh.c).
use tugas_sistem_operasi.Base.{
  ℕ, zero, suc, ◌+◌, ◌-◌, ◌≤◌, ◌<◌, ◌≡◌, refl, ◌∙◌, ap, sym, ◌≢◌, ◌⊎◌, inl, inr, true, false, not,
  List, [], ◌∷◌, arith, ◌==◌, leb, length, Bool-cases,
}
use tugas_sistem_operasi.Memory.{Memory}
use tugas_sistem_operasi.Shell.{
  max_args, Word, exec_cmd, got, strchr, whitespace, in_word, spaces, gettoken, peek, wrap, redirs,
  parseredirs, args, parse_simple,
}
use tugas_sistem_operasi.Shell.Lexing.{IsWord}
use tugas_sistem_operasi.Shell.Steps.{
  in_word-strchr, in_word-looks, Ends, peek-strchr, spaces_none, spaces_one, gettoken-nul,
  gettoken-word,
}

-- The words of a command from `s` to `t`, with one blank behind each.
pub data Words (m : Memory) (es : ℕ) : List Word → ℕ → ℕ → Type 0 where
  no_args : (s t : ℕ) → s ≡ t → Words m es [] s t
  one_arg :
      (w : Word) (ws : List Word) (s t : ℕ)
      → w.start ≡ s
      → IsWord m es w
      → m w.end ≡ 32
      → Words m es ws (w.end + 1) t
      → Words m es (w ∷ ws) s t

-- A byte that starts a word or ends a command.
abbrev pub Starts : Memory → ℕ → Type 0
Starts m s = (in_word (m s) ≡ true) ⊎ Ends m s

pub Words-Starts :
    (m : Memory) (es : ℕ) (ws : List Word) (s t : ℕ) → Ends m t → Words m es ws s t → Starts m s
Words-Starts m es _ _ _ e (no_args s t z) = inr (rw z e)
Words-Starts m es _ _ _ e (one_arg w ws s t z x b y) =
    inl (ap (λ (k : ℕ). in_word (m k)) (sym z) ∙ x.bytes w.start (omega arith) x.nonempty)

pub Starts-plain : (m : Memory) (s : ℕ) → Starts m s → strchr whitespace (m s) ≡ false
unfolding strchr
Starts-plain m s (inl w) = (in_word-strchr (m s) w).0
Starts-plain m s (inr (inl z)) = rw z refl
Starts-plain m s (inr (inr z)) = rw z refl

module _ (m : Memory) (es : ℕ) where
  -- In front of a word the parser finds none of the symbols it looks for.
  pub peek_word :
      (toks : List ℕ) (s : ℕ)
      → in_word (m s) ≡ true
      → strchr toks (m s) ≡ false
      → peek m es toks s ≡ false
  peek_word toks s w none =
      peek-strchr m es toks (m s) s false refl (in_word-strchr (m s) w).0
        (elim (Bool-cases (not (m s == 0))) [ inl e ↦ rw (e, none) refl | inr e ↦ rw e refl ])

  no_redirs : (s : ℕ) → Starts m s → peek m es (60 ∷ 62 ∷ []) s ≡ false
  unfolding strchr
  no_redirs s (inl w) = peek_word (60 ∷ 62 ∷ []) s w (in_word-looks (m s) w).0
  no_redirs s (inr (inl z)) = peek-strchr m es (60 ∷ 62 ∷ []) 0 s false z refl refl
  no_redirs s (inr (inr z)) = peek-strchr m es (60 ∷ 62 ∷ []) 41 s false z refl refl

  pub parseredirs-none : (s : ℕ) → Starts m s → parseredirs m es s ≡ got [] s
  unfolding redirs
  parseredirs-none s e =
      let stay = spaces_none m es (m s) s refl (Starts-plain m s e) in
      rw (no_redirs s e) (ap (got []) stay)

module _ (m : Memory) (es : ℕ) (nul : m es ≡ 0) (full : (k : ℕ) → k < es → m k ≢ 0) where
  args_end : (n argc s : ℕ) → Ends m s → args m es (suc n) argc s ≡ got ([], []) s
  unfolding args strchr
  args_end n argc s (inr z) =
      rw (peek-strchr m es (124 ∷ 41 ∷ 38 ∷ 59 ∷ []) 41 s true z refl refl)
        (ap (got ([], [])) (spaces_none m es 41 s z refl))
  args_end n argc s (inl z) =
      let stay = spaces_none m es 0 s z refl in
      let (k, next) = gettoken-nul m es s z in
      rw (peek-strchr m es (124 ∷ 41 ∷ 38 ∷ 59 ∷ []) 0 s false z refl refl, stay, k)
        (ap (got ([], [])) next)

  before_nul : (k : ℕ) → k ≤ es → m k ≢ 0 → k < es
  before_nul k le ne = elim (Bool-cases (k == es)) [
    | inl z ↦ let at : k ≡ es = ground arith in absurd (ne (ap m at ∙ nul))
    | inr z ↦ ground arith
  ]

  args-Words :
      (n argc s t : ℕ) (ws : List Word)
      → es - s < n
      → argc + length ws < max_args
      → Ends m t
      → Words m es ws s t
      → args m es n argc s ≡ got (ws, []) t
  unfolding args
  args-Words zero argc s t ws fuel few e x = absurd (omega arith)
  args-Words (suc n) argc _ _ _ fuel few e (no_args s t z) =
      args_end n argc s (rw z e) ∙ ap (got ([], [])) z
  args-Words (suc n) argc _ _ _ fuel few e (one_arg w ws s t z x b y) =
      let ne = full w.start (omega (arith, x.nonempty, x.inside)) in
      let first = x.bytes w.start (omega arith) x.nonempty in
      let stay = spaces_none m es (m w.start) w.start refl (in_word-strchr (m w.start) first).0 in
      let inside = before_nul w.end x.inside (omega (arith, b)) in
      let more = Words-Starts m es ws (w.end + 1) t e y in
      let on = spaces_one m es w.end inside b (Starts-plain m (w.end + 1) more) in
      let look =
        peek_word m es (124 ∷ 41 ∷ 38 ∷ 59 ∷ []) w.start first
          (in_word-looks (m w.start) first).1 in
      let room : leb max_args (argc + 1) ≡ false = ground (arith, few) in
      let left : es - (w.end + 1) < n = omega (arith, fuel, z, x.nonempty, inside) in
      let rest = args-Words n (argc + 1) (w.end + 1) t ws left (omega (arith, few)) e y in
      let taken : (gettoken m es (spaces m es s)).word ≡ w =
        rw (sym z) (rw stay (rw (gettoken-word m es w x ne) refl)) in
      rw (sym z) (
        rw look (
          rw stay (
            rw (gettoken-word m es w x ne) (
              rw on (
                rw room (
                  rw (parseredirs-none m es (w.end + 1) more)
                    (rw rest (ap (λ (v : Word). got (v ∷ ws, []) t) taken))))))))

  -- The arguments of a command, up to its end.
  pub parse_simple-Words :
      (s t : ℕ) (ws : List Word)
      → length ws < max_args
      → Ends m t
      → Words m es ws s t
      → parse_simple m es s ≡ got (exec_cmd ws) t
  unfolding parse_simple wrap
  parse_simple-Words s t ws few e x =
      rw (parseredirs-none m es s (Words-Starts m es ws s t e x), parse_simple)
        (rw (args-Words (suc (es - s)) 0 s t ws (omega arith) (omega arith) e x) refl)
