-- ===== src/Shell/Blocks.antt =====
-- The parser at a block and at what stands behind one (Source Code/sh.c).
use tugas_sistem_operasi.Base.{
  ℕ, suc, ◌+◌, ◌-◌, ◌<◌, ◌≡◌, refl, ◌∙◌, ap, sym, ◌≢◌, ◌⊎◌, inl, inr, true, false, ◌&&◌, not, List,
  [], ◌∷◌, ◌++◌, arith, ◌==◌,
}
use tugas_sistem_operasi.Memory.{Memory}
use tugas_sistem_operasi.Shell.{
  Word, Redir, Cmd, pipe_cmd, list_cmd, back_cmd, Parsed, got, strchr, whitespace, in_word,
  redirection, spaces, gettoken, peek, wrap, single, redirs, parseredirs, parseblock, parseexec,
  parsepipe, backs, parseline,
}
use tugas_sistem_operasi.Shell.Lexing.{IsWord}
use tugas_sistem_operasi.Shell.Steps.{
  in_word-strchr, Ends, peek-strchr, spaces_none, gettoken-single, gettoken-redirect, gettoken-word,
}
use tugas_sistem_operasi.Shell.Args.{Starts-plain}

module _ (m : Memory) (es : ℕ) where
  pub Ends-peek :
      (toks : List ℕ) (s : ℕ) → strchr toks 41 ≡ false → Ends m s → peek m es toks s ≡ false
  unfolding strchr
  Ends-peek toks s none (inl z) = peek-strchr m es toks 0 s false z refl refl
  Ends-peek toks s none (inr z) = peek-strchr m es toks 41 s false z refl none

  pub Ends-spaces : (s : ℕ) → Ends m s → spaces m es s ≡ s
  Ends-spaces s e = spaces_none m es (m s) s refl (Starts-plain m s (inr e))

  -- A symbol other than '<' and '>' behind a block.
  pub redirs_none :
      (c s : ℕ)
      → m s ≡ c
      → strchr whitespace c ≡ false
      → (not (c == 0) && strchr (60 ∷ 62 ∷ []) c) ≡ false
      → parseredirs m es s ≡ got [] s
  unfolding redirs
  redirs_none c s at plain none =
      rw (peek-strchr m es (60 ∷ 62 ∷ []) c s false at plain none)
        (ap (got []) (spaces_none m es c s at plain))

  -- A symbol of one byte, with no blank behind it.
  pub next_single :
      (c s : ℕ)
      → m s ≡ c
      → strchr whitespace c ≡ false
      → (c == 0) ≡ false
      → strchr single c ≡ true
      → strchr whitespace (m (s + 1)) ≡ false
      → (gettoken m es (spaces m es s)).next ≡ s + 1
  next_single c s at plain nz one after =
      rw (spaces_none m es c s at plain)
        (gettoken-single m es c s at plain nz one ∙ spaces_none m es (m (s + 1)) (s + 1) refl after)

  -- A block, with what parseredirs takes behind it.
  pub parseexec-block :
      (line : ℕ → Parsed Cmd) (c : Cmd) (s t u : ℕ) (rs : List Redir)
      → m s ≡ 40
      → strchr whitespace (m (s + 1)) ≡ false
      → line (s + 1) ≡ got c t
      → m t ≡ 41
      → strchr whitespace (m (t + 1)) ≡ false
      → parseredirs m es (t + 1) ≡ got rs u
      → parseexec m es line s ≡ got (wrap rs c) u
  unfolding parseexec parseblock strchr
  parseexec-block line c s t u rs opens first inner closes after redirects =
      let stay = spaces_none m es 40 s opens refl in
      let look = peek-strchr m es (40 ∷ []) 40 s true opens refl refl in
      let next = next_single 40 s opens refl refl refl first in
      rw look (
        rw stay (
          rw look (
            rw next (
              rw (inner, parseblock)
                (rw (peek-strchr m es (41 ∷ []) 41 t true closes refl refl)
                  (rw (next_single 41 t closes refl refl refl after) (rw redirects refl)))))))

  -- parsepipe without a '|'.
  pub parsepipe_end :
      (line : ℕ → Parsed Cmd) (n : ℕ) (c : Cmd) (s t : ℕ)
      → parseexec m es line s ≡ got c t
      → strchr whitespace (m t) ≡ false
      → peek m es (124 ∷ []) t ≡ false
      → parsepipe m es line (suc n) s ≡ got c t
  unfolding parsepipe
  parsepipe_end line n c s t run plain none =
      rw (run, parsepipe) (rw none (ap (got c) (spaces_none m es (m t) t refl plain)))

  -- parsepipe at a '|'.
  pub parsepipe_more :
      (line : ℕ → Parsed Cmd) (n : ℕ) (c d : Cmd) (s t u : ℕ)
      → parseexec m es line s ≡ got c t
      → m t ≡ 124
      → strchr whitespace (m (t + 1)) ≡ false
      → parsepipe m es line n (t + 1) ≡ got d u
      → parsepipe m es line (suc n) s ≡ got (pipe_cmd c d) u
  unfolding parsepipe strchr
  parsepipe_more line n c d s t u run at plain rest =
      rw (run, parsepipe)
        (rw (peek-strchr m es (124 ∷ []) 124 t true at refl refl)
          (rw (next_single 124 t at refl refl refl plain) (rw rest refl)))

  pub backs_end :
      (n : ℕ) (c : Cmd) (t : ℕ)
      → strchr whitespace (m t) ≡ false
      → peek m es (38 ∷ []) t ≡ false
      → backs m es (suc n) c t ≡ got c t
  unfolding backs
  backs_end n c t plain none = rw none (ap (got c) (spaces_none m es (m t) t refl plain))

  pub backs_more :
      (n : ℕ) (c : Cmd) (t : ℕ)
      → m t ≡ 38
      → Ends m (t + 1)
      → backs m es (suc (suc n)) c t ≡ got (back_cmd c) (t + 1)
  unfolding backs strchr
  backs_more n c t at e = rw (peek-strchr m es (38 ∷ []) 38 t true at refl refl) (
      rw (next_single 38 t at refl refl refl (Starts-plain m (t + 1) (inr e))) (
        backs_end n (back_cmd c) (t + 1) (Starts-plain m (t + 1) (inr e))
          (Ends-peek (38 ∷ []) (t + 1) refl e)))

  -- parseline without a ';'.
  pub parseline_end :
      (n : ℕ) (c d : Cmd) (s t u : ℕ)
      → parsepipe m es (parseline m es n) (suc (es - s)) s ≡ got c t
      → backs m es (suc (es - t)) c t ≡ got d u
      → Ends m u
      → parseline m es (suc n) s ≡ got d u
  unfolding parseline strchr
  parseline_end n c d s t u run behind e =
      rw (run, parseline)
        (rw behind (rw (Ends-peek (59 ∷ []) u refl e) (ap (got d) (Ends-spaces u e))))

  -- parseline at a ';'.
  pub parseline_more :
      (n : ℕ) (c d : Cmd) (s t u : ℕ)
      → parsepipe m es (parseline m es n) (suc (es - s)) s ≡ got c t
      → m t ≡ 59
      → strchr whitespace (m (t + 1)) ≡ false
      → parseline m es n (t + 1) ≡ got d u
      → parseline m es (suc n) s ≡ got (list_cmd c d) u
  unfolding parseline strchr
  parseline_more n c d s t u run at plain rest =
      rw (run, parseline)
        (rw
          (backs_end (es - t) c t (ap (strchr whitespace) at)
            (peek-strchr m es (38 ∷ []) 59 t false at refl refl))
          (rw (peek-strchr m es (59 ∷ []) 59 t true at refl refl)
            (rw (next_single 59 t at refl refl refl plain) (rw rest refl))))

module _ (m : Memory) (es : ℕ) (full : (k : ℕ) → k < es → m k ≢ 0) where
  redirect_looks :
      (c : ℕ)
      → (c ≡ 60) ⊎ (c ≡ 62)
      → (strchr whitespace c ≡ false) × ((not (c == 0) && strchr (60 ∷ 62 ∷ []) c) ≡ true)
  unfolding strchr
  redirect_looks c (inl z) = rw z (refl, refl)
  redirect_looks c (inr z) = rw z (refl, refl)

  redirect_word :
      (s : ℕ) (w : Word)
      → w.start ≡ s + 1
      → IsWord m es w
      → (in_word (m (s + 1)) ≡ true)
        × (gettoken m es (s + 1) ≡ record { kind = 97; word = w; next = spaces m es w.end })
  redirect_word s w behind x =
      let ne = full w.start (omega (arith, x.nonempty, x.inside)) in
      rw (sym behind) (x.bytes w.start (omega arith) x.nonempty, gettoken-word m es w x ne)

  redirect_token :
      (c s : ℕ)
      → m s ≡ c
      → (c ≡ 60) ⊎ (c ≡ 62)
      → in_word (m (s + 1)) ≡ true
      → ((gettoken m es s).kind ≡ c) × ((gettoken m es s).next ≡ s + 1)
  redirect_token c s at kind letter =
      let (plain, one, other) = in_word-strchr (m (s + 1)) letter in
      let ne : m (s + 1) ≢ 62 = ground arith in
      let which : (c ≡ 60) ⊎ ((c ≡ 62) × (m (s + 1) ≢ 62)) = elim kind [
        | inl z ↦ inl z
        | inr z ↦ inr (z, ne)
      ] in
      let (k, next) = gettoken-redirect m es c s at which in
      (k, next ∙ spaces_none m es (m (s + 1)) (s + 1) refl plain)

  -- A redirection to the word behind it.
  pub redirs_file :
      (c s : ℕ) (w : Word)
      → m s ≡ c
      → (c ≡ 60) ⊎ (c ≡ 62)
      → w.start ≡ s + 1
      → IsWord m es w
      → Ends m w.end
      → parseredirs m es s ≡ got (redirection c w ++ []) w.end
  unfolding redirs strchr
  redirs_file c s w at kind behind x e =
      let (plain, look) = redirect_looks c kind in
      let (letter, file) = redirect_word s w behind x in
      let (k, next) = redirect_token c s at kind letter in
      let more : es - s ≡ suc (es - s - 1) = omega (arith, behind, x.nonempty, x.inside) in
      rw (peek-strchr m es (60 ∷ 62 ∷ []) c s true at plain look) (
        rw (spaces_none m es c s at plain) (
          rw next (
            rw file (
              rw (Ends-spaces m es w.end e) (
                rw more (
                  rw (Ends-peek m es (60 ∷ 62 ∷ []) w.end refl e)
                    (rw (k, Ends-spaces m es w.end e) refl)))))))
