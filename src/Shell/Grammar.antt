-- ===== src/Shell/Grammar.antt =====
-- Every command tree is what the parser makes of a line that is written for it (Source Code/sh.c).
use tugas_sistem_operasi.Base.{
  ℕ, zero, suc, ◌+◌, ◌-◌, ◌≤◌, ◌<◌, ◌≡◌, refl, ◌∙◌, ap, ◌≢◌, ◌⊎◌, inl, inr, false, ◌&&◌, not, List,
  [], ◌∷◌, ◌++◌, arith, ◌==◌, length,
}
use tugas_sistem_operasi.Memory.{Memory}
use tugas_sistem_operasi.Shell.{
  max_args, o_rdonly, o_create, Word, Cmd, exec_cmd, redir_cmd, pipe_cmd, back_cmd, Parsed, got,
  strchr, whitespace, redirection, peek, wrap, parseexec, parsepipe, backs, parseline,
}
use tugas_sistem_operasi.Shell.Lexing.{IsWord}
use tugas_sistem_operasi.Shell.Steps.{Ends, in_word-looks, peek-strchr, spaces_none}
use tugas_sistem_operasi.Shell.Args.{
  Words, Words-Starts, Starts, Starts-plain, peek_word, parse_simple-Words,
}
use tugas_sistem_operasi.Shell.Blocks.{
  Ends-peek, redirs_none, parseexec-block, parsepipe_end, parsepipe_more, backs_end, backs_more,
  parseline_end, parseline_more, redirs_file,
}
use tugas_sistem_operasi.Shell.Written.{
  Line, plain, input, output, piped, listed, backed, Line-low, first_plain, Line-plain,
}

module _ (m : Memory) (es : ℕ) (nul : m es ≡ 0) (full : (k : ℕ) → k < es → m k ≢ 0) where
  -- What parseline returns with any fuel that is enough.
  abbrev Runs : Cmd → ℕ → ℕ → Type 0
  Runs c s t = (n : ℕ) → es - s < n → parseline m es n s ≡ got c t

  plain_looks : (s : ℕ) → Starts m s → peek m es (40 ∷ []) s ≡ false
  unfolding strchr
  plain_looks s (inl w) = peek_word m es (40 ∷ []) s w (in_word-looks (m s) w).2
  plain_looks s (inr e) = Ends-peek m es (40 ∷ []) s refl e

  plain_exec :
      (line : ℕ → Parsed Cmd) (ws : List Word) (s t : ℕ)
      → length ws < max_args
      → Ends m t
      → Words m es ws s t
      → parseexec m es line s ≡ got (exec_cmd ws) t
  unfolding parseexec
  plain_exec line ws s t few e x =
      let starts = Words-Starts m es ws s t e x in
      rw (plain_looks s starts) (
        rw (spaces_none m es (m s) s refl (Starts-plain m s starts))
          (parse_simple-Words m es nul full s t ws few e x))

  -- A command that parseexec takes up to an end.
  alone :
      (n : ℕ) (c : Cmd) (s t : ℕ)
      → parseexec m es (parseline m es n) s ≡ got c t
      → Ends m t
      → parseline m es (suc n) s ≡ got c t
  unfolding strchr
  alone n c s t run e =
      let plain_end = Starts-plain m t (inr e) in
      parseline_end m es n c c s t t
        (parsepipe_end m es (parseline m es n) (es - s) c s t run plain_end
          (Ends-peek m es (124 ∷ []) t refl e))
        (backs_end m es (es - t) c t plain_end (Ends-peek m es (38 ∷ []) t refl e)) e

  -- A block with `k` behind it, which is neither '<' nor '>'.
  block :
      (n k : ℕ) (c : Cmd) (s t : ℕ)
      → m s ≡ 40
      → Line m es c (s + 1) t
      → m t ≡ 41
      → Runs c (s + 1) t
      → es - (s + 1) < n
      → m (t + 1) ≡ k
      → strchr whitespace k ≡ false
      → (not (k == 0) && strchr (60 ∷ 62 ∷ []) k) ≡ false
      → parseexec m es (parseline m es n) s ≡ got c (t + 1)
  unfolding wrap
  block n k c s t o x e run fuel f p q =
      parseexec-block m es (parseline m es n) c s t (t + 1) [] o
        (Line-plain m es c (s + 1) t (inr e) x) (run n fuel) e (ap (strchr whitespace) f ∙ p)
        (redirs_none m es k (t + 1) f p q)

  -- A block with an end behind it.
  closed :
      (n : ℕ) (c : Cmd) (s t : ℕ)
      → m s ≡ 40
      → Line m es c (s + 1) t
      → m t ≡ 41
      → Runs c (s + 1) t
      → es - (s + 1) < n
      → Ends m (t + 1)
      → parseexec m es (parseline m es n) s ≡ got c (t + 1)
  unfolding strchr
  closed n c s t o x e run fuel (inl z) = block n 0 c s t o x e run fuel z refl refl
  closed n c s t o x e run fuel (inr z) = block n 41 c s t o x e run fuel z refl refl

  -- A block with a redirection to `w` behind it.
  to_file :
      (n k : ℕ) (c : Cmd) (w : Word) (s t : ℕ)
      → m s ≡ 40
      → Line m es c (s + 1) t
      → m t ≡ 41
      → Runs c (s + 1) t
      → es - (s + 1) < n
      → m (t + 1) ≡ k
      → (k ≡ 60) ⊎ (k ≡ 62)
      → strchr whitespace k ≡ false
      → w.start ≡ t + 2
      → IsWord m es w
      → Ends m w.end
      → parseexec m es (parseline m es n) s ≡ got (wrap (redirection k w ++ []) c) w.end
  to_file n k c w s t o x e run fuel f kind p z i end =
      parseexec-block m es (parseline m es n) c s t w.end (redirection k w ++ []) o
        (Line-plain m es c (s + 1) t (inr e) x) (run n fuel) e (ap (strchr whitespace) f ∙ p)
        (redirs_file m es full k (t + 1) w f kind (omega (arith, z)) i end)

  -- For a line that ends with NUL and holds none before, parseline of a command as it is written, with an
  -- end behind it and fuel for more steps than the bytes, returns that command and the position of the end.
  pub parseline-Line :
      (n : ℕ) (c : Cmd) (s t : ℕ)
      → es - s < n
      → t ≤ es
      → Ends m t
      → Line m es c s t
      → parseline m es n s ≡ got c t
  unfolding wrap strchr
  parseline-Line zero c s t fuel le e x = absurd (omega arith)
  parseline-Line (suc n) _ _ _ fuel le e (plain ws s t few x) =
      alone n (exec_cmd ws) s t (plain_exec (parseline m es n) ws s t few e x) e
  parseline-Line (suc n) _ _ _ fuel le e (input c w s t o x k f z i) =
      let inside : t + 2 < es = omega (arith, le, z, i.nonempty) in
      let low = Line-low m es c (s + 1) t x in
      let run : Runs c (s + 1) t =
        λ j lt. parseline-Line j c (s + 1) t lt (omega arith) (inr k) x in
      alone n (redir_cmd c (record { file = w; mode = o_rdonly; fd = 0 })) s w.end
        (to_file n 60 c w s t o x k run (omega arith) f (inl refl) refl z i e) e
  parseline-Line (suc n) _ _ _ fuel le e (output c w s t o x k f z i) =
      let inside : t + 2 < es = omega (arith, le, z, i.nonempty) in
      let low = Line-low m es c (s + 1) t x in
      let run : Runs c (s + 1) t =
        λ j lt. parseline-Line j c (s + 1) t lt (omega arith) (inr k) x in
      alone n (redir_cmd c (record { file = w; mode = o_create; fd = 1 })) s w.end
        (to_file n 62 c w s t o x k run (omega arith) f (inr refl) refl z i e) e
  parseline-Line (suc n) _ _ _ fuel le e (piped c d s t u o x k f p y q) =
      let low = Line-low m es c (s + 1) t x in
      let low2 = Line-low m es d (t + 1 + 1 + 1) u y in
      let run : Runs c (s + 1) t =
        λ j lt. parseline-Line j c (s + 1) t lt (omega arith) (inr k) x in
      let run2 : Runs d (t + 1 + 1 + 1) u =
        λ j lt. parseline-Line j d (t + 1 + 1 + 1) u lt (omega arith) (inr q) y in
      let more : es - s ≡ suc (es - s - 1) = omega arith in
      let right : parsepipe m es (parseline m es n) (es - s) (t + 1 + 1) ≡ got d (u + 1) =
        ap (λ (j : ℕ). parsepipe m es (parseline m es n) j (t + 1 + 1)) more
        ∙ parsepipe_end m es (parseline m es n) (es - s - 1) d (t + 1 + 1) (u + 1)
            (closed n d (t + 1 + 1) u p y q run2 (omega arith) e) (Starts-plain m (u + 1) (inr e))
            (Ends-peek m es (124 ∷ []) (u + 1) refl e) in
      parseline_end m es n (pipe_cmd c d) (pipe_cmd c d) s (u + 1) (u + 1)
        (parsepipe_more m es (parseline m es n) (es - s) c d s (t + 1) (u + 1)
          (block n 124 c s t o x k run (omega arith) f refl refl) f (first_plain m (t + 1 + 1) p)
          right)
        (backs_end m es (es - (u + 1)) (pipe_cmd c d) (u + 1) (Starts-plain m (u + 1) (inr e))
          (Ends-peek m es (38 ∷ []) (u + 1) refl e))
        e
  parseline-Line (suc n) _ _ _ fuel le e (listed c d s t u o x k f p y q) =
      let low = Line-low m es c (s + 1) t x in
      let low2 = Line-low m es d (t + 1 + 1 + 1) u y in
      let run : Runs c (s + 1) t =
        λ j lt. parseline-Line j c (s + 1) t lt (omega arith) (inr k) x in
      let run2 : Runs d (t + 1 + 1 + 1) u =
        λ j lt. parseline-Line j d (t + 1 + 1 + 1) u lt (omega arith) (inr q) y in
      let more : n ≡ suc (n - 1) = omega arith in
      let right : parseline m es n (t + 1 + 1) ≡ got d (u + 1) =
        ap (λ (j : ℕ). parseline m es j (t + 1 + 1)) more
        ∙ alone (n - 1) d (t + 1 + 1) (u + 1)
            (closed (n - 1) d (t + 1 + 1) u p y q run2 (omega arith) e) e in
      parseline_more m es n c d s (t + 1) (u + 1)
        (parsepipe_end m es (parseline m es n) (es - s) c s (t + 1)
          (block n 59 c s t o x k run (omega arith) f refl refl) (ap (strchr whitespace) f)
          (peek-strchr m es (124 ∷ []) 59 (t + 1) false f refl refl))
        f (first_plain m (t + 1 + 1) p) right
  parseline-Line (suc n) _ _ _ fuel le e (backed c s t o x k f) =
      let low = Line-low m es c (s + 1) t x in
      let run : Runs c (s + 1) t =
        λ j lt. parseline-Line j c (s + 1) t lt (omega arith) (inr k) x in
      let more : es - (t + 1) ≡ suc (es - (t + 1) - 1) = omega arith in
      parseline_end m es n c (back_cmd c) s (t + 1) (t + 1 + 1)
        (parsepipe_end m es (parseline m es n) (es - s) c s (t + 1)
          (block n 38 c s t o x k run (omega arith) f refl refl) (ap (strchr whitespace) f)
          (peek-strchr m es (124 ∷ []) 38 (t + 1) false f refl refl))
        (ap (λ (j : ℕ). backs m es (suc j) c (t + 1)) more
          ∙ backs_more m es (es - (t + 1) - 1) c (t + 1) f e)
        e
