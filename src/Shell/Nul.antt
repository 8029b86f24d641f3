-- ===== src/Shell/Nul.antt =====
-- What parsecmd leaves in the line: nulterminate ends the strings of the command (Source Code/sh.c).
use tugas_sistem_operasi.Base.{
  ℕ, suc, ◌-◌, ◌≤◌, ◌<◌, ◌≡◌, refl, ◌∙◌, ap, ◌≢◌, inl, inr, true, List, [], ◌∷◌, arith, ◌==◌,
  ==_refl, Bool-cases,
}
use tugas_sistem_operasi.Memory.{Memory, poke}
use tugas_sistem_operasi.Shell.{
  Word, Cmd, exec_cmd, redir_cmd, pipe_cmd, list_cmd, back_cmd, Panic, leftovers, Parsed, got,
  panic, in_word, terminate, nulterminate, spaces, parseline, all_read, parsecmd,
}
use tugas_sistem_operasi.Shell.Lexing.{IsWord}
use tugas_sistem_operasi.Shell.Words.{
  EveryWord, no_word, more_words, EveryIn, in_exec, in_redir, in_pipe, in_list, in_back, Fits, fits,
  stops,
}
use tugas_sistem_operasi.Shell.Total.{parseline-Fits}

poke-zero : (a k : ℕ) (m : Memory) → m k ≡ 0 → poke a 0 m k ≡ 0
poke-zero a k m e = ground arith

poke-keeps : (a k : ℕ) (m : Memory) → a ≢ k → poke a 0 m k ≡ m k
poke-keeps a k m ne = ground arith

poke_self : (a : ℕ) (m : Memory) → poke a 0 m a ≡ 0
poke_self a m = rw (==_refl a) refl

EveryWord-map :
    (P Q : Word → Type 0)
    → ((w : Word) → P w → Q w)
    → (ws : List Word) → EveryWord P ws
    → EveryWord Q ws
EveryWord-map P Q f _ no_word = no_word
EveryWord-map P Q f _ (more_words w ws p x) = more_words w ws (f w p) (EveryWord-map P Q f ws x)

EveryIn-map :
    (P Q : Word → Type 0) → ((w : Word) → P w → Q w) → (c : Cmd) → EveryIn P c → EveryIn Q c
EveryIn-map P Q f _ (in_exec ws x) = in_exec ws (EveryWord-map P Q f ws x)
EveryIn-map P Q f _ (in_redir c r x p) = in_redir c r (EveryIn-map P Q f c x) (f r.file p)
EveryIn-map P Q f _ (in_pipe c d x y) = in_pipe c d (EveryIn-map P Q f c x) (EveryIn-map P Q f d y)
EveryIn-map P Q f _ (in_list c d x y) = in_list c d (EveryIn-map P Q f c x) (EveryIn-map P Q f d y)
EveryIn-map P Q f _ (in_back c x) = in_back c (EveryIn-map P Q f c x)

terminate-zero : (ws : List Word) (k : ℕ) (m : Memory) → m k ≡ 0 → terminate ws m k ≡ 0
unfolding terminate
terminate-zero [] k m e = e
terminate-zero (w ∷ ws) k m e = terminate-zero ws k (poke w.end 0 m) (poke-zero w.end k m e)

nulterminate-zero : (c : Cmd) (k : ℕ) (m : Memory) → m k ≡ 0 → nulterminate c m k ≡ 0
unfolding nulterminate
nulterminate-zero (exec_cmd ws) k m e = terminate-zero ws k m e
nulterminate-zero (redir_cmd c r) k m e =
    poke-zero r.file.end k (nulterminate c m) (nulterminate-zero c k m e)
nulterminate-zero (pipe_cmd c d) k m e =
    nulterminate-zero d k (nulterminate c m) (nulterminate-zero c k m e)
nulterminate-zero (list_cmd c d) k m e =
    nulterminate-zero d k (nulterminate c m) (nulterminate-zero c k m e)
nulterminate-zero (back_cmd c) k m e = nulterminate-zero c k m e

abbrev EndsOff : ℕ → Word → Type 0
EndsOff k w = w.end ≢ k

terminate-keeps :
    (k : ℕ) (ws : List Word) (m : Memory) → EveryWord (EndsOff k) ws → terminate ws m k ≡ m k
unfolding terminate
terminate-keeps k _ m no_word = refl
terminate-keeps k _ m (more_words w ws ne x) =
    terminate-keeps k ws (poke w.end 0 m) x ∙ poke-keeps w.end k m ne

nulterminate-keeps :
    (k : ℕ) (c : Cmd) (m : Memory) → EveryIn (EndsOff k) c → nulterminate c m k ≡ m k
unfolding nulterminate
nulterminate-keeps k _ m (in_exec ws x) = terminate-keeps k ws m x
nulterminate-keeps k _ m (in_redir c r x ne) =
    poke-keeps r.file.end k (nulterminate c m) ne ∙ nulterminate-keeps k c m x
nulterminate-keeps k _ m (in_pipe c d x y) =
    nulterminate-keeps k d (nulterminate c m) y ∙ nulterminate-keeps k c m x
nulterminate-keeps k _ m (in_list c d x y) =
    nulterminate-keeps k d (nulterminate c m) y ∙ nulterminate-keeps k c m x
nulterminate-keeps k _ m (in_back c x) = nulterminate-keeps k c m x

-- A string that ends in a memory.
abbrev pub EndsIn : Memory → Word → Type 0
EndsIn m w = m w.end ≡ 0

terminate-EndsIn : (ws : List Word) (m : Memory) → EveryWord (EndsIn (terminate ws m)) ws
unfolding terminate
terminate-EndsIn [] m = no_word
terminate-EndsIn (w ∷ ws) m =
    more_words w ws (terminate-zero ws w.end (poke w.end 0 m) (poke_self w.end m))
      (terminate-EndsIn ws (poke w.end 0 m))

nulterminate-EndsIn : (c : Cmd) (m : Memory) → EveryIn (EndsIn (nulterminate c m)) c
unfolding nulterminate
nulterminate-EndsIn (exec_cmd ws) m = in_exec ws (terminate-EndsIn ws m)
nulterminate-EndsIn (redir_cmd c r) m =
    in_redir c r
      (EveryIn-map (EndsIn (nulterminate c m)) (EndsIn (poke r.file.end 0 (nulterminate c m)))
        (λ w e. poke-zero r.file.end w.end (nulterminate c m) e) c (nulterminate-EndsIn c m))
      (poke_self r.file.end (nulterminate c m))
nulterminate-EndsIn (pipe_cmd c d) m =
    in_pipe c d
      (EveryIn-map (EndsIn (nulterminate c m)) (EndsIn (nulterminate d (nulterminate c m)))
        (λ w e. nulterminate-zero d w.end (nulterminate c m) e) c (nulterminate-EndsIn c m))
      (nulterminate-EndsIn d (nulterminate c m))
nulterminate-EndsIn (list_cmd c d) m =
    in_list c d
      (EveryIn-map (EndsIn (nulterminate c m)) (EndsIn (nulterminate d (nulterminate c m)))
        (λ w e. nulterminate-zero d w.end (nulterminate c m) e) c (nulterminate-EndsIn c m))
      (nulterminate-EndsIn d (nulterminate c m))
nulterminate-EndsIn (back_cmd c) m = in_back c (nulterminate-EndsIn c m)

-- The results of parsecmd.
pub data Parses (m : Memory) (es : ℕ) : Parsed (Cmd × Memory) → Type 0 where
  rejects : (p : Panic) → Parses m es (panic p)
  accepts :
      (c : Cmd) (after : Memory) (t : ℕ)
      → t ≡ es
      → EveryIn (IsWord m es) c
      → EveryIn (EndsIn after) c
      → ((k : ℕ) → k < es → in_word (m k) ≡ true → after k ≡ m k)
      → Parses m es (got (c, after) t)

module _ (m : Memory) (es : ℕ) where
  -- No string ends at a byte of a word.
  IsWord-EndsOff :
      (k : ℕ) → k < es → in_word (m k) ≡ true → (w : Word) → IsWord m es w → EndsOff k w
  IsWord-EndsOff k lt e w x at = elim x.stop [
    | inl z ↦ absurd (omega (arith, z, at))
    | inr z ↦ absurd (cc (e, z, ap (λ (j : ℕ). in_word (m j)) at))
  ]

  all_read-Parses :
      (s : ℕ) (r : Parsed Cmd) → Fits es (EveryIn (IsWord m es)) s r → Parses m es (all_read m es r)
  all_read-Parses s _ (fits c t lo hi x) = elim (Bool-cases (spaces m es t == es)) [
    | inr e ↦ rw e (rejects leftovers)
    | inl e ↦ rw e (
        accepts c (nulterminate c m) (spaces m es t) (ground arith) x (nulterminate-EndsIn c m)
          (λ k lt w.
            nulterminate-keeps k c m
              (EveryIn-map (IsWord m es) (EndsOff k) (IsWord-EndsOff k lt w) c x)))
  ]
  all_read-Parses s _ (stops p) = rejects p

-- For a position on a line that ends with NUL, parsecmd panics or returns a command after the whole
-- line, and never runs out of fuel. Each string of the command is then a word of the line, up to a
-- blank, a symbol or the end; it ends with a NUL afterwards, and no byte of any word has changed.
pub parsecmd-Parses : (m : Memory) (es s : ℕ) → m es ≡ 0 → s ≤ es → Parses m es (parsecmd m es s)
unfolding parsecmd
parsecmd-Parses m es s nul le =
    all_read-Parses m es s (parseline m es (suc (es - s)) s)
      (parseline-Fits m es nul (suc (es - s)) s (omega arith) le)
