-- ===== src/Shell/Words.antt =====
-- The strings of a command, and results of the parser that take them from the line (Source Code/sh.c).
use tugas_sistem_operasi.Base.{ℕ, ◌≤◌, inl, inr, ◌||◌, List, [], ◌∷◌, ◌++◌, arith, ◌==◌, Bool-cases}
use tugas_sistem_operasi.Shell.{
  Word, Redir, Cmd, exec_cmd, redir_cmd, pipe_cmd, list_cmd, back_cmd, Panic, Parsed, got, panic,
  redirection, wrap,
}

pub data EveryWord (P : Word → Type 0) : List Word → Type 0 where
  no_word : EveryWord P []
  more_words : (w : Word) (ws : List Word) → P w → EveryWord P ws → EveryWord P (w ∷ ws)

pub data EveryFile (P : Word → Type 0) : List Redir → Type 0 where
  no_file : EveryFile P []
  more_files : (r : Redir) (rs : List Redir) → P r.file → EveryFile P rs → EveryFile P (r ∷ rs)

-- Every string of the command.
pub data EveryIn (P : Word → Type 0) : Cmd → Type 0 where
  in_exec : (ws : List Word) → EveryWord P ws → EveryIn P (exec_cmd ws)
  in_redir : (c : Cmd) (r : Redir) → EveryIn P c → P r.file → EveryIn P (redir_cmd c r)
  in_pipe : (c d : Cmd) → EveryIn P c → EveryIn P d → EveryIn P (pipe_cmd c d)
  in_list : (c d : Cmd) → EveryIn P c → EveryIn P d → EveryIn P (list_cmd c d)
  in_back : (c : Cmd) → EveryIn P c → EveryIn P (back_cmd c)

pub EveryFile-append :
    (P : Word → Type 0) (rs ss : List Redir)
    → EveryFile P rs
    → EveryFile P ss
    → EveryFile P (rs ++ ss)
EveryFile-append P _ ss no_file y = y
EveryFile-append P _ ss (more_files r rs p x) y =
    more_files r (rs ++ ss) p (EveryFile-append P rs ss x y)

pub wrap-EveryIn :
    (P : Word → Type 0) (rs : List Redir) (c : Cmd)
    → EveryFile P rs
    → EveryIn P c
    → EveryIn P (wrap rs c)
unfolding wrap
wrap-EveryIn P _ c no_file x = x
wrap-EveryIn P _ c (more_files r rs p y) x = wrap-EveryIn P rs (redir_cmd c r) y (in_redir c r x p)

pub redirection-EveryFile :
    (P : Word → Type 0) (tok : ℕ) (w : Word) → P w → EveryFile P (redirection tok w)
redirection-EveryFile P tok w p = elim (Bool-cases (tok == 60)) [
  | inl a ↦ rw a (more_files (record { file = w; mode = 0; fd = 0 }) [] p no_file)
  | inr a ↦ elim (Bool-cases ((tok == 62) || (tok == 43))) [
    | inl b ↦ rw (a, b) (more_files (record { file = w; mode = 513; fd = 1 }) [] p no_file)
    | inr b ↦ rw (a, b) no_file
  ]
]

-- A result, at a position from `s` to the end of the line, or a panic; the parser does not run out of
-- fuel.
pub data Fits (es : ℕ) {A : Type 0} (Good : A → Type 0) (s : ℕ) : Parsed A → Type 0 where
  fits : (a : A) (t : ℕ) → s ≤ t → t ≤ es → Good a → Fits es Good s (got a t)
  stops : (p : Panic) → Fits es Good s (panic p)

pub Fits-low :
    (es : ℕ) {A : Type 0} (Good : A → Type 0) (s t : ℕ)
    → s ≤ t
    → (r : Parsed A) → Fits es Good t r
    → Fits es Good s r
Fits-low es Good s t le _ (fits a u lo hi g) = fits a u (omega arith) hi g
Fits-low es Good s t le _ (stops p) = stops p
