-- ===== src/Shell/Written.antt =====
-- How a command is written on a line (Source Code/sh.c).
use tugas_sistem_operasi.Base.{ℕ, ◌+◌, ◌≤◌, ◌<◌, ◌≡◌, refl, false, List, arith, length}
use tugas_sistem_operasi.Memory.{Memory}
use tugas_sistem_operasi.Shell.{
  max_args, o_rdonly, o_create, Word, Cmd, exec_cmd, redir_cmd, pipe_cmd, list_cmd, back_cmd,
  strchr, whitespace,
}
use tugas_sistem_operasi.Shell.Lexing.{IsWord}
use tugas_sistem_operasi.Shell.Steps.{Ends}
use tugas_sistem_operasi.Shell.Args.{Words, no_args, one_arg, Words-Starts, Starts-plain}

-- A command as it is written from `s` to `t`: its words with a blank behind each, or its parts in
-- parentheses, with `<file`, `>file`, `|`, `;` or `&` behind the first.
pub data Line (m : Memory) (es : ℕ) : Cmd → ℕ → ℕ → Type 0 where
  plain :
      (ws : List Word) (s t : ℕ)
      → length ws < max_args
      → Words m es ws s t
      → Line m es (exec_cmd ws) s t
  input :
      (c : Cmd) (w : Word) (s t : ℕ)
      → m s ≡ 40
      → Line m es c (s + 1) t
      → m t ≡ 41
      → m (t + 1) ≡ 60
      → w.start ≡ t + 2
      → IsWord m es w
      → Line m es (redir_cmd c (record { file = w; mode = o_rdonly; fd = 0 })) s w.end
  output :
      (c : Cmd) (w : Word) (s t : ℕ)
      → m s ≡ 40
      → Line m es c (s + 1) t
      → m t ≡ 41
      → m (t + 1) ≡ 62
      → w.start ≡ t + 2
      → IsWord m es w
      → Line m es (redir_cmd c (record { file = w; mode = o_create; fd = 1 })) s w.end
  piped :
      (c d : Cmd) (s t u : ℕ)
      → m s ≡ 40
      → Line m es c (s + 1) t
      → m t ≡ 41
      → m (t + 1) ≡ 124
      → m (t + 1 + 1) ≡ 40
      → Line m es d (t + 1 + 1 + 1) u
      → m u ≡ 41
      → Line m es (pipe_cmd c d) s (u + 1)
  listed :
      (c d : Cmd) (s t u : ℕ)
      → m s ≡ 40
      → Line m es c (s + 1) t
      → m t ≡ 41
      → m (t + 1) ≡ 59
      → m (t + 1 + 1) ≡ 40
      → Line m es d (t + 1 + 1 + 1) u
      → m u ≡ 41
      → Line m es (list_cmd c d) s (u + 1)
  backed :
      (c : Cmd) (s t : ℕ)
      → m s ≡ 40
      → Line m es c (s + 1) t
      → m t ≡ 41
      → m (t + 1) ≡ 38
      → Line m es (back_cmd c) s (t + 1 + 1)

Words-low : (m : Memory) (es : ℕ) (ws : List Word) (s t : ℕ) → Words m es ws s t → s ≤ t
Words-low m es _ _ _ (no_args s t z) = omega arith
Words-low m es _ _ _ (one_arg w ws s t z x b y) =
    omega (arith, z, x.nonempty, Words-low m es ws (w.end + 1) t y)

pub Line-low : (m : Memory) (es : ℕ) (c : Cmd) (s t : ℕ) → Line m es c s t → s ≤ t
Line-low m es _ _ _ (plain ws s t few x) = Words-low m es ws s t x
Line-low m es _ _ _ (input c w s t o x e f z i) =
    omega (arith, Line-low m es c (s + 1) t x, z, i.nonempty)
Line-low m es _ _ _ (output c w s t o x e f z i) =
    omega (arith, Line-low m es c (s + 1) t x, z, i.nonempty)
Line-low m es _ _ _ (piped c d s t u o x e f p y q) =
    omega (arith, Line-low m es c (s + 1) t x, Line-low m es d (t + 1 + 1 + 1) u y)
Line-low m es _ _ _ (listed c d s t u o x e f p y q) =
    omega (arith, Line-low m es c (s + 1) t x, Line-low m es d (t + 1 + 1 + 1) u y)
Line-low m es _ _ _ (backed c s t o x e f) = omega (arith, Line-low m es c (s + 1) t x)

-- A command starts with no blank.
pub first_plain : (m : Memory) (s : ℕ) → m s ≡ 40 → strchr whitespace (m s) ≡ false
unfolding strchr
first_plain m s e = rw e refl

pub Line-plain :
    (m : Memory) (es : ℕ) (c : Cmd) (s t : ℕ)
    → Ends m t
    → Line m es c s t
    → strchr whitespace (m s) ≡ false
Line-plain m es _ _ _ e (plain ws s t few x) = Starts-plain m s (Words-Starts m es ws s t e x)
Line-plain m es _ _ _ e (input c w s t o x k f z i) = first_plain m s o
Line-plain m es _ _ _ e (output c w s t o x k f z i) = first_plain m s o
Line-plain m es _ _ _ e (piped c d s t u o x k f p y q) = first_plain m s o
Line-plain m es _ _ _ e (listed c d s t u o x k f p y q) = first_plain m s o
Line-plain m es _ _ _ e (backed c s t o x k f) = first_plain m s o
