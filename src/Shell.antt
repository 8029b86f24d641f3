-- ===== src/Shell.antt =====
-- The parser of the shell's command lines (Source Code/sh.c), with strchr of Source Code/ulib.c. A line
-- is a memory of bytes; a pointer into it is a position, and `es` is the position of its NUL.
pub mod Runs
pub mod Lexing
pub mod Words
pub mod Simple
pub mod Total
pub mod Nul
pub mod Steps
pub mod Args
pub mod Blocks
pub mod Written
pub mod Grammar
use tugas_sistem_operasi.Base.{
  ℕ, zero, suc, ◌+◌, ◌-◌, ◌*◌, Bool, true, false, ◌&&◌, ◌||◌, not, List, [], ◌∷◌, ◌++◌,
  if◌then◌else◌, ◌==◌, ltb, leb,
}
use tugas_sistem_operasi.Memory.{Memory, poke}

abbrev pub max_args : ℕ
max_args = 10

-- O_RDONLY, and O_WRONLY|O_CREATE.
abbrev pub o_rdonly : ℕ
o_rdonly = 0

abbrev pub o_create : ℕ
o_create = 513

-- A counted string: its first position and the position behind it.
pub record Word : Type 0 where
  pub start : ℕ
  pub end : ℕ

pub record Redir : Type 0 where
  pub file : Word
  pub mode : ℕ
  pub fd : ℕ

-- struct cmd with its five kinds; argv ends with the list.
pub data Cmd : Type 0 where
  exec_cmd : List Word → Cmd
  redir_cmd : Cmd → Redir → Cmd
  pipe_cmd : Cmd → Cmd → Cmd
  list_cmd : Cmd → Cmd → Cmd
  back_cmd : Cmd → Cmd

pub data Panic : Type 0 where
  missing_file : Panic
  no_block : Panic
  missing_close : Panic
  syntax : Panic
  too_many_args : Panic
  leftovers : Panic

-- A result and the position behind it. `out_of_fuel` is no result of the code.
pub data Parsed {ℓ} (A : Type ℓ) : Type ℓ where
  got : A → ℕ → Parsed A
  panic : Panic → Parsed A
  out_of_fuel : Parsed A

-- Is the byte in the string? The NUL is in none.
unfoldable pub strchr : List ℕ → ℕ → Bool
strchr [] c = false
strchr (x ∷ xs) c = let rest = strchr xs c in if x == c then true else rest

-- " \t\r\n\v"
abbrev pub whitespace : List ℕ
whitespace = 32 ∷ 9 ∷ 13 ∷ 10 ∷ 11 ∷ []

-- "<|>&;()"
abbrev pub symbols : List ℕ
symbols = 60 ∷ 124 ∷ 62 ∷ 38 ∷ 59 ∷ 40 ∷ 41 ∷ []

-- The symbols of which a token has one: "|();&<".
abbrev pub single : List ℕ
single = 124 ∷ 40 ∷ 41 ∷ 59 ∷ 38 ∷ 60 ∷ []

-- A byte of a word.
abbrev pub in_word : ℕ → Bool
in_word c = not (strchr whitespace c) && not (strchr symbols c)

-- What gettoken returns and stores: the kind, *q, *eq and *ps.
pub record Token : Type 0 where
  pub kind : ℕ
  pub word : Word
  pub next : ℕ

-- The '<', '>' and '+' cases of parseredirs; any other token is ignored.
abbrev pub redirection : ℕ → Word → List Redir
redirection tok w =
    if tok == 60
    then record { file = w; mode = o_rdonly; fd = 0 } ∷ []
    else if (tok == 62) || (tok == 43)
    then record { file = w; mode = o_create; fd = 1 } ∷ []
    else []

-- The redirections around a command, the first one innermost.
unfoldable pub wrap : List Redir → Cmd → Cmd
wrap [] c = c
wrap (r ∷ rs) c = wrap rs (redir_cmd c r)

unfoldable pub terminate : List Word → Memory → Memory
terminate [] m = m
terminate (w ∷ ws) m = terminate ws (poke w.end 0 m)

unfoldable pub nulterminate : Cmd → Memory → Memory
unfolding terminate
nulterminate (exec_cmd ws) m = terminate ws m
nulterminate (redir_cmd c r) m = poke r.file.end 0 (nulterminate c m)
nulterminate (pipe_cmd c d) m = nulterminate d (nulterminate c m)
nulterminate (list_cmd c d) m = nulterminate d (nulterminate c m)
nulterminate (back_cmd c) m = nulterminate c m

module _ (m : Memory) (es : ℕ) where
  -- while(s < es && strchr(whitespace, *s)) s++, with n = es - s.
  unfoldable pub skip_spaces : (n s : ℕ) → ℕ
  unfolding strchr
  skip_spaces zero s = s
  skip_spaces (suc n) s =
      let rest = skip_spaces n (s + 1) in if strchr whitespace (m s) then rest else s

  abbrev pub spaces : ℕ → ℕ
  spaces s = skip_spaces (es - s) s

  -- The loop over a word, with n = es - s.
  unfoldable pub word_end : (n s : ℕ) → ℕ
  unfolding strchr
  word_end zero s = s
  word_end (suc n) s = let rest = word_end n (s + 1) in if in_word (m s) then rest else s

  -- The switch of gettoken: the kind of token and its end.
  unfoldable pub lex : ℕ → ℕ × ℕ
  unfolding strchr
  lex q =
      let c = m q in
      if c == 0
      then (0, q)
      else if strchr single c
      then (c, q + 1)
      else if c == 62
      then (if m (q + 1) == 62 then (43, q + 2) else (c, q + 1))
      else (97, word_end (es - q) q)

  unfoldable pub gettoken : ℕ → Token
  unfolding lex
  gettoken s =
      let q = spaces s in
      let (kind, e) = lex q in
      record { kind = kind; word = record { start = q; end = e }; next = spaces e }

  -- peek leaves `spaces s` in *ps.
  unfoldable pub peek : List ℕ → ℕ → Bool
  unfolding strchr
  peek toks s = not (m (spaces s) == 0) && strchr toks (m (spaces s))

  abbrev pub more_redirs : List Redir → Parsed (List Redir) → Parsed (List Redir)
  more_redirs rs (got ss t) = got (rs ++ ss) t
  more_redirs rs (panic p) = panic p
  more_redirs rs out_of_fuel = out_of_fuel

  -- The loop of parseredirs; its rounds consume the line.
  unfoldable pub redirs : (fuel s : ℕ) → Parsed (List Redir)
  redirs zero s = out_of_fuel
  redirs (suc n) s =
      let tok = gettoken (spaces s) in
      let file = gettoken tok.next in
      let rest = redirs n file.next in
      if peek (60 ∷ 62 ∷ []) s
      then (if file.kind == 97
          then more_redirs (redirection tok.kind file.word) rest
          else panic missing_file)
      else got [] (spaces s)

  abbrev pub parseredirs : ℕ → Parsed (List Redir)
  parseredirs s = redirs (suc (es - s)) s

  -- The loop of parseexec behind `argc` arguments: the arguments and the redirections among them.
  unfoldable pub args : (fuel argc s : ℕ) → Parsed (List Word × List Redir)
  args zero argc s = out_of_fuel
  args (suc n) argc s =
      let tok = gettoken (spaces s) in
      let rest : Parsed (List Word × List Redir) = elim (parseredirs tok.next) [
        | got rs s1 ↦ elim (args n (argc + 1) s1) [
          | got (ws, ss) s2 ↦ got (tok.word ∷ ws, rs ++ ss) s2
          | panic p ↦ panic p
          | out_of_fuel ↦ out_of_fuel
        ]
        | panic p ↦ panic p
        | out_of_fuel ↦ out_of_fuel
      ] in
      if peek (124 ∷ 41 ∷ 38 ∷ 59 ∷ []) s
      then got ([], []) (spaces s)
      else if tok.kind == 0
      then got ([], []) tok.next
      else if not (tok.kind == 97)
      then panic syntax
      else if leb max_args (argc + 1)
      then panic too_many_args
      else rest

  -- parseexec without a block. The redirections go around the command that the arguments go into.
  unfoldable pub parse_simple : ℕ → Parsed Cmd
  parse_simple s = elim (parseredirs s) [
    | got rs s1 ↦ elim (args (suc (es - s1)) 0 s1) [
      | got (ws, ss) s2 ↦ got (wrap (rs ++ ss) (exec_cmd ws)) s2
      | panic p ↦ panic p
      | out_of_fuel ↦ out_of_fuel
    ]
    | panic p ↦ panic p
    | out_of_fuel ↦ out_of_fuel
  ]

  module _ (parse_line : ℕ → Parsed Cmd) where
    unfoldable pub parseblock : ℕ → Parsed Cmd
    parseblock s =
        let inner : Parsed Cmd = elim (parse_line (gettoken (spaces s)).next) [
          | got c s1 ↦
              let closed : Parsed Cmd = elim (parseredirs (gettoken (spaces s1)).next) [
                | got rs s2 ↦ got (wrap rs c) s2
                | panic p ↦ panic p
                | out_of_fuel ↦ out_of_fuel
              ] in
              if peek (41 ∷ []) s1 then closed else panic missing_close
          | panic p ↦ panic p
          | out_of_fuel ↦ out_of_fuel
        ] in
        if peek (40 ∷ []) s then inner else panic no_block

    unfoldable pub parseexec : ℕ → Parsed Cmd
    unfolding parseblock parse_simple
    parseexec s = if peek (40 ∷ []) s then parseblock (spaces s) else parse_simple (spaces s)

    unfoldable pub parsepipe : (fuel s : ℕ) → Parsed Cmd
    unfolding parseexec
    parsepipe zero s = out_of_fuel
    parsepipe (suc n) s = elim (parseexec s) [
      | got c s1 ↦
          let rest : Parsed Cmd = elim (parsepipe n (gettoken (spaces s1)).next) [
            | got d s2 ↦ got (pipe_cmd c d) s2
            | panic p ↦ panic p
            | out_of_fuel ↦ out_of_fuel
          ] in
          if peek (124 ∷ []) s1 then rest else got c (spaces s1)
      | panic p ↦ panic p
      | out_of_fuel ↦ out_of_fuel
    ]

  -- The loop of parseline over the '&' behind a command.
  unfoldable pub backs : (fuel : ℕ) → Cmd → ℕ → Parsed Cmd
  backs zero c s = out_of_fuel
  backs (suc n) c s =
      let rest = backs n (back_cmd c) (gettoken (spaces s)).next in
      if peek (38 ∷ []) s then rest else got c (spaces s)

  unfoldable pub parseline : (fuel s : ℕ) → Parsed Cmd
  parseline zero s = out_of_fuel
  parseline (suc n) s = elim (parsepipe (parseline n) (suc (es - s)) s) [
    | got c s1 ↦ elim (backs (suc (es - s1)) c s1) [
      | got d s2 ↦
          let rest : Parsed Cmd = elim (parseline n (gettoken (spaces s2)).next) [
            | got f s3 ↦ got (list_cmd d f) s3
            | panic p ↦ panic p
            | out_of_fuel ↦ out_of_fuel
          ] in
          if peek (59 ∷ []) s2 then rest else got d (spaces s2)
      | panic p ↦ panic p
      | out_of_fuel ↦ out_of_fuel
    ]
    | panic p ↦ panic p
    | out_of_fuel ↦ out_of_fuel
  ]

  abbrev pub all_read : Parsed Cmd → Parsed (Cmd × Memory)
  all_read (got c s) =
      if spaces s == es then got (c, nulterminate c m) (spaces s) else panic leftovers
  all_read (panic p) = panic p
  all_read out_of_fuel = out_of_fuel

  -- parsecmd of the line from `s` on, with the memory after it.
  unfoldable pub parsecmd : ℕ → Parsed (Cmd × Memory)
  parsecmd s = all_read (parseline (suc (es - s)) s)
