-- ===== src/Shell/Simple.antt =====
-- parseredirs and parseexec without a block end on every line (Source Code/sh.c).
use tugas_sistem_operasi.Base.{
  ℕ, zero, suc, ◌+◌, ◌-◌, ◌≤◌, ◌<◌, ◌≡◌, ◌≢◌, inl, inr, List, [], ◌∷◌, ◌++◌, arith, ◌==◌, leb,
  Bool-cases,
}
use tugas_sistem_operasi.Memory.{Memory}
use tugas_sistem_operasi.Shell.{
  max_args, Word, Redir, Cmd, exec_cmd, missing_file, syntax, too_many_args, Parsed, got, panic,
  out_of_fuel, redirection, wrap, spaces, gettoken, peek, more_redirs, redirs, parseredirs, args,
  parse_simple,
}
use tugas_sistem_operasi.Shell.Lexing.{IsWord, gettoken-IsToken, peek-gettoken}
use tugas_sistem_operasi.Shell.Runs.{spaces-low, spaces-high}
use tugas_sistem_operasi.Shell.Words.{
  EveryWord, no_word, more_words, EveryFile, no_file, EveryIn, in_exec, EveryFile-append,
  wrap-EveryIn, redirection-EveryFile, Fits, fits, stops, Fits-low,
}

module _ (m : Memory) (es : ℕ) (nul : m es ≡ 0) where
  abbrev pub IsFiles : List Redir → Type 0
  IsFiles = EveryFile (IsWord m es)

  abbrev pub IsTaken : Cmd → Type 0
  IsTaken = EveryIn (IsWord m es)

  abbrev IsArgs : List Word × List Redir → Type 0
  IsArgs (ws, rs) = EveryWord (IsWord m es) ws × EveryFile (IsWord m es) rs

  more_redirs-Fits :
      (rs : List Redir) (s : ℕ)
      → IsFiles rs
      → (r : Parsed (List Redir)) → Fits es IsFiles s r
      → Fits es IsFiles s (more_redirs m es rs r)
  more_redirs-Fits rs s x _ (fits ss t lo hi y) =
      fits (rs ++ ss) t lo hi (EveryFile-append (IsWord m es) rs ss x y)
  more_redirs-Fits rs s x _ (stops p) = stops p

  redirs-Fits : (n s : ℕ) → s ≤ es → es - s < n → Fits es IsFiles s (redirs m es n s)
  unfolding redirs
  redirs-Fits zero s le lt = absurd (omega arith)
  redirs-Fits (suc n) s le lt = elim (Bool-cases (peek m es (60 ∷ 62 ∷ []) s)) [
    | inr e ↦ rw e (fits [] (spaces m es s) (spaces-low m es s) (spaces-high m es s le) no_file)
    | inl e ↦
        let tok = gettoken m es (spaces m es s) in
        let (on, inside) = peek-gettoken m es nul (60 ∷ 62 ∷ []) s le e in
        let file = gettoken m es tok.next in
        let f = gettoken-IsToken m es nul tok.next inside in
        let rest = redirs-Fits n file.next f.high (omega (arith, f.low)) in
        elim (Bool-cases (file.kind == 97)) [
          | inr k ↦ rw e (rw k (stops missing_file))
          | inl k ↦
              let w = f.word (ground arith) in
              let lo : s ≤ file.next = omega (arith, f.low) in
              rw e (
                rw k (
                  more_redirs-Fits (redirection tok.kind file.word) s
                    (redirection-EveryFile (IsWord m es) tok.kind file.word w)
                    (redirs m es n file.next)
                    (Fits-low es IsFiles s file.next lo (redirs m es n file.next) rest)))
        ]
  ]

  pub parseredirs-Fits : (s : ℕ) → s ≤ es → Fits es IsFiles s (parseredirs m es s)
  parseredirs-Fits s le = redirs-Fits (suc (es - s)) s le (omega arith)

  IsArgs-rest :
      (w : Word) (rs : List Redir) (s : ℕ)
      → IsWord m es w
      → IsFiles rs
      → (r : Parsed (List Word × List Redir)) → Fits es IsArgs s r
      → Fits es IsArgs s (elim r [
        | got (ws, ss) s2 ↦ got (w ∷ ws, rs ++ ss) s2
        | panic p ↦ panic p
        | out_of_fuel ↦ out_of_fuel
      ])
  IsArgs-rest w rs s x y _ (fits (ws, ss) t lo hi (g, h)) =
      fits (w ∷ ws, rs ++ ss) t lo hi
        (more_words w ws x g, EveryFile-append (IsWord m es) rs ss y h)
  IsArgs-rest w rs s x y _ (stops p) = stops p

  args_more :
      (n argc s t : ℕ) (w : Word)
      → IsWord m es w
      → s < t
      → es - s < suc n
      → ((s : ℕ) → s ≤ es → es - s < n → Fits es IsArgs s (args m es n argc s))
      → (r : Parsed (List Redir)) → Fits es IsFiles t r
      → Fits es IsArgs s (elim r [
        | got rs s1 ↦ elim (args m es n argc s1) [
          | got (ws, ss) s2 ↦ got (w ∷ ws, rs ++ ss) s2
          | panic p ↦ panic p
          | out_of_fuel ↦ out_of_fuel
        ]
        | panic p ↦ panic p
        | out_of_fuel ↦ out_of_fuel
      ])
  args_more n argc s t w x lt fuel rec _ (fits rs s1 lo hi y) =
      IsArgs-rest w rs s x y (args m es n argc s1)
        (Fits-low es IsArgs s s1 (omega arith) (args m es n argc s1) (rec s1 hi (omega arith)))
  args_more n argc s t w x lt fuel rec _ (stops p) = stops p

  args-Fits : (n argc s : ℕ) → s ≤ es → es - s < n → Fits es IsArgs s (args m es n argc s)
  unfolding args
  args-Fits zero argc s le lt = absurd (omega arith)
  args-Fits (suc n) argc s le lt =
      let lo = spaces-low m es s in
      let hi = spaces-high m es s le in
      let tok = gettoken m es (spaces m es s) in
      let t = gettoken-IsToken m es nul (spaces m es s) hi in
      let start : s ≤ tok.next = omega (arith, t.low) in
      elim (Bool-cases (peek m es (124 ∷ 41 ∷ 38 ∷ 59 ∷ []) s)) [
        | inl e ↦ rw e (fits ([], []) (spaces m es s) lo hi (no_word, no_file))
        | inr e ↦ elim (Bool-cases (tok.kind == 0)) [
          | inl z ↦ rw (e, z) (fits ([], []) tok.next start t.high (no_word, no_file))
          | inr nz ↦ elim (Bool-cases (tok.kind == 97)) [
            | inr k ↦ rw (e, nz, k) (stops syntax)
            | inl k ↦ elim (Bool-cases (leb max_args (argc + 1))) [
              | inl many ↦ rw (e, nz, k, many) (stops too_many_args)
              | inr few ↦
                  let ne : tok.kind ≢ 0 = ground arith in
                  let on : s < tok.next = omega (arith, t.moves ne) in
                  rw (e, nz, k, few)
                    (args_more n (argc + 1) s tok.next tok.word (t.word (ground arith)) on lt
                      (args-Fits n (argc + 1)) (parseredirs m es tok.next)
                      (parseredirs-Fits tok.next t.high))
            ]
          ]
        ]
      ]

  simple_args :
      (rs : List Redir) (s : ℕ)
      → IsFiles rs
      → (r : Parsed (List Word × List Redir)) → Fits es IsArgs s r
      → Fits es IsTaken s (elim r [
        | got (ws, ss) s2 ↦ got (wrap (rs ++ ss) (exec_cmd ws)) s2
        | panic p ↦ panic p
        | out_of_fuel ↦ out_of_fuel
      ])
  simple_args rs s y _ (fits (ws, ss) t lo hi (g, h)) =
      fits (wrap (rs ++ ss) (exec_cmd ws)) t lo hi (
        wrap-EveryIn (IsWord m es) (rs ++ ss) (exec_cmd ws)
          (EveryFile-append (IsWord m es) rs ss y h) (in_exec ws g))
  simple_args rs s y _ (stops p) = stops p

  simple_redirs :
      (s : ℕ) (r : Parsed (List Redir))
      → Fits es IsFiles s r
      → Fits es IsTaken s (elim r [
        | got rs s1 ↦ elim (args m es (suc (es - s1)) 0 s1) [
          | got (ws, ss) s2 ↦ got (wrap (rs ++ ss) (exec_cmd ws)) s2
          | panic p ↦ panic p
          | out_of_fuel ↦ out_of_fuel
        ]
        | panic p ↦ panic p
        | out_of_fuel ↦ out_of_fuel
      ])
  simple_redirs s _ (fits rs t lo hi y) = Fits-low es IsTaken s t lo _ (
      simple_args rs t y (args m es (suc (es - t)) 0 t)
        (args-Fits (suc (es - t)) 0 t hi (omega arith)))
  simple_redirs s _ (stops p) = stops p

  pub parse_simple-Fits : (s : ℕ) → s ≤ es → Fits es IsTaken s (parse_simple m es s)
  unfolding parse_simple
  parse_simple-Fits s le = simple_redirs s (parseredirs m es s) (parseredirs-Fits s le)
