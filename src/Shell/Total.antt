-- ===== src/Shell/Total.antt =====
-- The parser ends on every line (Source Code/sh.c), and takes the strings of a command from the line.
use tugas_sistem_operasi.Base.{
  ℕ, zero, suc, ◌-◌, ◌≤◌, ◌<◌, ◌≡◌, inl, inr, List, [], ◌∷◌, arith, if◌then◌else◌, Bool-cases,
}
use tugas_sistem_operasi.Memory.{Memory}
use tugas_sistem_operasi.Shell.{
  Redir, Cmd, pipe_cmd, list_cmd, back_cmd, no_block, missing_close, Parsed, got, panic,
  out_of_fuel, wrap, spaces, gettoken, peek, parseredirs, parseblock, parseexec, parsepipe, backs,
  parseline,
}
use tugas_sistem_operasi.Shell.Lexing.{IsWord, peek-gettoken}
use tugas_sistem_operasi.Shell.Runs.{spaces-low, spaces-high}
use tugas_sistem_operasi.Shell.Words.{
  EveryFile, EveryIn, in_pipe, in_list, in_back, wrap-EveryIn, Fits, fits, stops, Fits-low,
}
use tugas_sistem_operasi.Shell.Simple.{parseredirs-Fits, parse_simple-Fits}

module _ (m : Memory) (es : ℕ) (nul : m es ≡ 0) where
  abbrev pub IsTaken : Cmd → Type 0
  IsTaken = EveryIn (IsWord m es)

  -- The parser of a line, where less than `b` bytes are left.
  module _ (line : ℕ → Parsed Cmd) (b : ℕ)
      (line_fits : (s : ℕ) → s ≤ es → es - s < b → Fits es IsTaken s (line s)) where
    block_end :
        (c : Cmd) (s : ℕ)
        → IsTaken c
        → (r : Parsed (List Redir)) → Fits es (EveryFile (IsWord m es)) s r
        → Fits es IsTaken s (elim r [
          | got rs s2 ↦ got (wrap rs c) s2
          | panic p ↦ panic p
          | out_of_fuel ↦ out_of_fuel
        ])
    block_end c s x _ (fits rs t lo hi y) =
        fits (wrap rs c) t lo hi (wrap-EveryIn (IsWord m es) rs c y x)
    block_end c s x _ (stops p) = stops p

    block_close :
        (s : ℕ) (r : Parsed Cmd)
        → Fits es IsTaken s r
        → Fits es IsTaken s (elim r [
          | got c s1 ↦
              let closed : Parsed Cmd =
                elim (parseredirs m es (gettoken m es (spaces m es s1)).next) [
                  | got rs s2 ↦ got (wrap rs c) s2
                  | panic p ↦ panic p
                  | out_of_fuel ↦ out_of_fuel
                ] in
              if peek m es (41 ∷ []) s1 then closed else panic missing_close
          | panic p ↦ panic p
          | out_of_fuel ↦ out_of_fuel
        ])
    block_close s _ (fits c t lo hi x) = elim (Bool-cases (peek m es (41 ∷ []) t)) [
      | inr e ↦ rw e (stops missing_close)
      | inl e ↦
          let (on, inside) = peek-gettoken m es nul (41 ∷ []) t hi e in
          let next = (gettoken m es (spaces m es t)).next in
          rw e (
            Fits-low es IsTaken s next (omega arith) _
              (block_end c next x (parseredirs m es next) (parseredirs-Fits m es nul next inside)))
    ]
    block_close s _ (stops p) = stops p

    parseblock-Fits : (s : ℕ) → s ≤ es → es - s ≤ b → Fits es IsTaken s (parseblock m es line s)
    unfolding parseblock
    parseblock-Fits s le lt = elim (Bool-cases (peek m es (40 ∷ []) s)) [
      | inr e ↦ rw e (stops no_block)
      | inl e ↦
          let (on, inside) = peek-gettoken m es nul (40 ∷ []) s le e in
          let next = (gettoken m es (spaces m es s)).next in
          rw e (
            Fits-low es IsTaken s next (omega arith) _
              (block_close next (line next) (line_fits next inside (omega arith))))
    ]

    parseexec-Fits : (s : ℕ) → s ≤ es → es - s ≤ b → Fits es IsTaken s (parseexec m es line s)
    unfolding parseexec
    parseexec-Fits s le lt =
        let lo = spaces-low m es s in
        let hi = spaces-high m es s le in
        elim (Bool-cases (peek m es (40 ∷ []) s)) [
          | inl e ↦ rw e (
              Fits-low es IsTaken s (spaces m es s) lo _
                (parseblock-Fits (spaces m es s) hi (omega arith)))
          | inr e ↦ rw e (
              Fits-low es IsTaken s (spaces m es s) lo _
                (parse_simple-Fits m es nul (spaces m es s) hi))
        ]

    pipe_rest :
        (c : Cmd) (s : ℕ)
        → IsTaken c
        → (r : Parsed Cmd) → Fits es IsTaken s r
        → Fits es IsTaken s (elim r [
          | got d s2 ↦ got (pipe_cmd c d) s2
          | panic p ↦ panic p
          | out_of_fuel ↦ out_of_fuel
        ])
    pipe_rest c s x _ (fits d t lo hi y) = fits (pipe_cmd c d) t lo hi (in_pipe c d x y)
    pipe_rest c s x _ (stops p) = stops p

    pipe_more :
        (n s : ℕ)
        → es - s < suc n
        → es - s ≤ b
        → ((s : ℕ) → s ≤ es → es - s ≤ b → es - s < n → Fits es IsTaken s (parsepipe m es line n s))
        → (r : Parsed Cmd) → Fits es IsTaken s r
        → Fits es IsTaken s (elim r [
          | got c s1 ↦
              let rest : Parsed Cmd =
                elim (parsepipe m es line n (gettoken m es (spaces m es s1)).next) [
                  | got d s2 ↦ got (pipe_cmd c d) s2
                  | panic p ↦ panic p
                  | out_of_fuel ↦ out_of_fuel
                ] in
              if peek m es (124 ∷ []) s1 then rest else got c (spaces m es s1)
          | panic p ↦ panic p
          | out_of_fuel ↦ out_of_fuel
        ])
    pipe_more n s fuel lt rec _ (fits c t lo hi x) = elim (Bool-cases (peek m es (124 ∷ []) t)) [
      | inr e ↦
          rw e (fits c (spaces m es t) (omega (arith, spaces-low m es t)) (spaces-high m es t hi) x)
      | inl e ↦
          let (on, inside) = peek-gettoken m es nul (124 ∷ []) t hi e in
          let next = (gettoken m es (spaces m es t)).next in
          rw e (
            Fits-low es IsTaken s next (omega arith) _ (
              pipe_rest c next x (parsepipe m es line n next)
                (rec next inside (omega arith) (omega arith))))
    ]
    pipe_more n s fuel lt rec _ (stops p) = stops p

    parsepipe-Fits :
        (n s : ℕ) → s ≤ es → es - s ≤ b → es - s < n → Fits es IsTaken s (parsepipe m es line n s)
    unfolding parsepipe
    parsepipe-Fits zero s le lt fuel = absurd (omega arith)
    parsepipe-Fits (suc n) s le lt fuel =
        pipe_more n s fuel lt (parsepipe-Fits n) (parseexec m es line s) (parseexec-Fits s le lt)

  backs-Fits :
      (n : ℕ) (c : Cmd) (s : ℕ)
      → IsTaken c
      → s ≤ es
      → es - s < n
      → Fits es IsTaken s (backs m es n c s)
  unfolding backs
  backs-Fits zero c s x le fuel = absurd (omega arith)
  backs-Fits (suc n) c s x le fuel = elim (Bool-cases (peek m es (38 ∷ []) s)) [
    | inr e ↦ rw e (fits c (spaces m es s) (spaces-low m es s) (spaces-high m es s le) x)
    | inl e ↦
        let (on, inside) = peek-gettoken m es nul (38 ∷ []) s le e in
        let next = (gettoken m es (spaces m es s)).next in
        rw e (
          Fits-low es IsTaken s next (omega arith) _
            (backs-Fits n (back_cmd c) next (in_back c x) inside (omega arith)))
  ]

  list_rest :
      (c : Cmd) (s : ℕ)
      → IsTaken c
      → (r : Parsed Cmd) → Fits es IsTaken s r
      → Fits es IsTaken s (elim r [
        | got d s2 ↦ got (list_cmd c d) s2
        | panic p ↦ panic p
        | out_of_fuel ↦ out_of_fuel
      ])
  list_rest c s x _ (fits d t lo hi y) = fits (list_cmd c d) t lo hi (in_list c d x y)
  list_rest c s x _ (stops p) = stops p

  module _ (n : ℕ)
      (rec : (s : ℕ) → es - s < n → s ≤ es → Fits es IsTaken s (parseline m es n s)) where
    line_end :
        (s : ℕ)
        → es - s ≤ n
        → (r : Parsed Cmd) → Fits es IsTaken s r
        → Fits es IsTaken s (elim r [
          | got d s2 ↦
              let rest : Parsed Cmd =
                elim (parseline m es n (gettoken m es (spaces m es s2)).next) [
                  | got f s3 ↦ got (list_cmd d f) s3
                  | panic p ↦ panic p
                  | out_of_fuel ↦ out_of_fuel
                ] in
              if peek m es (59 ∷ []) s2 then rest else got d (spaces m es s2)
          | panic p ↦ panic p
          | out_of_fuel ↦ out_of_fuel
        ])
    line_end s fuel _ (fits c t lo hi x) = elim (Bool-cases (peek m es (59 ∷ []) t)) [
      | inr e ↦
          rw e (fits c (spaces m es t) (omega (arith, spaces-low m es t)) (spaces-high m es t hi) x)
      | inl e ↦
          let (on, inside) = peek-gettoken m es nul (59 ∷ []) t hi e in
          let next = (gettoken m es (spaces m es t)).next in
          rw e (
            Fits-low es IsTaken s next (omega arith) _
              (list_rest c next x (parseline m es n next) (rec next (omega arith) inside)))
    ]
    line_end s fuel _ (stops p) = stops p

    line_backs :
        (s : ℕ)
        → es - s ≤ n
        → (r : Parsed Cmd) → Fits es IsTaken s r
        → Fits es IsTaken s (elim r [
          | got c s1 ↦ elim (backs m es (suc (es - s1)) c s1) [
            | got d s2 ↦
                let rest : Parsed Cmd =
                  elim (parseline m es n (gettoken m es (spaces m es s2)).next) [
                    | got f s3 ↦ got (list_cmd d f) s3
                    | panic p ↦ panic p
                    | out_of_fuel ↦ out_of_fuel
                  ] in
                if peek m es (59 ∷ []) s2 then rest else got d (spaces m es s2)
            | panic p ↦ panic p
            | out_of_fuel ↦ out_of_fuel
          ]
          | panic p ↦ panic p
          | out_of_fuel ↦ out_of_fuel
        ])
    line_backs s fuel _ (fits c t lo hi x) = Fits-low es IsTaken s t lo _ (
        line_end t (omega arith) (backs m es (suc (es - t)) c t)
          (backs-Fits (suc (es - t)) c t x hi (omega arith)))
    line_backs s fuel _ (stops p) = stops p

  -- For a position on a line that ends with NUL, and fuel for more steps than the bytes from there on,
  -- parseline does not run out of fuel: it panics, or returns a command and a position further on the
  -- line, and each string of the command is a word of the line.
  pub parseline-Fits : (n s : ℕ) → es - s < n → s ≤ es → Fits es IsTaken s (parseline m es n s)
  unfolding parseline
  parseline-Fits zero s fuel le = absurd (omega arith)
  parseline-Fits (suc n) s fuel le =
      line_backs n (parseline-Fits n) s (omega arith)
        (parsepipe m es (parseline m es n) (suc (es - s)) s)
        (parsepipe-Fits (parseline m es n) n (λ t below lt. parseline-Fits n t lt below)
          (suc (es - s)) s le (omega arith) (omega arith))
