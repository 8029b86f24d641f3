-- ===== src/Tests/Shells.antt =====
-- The parser of the shell at the line "a b>c".
use tugas_sistem_operasi.Base.{◌≡◌, refl, [], ◌∷◌, arith, get_or}
use tugas_sistem_operasi.Memory.{Memory}
use tugas_sistem_operasi.Shell.{
  Word, Cmd, exec_cmd, redir_cmd, got, skip_spaces, word_end, wrap, peek, gettoken, redirs, args,
  parsepipe, backs, parseline, parsecmd,
}
use tugas_sistem_operasi.Shell.Words.{Fits}
use tugas_sistem_operasi.Shell.Total.{IsTaken, parseline-Fits}
use tugas_sistem_operasi.Shell.Nul.{Parses, parsecmd-Parses}

abbrev line : Memory
line i = get_or (97 ∷ 32 ∷ 98 ∷ 62 ∷ 99 ∷ []) i 0

abbrev sorted : Cmd
sorted =
    redir_cmd (exec_cmd (record { start = 0; end = 1 } ∷ record { start = 2; end = 3 } ∷ []))
      (record { file = record { start = 4; end = 5 }; mode = 513; fd = 1 })

redirected : parseline line 5 6 0 ≡ got sorted 5
unfolding parseline parsepipe peek skip_spaces redirs args gettoken word_end backs wrap
redirected = refl

parseline-Fits_example : Fits 5 (IsTaken line 5 refl) 0 (parseline line 5 6 0)
parseline-Fits_example = parseline-Fits line 5 refl 6 0 (omega arith) (omega arith)

parsecmd-Parses_example : Parses line 5 (parsecmd line 5 0)
parsecmd-Parses_example = parsecmd-Parses line 5 0 refl (omega arith)

-- The line "(a )>b".
abbrev written : Memory
written i = get_or (40 ∷ 97 ∷ 32 ∷ 41 ∷ 62 ∷ 98 ∷ []) i 0

abbrev argument : Word
argument = record { start = 1; end = 2 }

abbrev target : Word
target = record { start = 5; end = 6 }

abbrev to_target : Cmd
to_target = redir_cmd (exec_cmd (argument ∷ [])) (record { file = target; mode = 513; fd = 1 })
