-- ===== src/Tests/Texts.antt =====
-- The theorems on byte strings and numbers at concrete memories and texts.
use tugas_sistem_operasi.Base.{
  ◌+◌, ◌≤◌, ◌≡◌, refl, inl, true, [], ◌∷◌, ◌++◌, arith, length, if◌then◌else◌, ◌==◌,
}
use tugas_sistem_operasi.Memory.{Memory, memmove, memset, safestrcpy}
use tugas_sistem_operasi.Memory.Copy.{Filled, memmove_lem}
use tugas_sistem_operasi.Memory.Fill.{memset_lem}
use tugas_sistem_operasi.Memory.Strings.{Holds, safestrcpy-Holds}
use tugas_sistem_operasi.Text.{printint, atoi}
use tugas_sistem_operasi.Text.Numbers.{atoi-printint}
use tugas_sistem_operasi.Text.Buffer.{length-printint}

-- The string "abc" at address 100 in a memory of bytes 7.
abbrev letters : Memory
letters a =
    if a == 100
    then b'a'
    else if a == 101
    then b'b'
    else if a == 102
    then b'c'
    else if a == 103
    then 0
    else 7

-- The arrays overlap.
memmove_lem_example : Filled 102 8 (λ i. letters (100 + i)) letters (memmove 102 100 8 letters)
memmove_lem_example = memmove_lem 102 100 8 letters

memset_lem_example : Filled 96 8 (λ i. 1) letters (memset 96 257 8 letters)
memset_lem_example = memset_lem 96 257 8 letters

safestrcpy-Holds_example : Holds 200 100 3 letters (safestrcpy 200 100 3 letters)
safestrcpy-Holds_example = safestrcpy-Holds 200 100 2 letters (omega arith)

-- The word of -37, with a space behind it.
atoi-printint_example : atoi (printint 10 true 4294967259 ++ 32 ∷ []) ≡ 4294967259
atoi-printint_example = atoi-printint true 4294967259 (32 ∷ []) (omega arith) (omega arith)

length-printint_example : length (printint 10 true 2147483648) ≤ 12
length-printint_example = length-printint 10 true 2147483648 (inl refl) (omega arith)
