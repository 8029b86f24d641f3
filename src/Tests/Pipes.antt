-- ===== src/Tests/Pipes.antt =====
-- The theorems on the pipe at a concrete pipe.
use tugas_sistem_operasi.Base.{◌≤◌, ◌≡◌, false, List, [], ◌∷◌, ◌++◌, arith, length}
use tugas_sistem_operasi.Pipe.{Pipe, pipe_size, new_pipe, pipewrite, piperead}
use tugas_sistem_operasi.Pipe.Ring.{used, contents, IsValid}
use tugas_sistem_operasi.Pipe.Calls.{Writes, pipewrite-Writes, Reads, piperead-Reads}
use tugas_sistem_operasi.Pipe.Stream.{Call, writes, reads, turns, opened, pipe_fifo}

-- Both counters are one step from their wrap; the ring is empty.
abbrev worn : Pipe
worn = record (new_pipe (λ j. 0)) { nread = 4294967295; nwrite = 4294967295 }

worn-IsValid : IsValid worn
unfolding used
worn-IsValid = record { read_word = omega arith; write_word = omega arith; room = omega arith }

pipewrite-Writes_example : Writes false worn (5 ∷ 6 ∷ []) (pipewrite false (5 ∷ 6 ∷ []) worn)
pipewrite-Writes_example = pipewrite-Writes false (5 ∷ 6 ∷ []) worn worn-IsValid

piperead-Reads_example : Reads false 3 worn (piperead false 3 worn)
piperead-Reads_example = piperead-Reads false 3 worn worn-IsValid

abbrev calls : List Call
calls = reads false 4 ∷ writes false (5 ∷ 6 ∷ 7 ∷ []) ∷ reads false 2 ∷ []

pipe_fifo_example :
    let t = turns calls (opened (λ j. 0)) in
    (t.written ≡ t.delivered ++ contents t.pipe) × (length (contents t.pipe) ≤ pipe_size)
pipe_fifo_example = pipe_fifo (λ j. 0) calls
