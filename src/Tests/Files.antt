-- ===== src/Tests/Files.antt =====
-- The theorems on open files over a backend with one inode, whose world is its contents.
use tugas_sistem_operasi.Base.{
  get_or, ℕ, zero, suc, ◌⊎◌, ◌+◌, ◌-◌, ◌<◌, ◌≡◌, refl, some, true, false, ◌&&◌, List, [], ◌∷◌,
  arith, if◌then◌else◌, ltb, leb, length, pos,
}
use tugas_sistem_operasi.Memory.{Memory}
use tugas_sistem_operasi.File.{
  File, fd_none, fd_inode, Backend, Ftable, file_at, find_free, filealloc, filedup, fileclose,
  filewrite,
}
use tugas_sistem_operasi.File.Refs.{count, Use, Reach, boots, steps, allocates}
use tugas_sistem_operasi.File.Held.{released, closed, Shuts, held_lem}
use tugas_sistem_operasi.File.Write.{Filewrites, filewrite_all}

abbrev stored : List ℕ → ℕ → Memory → Memory
stored bytes off m a =
    if leb off a && ltb a (off + length bytes) then get_or bytes (a - off) 0 else m a

abbrev flat : Backend
flat = record {
  World = Memory;
  pipeclose = λ p writable w. w;
  piperead = λ p n w. (pos 0, [], w);
  pipewrite = λ p bytes w. (pos 0, w);
  begin_op = λ w. w;
  end_op = λ w. w;
  ilock = λ i w. w;
  iunlock = λ i w. w;
  iput = λ i w. w;
  readi = λ i off n w. (pos 0, [], w);
  writei = λ i bytes off w. (pos (length bytes), stored bytes off w);
}

-- A free entry, and one that is open for inode 5 at offset 3.
abbrev free_entry : File
free_entry = record {
  kind = fd_none;
  ref = 0;
  readable = false;
  writable = false;
  pipe = 0;
  ip = 0;
  off = 0;
}

abbrev at_three : Ftable Memory
at_three = record {
  files =
      free_entry
      ∷ record free_entry { kind = fd_inode; ref = 1; writable = true; ip = 5; off = 3 }
      ∷ [];
  world = λ a. 0;
}

filewrite_all_example :
    Filewrites flat 1 5 3 (7 ∷ 8 ∷ []) at_three (filewrite flat 1 (7 ∷ 8 ∷ []) at_three)
filewrite_all_example = filewrite_all flat 1 (7 ∷ 8 ∷ []) at_three refl refl

-- Two free entries, of which one is then given out.
abbrev fresh : Ftable Memory
fresh = record { files = free_entry ∷ free_entry ∷ []; world = λ a. 0 }

fresh-refs : (i : ℕ) → (file_at fresh.files i).ref ≡ 0
fresh-refs zero = refl
fresh-refs (suc zero) = refl
fresh-refs (suc (suc i)) = refl

abbrev one_open : Use Memory
one_open = record {
  table = record fresh { files = record free_entry { ref = 1 } ∷ free_entry ∷ [] };
  held = 0 ∷ [];
}

one_open-Reach : Reach flat one_open
unfolding filealloc find_free
one_open-Reach = steps (boots fresh fresh-refs) (allocates 0 _ one_open.table refl)

held_lem_example :
    ((m : Ftable Memory) × (filedup 0 one_open.table ≡ some m))
    × (((1 < count 0 one_open.held)
          × (fileclose flat 0 one_open.table ≡ some (released flat 0 one_open.table)))
        ⊎ ((count 0 one_open.held ≡ 1)
            × ((w : Memory) × Shuts flat (file_at one_open.table.files 0) one_open.table.world w
                × (fileclose flat 0 one_open.table ≡ some (closed flat 0 w one_open.table)))))
held_lem_example = held_lem flat 0 one_open-Reach (omega arith)
