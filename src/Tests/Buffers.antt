-- ===== src/Tests/Buffers.antt =====
-- The theorems on the buffer cache as the boot leaves it, and after its first bget.
use tugas_sistem_operasi.Base.{◌≡◌, refl, some, List, [], ◌∷◌}
use tugas_sistem_operasi.Bio.{Buf, link, binit, find_cached, recycle, bget, brelse}
use tugas_sistem_operasi.Bio.Cache.{Gets, bget-Gets}
use tugas_sistem_operasi.Bio.Unique.{boots, gets, releases, IsSound, Reach-IsSound}

-- Buffer 0, the least recently used one, is for block 5 of device 1.
abbrev first_cache : List Buf
first_cache = link 29 1 (record { index = 0; flags = 0; dev = 1; blockno = 5; refcnt = 1 } ∷ [])

first_bget : bget 1 5 binit ≡ some (0, first_cache)
unfolding bget binit link find_cached recycle
first_bget = refl

bget-Gets_example : Gets 1 5 first_cache (bget 1 5 first_cache)
bget-Gets_example = bget-Gets 1 5 first_cache

Reach-IsSound_example : IsSound (brelse 0 first_cache)
Reach-IsSound_example =
    Reach-IsSound (brelse 0 first_cache)
      (releases 0 first_cache (gets 1 5 0 binit first_cache boots first_bget))
