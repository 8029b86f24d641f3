-- ===== src/Log/Head.antt =====
-- The header of the log as it is written to a block and read back.
use tugas_sistem_operasi.Base.{ℕ, suc, ◌≡◌, refl, ap, List, [], ◌∷◌, ◌++◌, length, take, drop}
use tugas_sistem_operasi.Log.Disk.{Block, head_of, put_head}

take-append : (hs rest : List ℕ) → take (length hs) (hs ++ rest) ≡ hs
take-append [] rest = refl
take-append (h ∷ hs) rest = ap (◌∷◌ h) (take-append hs rest)

-- A header read from a block to which it was written is the same header, whatever the block held.
pub head_of-put_head : (hs : List ℕ) (b : Block) → head_of (put_head hs b) ≡ hs
unfolding head_of put_head
head_of-put_head hs b = take-append hs (drop (suc (length hs)) b)
