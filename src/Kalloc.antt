-- ===== src/Kalloc.antt =====
-- The allocator of pages (Source Code/kalloc.c), each section under kmem.lock a step. The free list
-- is the list of addresses that the next pointers of the free pages link.
pub mod Pages
use tugas_sistem_operasi.Base.{
  ℕ, zero, suc, ◌+◌, ◌-◌, ◌*◌, ◌/◌, ◌%◌, ◌^◌, Option, none, some, Bool, true, false, ◌||◌, not,
  List, [], ◌∷◌, if◌then◌else◌, ◌==◌, ltb, leb,
}
use tugas_sistem_operasi.Memory.{Memory, memset}

abbrev pub pg_size : ℕ
pg_size = 4096

-- PHYSTOP, and V2P of an address above KERNBASE or, by the wrap-around, below it.
abbrev pub phys_stop : ℕ
phys_stop = 0xE000000

abbrev pub v2p : ℕ → ℕ
v2p v = (v + 2 ^ 32 - 0x80000000) % 2 ^ 32

pub record Kmem : Type 0 where
  pub freelist : List ℕ
  pub memory : Memory

-- `end` is the first address behind the kernel.
module _ (end : ℕ) where
  -- `none` is a panic.
  unfoldable pub kfree : ℕ → Kmem → Option Kmem
  kfree v k =
      if not (v % pg_size == 0) || ltb v end || leb phys_stop (v2p v)
      then none
      else some (record { freelist = v ∷ k.freelist; memory = memset v 1 pg_size k.memory })

  -- The loop of freerange, for the pages that fit below `vend`.
  unfoldable pub free_pages : (pages p : ℕ) → Kmem → Option Kmem
  unfolding kfree
  free_pages zero p k = some k
  free_pages (suc n) p k = elim (kfree p k) [ none ↦ none | some m ↦ free_pages n (p + pg_size) m ]

  unfoldable pub freerange : (vstart vend : ℕ) → Kmem → Option Kmem
  unfolding free_pages
  freerange vstart vend k =
      let p = (vstart + pg_size - 1) / pg_size * pg_size in free_pages ((vend - p) / pg_size) p k

-- The first page of the list is taken off; 0 without one.
unfoldable pub take_page : List ℕ → Kmem → ℕ × Kmem
take_page [] k = (0, k)
take_page (p ∷ ps) k = (p, record k { freelist = ps })

unfoldable pub kalloc : Kmem → ℕ × Kmem
unfolding take_page
kalloc k = take_page k.freelist k
