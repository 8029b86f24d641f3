-- ===== src/Tests/Kallocs.antt =====
-- The theorem on pages at a concrete free list.
use tugas_sistem_operasi.Base.{◌+◌, ◌≡◌, refl, arith, [], ◌∷◌}
use tugas_sistem_operasi.Memory.{memset}
use tugas_sistem_operasi.Kalloc.{Kmem, kfree, kalloc, take_page}
use tugas_sistem_operasi.Kalloc.Pages.{Reach, begins, steps, allocates, frees, pages_conserved}
use tugas_sistem_operasi.File.Refs.{count}

-- Two pages above a kernel that ends at 2149580800.
abbrev two_pages : Kmem
two_pages = record { freelist = 2149584896 ∷ 2149580800 ∷ []; memory = λ a. 0 }

abbrev one_page : Kmem
one_page = record { freelist = 2149580800 ∷ []; memory = λ a. 0 }

abbrev again : Kmem
again = record {
  freelist = 2149584896 ∷ 2149580800 ∷ [];
  memory = memset 2149584896 1 4096 (λ a. 0);
}

-- One page is allocated and freed.
again-Reach : Reach 2149580800 two_pages (record { mem = again; held = [] })
unfolding kalloc kfree take_page
again-Reach =
    steps
      (steps begins
        (allocates 2149584896 (record { mem = two_pages; held = [] }) one_page refl (omega arith)))
      (frees 2149584896 (record { mem = one_page; held = 2149584896 ∷ [] }) again (omega arith)
        refl)

pages_conserved_example :
    count 2149584896 again.freelist + count 2149584896 [] ≡ count 2149584896 two_pages.freelist
pages_conserved_example = pages_conserved 2149580800 2149584896 again-Reach
