-- ===== src/Kalloc/Pages.antt =====
-- Pages are neither lost nor given out twice.
use tugas_sistem_operasi.Base.{
  ℕ, ◌+◌, ◌<◌, ◌≡◌, refl, ◌∙◌, ap, sym, ◌≢◌, inl, inr, some, ◌||◌, not, List, [], ◌∷◌, arith, ◌==◌,
  Bool-cases, some-inj, ltb, leb, ◌%◌,
}
use tugas_sistem_operasi.Kalloc.{Kmem, kfree, kalloc, take_page, pg_size, phys_stop, v2p}
use tugas_sistem_operasi.File.Refs.{count, drop_ref}

-- The pages that are given out.
pub record Use : Type 0 where
  pub mem : Kmem
  pub held : List ℕ

module _ (end : ℕ) where
  pub data Step : Use → Use → Type 0 where
    allocates :
        (p : ℕ) (u : Use) (m : Kmem)
        → kalloc u.mem ≡ (p, m)
        → p ≢ 0
        → Step u (record { mem = m; held = p ∷ u.held })
    frees :
        (p : ℕ) (u : Use) (m : Kmem)
        → 0 < count p u.held
        → kfree end p u.mem ≡ some m
        → Step u (record { mem = m; held = drop_ref p u.held })

  pub data Reach (start : Kmem) : Use → Type 0 where
    begins : Reach start (record { mem = start; held = [] })
    steps : {u v : Use} → Reach start u → Step u v → Reach start v

  take_page-free :
      (xs : List ℕ) (k m : Kmem) (p : ℕ) → take_page xs k ≡ (p, m) → p ≢ 0 → xs ≡ p ∷ m.freelist
  unfolding take_page
  take_page-free [] k m p e ne = absurd (ne (sym (ap (λ (r : ℕ × Kmem). r.0) e)))
  take_page-free (q ∷ qs) k m p e ne =
      cc (ap (λ (r : ℕ × Kmem). r.0) e, ap (λ (r : ℕ × Kmem). r.1.freelist) e)

  kalloc-free : (k m : Kmem) (p : ℕ) → kalloc k ≡ (p, m) → p ≢ 0 → k.freelist ≡ p ∷ m.freelist
  unfolding kalloc
  kalloc-free k m p e ne = take_page-free k.freelist k m p e ne

  kfree-some : (v : ℕ) (k m : Kmem) → kfree end v k ≡ some m → m.freelist ≡ v ∷ k.freelist
  unfolding kfree
  kfree-some v k m e =
      elim (Bool-cases (not (v % pg_size == 0) || ltb v end || leb phys_stop (v2p v))) [
        | inl bad ↦ absurd (cc (rw (bad, kfree) at e))
        | inr good ↦ ap (λ (r : Kmem). r.freelist) (sym (some-inj (rw (good, kfree) at e)))
      ]

  moved : (j p : ℕ) (xs ys : List ℕ) → count j (p ∷ xs) + count j ys ≡ count j xs + count j (p ∷ ys)
  moved j p xs ys = elim (Bool-cases (j == p)) [
    | inl same ↦ rw (same, count) (omega arith)
    | inr other ↦ rw (other, count) refl
  ]

  dropped_back : (j p : ℕ) (xs : List ℕ) → 0 < count p xs → count j (p ∷ drop_ref p xs) ≡ count j xs
  dropped_back j p [] lt = absurd (omega arith)
  dropped_back j p (x ∷ xs) lt = elim (Bool-cases (p == x)) [
    | inl same ↦
        let e : p ≡ x = ground arith in rw (same, drop_ref) (ap (λ (q : ℕ). count j (q ∷ xs)) e)
    | inr other ↦
        let rest = dropped_back j p xs (rw (other, count) at lt) in
        rw (other, drop_ref) (ground (arith, rest))
  ]

  -- In whatever order pages are allocated and freed, as long as only pages that are given out are
  -- freed, every page stands in the free list and among the pages given out together as often as in
  -- the first free list: no page is lost, and none that stood there once is given out twice.
  pub pages_conserved :
      {start : Kmem} {u : Use} (p : ℕ)
      → Reach start u
      → count p u.mem.freelist + count p u.held ≡ count p start.freelist
  pages_conserved p begins = omega arith
  pages_conserved p (steps r (allocates q u m e ne)) =
      sym (moved p q m.freelist u.held)
      ∙ ap (λ (l : List ℕ). count p l + count p u.held) (sym (kalloc-free u.mem m q e ne))
      ∙ pages_conserved p r
  pages_conserved p (steps r (frees q u m held e)) =
      ap (λ (l : List ℕ). count p l + count p (drop_ref q u.held)) (kfree-some q u.mem m e)
      ∙ moved p q u.mem.freelist (drop_ref q u.held)
      ∙ ap (λ (n : ℕ). count p u.mem.freelist + n) (dropped_back p q u.held held)
      ∙ pages_conserved p r
