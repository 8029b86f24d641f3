-- ===== src/File/Refs.antt =====
-- Reference counts of open files: the count in an entry is the number of references that are held.
use tugas_sistem_operasi.Base.{
  ℕ, zero, suc, ◌+◌, ◌-◌, ◌<◌, ◌≡◌, refl, ◌∙◌, ap, sym, ◌≢◌, inl, inr, Option, none, some, true,
  false, List, [], ◌∷◌, arith, if◌then◌else◌, ◌==◌, ltb, Bool-cases, Option-cases, some-inj, modify,
  get_elem?-modify_ne, length,
}
use tugas_sistem_operasi.File.{
  File, Ftable, Backend, file_at, entry, find_free, filealloc, filedup, fileclose,
}

abbrev pub count : ℕ → List ℕ → ℕ
count i [] = 0
count i (j ∷ js) = if i == j then suc (count i js) else count i js

-- One reference less.
abbrev pub drop_ref : ℕ → List ℕ → List ℕ
drop_ref i [] = []
drop_ref i (j ∷ js) = if i == j then js else j ∷ drop_ref i js

abbrev pub ref_at : List File → ℕ → ℕ
ref_at fs i = (file_at fs i).ref

-- The references held, as indices into the table with repetition.
pub record Use (W : Type 0) : Type 0 where
  pub table : Ftable W
  pub held : List ℕ

module _ (K : Backend) where
  open K use {World}

  -- The calls of the holders of references.
  pub data Step : Use World → Use World → Type 0 where
    allocates :
        (i : ℕ) (u : Use World) (m : Ftable World)
        → filealloc u.table ≡ (some i, m)
        → Step u (record { table = m; held = i ∷ u.held })
    has_none :
        (u : Use World) (m : Ftable World)
        → filealloc u.table ≡ (none, m)
        → Step u (record { table = m; held = u.held })
    duplicates :
        (i : ℕ) (u : Use World) (m : Ftable World)
        → 0 < count i u.held
        → filedup i u.table ≡ some m
        → Step u (record { table = m; held = i ∷ u.held })
    closes :
        (i : ℕ) (u : Use World) (m : Ftable World)
        → 0 < count i u.held
        → fileclose K i u.table ≡ some m
        → Step u (record { table = m; held = drop_ref i u.held })

  pub data Reach : Use World → Type 0 where
    boots :
        (k : Ftable World)
        → ((i : ℕ) → ref_at k.files i ≡ 0)
        → Reach (record { table = k; held = [] })
    steps : {u v : Use World} → Reach u → Step u v → Reach v

  abbrev pub Counted : Use World → Type 0
  Counted u = (i : ℕ) → ref_at u.table.files i ≡ count i u.held

  ref_at-modify_ne :
      (fs : List File) (i j : ℕ) (f : File → File) → i ≢ j → ref_at (modify fs i f) j ≡ ref_at fs j
  ref_at-modify_ne fs i j f ne =
      ap (λ (o : Option File). (entry o).ref) (get_elem?-modify_ne fs i j f ne)

  -- Where there is an entry, its count after a change is the changed one.
  ref_at-modify_self :
      (fs : List File) (i : ℕ) (f : File → File)
      → i < length fs
      → ref_at (modify fs i f) i ≡ (f (file_at fs i)).ref
  ref_at-modify_self [] i f lt = absurd (omega arith)
  ref_at-modify_self (g ∷ gs) zero f lt = refl
  ref_at-modify_self (g ∷ gs) (suc i) f lt = ref_at-modify_self gs i f (omega arith)

  pub ref_at-inside : (fs : List File) (i : ℕ) → 0 < ref_at fs i → i < length fs
  ref_at-inside [] i lt = absurd (omega arith)
  ref_at-inside (g ∷ gs) zero lt = omega arith
  ref_at-inside (g ∷ gs) (suc i) lt = omega (arith, ref_at-inside gs i lt)

  find_free-some :
      (fs : List File) (i : ℕ) → find_free fs ≡ some i → (i < length fs) × (ref_at fs i ≡ 0)
  unfolding find_free
  find_free-some [] i e = absurd (cc)
  find_free-some (g ∷ gs) i e = elim (Bool-cases (g.ref == 0)) [
    | inl free ↦
        let at : 0 ≡ i = cc (rw (free, find_free) at e) in rw (← at) (omega arith, ground arith)
    | inr busy ↦ elim (Option-cases (find_free gs)) [
      | inl nothing ↦ absurd (cc (rw (busy, nothing, find_free) at e))
      | inr (j, found) ↦
          let at : suc j ≡ i = cc (rw (busy, found, find_free) at e) in
          let (lt, zero_ref) = find_free-some gs j found in rw (← at) (omega arith, zero_ref)
    ]
  ]

  pub count-drop_ref_self : (i : ℕ) (js : List ℕ) → count i (drop_ref i js) ≡ count i js - 1
  count-drop_ref_self i [] = refl
  count-drop_ref_self i (j ∷ js) = elim (Bool-cases (i == j)) [
    | inl same ↦ rw (same, drop_ref) (omega arith)
    | inr other ↦ rw (other, drop_ref) (rw (other, count) (count-drop_ref_self i js))
  ]

  pub count-drop_ref_ne : (i k : ℕ) (js : List ℕ) → i ≢ k → count k (drop_ref i js) ≡ count k js
  count-drop_ref_ne i k [] ne = refl
  count-drop_ref_ne i k (j ∷ js) ne = elim (Bool-cases (i == j)) [
    | inl same ↦ let e : (k == j) ≡ false = ground arith in rw (same, drop_ref) (rw (e, count) refl)
    | inr other ↦
        rw (other, drop_ref)
          (ap (λ (c : ℕ). if k == j then suc c else c) (count-drop_ref_ne i k js ne))
  ]

  -- One entry changes, and with it the number of references to it.
  pub Counted-change :
      (u : Use World) (i : ℕ) (f : File → File) (held : List ℕ) (w : World)
      → Counted u
      → i < length u.table.files
      → (f (file_at u.table.files i)).ref ≡ count i held
      → ((j : ℕ) → i ≢ j → count j held ≡ count j u.held)
      → Counted
          (record { table = record { files = modify u.table.files i f; world = w }; held = held })
  Counted-change u i f held w c inside here there j = elim (Bool-cases (i == j)) [
    | inl same ↦
        let e : i ≡ j = ground arith in
        rw (← e) (ref_at-modify_self u.table.files i f inside ∙ here)
    | inr other ↦
        let ne : i ≢ j = ground arith in
        ref_at-modify_ne u.table.files i j f ne ∙ c j ∙ sym (there j ne)
  ]

  pub count-cons_ne : (i j : ℕ) (held : List ℕ) → i ≢ j → count j (i ∷ held) ≡ count j held
  count-cons_ne i j held ne = let e : (j == i) ≡ false = ground arith in rw (e, count) refl

  pub count-cons_self : (i : ℕ) (held : List ℕ) → count i (i ∷ held) ≡ suc (count i held)
  count-cons_self i held = let e : (i == i) ≡ true = ground arith in rw (e, count) refl

  -- What the calls do, case by case.
  pub filealloc-some :
      (k m : Ftable World) (i : ℕ)
      → filealloc k ≡ (some i, m)
      → (i < length k.files)
        × (ref_at k.files i ≡ 0)
        × (m ≡ record k { files = modify k.files i (λ f. record f { ref = 1 }) })
  unfolding filealloc
  filealloc-some k m i e = elim (Option-cases (find_free k.files)) [
    | inl nothing ↦ absurd (cc (rw (nothing, filealloc) at e))
    | inr (j, found) ↦
        let r = rw (found, filealloc) at e in
        let at : j ≡ i = some-inj (ap (λ p. p.0) r) in
        let (lt, free) = find_free-some k.files j found in
        rw (← at) (lt, free, sym (ap (λ p. p.1) r))
  ]

  pub filealloc-none : (k m : Ftable World) → filealloc k ≡ (none, m) → k ≡ m
  unfolding filealloc
  filealloc-none k m e = elim (Option-cases (find_free k.files)) [
    | inl nothing ↦ ap (λ p. p.1) (rw (nothing, filealloc) at e)
    | inr (j, found) ↦ absurd (cc (ap (λ p. p.0) (rw (found, filealloc) at e)))
  ]

  pub filedup-some :
      (k : Ftable World) (i : ℕ)
      → 0 < ref_at k.files i
      → filedup i k
        ≡ some (record k { files = modify k.files i (λ f. record f { ref = f.ref + 1 }) })
  unfolding filedup
  filedup-some k i lt =
      let e : ltb (ref_at k.files i) 1 ≡ false = ground arith in rw (e, filedup) refl
