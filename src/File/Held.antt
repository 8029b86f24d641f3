-- ===== src/File/Held.antt =====
-- Every sequence of filealloc, filedup and fileclose counts the references right.
use tugas_sistem_operasi.Base.{
  ℕ, ◌+◌, ◌-◌, ◌<◌, ◌≡◌, refl, ◌∙◌, sym, ◌⊎◌, inl, inr, some, false, ◌∷◌, arith, ltb, Bool-cases,
  some-inj, modify,
}
use tugas_sistem_operasi.File.{
  File, FileType, fd_none, fd_pipe, fd_inode, Ftable, Backend, file_at, filealloc, filedup, shut,
  fileclose,
}
use tugas_sistem_operasi.File.Refs.{
  count, drop_ref, ref_at, Use, Step, allocates, has_none, duplicates, closes, Reach, boots, steps,
  Counted, Counted-change, count-cons_ne, count-cons_self, filealloc-some, filealloc-none,
  filedup-some, count-drop_ref_self, count-drop_ref_ne, ref_at-inside,
}

module _ (K : Backend) where
  open K use {World}

  -- One reference of several is closed.
  abbrev pub released : ℕ → Ftable World → Ftable World
  released i k = record k { files = modify k.files i (λ g. record g { ref = g.ref - 1 }) }

  -- What is behind a file is closed: an end of a pipe, or an inode in a transaction of its own.
  pub data Shuts (f : File) (w : World) : World → Type 0 where
    nothing : f.kind ≡ fd_none → Shuts f w w
    a_pipe : f.kind ≡ fd_pipe → Shuts f w (K.pipeclose f.pipe f.writable w)
    an_inode : f.kind ≡ fd_inode → Shuts f w (K.end_op (K.iput f.ip (K.begin_op w)))

  -- The last reference is closed.
  abbrev pub closed : ℕ → World → Ftable World → Ftable World
  closed i w k = record k {
    files = modify k.files i (λ g. record g { ref = 0; kind = fd_none });
    world = w;
  }

  shut-Shuts : (t : FileType) (f : File) (w : World) → f.kind ≡ t → Shuts f w (shut K t f w)
  unfolding shut
  shut-Shuts fd_none f w e = nothing e
  shut-Shuts fd_pipe f w e = a_pipe e
  shut-Shuts fd_inode f w e = an_inode e

  fileclose-cases :
      (k : Ftable World) (i : ℕ)
      → 0 < ref_at k.files i
      → ((1 < ref_at k.files i) × (fileclose K i k ≡ some (released i k)))
        ⊎ ((ref_at k.files i ≡ 1)
            × ((w : World) × Shuts (file_at k.files i) k.world w
                × (fileclose K i k ≡ some (closed i w k))))
  unfolding fileclose
  fileclose-cases k i lt =
      let e : ltb (ref_at k.files i) 1 ≡ false = ground arith in
      elim (Bool-cases (ltb 0 (ref_at k.files i - 1))) [
        | inl more ↦ inl (ground arith, rw (e, fileclose) (rw more refl))
        | inr last ↦
            let f = file_at k.files i in
            inr (
              ground arith,
              (
                shut K f.kind f k.world,
                shut-Shuts f.kind f k.world refl,
                rw (e, fileclose) (rw last refl),
              ),
            )
      ]

  step-Counted : {u v : Use World} → Step K u v → Counted K u → Counted K v
  step-Counted (allocates i u m e) c =
      let (lt, free, shape) = filealloc-some K u.table m i e in
      rw shape (
        Counted-change K u i (λ f. record f { ref = 1 }) (i ∷ u.held) u.table.world c lt
          (omega (arith, count-cons_self K i u.held, c i, free))
          (λ j ne. count-cons_ne K i j u.held ne))
  step-Counted (has_none u m e) c = rw (← filealloc-none K u.table m e) c
  step-Counted (duplicates i u m held e) c =
      let live : 0 < ref_at u.table.files i = omega (arith, c i, held) in
      let shape = some-inj (sym (filedup-some K u.table i live) ∙ e) in
      rw (← shape) (
        Counted-change K u i (λ f. record f { ref = f.ref + 1 }) (i ∷ u.held) u.table.world c
          (ref_at-inside K u.table.files i live) (omega (arith, count-cons_self K i u.held, c i))
          (λ j ne. count-cons_ne K i j u.held ne))
  step-Counted (closes i u m held e) c =
      let live : 0 < ref_at u.table.files i = omega (arith, c i, held) in
      let inside = ref_at-inside K u.table.files i live in
      let less = count-drop_ref_self K i u.held in
      elim (fileclose-cases u.table i live) [
        | inl (many, shape) ↦ rw (← some-inj (sym shape ∙ e)) (
            Counted-change K u i (λ g. record g { ref = g.ref - 1 }) (drop_ref i u.held)
              u.table.world c inside (omega (arith, less, c i))
              (λ j ne. count-drop_ref_ne K i j u.held ne))
        | inr (last, (w, shut_now, shape)) ↦ rw (← some-inj (sym shape ∙ e)) (
            Counted-change K u i (λ g. record g { ref = 0; kind = fd_none }) (drop_ref i u.held) w c
              inside (omega (arith, less, c i, last)) (λ j ne. count-drop_ref_ne K i j u.held ne))
      ]

  -- From a table without references, after any sequence of filealloc, filedup and fileclose in
  -- which only references that are held are duplicated and closed, the count of every entry is the
  -- number of references to it that are held.
  pub Reach-Counted : {u : Use World} → Reach K u → Counted K u
  Reach-Counted (boots k zero_refs) = zero_refs
  Reach-Counted (steps r s) = step-Counted s (Reach-Counted r)

  -- In a state that filealloc, and filedup and fileclose of held references, reach from a table
  -- without references, filealloc returns only entries to which no reference is held.
  pub filealloc_unheld :
      {u : Use World} (i : ℕ) (m : Ftable World)
      → Reach K u
      → filealloc u.table ≡ (some i, m)
      → count i u.held ≡ 0
  filealloc_unheld {u} i m r e =
      let (lt, free, shape) = filealloc-some K u.table m i e in sym (Reach-Counted r i) ∙ free

  -- In a state that filealloc, and filedup and fileclose of held references, reach from a table
  -- without references, filedup of a held reference does not panic. Nor does fileclose of one: if
  -- it is the last, the entry is freed and what is behind it is closed, a pipe by pipeclose of its end and
  -- an inode by iput in a transaction, and otherwise nothing but the count changes.
  pub held_lem :
      {u : Use World} (i : ℕ)
      → Reach K u
      → 0 < count i u.held
      → ((m : Ftable World) × (filedup i u.table ≡ some m))
        × (((1 < count i u.held) × (fileclose K i u.table ≡ some (released i u.table)))
            ⊎ ((count i u.held ≡ 1)
                × ((w : World) × Shuts (file_at u.table.files i) u.table.world w
                    × (fileclose K i u.table ≡ some (closed i w u.table)))))
  held_lem {u} i r held =
      let c = Reach-Counted r i in
      let live : 0 < ref_at u.table.files i = omega (arith, c, held) in
      (
        (_, filedup-some K u.table i live),
        elim (fileclose-cases u.table i live) [
          | inl (many, shape) ↦ inl (omega (arith, c, many), shape)
          | inr (last, shape) ↦ inr (sym c ∙ last, shape)
        ],
      )
