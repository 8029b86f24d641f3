-- ===== src/Fs/Iget.antt =====
-- iget gives one entry of the cache to each inode.
use tugas_sistem_operasi.Base.{
  ℕ, zero, suc, ◌+◌, ◌<◌, ◌≡◌, refl, ◌∙◌, ap, sym, ◌≢◌, ◌⊎◌, inl, inr, Option, none, some, false,
  List, [], ◌∷◌, arith, ◌==◌, length, get_elem?-modify_ne, modify, Bool-cases,
}
use tugas_sistem_operasi.Fs.Inode.{Inode}
use tugas_sistem_operasi.Fs.Icache.{
  entry_of, inode_at, Search, cached, vacant, full, remember, at_end, is_cached, search_from, iget,
}

-- An entry in use for an inode.
pub record IsFor (dev inum : ℕ) (ip : Inode) : Type 0 where
  pub in_use : 0 < ip.ref
  pub same_dev : ip.dev ≡ dev
  pub same_inum : ip.inum ≡ inum

-- No two entries in use are for one inode.
abbrev pub Unique : List Inode → Type 0
Unique ips =
    (i j dev inum : ℕ) → IsFor dev inum (inode_at ips i) → IsFor dev inum (inode_at ips j) → i ≡ j

-- The results of the search through a list.
data Searched (dev inum i : ℕ) (empty : Option ℕ) (ips : List Inode) : Search → Type 0 where
  hit :
      (k r : ℕ)
      → r ≡ i + k
      → k < length ips
      → IsFor dev inum (inode_at ips k)
      → Searched dev inum i empty ips (cached r)
  seen :
      (j : ℕ)
      → empty ≡ some j
      → ((k : ℕ) → k < length ips → ¬ IsFor dev inum (inode_at ips k))
      → Searched dev inum i empty ips (vacant j)
  new :
      (k r : ℕ)
      → r ≡ i + k
      → empty ≡ none
      → k < length ips
      → (inode_at ips k).ref ≡ 0
      → ((k : ℕ) → k < length ips → ¬ IsFor dev inum (inode_at ips k))
      → Searched dev inum i empty ips (vacant r)
  exhausted :
      empty ≡ none
      → ((k : ℕ) → k < length ips → 0 < (inode_at ips k).ref)
      → ((k : ℕ) → k < length ips → ¬ IsFor dev inum (inode_at ips k))
      → Searched dev inum i empty ips full

none-IsFor :
    (dev inum : ℕ) (ip : Inode) (ips : List Inode)
    → is_cached dev inum ip ≡ false
    → ((k : ℕ) → k < length ips → ¬ IsFor dev inum (inode_at ips k))
    → (k : ℕ) → k < length (ip ∷ ips)
    → ¬ IsFor dev inum (inode_at (ip ∷ ips) k)
none-IsFor dev inum ip ips e rest zero lt h = ground (arith, h.in_use, h.same_dev, h.same_inum)
none-IsFor dev inum ip ips e rest (suc k) lt h = rest k (omega arith) h

remember-some :
    (empty : Option ℕ) (i ref j : ℕ)
    → remember empty i ref ≡ some j
    → (empty ≡ some j) ⊎ ((empty ≡ none) × (ref ≡ 0) × (i ≡ j))
remember-some none i ref j e = ground arith
remember-some (some k) i ref j e = inl e

remember-none :
    (empty : Option ℕ) (i ref : ℕ) → remember empty i ref ≡ none → (empty ≡ none) × (0 < ref)
remember-none none i ref e = ground arith
remember-none (some k) i ref e = absurd (cc e)

-- One entry more in front.
Searched-cons :
    (dev inum i : ℕ) (empty : Option ℕ) (ip : Inode) (ips : List Inode)
    → is_cached dev inum ip ≡ false
    → (s : Search) → Searched dev inum (suc i) (remember empty i ip.ref) ips s
    → Searched dev inum i empty (ip ∷ ips) s
Searched-cons dev inum i empty ip ips e _ (hit k r at lt h) =
    hit (suc k) r (omega arith) (omega arith) h
Searched-cons dev inum i empty ip ips e _ (seen j eq rest) =
    elim (remember-some empty i ip.ref j eq) [
      | inl old ↦ seen j old (none-IsFor dev inum ip ips e rest)
      | inr (first, free, at) ↦
          new 0 j (omega arith) first (omega arith) free (none-IsFor dev inum ip ips e rest)
    ]
Searched-cons dev inum i empty ip ips e _ (new k r at eq lt z rest) =
    new (suc k) r (omega arith) (remember-none empty i ip.ref eq).0 (omega arith) z
      (none-IsFor dev inum ip ips e rest)
Searched-cons dev inum i empty ip ips e _ (exhausted eq all rest) =
    let (first, busy) = remember-none empty i ip.ref eq in
    exhausted first (all_busy busy) (none-IsFor dev inum ip ips e rest)
  where
    all_busy : 0 < ip.ref → (k : ℕ) → k < length (ip ∷ ips) → 0 < (inode_at (ip ∷ ips) k).ref
    all_busy busy zero lt = busy
    all_busy busy (suc k) lt = all k (omega arith)

at_end-Searched : (dev inum i : ℕ) (empty : Option ℕ) → Searched dev inum i empty [] (at_end empty)
at_end-Searched dev inum i none =
    exhausted refl (λ k lt. absurd (omega arith)) (λ k lt. absurd (omega arith))
at_end-Searched dev inum i (some j) = seen j refl (λ k lt. absurd (omega arith))

search_from-Searched :
    (dev inum i : ℕ) (empty : Option ℕ) (ips : List Inode)
    → Searched dev inum i empty ips (search_from dev inum i empty ips)
unfolding search_from
search_from-Searched dev inum i empty [] = at_end-Searched dev inum i empty
search_from-Searched dev inum i empty (ip ∷ ips) = elim (Bool-cases (is_cached dev inum ip)) [
  | inl here ↦ rw (here, search_from) (hit 0 i (omega arith) (omega arith) (ground arith))
  | inr other ↦
      rw (other, search_from)
        (Searched-cons dev inum i empty ip ips other
          (search_from dev inum (suc i) (remember empty i ip.ref) ips)
          (search_from-Searched dev inum (suc i) (remember empty i ip.ref) ips))
]

inode_at-modify_ne :
    (ips : List Inode) (i j : ℕ) (f : Inode → Inode)
    → i ≢ j
    → inode_at (modify ips i f) j ≡ inode_at ips j
inode_at-modify_ne ips i j f ne = ap entry_of (get_elem?-modify_ne ips i j f ne)

inode_at-modify_self :
    (ips : List Inode) (i : ℕ) (f : Inode → Inode)
    → i < length ips
    → inode_at (modify ips i f) i ≡ f (inode_at ips i)
inode_at-modify_self [] i f lt = absurd (omega arith)
inode_at-modify_self (ip ∷ ips) zero f lt = refl
inode_at-modify_self (ip ∷ ips) (suc i) f lt = inode_at-modify_self ips i f (omega arith)

-- An entry in use is in the array.
inside : (ips : List Inode) (k dev inum : ℕ) → IsFor dev inum (inode_at ips k) → k < length ips
inside [] k dev inum h = absurd (omega (arith, h.in_use))
inside (ip ∷ ips) zero dev inum h = omega arith
inside (ip ∷ ips) (suc k) dev inum h = omega (arith, inside ips k dev inum h)

-- An entry is for one inode.
IsFor-same :
    (dev inum dv im : ℕ) (ip jp : Inode)
    → IsFor dev inum ip
    → IsFor dv im ip
    → IsFor dv im jp
    → IsFor dev inum jp
IsFor-same dev inum dv im ip jp g h k = record {
  in_use = k.in_use;
  same_dev = k.same_dev ∙ sym h.same_dev ∙ g.same_dev;
  same_inum = k.same_inum ∙ sym h.same_inum ∙ g.same_inum;
}

-- Entry `i` becomes one for the inode, and no other was.
Unique-modify :
    (ips : List Inode) (i dev inum : ℕ) (f : Inode → Inode)
    → Unique ips
    → i < length ips
    → IsFor dev inum (f (inode_at ips i))
    → ((k : ℕ) → i ≢ k → ¬ IsFor dev inum (inode_at ips k))
    → Unique (modify ips i f)
Unique-modify ips i dev inum f u lt now others a b dv im ha hb = elim (Bool-cases (i == a)) [
  | inl ia ↦ elim (Bool-cases (i == b)) [
    | inl ib ↦ ground arith
    | inr nb ↦
        absurd (clash b (ground arith) (changed a (ground arith) ha) (kept b (ground arith) hb))
  ]
  | inr na ↦ elim (Bool-cases (i == b)) [
    | inl ib ↦
        absurd (clash a (ground arith) (changed b (ground arith) hb) (kept a (ground arith) ha))
    | inr nb ↦ u a b dv im (kept a (ground arith) ha) (kept b (ground arith) hb)
  ]
]
  where
    changed :
        (k : ℕ)
        → i ≡ k
        → IsFor dv im (inode_at (modify ips i f) k)
        → IsFor dv im (f (inode_at ips i))
    changed k e h = rw (inode_at-modify_self ips i f lt) at (rw (← e) at h)

    kept :
        (k : ℕ) → i ≢ k → IsFor dv im (inode_at (modify ips i f) k) → IsFor dv im (inode_at ips k)
    kept k ne h = rw (inode_at-modify_ne ips i k f ne) at h

    clash : (k : ℕ) → i ≢ k → IsFor dv im (f (inode_at ips i)) → ¬ IsFor dv im (inode_at ips k)
    clash k ne h g =
        others k ne (IsFor-same dev inum dv im (f (inode_at ips i)) (inode_at ips k) now h g)

-- The results of iget.
pub data Gets (dev inum : ℕ) (ips : List Inode) : Option (ℕ × List Inode) → Type 0 where
  no_entry :
      ((k : ℕ) → k < length ips → 0 < (inode_at ips k).ref)
      → ((k : ℕ) → k < length ips → ¬ IsFor dev inum (inode_at ips k))
      → Gets dev inum ips none
  gets :
      (i : ℕ) (jps : List Inode)
      → IsFor dev inum (inode_at jps i)
      → (IsFor dev inum (inode_at ips i)
          × (inode_at jps i ≡ record (inode_at ips i) { ref = (inode_at ips i).ref + 1 }))
        ⊎ (((inode_at ips i).ref ≡ 0)
            × ((inode_at jps i).ref ≡ 1)
            × ((inode_at jps i).valid ≡ false))
      → ((j : ℕ) → i ≢ j → inode_at jps j ≡ inode_at ips j)
      → Unique jps
      → Gets dev inum ips (some (i, jps))

module _ (dev inum : ℕ) (ips : List Inode) (u : Unique ips) where
  hit-Gets :
      (i : ℕ)
      → i < length ips
      → IsFor dev inum (inode_at ips i)
      → Gets dev inum ips (some (i, modify ips i (λ ip. record ip { ref = ip.ref + 1 })))
  hit-Gets i lt h =
      let f = λ (ip : Inode). record ip { ref = ip.ref + 1 } in
      let now : IsFor dev inum (f (inode_at ips i)) = record {
        in_use = omega arith;
        same_dev = h.same_dev;
        same_inum = h.same_inum;
      } in
      let at = inode_at-modify_self ips i f lt in
      gets i (modify ips i f) (rw at now) (inl (h, at)) (λ j ne. inode_at-modify_ne ips i j f ne)
        (Unique-modify ips i dev inum f u lt now (λ k ne g. ne (u i k dev inum h g)))

  vacant-Gets :
      (i : ℕ)
      → i < length ips
      → (inode_at ips i).ref ≡ 0
      → ((k : ℕ) → k < length ips → ¬ IsFor dev inum (inode_at ips k))
      → Gets dev inum ips (
          some
            (i, modify ips i (λ ip. record ip { dev = dev; inum = inum; ref = 1; valid = false })))
  vacant-Gets i lt free absent =
      let f = λ (ip : Inode). record ip { dev = dev; inum = inum; ref = 1; valid = false } in
      let now : IsFor dev inum (f (inode_at ips i)) = record {
        in_use = omega arith;
        same_dev = refl;
        same_inum = refl;
      } in
      let at = inode_at-modify_self ips i f lt in
      gets i (modify ips i f) (rw at now)
        (inr (free, ap (λ (ip : Inode). ip.ref) at, ap (λ (ip : Inode). ip.valid) at))
        (λ j ne. inode_at-modify_ne ips i j f ne)
        (Unique-modify ips i dev inum f u lt now (λ k ne g. absent k (inside ips k dev inum g) g))

  of_search :
      (s : Search)
      → Searched dev inum 0 none ips s
      → Gets dev inum ips (elim s [
        | cached i ↦ some (i, modify ips i (λ ip. record ip { ref = ip.ref + 1 }))
        | vacant i ↦
            some
              (i, modify ips i (λ ip. record ip { dev = dev; inum = inum; ref = 1; valid = false }))
        | full ↦ none
      ])
  of_search _ (hit k r at lt h) =
      let e : k ≡ r = omega arith in hit-Gets r (omega arith) (rw e at h)
  of_search _ (seen j eq rest) = absurd (cc eq)
  of_search _ (new k r at eq lt z rest) =
      let e : k ≡ r = omega arith in vacant-Gets r (omega arith) (rw e at z) rest
  of_search _ (exhausted eq all rest) = no_entry all rest

  -- While no two entries in use are for one inode, iget keeps it so. It returns the entry in use for the
  -- inode with one reference more; if there is none, a free entry, which it makes one for the inode that
  -- is not valid and has one reference. No other entry changes. It panics only if all entries are in use
  -- for other inodes.
  pub iget-Gets : Gets dev inum ips (iget dev inum ips)
  unfolding iget
  iget-Gets = of_search (search_from dev inum 0 none ips) (search_from-Searched dev inum 0 none ips)
