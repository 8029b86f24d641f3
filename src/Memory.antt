-- ===== src/Memory.antt =====
-- The byte strings of the kernel (Source Code/string.c) and of the user library
-- (Source Code/ulib.c), on a memory that maps an address to a byte. An array does not wrap around
-- the address space, so a pointer that steps through it is a natural number.
pub mod Copy
pub mod Fill
pub mod Compare
pub mod Strings
use tugas_sistem_operasi.Base.{
  ℕ, zero, suc, ◌+◌, ◌-◌, ◌*◌, ◌/◌, ◌%◌, ◌^◌, Bool, true, false, ◌&&◌, not, List, [], ◌∷◌,
  if◌then◌else◌, ◌==◌, ltb, ℤ, pos, sub_ℕ,
}

abbrev pub Memory : Type 0
Memory = ℕ → ℕ

-- *a = b.
abbrev pub poke : ℕ → ℕ → Memory → Memory
poke a b m j = if a == j then b else m j

-- The instruction rep stosb: `n` bytes.
unfoldable pub stosb : ℕ → ℕ → ℕ → Memory → Memory
stosb a b zero m = m
stosb a b (suc n) m = stosb (a + 1) b n (poke a (b % 256) m)

-- A 32-bit word, its lowest byte first.
abbrev pub poke_word : ℕ → ℕ → Memory → Memory
poke_word a w m =
    poke (a + 3) (w / 2 ^ 24 % 256)
      (poke (a + 2) (w / 2 ^ 16 % 256) (poke (a + 1) (w / 2 ^ 8 % 256) (poke a (w % 256) m)))

-- The instruction rep stosl: `n` words.
unfoldable pub stosl : ℕ → ℕ → ℕ → Memory → Memory
stosl a w zero m = m
stosl a w (suc n) m = stosl (a + 4) w n (poke_word a w m)

-- memset of the kernel; the bits of the four terms do not overlap.
unfoldable pub memset : ℕ → ℕ → ℕ → Memory → Memory
unfolding stosb stosl
memset dst c n m =
    let b = c % 256 in
    if (dst % 4 == 0) && (n % 4 == 0)
    then stosl dst (b * 2 ^ 24 + b * 2 ^ 16 + b * 2 ^ 8 + b) (n / 4) m
    else stosb dst c n m

-- while(n-- > 0) *d++ = *s++.
unfoldable pub copy_up : ℕ → ℕ → ℕ → Memory → Memory
copy_up d s zero m = m
copy_up d s (suc n) m = copy_up (d + 1) (s + 1) n (poke d (m s) m)

-- while(n-- > 0) *--d = *--s.
unfoldable pub copy_down : ℕ → ℕ → ℕ → Memory → Memory
copy_down d s zero m = m
copy_down d s (suc n) m = copy_down (d - 1) (s - 1) n (poke (d - 1) (m (s - 1)) m)

unfoldable pub memmove : ℕ → ℕ → ℕ → Memory → Memory
memmove d s n m =
    if ltb s d && ltb d (s + n) then copy_down (d + n) (s + n) n m else copy_up d s n m

unfoldable pub memcmp : ℕ → ℕ → ℕ → Memory → ℤ
memcmp p q zero m = pos 0
memcmp p q (suc n) m =
    let rest = memcmp (p + 1) (q + 1) n m in if m p == m q then rest else sub_ℕ (m p) (m q)

unfoldable pub strncmp : ℕ → ℕ → ℕ → Memory → ℤ
strncmp p q zero m = pos 0
strncmp p q (suc n) m =
    let rest = strncmp (p + 1) (q + 1) n m in
    if not (m p == 0) && (m p == m q) then rest else sub_ℕ (m p) (m q)

-- The second loop of strncpy.
unfoldable pub pad : ℕ → ℕ → Memory → Memory
pad s zero m = m
pad s (suc n) m = pad (s + 1) n (poke s 0 m)

-- strncpy; a count of 0 or less copies nothing.
unfoldable pub strncpy : ℕ → ℕ → ℕ → Memory → Memory
unfolding pad
strncpy s t zero m = m
strncpy s t (suc n) m =
    let copied = poke s (m t) m in
    let rest = strncpy (s + 1) (t + 1) n copied in if m t == 0 then pad (s + 1) n copied else rest

-- The loop of safestrcpy, with the count that is left after --n, and *s = 0 behind it.
unfoldable pub safe_loop : ℕ → ℕ → ℕ → Memory → Memory
safe_loop s t zero m = poke s 0 m
safe_loop s t (suc n) m =
    let copied = poke s (m t) m in
    let rest = safe_loop (s + 1) (t + 1) n copied in
    if m t == 0 then poke (s + 1) 0 copied else rest

unfoldable pub safestrcpy : ℕ → ℕ → ℕ → Memory → Memory
unfolding safe_loop
safestrcpy s t zero m = m
safestrcpy s t (suc n) m = safe_loop s t n m

-- The loop of strlen, for a string that ends within `fuel` bytes of `s`.
unfoldable pub strlen : (fuel : ℕ) → ℕ → Memory → ℕ
strlen zero s m = 0
strlen (suc fuel) s m = let rest = strlen fuel (s + 1) m in if m s == 0 then 0 else 1 + rest
