-- ===== src/Text.antt =====
-- Numbers as text: printf of the user library (Source Code/printf.c), and atoi and atoo
-- (Source Code/ulib.c). An int is its 32-bit word, and int arithmetic wraps. A string is the list
-- of its bytes before the NUL.
pub mod Digits
pub mod Numbers
pub mod Buffer
use tugas_sistem_operasi.Base.{
  ℕ, zero, suc, ◌+◌, ◌-◌, ◌*◌, ◌/◌, ◌%◌, ◌^◌, Bool, true, false, ◌&&◌, ◌||◌, List, [], ◌∷◌, ◌++◌,
  if◌then◌else◌, ◌==◌, leb,
}

abbrev pub uint : ℕ → ℕ
uint n = n % 2 ^ 32

-- "0123456789ABCDEF"[d].
abbrev pub digit : ℕ → ℕ
digit d = if leb d 9 then b'0' + d else b'A' + (d - 10)

-- The do-while loop of printint: the digits into buf, the lowest first. A word has at most 32
-- digits, so 32 rounds are enough.
unfoldable pub digits : (rounds base x : ℕ) → List ℕ
digits zero base x = []
digits (suc n) base x =
    let rest = digits n base (x / base) in digit (x % base) ∷ (if x / base == 0 then [] else rest)

-- while(--i >= 0) putc(fd, buf[i]), before what is put later.
unfoldable pub put_back : List ℕ → List ℕ → List ℕ
put_back [] later = later
put_back (b ∷ buf) later = put_back buf (b ∷ later)

-- The bytes that printint puts.
unfoldable pub printint : (base : ℕ) → (sgn : Bool) → (xx : ℕ) → List ℕ
unfolding digits put_back
printint base sgn xx =
    let neg = sgn && leb (2 ^ 31) xx in
    let x = if neg then uint (2 ^ 32 - xx) else xx in
    put_back (digits 32 base x ++ (if neg then b'-' ∷ [] else [])) []

-- "(null)".
abbrev pub null_text : List ℕ
null_text = b'(' ∷ b'n' ∷ b'u' ∷ b'l' ∷ b'l' ∷ b')' ∷ []

-- The bytes that printf puts from a place of the format on: `text` is the strings in memory, `ap`
-- the words above the format on the stack, and `percent` the state behind a '%'.
unfoldable pub print_from : (text : ℕ → List ℕ) → (percent : Bool) → (ap : ℕ → ℕ) → List ℕ → List ℕ
unfolding printint
print_from text percent ap [] = []
print_from text false ap (c ∷ cs) =
    let plain = print_from text false ap cs in
    let behind = print_from text true ap cs in if c == b'%' then behind else c ∷ plain
print_from text true ap (c ∷ cs) =
    let same = print_from text false ap cs in
    let rest = print_from text false (λ i. ap (i + 1)) cs in
    if c == b'd'
    then printint 10 true (ap 0) ++ rest
    else if (c == b'x') || (c == b'p')
    then printint 16 false (ap 0) ++ rest
    else if c == b's'
    then (if ap 0 == 0 then null_text else text (ap 0)) ++ rest
    else if c == b'c'
    then (ap 0 % 256) ∷ rest
    else if c == b'%'
    then c ∷ same
    else b'%' ∷ c ∷ same

abbrev pub printf : (ℕ → List ℕ) → List ℕ → (ℕ → ℕ) → List ℕ
printf text fmt ap = print_from text false ap fmt

-- while (*s == ' ') s++.
unfoldable pub skip_spaces : List ℕ → List ℕ
skip_spaces [] = []
skip_spaces (c ∷ cs) = let rest = skip_spaces cs in if c == b' ' then rest else c ∷ cs

-- while('0' <= *s && *s <= '0' + base - 1) n = n*base + *s++ - '0'.
unfoldable pub scan_digits : (base n : ℕ) → List ℕ → ℕ
scan_digits base n [] = n
scan_digits base n (c ∷ cs) =
    let rest = scan_digits base (uint (n * base + (c - b'0'))) cs in
    if leb b'0' c && leb c (b'0' + base - 1) then rest else n

-- The sign, and the digits behind it.
unfoldable pub signed : (base : ℕ) → List ℕ → ℕ
unfolding scan_digits
signed base [] = 0
signed base (c ∷ cs) =
    if c == b'-'
    then uint (2 ^ 32 - scan_digits base 0 cs)
    else if c == b'+'
    then scan_digits base 0 cs
    else scan_digits base 0 (c ∷ cs)

unfoldable pub atoi : List ℕ → ℕ
unfolding skip_spaces signed
atoi s = signed 10 (skip_spaces s)

unfoldable pub atoo : List ℕ → ℕ
unfolding skip_spaces signed
atoo s = signed 8 (skip_spaces s)
