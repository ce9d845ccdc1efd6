-- ===== src/Hget/CString.antt =====
-- What board/hget/hget.c uses of <string.h> and <stdlib.h>. A string is the list of its bytes
-- before the terminator; a null pointer and the end of the string are both the empty list.
use esp32_p4_linux.Common.{
  ℕ, ◌+◌, ◌-◌, ◌*◌, ◌^◌, ◌≤◌, min, ◌≡◌, ◌≢◌, refl, arith, Bool, true, false, ◌&&◌, ◌||◌, Option,
  none, some, [], ◌∷◌, ◌++◌, ltb, leb, ◌==◌, if◌then◌else◌, Bytes, codes, ℤ, pos, sub_ℕ, length,
  drop, All,
}

-- `strncmp(s, p, strlen(p)) == 0`
unfoldable pub starts_with : Bytes → Bytes → Bool
starts_with [] s = true
starts_with (c ∷ p) [] = false
starts_with (c ∷ p) (x ∷ s) = x == c && starts_with p s

-- `strchr(s, c)`, and what stands before it.
unfoldable pub from : ℕ → Bytes → Bytes
from c [] = []
from c (x ∷ s) = if x == c then x ∷ s else from c s

unfoldable pub before : ℕ → Bytes → Bytes
before c [] = []
before c (x ∷ s) = if x == c then [] else x ∷ before c s

-- The string that starts at the front of a buffer.
unfoldable pub c_str : Bytes → Bytes
unfolding before
c_str = before 0

-- `strstr(s, p) != NULL`
unfoldable pub contains : Bytes → Bytes → Bool
unfolding starts_with
contains p [] = starts_with p []
contains p (x ∷ s) = starts_with p (x ∷ s) || contains p s

-- `isspace`
abbrev is_space : ℕ → Bool
is_space c = c == 32 || leb 9 c && leb c 13

unfoldable pub skip_space : Bytes → Bytes
skip_space [] = []
skip_space (c ∷ s) = if is_space c then skip_space s else c ∷ s

unfoldable pub digit_value : ℕ → Option ℕ
digit_value c =
    if leb b'0' c && leb c b'9'
    then some (c - b'0')
    else if leb b'a' c && leb c b'z'
    then some (c - b'a' + 10)
    else if leb b'A' c && leb c b'Z'
    then some (c - b'A' + 10)
    else none

-- The value of the digits at the front, in the given base.
unfoldable pub digits_value : ℕ → ℕ → Bytes → ℕ
digits_value base acc [] = acc
digits_value base acc (c ∷ s) = elim (digit_value c) [
  | none ↦ acc
  | some d ↦ elim (ltb d base) [ true ↦ digits_value base (acc * base + d) s | false ↦ acc ]
]

-- A sign, and the digits behind it; `limit` is the largest value of the type, at which the
-- result saturates.
unfoldable pub signed : ℕ → (Bytes → ℕ) → Bytes → ℤ
signed limit value [] = pos 0
signed limit value (c ∷ s) =
    if c == b'-'
    then sub_ℕ 0 (min (value s) (limit + 1))
    else if c == b'+'
    then pos (min (value s) limit)
    else pos (min (value (c ∷ s)) limit)

-- The optional `0x` of base 16.
unfoldable pub hex_value : Bytes → ℕ
unfolding starts_with digits_value digit_value
hex_value s =
    if starts_with (codes "0x") s || starts_with (codes "0X") s
    then digits_value 16 0 (drop 2 s)
    else digits_value 16 0 s

-- `strtol(s, NULL, 16)` for the 32-bit `long` of the board
unfoldable pub strtol16 : Bytes → ℤ
unfolding signed skip_space digits_value digit_value hex_value
strtol16 s = signed (2 ^ 31 - 1) hex_value (skip_space s)

-- `atoi` and `atoll`, saturating as the C library's `strtol` and `strtoll`
unfoldable pub atoi : Bytes → ℤ
unfolding signed skip_space digits_value digit_value
atoi s = signed (2 ^ 31 - 1) (digits_value 10 0) (skip_space s)

unfoldable pub atoll : Bytes → ℤ
unfolding signed skip_space digits_value digit_value
atoll s = signed (2 ^ 63 - 1) (digits_value 10 0) (skip_space s)

-- A string without the byte `c`.
abbrev pub Free : ℕ → Bytes → Type 0
Free c s = All (λ x. x ≢ c) s

pub from-append : (c : ℕ) (s t : Bytes) → Free c s → from c (s ++ (c ∷ t)) ≡ c ∷ t
unfolding from
from-append c [] t h = ground arith
from-append c (x ∷ s) t h = ground (arith, from-append c s t)

pub before-append : (c : ℕ) (s t : Bytes) → Free c s → before c (s ++ (c ∷ t)) ≡ s
unfolding before
before-append c [] t h = ground arith
before-append c (x ∷ s) t h = ground (arith, before-append c s t)

pub from_Free : (c : ℕ) (s : Bytes) → Free c s → from c s ≡ []
unfolding from
from_Free c [] h = refl
from_Free c (x ∷ s) h = ground (arith, from_Free c s)

pub before_Free : (c : ℕ) (s : Bytes) → Free c s → before c s ≡ s
unfolding before
before_Free c [] h = refl
before_Free c (x ∷ s) h = ground (arith, before_Free c s)

pub before-Free : (c : ℕ) (s : Bytes) → Free c (before c s)
unfolding before
before-Free c [] = tt
before-Free c (x ∷ s) = ground (arith, before-Free c s)

-- The byte at which `from` stops is the byte searched for.
pub from-cases :
    (c : ℕ) (s : Bytes) {x : ℕ} {t : Bytes}
    → from c s ≡ x ∷ t
    → (x ≡ c) × (before c s ++ (x ∷ t) ≡ s)
unfolding from before
from-cases c [] h = cc
from-cases c (y ∷ s) {x} {t} h = ground (arith, from-cases c s {x = x} {t = t})

pub length-before : (c : ℕ) (s : Bytes) → length (before c s) ≤ length s
unfolding before
length-before c [] = omega arith
length-before c (x ∷ s) = ground (arith, length-before c s)

pub before-cons : (c : ℕ) (s : Bytes) → from c s ≡ [] → before c s ≡ s
unfolding from before
before-cons c [] h = refl
before-cons c (x ∷ s) h = ground (arith, before-cons c s)

pub starts_with-append : (p s : Bytes) → starts_with p (p ++ s) ≡ true
unfolding starts_with
starts_with-append [] s = refl
starts_with-append (c ∷ p) s = ground (arith, starts_with-append p s)

pub starts_with-eq : (p s : Bytes) → starts_with p s ≡ true → s ≡ p ++ drop (length p) s
unfolding starts_with
starts_with-eq [] s h = refl
starts_with-eq (c ∷ p) [] h = cc
starts_with-eq (c ∷ p) (x ∷ s) h = ground (arith, starts_with-eq p s)

pub before-append-from : (c : ℕ) (s : Bytes) → before c s ++ from c s ≡ s
unfolding before from
before-append-from c [] = refl
before-append-from c (x ∷ s) = ground (arith, before-append-from c s)

pub Free-of_from : (c : ℕ) (s : Bytes) → from c s ≡ [] → Free c s
Free-of_from c s h = rw (before-cons c s h) at (before-Free c s)

pub before-append_Free : (c : ℕ) (s t : Bytes) → Free c s → before c (s ++ t) ≡ s ++ before c t
unfolding before
before-append_Free c [] t h = refl
before-append_Free c (x ∷ s) t h = ground (arith, before-append_Free c s t)

pub Free-append : (c : ℕ) (s t : Bytes) → Free c s → Free c t → Free c (s ++ t)
Free-append c [] t hs ht = ht
Free-append c (x ∷ s) t hs ht = (hs.0, Free-append c s t hs.1 ht)
