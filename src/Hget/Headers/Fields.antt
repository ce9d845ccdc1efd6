-- ===== src/Hget/Headers/Fields.antt =====
-- The header fields that `read_headers` of board/hget/hget.c looks for, as they are written and what
-- they say, told without the code's own search for them.
use esp32_p4_linux.Common.{
  ℕ, ◌+◌, ◌≤◌, ◌<◌, ◌≡◌, ◌≢◌, refl, ap, ◌∙◌, ◌⊎◌, true, false, ◌&&◌, List, [], ◌∷◌, ◌++◌, All, ltb,
  ◌==◌, if◌then◌else◌, Bytes, codes, length, drop, arith, append-nil,
}
use esp32_p4_linux.Hget.CString.{Free, contains, atoll, c_str, before_Free}
use esp32_p4_linux.Hget.Url.{url_buf}
use esp32_p4_linux.Hget.Headers.{
  Resp, lower, ci_prefix, skip_ws, pieces, header_line, header_lines, fields_of,
}

-- A name in letters of either case; `p` is in small letters.
pub data Spells : Bytes → Bytes → Type 0 where
  spelled : Spells [] []
  same : {xs p : Bytes} (c : ℕ) → Spells xs p → Spells (c ∷ xs) (c ∷ p)
  capital :
      {xs p : Bytes} (x c : ℕ)
      → b'A' ≤ x
      → x ≤ b'Z'
      → x + 32 ≡ c
      → Spells xs p
      → Spells (x ∷ xs) (c ∷ p)

-- A line that does not begin with the name `p` in letters of either case.
pub data Differs : Bytes → Bytes → Type 0 where
  ends : {c : ℕ} {p : Bytes} → Differs [] (c ∷ p)
  here :
      {xs p : Bytes} (x c : ℕ)
      → (c < b'A') ⊎ (b'Z' < c)
      → x ≢ c
      → (b'A' ≤ x → x ≤ b'Z' → x + 32 ≢ c)
      → Differs (x ∷ xs) (c ∷ p)
  later : {xs p : Bytes} {x c : ℕ} → Differs xs p → Differs (x ∷ xs) (c ∷ p)

ci_prefix-Spells : {xs p : Bytes} (t : Bytes) → Spells xs p → ci_prefix (xs ++ t) p ≡ true
unfolding ci_prefix lower
ci_prefix-Spells [] spelled = refl
ci_prefix-Spells (y ∷ t) spelled = refl
ci_prefix-Spells t (same c h) = ground (arith, ci_prefix-Spells t h)
ci_prefix-Spells t (capital x c low high small h) = ground (arith, ci_prefix-Spells t h)

ci_prefix-Differs : {xs p : Bytes} → Differs xs p → ci_prefix xs p ≡ false
unfolding ci_prefix lower
ci_prefix-Differs ends = refl
ci_prefix-Differs (here x c small other raised) = ground arith
ci_prefix-Differs (later h) = ground (arith, ci_prefix-Differs h)

drop-Spells : {xs p : Bytes} (t : Bytes) → Spells xs p → drop (length p) (xs ++ t) ≡ t
drop-Spells t spelled = refl
drop-Spells t (same c h) = drop-Spells t h
drop-Spells t (capital x c low high small h) = drop-Spells t h

-- Blanks and tabs, and a value that does not begin with one.
abbrev pub Blanks : Bytes → Type 0
Blanks ws = All (λ x. (x ≡ b' ') ⊎ (x ≡ b'\t')) ws

abbrev pub IsValue : Bytes → Type 0
IsValue [] = Unit
IsValue (x ∷ s) = (x ≢ b' ') × (x ≢ b'\t')

skip_ws-Blanks : (ws value : Bytes) → Blanks ws → IsValue value → skip_ws (ws ++ value) ≡ value
unfolding skip_ws
skip_ws-Blanks [] [] h k = refl
skip_ws-Blanks [] (x ∷ s) h k = ground arith
skip_ws-Blanks (w ∷ ws) value h k = ground (arith, skip_ws-Blanks ws value h.1 k)

-- A header line: one of the three fields, its name, what stands before its value, and its value; or
-- any other line.
pub data Field : Type 0 where
  content_length transfer_encoding location : Bytes → Bytes → Bytes → Field
  other : Bytes → Field

abbrev pub written : Field → Bytes
written (content_length name ws value) = name ++ (ws ++ value)
written (transfer_encoding name ws value) = name ++ (ws ++ value)
written (location name ws value) = name ++ (ws ++ value)
written (other line) = line

abbrev pub IsNamed : Bytes → Bytes → Bytes → Bytes → Type 0
IsNamed p name ws value = Spells name p × (Blanks ws × IsValue value)

abbrev pub IsField : Field → Type 0
IsField (content_length name ws value) = IsNamed (codes "content-length:") name ws value
IsField (transfer_encoding name ws value) = IsNamed (codes "transfer-encoding:") name ws value
IsField (location name ws value) = IsNamed (codes "location:") name ws value
IsField (other line) =
    Differs line (codes "content-length:")
    × (Differs line (codes "transfer-encoding:") × Differs line (codes "location:"))

-- What a line says. A location that does not fit its buffer says nothing.
abbrev pub says : Field → Resp → Resp
says (content_length name ws value) r = record r { length = atoll value }
says (transfer_encoding name ws value) r =
    if contains (codes "chunked") value then record r { chunked = true } else r
says (location name ws value) r =
    if ltb (length value) url_buf then record r { location = value } else r
says (other line) r = r

abbrev pub says_all : List Field → Resp → Resp
says_all [] r = r
says_all (f ∷ fs) r = says_all fs (says f r)

-- The name of another field is told apart by its first letter.
apart :
    {xs p : Bytes} {c : ℕ} (t : Bytes) (d : ℕ) (q : Bytes)
    → Spells xs (c ∷ p)
    → (lower c == lower d) ≡ false
    → (b'a' ≤ c) × (c ≤ b'z')
    → ci_prefix (xs ++ t) (d ∷ q) ≡ false
unfolding ci_prefix lower
apart t d q (same c h) differs small = ground arith
apart t d q (capital x c' low high raised h) differs small = ground arith

t_not_c : (lower b't' == lower b'c') ≡ false
unfolding lower
t_not_c = refl

l_not_c : (lower b'l' == lower b'c') ≡ false
unfolding lower
l_not_c = refl

l_not_t : (lower b'l' == lower b't') ≡ false
unfolding lower
l_not_t = refl

header_line-says : (f : Field) (r : Resp) → IsField f → header_line r (written f) ≡ says f r
unfolding header_line
header_line-says (content_length name ws value) r (named, (blanks, is_value)) =
    rw
      (
        ci_prefix-Spells (ws ++ value) named,
        drop-Spells (ws ++ value) named,
        skip_ws-Blanks ws value blanks is_value,
      )
      refl
header_line-says (transfer_encoding name ws value) r (named, (blanks, is_value)) =
    rw
      (
        apart (ws ++ value) b'c' (codes "ontent-length:") named t_not_c (omega arith, omega arith),
        ci_prefix-Spells (ws ++ value) named,
        drop-Spells (ws ++ value) named,
        skip_ws-Blanks ws value blanks is_value,
      )
      refl
header_line-says (location name ws value) r (named, (blanks, is_value)) =
    rw
      (
        apart (ws ++ value) b'c' (codes "ontent-length:") named l_not_c (omega arith, omega arith),
        apart (ws ++ value) b't' (codes "ransfer-encoding:") named l_not_t
            (omega arith, omega arith),
        ci_prefix-Spells (ws ++ value) named,
        drop-Spells (ws ++ value) named,
        skip_ws-Blanks ws value blanks is_value,
      )
      refl
header_line-says (other line) r (no_length, (no_encoding, no_location)) =
    rw (ci_prefix-Differs no_length, ci_prefix-Differs no_encoding, ci_prefix-Differs no_location)
      refl

-- The lines as they follow each other, each behind a CRLF.
abbrev pub tail : List Field → Bytes
tail [] = []
tail (f ∷ fs) = b'\r' ∷ b'\n' ∷ (written f ++ tail fs)

abbrev lines_of : List Field → List Bytes
lines_of [] = []
lines_of (f ∷ fs) = written f ∷ lines_of fs

pieces-alone : (line : Bytes) → Free b'\r' line → pieces line ≡ (line, [])
unfolding pieces
pieces-alone [] h = refl
pieces-alone (x ∷ []) h = refl
pieces-alone (x ∷ y ∷ s) h =
    let no : (x == b'\r' && y == b'\n') ≡ false = ground arith in
    rw (no, pieces, pieces-alone (y ∷ s) h.1) refl

pieces-line :
    (line rest : Bytes)
    → Free b'\r' line
    → pieces (line ++ (b'\r' ∷ b'\n' ∷ rest)) ≡ (line, (pieces rest).0 ∷ (pieces rest).1)
unfolding pieces
pieces-line [] rest h = refl
pieces-line (x ∷ []) rest h =
    let no : (x == b'\r' && b'\r' == b'\n') ≡ false = ground arith in rw (no, pieces) refl
pieces-line (x ∷ y ∷ s) rest h =
    let no : (x == b'\r' && y == b'\n') ≡ false = ground arith in
    rw (no, pieces, pieces-line (y ∷ s) rest h.1) refl

pieces-tail :
    (line : Bytes) (fs : List Field)
    → Free b'\r' line
    → All (λ f. Free b'\r' (written f)) fs
    → pieces (line ++ tail fs) ≡ (line, lines_of fs)
pieces-tail line [] h k = rw (append-nil line) (pieces-alone line h)
pieces-tail line (f ∷ fs) h k =
    pieces-line line (written f ++ tail fs) h ∙ (rw (pieces-tail (written f) fs k.0 k.1) refl)

header_lines-says :
    (fs : List Field) (r : Resp) → All IsField fs → header_lines r (lines_of fs) ≡ says_all fs r
unfolding header_lines
header_lines-says [] r h = refl
header_lines-says (f ∷ fs) r h =
    ap (λ r'. header_lines r' (lines_of fs)) (header_line-says f r h.0)
    ∙ header_lines-says fs (says f r) h.1

-- Behind a line without a CR, the fields of a block say what they say one after the other.
pub fields_of-says :
    (line : Bytes) (fs : List Field) (r : Resp)
    → Free b'\r' line
    → All (λ f. Free b'\r' (written f)) fs
    → All IsField fs
    → Free 0 (line ++ tail fs)
    → fields_of (line ++ tail fs) r ≡ says_all fs r
unfolding fields_of c_str
fields_of-says line fs r h k named no_nul =
    rw (before_Free 0 (line ++ tail fs) no_nul, pieces-tail line fs h k)
      (header_lines-says fs r named)
