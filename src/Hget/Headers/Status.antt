-- ===== src/Hget/Headers/Status.antt =====
-- The status line in `read_headers` of board/hget/hget.c.
use esp32_p4_linux.Common.{
  ℕ, ◌+◌, ◌*◌, ◌≤◌, ◌≡◌, refl, ap, ◌∙◌, inl, inr, true, false, none, some, [], ◌∷◌, ◌++◌, ltb,
  Bytes, codes, negsuc, arith, append_assoc, Bool-cases, Option-cases,
}
use esp32_p4_linux.Hget.Exit.{done}
use esp32_p4_linux.Hget.CString.{
  Free, starts_with, from, before, c_str, atoi, digits_value, digit_value, starts_with-append,
  before-append_Free, Free-append, signed, skip_space, from-append,
}
use esp32_p4_linux.Hget.Headers.{Resp, split_at, fields_of, parse_headers, pieces}
use esp32_p4_linux.Hget.Headers.Loop.{blank}
use esp32_p4_linux.Hget.Headers.Apart.{header_lines-apart}

cr_digit : digit_value b'\r' ≡ none
unfolding digit_value
cr_digit = refl

digits_value-stops :
    (acc : ℕ) (s t : Bytes) → digits_value 10 acc (s ++ (b'\r' ∷ t)) ≡ digits_value 10 acc s
unfolding digits_value
digits_value-stops acc [] t = rw (cr_digit, digits_value) refl
digits_value-stops acc (c ∷ s) t = elim (Option-cases (digit_value c)) [
  | inl none_here ↦ rw (none_here, digits_value) refl
  | inr (d, is) ↦ elim (Bool-cases (ltb d 10)) [
    | inl small ↦ rw (is, digits_value, small, digits_value) (digits_value-stops (acc * 10 + d) s t)
    | inr large ↦ rw (is, digits_value, large, digits_value) refl
  ]
]

-- A header block as servers send it: `HTTP/`, the version, a space, and a status that starts with
-- a digit; no NUL.
pub record IsHead (head : Bytes) : Type 0 where
  pub version : Bytes
  pub digit : ℕ
  pub more : Bytes
  pub text : head ≡ codes "HTTP/" ++ (version ++ (b' ' ∷ digit ∷ more))
  pub version_ok : Free b' ' version
  pub is_digit : (b'0' ≤ digit) × (digit ≤ b'9')
  pub no_nul : Free 0 head

-- What the header block says, with the bytes that came behind it.
abbrev pub reads_as : (head : Bytes) → IsHead head → Bytes → Resp
reads_as head h pending = fields_of head (record {
  status = atoi (h.digit ∷ h.more);
  length = negsuc 0;
  chunked = false;
  location = [];
  pending = pending;
})

c_str-head :
    (head pending : Bytes)
    → Free 0 head
    → (t : Bytes) × (c_str (head ++ (blank ++ pending)) ≡ head ++ (b'\r' ∷ t))
unfolding c_str before
c_str-head head pending h = (_, before-append_Free 0 head (blank ++ pending) h)

from-head :
    (head t : Bytes) (h : IsHead head)
    → from b' ' (head ++ (b'\r' ∷ t)) ≡ b' ' ∷ h.digit ∷ (h.more ++ (b'\r' ∷ t))
from-head head t h =
    ap (λ x. from b' ' (x ++ (b'\r' ∷ t))) h.text
    ∙ ap (from b' ')
        (append_assoc (codes "HTTP/" ++ h.version) (b' ' ∷ h.digit ∷ h.more) (b'\r' ∷ t))
    ∙ from-append b' ' (codes "HTTP/" ++ h.version) (h.digit ∷ (h.more ++ (b'\r' ∷ t))) (
        Free-append b' ' (codes "HTTP/") h.version
          (
            λ q. omega arith,
            (λ q. omega arith, (λ q. omega arith, (λ q. omega arith, (λ q. omega arith, tt)))),
          )
          h.version_ok)

pub atoi-stops :
    (d : ℕ) (more t : Bytes)
    → (b'0' ≤ d) × (d ≤ b'9')
    → atoi (d ∷ (more ++ (b'\r' ∷ t))) ≡ atoi (d ∷ more)
unfolding atoi signed skip_space
atoi-stops d more t h = ground (arith, digits_value-stops 0 (d ∷ more) t)

starts-head : (head t : Bytes) (h : IsHead head) → starts_with (codes "HTTP/") (head ++ t) ≡ true
starts-head head t h =
    ap (λ x. starts_with (codes "HTTP/") (x ++ t)) h.text
    ∙ ap (starts_with (codes "HTTP/"))
        (append_assoc (codes "HTTP/") (h.version ++ (b' ' ∷ h.digit ∷ h.more)) t)
    ∙ starts_with-append (codes "HTTP/") _

-- The space found is the one of the status line, whatever comes behind the blank line.
pub parse_headers-head :
    (head pending : Bytes) (h : IsHead head)
    → split_at blank (head ++ (blank ++ pending)) ≡ some (head, pending)
    → parse_headers (head ++ (blank ++ pending)) ≡ done (reads_as head h pending)
unfolding parse_headers
parse_headers-head head pending h found =
    let (t, cut) = c_str-head head pending h.no_nul in
    rw
      (
        found,
        parse_headers,
        starts-head head (blank ++ pending) h,
        cut,
        from-head head t h,
        parse_headers,
        atoi-stops h.digit h.more t h.is_digit,
      )
      refl

pub reads_as-apart :
    (head pending : Bytes) (h : IsHead head)
    → reads_as head h pending ≡ record (reads_as head h []) { pending = pending }
unfolding fields_of
reads_as-apart head pending h =
    header_lines-apart
      (record {
        status = atoi (h.digit ∷ h.more);
        length = negsuc 0;
        chunked = false;
        location = [];
        pending = [];
      })
      pending (pieces (c_str head)).1
