-- ===== src/Hget/Headers/Apart.antt =====
-- The header lines of board/hget/hget.c and the bytes of the body that came with them.
use esp32_p4_linux.Common.{
  ◌≡◌, refl, ap, ◌∙◌, inl, inr, List, [], ◌∷◌, ltb, Bytes, codes, length, drop, arith, Bool-cases,
}
use esp32_p4_linux.Hget.CString.{contains, c_str}
use esp32_p4_linux.Hget.Url.{url_buf}
use esp32_p4_linux.Hget.Headers.{
  Resp, ci_prefix, skip_ws, header_line, header_lines, fields_of, pieces,
}

header_line-pending : (r : Resp) (line : Bytes) → (header_line r line).pending ≡ r.pending
unfolding header_line
header_line-pending r line = ground arith

header_lines-pending : (r : Resp) (ls : List Bytes) → (header_lines r ls).pending ≡ r.pending
unfolding header_lines
header_lines-pending r [] = refl
header_lines-pending r (l ∷ ls) =
    header_lines-pending (header_line r l) ls ∙ header_line-pending r l

-- The pending bytes have no part in what the lines set.
header_line-apart :
    (r : Resp) (pending line : Bytes)
    → header_line (record r { pending = pending }) line
      ≡ record (header_line r line) { pending = pending }
unfolding header_line
header_line-apart r pending line = elim (Bool-cases (ci_prefix line (codes "content-length:"))) [
  | inl len ↦ rw len refl
  | inr not_len ↦ elim (Bool-cases (ci_prefix line (codes "transfer-encoding:"))) [
    | inl enc ↦
        rw (not_len, enc)
          (elim (Bool-cases (contains (codes "chunked") (skip_ws (drop 18 line)))) [
            | inl a ↦ rw a refl
            | inr b ↦ rw b refl
          ])
    | inr not_enc ↦ elim (Bool-cases (ci_prefix line (codes "location:"))) [
      | inl loc ↦
          rw (not_len, not_enc, loc)
            (elim (Bool-cases (ltb (length (skip_ws (drop 9 line))) url_buf)) [
              | inl a ↦ rw a refl
              | inr b ↦ rw b refl
            ])
      | inr other ↦ rw (not_len, not_enc, other) refl
    ]
  ]
]

pub header_lines-apart :
    (r : Resp) (pending : Bytes) (lines : List Bytes)
    → header_lines (record r { pending = pending }) lines
      ≡ record (header_lines r lines) { pending = pending }
unfolding header_lines
header_lines-apart r pending [] = refl
header_lines-apart r pending (l ∷ lines) =
    ap (λ r'. header_lines r' lines) (header_line-apart r pending l)
    ∙ header_lines-apart (header_line r l) pending lines

pub pending-fields_of : (head : Bytes) (r : Resp) → (fields_of head r).pending ≡ r.pending
unfolding fields_of
pending-fields_of head r = header_lines-pending r (pieces (c_str head)).1
