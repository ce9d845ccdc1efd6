-- ===== src/Hget/Headers.antt =====
-- `ci_prefix`, `skip_ws` and `read_headers` of board/hget/hget.c. A header line is the bytes
-- between two CRLF of the header block, up to its first NUL.
pub mod Search
pub mod Loop
pub mod Apart
pub mod Status
pub mod Fields
pub mod Keeps
pub mod Says
pub mod Returns
use esp32_p4_linux.Common.{
  ℕ, zero, suc, ◌+◌, ◌-◌, ◌≡◌, Bool, true, false, not, ◌&&◌, ◌||◌, Option, none, some, List, [],
  ◌∷◌, ◌++◌, ltb, leb, ◌==◌, if◌then◌else◌, Bytes, codes, ℤ, pos, negsuc, length, take, drop,
}
use esp32_p4_linux.Hget.Exit.{Exit, io, proto, Result, done, fail}
use esp32_p4_linux.Hget.Url.{url_buf}
use esp32_p4_linux.Hget.CString.{starts_with, from, c_str, contains, atoi, atoll}
use esp32_p4_linux.Hget.Conn.{Net, segment, conn_read}

-- `sizeof(hdrbuf) - 1`
abbrev pub header_room : ℕ
header_room = 8191

pub record Resp : Type 0 where
  pub status : ℤ
  -- -1 when not given
  pub length : ℤ
  pub chunked : Bool
  pub location : Bytes
  -- The bytes of the body already in `hdrbuf`: `body_len` of them, from `body_off` on.
  pub pending : Bytes

unfoldable pub lower : ℕ → ℕ
lower c = if leb b'A' c && leb c b'Z' then c - b'A' + b'a' else c

-- The prefix comes second, as in the source.
unfoldable pub ci_prefix : Bytes → Bytes → Bool
unfolding lower
ci_prefix s [] = true
ci_prefix [] (c ∷ pfx) = false
ci_prefix (x ∷ s) (c ∷ pfx) = lower x == lower c && ci_prefix s pfx

unfoldable pub skip_ws : Bytes → Bytes
skip_ws [] = []
skip_ws (c ∷ s) = if c == b' ' || c == b'\t' then skip_ws s else c ∷ s

-- `memmem`, for a pattern that is not empty: what stands before the first occurrence, and after it.
unfoldable pub split_at : Bytes → Bytes → Option (Bytes × Bytes)
unfolding starts_with
split_at p [] = none
split_at p (x ∷ s) =
    if starts_with p (x ∷ s)
    then some ([], drop (length p) (x ∷ s))
    else elim (split_at p s) [ none ↦ none | some (a, b) ↦ some (x ∷ a, b) ]

abbrev pub crlf : Bytes
crlf = b'\r' ∷ b'\n' ∷ []

-- The pieces between the CRLFs that `strstr` finds one after the other: the first, and the rest.
unfoldable pub pieces : Bytes → Bytes × List Bytes
pieces [] = ([], [])
pieces (x ∷ []) = (x ∷ [], [])
pieces (x ∷ y ∷ s) = elim (x == b'\r' && y == b'\n') [
  | true ↦ let (p, ps) = pieces s in ([], p ∷ ps)
  | false ↦ let (p, ps) = pieces (y ∷ s) in (x ∷ p, ps)
]

-- What one header line sets.
unfoldable pub header_line : Resp → Bytes → Resp
unfolding ci_prefix skip_ws contains atoll
header_line r line =
    if ci_prefix line (codes "content-length:")
    then record r { length = atoll (skip_ws (drop 15 line)) }
    else if ci_prefix line (codes "transfer-encoding:")
    then (if contains (codes "chunked") (skip_ws (drop 18 line))
        then record r { chunked = true }
        else r)
    else if ci_prefix line (codes "location:")
    then (let v = skip_ws (drop 9 line) in
        if ltb (length v) url_buf then record r { location = v } else r)
    else r

unfoldable pub header_lines : Resp → List Bytes → Resp
unfolding header_line
header_lines r [] = r
header_lines r (line ∷ lines) = header_lines (header_line r line) lines

-- What the header block sets, the status line left out.
unfoldable pub fields_of : Bytes → Resp → Resp
unfolding header_lines pieces c_str
fields_of head r = header_lines r (pieces (c_str head)).1

-- The second half of `read_headers`, at the bytes in `hdrbuf`.
unfoldable pub parse_headers : Bytes → Result Resp
unfolding split_at starts_with from c_str atoi fields_of
parse_headers buf = elim (split_at (codes "\r\n\r\n") buf) [
  | none ↦ fail proto
  | some (head, pending) ↦
      if starts_with (codes "HTTP/") buf
      then elim (from b' ' (c_str buf)) [
        | [] ↦ fail proto
        | _ ∷ line ↦ done (
            fields_of head (record {
              status = atoi line;
              length = negsuc 0;
              chunked = false;
              location = [];
              pending = pending;
            }))
      ]
      else fail proto
]

-- The first half: the bytes read when the loop ends; the outer `none` would be fuel that has run
-- out.
unfoldable pub header_loop : ℕ → Bool → Bytes → Net → Option (Result Bytes × Net)
unfolding split_at conn_read
header_loop zero tls have net = none
header_loop (suc fuel) tls have net =
    if ltb (length have) header_room
    then elim (split_at (codes "\r\n\r\n") have) [
      | some _ ↦ some (done have, net)
      | none ↦
          let (r, net') = conn_read tls (header_room - length have) net in
          elim r [
            | none ↦ some (fail io, net')
            | some bytes ↦
                let rest = header_loop fuel tls (have ++ bytes) net' in
                if length bytes == 0 then some (done have, net') else rest
          ]
    ]
    else some (done have, net)

unfoldable pub read_headers : ℕ → Bool → Net → Option (Result Resp × Net)
unfolding header_loop parse_headers
read_headers fuel tls net = elim (header_loop fuel tls [] net) [
  | none ↦ none
  | some (fail e, net') ↦ some (fail e, net')
  | some (done buf, net') ↦ some (parse_headers buf, net')
]
