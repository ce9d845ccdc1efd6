-- ===== src/Hget/Headers/Says.antt =====
-- `read_headers` of board/hget/hget.c on a header block that is written from its fields.
use esp32_p4_linux.Common.{
  ℕ, ◌+◌, ◌≤◌, ◌<◌, ◌≡◌, refl, sym, ap, ◌∙◌, Bool, false, Option, some, List, [], ◌∷◌, ◌++◌, All,
  Bytes, codes, negsuc, length, append-nil, append_assoc,
}
use esp32_p4_linux.Hget.Exit.{Result, done}
use esp32_p4_linux.Hget.CString.{Free, atoi}
use esp32_p4_linux.Hget.Conn.{Net}
use esp32_p4_linux.Hget.Conn.Stream.{IsClean, contents}
use esp32_p4_linux.Hget.Headers.{Resp, header_room, split_at, read_headers}
use esp32_p4_linux.Hget.Headers.Status.{IsHead, reads_as, atoi-stops}
use esp32_p4_linux.Hget.Headers.Fields.{Field, written, IsField, tail, says_all, fields_of-says}
use esp32_p4_linux.Hget.Headers.Keeps.{read_headers-Delivers}

-- A header block: the version, the status with its first digit apart, what follows it in its line,
-- and the fields.
pub record Block : Type 0 where
  pub version : Bytes
  pub digit : ℕ
  pub reason : Bytes
  pub fields : List Field

abbrev pub status_line : Block → Bytes
status_line b = codes "HTTP/" ++ (b.version ++ (b' ' ∷ b.digit ∷ b.reason))

abbrev pub head_of : Block → Bytes
head_of b = status_line b ++ tail b.fields

pub record IsBlock (b : Block) : Type 0 where
  pub version_ok : Free b' ' b.version
  pub is_digit : (b'0' ≤ b.digit) × (b.digit ≤ b'9')
  pub one_line : Free b'\r' (status_line b)
  pub lines : All (λ f. Free b'\r' (written f)) b.fields
  pub named : All IsField b.fields
  pub no_nul : Free 0 (head_of b)

-- The response that a block means, with the bytes that came behind it.
abbrev pub meaning : Block → Bytes → Resp
meaning b pending = says_all b.fields (record {
  status = atoi (b.digit ∷ b.reason);
  length = negsuc 0;
  chunked = false;
  location = [];
  pending = pending;
})

abbrev head_of-IsHead : (b : Block) → IsBlock b → IsHead (head_of b)
head_of-IsHead b h = record {
  version = b.version;
  digit = b.digit;
  more = b.reason ++ tail b.fields;
  text =
      append_assoc (codes "HTTP/") (b.version ++ (b' ' ∷ b.digit ∷ b.reason)) (tail b.fields)
      ∙ ap (λ s. codes "HTTP/" ++ s)
          (append_assoc b.version (b' ' ∷ b.digit ∷ b.reason) (tail b.fields));
  version_ok = h.version_ok;
  is_digit = h.is_digit;
  no_nul = h.no_nul;
}

-- The status ends with its line.
status-tail :
    (digit : ℕ) (reason : Bytes) (fs : List Field)
    → (b'0' ≤ digit) × (digit ≤ b'9')
    → atoi (digit ∷ (reason ++ tail fs)) ≡ atoi (digit ∷ reason)
status-tail digit reason [] h = ap (λ s. atoi (digit ∷ s)) (append-nil reason)
status-tail digit reason (f ∷ fs) h = atoi-stops digit reason (b'\n' ∷ (written f ++ tail fs)) h

reads_as-meaning :
    (b : Block) (h : IsBlock b) (pending : Bytes)
    → reads_as (head_of b) (head_of-IsHead b h) pending ≡ meaning b pending
reads_as-meaning b h pending =
    fields_of-says (status_line b) b.fields _ h.one_line h.lines h.named h.no_nul
    ∙ (rw (status-tail b.digit b.reason b.fields h.is_digit) refl)

-- The response is what the block means, and the bytes kept with those still to come are the body.
pub record Understands (b : Block) (body : Bytes) (out : Option (Result Resp × Net)) : Type 0 where
  pub pending : Bytes
  pub rest : Net
  pub result : out ≡ some (done (meaning b pending), rest)
  pub kept : (meaning b pending).pending ++ contents rest ≡ body
  pub clean : IsClean rest

-- On a connection without errors, if what stands before the first blank line is a header block
-- written from its fields, which fits `hdrbuf`, read_headers returns what it means: the status of
-- its line; the length of the last Content-Length, or -1; whether a Transfer-Encoding says chunked;
-- the last Location that fits; names in letters of either case, blanks before the values passed
-- over, and all other lines ignored. No byte of the body is lost or added, however the stream is cut
-- into segments.
pub read_headers-Understands :
    (fuel : ℕ) (tls : Bool) (net : Net) (b : Block) (body : Bytes)
    → IsBlock b
    → IsClean net
    → header_room < fuel
    → split_at (codes "\r\n\r\n") (contents net) ≡ some (head_of b, body)
    → length (head_of b) + 4 ≤ header_room
    → Understands b body (read_headers fuel tls net)
read_headers-Understands fuel tls net b body h clean enough found fits =
    let d =
      read_headers-Delivers fuel tls net (head_of b) body (head_of-IsHead b h) clean enough found
        fits in
    let same = reads_as-meaning b h d.pending in
    record {
      pending = d.pending;
      rest = d.rest;
      result = d.result ∙ ap (λ (r : Resp). some (done r, d.rest)) same;
      kept = ap (λ (r : Resp). r.pending ++ contents d.rest) (sym same) ∙ d.kept;
      clean = d.clean;
    }
