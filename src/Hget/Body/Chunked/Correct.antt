-- ===== src/Hget/Body/Chunked/Correct.antt =====
-- `body_chunked` decodes a chunked body, however its bytes arrive.
use esp32_p4_linux.Common.{
  ℕ, zero, suc, ◌+◌, ◌≤◌, ◌<◌, ◌≡◌, refl, sym, ap, ◌∙◌, Bool, false, some, [], ◌∷◌, ◌++◌, ◌==◌,
  Bytes, length, take, drop, arith, append-nil, append_assoc, length-append, take-append_length,
  drop-append_length,
}
use esp32_p4_linux.Hget.Exit.{ok}
use esp32_p4_linux.Hget.CString.{Free}
use esp32_p4_linux.Hget.Conn.{Net}
use esp32_p4_linux.Hget.Conn.Stream.{IsClean, contents}
use esp32_p4_linux.Hget.Output.{Transfer, IsWritable}
use esp32_p4_linux.Hget.Body.{Outcome, line_buf, chunk_size, chunked_loop, body_chunked}
use esp32_p4_linux.Hget.Body.Chunked.{stream, get_line-TakesLine, get_line_empty, copy_chunk-Copies}

-- A size line, extensions included, that fits the line buffer.
pub record IsSizeLine (line : Bytes) (size : ℕ) : Type 0 where
  pub one_line : Free b'\n' line
  pub no_return : Free b'\r' line
  pub fits : length line ≤ line_buf
  pub line_pos : 0 < length line
  pub size_is : chunk_size line ≡ size

abbrev pub crlf : Bytes → Bytes
crlf rest = b'\r' ∷ b'\n' ∷ rest

-- The bytes of a chunked body with this payload: chunks that are not empty, and the last one of
-- size 0, followed by `rest` (trailers, and whatever else comes).
pub data Encodes (rest : Bytes) : Bytes → Bytes → Type 0 where
  last :
      (line : Bytes) {text : Bytes}
      → IsSizeLine line 0
      → text ≡ line ++ crlf rest
      → Encodes rest text []
  chunk :
      (line bytes : Bytes) {tail payload text whole : Bytes}
      → IsSizeLine line (length bytes)
      → 0 < length bytes
      → Encodes rest tail payload
      → text ≡ line ++ crlf (bytes ++ crlf tail)
      → whole ≡ bytes ++ payload
      → Encodes rest text whole

-- What holds once a chunked body has been read up to its last size line.
pub record Decodes (t : Transfer) (body : Bytes) (r : Outcome) : Type 0 where
  pub end : Transfer
  pub result : r ≡ some (ok, end)
  pub out_is : end.out ≡ t.out ++ body
  pub written_is : end.written ≡ t.written + length body

Decodes-cons :
    (t t' : Transfer) (bytes body : Bytes) (r : Outcome)
    → t'.out ≡ t.out ++ bytes
    → t'.written ≡ t.written + length bytes
    → Decodes t' body r
    → Decodes t (bytes ++ body) r
Decodes-cons t t' bytes body r eo ew c = record {
  end = c.end;
  result = c.result;
  out_is = c.out_is ∙ ap (λ o. o ++ body) eo ∙ append_assoc t.out bytes body;
  written_is = omega (arith, c.written_is, ew, length-append {0} bytes body);
}

-- The length of a line with its end, and of what follows.
length-line : (line rest : Bytes) → length (line ++ crlf rest) ≡ length line + length rest + 2
length-line line rest = omega (arith, length-append {0} line (crlf rest))

-- The end of a chunk is skipped.
skip_empty :
    (fuel f : ℕ) (tls : Bool) (pending : Bytes) (t : Transfer) (tail body : Bytes)
    → IsClean t.net
    → stream pending t.net ≡ crlf tail
    → 1 < f
    → ((p : Bytes) (n : Net)
        → IsClean n
        → stream p n ≡ tail
        → Decodes (record t { net = n }) body (chunked_loop fuel f tls p (record t { net = n })))
    → Decodes t body (chunked_loop (suc fuel) f tls pending t)
unfolding chunked_loop
skip_empty fuel f tls pending t tail body c e h next =
    let l = get_line_empty f tls pending t.net tail c e h in
    let d = next l.pending l.net l.clean l.stream_is in
    rw (l.result, chunked_loop)
      (record { end = d.end; result = d.result; out_is = d.out_is; written_is = d.written_is })

nonzero : (n : ℕ) → 0 < n → (n == 0) ≡ false
nonzero n h = ground arith

-- The last size line ends the body.
last_step :
    (fuel f : ℕ) (tls : Bool) (pending line rest : Bytes) (t : Transfer)
    → IsSizeLine line 0
    → IsClean t.net
    → stream pending t.net ≡ line ++ crlf rest
    → length line + 1 < f
    → Decodes t [] (chunked_loop (suc fuel) f tls pending t)
unfolding chunked_loop
last_step fuel f tls pending line rest t size c e hf =
    let l =
      get_line-TakesLine f tls [] line pending t.net rest size.one_line size.no_return (omega arith)
        hf c e in
    rw (l.result, chunked_loop, nonzero (length line) size.line_pos, size.size_is)
      (record {
        end = record t { net = l.net };
        result = refl;
        out_is = sym (append-nil t.out);
        written_is = omega arith;
      })

-- A size line and the payload that it announces.
chunk_step :
    (fuel f : ℕ) (tls : Bool) (pending line bytes tail body : Bytes) (t : Transfer)
    → IsSizeLine line (length bytes)
    → 0 < length bytes
    → IsClean t.net
    → IsWritable t.file
    → stream pending t.net ≡ line ++ crlf (bytes ++ tail)
    → length line + 1 < f
    → length bytes < f
    → ((p : Bytes) (t' : Transfer)
        → IsClean t'.net
        → IsWritable t'.file
        → stream p t'.net ≡ tail
        → Decodes t' body (chunked_loop fuel f tls p t'))
    → Decodes t (bytes ++ body) (chunked_loop (suc fuel) f tls pending t)
unfolding chunked_loop
chunk_step fuel f tls pending line bytes tail body t size more c w e hl hb next =
    let l =
      get_line-TakesLine f tls [] line pending t.net (bytes ++ tail) size.one_line size.no_return
        (omega (arith, size.fits)) hl c e in
    let t' : Transfer = record t { net = l.net } in
    let at = l.stream_is in
    let k =
      copy_chunk-Copies f tls (length bytes) l.pending t' l.clean w hb
        (omega (arith, ap length at, length-append {0} bytes tail)) in
    let paid : take (length bytes) (stream l.pending l.net) ≡ bytes =
      ap (take (length bytes)) at ∙ take-append_length bytes tail in
    let left : drop (length bytes) (stream l.pending l.net) ≡ tail =
      ap (drop (length bytes)) at ∙ drop-append_length bytes tail in
    rw
      (
        l.result,
        chunked_loop,
        nonzero (length line) size.line_pos,
        size.size_is,
        nonzero (length bytes) more,
        k.result,
        chunked_loop,
      )
      (Decodes-cons t k.end bytes body _ (k.out_is ∙ ap (λ bs. t.out ++ bs) paid)
        (k.written_is ∙ ap (λ bs. t.written + length bs) paid)
        (next k.pending k.end k.clean k.writable (k.stream_is ∙ left)))

chunked_loop-Decodes :
    (fuel f : ℕ) (tls : Bool) (pending : Bytes) (t : Transfer) {rest text body : Bytes}
    → IsClean t.net
    → IsWritable t.file
    → stream pending t.net ≡ text
    → length text < fuel
    → length text < f
    → Encodes rest text body
    → Decodes t body (chunked_loop fuel f tls pending t)
chunked_loop-Decodes zero f tls pending t c w e h hf enc = absurd (omega arith)
chunked_loop-Decodes (suc fuel) f tls pending t {rest} c w e h hf (last line size et) =
    last_step fuel f tls pending line rest t size c (e ∙ et)
      (omega (arith, ap length et, length-line line rest))
chunked_loop-Decodes (suc zero) f tls pending t c w e h hf
      (chunk line bytes {tail} size more enc et eb) =
    absurd (omega (arith, ap length et, length-line line (bytes ++ crlf tail)))
chunked_loop-Decodes (suc (suc fuel)) f tls pending t {text} c w e h hf
      (chunk line bytes {tail} {payload} size more enc et eb) =
    rw eb (
      chunk_step (suc fuel) f tls pending line bytes (crlf tail) payload t size more c w (e ∙ et)
        (omega (arith, len)) (omega (arith, len))
        (λ p t' c' w' e'.
          skip_empty fuel f tls p t' tail payload c' e' (omega (arith, len)) (λ p' n' c'' e''.
            chunked_loop-Decodes fuel f tls p' (record t' { net = n' }) c'' w' e''
              (omega (arith, len)) (omega (arith, len)) enc)))
  where
    len : length text ≡ length line + length bytes + length tail + 4
    len =
        ap length et
        ∙ omega (arith, length-line line (bytes ++ crlf tail), length-append {0} bytes (crlf tail))

-- With no error of the connection or the file, `body_chunked` turns a chunked body into its
-- payload and ends with EX_OK, whichever part of the body came with the headers, and however the
-- rest is cut into reads; the size lines may carry extensions.
pub body_chunked-Decodes :
    (fuel : ℕ) (tls : Bool) (pending : Bytes) (t : Transfer) (rest payload : Bytes)
    → IsClean t.net
    → IsWritable t.file
    → Encodes rest (pending ++ contents t.net) payload
    → length (pending ++ contents t.net) < fuel
    → Decodes t payload (body_chunked fuel tls pending t)
unfolding body_chunked
body_chunked-Decodes fuel tls pending t rest payload c w enc h =
    chunked_loop-Decodes fuel fuel tls pending t c w refl h h enc
