-- ===== src/Hget/Headers/Keeps.antt =====
-- `read_headers` of board/hget/hget.c on a connection without errors: the body starts where the
-- headers end, however the stream is cut into segments.
use esp32_p4_linux.Common.{
  ℕ, ◌+◌, ◌-◌, ◌≤◌, ◌<◌, ◌≡◌, refl, sym, ap, ◌∙◌, inl, inr, Bool, Option, none, some, [], ◌++◌,
  Bytes, codes, length, take, arith, append-nil, length-append, take-append_ge, Option-cases,
}
use esp32_p4_linux.Hget.Exit.{Result, done, fail, proto}
use esp32_p4_linux.Hget.Conn.{Net}
use esp32_p4_linux.Hget.Conn.Stream.{IsClean, contents}
use esp32_p4_linux.Hget.Headers.{Resp, header_room, split_at, parse_headers, read_headers}
use esp32_p4_linux.Hget.Headers.Search.{split_at-eq, split_at-more, split_at-less}
use esp32_p4_linux.Hget.Headers.Loop.{blank, Fills, header_loop-Fills}
use esp32_p4_linux.Hget.Headers.Apart.{pending-fields_of}
use esp32_p4_linux.Hget.Headers.Status.{IsHead, reads_as, parse_headers-head}

-- The headers of a stream are read: the response is what the header block says, and the bytes kept
-- with those still to come are the body.
pub record Delivers (head body : Bytes) (h : IsHead head) (out : Option (Result Resp × Net))
    : Type 0 where
  pub pending : Bytes
  pub rest : Net
  pub result : out ≡ some (done (reads_as head h pending), rest)
  pub kept : (reads_as head h pending).pending ++ contents rest ≡ body
  pub clean : IsClean rest

-- The blank line of the stream, where the loop has it in the buffer.
found_here :
    (head body : Bytes) (net : Net) (out : Option (Result Bytes × Net)) (f : Fills [] net out)
    (a b : Bytes)
    → split_at blank (contents net) ≡ some (head, body)
    → split_at blank f.buf ≡ some (a, b)
    → (pending : Bytes) × ((split_at blank f.buf ≡ some (head, pending))
        × (pending ++ contents f.rest ≡ body))
found_here head body net out f a b found here =
    let e : ◌≡◌ {A = Option (Bytes × Bytes)} (some (a, b ++ contents f.rest)) (some (head, body)) =
      sym (split_at-more blank f.buf (contents f.rest) here)
      ∙ ap (split_at blank) f.split
      ∙ found in
    (b, (cc, cc))

found_in :
    (head body : Bytes) (net : Net) (out : Option (Result Bytes × Net)) (f : Fills [] net out)
    → split_at blank (contents net) ≡ some (head, body)
    → length head + 4 ≤ header_room
    → (pending : Bytes) × ((split_at blank f.buf ≡ some (head, pending))
        × (pending ++ contents f.rest ≡ body))
found_in head body net out f found fits = elim (Option-cases (split_at blank f.buf)) [
  | inr ((a, b), here) ↦ found_here head body net out f a b found here
  | inl missing ↦
      let short =
        split_at-less blank f.buf (contents f.rest) (omega arith) missing
          (ap (split_at blank) f.split ∙ found) in
      elim f.stops [
        | inl (ab, here) ↦ absurd (ground arith)
        | inr (inl full) ↦ absurd (omega arith)
        | inr (inr over) ↦
            let whole : f.buf ≡ contents net =
              sym (append-nil f.buf) ∙ ap (λ t. f.buf ++ t) (sym over) ∙ f.split in
            absurd (ground (arith, ap (split_at blank) whole))
      ]
]

-- On a connection without errors, if the header block that ends at the first blank line of the
-- stream is well-formed and fits `hdrbuf`, read_headers returns what the block says, and no byte
-- of the body is lost or added: the bytes kept and those still to come are the bytes behind the
-- blank line, however the stream is cut into segments.
pub read_headers-Delivers :
    (fuel : ℕ) (tls : Bool) (net : Net) (head body : Bytes) (h : IsHead head)
    → IsClean net
    → header_room < fuel
    → split_at (codes "\r\n\r\n") (contents net) ≡ some (head, body)
    → length head + 4 ≤ header_room
    → Delivers head body h (read_headers fuel tls net)
unfolding read_headers
read_headers-Delivers fuel tls net head body h c enough found fits =
    let f = header_loop-Fills fuel tls [] net c (omega arith) (omega arith) in
    let (pending, (here, kept)) = found_in head body net _ f found fits in
    let parsed : parse_headers f.buf ≡ done (reads_as head h pending) =
      ap parse_headers (split_at-eq blank f.buf here)
      ∙ parse_headers-head head pending h
          (ap (split_at blank) (sym (split_at-eq blank f.buf here)) ∙ here) in
    record {
      pending = pending;
      rest = f.rest;
      result = rw (f.result, read_headers) (ap (λ (r : Result Resp). some (r, f.rest)) parsed);
      kept = ap (λ t. t ++ contents f.rest) (pending-fields_of head _) ∙ kept;
      clean = f.clean;
    }

-- If the first 8191 bytes of the stream hold no blank line, read_headers fails with EX_PROTO and
-- has read no more than 8191 bytes.
pub read_headers_too_long :
    (fuel : ℕ) (tls : Bool) (net : Net)
    → IsClean net
    → header_room < fuel
    → split_at (codes "\r\n\r\n") (take header_room (contents net)) ≡ none
    → (rest : Net) × ((read_headers fuel tls net ≡ some (fail proto, rest))
        × (length (contents net) ≤ header_room + length (contents rest)))
unfolding read_headers parse_headers
read_headers_too_long fuel tls net c enough missing =
    let f = header_loop-Fills fuel tls [] net c (omega arith) (omega arith) in
    let no_blank : split_at blank f.buf ≡ none = elim (Option-cases (split_at blank f.buf)) [
      | inl nothing ↦ nothing
      | inr ((a, b), here) ↦
          let t = take (header_room - length f.buf) (contents f.rest) in
          let e : take header_room (contents net) ≡ f.buf ++ t =
            ap (take header_room) (sym f.split)
            ∙ take-append_ge header_room f.buf (contents f.rest) f.at_most in
          absurd (ground (arith, split_at-more blank f.buf t here, ap (split_at blank) e))
    ] in
    (
      f.rest,
      (
        rw (f.result, read_headers, no_blank, parse_headers) refl,
        omega (arith, f.at_most, length-append {0} f.buf (contents f.rest), ap length f.split),
      ),
    )
