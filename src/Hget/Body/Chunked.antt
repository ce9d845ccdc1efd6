-- ===== src/Hget/Body/Chunked.antt =====
-- The pieces of `body_chunked` over a stream without errors: the pending bytes, then the
-- connection.
pub mod Correct
pub mod Returns
use esp32_p4_linux.Common.{
  ℕ, zero, suc, ◌+◌, ◌-◌, ◌≤◌, ◌<◌, ◌≡◌, ◌≢◌, refl, sym, ap, ◌∙◌, ◌⊎◌, inl, inr, Bool, true, false,
  not, ◌&&◌, Option, none, some, List, [], ◌∷◌, ◌++◌, ltb, leb, ◌==◌, if◌then◌else◌, Bytes, ℤ, pos,
  negsuc, sub_ℕ, min, length, take, drop, arith, append-nil, append_assoc, take-append_ge,
  drop-append_ge, length-append, take-nil, drop-nil, Bool-cases, ==_iff, take-append-drop,
  length-take, length-drop,
}
use esp32_p4_linux.Hget.Exit.{Exit, ok, io}
use esp32_p4_linux.Hget.CString.{Free}
use esp32_p4_linux.Hget.Conn.{Net, conn_read}
use esp32_p4_linux.Hget.Conn.Stream.{IsClean, contents, Reads, conn_read-Reads, Reads-end}
use esp32_p4_linux.Hget.Output.{Transfer, put, IsWritable, Puts, put-Puts}
use esp32_p4_linux.Hget.Body.{io_buf, line_buf, keep, next_byte, get_line, get_some, copy_chunk}

abbrev pub stream : Bytes → Net → Bytes
stream pending net = pending ++ contents net

-- One byte is taken off the stream.
record Takes (b : ℕ) (rest : Bytes) (r : Option (ℕ × Bytes × Net)) : Type 0 where
  pending : Bytes
  net : Net
  result : r ≡ some (b, pending, net)
  stream_is : stream pending net ≡ rest
  clean : IsClean net

one_byte :
    (b : ℕ) (rest bytes tail : Bytes)
    → b ∷ rest ≡ bytes ++ tail
    → length bytes ≤ 1
    → (length bytes ≡ 0 → bytes ≡ [])
    → (0 < length bytes) ⊎ (b ∷ rest ≡ [])
    → (bytes ≡ b ∷ []) × (tail ≡ rest)
one_byte b rest [] tail e le z p = absurd (ground arith)
one_byte b rest (x ∷ []) tail e le z p = ground arith
one_byte b rest (x ∷ y ∷ bytes) tail e le z p = absurd (omega arith)

next_byte-Takes :
    (tls : Bool) (pending : Bytes) (net : Net) (b : ℕ) (rest : Bytes)
    → IsClean net
    → stream pending net ≡ b ∷ rest
    → Takes b rest (next_byte tls pending net)
unfolding next_byte
next_byte-Takes tls (x ∷ pending) net b rest c e = record {
  pending = pending;
  net = net;
  result = ground arith;
  stream_is = ground arith;
  clean = c;
}
next_byte-Takes tls [] net b rest c e =
    let r = conn_read-Reads tls 1 net (omega arith) c in
    let (one, tail) =
      one_byte b rest r.bytes (contents r.rest) (sym e ∙ r.split) r.at_most (λ z. (Reads-end r z).0)
        (rw e at r.progress) in
    record {
      pending = [];
      net = r.rest;
      result = rw (r.got, next_byte, one, r.next);
      stream_is = tail;
      clean = r.clean;
    }

-- One line and its end are taken off the stream.
pub record TakesLine (line rest : Bytes) (r : Option (Option (Bytes × Bytes × Net))) : Type 0 where
  pub pending : Bytes
  pub net : Net
  pub result : r ≡ some (some (line, pending, net))
  pub stream_is : stream pending net ≡ rest
  pub clean : IsClean net

get_line_end :
    (fuel : ℕ) (tls : Bool) (line pending : Bytes) (net : Net) (rest : Bytes)
    → IsClean net
    → stream pending net ≡ b'\n' ∷ rest
    → TakesLine line rest (get_line (suc fuel) tls line pending net)
unfolding get_line
get_line_end fuel tls line pending net rest c e =
    let t = next_byte-Takes tls pending net b'\n' rest c e in
    rw (t.result, get_line)
      (record {
        pending = t.pending;
        net = t.net;
        result = refl;
        stream_is = t.stream_is;
        clean = t.clean;
      })

-- A byte that does not end the line.
get_line_more :
    (fuel : ℕ) (tls : Bool) (line pending : Bytes) (net : Net) (b : ℕ)
    (rest whole after_line : Bytes)
    → IsClean net
    → stream pending net ≡ b ∷ rest
    → b ≢ b'\n'
    → ((p : Bytes) (n : Net)
        → IsClean n
        → stream p n ≡ rest
        → TakesLine whole after_line (get_line fuel tls (keep line b) p n))
    → TakesLine whole after_line (get_line (suc fuel) tls line pending net)
unfolding get_line
get_line_more fuel tls line pending net b rest whole after_line c e ne next =
    let t = next_byte-Takes tls pending net b rest c e in
    let no : (b == b'\n') ≡ false = ground arith in
    rw (t.result, get_line, no) (next t.pending t.net t.clean t.stream_is)

keep-add :
    (line : Bytes) (b : ℕ) → b ≢ b'\r' → length line < line_buf → keep line b ≡ line ++ b ∷ []
keep-add line b ne h = ground arith

-- A line without carriage returns that fits the buffer is returned whole, its end cut off.
pub get_line-TakesLine :
    (fuel : ℕ) (tls : Bool) (line text pending : Bytes) (net : Net) (rest : Bytes)
    → Free b'\n' text
    → Free b'\r' text
    → length line + length text ≤ line_buf
    → length text + 1 < fuel
    → IsClean net
    → stream pending net ≡ text ++ (b'\r' ∷ b'\n' ∷ rest)
    → TakesLine (line ++ text) rest (get_line fuel tls line pending net)
get_line-TakesLine zero tls line text pending net rest fn fr fits h c e = absurd (omega arith)
get_line-TakesLine (suc zero) tls line text pending net rest fn fr fits h c e = absurd (omega arith)
get_line-TakesLine (suc (suc fuel)) tls line [] pending net rest fn fr fits h c e = rw append-nil (
    get_line_more (suc fuel) tls line pending net b'\r' (b'\n' ∷ rest) line rest c e
      (λ (q : ◌≡◌ {A = ℕ} b'\r' b'\n'). absurd (omega arith))
      (λ p n cn en. get_line_end fuel tls line p n rest cn en))
get_line-TakesLine (suc (suc fuel)) tls line (b ∷ text) pending net rest fn fr fits h c e =
    get_line_more (suc fuel) tls line pending net b (text ++ (b'\r' ∷ b'\n' ∷ rest)) _ rest c e fn.0
      (λ p n cn en.
        rw (keep-add line b fr.0 (omega arith), ← append_assoc line (b ∷ []) text)
          (get_line-TakesLine (suc fuel) tls (line ++ b ∷ []) text p n rest fn.1 fr.1
            (omega (arith, length-append {0} line (b ∷ []))) (omega arith) cn en))

-- The end of a chunk reads as an empty line.
pub get_line_empty :
    (fuel : ℕ) (tls : Bool) (pending : Bytes) (net : Net) (rest : Bytes)
    → IsClean net
    → stream pending net ≡ b'\r' ∷ b'\n' ∷ rest
    → 1 < fuel
    → TakesLine [] rest (get_line fuel tls [] pending net)
get_line_empty fuel tls pending net rest c e h =
    get_line-TakesLine fuel tls [] [] pending net rest tt tt (omega arith) (omega arith) c e

-- A front of the stream is taken.
record Gets (want : ℕ) (pending : Bytes) (net : Net) (r : Option (Bytes × Bytes × Net))
    : Type 0 where
  bytes : Bytes
  pending' : Bytes
  net' : Net
  result : r ≡ some (bytes, pending', net')
  split : stream pending net ≡ bytes ++ stream pending' net'
  some_bytes : 0 < length bytes
  at_most : length bytes ≤ want
  clean : IsClean net'

get_some-Gets :
    (tls : Bool) (want : ℕ) (pending : Bytes) (net : Net)
    → 0 < want
    → IsClean net
    → 0 < length (stream pending net)
    → Gets want pending net (get_some tls want pending net)
unfolding get_some
get_some-Gets tls want (b ∷ pending) net h c more = record {
  bytes = take want (b ∷ pending);
  pending' = drop want (b ∷ pending);
  net' = net;
  result = refl;
  split =
      ap (λ t. t ++ contents net) (sym (take-append-drop want (b ∷ pending)))
      ∙ append_assoc (take want (b ∷ pending)) (drop want (b ∷ pending)) (contents net);
  some_bytes = omega (arith, length-take {0} want (b ∷ pending));
  at_most = omega (arith, length-take {0} want (b ∷ pending));
  clean = c;
}
get_some-Gets tls want [] net h c more =
    let r = conn_read-Reads tls want net h c in
    let pos_bytes : 0 < length r.bytes = elim r.progress [
      | inl p ↦ p
      | inr z ↦ absurd (omega (arith, ap length z))
    ] in
    let no : (length r.bytes == 0) ≡ false = ground arith in
    record {
      bytes = r.bytes;
      pending' = [];
      net' = r.rest;
      result = rw (r.got, get_some, no, r.next);
      split = r.split;
      some_bytes = pos_bytes;
      at_most = r.at_most;
      clean = r.clean;
    }

-- The payload of a chunk is copied, and the stream goes on behind it.
pub record Copies (t : Transfer) (payload rest : Bytes) (r : Option (Exit × Bytes × Transfer))
    : Type 0 where
  pub pending : Bytes
  pub end : Transfer
  pub result : r ≡ some (ok, pending, end)
  pub out_is : end.out ≡ t.out ++ payload
  pub written_is : end.written ≡ t.written + length payload
  pub stream_is : stream pending end.net ≡ rest
  pub clean : IsClean end.net
  pub writable : IsWritable end.file

Copies-cons :
    (t t' : Transfer) (bytes payload payload' rest rest' : Bytes)
    (r : Option (Exit × Bytes × Transfer))
    → payload ≡ bytes ++ payload'
    → rest ≡ rest'
    → t'.out ≡ t.out ++ bytes
    → t'.written ≡ t.written + length bytes
    → Copies t' payload' rest' r
    → Copies t payload rest r
Copies-cons t t' bytes payload payload' rest rest' r ep er eo ew c =
    rw (ep, er)
      (record {
        pending = c.pending;
        end = c.end;
        result = c.result;
        out_is = c.out_is ∙ ap (λ o. o ++ payload') eo ∙ append_assoc t.out bytes payload';
        written_is = omega (arith, c.written_is, ew, length-append {0} bytes payload');
        stream_is = c.stream_is;
        clean = c.clean;
        writable = c.writable;
      })

pub copy_chunk-Copies :
    (fuel : ℕ) (tls : Bool) (chunk : ℕ) (pending : Bytes) (t : Transfer)
    → IsClean t.net
    → IsWritable t.file
    → chunk < fuel
    → chunk ≤ length (stream pending t.net)
    → Copies t
        (take chunk (stream pending t.net))
        (drop chunk (stream pending t.net))
        (copy_chunk fuel tls chunk pending t)
unfolding copy_chunk
copy_chunk-Copies zero tls chunk pending t c w h le = absurd (omega arith)
copy_chunk-Copies (suc fuel) tls chunk pending t c w h le = elim (Bool-cases (chunk == 0)) [
  | inl z ↦
      let e : chunk ≡ 0 = ground arith in
      rw e (record {
        pending = pending;
        end = t;
        result = refl;
        out_is = sym (append-nil t.out);
        written_is = omega arith;
        stream_is = refl;
        clean = c;
        writable = w;
      })
  | inr more ↦
      let g = get_some-Gets tls (min chunk io_buf) pending t.net (ground arith) c (ground arith) in
      let t' : Transfer = record t { net = g.net' } in
      let p = put-Puts t' g.bytes w in
      let t'' : Transfer = (put t' g.bytes).1 in
      let n : ℕ = length g.bytes in
      let fits : n ≤ chunk = omega (arith, g.at_most) in
      let size = ap length g.split ∙ length-append {0} g.bytes (stream g.pending' g.net') in
      let ih = rw p.net_kept at (
        copy_chunk-Copies fuel tls (chunk - n) g.pending' t'' (rw p.net_kept g.clean) p.writable
          (omega (arith, g.some_bytes)) (rw p.net_kept (omega arith))) in
      rw (more, copy_chunk, g.result, copy_chunk, p.good)
        (Copies-cons t t'' g.bytes _ _ _ _ _
          (ap (take chunk) g.split ∙ take-append_ge chunk g.bytes (stream g.pending' g.net') fits)
          (ap (drop chunk) g.split ∙ drop-append_ge chunk g.bytes (stream g.pending' g.net') fits)
          p.out_is p.written_is ih)
]
