-- ===== src/Hget/Body.antt =====
-- `body_plain` and `body_chunked` of board/hget/hget.c. `none` would be a loop that runs out of
-- its fuel, which the theorems rule out.
pub mod Plain
pub mod Chunked
pub mod Returns
use esp32_p4_linux.Common.{
  ℕ, zero, suc, ◌+◌, ◌-◌, ◌≡◌, Bool, true, false, not, ◌&&◌, Option, none, some, List, [], ◌∷◌,
  ◌++◌, ltb, leb, ◌==◌, if◌then◌else◌, Bytes, ℤ, pos, negsuc, sub_ℕ, ◌-ℤ◌, min, length, take, drop,
}
use esp32_p4_linux.Hget.Exit.{Exit, ok, io}
use esp32_p4_linux.Hget.CString.{strtol16, c_str}
use esp32_p4_linux.Hget.Conn.{Net, segment, conn_read}
use esp32_p4_linux.Hget.Output.{Transfer, put}

-- `IOBUF`
abbrev pub io_buf : ℕ
io_buf = 16384

abbrev pub Outcome : Type 0
Outcome = Option (Exit × Transfer)

pub is_zero : ℤ → Bool
is_zero (pos n) = n == 0
is_zero (negsuc n) = false

-- How much to read next, at a remainder that is not 0; it is negative where no length is known.
pub want_of : ℤ → ℕ
want_of (pos n) = if ltb n io_buf then n else io_buf
want_of (negsuc n) = io_buf

-- The remainder after `n` more bytes.
pub after : ℤ → ℕ → ℤ
after (pos m) n = if ltb 0 m then sub_ℕ m n else pos m
after (negsuc m) n = negsuc m

pub plain_loop : ℕ → Bool → Transfer → ℤ → Outcome
plain_loop zero tls t remain = none
plain_loop (suc fuel) tls t remain = elim (is_zero remain) [
  | true ↦ some (ok, t)
  | false ↦
      let (r, net) = conn_read tls (want_of remain) t.net in
      let t' : Transfer = record t { net = net } in
      elim r [
        | none ↦ some (io, t')
        | some bytes ↦
            let (good, t'') = put t' bytes in
            let rest = plain_loop fuel tls t'' (after remain (length bytes)) in
            if length bytes == 0 then some (ok, t') else if good then rest else some (io, t'')
      ]
]

-- The remainder after the pending bytes.
pub remain_after : ℤ → Bytes → ℤ
remain_after (pos n) pending = sub_ℕ n (length pending)
remain_after (negsuc n) pending = negsuc n

-- `pending` are the bytes of the body that came with the headers, `len` the length given or -1.
pub body_plain : ℕ → Bool → Bytes → ℤ → Transfer → Outcome
body_plain fuel tls pending len t =
    let (good, t') = put t pending in
    if length pending == 0
    then plain_loop fuel tls t len
    else if good
    then plain_loop fuel tls t' (remain_after len pending)
    else some (io, t')

-- `sizeof(line) - 1`
abbrev pub line_buf : ℕ
line_buf = 63

-- A byte of the pending ones, or of the connection; `none` if that ends or fails.
pub next_byte : Bool → Bytes → Net → Option (ℕ × Bytes × Net)
next_byte tls (b ∷ pending) net = some (b, pending, net)
next_byte tls [] net =
    let (r, net') = conn_read tls 1 net in
    elim r [ none ↦ none | some bytes ↦ elim bytes [ [] ↦ none | b ∷ _ ↦ some (b, [], net') ] ]

-- Append unless it is a carriage return or the buffer is full.
abbrev pub keep : Bytes → ℕ → Bytes
keep line b = if not (b == b'\r') && ltb (length line) line_buf then line ++ b ∷ [] else line

-- One line up to its newline: the first `none` is the fuel, the second EX_IO.
pub get_line : ℕ → Bool → Bytes → Bytes → Net → Option (Option (Bytes × Bytes × Net))
get_line zero tls line pending net = none
get_line (suc fuel) tls line pending net = elim (next_byte tls pending net) [
  | none ↦ some none
  | some (b, pending', net') ↦
      let rest = get_line fuel tls (keep line b) pending' net' in
      if b == b'\n' then some (some (line, pending', net')) else rest
]

-- What one round of the payload loop gets: pending bytes first, else one read.
pub get_some : Bool → ℕ → Bytes → Net → Option (Bytes × Bytes × Net)
get_some tls want (b ∷ pending) net = some (take want (b ∷ pending), drop want (b ∷ pending), net)
get_some tls want [] net =
    let (r, net') = conn_read tls want net in
    elim r [ none ↦ none | some bytes ↦ if length bytes == 0 then none else some (bytes, [], net') ]

-- `chunk` payload bytes; the result keeps what is still pending.
pub copy_chunk : ℕ → Bool → ℕ → Bytes → Transfer → Option (Exit × Bytes × Transfer)
copy_chunk zero tls chunk pending t = none
copy_chunk (suc fuel) tls chunk pending t = elim (chunk == 0) [
  | true ↦ some (ok, pending, t)
  | false ↦ elim (get_some tls (min chunk io_buf) pending t.net) [
    | none ↦ some (io, pending, t)
    | some (bytes, pending', net') ↦
        let (good, t') = put (record t { net = net' }) bytes in
        let rest = copy_chunk fuel tls (chunk - length bytes) pending' t' in
        if good then rest else some (io, pending', t')
  ]
]

-- The length that a size line gives: 0 ends the body, and so does a negative one.
unfoldable pub chunk_size : Bytes → ℕ
unfolding strtol16 c_str
chunk_size line = elim (strtol16 (c_str line)) [ pos n ↦ n | negsuc _ ↦ 0 ]

-- A line that is empty is the end of the chunk before it. Each inner loop has its own fuel `f`.
pub chunked_loop : ℕ → ℕ → Bool → Bytes → Transfer → Outcome
chunked_loop zero f tls pending t = none
chunked_loop (suc fuel) f tls pending t = elim (get_line f tls [] pending t.net) [
  | none ↦ none
  | some none ↦ some (io, t)
  | some (some (line, pending', net')) ↦
      let t' : Transfer = record t { net = net' } in
      let again = chunked_loop fuel f tls pending' t' in
      let size = chunk_size line in
      let next : Outcome = elim (copy_chunk f tls size pending' t') [
        | none ↦ none
        | some (e, pending'', t'') ↦ elim e [
          | ok ↦ chunked_loop fuel f tls pending'' t''
          | other ↦ some (other, t'')
        ]
      ] in
      if length line == 0 then again else if size == 0 then some (ok, t') else next
]

pub body_chunked : ℕ → Bool → Bytes → Transfer → Outcome
body_chunked fuel tls pending t = chunked_loop fuel fuel tls pending t
