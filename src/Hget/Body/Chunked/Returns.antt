-- ===== src/Hget/Body/Chunked/Returns.antt =====
-- `body_chunked` of board/hget/hget.c on any connection and file, errors included.
use esp32_p4_linux.Common.{
  ℕ, zero, suc, ◌+◌, ◌-◌, ◌≤◌, ◌<◌, ◌≡◌, refl, ap, ◌⊎◌, inl, inr, Bool, Option, none, some, [], ◌∷◌,
  ◌==◌, Bytes, length, min, arith, length-drop, Bool-cases, Option-cases, List-cases,
}
use esp32_p4_linux.Hget.Exit.{Exit, ok, io}
use esp32_p4_linux.Hget.Conn.{Net, conn_read}
use esp32_p4_linux.Hget.Conn.Weight.{weight, conn_read-weight}
use esp32_p4_linux.Hget.Output.{Transfer, put, put-net}
use esp32_p4_linux.Hget.Body.{
  Outcome, io_buf, next_byte, keep, get_line, get_some, copy_chunk, chunk_size, chunked_loop,
  body_chunked,
}

-- What is still to come, the pending bytes included.
abbrev pub size : Bytes → Net → ℕ
size pending net = length pending + weight net

next_byte-size :
    (tls : Bool) (pending : Bytes) (net : Net) {b : ℕ} {pending' : Bytes} {net' : Net}
    → next_byte tls pending net ≡ some (b, pending', net')
    → size pending' net' < size pending net
unfolding next_byte
next_byte-size tls (x ∷ pending) net h = ground arith
next_byte-size tls [] net {b} {pending'} {net'} h =
    let r = conn_read tls 1 net in
    elim (Option-cases r.0) [
      | inl bad ↦
          let h' : ◌≡◌ {A = Option (ℕ × Bytes × Net)} none (some (b, pending', net')) =
            (rw (bad, next_byte) at h) in
          cc
      | inr (bytes, got) ↦ elim (List-cases bytes) [
        | inl nil ↦
            let h' : ◌≡◌ {A = Option (ℕ × Bytes × Net)} none (some (b, pending', net')) =
              (rw (got, next_byte, nil) at h) in
            cc
        | inr (x, xs, e) ↦
            let w = (conn_read-weight tls 1 net).1 bytes got in
            let h' : ◌≡◌ {A = Option (ℕ × Bytes × Net)} (some (x, [], r.1))
                (some (b, pending', net')) =
              (rw (got, next_byte, e) at h) in
            let m : length bytes ≡ suc (length xs) = ap length e in ground arith
      ]
    ]

-- The line loop fails, or takes at least one byte.
abbrev Gets : ℕ → Option (Option (Bytes × Bytes × Net)) → Type 0
Gets n out =
    (out ≡ some none)
    ⊎ ((line : Bytes) × (pending : Bytes) × (net : Net) × ((out ≡ some (some (line, pending, net)))
          × (size pending net < n)))

get_line-Gets :
    (fuel n : ℕ) (tls : Bool) (line pending : Bytes) (net : Net)
    → size pending net < fuel
    → size pending net ≤ n
    → Gets n (get_line fuel tls line pending net)
unfolding get_line
get_line-Gets zero n tls line pending net h le = absurd (omega arith)
get_line-Gets (suc fuel) n tls line pending net h le =
    elim (Option-cases (next_byte tls pending net)) [
      | inl over ↦ rw (over, get_line) (inl refl)
      | inr ((b, pending', net'), got) ↦
          let less = next_byte-size tls pending net got in
          rw (got, get_line)
            (elim (Bool-cases (b == b'\n')) [
              | inl newline ↦ rw newline (inr (line, pending', net', (refl, omega arith)))
              | inr other ↦
                  rw other (
                    get_line-Gets fuel n tls (keep line b) pending' net' (omega arith)
                      (omega arith))
            ])
    ]

get_some-size :
    (tls : Bool) (want : ℕ) (pending : Bytes) (net : Net) {bytes pending' : Bytes} {net' : Net}
    → 0 < want
    → get_some tls want pending net ≡ some (bytes, pending', net')
    → size pending' net' < size pending net
unfolding get_some
get_some-size tls want (x ∷ pending) net p h =
    let n = length-drop {0} want (x ∷ pending) in ground arith
get_some-size tls want [] net {bytes = bs} {pending'} {net'} p h =
    let r = conn_read tls want net in
    elim (Option-cases r.0) [
      | inl bad ↦
          let h' : ◌≡◌ {A = Option (Bytes × Bytes × Net)} none (some (bs, pending', net')) =
            (rw (bad, get_some) at h) in
          cc
      | inr (bytes, got) ↦
          let w = (conn_read-weight tls want net).1 bytes got in
          elim (Bool-cases (length bytes == 0)) [
            | inl nil ↦
                let h' : ◌≡◌ {A = Option (Bytes × Bytes × Net)} none (some (bs, pending', net')) =
                  (rw (got, get_some, nil) at h) in
                cc
            | inr more ↦
                let h' : ◌≡◌ {A = Option (Bytes × Bytes × Net)} (some (bytes, [], r.1))
                    (some (bs, pending', net')) =
                  (rw (got, get_some, more) at h) in
                ground arith
          ]
    ]

abbrev Copies : ℕ → Option (Exit × Bytes × Transfer) → Type 0
Copies n out =
    (e : Exit) × (pending : Bytes) × (t : Transfer) × ((out ≡ some (e, pending, t))
      × (size pending t.net ≤ n))

copy_chunk-Copies :
    (fuel n : ℕ) (tls : Bool) (chunk : ℕ) (pending : Bytes) (t : Transfer)
    → size pending t.net < fuel
    → size pending t.net ≤ n
    → Copies n (copy_chunk fuel tls chunk pending t)
unfolding copy_chunk
copy_chunk-Copies zero n tls chunk pending t h le = absurd (omega arith)
copy_chunk-Copies (suc fuel) n tls chunk pending t h le = elim (Bool-cases (chunk == 0)) [
  | inl end ↦ rw (end, copy_chunk) (ok, pending, t, (refl, le))
  | inr more ↦ elim (Option-cases (get_some tls (min chunk io_buf) pending t.net)) [
    | inl bad ↦ rw (more, copy_chunk, bad, copy_chunk) (io, pending, t, (refl, le))
    | inr ((bytes, pending', net'), got) ↦
        let less = get_some-size tls (min chunk io_buf) pending t.net (ground arith) got in
        let t' : Transfer = record t { net = net' } in
        let n' = put-net t' bytes in
        let kept : size pending' (put t' bytes).1.net ≡ size pending' net' = rw n' refl in
        let ih =
          copy_chunk-Copies fuel n tls (chunk - length bytes) pending' (put t' bytes).1
            (omega arith) (omega arith) in
        rw (more, copy_chunk, got, copy_chunk)
          (elim (Bool-cases (put t' bytes).0) [
            | inl good ↦ rw good ih
            | inr failed ↦ rw failed (io, pending', (put t' bytes).1, (refl, omega arith))
          ])
  ]
]

ends_of :
    (e : Exit) (t : Transfer) (next : Outcome)
    → (r : Exit × Transfer) × (next ≡ some r)
    → (r : Exit × Transfer) × (◌≡◌ {A = Outcome}
        (elim e [ ok ↦ next | other ↦ some (other, t) ])
        (some r))
ends_of ok t next h = h
ends_of e t next h = (_, refl)

chunked_loop-Ends :
    (fuel f : ℕ) (tls : Bool) (pending : Bytes) (t : Transfer)
    → size pending t.net < fuel
    → size pending t.net < f
    → (r : Exit × Transfer) × (chunked_loop fuel f tls pending t ≡ some r)
unfolding chunked_loop
chunked_loop-Ends zero f tls pending t h hf = absurd (omega arith)
chunked_loop-Ends (suc fuel) f tls pending t h hf =
    elim (get_line-Gets f (size pending t.net) tls [] pending t.net hf (omega arith)) [
      | inl bad ↦ rw (bad, chunked_loop) (_, refl)
      | inr (line, pending', net', (got, less)) ↦
          let t' : Transfer = record t { net = net' } in
          let copied =
            copy_chunk-Copies f (size pending' net') tls (chunk_size line) pending' t' (omega arith)
              (omega arith) in
          rw (got, chunked_loop)
            (elim (Bool-cases (length line == 0)) [
              | inl blank ↦
                  rw blank (chunked_loop-Ends fuel f tls pending' t' (omega arith) (omega arith))
              | inr sized ↦ rw sized (elim (Bool-cases (chunk_size line == 0)) [
                | inl last ↦ rw last (_, refl)
                | inr more ↦
                    let (e, pending'', t'', (ce, le)) = copied in
                    let ih =
                      chunked_loop-Ends fuel f tls pending'' t'' (omega arith) (omega arith) in
                    rw (more, ce, chunked_loop) (ends_of e t'' _ ih)
              ])
            ])
    ]

-- body_chunked returns on every connection and every file, with fuel for one round more than the
-- pending bytes and the events and bytes that the connection has.
pub body_chunked_returns :
    (fuel : ℕ) (tls : Bool) (pending : Bytes) (t : Transfer)
    → size pending t.net < fuel
    → (r : Exit × Transfer) × (body_chunked fuel tls pending t ≡ some r)
unfolding body_chunked
body_chunked_returns fuel tls pending t h = chunked_loop-Ends fuel fuel tls pending t h h
