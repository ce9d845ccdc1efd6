-- ===== src/Hget/Headers/Returns.antt =====
-- `read_headers` of board/hget/hget.c on any connection, errors included.
use esp32_p4_linux.Common.{
  ℕ, zero, suc, ◌+◌, ◌-◌, ◌≤◌, ◌<◌, ◌≡◌, refl, ap, inl, inr, Bool, Option, some, [], ◌++◌, ltb,
  ◌==◌, Bytes, codes, length, arith, length-append, Bool-cases, Option-cases, List-cases, ◌⊎◌,
}
use esp32_p4_linux.Hget.Exit.{Result, done, fail, io, proto}
use esp32_p4_linux.Hget.CString.{starts_with, from, c_str}
use esp32_p4_linux.Hget.Conn.{Net, conn_read}
use esp32_p4_linux.Hget.Conn.Weight.{weight, conn_read-weight}
use esp32_p4_linux.Hget.Headers.{
  Resp, header_room, split_at, parse_headers, header_loop, read_headers,
}
use esp32_p4_linux.Hget.Headers.Search.{split_at-eq}
use esp32_p4_linux.Hget.Headers.Apart.{pending-fields_of}

-- The loop returns bytes, or EX_IO; `n` bounds the bytes with what is left on the connection.
abbrev Stops : ℕ → Option (Result Bytes × Net) → Type 0
Stops n out =
    (net : Net) × (((buf : Bytes) × ((out ≡ some (done buf, net)) × (length buf + weight net ≤ n)))
      ⊎ (out ≡ some (fail io, net)))

header_loop-Stops :
    (fuel n : ℕ) (tls : Bool) (have : Bytes) (net : Net)
    → header_room < length have + fuel
    → 0 < fuel
    → length have + weight net ≤ n
    → Stops n (header_loop fuel tls have net)
unfolding header_loop
header_loop-Stops zero n tls have net h p le = absurd (omega arith)
header_loop-Stops (suc fuel) n tls have net h p le =
    elim (Bool-cases (ltb (length have) header_room)) [
      | inr full ↦ rw full (net, inl (have, (refl, le)))
      | inl room ↦ elim (Option-cases (split_at (codes "\r\n\r\n") have)) [
        | inr (ab, found) ↦ rw (room, found, header_loop) (net, inl (have, (refl, le)))
        | inl missing ↦
            let r = conn_read tls (header_room - length have) net in
            let w = conn_read-weight tls (header_room - length have) net in
            rw (room, missing, header_loop)
              (elim (Option-cases r.0) [
                | inl bad ↦ rw (bad, header_loop) (r.1, inr refl)
                | inr (bytes, got) ↦
                    rw (got, header_loop)
                      (elim (Bool-cases (length bytes == 0)) [
                        | inl over ↦ rw over (r.1, inl (have, (refl, omega (arith, w.0))))
                        | inr more ↦
                            let len = length-append {0} have bytes in
                            let less = w.1 bytes got in
                            rw more (
                              header_loop-Stops fuel n tls (have ++ bytes) r.1 (ground arith)
                                (ground arith) (omega arith))
                      ])
              ])
      ]
    ]

parse_headers-cases :
    (buf : Bytes)
    → ((r : Resp) × ((parse_headers buf ≡ done r) × (length r.pending ≤ length buf)))
      ⊎ (parse_headers buf ≡ fail proto)
unfolding parse_headers
parse_headers-cases buf = elim (Option-cases (split_at (codes "\r\n\r\n") buf)) [
  | inl missing ↦ rw (missing, parse_headers) (inr refl)
  | inr ((head, pending), found) ↦ elim (Bool-cases (starts_with (codes "HTTP/") buf)) [
    | inr other ↦ rw (found, parse_headers, other) (inr refl)
    | inl http ↦ elim (List-cases (from b' ' (c_str buf))) [
      | inl no_space ↦ rw (found, parse_headers, http, no_space, parse_headers) (inr refl)
      | inr (x, line, e) ↦
          rw (found, parse_headers, http, e, parse_headers)
            (inl (
              _,
              (
                refl,
                rw (pending-fields_of head _) (
                    omega (
                      arith,
                      ap length (split_at-eq (codes "\r\n\r\n") buf found),
                      length-append {0} head (codes "\r\n\r\n" ++ pending),
                    )),
              ),
            ))
    ]
  ]
]

-- With fuel for one more read than the buffer has bytes, read_headers returns on every connection,
-- whatever errors it meets: EX_IO, EX_PROTO, or a response, of which the pending bytes with what is
-- left on the connection are no more than what was on it.
pub read_headers_returns :
    (fuel : ℕ) (tls : Bool) (net : Net)
    → header_room < fuel
    → (rest : Net) × (((r : Resp) × ((read_headers fuel tls net ≡ some (done r, rest))
            × (length r.pending + weight rest ≤ weight net)))
        ⊎ ((read_headers fuel tls net ≡ some (fail io, rest))
            ⊎ (read_headers fuel tls net ≡ some (fail proto, rest))))
unfolding read_headers
read_headers_returns fuel tls net enough =
    let (rest, stops) =
      header_loop-Stops fuel (weight net) tls [] net (omega arith) (omega arith) (omega arith) in
    elim stops [
      | inr bad ↦ rw (bad, read_headers) (rest, inr (inl refl))
      | inl (buf, (good, le)) ↦
          rw (good, read_headers)
            (elim (parse_headers-cases buf) [
              | inl (r, (e, short)) ↦ rw e (rest, inl (r, (refl, omega arith)))
              | inr e ↦ rw e (rest, inr (inr refl))
            ])
    ]
