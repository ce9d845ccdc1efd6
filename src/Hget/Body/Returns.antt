-- ===== src/Hget/Body/Returns.antt =====
-- The loops of `body_plain` and `body_chunked` on any connection and file, errors included: each
-- ends, since every read takes a byte or is the last.
use esp32_p4_linux.Common.{
  ℕ, zero, suc, ◌<◌, ◌≡◌, refl, inl, inr, Bool, some, ◌==◌, Bytes, ℤ, length, arith, Bool-cases,
  Option-cases,
}
use esp32_p4_linux.Hget.Exit.{Exit}
use esp32_p4_linux.Hget.Conn.{conn_read}
use esp32_p4_linux.Hget.Conn.Weight.{weight, conn_read-weight}
use esp32_p4_linux.Hget.Output.{Transfer, put, put-net}
use esp32_p4_linux.Hget.Body.{
  Outcome, is_zero, want_of, after, remain_after, plain_loop, body_plain,
}

abbrev Ends : Outcome → Type 0
Ends out = (r : Exit × Transfer) × (out ≡ some r)

plain_loop-Ends :
    (fuel : ℕ) (tls : Bool) (t : Transfer) (remain : ℤ)
    → weight t.net < fuel
    → Ends (plain_loop fuel tls t remain)
unfolding plain_loop
plain_loop-Ends zero tls t remain h = absurd (omega arith)
plain_loop-Ends (suc fuel) tls t remain h = elim (Bool-cases (is_zero remain)) [
  | inl end ↦ rw (end, plain_loop) (_, refl)
  | inr more ↦
      let r = conn_read tls (want_of remain) t.net in
      let t' : Transfer = record t { net = r.1 } in
      let w = conn_read-weight tls (want_of remain) t.net in
      rw (more, plain_loop)
        (elim (Option-cases r.0) [
          | inl bad ↦ rw (bad, plain_loop) (_, refl)
          | inr (bytes, got) ↦
              let len = w.1 bytes got in
              rw (got, plain_loop)
                (elim (Bool-cases (length bytes == 0)) [
                  | inl over ↦ rw over (_, refl)
                  | inr some_bytes ↦
                      let n = put-net t' bytes in
                      let ih =
                        plain_loop-Ends fuel tls (put t' bytes).1 (after remain (length bytes))
                          (ground arith) in
                      rw some_bytes (elim (Bool-cases (put t' bytes).0) [
                        | inl good ↦ rw good ih
                        | inr bad ↦ rw bad (_, refl)
                      ])
                ])
        ])
]

-- body_plain returns on every connection and every file, with fuel for one round more than the
-- events and bytes that the connection has.
pub body_plain_returns :
    (fuel : ℕ) (tls : Bool) (pending : Bytes) (len : ℤ) (t : Transfer)
    → weight t.net < fuel
    → (r : Exit × Transfer) × (body_plain fuel tls pending len t ≡ some r)
unfolding body_plain
body_plain_returns fuel tls pending len t h =
    let n = put-net t pending in
    elim (Bool-cases (length pending == 0)) [
      | inl nothing ↦ rw nothing (plain_loop-Ends fuel tls t len h)
      | inr more ↦ rw more (elim (Bool-cases (put t pending).0) [
        | inl good ↦
            rw good (plain_loop-Ends fuel tls (put t pending).1 (remain_after len pending) (rw n h))
        | inr bad ↦ rw bad (_, refl)
      ])
    ]
