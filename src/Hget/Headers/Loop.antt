-- ===== src/Hget/Headers/Loop.antt =====
-- The loop of `read_headers` of board/hget/hget.c on a connection without errors.
use esp32_p4_linux.Common.{
  ℕ, zero, suc, ◌+◌, ◌-◌, ◌≤◌, ◌<◌, ◌≡◌, refl, sym, ap, ◌∙◌, ◌⊎◌, inl, inr, Bool, Option, some, [],
  ◌++◌, ltb, ◌==◌, Bytes, codes, length, arith, append_assoc, length-append, Bool-cases,
  Option-cases, ==_iff,
}
use esp32_p4_linux.Hget.Exit.{Result, done}
use esp32_p4_linux.Hget.Conn.{Net}
use esp32_p4_linux.Hget.Conn.Stream.{IsClean, contents, conn_read-Reads, Reads-end}
use esp32_p4_linux.Hget.Headers.{header_room, split_at, header_loop}

abbrev pub blank : Bytes
blank = codes "\r\n\r\n"

-- The loop ends with a front of the stream, which holds the blank line unless the buffer is full
-- or the stream has ended.
pub record Fills (have : Bytes) (net : Net) (out : Option (Result Bytes × Net)) : Type 0 where
  pub buf : Bytes
  pub rest : Net
  pub result : out ≡ some (done buf, rest)
  pub split : buf ++ contents rest ≡ have ++ contents net
  pub at_most : length buf ≤ header_room
  pub clean : IsClean rest
  pub stops :
      ((ab : Bytes × Bytes) × (split_at blank buf ≡ some ab))
      ⊎ ((header_room ≤ length buf) ⊎ (contents rest ≡ []))

pub header_loop-Fills :
    (fuel : ℕ) (tls : Bool) (have : Bytes) (net : Net)
    → IsClean net
    → length have ≤ header_room
    → header_room < length have + fuel
    → Fills have net (header_loop fuel tls have net)
unfolding header_loop
header_loop-Fills zero tls have net c le h = absurd (omega arith)
header_loop-Fills (suc fuel) tls have net c le h =
    elim (Bool-cases (ltb (length have) header_room)) [
      | inr full ↦ rw full (record {
        buf = have;
        rest = net;
        result = refl;
        split = refl;
        at_most = le;
        clean = c;
        stops = inr (inl (ground arith));
      })
      | inl room ↦ elim (Option-cases (split_at blank have)) [
        | inr (ab, found) ↦
            rw (room, found, header_loop)
              (record {
                buf = have;
                rest = net;
                result = refl;
                split = refl;
                at_most = le;
                clean = c;
                stops = inl (ab, found);
              })
        | inl missing ↦
            let r = conn_read-Reads tls (header_room - length have) net (ground arith) c in
            rw (room, missing, header_loop, r.got, header_loop, r.next)
              (elim (Bool-cases (length r.bytes == 0)) [
                | inl nothing ↦ rw nothing (
                    let (nil, over) = Reads-end r ((==_iff _ _).0 nothing) in
                    record {
                      buf = have;
                      rest = r.rest;
                      result = refl;
                      split = ap (λ t. have ++ t) (over ∙ sym (r.split ∙ rw (nil, over) refl));
                      at_most = le;
                      clean = r.clean;
                      stops = inr (inr over);
                    })
                | inr got ↦ rw got (
                    let len = length-append {0} have r.bytes in
                    let at_most = r.at_most in
                    let f =
                      header_loop-Fills fuel tls (have ++ r.bytes) r.rest r.clean (ground arith)
                        (ground arith) in
                    record {
                      buf = f.buf;
                      rest = f.rest;
                      result = f.result;
                      split =
                          f.split
                          ∙ append_assoc have r.bytes (contents r.rest)
                          ∙ ap (λ t. have ++ t) (sym r.split);
                      at_most = f.at_most;
                      clean = f.clean;
                      stops = f.stops;
                    })
              ])
      ]
    ]
