-- ===== src/Hget/Fetch/Resources.antt =====
-- `fetch` of board/hget/hget.c returns, closes what it opens, and makes no more than nine
-- connections, whatever the servers do.
use esp32_p4_linux.Common.{
  ℕ, zero, suc, ◌+◌, ◌-◌, ◌≤◌, ◌<◌, ◌≡◌, refl, ◌⊎◌, inl, inr, Bool, ◌&&◌, ◌||◌, Option, none, some,
  List, [], ◌∷◌, ◌++◌, ltb, leb, Bytes, codes, pos, leb_ℤ, length, arith, Bool-cases, Option-cases,
  not-ltb→le,
}
use esp32_p4_linux.Hget.Exit.{Exit, Result-cases}
use esp32_p4_linux.Hget.CString.{starts_with}
use esp32_p4_linux.Hget.Url.{Url, url_parse}
use esp32_p4_linux.Hget.Conn.{Net, conn_write}
use esp32_p4_linux.Hget.Conn.Weight.{weight}
use esp32_p4_linux.Hget.Output.{FileEvent, Transfer}
use esp32_p4_linux.Hget.Body.{Outcome}
use esp32_p4_linux.Hget.Body.Returns.{body_plain_returns}
use esp32_p4_linux.Hget.Body.Chunked.Returns.{size, body_chunked_returns}
use esp32_p4_linux.Hget.Headers.{Resp, header_room}
use esp32_p4_linux.Hget.Headers.Returns.{read_headers_returns}
use esp32_p4_linux.Hget.Fetch.{
  World, Options, Peer, Event, connected, sent, file_opened, file_closed, closed, Fetched, Next,
  stop, follow_to, finish, and_close, save, respond, exchange, is_ok, fetch, max_redirects,
  redirects, names_file, body_of_resp, request, req_buf,
}

-- What is open: nothing, a connection, or a connection and the output file.
pub data Phase : Type 0 where
  idle talking saving : Phase

abbrev pub step : Phase → Event → Option Phase
step idle (connected u) = some talking
step talking (sent bytes) = some talking
step talking (file_opened path) = some saving
step saving file_closed = some talking
step talking closed = some idle
step _ _ = none

-- The log leads from one phase to another: it opens only what is closed, and closes only what is
-- open.
abbrev pub Runs : Phase → List Event → Phase → Type 0
Runs p [] q = p ≡ q
Runs p (e ∷ log) q = (p' : Phase) × ((step p e ≡ some p') × Runs p' log q)

abbrev pub connections : List Event → ℕ
connections [] = 0
connections (connected u ∷ log) = suc (connections log)
connections (_ ∷ log) = connections log

Runs-append :
    (p q r : Phase) (log more : List Event) → Runs p log q → Runs q more r → Runs p (log ++ more) r
Runs-append p q r [] more h k = rw h k
Runs-append p q r (e ∷ log) more (p', (s, h)) k = (p', (s, Runs-append p' q r log more h k))

connections-append :
    (log more : List Event) → connections (log ++ more) ≡ connections log + connections more
connections-append [] more = omega arith
connections-append (connected u ∷ log) more = omega (arith, connections-append log more)
connections-append (sent b ∷ log) more = connections-append log more
connections-append (file_opened b ∷ log) more = connections-append log more
connections-append (file_closed ∷ log) more = connections-append log more
connections-append (closed ∷ log) more = connections-append log more

-- What an exchange leaves behind: everything closed, and one connection made.
abbrev Tidy : List Event → Type 0
Tidy log = Runs idle log idle × (connections log ≤ 1)

abbrev Closes : Next → Type 0
Closes (stop d) = Tidy d.log
Closes (follow_to next log) = Tidy log

abbrev Ends : Option Next → Type 0
Ends out = (n : Next) × ((out ≡ some n) × Closes n)

-- A log up to here, with the connection open.
abbrev Open : List Event → Type 0
Open log = Runs idle log talking × (connections log ≤ 1)

and_close-Tidy : (log : List Event) → Open log → Tidy (and_close log)
and_close-Tidy log (h, n) = (
  Runs-append idle talking idle log (closed ∷ []) h (idle, (refl, refl)),
  omega (arith, connections-append log (closed ∷ [])),
)

finish-Ends :
    (out : Outcome) (log : List Event)
    → ((r : Exit × Transfer) × (out ≡ some r))
    → Tidy log
    → Ends (finish out log)
unfolding finish
finish-Ends out log ((e, t), h) tidy = rw (h, finish) (_, (refl, tidy))

body_of_resp-returns :
    (fuel : ℕ) (tls : Bool) (r : Resp) (net : Net) (file : List FileEvent)
    → size r.pending net < fuel
    → (d : Exit × Transfer) × (body_of_resp fuel tls r net file ≡ some d)
unfolding body_of_resp
body_of_resp-returns fuel tls r net file h =
    let t : Transfer = record { net = net; file = file; out = []; written = 0 } in
    elim (Bool-cases r.chunked) [
      | inl chunked ↦ rw chunked (body_chunked_returns fuel tls r.pending t h)
      | inr plain ↦ rw plain (body_plain_returns fuel tls r.pending r.length t (omega arith))
    ]

save-Ends :
    (fuel : ℕ) (w : World) (o : Options) (tls : Bool) (log : List Event) (r : Resp) (net : Net)
    → size r.pending net < fuel
    → Open log
    → Ends (save fuel w o tls log r net)
unfolding save
save-Ends fuel w o tls log r net h op = elim (Option-cases (names_file o.out_path)) [
  | inl std ↦
      rw (std, save)
        (finish-Ends _ _ (body_of_resp-returns fuel tls r net w.stdout h) (and_close-Tidy log op))
  | inr (path, named) ↦ elim (Option-cases (w.open_file path)) [
    | inl bad ↦ rw (named, save, bad, save) (_, (refl, and_close-Tidy log op))
    | inr (file, good) ↦
        let log' = log ++ (file_opened path ∷ file_closed ∷ []) in
        let op' : Open log' = (
          Runs-append idle talking talking log (file_opened path ∷ file_closed ∷ []) op.0
              (saving, (refl, (talking, (refl, refl)))),
          omega (arith, connections-append log (file_opened path ∷ file_closed ∷ [])),
        ) in
        rw (named, save, good, save)
          (finish-Ends _ _ (body_of_resp-returns fuel tls r net file h) (and_close-Tidy log' op'))
  ]
]

respond-Ends :
    (fuel : ℕ) (w : World) (o : Options) (tls : Bool) (log : List Event) (r : Resp) (net : Net)
    → size r.pending net < fuel
    → Open log
    → Ends (respond fuel w o tls log r net)
unfolding respond
respond-Ends fuel w o tls log r net h op =
    let tidy = and_close-Tidy log op in
    elim (Bool-cases (redirects r && o.follow)) [
      | inl follows ↦
          elim (Bool-cases (
            starts_with (codes "http://") r.location
            || starts_with (codes "https://") r.location)) [
              | inl absolute ↦ rw (follows, absolute) (_, (refl, tidy))
              | inr relative ↦ rw (follows, relative) (_, (refl, tidy))
            ]
      | inr stays ↦ elim (Bool-cases (leb_ℤ (pos 400) r.status)) [
        | inl bad ↦ rw (stays, bad) (_, (refl, tidy))
        | inr good ↦ rw (stays, good) (save-Ends fuel w o tls log r net h op)
      ]
    ]

exchange-Ends :
    (fuel : ℕ) (w : World) (o : Options) (u : Url) (p : Peer)
    → weight p.net < fuel
    → Ends (exchange fuel w o u p)
unfolding exchange
exchange-Ends fuel w o u p h =
    let log = connected u ∷ sent (conn_write p.sends (request u)).1 ∷ [] in
    let op : Open log = ((talking, (refl, (talking, (refl, refl)))), omega arith) in
    let tidy = and_close-Tidy log op in
    elim (Bool-cases (leb req_buf (length (request u)))) [
      | inl long ↦
          rw long
            (_, (refl, and_close-Tidy (connected u ∷ []) ((talking, (refl, refl)), omega arith)))
      | inr fits ↦ elim (Bool-cases (conn_write p.sends (request u)).0) [
        | inr bad ↦ rw (fits, bad) (_, (refl, tidy))
        | inl good ↦
            let (rest, r) = read_headers_returns (suc header_room) u.tls p.net (omega arith) in
            rw (fits, good)
              (elim r [
                | inl (r, (e, le)) ↦
                    rw (e, exchange) (respond-Ends fuel w o u.tls log r rest (omega arith) op)
                | inr (inl e) ↦ rw (e, exchange) (_, (refl, tidy))
                | inr (inr e) ↦ rw (e, exchange) (_, (refl, tidy))
              ])
      ]
    ]

Ends-cases :
    (out : Option Next)
    → Ends out
    → ((d : Fetched) × ((out ≡ some (stop d)) × Tidy d.log))
      ⊎ ((next : Bytes) × (log : List Event) × ((out ≡ some (follow_to next log)) × Tidy log))
Ends-cases out (stop d, (e, c)) = inl (d, (e, c))
Ends-cases out (follow_to next log, (e, c)) = inr (next, log, (e, c))

-- With fuel for the longest of the connections, and from any depth with a round for every redirect
-- that is left, fetch returns whatever the servers and the file system do; its log closes every
-- connection before the next is opened and the output file before its connection, and nothing is
-- left open at the end; and it makes at most nine connections in all.
pub fetch_returns :
    (rounds fuel : ℕ) (w : World) (o : Options) (s : Bytes) (depth : ℕ)
    → ((n : ℕ) (u : Url) → weight (w.dial n u).net < fuel)
    → depth ≤ max_redirects + 1
    → max_redirects + 1 < rounds + depth
    → (d : Fetched) × ((fetch rounds fuel w o s depth ≡ some d)
        × (Runs idle d.log idle × (connections d.log ≤ max_redirects + 1 - depth)))
unfolding fetch
fetch_returns zero fuel w o s depth h le enough = absurd (omega arith)
fetch_returns (suc rounds) fuel w o s depth h le enough =
    elim (Bool-cases (ltb max_redirects depth)) [
      | inl deep ↦ rw (deep, fetch) (_, (refl, (refl, omega arith)))
      | inr ok_depth ↦
          let shallow = not-ltb→le max_redirects depth ok_depth in
          elim (Result-cases (url_parse s)) [
            | inr (e, bad_url) ↦
                rw (ok_depth, fetch, bad_url, fetch) (_, (refl, (refl, omega arith)))
            | inl (u, good_url) ↦ elim (Bool-cases (is_ok (w.dial depth u).opened)) [
              | inr no_peer ↦
                  rw (ok_depth, fetch, good_url, fetch, no_peer, fetch)
                    (_, (refl, (refl, omega arith)))
              | inl peer ↦
                  elim (Ends-cases _ (exchange-Ends fuel w o u (w.dial depth u) (h depth u))) [
                    | inl (d, (e, (runs, one))) ↦
                        rw (ok_depth, fetch, good_url, fetch, peer, fetch, e, fetch)
                          (d, (refl, (runs, omega arith)))
                    | inr (next, log, (e, (runs, one))) ↦
                        let (d, (e', (runs', few))) =
                          fetch_returns rounds fuel w o next (suc depth) h (omega arith)
                            (omega arith) in
                        rw (ok_depth, fetch, good_url, fetch, peer, fetch, e, fetch, e', fetch)
                          (
                            _,
                            (
                              refl,
                              (
                                Runs-append idle idle idle log d.log runs runs',
                                omega (arith, connections-append log d.log),
                              ),
                            ),
                          )
                  ]
            ]
          ]
    ]
