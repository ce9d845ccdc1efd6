-- ===== src/Hget/Dial/Sockets.antt =====
-- The descriptors of a whole connection of board/hget/hget.c, and of the program.
use esp32_p4_linux.Common.{
  ℕ, ◌+◌, ◌≤◌, ◌<◌, ◌≡◌, refl, Bool, Option, some, List, [], ◌∷◌, ◌++◌, append-nil, Bool-cases,
  Option-cases, inl, inr, Bytes, arith,
}
use esp32_p4_linux.Hget.Exit.{Exit, Result, done, fail}
use esp32_p4_linux.Hget.Url.{Url}
use esp32_p4_linux.Hget.Conn.Weight.{weight}
use esp32_p4_linux.Hget.Output.{FileEvent}
use esp32_p4_linux.Hget.Connect as Connect
use esp32_p4_linux.Hget.Connect.{tcp_connect}
use esp32_p4_linux.Hget.Connect.Closes.{
  opens, closes, handed, opens-append, closes-append, tcp_connect-Closes,
}
use esp32_p4_linux.Hget.Tls.{
  Mbed, TlsStep, seeded, configured, no_verify, must_verify, set_up, shaken, notified, inited,
  freed, trusts, names, tls_open, conn_open, conn_close,
}
use esp32_p4_linux.Hget.Tls as Tls
use esp32_p4_linux.Hget.Tls.Verifies.{closings, tls_open-closings}
use esp32_p4_linux.Hget.Fetch.{Fetched, is_ok, max_redirects}
use esp32_p4_linux.Hget.Fetch.Resources.{Runs, idle, connections}
use esp32_p4_linux.Hget.Main.{Settings, main}
use esp32_p4_linux.Hget.Main.Returns.{main_returns}
use esp32_p4_linux.Hget.Dial.{
  Host, socket_events, seconds_of, connection, session, dialled, world_of,
}

-- Steps that close nothing are no events of descriptors.
socket_events-skip :
    (steps rest : List TlsStep)
    → closings steps ≡ 0
    → socket_events (steps ++ rest) ≡ socket_events rest
unfolding socket_events
socket_events-skip [] rest h = refl
socket_events-skip (seeded ∷ steps) rest h = socket_events-skip steps rest h
socket_events-skip (configured ∷ steps) rest h = socket_events-skip steps rest h
socket_events-skip (no_verify ∷ steps) rest h = socket_events-skip steps rest h
socket_events-skip (must_verify ∷ steps) rest h = socket_events-skip steps rest h
socket_events-skip (set_up ∷ steps) rest h = socket_events-skip steps rest h
socket_events-skip (shaken ∷ steps) rest h = socket_events-skip steps rest h
socket_events-skip (notified ∷ steps) rest h = socket_events-skip steps rest h
socket_events-skip (trusts b ∷ steps) rest h = socket_events-skip steps rest h
socket_events-skip (names b ∷ steps) rest h = socket_events-skip steps rest h
socket_events-skip (inited c ∷ steps) rest h = socket_events-skip steps rest h
socket_events-skip (freed c ∷ steps) rest h = socket_events-skip steps rest h
socket_events-skip (Tls.closed fd ∷ steps) rest h = absurd (omega arith)

-- A log that closes every descriptor as often as it opens it.
abbrev pub Balanced : List Connect.Event → Type 0
Balanced log = (x : ℕ) → opens x log ≡ closes x log

Balanced-append :
    (r : Result ℕ) (log rest : List Connect.Event)
    → ((x : ℕ) → opens x log ≡ closes x log + handed x r)
    → ((x : ℕ) → (opens x rest ≡ 0) × (closes x rest ≡ handed x r))
    → Balanced (log ++ rest)
Balanced-append r log rest h k x =
    let (none_opened, closed_once) = k x in
    omega (arith, h x, none_opened, closed_once, opens-append x log rest, closes-append x log rest)

-- The stream is the host's.
dialled-net : (built : Bool) (s : Settings) (u : Url) (h : Host) → (dialled built s u h).net ≡ h.net
unfolding dialled
dialled-net built s u h = elim (Option-cases (session built s u h)) [
  | inl e ↦ rw (e, dialled) refl
  | inr (found, e) ↦ rw (e, dialled) refl
]

module _ (built : Bool) (s : Settings) (u : Url) (h : Host) where
  -- The socket that `tcp_connect` hands over is closed once, by `conn_open` or by `conn_close`.
  connection-done :
      (fd : ℕ) → socket_events (connection built s u h (done fd)).1 ≡ Connect.closed fd ∷ []
  unfolding connection conn_open conn_close socket_events is_ok
  connection-done fd = elim (Bool-cases u.tls) [
    | inr plain ↦ rw plain refl
    | inl wanted ↦ elim (Bool-cases built) [
      | inr lacks ↦ rw (wanted, lacks) refl
      | inl has ↦
          let none_yet = tls_open-closings s.insecure s.ca_file u.host h.mbed in
          let steps = (tls_open s.insecure s.ca_file u.host h.mbed).1 in
          elim (Bool-cases (tls_open s.insecure s.ca_file u.host h.mbed).0) [
            | inl good ↦ rw (wanted, has, good, socket_events-skip steps _ none_yet) refl
            | inr bad ↦
                rw
                  (
                    wanted,
                    has,
                    bad,
                    append-nil (steps ++ (Tls.closed fd ∷ [])),
                    socket_events-skip steps _ none_yet,
                  )
                  refl
          ]
    ]
  ]

  connection-fail : (e : Exit) → socket_events (connection built s u h (fail e)).1 ≡ []
  unfolding connection conn_open conn_close socket_events
  connection-fail e = elim (Bool-cases (is_ok e)) [
    | inl good ↦ rw good refl
    | inr bad ↦ rw bad refl
  ]

  connection-closes :
      (r : Result ℕ) (x : ℕ)
      → let events = socket_events (connection built s u h r).1 in
        (opens x events ≡ 0) × (closes x events ≡ handed x r)
  connection-closes (done fd) x = rw (connection-done fd) (refl, omega arith)
  connection-closes (fail e) x = rw (connection-fail e) (refl, refl)

  session-found :
      (e : Exit) × (log : List Connect.Event) × ((session built s u h ≡ some (e, log))
        × Balanced log)
  unfolding session
  session-found =
      let (r, log, (e, balance)) =
        tcp_connect-Closes h.resolved h.attempt h.getfl h.polls (seconds_of s.timeout) h.next_fd in
      rw (e, session) (_, _, (refl, Balanced-append r log _ balance (connection-closes r)))

  -- A connection from its name to its end always comes to one, and leaves no descriptor open.
  pub session-Balanced :
      (e : Exit) × (log : List Connect.Event) × ((session built s u h ≡ some (e, log))
        × (((dialled built s u h).opened ≡ e) × Balanced log))
  unfolding dialled
  session-Balanced =
      let (e, log, (found, balance)) = session-found in
      (e, log, (found, (rw (found, dialled) refl, balance)))

-- The program, on hosts that meet whatever they may: with fuel for the longest of the connections
-- and ten rounds it ends, has closed each connection before the next and its file before, has made
-- at most nine connections, and each of them has closed all the descriptors that it opened.
pub main_closes :
    (rounds fuel : ℕ) (built : Bool) (hosts : ℕ → Url → Host)
    (open_file : Bytes → Option (List FileEvent)) (stdout : List FileEvent) (args : List Bytes)
    → ((n : ℕ) (u : Url) → weight (hosts n u).net < fuel)
    → max_redirects + 1 < rounds
    → (d : Fetched) × ((main rounds fuel (world_of built hosts open_file stdout) args ≡ some d)
        × (Runs idle d.log idle
            × ((connections d.log ≤ max_redirects + 1)
                × ((s : Settings) (n : ℕ) (u : Url)
                    → (e : Exit) × (log : List Connect.Event) × ((session built s u (hosts n u)
                          ≡ some (e, log))
                        × ((((world_of built hosts open_file stdout s).dial n u).opened ≡ e)
                            × Balanced log))))))
unfolding world_of
main_closes rounds fuel built hosts open_file stdout args light enough =
    let (d, (e, (runs, few))) =
      main_returns rounds fuel (world_of built hosts open_file stdout) args
        (λ s n u. rw (dialled-net built s u (hosts n u)) (light n u)) enough in
    (d, (e, (runs, (few, λ s n u. session-Balanced built s u (hosts n u)))))
