-- ===== src/Hget/Dial.antt =====
-- `conn_open` of board/hget/hget.c from the name to the open connection, with the two callbacks that
-- it hands to mbedTLS, and `conn_close` behind it: the peers of Hget/Fetch, made of Hget/Connect and Hget/Tls.
pub mod Sockets
pub mod Contexts
use esp32_p4_linux.Common.{
  ℕ, Bool, true, false, Option, none, some, List, [], ◌∷◌, ◌++◌, if◌then◌else◌, Bytes, ℤ, pos,
  negsuc,
}
use esp32_p4_linux.Hget.Exit.{Exit, connect, Result, done, fail}
use esp32_p4_linux.Hget.Url.{Url}
use esp32_p4_linux.Hget.Conn.{Net, WriteEvent}
use esp32_p4_linux.Hget.Output.{FileEvent}
use esp32_p4_linux.Hget.Connect as Connect
use esp32_p4_linux.Hget.Connect.{Addr, Try, Poll, tcp_connect}
use esp32_p4_linux.Hget.Tls.{Mbed, TlsStep, conn_open, conn_close}
use esp32_p4_linux.Hget.Tls as Tls
use esp32_p4_linux.Hget.Fetch.{Peer, World, is_ok}
use esp32_p4_linux.Hget.Main.{Settings}

-- `errno` after `send` or `recv`, as far as the callbacks tell it apart.
pub data Errno : Type 0 where
  eagain ewouldblock eintr other_errno : Errno

-- What `send` or `recv` returns.
pub data Moved : Type 0 where
  moved : ℕ → Moved
  errno : Errno → Moved

-- What the callbacks return to mbedTLS.
pub data Bio : Type 0 where
  count_of : ℕ → Bio
  want_read want_write net_send_failed net_recv_failed : Bio

unfoldable pub bio_send : Moved → Bio
bio_send (moved n) = count_of n
bio_send (errno eagain) = want_write
bio_send (errno ewouldblock) = want_write
bio_send (errno eintr) = want_write
bio_send (errno other_errno) = net_send_failed

unfoldable pub bio_recv : Moved → Bio
bio_recv (moved n) = count_of n
bio_recv (errno eagain) = want_read
bio_recv (errno ewouldblock) = want_read
bio_recv (errno eintr) = want_read
bio_recv (errno other_errno) = net_recv_failed

-- All that a connection meets: the addresses of its name, its sockets from the descriptor `next_fd`
-- on, mbedTLS, and then the stream both ways.
pub record Host : Type 0 where
  pub resolved : Option (List Addr)
  pub attempt : Addr → Try
  pub getfl : ℕ → ℕ
  pub polls : List Poll
  pub next_fd : ℕ
  pub mbed : Mbed
  pub sends : List WriteEvent
  pub net : Net

-- The closings of a log of `conn_open` behind `tcp_connect`.
unfoldable pub socket_events : List TlsStep → List Connect.Event
socket_events [] = []
socket_events (Tls.closed fd ∷ steps) = Connect.closed fd ∷ socket_events steps
socket_events (_ ∷ steps) = socket_events steps

-- `opt_timeout` where it is in use, when it is positive.
unfoldable pub seconds_of : ℤ → ℕ
seconds_of (pos n) = n
seconds_of (negsuc n) = 0

module _ (built : Bool) (s : Settings) (u : Url) (h : Host) where
  -- `conn_open` behind `tcp_connect`, and `conn_close` if it succeeds.
  unfoldable pub connection : Result ℕ → Exit × List TlsStep
  unfolding conn_open conn_close is_ok
  connection r =
      let (e, steps) = conn_open built s.insecure s.ca_file u.host r u.tls h.mbed in
      (e, steps ++ (if is_ok e then conn_close built u.tls r else []))

  -- The exit code of a connection from its name on, and what happens to descriptors.
  unfoldable pub session : Option (Exit × List Connect.Event)
  unfolding tcp_connect connection socket_events seconds_of
  session =
      elim (tcp_connect h.resolved h.attempt h.getfl h.polls (seconds_of s.timeout) h.next_fd) [
        | none ↦ none
        | some (r, log) ↦ let (e, steps) = connection r in some (e, log ++ socket_events steps)
      ]

  -- What `fetch` sees of it.
  unfoldable pub dialled : Peer
  unfolding session
  dialled = elim session [
    | none ↦ record { opened = connect; sends = h.sends; net = h.net }
    | some (e, log) ↦ record { opened = e; sends = h.sends; net = h.net }
  ]

-- The world that hosts make, one for each depth of redirection and URL.
unfoldable pub world_of :
    Bool → (ℕ → Url → Host) → (Bytes → Option (List FileEvent)) → List FileEvent → Settings → World
unfolding dialled
world_of built hosts open_file stdout s = record {
  dial = λ depth u. dialled built s u (hosts depth u);
  open_file = open_file;
  stdout = stdout;
}
