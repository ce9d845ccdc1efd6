-- ===== src/Tests/Tls.antt =====
-- `conn_open` of board/hget/hget.c on small handshakes.
use esp32_p4_linux.Common.{◌+◌, ◌≡◌, refl, true, false, none, [], ◌∷◌, ◌++◌, codes}
use esp32_p4_linux.Hget.Exit.{ok, done}
use esp32_p4_linux.Hget.Tls.{
  Mbed, ca, want_read, cert_rejected, handshake, contexts_init, conn_open, tls_open,
}
use esp32_p4_linux.Hget.Url.{Url}
use esp32_p4_linux.Hget.Connect.{connected}
use esp32_p4_linux.Hget.Main.{defaults}
use esp32_p4_linux.Hget.Dial.{Host, connection}
use esp32_p4_linux.Hget.Dial.Contexts.{inits, frees, left, connection-frees}
use esp32_p4_linux.Hget.Tls.Verifies.{accepted, Succeeds, conn_open-verifies}

abbrev good_peer : Mbed
good_peer = record {
  seeds = true;
  configures = true;
  reads_ca = true;
  sets_up = true;
  takes_name = true;
  shakes = want_read ∷ [];
  flags = 0;
}

good_peer_ok : (conn_open true false (codes "ca") (codes "b") (done 3) true good_peer).0 ≡ ok
unfolding conn_open tls_open handshake
good_peer_ok = refl

conn_open-verifies_example :
    (true ≡ true)
    × (Succeeds good_peer
        × ((conn_open true false (codes "ca") (codes "b") (done 3) true good_peer).1
            ≡ contexts_init ++ accepted (codes "ca") (codes "b")))
conn_open-verifies_example =
    conn_open-verifies true (codes "ca") (codes "b") 3 good_peer good_peer_ok

abbrev bad_peer : Mbed
bad_peer = record good_peer { shakes = want_read ∷ cert_rejected ∷ [] }

-- An https URL on a host whose certificate is rejected.
abbrev secure : Url
secure = record { tls = true; host = codes "b"; port = codes "443"; path = codes "/" }

abbrev rejected : Host
rejected = record {
  resolved = none;
  attempt = λ a. connected;
  getfl = λ fd. 2;
  polls = [];
  next_fd = 3;
  mbed = bad_peer;
  sends = [];
  net = [];
}

connection-frees_example :
    let (e, log) = connection true defaults secure rejected (done 3) in
    inits ca log ≡ frees ca log + left true true (done 3) e
connection-frees_example = connection-frees true defaults secure rejected (done 3) ca

-- The context of the CA bundle stays set up.
left_example : left true true (done 3) (connection true defaults secure rejected (done 3)).0 ≡ 1
unfolding connection conn_open tls_open handshake
left_example = refl
