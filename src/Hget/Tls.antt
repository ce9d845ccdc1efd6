-- ===== src/Hget/Tls.antt =====
-- `conn_open` of board/hget/hget.c behind `tcp_connect`. What mbedTLS returns is a parameter; the
-- calls that cannot fail stand in the log with those that can.
pub mod Verifies
use esp32_p4_linux.Common.{
  ℕ, ◌≡◌, Bool, true, false, not, ◌&&◌, ◌||◌, List, [], ◌∷◌, ◌++◌, ◌==◌, if◌then◌else◌, Bytes,
}
use esp32_p4_linux.Hget.Exit.{Exit, ok, tls, Result, done, fail}

-- What `mbedtls_ssl_handshake` returns besides 0.
pub data Shake : Type 0 where
  want_read want_write cert_rejected broken : Shake

-- Whether the calls succeed; what the handshake returns before 0, if it gets there; the verify
-- result.
pub record Mbed : Type 0 where
  pub seeds : Bool
  pub configures : Bool
  pub reads_ca : Bool
  pub sets_up : Bool
  pub takes_name : Bool
  pub shakes : List Shake
  pub flags : ℕ

-- What `mbedtls_ssl_init` and its likes set up, and `mbedtls_ssl_free` and its likes free.
pub data Context : Type 0 where
  ssl conf entropy drbg ca : Context

pub data TlsStep : Type 0 where
  seeded configured no_verify must_verify set_up shaken notified : TlsStep
  inited freed : Context → TlsStep
  trusts names : Bytes → TlsStep
  closed : ℕ → TlsStep

-- The handshake loop goes on while it wants to read or write.
unfoldable pub handshake : List Shake → Bool
handshake [] = true
handshake (want_read ∷ shakes) = handshake shakes
handshake (want_write ∷ shakes) = handshake shakes
handshake (cert_rejected ∷ shakes) = false
handshake (broken ∷ shakes) = false

-- A call, and what follows if it succeeds; `false` is the jump to `fail`.
abbrev pub attempt : Bool → List TlsStep → Bool × List TlsStep → Bool × List TlsStep
attempt good steps rest = if good then (rest.0, steps ++ rest.1) else (false, [])

unfoldable pub tls_open : Bool → Bytes → Bytes → Mbed → Bool × List TlsStep
unfolding handshake
tls_open insecure ca_file host m =
    let last =
      attempt (handshake m.shakes) []
        (attempt (m.flags == 0 || insecure) (shaken ∷ []) (true, [])) in
    let named = attempt m.sets_up (set_up ∷ []) (attempt m.takes_name (names host ∷ []) last) in
    let verified =
      if insecure
      then attempt true (no_verify ∷ []) named
      else attempt m.reads_ca (trusts ca_file ∷ must_verify ∷ []) named in
    attempt m.seeds (seeded ∷ []) (attempt m.configures (configured ∷ []) verified)

abbrev pub contexts_init : List TlsStep
contexts_init = inited ssl ∷ inited conf ∷ inited entropy ∷ inited drbg ∷ inited ca ∷ []

-- `built` is whether the program is built with mbedTLS; `connected` is what `tcp_connect` returns.
unfoldable pub conn_open :
    Bool → Bool → Bytes → Bytes → Result ℕ → Bool → Mbed → Exit × List TlsStep
unfolding tls_open
conn_open built insecure ca_file host connected wants_tls m = elim connected [
  | fail e ↦ (e, [])
  | done fd ↦
      let (good, log) = tls_open insecure ca_file host m in
      if not wants_tls
      then (ok, [])
      else if not built
      then (tls, closed fd ∷ [])
      else if good
      then (ok, contexts_init ++ log)
      else (tls, contexts_init ++ (log ++ (closed fd ∷ [])))
]

abbrev pub contexts_free : List TlsStep
contexts_free = notified ∷ freed ssl ∷ freed conf ∷ freed ca ∷ freed drbg ∷ freed entropy ∷ []

-- `conn_close` of what `tcp_connect` has returned.
unfoldable pub conn_close : Bool → Bool → Result ℕ → List TlsStep
conn_close built wants_tls (fail e) = []
conn_close built wants_tls (done fd) =
    (if wants_tls && built then contexts_free else []) ++ (closed fd ∷ [])
