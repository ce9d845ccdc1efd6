-- ===== src/Hget/Conn.antt =====
-- `conn_read` and `conn_write` of board/hget/hget.c. What the calls of the kernel and of mbedTLS
-- return is a list of events, in order; a list that has ended is a peer that has closed, or a
-- socket that takes everything.
pub mod Stream
pub mod Weight
use esp32_p4_linux.Common.{
  ℕ, ◌-◌, Bool, true, false, Option, none, some, List, [], ◌∷◌, ◌++◌, ltb, if◌then◌else◌, Bytes,
  length, take, drop,
}

-- What `recv` or `mbedtls_ssl_read` meets next.
pub data ReadEvent : Type 0 where
  -- Bytes that arrive together; a read takes as many as it has room for.
  segment : Bytes → ReadEvent
  -- EINTR, or under TLS a wish to read or write first.
  again : ReadEvent
  -- The TLS close notification.
  close_notify : ReadEvent
  -- Any other error, a timeout included.
  failed : ReadEvent

abbrev pub Net : Type 0
Net = List ReadEvent

abbrev push_back : Bytes → Net → Net
push_back [] net = net
push_back (b ∷ bs) net = segment (b ∷ bs) ∷ net

-- The bytes read, none of them at the end of the stream; `none` is -1.
unfoldable pub conn_read : Bool → ℕ → Net → Option Bytes × Net
conn_read tls len [] = (some [], [])
conn_read tls len (segment bs ∷ net) = (some (take len bs), push_back (drop len bs) net)
conn_read tls len (again ∷ net) = conn_read tls len net
conn_read tls len (close_notify ∷ net) = (if tls then some [] else none, net)
conn_read tls len (failed ∷ net) = (none, net)

-- What `send` or `mbedtls_ssl_write` meets next.
pub data WriteEvent : Type 0 where
  -- At most this many bytes are taken.
  takes : ℕ → WriteEvent
  again : WriteEvent
  failed : WriteEvent

-- The result (false is -1), the bytes that went out, and the events left. A call that takes
-- nothing fails.
unfoldable pub conn_write : List WriteEvent → Bytes → Bool × Bytes × List WriteEvent
conn_write es [] = (true, [], es)
conn_write [] (b ∷ bs) = (true, b ∷ bs, [])
conn_write (takes k ∷ es) (b ∷ bs) =
    let (good, sent, es') = conn_write es (drop k (b ∷ bs)) in
    if ltb 0 k then (good, take k (b ∷ bs) ++ sent, es') else (false, [], es)
conn_write (again ∷ es) (b ∷ bs) = conn_write es (b ∷ bs)
conn_write (failed ∷ es) (b ∷ bs) = (false, [], es)
