-- ===== src/Hget/Url.antt =====
-- `url_parse` of board/hget/hget.c.
pub mod Grammar
pub mod Bounds
use esp32_p4_linux.Common.{
  ℕ, ◌+◌, Bool, true, false, ◌||◌, List, [], ◌∷◌, leb, ◌==◌, if◌then◌else◌, Bytes, codes, length,
  drop,
}
use esp32_p4_linux.Hget.Exit.{Exit, url, Result, done, fail}
use esp32_p4_linux.Hget.CString.{starts_with, from, before}

-- `HOSTBUF`, `sizeof(u->port)` and `URLBUF`
abbrev pub host_buf : ℕ
host_buf = 256

abbrev pub port_buf : ℕ
port_buf = 8

abbrev pub url_buf : ℕ
url_buf = 2048

-- `struct url`
pub record Url : Type 0 where
  pub tls : Bool
  pub host : Bytes
  pub port : Bytes
  pub path : Bytes

-- A host that does not begin with a bracket, from its colon on.
pub split_port : Url → Bytes → Result Url
split_port u [] = done u
split_port u (_ ∷ port) =
    if leb port_buf (length port)
    then fail url
    else done (record u { port = port; host = before b':' u.host })

-- `close_br[1]` and what follows; the address stands between the brackets.
pub literal_port : Url → Bytes → Result Url
literal_port u [] = done u
literal_port u (c ∷ port) =
    if c == b':'
    then if leb port_buf (length port) then fail url else done (record u { port = port })
    else done u

-- A host that begins with a bracket, from the closing one on.
pub split_literal : Url → Bytes → Result Url
unfolding literal_port
split_literal u [] = fail url
split_literal u (_ ∷ after) = literal_port (record u { host = drop 1 (before b']' u.host) }) after

-- The port in the host, if there is one.
pub split_host : Url → Bytes → Result Url
unfolding split_port split_literal
split_host u [] = split_port u (from b':' u.host)
split_host u (c ∷ _) =
    if c == b'[' then split_literal u (from b']' u.host) else split_port u (from b':' u.host)

path_of : Bytes → Bytes
path_of [] = codes "/"
path_of (c ∷ s) = c ∷ s

-- `p` is what follows the scheme, and `slash` the part of it from the first slash on.
pub parse_from : Bool → Bytes → Bytes → Bytes → Result Url
unfolding split_host path_of
parse_from tls port p slash =
    let host = before b'/' p in
    let u : Url = record { tls = tls; host = host; port = port; path = path_of slash } in
    if leb url_buf (length slash)
    then fail url
    else if length host == 0 || leb host_buf (length host)
    then fail url
    else split_host u host

unfoldable pub url_parse : Bytes → Result Url
unfolding parse_from starts_with from before
url_parse s =
    if starts_with (codes "http://") s
    then parse_from false (codes "80") (drop 7 s) (from b'/' (drop 7 s))
    else if starts_with (codes "https://") s
    then parse_from true (codes "443") (drop 8 s) (from b'/' (drop 8 s))
    else fail url
