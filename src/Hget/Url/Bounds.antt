-- ===== src/Hget/Url/Bounds.antt =====
-- What follows from the grammar of `url_parse`: the buffers suffice, and one text that the
-- check of the host lets through.
use esp32_p4_linux.Common.{
  ◌≤◌, ◌<◌, ◌≡◌, ◌⊎◌, refl, Bool, true, false, [], ◌∷◌, ◌++◌, Bytes, length, arith, length-append,
}
use esp32_p4_linux.Hget.Exit.{done}
use esp32_p4_linux.Hget.Url.{Url, host_buf, port_buf, url_buf, url_parse}
use esp32_p4_linux.Hget.Url.Grammar.{
  Names, plain, with_port, literal, literal_with_port, IsPath, scheme, default_port, Denotes,
  url_parse-Denotes,
}

-- Every string with its terminator fits its buffer, and the path is absolute.
pub record Fits (u : Url) : Type 0 where
  pub host_fits : length u.host < host_buf
  pub port_fits : length u.port < port_buf
  pub path_fits : length u.path < url_buf
  pub path_absolute : (t : Bytes) × (u.path ≡ b'/' ∷ t)

default_port-fits : (tls : Bool) → length (default_port tls) < port_buf
default_port-fits true = omega arith
default_port-fits false = omega arith

Names-fits :
    (dflt text host port : Bytes)
    → Names dflt text host port
    → length dflt < port_buf
    → (length host ≤ length text) × (length port < port_buf)
Names-fits dflt text host port (plain f h eh ep) fits = rw (eh, ep) (omega arith)
Names-fits dflt text host port (with_port e f h short) fits =
    rw e (omega (arith, length-append {0} host (b':' ∷ port)))
Names-fits dflt text host port (literal rest e f h ep) fits =
    rw (e, ep) (omega (arith, length-append {0} host (b']' ∷ rest)))
Names-fits dflt text host port (literal_with_port e f short) fits =
    rw e (omega (arith, length-append {0} host (b']' ∷ b':' ∷ port)))

IsPath-fits :
    (slash path : Bytes)
    → IsPath slash path
    → length slash < url_buf
    → (length path < url_buf) × ((t : Bytes) × (path ≡ b'/' ∷ t))
IsPath-fits [] path p fits = rw p (omega arith, ([], refl))
IsPath-fits (c ∷ t) path (e, p) fits = rw p (fits, (t, rw e))

-- No field of an accepted URL overflows its buffer.
pub url_parse-Fits : (s : Bytes) {u : Url} → url_parse s ≡ done u → Fits u
url_parse-Fits s {u} e = record {
  host_fits = omega (arith, names.0, d.authority_fits);
  port_fits = names.1;
  path_fits = path.0;
  path_absolute = path.1;
}
  where
    d : Denotes s u
    d = url_parse-Denotes s e

    names : (length u.host ≤ length d.authority) × (length u.port < port_buf)
    names = Names-fits _ _ _ _ d.names (default_port-fits u.tls)

    path : (length u.path < url_buf) × ((t : Bytes) × (u.path ≡ b'/' ∷ t))
    path = IsPath-fits d.slash u.path d.path d.slash_fits

-- The authority of a text is a colon and a port, or begins with an empty pair of brackets.
abbrev pub Hostless : Bool → Bytes → Type 0
Hostless tls s =
    (rest : Bytes) × ((s ≡ scheme tls ++ (b':' ∷ rest)) ⊎ (s ≡ scheme tls ++ (b'[' ∷ b']' ∷ rest)))
