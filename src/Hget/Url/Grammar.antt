-- ===== src/Hget/Url/Grammar.antt =====
-- The language that `url_parse` accepts, and what each of its texts denotes.
use esp32_p4_linux.Common.{
  ℕ, ◌<◌, ◌≡◌, ◌≢◌, refl, sym, ap, ◌∙◌, inl, inr, Bool, true, false, ◌||◌, [], ◌∷◌, ◌++◌, leb, ◌==◌,
  Bytes, codes, length, drop, arith, Bool-cases, append-nil,
}
use esp32_p4_linux.Hget.Exit.{done}
use esp32_p4_linux.Hget.CString.{
  starts_with, from, before, Free, from-append, before-append, from_Free, before_Free, before-Free,
  from-cases, starts_with-eq, before-append-from, Free-of_from,
}
use esp32_p4_linux.Hget.Url.{
  Url, host_buf, port_buf, url_buf, split_port, literal_port, split_literal, split_host, path_of,
  parse_from, url_parse,
}

abbrev pub NotHead : ℕ → Bytes → Type 0
NotHead c [] = Unit
NotHead c (x ∷ _) = x ≢ c

-- How a host and a port are written, where `dflt` is the port of the scheme. What follows the
-- bracket of a literal address is passed over unless it is a port.
pub data Names (dflt text host port : Bytes) : Type 0 where
  plain : Free b':' text → NotHead b'[' text → host ≡ text → port ≡ dflt → Names dflt text host port
  with_port :
      text ≡ host ++ (b':' ∷ port)
      → Free b':' host
      → NotHead b'[' text
      → length port < port_buf
      → Names dflt text host port
  literal :
      (rest : Bytes)
      → text ≡ b'[' ∷ (host ++ (b']' ∷ rest))
      → Free b']' host
      → NotHead b':' rest
      → port ≡ dflt
      → Names dflt text host port
  literal_with_port :
      text ≡ b'[' ∷ (host ++ (b']' ∷ b':' ∷ port))
      → Free b']' host
      → length port < port_buf
      → Names dflt text host port

abbrev pub scheme : Bool → Bytes
scheme true = codes "https://"
scheme false = codes "http://"

abbrev pub default_port : Bool → Bytes
default_port true = codes "443"
default_port false = codes "80"

-- A path is `/` where the text has none.
abbrev pub IsPath : Bytes → Bytes → Type 0
IsPath [] path = path ≡ codes "/"
IsPath (c ∷ t) path = (c ≡ b'/') × (path ≡ c ∷ t)

-- The text `s` denotes `u`, and fits the buffers.
pub record Denotes (s : Bytes) (u : Url) : Type 0 where
  pub authority : Bytes
  pub slash : Bytes
  pub text : s ≡ scheme u.tls ++ (authority ++ slash)
  pub no_slash : Free b'/' authority
  pub path : IsPath slash u.path
  pub authority_pos : 0 < length authority
  pub authority_fits : length authority < host_buf
  pub slash_fits : length slash < url_buf
  pub names : Names (default_port u.tls) authority u.host u.port

-- What `split_host` makes of a host.
abbrev Splits : Url → Bytes → Url → Type 0
Splits u text v = Names u.port text v.host v.port × (v.tls ≡ u.tls) × (v.path ≡ u.path)

split_port-Splits :
    (u v : Url) (colon : Bytes)
    → NotHead b'[' u.host
    → from b':' u.host ≡ colon
    → split_port u colon ≡ done v
    → Splits u u.host v
unfolding split_port
split_port-Splits u v [] h e d =
    let q : u ≡ v = cc in rw (← q) (plain (Free-of_from b':' u.host e) h refl refl, refl, refl)
split_port-Splits u v (c ∷ port) h e d = elim (Bool-cases (leb port_buf (length port))) [
  | inl long ↦ absurd (ground arith)
  | inr fits ↦
      let q : record u { port = port; host = before b':' u.host } ≡ v = ground arith in
      let (is_colon, text) = from-cases b':' u.host e in
      rw (← q) (
        with_port (sym (rw is_colon at text)) (before-Free b':' u.host) h (ground arith),
        refl,
        refl,
      )
]

-- `s` is the host behind its bracket.
literal-Names :
    (u v : Url) (s close : Bytes)
    → from b']' s ≡ close
    → split_literal (record u { host = b'[' ∷ s }) close ≡ done v
    → Splits u (b'[' ∷ s) v
unfolding split_literal before
literal-Names u v s [] e d = cc
literal-Names u v s (c ∷ []) e d =
    let q : record u { host = before b']' s } ≡ v = cc in
    let (is_close, text) = from-cases b']' s e in
    rw (← q) (
      literal [] (ap (◌∷◌ b'[') (sym (rw is_close at text))) (before-Free b']' s) tt refl,
      refl,
      refl,
    )
literal-Names u v s (c ∷ x ∷ port) e d = elim (Bool-cases (x == b':')) [
  | inl colon ↦ elim (Bool-cases (leb port_buf (length port))) [
    | inl long ↦ absurd (ground arith)
    | inr fits ↦
        let q : record u { host = before b']' s; port = port } ≡ v = ground arith in
        let (is_close, text) = from-cases b']' s e in
        let is_colon : x ≡ b':' = ground arith in
        rw (← q) (
          literal_with_port (ap (◌∷◌ b'[') (sym (rw (is_close, is_colon) at text)))
              (before-Free b']' s) (ground arith),
          refl,
          refl,
        )
  ]
  | inr no_colon ↦
      let q : record u { host = before b']' s } ≡ v = ground arith in
      let (is_close, text) = from-cases b']' s e in
      rw (← q) (
        literal (x ∷ port) (ap (◌∷◌ b'[') (sym (rw is_close at text))) (before-Free b']' s)
            (ground arith) refl,
        refl,
        refl,
      )
]

split_host-Splits :
    (u v : Url) (host : Bytes)
    → split_host (record u { host = host }) host ≡ done v
    → Splits u host v
unfolding split_host from
split_host-Splits u v [] d = split_port-Splits (record u { host = [] }) v [] tt refl d
split_host-Splits u v (c ∷ s) d = elim (Bool-cases (c == b'[')) [
  | inl bracket ↦
      let e : c ≡ b'[' = ground arith in rw e (literal-Names u v s (from b']' s) refl (rw e at d))
  | inr no_bracket ↦
      split_port-Splits (record u { host = c ∷ s }) v (from b':' (c ∷ s)) (ground arith) refl
        (ground arith)
]

path_of-IsPath : (p slash : Bytes) → from b'/' p ≡ slash → IsPath slash (path_of slash)
unfolding path_of
path_of-IsPath p [] e = refl
path_of-IsPath p (c ∷ t) e = ((from-cases b'/' p e).0, refl)

parse_from-Denotes :
    (tls : Bool) (p : Bytes) {v : Url}
    → parse_from tls (default_port tls) p (from b'/' p) ≡ done v
    → Denotes (scheme tls ++ p) v × (v.tls ≡ tls)
unfolding parse_from
parse_from-Denotes tls p {v} d = elim (Bool-cases (leb url_buf (length slash))) [
  | inl long ↦ absurd (ground arith)
  | inr short ↦ elim (Bool-cases (length auth == 0 || leb host_buf (length auth))) [
    | inl bad ↦ absurd (ground arith)
    | inr good ↦
        let (names, same_tls, same_path) = split_host-Splits u v auth (ground arith) in
        (
          record {
            authority = auth;
            slash = slash;
            text = rw (same_tls, before-append-from b'/' p);
            no_slash = before-Free b'/' p;
            path = rw same_path (path_of-IsPath p slash refl);
            authority_pos = ground arith;
            authority_fits = ground arith;
            slash_fits = ground arith;
            names = rw same_tls names;
          },
          same_tls,
        )
  ]
]
  where
    slash : Bytes
    slash = from b'/' p

    auth : Bytes
    auth = before b'/' p

    u : Url
    u = record { tls = tls; host = auth; port = default_port tls; path = path_of slash }

-- Whatever `url_parse` accepts is a text of the grammar, and its result is what the text denotes:
-- every field fits its buffer.
pub url_parse-Denotes : (s : Bytes) {u : Url} → url_parse s ≡ done u → Denotes s u
unfolding url_parse
url_parse-Denotes s {u} d = elim (Bool-cases (starts_with (codes "http://") s)) [
  | inl plain_http ↦
      rw (starts_with-eq (codes "http://") s plain_http)
        (parse_from-Denotes false (drop 7 s) (ground arith)).0
  | inr other ↦ elim (Bool-cases (starts_with (codes "https://") s)) [
    | inl secure ↦
        rw (starts_with-eq (codes "https://") s secure)
          (parse_from-Denotes true (drop 8 s) (ground arith)).0
    | inr neither ↦ absurd (ground arith)
  ]
]

-- A text of an authority and a path is cut at the first slash.
cut :
    (auth slash path : Bytes)
    → Free b'/' auth
    → IsPath slash path
    → (from b'/' (auth ++ slash) ≡ slash)
      × (before b'/' (auth ++ slash) ≡ auth)
      × (path_of slash ≡ path)
unfolding path_of
cut auth [] path f p = rw append-nil (from_Free b'/' auth f, before_Free b'/' auth f, sym p)
cut auth (c ∷ t) path f (e, p) =
    rw e (from-append b'/' auth t f, before-append b'/' auth t f, sym (rw e at p))

literal_port-none : (u : Url) (rest : Bytes) → NotHead b':' rest → literal_port u rest ≡ done u
unfolding literal_port
literal_port-none u [] h = refl
literal_port-none u (x ∷ port) h = ground arith

split_host-plain :
    (u : Url) (text : Bytes)
    → NotHead b'[' text
    → split_host u text ≡ split_port u (from b':' u.host)
unfolding split_host
split_host-plain u [] h = refl
split_host-plain u (c ∷ s) h = ground arith

split_host-Names :
    (u : Url) (text host port : Bytes)
    → Names u.port text host port
    → split_host (record u { host = text }) text ≡ done (record u { host = host; port = port })
unfolding split_host from before
split_host-Names u text host port (plain f h eh ep) =
    split_host-plain (record u { host = text }) text h ∙ rw (from_Free b':' text f, eh, ep)
split_host-Names u text host port (with_port e f h short) =
    split_host-plain (record u { host = text }) text h
    ∙ rw e (rw (from-append b':' host port f, before-append b':' host port f) (ground arith))
split_host-Names u text host port (literal rest e f h ep) = rw e (
    rw (from-append b']' host rest f, before-append b']' host rest f)
      (literal_port-none (record u { host = host }) rest h ∙ rw ep))
split_host-Names u text host port (literal_with_port e f short) = rw e (
    rw (from-append b']' host (b':' ∷ port) f, before-append b']' host (b':' ∷ port) f)
      (ground arith))

parse_from-Names :
    (u : Url) (auth slash : Bytes)
    → Free b'/' auth
    → IsPath slash u.path
    → (0 < length auth) × (length auth < host_buf) × (length slash < url_buf)
    → Names (default_port u.tls) auth u.host u.port
    → parse_from u.tls (default_port u.tls) (auth ++ slash) (from b'/' (auth ++ slash)) ≡ done u
unfolding parse_from
parse_from-Names u auth slash f p sizes names =
    let (e₁, e₂, e₃) = cut auth slash u.path f p in
    rw (e₁, e₂, e₃)
      (rw (guard₁, guard₂)
        (split_host-Names (record u { port = default_port u.tls }) auth u.host u.port names))
  where
    guard₁ : leb url_buf (length slash) ≡ false
    guard₁ = ground arith

    guard₂ : (length auth == 0 || leb host_buf (length auth)) ≡ false
    guard₂ = ground arith

url_parse-scheme :
    (tls : Bool) (p : Bytes)
    → url_parse (scheme tls ++ p) ≡ parse_from tls (default_port tls) p (from b'/' p)
unfolding url_parse starts_with
url_parse-scheme true p = refl
url_parse-scheme false p = refl

-- `url_parse` accepts every text of the grammar that fits the buffers, and returns what it
-- denotes: scheme, host, port and path.
pub url_parse_complete : (s : Bytes) (u : Url) → Denotes s u → url_parse s ≡ done u
url_parse_complete s u d = rw d.text (
    url_parse-scheme u.tls (d.authority ++ d.slash)
    ∙ parse_from-Names u d.authority d.slash d.no_slash d.path
        (d.authority_pos, d.authority_fits, d.slash_fits) d.names)
