-- ===== src/Hget/Fetch.antt =====
-- `fetch` of board/hget/hget.c: one exchange with a server, and the redirects. What a peer and the
-- file system do is a parameter, the `World`.
pub mod Resources
pub mod Whole
use esp32_p4_linux.Common.{
  ℕ, zero, suc, ◌+◌, ◌≡◌, Bool, true, false, not, ◌&&◌, ◌||◌, Option, none, some, List, [], ◌∷◌,
  ◌++◌, ltb, leb, ◌==◌, if◌then◌else◌, Bytes, codes, ℤ, pos, leb_ℤ, ltb_ℤ, length,
}
use esp32_p4_linux.Hget.Exit.{Exit, ok, url, http, io, redirect, Result, done, fail}
use esp32_p4_linux.Hget.CString.{starts_with}
use esp32_p4_linux.Hget.Url.{Url, url_parse, url_buf}
use esp32_p4_linux.Hget.Conn.{Net, WriteEvent, conn_write}
use esp32_p4_linux.Hget.Output.{FileEvent, Transfer}
use esp32_p4_linux.Hget.Body.{Outcome, body_plain, body_chunked}
use esp32_p4_linux.Hget.Headers.{Resp, header_room, read_headers}

-- `MAX_REDIRECTS`
abbrev pub max_redirects : ℕ
max_redirects = 8

-- `sizeof(req)`
abbrev pub req_buf : ℕ
req_buf = url_buf + 512

-- What `conn_open` returns, and what the connection then does.
pub record Peer : Type 0 where
  pub opened : Exit
  pub sends : List WriteEvent
  pub net : Net

-- The peer reached at each depth of redirection; the file that `open` gives, if it does; standard
-- output.
pub record World : Type 0 where
  pub dial : ℕ → Url → Peer
  pub open_file : Bytes → Option (List FileEvent)
  pub stdout : List FileEvent

-- `opt_follow` and `outpath`
pub record Options : Type 0 where
  pub follow : Bool
  pub out_path : Option Bytes

pub data Event : Type 0 where
  connected : Url → Event
  sent : Bytes → Event
  file_opened : Bytes → Event
  file_closed : Event
  closed : Event

-- The exit code, what happened, and what was written to the file or the standard output.
pub record Fetched : Type 0 where
  pub exit : Exit
  pub log : List Event
  pub out : Bytes

-- The format string between its `%s`, with `HGET_VERSION`.
abbrev pub before_host : Bytes
before_host = codes " HTTP/1.1\r\nHost: "

abbrev pub after_host : Bytes
after_host = codes "\r\nUser-Agent: hget/1.0\r\nAccept: */*\r\nConnection: close\r\n\r\n"

unfoldable pub request : Url → Bytes
request u = codes "GET " ++ (u.path ++ (before_host ++ (u.host ++ after_host)))

unfoldable pub redirects : Resp → Bool
redirects r = leb_ℤ (pos 300) r.status && ltb_ℤ r.status (pos 400) && ltb 0 (length r.location)

-- `outpath && strcmp(outpath, "-")`
unfoldable pub names_file : Option Bytes → Option Bytes
names_file none = none
names_file (some (c ∷ [])) = if c == b'-' then none else some (c ∷ [])
names_file (some path) = some path

-- The body, to a file or the standard output: the exit code and what was written.
unfoldable pub body_of_resp : ℕ → Bool → Resp → Net → List FileEvent → Outcome
body_of_resp fuel tls r net file =
    let t : Transfer = record { net = net; file = file; out = []; written = 0 } in
    let chunked = body_chunked fuel tls r.pending t in
    let plain = body_plain fuel tls r.pending r.length t in if r.chunked then chunked else plain

-- What an exchange comes to: the end, or another address.
pub data Next : Type 0 where
  stop : Fetched → Next
  follow_to : Bytes → List Event → Next

-- A return with nothing written.
abbrev pub give_up : Exit → List Event → Fetched
give_up e log = record { exit = e; log = log; out = [] }

unfoldable pub finish : Outcome → List Event → Option Next
finish none log = none
finish (some (e, t)) log = some (stop (record { exit = e; log = log; out = t.out }))

-- A connection ends with `conn_close`, whatever happened on it.
abbrev pub and_close : List Event → List Event
and_close log = log ++ (closed ∷ [])

unfoldable pub save : ℕ → World → Options → Bool → List Event → Resp → Net → Option Next
unfolding names_file body_of_resp finish
save fuel w o tls log r net = elim (names_file o.out_path) [
  | none ↦ finish (body_of_resp fuel tls r net w.stdout) (and_close log)
  | some path ↦ elim (w.open_file path) [
    | none ↦ some (stop (give_up io (and_close log)))
    | some file ↦
        finish (body_of_resp fuel tls r net file)
          (and_close (log ++ (file_opened path ∷ file_closed ∷ [])))
  ]
]

unfoldable pub respond : ℕ → World → Options → Bool → List Event → Resp → Net → Option Next
unfolding redirects save starts_with
respond fuel w o tls log r net =
    let saved = save fuel w o tls log r net in
    if redirects r && o.follow
    then (if starts_with (codes "http://") r.location || starts_with (codes "https://") r.location
        then some (follow_to r.location (and_close log))
        else some (stop (give_up redirect (and_close log))))
    else if leb_ℤ (pos 400) r.status
    then some (stop (give_up http (and_close log)))
    else saved

-- One connection, from the request on.
unfoldable pub exchange : ℕ → World → Options → Url → Peer → Option Next
unfolding request respond
exchange fuel w o u p =
    let (good, bytes, sends) = conn_write p.sends (request u) in
    let log = connected u ∷ sent bytes ∷ [] in
    let answered : Option Next = elim (read_headers (suc header_room) u.tls p.net) [
      | none ↦ none
      | some (fail e, net) ↦ some (stop (give_up e (and_close log)))
      | some (done r, net) ↦ respond fuel w o u.tls log r net
    ] in
    if leb req_buf (length (request u))
    then some (stop (give_up url (and_close (connected u ∷ []))))
    else if good
    then answered
    else some (stop (give_up io (and_close log)))

unfoldable pub is_ok : Exit → Bool
is_ok ok = true
is_ok _ = false

-- `fetch` at a depth of redirection; `rounds` bounds the redirects and `fuel` the loops of the body.
unfoldable pub fetch : ℕ → ℕ → World → Options → Bytes → ℕ → Option Fetched
unfolding url_parse exchange is_ok
fetch zero fuel w o s depth = none
fetch (suc rounds) fuel w o s depth = elim (ltb max_redirects depth) [
  | true ↦ some (give_up redirect [])
  | false ↦ elim (url_parse s) [
    | fail e ↦ some (give_up e [])
    | done u ↦ elim (is_ok (w.dial depth u).opened) [
      | false ↦ some (give_up (w.dial depth u).opened [])
      | true ↦ elim (exchange fuel w o u (w.dial depth u)) [
        | none ↦ none
        | some (stop d) ↦ some d
        | some (follow_to next log) ↦ elim (fetch rounds fuel w o next (suc depth)) [
          | none ↦ none
          | some d ↦ some (record d { log = log ++ d.log })
        ]
      ]
    ]
  ]
]
