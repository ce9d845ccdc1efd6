-- ===== src/Hget/Fetch/Whole.antt =====
-- `fetch` of board/hget/hget.c where nothing fails: the output is the body that the server sends.
use esp32_p4_linux.Common.{
  ℕ, suc, ◌+◌, ◌≤◌, ◌<◌, ◌≡◌, refl, sym, ap, ◌∙◌, ◌⊎◌, inl, inr, Bool, true, false, ◌&&◌, Option,
  none, some, List, [], ◌∷◌, ◌++◌, leb, Bytes, codes, ℤ, pos, negsuc, leb_ℤ, length, arith,
  length-append, Bool-cases, Option-cases, le→not-ltb, take_all,
}
use esp32_p4_linux.Hget.Exit.{ok, done}
use esp32_p4_linux.Hget.Url.{Url, url_parse}
use esp32_p4_linux.Hget.Url.Bounds.{Fits, url_parse-Fits}
use esp32_p4_linux.Hget.Conn.{Net, conn_write}
use esp32_p4_linux.Hget.Conn.Stream.{IsClean, contents}
use esp32_p4_linux.Hget.Output.{FileEvent, Transfer, IsWritable}
use esp32_p4_linux.Hget.Body.{Outcome}
use esp32_p4_linux.Hget.Body.Plain.{body_plain-Completes, body_of, obeyed}
use esp32_p4_linux.Hget.Body.Chunked.Correct.{Encodes, body_chunked-Decodes}
use esp32_p4_linux.Hget.Headers.{Resp, header_room, split_at}
use esp32_p4_linux.Hget.Headers.Search.{split_at-eq}
use esp32_p4_linux.Hget.Headers.Status.{IsHead, reads_as, reads_as-apart}
use esp32_p4_linux.Hget.Headers.Keeps.{read_headers-Delivers}
use esp32_p4_linux.Hget.Fetch.{
  World, Options, Peer, Event, connected, sent, Next, stop, finish, save, respond, exchange, is_ok,
  fetch, max_redirects, redirects, names_file, body_of_resp, request, req_buf, before_host,
  after_host,
}

-- The request always fits its buffer.
pub request-Fits : (u : Url) → Fits u → length (request u) < req_buf
unfolding request
request-Fits u f =
    let a = f.path_fits in
    let b = f.host_fits in
    omega (
      arith,
      length-append {0} u.path (before_host ++ (u.host ++ after_host)),
      length-append {0} u.host after_host,
    )

-- Where the body goes.
unfoldable pub sink : World → Options → Option (List FileEvent)
sink w o = elim (names_file o.out_path) [ none ↦ some w.stdout | some path ↦ w.open_file path ]

-- What a body is: by its length, which is not shorter than what comes, or by its chunks.
unfoldable pub Carries : Resp → Bytes → Bytes → Type 0
Carries r body payload =
    ((r.chunked ≡ false) × ((payload ≡ body) × ((n : ℕ) → r.length ≡ pos n → length body ≤ n)))
    ⊎ ((r.chunked ≡ true) × ((rest : Bytes) × Encodes rest body payload))

body_of_all :
    (len : ℤ) (pending rest : Bytes)
    → ((n : ℕ) → len ≡ pos n → length (pending ++ rest) ≤ n)
    → body_of (obeyed len pending) (pending ++ rest) ≡ pending ++ rest
body_of_all (negsuc n) pending rest h = refl
body_of_all (pos n) pending rest h =
    let le = h n refl in
    elim (Bool-cases (leb (length pending) n)) [
      | inl short ↦ rw short (take_all n (pending ++ rest) le)
      | inr long ↦ rw long refl
    ]

body_of_resp-Carries :
    (fuel : ℕ) (tls : Bool) (r : Resp) (net : Net) (file : List FileEvent) (payload : Bytes)
    → IsClean net
    → IsWritable file
    → Carries r (r.pending ++ contents net) payload
    → length (r.pending ++ contents net) < fuel
    → (t : Transfer) × ((body_of_resp fuel tls r net file ≡ some (ok, t)) × (t.out ≡ payload))
unfolding body_of_resp Carries
body_of_resp-Carries fuel tls r net file payload c w (inl (plain, (is, le))) h =
    let t : Transfer = record { net = net; file = file; out = []; written = 0 } in
    let d =
      body_plain-Completes fuel tls r.pending r.length t c w
        (omega (arith, length-append {0} r.pending (contents net))) in
    rw plain
      (d.end, (d.result, d.out_is ∙ body_of_all r.length r.pending (contents net) le ∙ sym is))
body_of_resp-Carries fuel tls r net file payload c w (inr (chunked, (rest, enc))) h =
    let t : Transfer = record { net = net; file = file; out = []; written = 0 } in
    let d = body_chunked-Decodes fuel tls r.pending t rest payload c w enc h in
    rw chunked (d.end, (d.result, d.out_is))

-- The exchange ends with EX_OK and this output.
abbrev Outputs : Bytes → Option Next → Type 0
Outputs payload out =
    (log : List Event) × (out ≡ some (stop (record { exit = ok; log = log; out = payload })))

finish-Outputs :
    (out : Outcome) (log : List Event) (payload : Bytes)
    → (t : Transfer) × ((out ≡ some (ok, t)) × (t.out ≡ payload))
    → Outputs payload (finish out log)
unfolding finish
finish-Outputs out log payload (t, (e, o)) = rw (e, finish, o) (log, refl)

save-Outputs :
    (fuel : ℕ) (w : World) (o : Options) (tls : Bool) (log : List Event) (r : Resp) (net : Net)
    (file : List FileEvent) (payload : Bytes)
    → sink w o ≡ some file
    → IsClean net
    → IsWritable file
    → Carries r (r.pending ++ contents net) payload
    → length (r.pending ++ contents net) < fuel
    → Outputs payload (save fuel w o tls log r net)
unfolding save sink
save-Outputs fuel w o tls log r net file payload to c wr carries h =
    let body = body_of_resp-Carries fuel tls r net file payload c wr carries h in
    elim (Option-cases (names_file o.out_path)) [
      | inl std ↦
          let e : w.stdout ≡ file =
            (let to' : ◌≡◌ {A = Option (List FileEvent)} (some w.stdout) (some file) =
                (rw (std, sink) at to) in
              cc) in
          rw (std, save, e) (finish-Outputs _ _ payload body)
      | inr (path, named) ↦
          let opened : w.open_file path ≡ some file = (rw (named, sink) at to) in
          rw (named, save, opened, save) (finish-Outputs _ _ payload body)
    ]

-- One answer: the status is below 400 and no redirect is followed, and the body is what the header
-- block says.
pub record Answers (w : World) (o : Options) (u : Url) (p : Peer) (file : List FileEvent)
    (payload : Bytes) : Type 0 where
  pub head : Bytes
  pub body : Bytes
  pub head_ok : IsHead head
  pub sends_all : (conn_write p.sends (request u)).0 ≡ true
  pub clean : IsClean p.net
  pub blank_line : split_at (codes "\r\n\r\n") (contents p.net) ≡ some (head, body)
  pub head_fits : length head + 4 ≤ header_room
  pub stays : redirects (reads_as head head_ok []) && o.follow ≡ false
  pub success : leb_ℤ (pos 400) (reads_as head head_ok []).status ≡ false
  pub carries : Carries (reads_as head head_ok []) body payload
  pub sink_ok : sink w o ≡ some file
  pub writable : IsWritable file

respond-Outputs :
    (fuel : ℕ) (w : World) (o : Options) (tls : Bool) (log : List Event) (r : Resp) (net : Net)
    (file : List FileEvent) (payload : Bytes)
    → redirects r && o.follow ≡ false
    → leb_ℤ (pos 400) r.status ≡ false
    → sink w o ≡ some file
    → IsClean net
    → IsWritable file
    → Carries r (r.pending ++ contents net) payload
    → length (r.pending ++ contents net) < fuel
    → Outputs payload (respond fuel w o tls log r net)
unfolding respond
respond-Outputs fuel w o tls log r net file payload stays success to c wr carries h =
    rw (stays, success) (save-Outputs fuel w o tls log r net file payload to c wr carries h)

exchange-Outputs :
    (fuel : ℕ) (w : World) (o : Options) (u : Url) (p : Peer) (file : List FileEvent)
    (payload : Bytes)
    → Fits u
    → Answers w o u p file payload
    → length (contents p.net) < fuel
    → Outputs payload (exchange fuel w o u p)
unfolding exchange redirects Carries
exchange-Outputs fuel w o u p file payload f a h =
    let fits = request-Fits u f in
    let short : leb req_buf (length (request u)) ≡ false = ground arith in
    let d =
      read_headers-Delivers (suc header_room) u.tls p.net a.head a.body a.head_ok a.clean
        (omega arith) a.blank_line a.head_fits in
    let e = reads_as-apart a.head d.pending a.head_ok in
    rw (short, a.sends_all, d.result, exchange)
      (respond-Outputs fuel w o u.tls (connected u ∷ sent (conn_write p.sends (request u)).1 ∷ [])
        (reads_as a.head a.head_ok d.pending) d.rest file payload (rw e a.stays) (rw e a.success)
        a.sink_ok d.clean a.writable (rw (d.kept, e) a.carries)
        (rw d.kept (
          omega (
            arith,
            ap length (split_at-eq (codes "\r\n\r\n") (contents p.net) a.blank_line),
            length-append {0} a.head (codes "\r\n\r\n" ++ a.body),
          ))))

-- From a URL that parses and a server that can be reached, if the request goes out, and the answer is
-- well-formed, fits `hdrbuf`, has a status below 400 and is no redirect that is followed, and its body
-- is chunked, or no longer than the length it gives, if any: then fetch ends with EX_OK and has
-- written the payload, every byte of it and no other, to the file or the standard output.
pub fetch_complete :
    (rounds fuel : ℕ) (w : World) (o : Options) (s : Bytes) (depth : ℕ) {u : Url}
    (file : List FileEvent) (payload : Bytes)
    → depth ≤ max_redirects
    → url_parse s ≡ done u
    → (w.dial depth u).opened ≡ ok
    → Answers w o u (w.dial depth u) file payload
    → length (contents (w.dial depth u).net) < fuel
    → (log : List Event) × (fetch (suc rounds) fuel w o s depth
        ≡ some (record { exit = ok; log = log; out = payload }))
unfolding fetch is_ok
fetch_complete rounds fuel w o s depth {u} file payload shallow parsed opened a h =
    let (log, e) =
      exchange-Outputs fuel w o u (w.dial depth u) file payload (url_parse-Fits s parsed) a h in
    let not_deep = le→not-ltb max_redirects depth shallow in
    rw (not_deep, fetch, parsed, fetch, opened, is_ok, e, fetch) (log, refl)
