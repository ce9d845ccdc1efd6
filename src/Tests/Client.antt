-- ===== src/Tests/Client.antt =====
-- board/hget/hget.c on small inputs.
use esp32_p4_linux.Common.{◌≡◌, refl, arith, true, false, List, [], ◌∷◌, ◌++◌, codes, pos}
use esp32_p4_linux.Hget.Exit.{done}
use esp32_p4_linux.Hget.CString.{starts_with, from, before}
use esp32_p4_linux.Hget.Url.{Url, url_parse}
use esp32_p4_linux.Hget.Url.Grammar.{Denotes, url_parse-Denotes, url_parse_complete}
use esp32_p4_linux.Hget.Url.Bounds.{Fits, url_parse-Fits}
use esp32_p4_linux.Hget.Conn.{Net, ReadEvent, segment, WriteEvent}
use esp32_p4_linux.Hget.Conn.Stream.{IsClean, contents, Sends}
use esp32_p4_linux.Hget.Output.{FileEvent, Transfer, write_all, write_all-Sends}
use esp32_p4_linux.Hget.Body.{body_plain, body_chunked, chunk_size}
use esp32_p4_linux.Hget.Body.Plain.{Completes, body_of, left_of, obeyed, body_plain-Completes}
use esp32_p4_linux.Hget.Body.Chunked.Correct.{
  IsSizeLine, Encodes, last, chunk, Decodes, body_chunked-Decodes,
}

abbrev board_url : Url
board_url = record { tls = true; host = codes "board"; port = codes "8443"; path = codes "/x" }

parse_board : url_parse (codes "https://board:8443/x") ≡ done board_url
unfolding url_parse starts_with from before
parse_board = refl

url_parse-Denotes_example : Denotes (codes "https://board:8443/x") board_url
url_parse-Denotes_example = url_parse-Denotes (codes "https://board:8443/x") parse_board

url_parse_complete_example : url_parse (codes "https://board:8443/x") ≡ done board_url
url_parse_complete_example =
    url_parse_complete (codes "https://board:8443/x") board_url url_parse-Denotes_example

url_parse-Fits_example : Fits board_url
url_parse-Fits_example = url_parse-Fits (codes "https://board:8443/x") parse_board

-- A URL with a port and no host.
abbrev hostless_url : Url
hostless_url = record { tls = false; host = []; port = codes "80"; path = codes "/" }

abbrev socket : List WriteEvent
socket = WriteEvent.takes 2 ∷ WriteEvent.again ∷ []

abbrev disk : List FileEvent
disk = FileEvent.takes 1 ∷ FileEvent.interrupted ∷ []

write_all-Sends_example :
    Sends (codes "abc") (write_all disk (codes "abc")).0 (write_all disk (codes "abc")).1
write_all-Sends_example = write_all-Sends disk (codes "abc")

-- The body arrives in two segments, with an interruption between them.
abbrev pieces : Net
pieces = segment (codes "lo\r\n0\r") ∷ ReadEvent.again ∷ segment (codes "\n\r\n") ∷ []

pieces-IsClean : IsClean pieces
pieces-IsClean = (λ e. cc, (λ e. cc, tt))

abbrev fresh : Transfer
fresh = record { net = pieces; file = disk; out = []; written = 0 }

body_plain-Completes_example :
    Completes fresh
      (body_of (obeyed (pos 5) (codes "hel")) (codes "hel" ++ contents pieces))
      (left_of (obeyed (pos 5) (codes "hel")) (codes "hel" ++ contents pieces))
      (body_plain 20 false (codes "hel") (pos 5) fresh)
body_plain-Completes_example =
    body_plain-Completes 20 false (codes "hel") (pos 5) fresh pieces-IsClean tt (omega arith)

size_five : IsSizeLine (codes "5;x=1") 5
unfolding chunk_size
size_five = record {
  one_line = omega arith;
  no_return = omega arith;
  fits = omega arith;
  line_pos = omega arith;
  size_is = refl;
}

size_zero : IsSizeLine (codes "0") 0
unfolding chunk_size
size_zero = record {
  one_line = omega arith;
  no_return = omega arith;
  fits = omega arith;
  line_pos = omega arith;
  size_is = refl;
}

hello-Encodes : Encodes (codes "\r\n") (codes "5;x=1\r\nhello\r\n0\r\n\r\n") (codes "hello")
hello-Encodes =
    chunk (codes "5;x=1") (codes "hello") size_five (omega arith) (last (codes "0") size_zero refl)
      refl refl

body_chunked-Decodes_example :
    Decodes fresh (codes "hello") (body_chunked 40 true (codes "5;x=1\r\nhel") fresh)
body_chunked-Decodes_example =
    body_chunked-Decodes 40 true (codes "5;x=1\r\nhel") fresh (codes "\r\n") (codes "hello")
      pieces-IsClean tt hello-Encodes (omega arith)
