-- ===== src/Tests/Fetch.antt =====
-- `fetch` of board/hget/hget.c on small inputs.
use esp32_p4_linux.Common.{
  ℕ, zero, suc, ◌+◌, ◌-◌, ◌≤◌, ◌<◌, ◌≡◌, refl, arith, inl, true, false, none, some, List, [], ◌∷◌,
  codes,
}
use esp32_p4_linux.Hget.Exit.{ok, done}
use esp32_p4_linux.Hget.CString.{
  starts_with, from, before, c_str, contains, atoi, atoll, signed, skip_space, digits_value,
  digit_value,
}
use esp32_p4_linux.Hget.Url.{Url, url_parse}
use esp32_p4_linux.Hget.Conn.{Net, segment, conn_write}
use esp32_p4_linux.Hget.Conn.Weight.{weight}
use esp32_p4_linux.Hget.Headers.{
  fields_of, header_lines, header_line, pieces, ci_prefix, lower, skip_ws,
}
use esp32_p4_linux.Hget.Fetch.{
  World, Options, Peer, Event, Fetched, fetch, redirects, names_file, request, max_redirects,
}
use esp32_p4_linux.Hget.Fetch.Resources.{Runs, idle, connections, fetch_returns}
use esp32_p4_linux.Hget.Fetch.Whole.{Answers, Carries, sink, fetch_complete}
use esp32_p4_linux.Tests.Headers.{answer, answer_head, answer-IsHead, answer-IsClean, answer_split}

abbrev moved : Net
moved = segment (codes "HTTP/1.1 301 Moved\r\nLocation: http://b/\r\n\r\n") ∷ []

abbrev pub dial : ℕ → Url → Peer
dial zero u = record { opened = ok; sends = []; net = moved }
dial (suc n) u = record { opened = ok; sends = []; net = answer }

abbrev pub world : World
world = record { dial = dial; open_file = λ path. none; stdout = [] }

abbrev following : Options
following = record { follow = true; out_path = none }

pub dial_light : (n : ℕ) (u : Url) → weight (dial n u).net < 100
dial_light zero u = omega arith
dial_light (suc n) u = omega arith

fetch_returns_example :
    (d : Fetched) × ((fetch 10 100 world following (codes "http://a/x") 0 ≡ some d)
      × (Runs idle d.log idle × (connections d.log ≤ max_redirects + 1 - 0)))
fetch_returns_example =
    fetch_returns 10 100 world following (codes "http://a/x") 0 dial_light (omega arith)
      (omega arith)

abbrev url_b : Url
url_b = record { tls = false; host = codes "b"; port = codes "80"; path = codes "/" }

parse_b : url_parse (codes "http://b/") ≡ done url_b
unfolding url_parse starts_with from before
parse_b = refl

answer-Answers : Answers world following url_b (dial 1 url_b) [] (codes "hello")
unfolding conn_write request fields_of header_lines header_line pieces ci_prefix lower skip_ws
    contains atoi atoll signed skip_space digits_value digit_value before c_str starts_with
    redirects names_file sink Carries
answer-Answers = record {
  head = answer_head;
  body = codes "hello";
  head_ok = answer-IsHead;
  sends_all = refl;
  clean = answer-IsClean;
  blank_line = answer_split;
  head_fits = omega arith;
  stays = refl;
  success = refl;
  carries = inl (refl, (refl, λ n e. ground arith));
  sink_ok = refl;
  writable = tt;
}

fetch_complete_example :
    (log : List Event) × (fetch 1 100 world following (codes "http://b/") 1
      ≡ some (record { exit = ok; log = log; out = codes "hello" }))
fetch_complete_example =
    fetch_complete 0 100 world following (codes "http://b/") 1 [] (codes "hello") (omega arith)
      parse_b refl answer-Answers (omega arith)
