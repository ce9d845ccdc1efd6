-- ===== src/Tests/Options.antt =====
-- `main` of board/hget/hget.c on small command lines.
use esp32_p4_linux.Common.{
  ℕ, ◌+◌, ◌≤◌, ◌<◌, ◌≡◌, refl, arith, true, false, none, some, List, [], ◌∷◌, ◌++◌, codes,
}
use esp32_p4_linux.Hget.Exit.{Exit, ok, usage}
use esp32_p4_linux.Hget.Fetch.{Fetched, max_redirects}
use esp32_p4_linux.Hget.Fetch.Resources.{Runs, idle, connections}
use esp32_p4_linux.Hget.Main.{
  Settings, defaults, equal, flag, valued, ending, is_operand, operand, returns, parse_args, main,
}
use esp32_p4_linux.Hget.Main.Parses.{
  Setting, output, seconds, silent, follow_off, written, apply_all, parse_args-written,
}
use esp32_p4_linux.Hget.Url.{Url}
use esp32_p4_linux.Hget.Conn.{segment}
use esp32_p4_linux.Hget.Conn.Weight.{weight}
use esp32_p4_linux.Hget.Connect as Connect
use esp32_p4_linux.Hget.Connect.{connected}
use esp32_p4_linux.Hget.Dial.{Host, session, world_of}
use esp32_p4_linux.Hget.Dial.Sockets.{Balanced, main_closes}

-- `-o` as the last word is not taken for an option with an argument.
dangling : parse_args (codes "-q" ∷ codes "-o" ∷ []) defaults ≡ returns usage
unfolding parse_args is_operand flag valued ending equal
dangling = refl

abbrev line : List Setting
line = output (codes "-q") ∷ silent ∷ seconds (codes "5") ∷ follow_off ∷ []

dash_operand : is_operand (codes "-") ≡ true
unfolding is_operand
dash_operand = refl

parse_args-written_example :
    parse_args (written line ++ (codes "-" ∷ codes "-k" ∷ [])) defaults
    ≡ operand (apply_all line defaults) (codes "-")
parse_args-written_example =
    parse_args-written line defaults (codes "-") (codes "-k" ∷ []) dash_operand

-- A host with one address, whose connect succeeds at once, no TLS, and a short answer.
abbrev near : ℕ → Url → Host
near depth u = record {
  resolved = some (record { inet6 = false; key = 1 } ∷ []);
  attempt = λ a. connected;
  getfl = λ fd. 2;
  polls = [];
  next_fd = 3;
  mbed = record {
    seeds = true;
    configures = true;
    reads_ca = true;
    sets_up = true;
    takes_name = true;
    shakes = [];
    flags = 0;
  };
  sends = [];
  net = segment (codes "HTTP/1.1 204 N\r\n\r\n") ∷ [];
}

near_light : (n : ℕ) (u : Url) → weight (near n u).net < 100
near_light n u = omega arith

main_closes_example :
    (d : Fetched) × ((main 10 100
          (world_of true near (λ path. none) [])
          (codes "-q" ∷ codes "http://a/x" ∷ [])
        ≡ some d)
      × (Runs idle d.log idle
          × ((connections d.log ≤ max_redirects + 1)
              × ((s : Settings) (n : ℕ) (u : Url)
                  → (e : Exit) × (log : List Connect.Event) × ((session true s u (near n u)
                        ≡ some (e, log))
                      × ((((world_of true near (λ path. none) [] s).dial n u).opened ≡ e)
                          × Balanced log))))))
main_closes_example =
    main_closes 10 100 true near (λ path. none) [] (codes "-q" ∷ codes "http://a/x" ∷ []) near_light
      (omega arith)

-- The socket is opened and closed.
session-near :
    (u : Url)
    → u.tls ≡ false
    → session true defaults u (near 0 u)
      ≡ some (
        ok,
        Connect.opened 3
            ∷ Connect.nonblocking 3
            ∷ Connect.restored 3 2
            ∷ Connect.bounded 3 30
            ∷ Connect.closed 3
            ∷ [],
      )
unfolding session
session-near u plain = rw (plain, session) refl
