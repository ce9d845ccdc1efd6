-- ===== src/Hget/Main/Returns.antt =====
-- `main` of board/hget/hget.c on any command line and any network.
use esp32_p4_linux.Common.{
  ℕ, ◌+◌, ◌≤◌, ◌<◌, ◌≡◌, refl, ◌⊎◌, inl, inr, some, List, Bytes, pos, arith, Bool-cases, leb_ℤ,
  false,
}
use esp32_p4_linux.Hget.Exit.{Exit}
use esp32_p4_linux.Hget.Url.{Url}
use esp32_p4_linux.Hget.Conn.Weight.{weight}
use esp32_p4_linux.Hget.Fetch.{World, Fetched, max_redirects}
use esp32_p4_linux.Hget.Fetch.Resources.{Runs, idle, connections, fetch_returns}
use esp32_p4_linux.Hget.Main.{
  Settings, defaults, Parsed, operand, returns, parse_args, timeout_of, options_of, main,
}

Parsed-cases :
    (p : Parsed)
    → ((s : Settings) × (a : Bytes) × (p ≡ operand s a)) ⊎ ((e : Exit) × (p ≡ returns e))
Parsed-cases (operand s a) = inl (s, a, refl)
Parsed-cases (returns e) = inr (e, refl)

-- The timeout in use is positive, whatever the option says.
pub timeout_of_pos : (s : Settings) → leb_ℤ (timeout_of s) (pos 0) ≡ false
unfolding timeout_of
timeout_of_pos s = elim (Bool-cases (leb_ℤ s.timeout (pos 0))) [
  | inl zero_or_less ↦ rw zero_or_less refl
  | inr positive ↦ rw positive positive
]

-- The program ends on every command line and every network, with fuel for the longest of the
-- connections and ten rounds: it leaves no connection and no file open, and makes at most nine
-- connections.
pub main_returns :
    (rounds fuel : ℕ) (world : Settings → World) (args : List Bytes)
    → ((s : Settings) (n : ℕ) (u : Url) → weight ((world s).dial n u).net < fuel)
    → max_redirects + 1 < rounds
    → (d : Fetched) × ((main rounds fuel world args ≡ some d)
        × (Runs idle d.log idle × (connections d.log ≤ max_redirects + 1)))
unfolding main
main_returns rounds fuel world args light enough = elim (Parsed-cases (parse_args args defaults)) [
  | inr (e, over) ↦ rw (over, main) (_, (refl, (refl, omega arith)))
  | inl (s, a, found) ↦
      let w : World = world (record s { timeout = timeout_of s }) in
      let (d, (e, (runs, few))) =
        fetch_returns rounds fuel w (options_of s) a 0 (light (record s { timeout = timeout_of s }))
          (omega arith) (omega arith) in
      rw (found, main) (d, (e, (runs, omega arith)))
]
