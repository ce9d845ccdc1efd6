-- ===== src/Tests/Connect.antt =====
-- `tcp_connect` of board/hget/hget.c on small inputs.
use esp32_p4_linux.Common.{
  ℕ, ◌+◌, ◌≤◌, ◌≡◌, arith, refl, true, false, none, some, List, [], ◌++◌, ◌∷◌, length, min, ◌==◌,
  if◌then◌else◌,
}
use esp32_p4_linux.Hget.Exit.{Result, done}
use esp32_p4_linux.Hget.Connect.{
  max_addrs, Addr, candidates, split_families, add, interleave, pick, Try, in_progress, refused,
  Event, opened, nonblocking, restored, bounded, closed, Race, Ready, quiet, won, lost, Poll,
  interrupted, events, race_loop, tcp_connect,
}
use esp32_p4_linux.Hget.Connect.Select.{number, candidates-Fair}
use esp32_p4_linux.Hget.Connect.Closes.{opens, closes, handed, tcp_connect-Closes}
use esp32_p4_linux.Hget.Connect.Rounds.{Ran, race_loop-Ran}
use esp32_p4_linux.Hget.Connect.Restores.{flags_after, tcp_connect-restores}

abbrev six_at : ℕ → Addr
six_at n = record { inet6 = true; key = n }

abbrev four_at : ℕ → Addr
four_at n = record { inet6 = false; key = n }

-- All of one family before any of the other.
abbrev resolved : List Addr
resolved =
    six_at 1
    ∷ six_at 2
    ∷ six_at 3
    ∷ six_at 4
    ∷ six_at 5
    ∷ six_at 6
    ∷ six_at 7
    ∷ six_at 8
    ∷ six_at 9
    ∷ four_at 1
    ∷ four_at 2
    ∷ []

alternate :
    candidates resolved
    ≡ six_at 1 ∷ four_at 1 ∷ six_at 2 ∷ four_at 2 ∷ six_at 3 ∷ six_at 4 ∷ six_at 5 ∷ six_at 6 ∷ []
unfolding candidates split_families add interleave pick
alternate = refl

candidates-Fair_example :
    (length (candidates resolved) ≤ max_addrs)
    × ((min 4 (number true resolved) ≤ number true (candidates resolved))
        × (min 4 (number false resolved) ≤ number false (candidates resolved)))
candidates-Fair_example = candidates-Fair resolved

abbrev attempt : Addr → Try
attempt a = if a.inet6 then in_progress else refused

abbrev third_wins : ℕ → Ready
third_wins fd = if fd == 5 then won else lost

abbrev getfl : ℕ → ℕ
getfl fd = 2 + fd

tcp_connect-Closes_example :
    (result : Result ℕ) × (log : List Event) × ((tcp_connect
          (some resolved)
          attempt
          getfl
          (interrupted ∷ events third_wins ∷ [])
          30
          3
        ≡ some (result, log))
      × ((x : ℕ) → opens x log ≡ closes x log + handed x result))
tcp_connect-Closes_example =
    tcp_connect-Closes (some resolved) attempt getfl (interrupted ∷ events third_wins ∷ []) 30 3

abbrev second_wins : ℕ → Ready
second_wins fd = if fd == 4 then won else lost

-- The first of two sockets fails, the second wins.
abbrev race : List Event
race =
    opened 3
    ∷ nonblocking 3
    ∷ opened 4
    ∷ nonblocking 4
    ∷ closed 3
    ∷ restored 4 6
    ∷ bounded 4 30
    ∷ []

raced :
    tcp_connect (some (six_at 1 ∷ six_at 2 ∷ [])) attempt getfl (events second_wins ∷ []) 30 3
    ≡ some (done 4, race)
unfolding tcp_connect
raced = refl

tcp_connect-restores_example :
    (flags_after 4 race none ≡ some 6)
    × ((front : List Event) × (race ≡ front ++ (bounded 4 30 ∷ [])))
tcp_connect-restores_example =
    tcp_connect-restores (some (six_at 1 ∷ six_at 2 ∷ [])) attempt getfl (events second_wins ∷ [])
      30 3 4 race raced

-- Two sockets race: the first fails in a poll that says nothing of the second, which then wins.
abbrev first_lost : ℕ → Ready
first_lost fd = if fd == 3 then lost else quiet

abbrev two : Race
two = record {
  winner = none;
  racing = (record { fd = 3; flags = 5 }) ∷ (record { fd = 4; flags = 6 }) ∷ [];
  log = [];
}

abbrev two_polls : List Poll
two_polls = interrupted ∷ events first_lost ∷ events second_wins ∷ []

race_loop-Ran_example :
    (end : Race) × ((race_loop 31 two_polls 30000 two ≡ some end) × Ran 30000 two_polls two end)
race_loop-Ran_example = race_loop-Ran 31 two_polls 30000 two (omega arith)
