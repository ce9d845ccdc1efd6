-- ===== src/Hget/Connect/Closes.antt =====
-- `tcp_connect` of board/hget/hget.c returns, and closes every socket but the one it returns.
use esp32_p4_linux.Common.{
  ℕ, zero, suc, ◌+◌, ◌-◌, ◌*◌, ◌%◌, ◌^◌, ◌≤◌, ◌≡◌, refl, sym, ap, ◌∙◌, ◌⊎◌, inl, inr, Bool, true,
  false, ◌&&◌, Option, none, some, List, [], ◌∷◌, ◌++◌, ltb, ◌==◌, if◌then◌else◌, length, min,
  arith, Bool-cases, Option-cases, List-cases, &&-eq-true, ltb→lt,
}
use esp32_p4_linux.Hget.Exit.{Result, done, fail}
use esp32_p4_linux.Hget.Connect.{
  max_addrs, Addr, candidates, Try, no_socket, connected, in_progress, refused, Event, opened,
  nonblocking, restored, bounded, closed, Slot, Race, start_all, Ready, quiet, won, lost, swap,
  scan, Poll, interrupted, failed, timeout, events, is_racing, race_loop, close_all, deadline_of,
  tcp_connect,
}

-- How often a descriptor stands in a list, and is opened and closed in a log.
pub same : ℕ → ℕ → ℕ
same x y = if x == y then 1 else 0

abbrev pub count : ℕ → List Slot → ℕ
count x [] = 0
count x (y ∷ ys) = same x y.fd + count x ys

abbrev pub opens : ℕ → List Event → ℕ
opens x [] = 0
opens x (opened y ∷ log) = same x y + opens x log
opens x (_ ∷ log) = opens x log

abbrev pub closes : ℕ → List Event → ℕ
closes x [] = 0
closes x (closed y ∷ log) = same x y + closes x log
closes x (_ ∷ log) = closes x log

abbrev pub wins : ℕ → Option ℕ → ℕ
wins x none = 0
wins x (some y) = same x y

count-append : (x : ℕ) (ys zs : List Slot) → count x (ys ++ zs) ≡ count x ys + count x zs
count-append x [] zs = omega arith
count-append x (y ∷ ys) zs = omega (arith, count-append x ys zs)

pub opens-append : (x : ℕ) (a b : List Event) → opens x (a ++ b) ≡ opens x a + opens x b
opens-append x [] b = omega arith
opens-append x (opened y ∷ a) b = omega (arith, opens-append x a b)
opens-append x (nonblocking y ∷ a) b = opens-append x a b
opens-append x (restored y f ∷ a) b = opens-append x a b
opens-append x (bounded y n ∷ a) b = opens-append x a b
opens-append x (closed y ∷ a) b = opens-append x a b

pub closes-append : (x : ℕ) (a b : List Event) → closes x (a ++ b) ≡ closes x a + closes x b
closes-append x [] b = omega arith
closes-append x (opened y ∷ a) b = closes-append x a b
closes-append x (nonblocking y ∷ a) b = closes-append x a b
closes-append x (restored y f ∷ a) b = closes-append x a b
closes-append x (bounded y n ∷ a) b = closes-append x a b
closes-append x (closed y ∷ a) b = omega (arith, closes-append x a b)

pub length-swap : (ys : List Slot) → length (swap ys) ≡ length ys
unfolding swap
length-swap [] = refl
length-swap (y ∷ []) = refl
length-swap (y ∷ z ∷ ys) = elim (List-cases (swap (z ∷ ys))) [
  | inl e ↦ let ih = ap length (sym e) ∙ length-swap (z ∷ ys) in absurd (omega (arith, ih))
  | inr (w, ws, e) ↦
      let ih = ap length (sym e) ∙ length-swap (z ∷ ys) in rw (e, swap) (omega (arith, ih))
]

count-swap : (x : ℕ) (ys : List Slot) → count x (swap ys) ≡ count x ys
unfolding swap
count-swap x [] = refl
count-swap x (y ∷ []) = refl
count-swap x (y ∷ z ∷ ys) = elim (List-cases (swap (z ∷ ys))) [
  | inl e ↦ let n = ap length (sym e) ∙ length-swap (z ∷ ys) in absurd (omega (arith, n))
  | inr (w, ws, e) ↦
      let ih = ap (count x) (sym e) ∙ count-swap x (z ∷ ys) in rw (e, swap) (omega (arith, ih))
]

-- Every descriptor opened is closed, or still racing, or the winner.
abbrev Accounts : Race → Type 0
Accounts r = (x : ℕ) → opens x r.log ≡ closes x r.log + count x r.racing + wins x r.winner

pub Try-cases :
    (t : Try) → (t ≡ no_socket) ⊎ ((t ≡ connected) ⊎ ((t ≡ in_progress) ⊎ (t ≡ refused)))
Try-cases no_socket = inl refl
Try-cases connected = inr (inl refl)
Try-cases in_progress = inr (inr (inl refl))
Try-cases refused = inr (inr (inr refl))

pub Ready-cases : (t : Ready) → (t ≡ quiet) ⊎ ((t ≡ won) ⊎ (t ≡ lost))
Ready-cases quiet = inl refl
Ready-cases won = inr (inl refl)
Ready-cases lost = inr (inr refl)

-- The accounts while nobody has won.
still_open :
    (r : Race) (x : ℕ)
    → r.winner ≡ none
    → Accounts r
    → opens x r.log ≡ closes x r.log + count x r.racing
still_open r x w h =
    let none_yet : wins x r.winner ≡ 0 = ap (wins x) w in omega (arith, h x, none_yet)

start_all-Accounts :
    (attempt : Addr → Try) (getfl : ℕ → ℕ) (sel : List Addr) (fd : ℕ) (r : Race)
    → r.winner ≡ none
    → Accounts r
    → Accounts (start_all attempt getfl sel fd r)
unfolding start_all
start_all-Accounts attempt getfl [] fd r w h = h
start_all-Accounts attempt getfl (a ∷ sel) fd r w h =
    elim (Bool-cases (ltb (length r.racing) max_addrs)) [
      | inr full ↦ rw (full, start_all) h
      | inl room ↦ elim (Try-cases (attempt a)) [
        | inl e ↦ rw (room, start_all, e, start_all) (start_all-Accounts attempt getfl sel fd r w h)
        | inr (inl e) ↦
            rw (room, start_all, e, start_all)
              (λ x. omega (
                arith,
                still_open r x w h,
                opens-append x r.log (opened fd ∷ nonblocking fd ∷ restored fd (getfl fd) ∷ []),
                closes-append x r.log (opened fd ∷ nonblocking fd ∷ restored fd (getfl fd) ∷ []),
              ))
        | inr (inr (inl e)) ↦
            rw (room, start_all, e, start_all)
              (start_all-Accounts attempt getfl sel (suc fd) _ w (λ x.
                let none_yet : wins x r.winner ≡ 0 = ap (wins x) w in
                omega (
                  arith,
                  none_yet,
                  still_open r x w h,
                  count-append x r.racing (record { fd = fd; flags = getfl fd } ∷ []),
                  opens-append x r.log (opened fd ∷ nonblocking fd ∷ []),
                  closes-append x r.log (opened fd ∷ nonblocking fd ∷ []),
                )))
        | inr (inr (inr e)) ↦
            rw (room, start_all, e, start_all)
              (start_all-Accounts attempt getfl sel (suc fd) _ w (λ x.
                let none_yet : wins x r.winner ≡ 0 = ap (wins x) w in
                omega (
                  arith,
                  none_yet,
                  still_open r x w h,
                  opens-append x r.log (opened fd ∷ nonblocking fd ∷ closed fd ∷ []),
                  closes-append x r.log (opened fd ∷ nonblocking fd ∷ closed fd ∷ []),
                )))
      ]
    ]

-- While the descriptors are looked at: those kept and those to come are open.
scan-Accounts :
    (fuel : ℕ) (ready : ℕ → Ready) (kept rest : List Slot) (r : Race)
    → r.winner ≡ none
    → ((x : ℕ) → opens x r.log ≡ closes x r.log + count x kept + count x rest)
    → Accounts (scan fuel ready kept rest r)
unfolding scan
scan-Accounts zero ready kept rest r w h = λ x.
    let none_yet : wins x r.winner ≡ 0 = ap (wins x) w in
    omega (arith, none_yet, h x, count-append x kept rest)
scan-Accounts (suc fuel) ready kept [] r w h =
    λ x. let none_yet : wins x r.winner ≡ 0 = ap (wins x) w in omega (arith, none_yet, h x)
scan-Accounts (suc fuel) ready kept (y ∷ rest) r w h = elim (Ready-cases (ready y.fd)) [
  | inl e ↦
      rw (e, scan)
        (scan-Accounts fuel ready (kept ++ (y ∷ [])) rest r w
          (λ x. omega (arith, h x, count-append x kept (y ∷ []))))
  | inr (inl e) ↦
      rw (e, scan)
        (λ x. omega (
          arith,
          h x,
          count-append x kept rest,
          opens-append x r.log (restored y.fd y.flags ∷ []),
          closes-append x r.log (restored y.fd y.flags ∷ []),
        ))
  | inr (inr e) ↦
      rw (e, scan)
        (scan-Accounts fuel ready kept (swap rest) _ w (λ x. omega (
          arith,
          h x,
          count-swap x rest,
          opens-append x r.log (closed y.fd ∷ []),
          closes-append x r.log (closed y.fd ∷ []),
        )))
]

pub is_racing-none : (r : Race) → is_racing r ≡ true → r.winner ≡ none
unfolding is_racing
is_racing-none r h = elim (Option-cases r.winner) [
  | inl e ↦ e
  | inr (fd, e) ↦ let h' : false ≡ true = (rw (e, is_racing) at h) in cc
]

-- The loop has ended, with the accounts in order.
abbrev Ends : Option Race → Type 0
Ends out = (end : Race) × ((out ≡ some end) × Accounts end)

turn :
    (b : Bool) (r : Race) (next : Option Race)
    → Accounts r
    → (b ≡ true → Ends next)
    → Ends (elim b [ false ↦ some r | true ↦ next ])
turn false r next h k = (r, (refl, h))
turn true r next h k = k refl

-- A slice less is left.
pub less :
    (r : Race) (fuel deadline : ℕ)
    → is_racing r && ltb 0 deadline ≡ true
    → deadline + 1000 ≤ suc fuel * 1000
    → (is_racing r ≡ true) × (deadline - min deadline 1000 + 1000 ≤ fuel * 1000)
less r fuel deadline on enough =
    let (racing, positive) = &&-eq-true (is_racing r) (ltb 0 deadline) on in
    let p = ltb→lt 0 deadline positive in (racing, omega arith)

race_loop-Accounts :
    (fuel : ℕ) (polls : List Poll) (deadline : ℕ) (r : Race)
    → deadline + 1000 ≤ fuel * 1000
    → Accounts r
    → Ends (race_loop fuel polls deadline r)
unfolding race_loop
race_loop-Accounts zero polls deadline r enough h = absurd (omega arith)
race_loop-Accounts (suc fuel) [] deadline r enough h =
    turn _ r _ h (λ on. race_loop-Accounts fuel [] _ r (less r fuel deadline on enough).1 h)
race_loop-Accounts (suc fuel) (interrupted ∷ polls) deadline r enough h =
    turn _ r _ h (λ on. race_loop-Accounts fuel polls _ r (less r fuel deadline on enough).1 h)
race_loop-Accounts (suc fuel) (timeout ∷ polls) deadline r enough h =
    turn _ r _ h (λ on. race_loop-Accounts fuel polls _ r (less r fuel deadline on enough).1 h)
race_loop-Accounts (suc fuel) (failed ∷ polls) deadline r enough h =
    turn _ r _ h (λ on. (r, (refl, h)))
race_loop-Accounts (suc fuel) (events ready ∷ polls) deadline r enough h = turn _ r _ h (λ on.
    let (racing, enough') = less r fuel deadline on enough in
    let w = is_racing-none r racing in
    race_loop-Accounts fuel polls _ _ enough' (
      scan-Accounts (length r.racing) ready [] r.racing r w
        (λ x. omega (arith, still_open r x w h))))

opens-close_all : (x : ℕ) (racing : List Slot) → opens x (close_all racing) ≡ 0
unfolding close_all
opens-close_all x [] = refl
opens-close_all x (y ∷ racing) = opens-close_all x racing

closes-close_all : (x : ℕ) (racing : List Slot) → closes x (close_all racing) ≡ count x racing
unfolding close_all
closes-close_all x [] = refl
closes-close_all x (y ∷ racing) = omega (arith, closes-close_all x racing)

-- The descriptor that a result hands over.
abbrev pub handed : ℕ → Result ℕ → ℕ
handed x (done w) = same x w
handed x (fail e) = 0

-- After the last loop only the winner is open.
closed_up :
    (end : Race) (x : ℕ) {winner : Option ℕ}
    → end.winner ≡ winner
    → Accounts end
    → opens x (end.log ++ close_all end.racing)
      ≡ closes x (end.log ++ close_all end.racing) + wins x winner
closed_up end x w k = omega (
  arith,
  k x,
  ap (wins x) w,
  opens-append x end.log (close_all end.racing),
  closes-append x end.log (close_all end.racing),
  opens-close_all x end.racing,
  closes-close_all x end.racing,
)

-- The timeouts set at the end open and close nothing.
bounded_up :
    (log : List Event) (w n x k : ℕ)
    → opens x log ≡ closes x log + k
    → opens x (log ++ (bounded w n ∷ [])) ≡ closes x (log ++ (bounded w n ∷ [])) + k
bounded_up log w n x k h =
    omega (arith, h, opens-append x log (bounded w n ∷ []), closes-append x log (bounded w n ∷ []))

-- A second for every round but the last is enough, wrapped or not.
deadline_of-covered : (seconds : ℕ) → deadline_of seconds + 1000 ≤ suc seconds * 1000
unfolding deadline_of
deadline_of-covered seconds = elim (Bool-cases (ltb (seconds * 1000 % 2 ^ 32) (2 ^ 31))) [
  | inl fits ↦ rw fits (omega arith)
  | inr negative ↦ rw negative (omega arith)
]

-- Within a second's slice for every second of the timeout and one round more, tcp_connect returns,
-- whatever the sockets and the polls do, and it closes every descriptor as often as it has opened
-- it, but for the one that it returns: no socket of the race is left open, on a failure none, and
-- the winner is not closed.
pub tcp_connect-Closes :
    (res : Option (List Addr)) (attempt : Addr → Try) (getfl : ℕ → ℕ) (polls : List Poll)
    (seconds fd : ℕ)
    → (result : Result ℕ) × (log : List Event) × ((tcp_connect res attempt getfl polls seconds fd
          ≡ some (result, log))
        × ((x : ℕ) → opens x log ≡ closes x log + handed x result))
unfolding tcp_connect
tcp_connect-Closes none attempt getfl polls seconds fd = (_, _, (refl, λ x. refl))
tcp_connect-Closes (some res) attempt getfl polls seconds fd =
    let start : Race = record { winner = none; racing = []; log = [] } in
    let h = start_all-Accounts attempt getfl (candidates res) fd start refl (λ x. refl) in
    let (end, (e, k)) =
      race_loop-Accounts (suc seconds) polls (deadline_of seconds)
        (start_all attempt getfl (candidates res) fd start) (deadline_of-covered seconds) h in
    elim (Option-cases end.winner) [
      | inl lost_all ↦
          rw (e, tcp_connect, lost_all, tcp_connect) (_, _, (refl, λ x. closed_up end x lost_all k))
      | inr (w, has_won) ↦
          rw (e, tcp_connect, has_won, tcp_connect)
            (
              _,
              _,
              (
                refl,
                λ x.
                    bounded_up (end.log ++ close_all end.racing) w seconds x (wins x (some w))
                      (closed_up end x has_won k),
              ),
            )
    ]
