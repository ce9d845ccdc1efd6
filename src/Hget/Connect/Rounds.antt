-- ===== src/Hget/Connect/Rounds.antt =====
-- The race of `tcp_connect` of board/hget/hget.c, without the order of its arrays.
use mathlib.Core.List.{Perm, perm_middle}
use mathlib.Core.List.Perm
use esp32_p4_linux.Common.{
  ℕ, zero, suc, ◌+◌, ◌-◌, ◌*◌, ◌≤◌, ◌≡◌, refl, sym, ap, ◌∙◌, ◌⊎◌, inl, inr, true, false, ◌&&◌,
  Option, none, some, List, [], ◌∷◌, ◌++◌, append-nil, append_assoc, All, All-append, length, arith,
  List-cases, Bool-cases, ltb, min,
}
use esp32_p4_linux.Hget.Connect.{
  Event, restored, closed, Slot, Race, Ready, quiet, won, lost, swap, scan, Poll, interrupted,
  failed, timeout, events, is_racing, race_loop,
}
use esp32_p4_linux.Hget.Connect.Closes.{length-swap, Ready-cases, is_racing-none, less}

-- What a round may do to the racing sockets, taken as a collection: close one that has failed, as
-- often as there is one; end with one that has connected; or end when all that are left are quiet.
pub data Round (ready : ℕ → Ready) : List Slot → List Event → Option ℕ → List Slot → Type 0 where
  waits :
      {xs zs : List Slot}
      → All (λ y. ready y.fd ≡ quiet) zs
      → Perm xs zs
      → Round ready xs [] none zs
  wins :
      {xs zs : List Slot} (y : Slot)
      → ready y.fd ≡ won
      → Perm xs (y ∷ zs)
      → Round ready xs (restored y.fd y.flags ∷ []) (some y.fd) zs
  drops :
      {xs ys zs : List Slot} {log : List Event} {w : Option ℕ} (y : Slot)
      → ready y.fd ≡ lost
      → Perm xs (y ∷ ys)
      → Round ready ys log w zs
      → Round ready xs (closed y.fd ∷ log) w zs

swap-perm : (ys : List Slot) → Perm (swap ys) ys
unfolding swap
swap-perm [] = Perm.rfl
swap-perm (y ∷ []) = Perm.rfl
swap-perm (y ∷ z ∷ ys) = elim (List-cases (swap (z ∷ ys))) [
  | inl e ↦ let n = ap length (sym e) ∙ length-swap (z ∷ ys) in absurd (omega (arith, n))
  | inr (w, ws, e) ↦
      let found = swap-perm (z ∷ ys) in
      let ih : Perm (w ∷ ws) (z ∷ ys) = (rw e at found) in
      rw (e, swap) (Perm.trans (Perm.swap y w ws) (Perm.cons y ih))
]

module _ (ready : ℕ → Ready) where
  -- A race that has gone through a round.
  abbrev Rounded : List Slot → List Event → Race → Type 0
  Rounded xs before r =
      (log : List Event) × ((r.log ≡ before ++ log) × Round ready xs log r.winner r.racing)

  scan-Rounded :
      (fuel : ℕ) (kept rest : List Slot) (r : Race)
      → length rest ≤ fuel
      → r.winner ≡ none
      → All (λ y. ready y.fd ≡ quiet) kept
      → Rounded (kept ++ rest) r.log (scan fuel ready kept rest r)
  unfolding scan
  scan-Rounded zero kept [] r few w h =
      ([], (sym (append-nil r.log), rw (w, append-nil kept) (waits h Perm.rfl)))
  scan-Rounded zero kept (y ∷ rest) r few w h = absurd (omega arith)
  scan-Rounded (suc fuel) kept [] r few w h =
      ([], (sym (append-nil r.log), rw (w, append-nil kept) (waits h Perm.rfl)))
  scan-Rounded (suc fuel) kept (y ∷ rest) r few w h = elim (Ready-cases (ready y.fd)) [
    | inl e ↦
        let next =
          scan-Rounded fuel (kept ++ (y ∷ [])) rest r (omega arith) w
            (All-append (λ y. ready y.fd ≡ quiet) kept (y ∷ []) h (e, tt)) in
        let same : Rounded (kept ++ (y ∷ rest)) r.log (scan fuel ready (kept ++ (y ∷ [])) rest r) =
          (rw (append_assoc kept (y ∷ []) rest) at next) in
        rw (e, scan) same
    | inr (inl e) ↦
        rw (e, scan) ((restored y.fd y.flags ∷ [], (refl, wins y e (perm_middle kept rest))))
    | inr (inr e) ↦
        let few' : length (swap rest) ≤ fuel = omega (arith, length-swap rest) in
        let next = record r { log = r.log ++ (closed y.fd ∷ []) } in
        let (log, (whole, round)) = scan-Rounded fuel kept (swap rest) next few' w h in
        let split : (scan fuel ready kept (swap rest) next).log ≡ r.log ++ (closed y.fd ∷ log) =
          whole ∙ append_assoc r.log (closed y.fd ∷ []) log in
        let others = Perm.cons y (Perm.append_left kept (Perm.symm (swap-perm rest))) in
        rw (e, scan)
          (closed y.fd ∷ log, (split, drops y e (Perm.trans (perm_middle kept rest) others) round))
  ]

scan-Round :
    (ready : ℕ → Ready) (r : Race)
    → r.winner ≡ none
    → Rounded ready r.racing r.log (scan (length r.racing) ready [] r.racing r)
scan-Round ready r w = scan-Rounded ready (length r.racing) [] r.racing r (omega arith) w tt

-- The loop goes on while sockets race without a winner and time is left.
abbrev pub Goes : Race → ℕ → Type 0
Goes r deadline = is_racing r && ltb 0 deadline ≡ true

-- A race from one state to its end, with the time that is left and the polls to come. Each poll
-- takes a second, or what is left of it.
pub data Ran : ℕ → List Poll → Race → Race → Type 0 where
  ends : {d : ℕ} {polls : List Poll} {r : Race} → is_racing r && ltb 0 d ≡ false → Ran d polls r r
  breaks : {d : ℕ} {polls : List Poll} {r : Race} → Goes r d → Ran d (failed ∷ polls) r r
  idles : {d : ℕ} {r end : Race} → Goes r d → Ran (d - min d 1000) [] r end → Ran d [] r end
  skips :
      {d : ℕ} {p : Poll} {polls : List Poll} {r end : Race}
      → Goes r d
      → (p ≡ interrupted) ⊎ (p ≡ timeout)
      → Ran (d - min d 1000) polls r end
      → Ran d (p ∷ polls) r end
  rounds :
      {d : ℕ} {ready : ℕ → Ready} {polls : List Poll} {r next end : Race} {log : List Event}
      → Goes r d
      → next.log ≡ r.log ++ log
      → Round ready r.racing log next.winner next.racing
      → Ran (d - min d 1000) polls next end
      → Ran d (events ready ∷ polls) r end

abbrev Runs : ℕ → List Poll → Race → Option Race → Type 0
Runs d polls r out = (end : Race) × ((out ≡ some end) × Ran d polls r end)

-- The loop's test, and what follows it.
turn-Runs :
    (d : ℕ) (polls : List Poll) (r : Race) (next : Option Race)
    → (Goes r d → Runs d polls r next)
    → Runs d polls r (elim (is_racing r && ltb 0 d) [ false ↦ some r | true ↦ next ])
turn-Runs d polls r next k = elim (Bool-cases (is_racing r && ltb 0 d)) [
  | inl on ↦ rw on (k on)
  | inr off ↦ rw off (r, (refl, ends off))
]

-- The loop of tcp_connect, whose fuel covers the deadline, comes to an end, and on the way does
-- with the collection of racing sockets what the polls say: it stops when a socket has won, when
-- none is left, when the time is over or poll fails; a poll without events changes nothing; and a
-- poll with events closes failed sockets in some order, one at a time, until one that has connected
-- is restored and taken out as the winner, or until only sockets without events are left.
pub race_loop-Ran :
    (fuel : ℕ) (polls : List Poll) (d : ℕ) (r : Race)
    → d + 1000 ≤ fuel * 1000
    → (end : Race) × ((race_loop fuel polls d r ≡ some end) × Ran d polls r end)
unfolding race_loop
race_loop-Ran zero polls d r enough = absurd (omega arith)
race_loop-Ran (suc fuel) [] d r enough =
    turn-Runs d [] r (race_loop fuel [] (d - min d 1000) r) (λ on.
      let (end, (e, run)) = race_loop-Ran fuel [] (d - min d 1000) r (less r fuel d on enough).1 in
      (end, (e, idles on run)))
race_loop-Ran (suc fuel) (interrupted ∷ polls) d r enough =
    turn-Runs d (interrupted ∷ polls) r (race_loop fuel polls (d - min d 1000) r) (λ on.
      let (end, (e, run)) =
        race_loop-Ran fuel polls (d - min d 1000) r (less r fuel d on enough).1 in
      (end, (e, skips on (inl refl) run)))
race_loop-Ran (suc fuel) (timeout ∷ polls) d r enough =
    turn-Runs d (timeout ∷ polls) r (race_loop fuel polls (d - min d 1000) r) (λ on.
      let (end, (e, run)) =
        race_loop-Ran fuel polls (d - min d 1000) r (less r fuel d on enough).1 in
      (end, (e, skips on (inr refl) run)))
race_loop-Ran (suc fuel) (failed ∷ polls) d r enough =
    turn-Runs d (failed ∷ polls) r (some r) (λ on. (r, (refl, breaks on)))
race_loop-Ran (suc fuel) (events ready ∷ polls) d r enough =
    let next = scan (length r.racing) ready [] r.racing r in
    turn-Runs d (events ready ∷ polls) r (race_loop fuel polls (d - min d 1000) next) (λ on.
      let (racing, enough') = less r fuel d on enough in
      let (log, (split, round)) = scan-Round ready r (is_racing-none r racing) in
      let (end, (e, run)) = race_loop-Ran fuel polls (d - min d 1000) next enough' in
      (end, (e, rounds on split round run)))
