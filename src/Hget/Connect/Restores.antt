-- ===== src/Hget/Connect/Restores.antt =====
-- The descriptor that `tcp_connect` of board/hget/hget.c returns is blocking again.
use esp32_p4_linux.Common.{
  ℕ, zero, suc, ◌-◌, ◌≡◌, ◌≢◌, refl, sym, ap, ◌∙◌, inl, inr, Bool, true, false, ◌&&◌, Option, none,
  some, List, [], ◌∷◌, ◌++◌, All, All-append, ltb, ◌==◌, if◌then◌else◌, length, min, arith,
  &&-eq-true, Bool-cases, Option-cases, List-cases,
}
use esp32_p4_linux.Hget.Exit.{connect, resolve, Result, done, fail}
use esp32_p4_linux.Hget.Connect.{
  max_addrs, Addr, candidates, Try, Event, opened, nonblocking, restored, bounded, closed, Slot,
  Race, start_all, Ready, swap, scan, Poll, interrupted, failed, timeout, events, is_racing,
  race_loop, close_all, deadline_of, tcp_connect,
}
use esp32_p4_linux.Hget.Connect.Closes.{Try-cases, Ready-cases, is_racing-none}

-- What the descriptor's flags are after a log: `none` is not told, or with O_NONBLOCK.
abbrev pub flags_after : ℕ → List Event → Option ℕ → Option ℕ
flags_after x [] f = f
flags_after x (nonblocking y ∷ log) f = flags_after x log (if y == x then none else f)
flags_after x (restored y g ∷ log) f = flags_after x log (if y == x then some g else f)
flags_after x (_ ∷ log) f = flags_after x log f

flags_after-append :
    (x : ℕ) (a b : List Event) (f : Option ℕ)
    → flags_after x (a ++ b) f ≡ flags_after x b (flags_after x a f)
flags_after-append x [] b f = refl
flags_after-append x (opened y ∷ a) b f = flags_after-append x a b f
flags_after-append x (nonblocking y ∷ a) b f = flags_after-append x a b (if y == x then none else f)
flags_after-append x (restored y g ∷ a) b f =
    flags_after-append x a b (if y == x then some g else f)
flags_after-append x (bounded y n ∷ a) b f = flags_after-append x a b f
flags_after-append x (closed y ∷ a) b f = flags_after-append x a b f

flags_after-close_all :
    (x : ℕ) (racing : List Slot) (f : Option ℕ) → flags_after x (close_all racing) f ≡ f
unfolding close_all
flags_after-close_all x [] f = refl
flags_after-close_all x (y ∷ racing) f = flags_after-close_all x racing f

none-ne-some : {o : Option ℕ} {x : ℕ} → o ≡ none → o ≢ some x
none-ne-some h k = cc

-- The last of a log gives the winner its flags back.
flags_after-last :
    (log front : List Event) (w g x : ℕ)
    → ◌≡◌ {A = Option ℕ} (some w) (some x)
    → flags_after x (log ++ (front ++ (restored w g ∷ []))) none ≡ some g
flags_after-last log front w g x wins =
    let own : (w == x) ≡ true = ground (arith, wins) in
    flags_after-append x log _ none
    ∙ flags_after-append x front (restored w g ∷ []) _
    ∙ (rw own refl)

same_winner : (w x : ℕ) → ◌≡◌ {A = Option ℕ} (some w) (some x) → w ≡ x
same_winner w x wins = cc

module _ (getfl : ℕ → ℕ) where
  -- The entries of `flags` are those of the descriptors beside them.
  abbrev Kept : List Slot → Type 0
  Kept racing = All (λ y. y.flags ≡ getfl y.fd) racing

  Kept-swap : (ys : List Slot) → Kept ys → Kept (swap ys)
  unfolding swap
  Kept-swap [] h = h
  Kept-swap (y ∷ []) h = h
  Kept-swap (y ∷ z ∷ ys) h = elim (List-cases (swap (z ∷ ys))) [
    | inl e ↦ rw (e, swap) tt
    | inr (w, ws, e) ↦
        let ih = Kept-swap (z ∷ ys) h.1 in
        let ih' : Kept (w ∷ ws) = (rw e at ih) in rw (e, swap) (ih'.0, (h.0, ih'.1))
  ]

  -- A winner has its flags back.
  abbrev Restored : Race → Type 0
  Restored r =
      Kept r.racing × ((w : ℕ) → r.winner ≡ some w → flags_after w r.log none ≡ some (getfl w))

  start_all-Restored :
      (attempt : Addr → Try) (sel : List Addr) (fd : ℕ) (r : Race)
      → r.winner ≡ none
      → Kept r.racing
      → Restored (start_all attempt getfl sel fd r)
  unfolding start_all
  start_all-Restored attempt [] fd r w h = (h, λ x has_won. absurd (none-ne-some w has_won))
  start_all-Restored attempt (a ∷ sel) fd r w h =
      elim (Bool-cases (ltb (length r.racing) max_addrs)) [
        | inr full ↦ rw (full, start_all) (h, λ x has_won. absurd (none-ne-some w has_won))
        | inl room ↦ elim (Try-cases (attempt a)) [
          | inl e ↦ rw (room, start_all, e, start_all) (start_all-Restored attempt sel fd r w h)
          | inr (inl e) ↦
              rw (room, start_all, e, start_all)
                (
                  h,
                  λ x has_won.
                      flags_after-last r.log (opened fd ∷ nonblocking fd ∷ []) fd (getfl fd) x
                        has_won
                      ∙ ap (λ v. some (getfl v)) (same_winner fd x has_won),
                )
          | inr (inr (inl e)) ↦
              rw (room, start_all, e, start_all)
                (start_all-Restored attempt sel (suc fd) _ w
                  (All-append (λ y. y.flags ≡ getfl y.fd) r.racing _ h (refl, tt)))
          | inr (inr (inr e)) ↦
              rw (room, start_all, e, start_all) (start_all-Restored attempt sel (suc fd) _ w h)
        ]
      ]

  scan-Restored :
      (fuel : ℕ) (ready : ℕ → Ready) (kept rest : List Slot) (r : Race)
      → r.winner ≡ none
      → Kept kept
      → Kept rest
      → Restored (scan fuel ready kept rest r)
  unfolding scan
  scan-Restored zero ready kept rest r w h k = (
    All-append (λ y. y.flags ≡ getfl y.fd) kept rest h k,
    λ x has_won. absurd (none-ne-some w has_won),
  )
  scan-Restored (suc fuel) ready kept [] r w h k = (h, λ x has_won. absurd (none-ne-some w has_won))
  scan-Restored (suc fuel) ready kept (y ∷ rest) r w h k = elim (Ready-cases (ready y.fd)) [
    | inl e ↦
        rw (e, scan)
          (scan-Restored fuel ready (kept ++ (y ∷ [])) rest r w
            (All-append (λ y. y.flags ≡ getfl y.fd) kept (y ∷ []) h (k.0, tt)) k.1)
    | inr (inl e) ↦
        rw (e, scan)
          (
            All-append (λ y. y.flags ≡ getfl y.fd) kept rest h k.1,
            λ x has_won.
                flags_after-last r.log [] y.fd y.flags x has_won
                ∙ ap some k.0
                ∙ ap (λ v. some (getfl v)) (same_winner y.fd x has_won),
          )
    | inr (inr e) ↦
        rw (e, scan) (scan-Restored fuel ready kept (swap rest) _ w h (Kept-swap rest k.1))
  ]

  -- The loop has ended, with a winner's flags restored.
  abbrev Ended : Option Race → Type 0
  Ended out = (end : Race) → out ≡ some end → Restored end

  Ended-here : (r : Race) → Restored r → Ended (some r)
  Ended-here r h end e = let same : r ≡ end = cc in rw (sym same) h

  Ended-turn :
      (b : Bool) (r : Race) (next : Option Race)
      → Restored r
      → (b ≡ true → Ended next)
      → Ended (elim b [ false ↦ some r | true ↦ next ])
  Ended-turn false r next h k end e = Ended-here r h end e
  Ended-turn true r next h k end e = k refl end e

  race_loop-Restored :
      (fuel : ℕ) (polls : List Poll) (deadline : ℕ) (r : Race)
      → Restored r
      → Ended (race_loop fuel polls deadline r)
  unfolding race_loop
  race_loop-Restored zero polls deadline r h =
      λ end e. let bad : ◌≡◌ {A = Option Race} none (some end) = e in cc
  race_loop-Restored (suc fuel) [] deadline r h =
      let left = deadline - min deadline 1000 in
      Ended-turn (is_racing r && ltb 0 deadline) r (race_loop fuel [] left r) h
        (λ on. race_loop-Restored fuel [] left r h)
  race_loop-Restored (suc fuel) (interrupted ∷ polls) deadline r h =
      let left = deadline - min deadline 1000 in
      Ended-turn (is_racing r && ltb 0 deadline) r (race_loop fuel polls left r) h
        (λ on. race_loop-Restored fuel polls left r h)
  race_loop-Restored (suc fuel) (timeout ∷ polls) deadline r h =
      let left = deadline - min deadline 1000 in
      Ended-turn (is_racing r && ltb 0 deadline) r (race_loop fuel polls left r) h
        (λ on. race_loop-Restored fuel polls left r h)
  race_loop-Restored (suc fuel) (failed ∷ polls) deadline r h =
      Ended-turn (is_racing r && ltb 0 deadline) r (some r) h (λ on. Ended-here r h)
  race_loop-Restored (suc fuel) (events ready ∷ polls) deadline r h =
      let left = deadline - min deadline 1000 in
      let next = scan (length r.racing) ready [] r.racing r in
      Ended-turn (is_racing r && ltb 0 deadline) r (race_loop fuel polls left next) h (λ on.
        let (racing, positive) = &&-eq-true (is_racing r) (ltb 0 deadline) on in
        race_loop-Restored fuel polls left next
          (scan-Restored (length r.racing) ready [] r.racing r (is_racing-none r racing) tt h.0))

-- A descriptor that tcp_connect returns has the flags that F_GETFL gave for it before O_NONBLOCK was
-- added, whichever of the racing sockets has won and however the others were dropped; and the last
-- thing that has happened to it is that its reads and writes are bounded by the timeout.
pub tcp_connect-restores :
    (res : Option (List Addr)) (attempt : Addr → Try) (getfl : ℕ → ℕ) (polls : List Poll)
    (seconds fd w : ℕ) (log : List Event)
    → tcp_connect res attempt getfl polls seconds fd ≡ some (done w, log)
    → (flags_after w log none ≡ some (getfl w))
      × ((front : List Event) × (log ≡ front ++ (bounded w seconds ∷ [])))
unfolding tcp_connect
tcp_connect-restores none attempt getfl polls seconds fd w log e =
    let bad : ◌≡◌ {A = Result ℕ × List Event} (fail resolve, []) (done w, log) = cc in absurd cc
tcp_connect-restores (some res) attempt getfl polls seconds fd w log e =
    let start : Race = record { winner = none; racing = []; log = [] } in
    let begun = start_all attempt getfl (candidates res) fd start in
    let out = race_loop (suc seconds) polls (deadline_of seconds) begun in
    let held =
      race_loop-Restored getfl (suc seconds) polls (deadline_of seconds) begun
        (start_all-Restored getfl attempt (candidates res) fd start refl tt) in
    elim (Option-cases out) [
      | inl q ↦
          let bad : ◌≡◌ {A = Option (Result ℕ × List Event)} none (some (done w, log)) =
            (rw (q, tcp_connect) at e) in
          cc
      | inr (end, q) ↦ elim (Option-cases end.winner) [
        | inl q' ↦
            let bad : ◌≡◌ {A = Option (Result ℕ × List Event)}
                (some (fail connect, end.log ++ close_all end.racing)) (some (done w, log)) =
              (rw (q, tcp_connect, q', tcp_connect) at e) in
            cc
        | inr (w', q') ↦
            let good : ◌≡◌ {A = Option (Result ℕ × List Event)}
                (some (done w', (end.log ++ close_all end.racing) ++ (bounded w' seconds ∷ [])))
                (some (done w, log)) =
              (rw (q, tcp_connect, q', tcp_connect) at e) in
            let same : w' ≡ w = cc in
            let whole : log ≡ (end.log ++ close_all end.racing) ++ (bounded w' seconds ∷ []) = cc in
            let front = end.log ++ close_all end.racing in
            let back : flags_after w' (front ++ (bounded w' seconds ∷ [])) none ≡ some (getfl w') =
              flags_after-append w' front (bounded w' seconds ∷ []) none
              ∙ flags_after-append w' end.log (close_all end.racing) none
              ∙ flags_after-close_all w' end.racing _
              ∙ (held end q).1 w' q' in
            rw (whole, sym same) (back, (front, refl))
      ]
    ]
