-- ===== src/Hget/Connect.antt =====
-- `tcp_connect` of board/hget/hget.c: the candidates out of what `getaddrinfo` returns, and the
-- race of their sockets. The log records what happens to descriptors.
pub mod Select
pub mod Among
pub mod Closes
pub mod Restores
pub mod Rounds
use esp32_p4_linux.Common.{
  ℕ, zero, suc, ◌+◌, ◌-◌, ◌*◌, ◌%◌, ◌^◌, ◌≡◌, Bool, true, false, not, ◌&&◌, Option, none, some,
  List, [], ◌∷◌, ◌++◌, ltb, leb, ◌==◌, if◌then◌else◌, length, get_elem?, min,
}
use esp32_p4_linux.Hget.Exit.{Exit, connect, resolve, Result, done, fail}

-- `MAX_ADDRS`
abbrev pub max_addrs : ℕ
max_addrs = 8

-- An address: whether its family is AF_INET6, and the rest of it as a number.
pub record Addr : Type 0 where
  pub inet6 : Bool
  pub key : ℕ

-- `fam[f][nf[f]++] = ai`, while there is room
unfoldable pub add : List Addr → Addr → List Addr
add fam a = if ltb (length fam) max_addrs then fam ++ (a ∷ []) else fam

unfoldable pub split_families : List Addr → List Addr → List Addr → List Addr × List Addr
unfolding add
split_families [] six four = (six, four)
split_families (a ∷ res) six four = elim a.inet6 [
  | true ↦ split_families res (add six a) four
  | false ↦ split_families res six (add four a)
]

-- The entry of one family at a slot, while there is room.
unfoldable pub pick : List Addr → ℕ → List Addr → List Addr
pick fam slot sel = elim (ltb (length sel) max_addrs) [
  | true ↦ elim (get_elem? fam slot) [ none ↦ sel | some a ↦ sel ++ (a ∷ []) ]
  | false ↦ sel
]

-- The rounds over the slots from `slot` on, IPv6 first in each.
unfoldable pub interleave : ℕ → ℕ → List Addr → List Addr → List Addr → List Addr
unfolding pick
interleave zero slot six four sel = sel
interleave (suc n) slot six four sel =
    interleave n (suc slot) six four (pick four slot (pick six slot sel))

unfoldable pub candidates : List Addr → List Addr
unfolding split_families interleave
candidates res = let (six, four) = split_families res [] [] in interleave max_addrs 0 six four []

-- What `socket` and `connect` come to for an address.
pub data Try : Type 0 where
  no_socket connected in_progress refused : Try

pub data Event : Type 0 where
  opened : ℕ → Event
  -- `fcntl` with F_SETFL: O_NONBLOCK on top of the flags, and the flags as they were
  nonblocking : ℕ → Event
  restored : ℕ → ℕ → Event
  -- SO_RCVTIMEO and SO_SNDTIMEO in seconds
  bounded : ℕ → ℕ → Event
  closed : ℕ → Event

-- An entry of `pfd`, with that of `flags`: the code fills both at the same index, and moves the last
-- entry of both into a gap at once.
pub record Slot : Type 0 where
  pub fd : ℕ
  pub flags : ℕ

-- The winner if there is one, the descriptors that are still racing, and the log.
pub record Race : Type 0 where
  pub winner : Option ℕ
  pub racing : List Slot
  pub log : List Event

-- Every connect is started; `fd` is the next descriptor, `getfl` what F_GETFL gives for it.
unfoldable pub start_all : (Addr → Try) → (ℕ → ℕ) → List Addr → ℕ → Race → Race
start_all attempt getfl [] fd r = r
start_all attempt getfl (a ∷ sel) fd r = elim (ltb (length r.racing) max_addrs) [
  | false ↦ r
  | true ↦ elim (attempt a) [
    | no_socket ↦ start_all attempt getfl sel fd r
    | connected ↦ record r {
      winner = some fd;
      log = r.log ++ (opened fd ∷ nonblocking fd ∷ restored fd (getfl fd) ∷ []);
    }
    | in_progress ↦ start_all attempt getfl sel (suc fd) (record r {
      racing = r.racing ++ (record { fd = fd; flags = getfl fd } ∷ []);
      log = r.log ++ (opened fd ∷ nonblocking fd ∷ []);
    })
    | refused ↦
        start_all attempt getfl sel (suc fd)
          (record r { log = r.log ++ (opened fd ∷ nonblocking fd ∷ closed fd ∷ []) })
  ]
]

-- What `poll` and SO_ERROR say of a descriptor.
pub data Ready : Type 0 where
  quiet won lost : Ready

-- The last entry moved to the front: `pfd[i] = pfd[nfd - 1]` and `flags[i] = flags[nfd - 1]`, seen
-- from index i.
unfoldable pub swap : List Slot → List Slot
swap [] = []
swap (x ∷ []) = x ∷ []
swap (x ∷ y ∷ rest) = elim (swap (y ∷ rest)) [ [] ↦ [] | z ∷ zs ↦ z ∷ x ∷ zs ]

-- The descriptors from index i on, behind those that were quiet. The entry of the winner becomes
-- -1, which the loop at the end passes over: here it is left out.
unfoldable pub scan : ℕ → (ℕ → Ready) → List Slot → List Slot → Race → Race
unfolding swap
scan zero ready kept rest r = record r { racing = kept ++ rest }
scan (suc fuel) ready kept [] r = record r { racing = kept }
scan (suc fuel) ready kept (x ∷ rest) r = elim (ready x.fd) [
  | quiet ↦ scan fuel ready (kept ++ (x ∷ [])) rest r
  | won ↦ record r {
    winner = some x.fd;
    racing = kept ++ rest;
    log = r.log ++ (restored x.fd x.flags ∷ []);
  }
  | lost ↦ scan fuel ready kept (swap rest) (record r { log = r.log ++ (closed x.fd ∷ []) })
]

-- What one call of `poll` returns.
pub data Poll : Type 0 where
  interrupted failed timeout : Poll
  events : (ℕ → Ready) → Poll

unfoldable pub is_racing : Race → Bool
is_racing r = elim r.winner [ some fd ↦ false | none ↦ elim r.racing [ [] ↦ false | _ ∷ _ ↦ true ] ]

-- The loop over slices of the deadline; the outer `none` would be fuel that has run out.
unfoldable pub race_loop : ℕ → List Poll → ℕ → Race → Option Race
unfolding is_racing scan
race_loop zero polls deadline r = none
race_loop (suc fuel) polls deadline r = elim (is_racing r && ltb 0 deadline) [
  | false ↦ some r
  | true ↦
      let deadline' = deadline - min deadline 1000 in
      elim polls [
        | [] ↦ race_loop fuel [] deadline' r
        | p ∷ polls' ↦ elim p [
          | interrupted ↦ race_loop fuel polls' deadline' r
          | timeout ↦ race_loop fuel polls' deadline' r
          | failed ↦ some r
          | events ready ↦
              race_loop fuel polls' deadline' (scan (length r.racing) ready [] r.racing r)
        ]
      ]
]

unfoldable pub close_all : List Slot → List Event
close_all [] = []
close_all (x ∷ racing) = closed x.fd ∷ close_all racing

-- `(long)opt_timeout * 1000`, where long has 32 bits: a product that does not fit is taken to wrap,
-- and one that is then negative leaves the loop at its first test, as 0 does.
unfoldable pub deadline_of : ℕ → ℕ
deadline_of seconds = let ms = seconds * 1000 % 2 ^ 32 in if ltb ms (2 ^ 31) then ms else 0

-- The result and the log; `none` of `res` is a name that does not resolve. The polls that the list
-- does not give time out.
unfoldable pub tcp_connect :
    Option (List Addr) → (Addr → Try) → (ℕ → ℕ) → List Poll → ℕ → ℕ → Option (Result ℕ × List Event)
unfolding candidates start_all race_loop close_all deadline_of
tcp_connect none attempt getfl polls seconds fd = some (fail resolve, [])
tcp_connect (some res) attempt getfl polls seconds fd =
    let r =
      start_all attempt getfl (candidates res) fd
        (record { winner = none; racing = []; log = [] }) in
    elim (race_loop (suc seconds) polls (deadline_of seconds) r) [
      | none ↦ none
      | some end ↦
          let log = end.log ++ close_all end.racing in
          elim end.winner [
            | none ↦ some (fail connect, log)
            | some w ↦ some (done w, log ++ (bounded w seconds ∷ []))
          ]
    ]
