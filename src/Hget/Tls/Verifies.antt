-- ===== src/Hget/Tls/Verifies.antt =====
-- The TLS connections that `conn_open` of board/hget/hget.c accepts, and the sockets it closes.
use esp32_p4_linux.Common.{
  ℕ, ◌+◌, ◌≡◌, refl, inl, inr, Bool, true, false, ◌||◌, List, [], ◌∷◌, ◌++◌, ◌==◌, Bytes, arith,
  Bool-cases,
}
use esp32_p4_linux.Hget.Exit.{Exit, ok, tls, done}
use esp32_p4_linux.Hget.Tls.{
  Mbed, TlsStep, seeded, configured, no_verify, must_verify, set_up, shaken, notified, inited,
  freed, trusts, names, closed, handshake, attempt, contexts_init, tls_open, conn_open,
}

-- A call that has led to success, and what followed it.
attempt-true :
    (good : Bool) (steps : List TlsStep) (rest : Bool × List TlsStep)
    → (attempt good steps rest).0 ≡ true
    → (good ≡ true) × ((rest.0 ≡ true) × ((attempt good steps rest).1 ≡ steps ++ rest.1))
attempt-true true steps rest h = (refl, (h, refl))
attempt-true false steps rest h = cc

-- The steps of an accepted connection.
abbrev pub accepted : Bytes → Bytes → List TlsStep
accepted ca_file host =
    seeded ∷ configured ∷ trusts ca_file ∷ must_verify ∷ set_up ∷ names host ∷ shaken ∷ []

-- Every call that can fail has succeeded: none of the failures is passed over.
pub record Succeeds (m : Mbed) : Type 0 where
  pub seeds : m.seeds ≡ true
  pub configures : m.configures ≡ true
  pub reads_ca : m.reads_ca ≡ true
  pub sets_up : m.sets_up ≡ true
  pub takes_name : m.takes_name ≡ true
  pub shakes : handshake m.shakes ≡ true
  pub flags : m.flags ≡ 0

zero_flags : (n : ℕ) → (n == 0 || false) ≡ true → n ≡ 0
zero_flags n h = ground arith

tls_open-verifies :
    (ca_file host : Bytes) (m : Mbed)
    → (tls_open false ca_file host m).0 ≡ true
    → Succeeds m × ((tls_open false ca_file host m).1 ≡ accepted ca_file host)
unfolding tls_open
tls_open-verifies ca_file host m h =
    let (a, (h₁, e₁)) = attempt-true m.seeds (seeded ∷ []) _ h in
    let (b, (h₂, e₂)) = attempt-true m.configures (configured ∷ []) _ h₁ in
    let (c, (h₃, e₃)) = attempt-true m.reads_ca (trusts ca_file ∷ must_verify ∷ []) _ h₂ in
    let (d, (h₄, e₄)) = attempt-true m.sets_up (set_up ∷ []) _ h₃ in
    let (e, (h₅, e₅)) = attempt-true m.takes_name (names host ∷ []) _ h₄ in
    let (f, (h₆, e₆)) = attempt-true (handshake m.shakes) [] _ h₅ in
    let (g, (h₇, e₇)) = attempt-true (m.flags == 0 || false) (shaken ∷ []) _ h₆ in
    let all : Succeeds m = record {
      seeds = a;
      configures = b;
      reads_ca = c;
      sets_up = d;
      takes_name = e;
      shakes = f;
      flags = zero_flags m.flags g;
    } in
    (all, rw (a, b, c, d, e, f, g) refl)

-- With verification on, conn_open accepts a TLS connection only if every call of mbedTLS has
-- succeeded, the loading of the CA bundle and the handshake among them, and the verify result is 0;
-- and it has then loaded the bundle, made verification required, set the name to be checked, and
-- completed the handshake, in this order.
pub conn_open-verifies :
    (built : Bool) (ca_file host : Bytes) (fd : ℕ) (m : Mbed)
    → (conn_open built false ca_file host (done fd) true m).0 ≡ ok
    → (built ≡ true)
      × (Succeeds m
          × ((conn_open built false ca_file host (done fd) true m).1
              ≡ contexts_init ++ accepted ca_file host))
unfolding conn_open
conn_open-verifies false ca_file host fd m h = cc
conn_open-verifies true ca_file host fd m h = elim (Bool-cases (tls_open false ca_file host m).0) [
  | inr bad ↦ let h' : tls ≡ ok = (rw bad at h) in cc
  | inl good ↦
      let (all, e) = tls_open-verifies ca_file host m good in (refl, (all, rw (good, e) refl))
]

-- How often a log closes a descriptor.
abbrev pub closings : List TlsStep → ℕ
closings [] = 0
closings (closed fd ∷ log) = 1 + closings log
closings (_ ∷ log) = closings log

-- The socket is closed once where conn_open fails behind `tcp_connect`, and not where it succeeds.
abbrev pub expected : Exit → ℕ
expected ok = 0
expected _ = 1

closings-append : (xs ys : List TlsStep) → closings (xs ++ ys) ≡ closings xs + closings ys
closings-append [] ys = omega arith
closings-append (seeded ∷ xs) ys = closings-append xs ys
closings-append (configured ∷ xs) ys = closings-append xs ys
closings-append (no_verify ∷ xs) ys = closings-append xs ys
closings-append (must_verify ∷ xs) ys = closings-append xs ys
closings-append (set_up ∷ xs) ys = closings-append xs ys
closings-append (shaken ∷ xs) ys = closings-append xs ys
closings-append (notified ∷ xs) ys = closings-append xs ys
closings-append (inited x ∷ xs) ys = closings-append xs ys
closings-append (freed x ∷ xs) ys = closings-append xs ys
closings-append (trusts b ∷ xs) ys = closings-append xs ys
closings-append (names b ∷ xs) ys = closings-append xs ys
closings-append (closed fd ∷ xs) ys = omega (arith, closings-append xs ys)

attempt-closings :
    (good : Bool) (steps : List TlsStep) (rest : Bool × List TlsStep)
    → closings steps ≡ 0
    → closings rest.1 ≡ 0
    → closings (attempt good steps rest).1 ≡ 0
attempt-closings true steps rest h k = omega (arith, closings-append steps rest.1)
attempt-closings false steps rest h k = refl

pub tls_open-closings :
    (insecure : Bool) (ca_file host : Bytes) (m : Mbed)
    → closings (tls_open insecure ca_file host m).1 ≡ 0
unfolding tls_open
tls_open-closings insecure ca_file host m = attempt-closings m.seeds (seeded ∷ []) _ refl (
    attempt-closings m.configures (configured ∷ []) _ refl (elim (Bool-cases insecure) [
      | inl off ↦ rw off (rest true)
      | inr on ↦
          rw on
            (attempt-closings m.reads_ca (trusts ca_file ∷ must_verify ∷ []) _ refl (rest false))
    ]))
  where
    rest :
        (skip : Bool)
        → closings
            (attempt m.sets_up (set_up ∷ []) (
              attempt m.takes_name (names host ∷ []) (
                attempt
                  (handshake m.shakes)
                  []
                  (attempt (m.flags == 0 || skip) (shaken ∷ []) (true, []))))).1
          ≡ 0
    rest skip = attempt-closings m.sets_up (set_up ∷ []) _ refl (
        attempt-closings m.takes_name (names host ∷ []) _ refl (
          attempt-closings (handshake m.shakes) [] _ refl
            (attempt-closings (m.flags == 0 || skip) (shaken ∷ []) (true, []) refl refl)))

-- With a socket connected, conn_open either succeeds and leaves it open, or fails and has closed it
-- exactly once, whatever mbedTLS returns.
pub conn_open-closings :
    (built insecure : Bool) (ca_file host : Bytes) (fd : ℕ) (wants_tls : Bool) (m : Mbed)
    → let (e, log) = conn_open built insecure ca_file host (done fd) wants_tls m in
      closings log ≡ expected e
unfolding conn_open
conn_open-closings built insecure ca_file host fd false m = refl
conn_open-closings false insecure ca_file host fd true m = refl
conn_open-closings true insecure ca_file host fd true m =
    let none_yet = tls_open-closings insecure ca_file host m in
    elim (Bool-cases (tls_open insecure ca_file host m).0) [
      | inl good ↦ rw good none_yet
      | inr bad ↦ rw bad (
          omega (
            arith,
            closings-append (tls_open insecure ca_file host m).1 (closed fd ∷ []),
            none_yet,
          ))
    ]
