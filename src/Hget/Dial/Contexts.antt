-- ===== src/Hget/Dial/Contexts.antt =====
-- The mbedTLS contexts of a connection of board/hget/hget.c, from `conn_open` to `conn_close`.
use esp32_p4_linux.Common.{
  ℕ, ◌+◌, ◌≡◌, refl, ◌∙◌, Bool, true, false, ◌||◌, ◌&&◌, ◌==◌, List, [], ◌∷◌, ◌++◌, append-nil,
  append_assoc, if◌then◌else◌, Bool-cases, inl, inr, Bytes, arith,
}
use esp32_p4_linux.Hget.Exit.{Exit, tls, Result, done, fail}
use esp32_p4_linux.Hget.Url.{Url}
use esp32_p4_linux.Hget.Tls.{
  Mbed, Context, ssl, conf, entropy, drbg, ca, TlsStep, seeded, configured, no_verify, must_verify,
  set_up, shaken, inited, freed, trusts, names, closed, handshake, attempt, contexts_init,
  contexts_free, tls_open, conn_open, conn_close,
}
use esp32_p4_linux.Hget.Fetch.{is_ok}
use esp32_p4_linux.Hget.Main.{Settings}
use esp32_p4_linux.Hget.Dial.{Host, connection}

abbrev same_context : Context → Context → Bool
same_context ssl ssl = true
same_context conf conf = true
same_context entropy entropy = true
same_context drbg drbg = true
same_context ca ca = true
same_context _ _ = false

-- How often a log sets a context up, and how often it frees it.
abbrev pub inits : Context → List TlsStep → ℕ
inits x [] = 0
inits x (inited y ∷ log) = (if same_context x y then 1 else 0) + inits x log
inits x (_ ∷ log) = inits x log

abbrev pub frees : Context → List TlsStep → ℕ
frees x [] = 0
frees x (freed y ∷ log) = (if same_context x y then 1 else 0) + frees x log
frees x (_ ∷ log) = frees x log

-- A log that neither sets up nor frees any context.
record Apart (log : List TlsStep) : Type 0 where
  same_inits : (x : Context) (rest : List TlsStep) → inits x (log ++ rest) ≡ inits x rest
  same_frees : (x : Context) (rest : List TlsStep) → frees x (log ++ rest) ≡ frees x rest

apart :
    {log : List TlsStep}
    → ((x : Context) (rest : List TlsStep)
        → (inits x (log ++ rest) ≡ inits x rest) × (frees x (log ++ rest) ≡ frees x rest))
    → Apart log
apart h = record { same_inits = λ x rest. (h x rest).0; same_frees = λ x rest. (h x rest).1 }

no_verify-Apart : {log : List TlsStep} → Apart log → Apart (no_verify ∷ log)
no_verify-Apart h = record { same_inits = h.same_inits; same_frees = h.same_frees }

attempt-Apart :
    (good : Bool) (steps : List TlsStep) (next : Bool × List TlsStep)
    → Apart steps
    → Apart next.1
    → Apart (attempt good steps next).1
attempt-Apart true steps next h k = record {
  same_inits = λ x rest.
      rw (append_assoc steps next.1 rest) (h.same_inits x (next.1 ++ rest) ∙ k.same_inits x rest);
  same_frees = λ x rest.
      rw (append_assoc steps next.1 rest) (h.same_frees x (next.1 ++ rest) ∙ k.same_frees x rest);
}
attempt-Apart false steps next h k = apart (λ x rest. (refl, refl))

tls_open-Apart :
    (insecure : Bool) (ca_file host : Bytes) (m : Mbed) → Apart (tls_open insecure ca_file host m).1
unfolding tls_open
tls_open-Apart insecure ca_file host m =
    attempt-Apart m.seeds (seeded ∷ []) _ (apart (λ x rest. (refl, refl))) (
      attempt-Apart m.configures (configured ∷ []) _ (apart (λ x rest. (refl, refl)))
        (elim (Bool-cases insecure) [
          | inl off ↦ rw off (no_verify-Apart (named true))
          | inr on ↦ rw on (
              attempt-Apart m.reads_ca (trusts ca_file ∷ must_verify ∷ []) _
                (apart (λ x rest. (refl, refl))) (named false))
        ]))
  where
    named :
        (skip : Bool)
        → Apart
            (attempt m.sets_up (set_up ∷ []) (
              attempt m.takes_name (names host ∷ []) (
                attempt
                  (handshake m.shakes)
                  []
                  (attempt (m.flags == 0 || skip) (shaken ∷ []) (true, []))))).1
    named skip = attempt-Apart m.sets_up (set_up ∷ []) _ (apart (λ x rest. (refl, refl))) (
        attempt-Apart m.takes_name (names host ∷ []) _ (apart (λ x rest. (refl, refl))) (
          attempt-Apart (handshake m.shakes) [] _ (apart (λ x rest. (refl, refl))) (
            attempt-Apart (m.flags == 0 || skip) (shaken ∷ []) (true, [])
              (apart (λ x rest. (refl, refl))) (apart (λ x rest. (refl, refl))))))

inits-contexts_init :
    (x : Context) (log : List TlsStep) → inits x (contexts_init ++ log) ≡ 1 + inits x log
inits-contexts_init ssl log = omega arith
inits-contexts_init conf log = omega arith
inits-contexts_init entropy log = omega arith
inits-contexts_init drbg log = omega arith
inits-contexts_init ca log = omega arith

frees-contexts_free :
    (x : Context) (log : List TlsStep) → frees x (contexts_free ++ log) ≡ 1 + frees x log
frees-contexts_free ssl log = omega arith
frees-contexts_free conf log = omega arith
frees-contexts_free entropy log = omega arith
frees-contexts_free drbg log = omega arith
frees-contexts_free ca log = omega arith

-- A connection that is closed has freed what it has set up, one that has failed nothing of it.
frees_all :
    (log : List TlsStep) (fd : ℕ) (x : Context)
    → Apart log
    → let whole = (contexts_init ++ log) ++ (contexts_free ++ (closed fd ∷ [])) in
      inits x whole ≡ frees x whole + 0
frees_all log fd x h =
    let rest = contexts_free ++ (closed fd ∷ []) in
    omega (
      arith,
      inits-contexts_init x (log ++ rest),
      h.same_inits x rest,
      h.same_frees x rest,
      frees-contexts_free x (closed fd ∷ []),
    )

frees_none :
    (log : List TlsStep) (fd : ℕ) (x : Context)
    → Apart log
    → let whole = contexts_init ++ (log ++ (closed fd ∷ [])) in inits x whole ≡ frees x whole + 1
frees_none log fd x h =
    let rest = closed fd ∷ [] in
    omega (arith, inits-contexts_init x (log ++ rest), h.same_inits x rest, h.same_frees x rest)

-- What is left set up: each context of a TLS connection that has failed on a connected socket.
abbrev pub left : Bool → Bool → Result ℕ → Exit → ℕ
left built wants_tls (done fd) tls = if wants_tls && built then 1 else 0
left built wants_tls _ _ = 0

-- From what tcp_connect returns to conn_close, each of the five mbedTLS contexts is freed as often as it is set
-- up, except where the program has TLS, the socket is connected and conn_open still fails: then each
-- has been set up once more than freed.
pub connection-frees :
    (built : Bool) (s : Settings) (u : Url) (h : Host) (r : Result ℕ) (x : Context)
    → let (e, log) = connection built s u h r in inits x log ≡ frees x log + left built u.tls r e
unfolding connection conn_open conn_close is_ok
connection-frees built s u h (fail e) x = elim (Bool-cases (is_ok e)) [
  | inl good ↦ rw good refl
  | inr bad ↦ rw bad refl
]
connection-frees built s u h (done fd) x = elim (Bool-cases u.tls) [
  | inr plain ↦ rw plain refl
  | inl wanted ↦ elim (Bool-cases built) [
    | inr lacks ↦ rw (wanted, lacks) refl
    | inl has ↦
        let unset = tls_open-Apart s.insecure s.ca_file u.host h.mbed in
        let steps = (tls_open s.insecure s.ca_file u.host h.mbed).1 in
        elim (Bool-cases (tls_open s.insecure s.ca_file u.host h.mbed).0) [
          | inl good ↦ rw (wanted, has, good) (frees_all steps fd x unset)
          | inr bad ↦
              rw (wanted, has, bad, append-nil (steps ++ (closed fd ∷ [])))
                (frees_none steps fd x unset)
        ]
  ]
]
