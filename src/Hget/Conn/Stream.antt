-- ===== src/Hget/Conn/Stream.antt =====
-- A connection without errors as the stream of its bytes, however they are cut into segments.
use esp32_p4_linux.Common.{
  ℕ, ◌≤◌, ◌<◌, ◌≡◌, ◌≢◌, refl, sym, ap, ◌∙◌, ◌⊎◌, inl, inr, Bool, true, Option, some, List, [], ◌∷◌,
  ◌++◌, Bytes, length, take, drop, arith, append-nil, append_assoc, take-append-drop, length-take,
  length-append, ltb, Bool-cases,
}
use esp32_p4_linux.Hget.Conn.{
  ReadEvent, segment, close_notify, Net, push_back, conn_read, WriteEvent, takes, conn_write,
}

-- Segments and retries only: no error, and the end of the list for the end of the stream.
abbrev pub IsClean : Net → Type 0
IsClean [] = Unit
IsClean (segment bs ∷ net) = (bs ≢ []) × IsClean net
IsClean (ReadEvent.again ∷ net) = IsClean net
IsClean (close_notify ∷ net) = ⊥
IsClean (ReadEvent.failed ∷ net) = ⊥

-- The bytes still to come.
abbrev pub contents : Net → Bytes
contents [] = []
contents (segment bs ∷ net) = bs ++ contents net
contents (_ ∷ net) = contents net

-- A read takes a non-empty front of the stream, and meets its end only where it ends.
pub record Reads (len : ℕ) (net : Net) (out : Option Bytes × Net) : Type 0 where
  pub bytes : Bytes
  pub rest : Net
  pub got : out.0 ≡ some bytes
  pub next : out.1 ≡ rest
  pub split : contents net ≡ bytes ++ contents rest
  pub clean : IsClean rest
  pub at_most : length bytes ≤ len
  pub progress : (0 < length bytes) ⊎ (contents net ≡ [])

push_back-IsClean : (bs : Bytes) (net : Net) → IsClean net → IsClean (push_back bs net)
push_back-IsClean [] net h = h
push_back-IsClean (b ∷ bs) net h = (λ e. cc, h)

contents-push_back : (bs : Bytes) (net : Net) → contents (push_back bs net) ≡ bs ++ contents net
contents-push_back [] net = refl
contents-push_back (b ∷ bs) net = refl

pub pos_of_ne_nil : (bs : Bytes) → bs ≢ [] → 0 < length bs
pos_of_ne_nil [] h = absurd (h refl)
pos_of_ne_nil (b ∷ bs) h = omega arith

pub conn_read-Reads :
    (tls : Bool) (len : ℕ) (net : Net)
    → 0 < len
    → IsClean net
    → Reads len net (conn_read tls len net)
unfolding conn_read
conn_read-Reads tls len [] h c = record {
  bytes = [];
  rest = [];
  got = refl;
  next = refl;
  split = refl;
  clean = tt;
  at_most = omega arith;
  progress = inr refl;
}
conn_read-Reads tls len (segment bs ∷ net) h c = record {
  bytes = take len bs;
  rest = push_back (drop len bs) net;
  got = refl;
  next = refl;
  split = rw contents-push_back (
      ap (λ t. t ++ contents net) (sym (take-append-drop len bs))
      ∙ append_assoc (take len bs) (drop len bs) (contents net));
  clean = push_back-IsClean (drop len bs) net c.1;
  at_most = omega (arith, length-take {0} len bs);
  progress = inl (omega (arith, length-take {0} len bs, pos_of_ne_nil bs c.0));
}
conn_read-Reads tls len (ReadEvent.again ∷ net) h c =
    let r = conn_read-Reads tls len net h c in
    record {
      bytes = r.bytes;
      rest = r.rest;
      got = r.got;
      next = r.next;
      split = r.split;
      clean = r.clean;
      at_most = r.at_most;
      progress = r.progress;
    }
conn_read-Reads tls len (close_notify ∷ net) h c = absurd c
conn_read-Reads tls len (ReadEvent.failed ∷ net) h c = absurd c

-- What a writer has sent: a front of the buffer, and all of it if it reports success.
abbrev pub Sends : Bytes → Bool → Bytes → Type 0
Sends buf good sent = ((left : Bytes) × (sent ++ left ≡ buf)) × (good ≡ true → sent ≡ buf)

pub Sends-more :
    (k : ℕ) (buf : Bytes) (good : Bool) (sent : Bytes)
    → Sends (drop k buf) good sent
    → Sends buf good (take k buf ++ sent)
Sends-more k buf good sent ((left, e), all) = (
  (
    left,
    append_assoc (take k buf) sent left ∙ ap (λ t. take k buf ++ t) e ∙ take-append-drop k buf,
  ),
  λ g. ap (λ t. take k buf ++ t) (all g) ∙ take-append-drop k buf,
)

-- `conn_write` sends a front of the request, and the whole of it if it returns 0, however the
-- socket splits it.
pub conn_write-Sends :
    (es : List WriteEvent) (buf : Bytes) → Sends buf (conn_write es buf).0 (conn_write es buf).1
unfolding conn_write
conn_write-Sends es [] = (([], refl), λ _. refl)
conn_write-Sends [] (b ∷ bs) = (([], append-nil (b ∷ bs)), λ _. refl)
conn_write-Sends (takes k ∷ es) (b ∷ bs) = elim (Bool-cases (ltb 0 k)) [
  | inl some_sent ↦ rw some_sent (Sends-more k (b ∷ bs) _ _ (conn_write-Sends es (drop k (b ∷ bs))))
  | inr nothing ↦ rw nothing ((b ∷ bs, refl), λ g. cc)
]
conn_write-Sends (WriteEvent.again ∷ es) (b ∷ bs) = conn_write-Sends es (b ∷ bs)
conn_write-Sends (WriteEvent.failed ∷ es) (b ∷ bs) = ((b ∷ bs, refl), λ g. cc)

nil_of_length : (bs : Bytes) → length bs ≡ 0 → bs ≡ []
nil_of_length [] h = refl
nil_of_length (b ∷ bs) h = absurd (omega arith)

-- A read of no bytes is the end of the stream.
pub Reads-end :
    {len : ℕ} {net : Net} {out : Option Bytes × Net} (r : Reads len net out)
    → length r.bytes ≡ 0
    → (r.bytes ≡ []) × (contents r.rest ≡ [])
Reads-end {net} r h = elim r.progress [
  | inl some_bytes ↦ absurd (omega arith)
  | inr over ↦ (
    nil,
    nil_of_length (contents r.rest) (
        omega (arith, ap length (sym over ∙ r.split), length-append {0} r.bytes (contents r.rest))),
  )
]
  where
    nil : r.bytes ≡ []
    nil = nil_of_length r.bytes h
