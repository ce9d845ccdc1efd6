-- ===== src/Hget/Body/Plain.antt =====
-- What `body_plain` writes on a connection and a file without errors.
use esp32_p4_linux.Common.{
  ℕ, zero, suc, ◌+◌, ◌-◌, ◌≤◌, ◌<◌, ◌≡◌, refl, sym, ap, ◌∙◌, inl, inr, Bool, true, false, some, [],
  ◌∷◌, ◌++◌, leb, ◌==◌, if◌then◌else◌, Bytes, ℤ, pos, negsuc, length, take, drop, arith, append-nil,
  append_assoc, take-append_ge, drop-append_ge, length-append, take-nil, drop-nil, Bool-cases,
  ==_iff,
}
use esp32_p4_linux.Hget.Exit.{ok}
use esp32_p4_linux.Hget.Conn.Stream.{IsClean, contents, conn_read-Reads, Reads-end}
use esp32_p4_linux.Hget.Output.{Transfer, put, IsWritable, put-Puts}
use esp32_p4_linux.Hget.Body.{
  Outcome, want_of, after, is_zero, plain_loop, remain_after, body_plain,
}

-- The transfer ends with EX_OK, with `body` appended to the output and counted, and `left` still
-- to come from the connection.
pub record Completes (t : Transfer) (body left : Bytes) (r : Outcome) : Type 0 where
  pub end : Transfer
  pub result : r ≡ some (ok, end)
  pub out_is : end.out ≡ t.out ++ body
  pub written_is : end.written ≡ t.written + length body
  pub left_is : contents end.net ≡ left
  pub clean : IsClean end.net
  pub writable : IsWritable end.file

-- What a body of the given length is, of the bytes that come, and what follows it.
abbrev pub body_of : ℤ → Bytes → Bytes
body_of (pos n) bs = take n bs
body_of (negsuc n) bs = bs

abbrev pub left_of : ℤ → Bytes → Bytes
left_of (pos n) bs = drop n bs
left_of (negsuc n) bs = []

-- After a read, the rest of the body is the body of the rest.
body_of-read :
    (remain : ℤ) (bytes rest : Bytes)
    → is_zero remain ≡ false
    → length bytes ≤ want_of remain
    → (body_of remain (bytes ++ rest) ≡ bytes ++ body_of (after remain (length bytes)) rest)
      × (left_of remain (bytes ++ rest) ≡ left_of (after remain (length bytes)) rest)
unfolding is_zero want_of after
body_of-read (negsuc n) bytes rest h fits = (refl, refl)
body_of-read (pos n) bytes rest h fits =
    let le : length bytes ≤ n = ground arith in
    let e : after (pos n) (length bytes) ≡ pos (n - length bytes) = ground arith in
    rw e (take-append_ge n bytes rest le, drop-append_ge n bytes rest le)

body_of-nil : (remain : ℤ) → (body_of remain [] ≡ []) × (left_of remain [] ≡ [])
body_of-nil (pos n) = (take-nil n, drop-nil n)
body_of-nil (negsuc n) = (refl, refl)

body_of-zero :
    (remain : ℤ) (bs : Bytes)
    → is_zero remain ≡ true
    → (body_of remain bs ≡ []) × (left_of remain bs ≡ bs)
unfolding is_zero
body_of-zero (pos zero) bs h = (refl, refl)
body_of-zero (pos (suc n)) bs h = absurd (ground arith)
body_of-zero (negsuc n) bs h = cc

want_of-pos : (remain : ℤ) → is_zero remain ≡ false → 0 < want_of remain
unfolding is_zero want_of
want_of-pos (pos n) h = ground arith
want_of-pos (negsuc n) h = omega arith

-- One more piece in front.
Completes-cons :
    (t t' : Transfer) (bytes body left : Bytes) (r : Outcome)
    → t'.out ≡ t.out ++ bytes
    → t'.written ≡ t.written + length bytes
    → Completes t' body left r
    → Completes t (bytes ++ body) left r
Completes-cons t t' bytes body left r eo ew c = record {
  end = c.end;
  result = c.result;
  out_is = c.out_is ∙ ap (λ o. o ++ body) eo ∙ append_assoc t.out bytes body;
  written_is = omega (arith, c.written_is, ew, length-append {0} bytes body);
  left_is = c.left_is;
  clean = c.clean;
  writable = c.writable;
}

-- The stream ends before the body does.
ended :
    (t t' : Transfer) (remain : ℤ) (bytes rest : Bytes) (body left : Bytes)
    → bytes ≡ []
    → rest ≡ []
    → body ≡ body_of remain (bytes ++ rest)
    → left ≡ left_of remain (bytes ++ rest)
    → (t'.out ≡ t.out) × (t'.written ≡ t.written)
    → contents t'.net ≡ []
    → IsClean t'.net
    → IsWritable t'.file
    → Completes t body left (some (ok, t'))
ended t t' remain bytes rest body left nil over eb el (eo, ew) ec c w =
    let body_nil : body ≡ [] = eb ∙ rw (nil, over) (body_of-nil remain).0 in
    let left_nil : left ≡ [] = el ∙ rw (nil, over) (body_of-nil remain).1 in
    rw (body_nil, left_nil)
      (record {
        end = t';
        result = refl;
        out_is = eo ∙ sym (append-nil t.out);
        written_is = omega arith;
        left_is = ec;
        clean = c;
        writable = w;
      })

plain_loop-Completes :
    (fuel : ℕ) (tls : Bool) (t : Transfer) (remain : ℤ)
    → IsClean t.net
    → IsWritable t.file
    → length (contents t.net) < fuel
    → Completes t
        (body_of remain (contents t.net))
        (left_of remain (contents t.net))
        (plain_loop fuel tls t remain)
unfolding plain_loop
plain_loop-Completes zero tls t remain c w h = absurd (omega arith)
plain_loop-Completes (suc fuel) tls t remain c w h = elim (Bool-cases (is_zero remain)) [
  | inl end ↦
      let (e, f) = body_of-zero remain (contents t.net) end in
      rw (end, plain_loop, e, f)
        (record {
          end = t;
          result = refl;
          out_is = sym (append-nil t.out);
          written_is = omega arith;
          left_is = refl;
          clean = c;
          writable = w;
        })
  | inr more ↦
      let r = conn_read-Reads tls (want_of remain) t.net (want_of-pos remain more) c in
      let t' : Transfer = record t { net = r.rest } in
      let p = put-Puts t' r.bytes w in
      let (e, f) = body_of-read remain r.bytes (contents r.rest) more r.at_most in
      rw (more, plain_loop, r.got, plain_loop, r.next, r.split, e, f)
        (elim (Bool-cases (length r.bytes == 0)) [
          | inl nothing ↦ rw nothing (
              let (nil, over) = Reads-end r ((==_iff _ _).0 nothing) in
              ended t t' remain r.bytes (contents r.rest) _ _ nil over (sym e) (sym f) (refl, refl)
                over r.clean w)
          | inr got ↦
              rw (got, p.good)
                (let t'' : Transfer = (put t' r.bytes).1 in
                  let ih =
                    plain_loop-Completes fuel tls t'' (after remain (length r.bytes))
                      (rw p.net_kept r.clean) p.writable
                      (rw p.net_kept (
                        ground (
                          arith,
                          ap length r.split,
                          length-append {0} r.bytes (contents r.rest),
                        ))) in
                  Completes-cons t t'' r.bytes _ _ _ p.out_is p.written_is (rw p.net_kept at ih))
        ])
]

-- The length that the loop obeys, which is none if more bytes came with the headers than the
-- given length.
abbrev pub obeyed : ℤ → Bytes → ℤ
obeyed (pos n) pending = if leb (length pending) n then pos n else negsuc 0
obeyed (negsuc n) pending = negsuc n

body_of-pending :
    (len : ℤ) (pending rest : Bytes)
    → (body_of (obeyed len pending) (pending ++ rest)
        ≡ pending ++ body_of (remain_after len pending) rest)
      × (left_of (obeyed len pending) (pending ++ rest) ≡ left_of (remain_after len pending) rest)
unfolding remain_after
body_of-pending (negsuc n) pending rest = (refl, refl)
body_of-pending (pos n) pending rest = elim (Bool-cases (leb (length pending) n)) [
  | inl le ↦
      rw le
        (take-append_ge n pending rest (ground arith), drop-append_ge n pending rest (ground arith))
  | inr more ↦ rw more (refl, refl)
]

obeyed-nil : (len : ℤ) → obeyed len [] ≡ len
obeyed-nil (pos n) = ground arith
obeyed-nil (negsuc n) = refl

-- With no error of the connection or the file, `body_plain` ends with EX_OK. The bytes that came
-- with the headers and those still to come are one stream: it writes the first `len` of them, or
-- all that there are if the stream is shorter or no length is known, and reads no further. Where
-- more than `len` bytes came with the headers it writes the whole stream.
pub body_plain-Completes :
    (fuel : ℕ) (tls : Bool) (pending : Bytes) (len : ℤ) (t : Transfer)
    → IsClean t.net
    → IsWritable t.file
    → length (contents t.net) < fuel
    → Completes t
        (body_of (obeyed len pending) (pending ++ contents t.net))
        (left_of (obeyed len pending) (pending ++ contents t.net))
        (body_plain fuel tls pending len t)
unfolding body_plain
body_plain-Completes fuel tls [] len t c w h =
    rw obeyed-nil (plain_loop-Completes fuel tls t len c w h)
body_plain-Completes fuel tls (b ∷ bs) len t c w h =
    let p = put-Puts t (b ∷ bs) w in
    let t' : Transfer = (put t (b ∷ bs)).1 in
    let (e, f) = body_of-pending len (b ∷ bs) (contents t.net) in
    let ih =
      plain_loop-Completes fuel tls t' (remain_after len (b ∷ bs)) (rw p.net_kept c) p.writable
        (rw p.net_kept h) in
    let more : (length (b ∷ bs) == 0) ≡ false = ground arith in
    rw (more, p.good, e, f)
      (Completes-cons t t' (b ∷ bs) _ _ _ p.out_is p.written_is (rw p.net_kept at ih))
