-- ===== src/Hget/Output.antt =====
-- `write_all` of board/hget/hget.c, and the state of a transfer.
use esp32_p4_linux.Common.{
  ℕ, ◌+◌, ◌≡◌, refl, ap, Bool, true, false, List, [], ◌∷◌, ◌++◌, if◌then◌else◌, Bytes, length, take,
  drop, append-nil, arith,
}
use esp32_p4_linux.Hget.Conn.{Net}
use esp32_p4_linux.Hget.Conn.Stream.{Sends, Sends-more}

-- What `write` meets next: it takes at most so many bytes, is interrupted, or fails.
pub data FileEvent : Type 0 where
  takes : ℕ → FileEvent
  interrupted : FileEvent
  failed : FileEvent

-- The result (false is -1), the bytes that were written, and the events left. Unlike `conn_write`
-- this goes on after a call that takes nothing.
pub write_all : List FileEvent → Bytes → Bool × Bytes × List FileEvent
write_all es [] = (true, [], es)
write_all [] (b ∷ bs) = (true, b ∷ bs, [])
write_all (takes k ∷ es) (b ∷ bs) =
    let (good, written, es') = write_all es (drop k (b ∷ bs)) in
    (good, take k (b ∷ bs) ++ written, es')
write_all (interrupted ∷ es) (b ∷ bs) = write_all es (b ∷ bs)
write_all (failed ∷ es) (b ∷ bs) = (false, [], es)

-- `write_all` writes a front of its buffer, and the whole of it if it returns 0.
pub write_all-Sends :
    (es : List FileEvent) (buf : Bytes) → Sends buf (write_all es buf).0 (write_all es buf).1
unfolding write_all
write_all-Sends es [] = (([], refl), λ _. refl)
write_all-Sends [] (b ∷ bs) = (([], append-nil (b ∷ bs)), λ _. refl)
write_all-Sends (takes k ∷ es) (b ∷ bs) =
    Sends-more k (b ∷ bs) _ _ (write_all-Sends es (drop k (b ∷ bs)))
write_all-Sends (interrupted ∷ es) (b ∷ bs) = write_all-Sends es (b ∷ bs)
write_all-Sends (failed ∷ es) (b ∷ bs) = ((b ∷ bs, refl), λ g. cc)

-- A file that takes what it is given, in pieces.
abbrev pub IsWritable : List FileEvent → Type 0
IsWritable [] = Unit
IsWritable (takes k ∷ es) = IsWritable es
IsWritable (interrupted ∷ es) = IsWritable es
IsWritable (failed ∷ es) = ⊥

pub write_all-IsWritable :
    (es : List FileEvent) (buf : Bytes)
    → IsWritable es
    → ((write_all es buf).0 ≡ true) × IsWritable (write_all es buf).2
unfolding write_all
write_all-IsWritable es [] h = (refl, h)
write_all-IsWritable [] (b ∷ bs) h = (refl, tt)
write_all-IsWritable (takes k ∷ es) (b ∷ bs) h = write_all-IsWritable es (drop k (b ∷ bs)) h
write_all-IsWritable (interrupted ∷ es) (b ∷ bs) h = write_all-IsWritable es (b ∷ bs) h
write_all-IsWritable (failed ∷ es) (b ∷ bs) h = absurd h

-- The connection, the file's events and contents, and the count of the bytes transferred.
pub record Transfer : Type 0 where
  pub net : Net
  pub file : List FileEvent
  pub out : Bytes
  pub written : ℕ

-- `write_all`, and the count on success.
pub put : Transfer → Bytes → Bool × Transfer
put t buf =
    let (good, bytes, file) = write_all t.file buf in
    let t' : Transfer = record t { file = file; out = t.out ++ bytes } in
    (good, if good then record t' { written = t.written + length buf } else t')

-- What is appended to a writable file.
pub record Puts (t : Transfer) (buf : Bytes) (r : Bool × Transfer) : Type 0 where
  pub good : r.0 ≡ true
  pub net_kept : r.1.net ≡ t.net
  pub out_is : r.1.out ≡ t.out ++ buf
  pub written_is : r.1.written ≡ t.written + length buf
  pub writable : IsWritable r.1.file

pub put-Puts : (t : Transfer) (buf : Bytes) → IsWritable t.file → Puts t buf (put t buf)
unfolding put
put-Puts t buf h =
    let (good, file) = write_all-IsWritable t.file buf h in
    let all = (write_all-Sends t.file buf).1 good in
    rw good (record {
      good = refl;
      net_kept = refl;
      out_is = ap (λ bs. t.out ++ bs) all;
      written_is = refl;
      writable = file;
    })

-- A write leaves the connection alone, whatever becomes of it.
pub put-net : (t : Transfer) (buf : Bytes) → (put t buf).1.net ≡ t.net
unfolding put
put-net t buf = ground arith
