-- ===== src/Hget/Conn/Weight.antt =====
-- A measure of what is still to come on a connection.
use esp32_p4_linux.Common.{
  ℕ, suc, ◌+◌, ◌≤◌, ◌≡◌, Bool, some, [], ◌∷◌, Bytes, length, drop, arith, length-take, length-drop,
}
use esp32_p4_linux.Hget.Conn.{ReadEvent, segment, close_notify, Net, push_back, conn_read}

-- The events and the bytes still to come.
abbrev pub weight : Net → ℕ
weight [] = 0
weight (segment bs ∷ net) = suc (length bs + weight net)
weight (_ ∷ net) = suc (weight net)

weight-push_back :
    (bs : Bytes) (net : Net) → weight (push_back bs net) ≤ suc (length bs + weight net)
weight-push_back [] net = omega arith
weight-push_back (b ∷ bs) net = omega arith

-- A read takes what it returns off the weight.
pub conn_read-weight :
    (tls : Bool) (len : ℕ) (net : Net)
    → (weight (conn_read tls len net).1 ≤ weight net)
      × ((bytes : Bytes)
          → (conn_read tls len net).0 ≡ some bytes
          → length bytes + weight (conn_read tls len net).1 ≤ weight net)
unfolding conn_read
conn_read-weight tls len [] = (omega arith, λ bytes e. ground arith)
conn_read-weight tls len (segment bs ∷ net) =
    let p = weight-push_back (drop len bs) net in
    let a = length-take {0} len bs in
    let b = length-drop {0} len bs in (omega arith, λ bytes e. ground arith)
conn_read-weight tls len (ReadEvent.again ∷ net) =
    let (p, q) = conn_read-weight tls len net in (omega arith, λ bytes e. omega (arith, q bytes e))
conn_read-weight tls len (close_notify ∷ net) = (omega arith, λ bytes e. ground arith)
conn_read-weight tls len (ReadEvent.failed ∷ net) = (omega arith, λ bytes e. ground arith)
