-- ===== src/Boot/Emac/Address.antt =====
-- The station address of bootloader/p4/p4_emac.c: from the eFuse words to the MAC's registers.
use esp32_p4_linux.Common.{ℕ, ◌+◌, ◌*◌, ◌/◌, ◌%◌, ◌^◌, ◌≡◌, ◌<◌, refl, [], ◌∷◌, Bytes, arith}
use esp32_p4_linux.Boot.Emac.{mac_of, low_word, high_word}

-- The address as the MAC sends it: ADDRLOW[7:0] is the first byte.
abbrev pub wire : ℕ → ℕ → Bytes
wire low high =
    low % 256
    ∷ low / 2 ^ 8 % 256
    ∷ low / 2 ^ 16 % 256
    ∷ low / 2 ^ 24 % 256
    ∷ high % 256
    ∷ high / 2 ^ 8 % 256
    ∷ []

-- The number that a list of bytes spells, most significant first.
abbrev pub big_endian : Bytes → ℕ → ℕ
big_endian [] n = n
big_endian (b ∷ bs) n = big_endian bs (n * 256 + b)

-- Bytes packed into the two registers are sent in their order.
wire-words :
    (a b c d e f : ℕ)
    → a < 256
    → b < 256
    → c < 256
    → d < 256
    → e < 256
    → f < 256
    → let mac = a ∷ b ∷ c ∷ d ∷ e ∷ f ∷ [] in wire (low_word mac) (high_word mac) ≡ mac
unfolding low_word high_word
wire-words a b c d e f p q r s t u =
    let low : ℕ = d * 2 ^ 24 + c * 2 ^ 16 + b * 2 ^ 8 + a in
    let high : ℕ = f * 2 ^ 8 + e in
    let e0 : low % 256 ≡ a = omega arith in
    let e1 : low / 2 ^ 8 % 256 ≡ b = omega arith in
    let e2 : low / 2 ^ 16 % 256 ≡ c = omega arith in
    let e3 : low / 2 ^ 24 % 256 ≡ d = omega arith in
    let e4 : high % 256 ≡ e = omega arith in
    let e5 : high / 2 ^ 8 % 256 ≡ f = omega arith in rw (e0, e1, e2, e3, e4, e5) refl

-- The registers send the bytes of the eFuse's 48-bit number most significant first.
pub wire-mac_of :
    (w0 w1 : ℕ)
    → w0 < 2 ^ 32
    → w1 < 2 ^ 16
    → let mac = mac_of w0 w1 in
      (wire (low_word mac) (high_word mac) ≡ mac) × (big_endian mac 0 ≡ w1 * 2 ^ 32 + w0)
unfolding mac_of low_word high_word
wire-mac_of w0 w1 p q =
    let small : (n : ℕ) → n % 256 < 256 = λ n. omega arith in
    (
      wire-words (w1 / 2 ^ 8 % 256) (w1 % 256) (w0 / 2 ^ 24 % 256) (w0 / 2 ^ 16 % 256)
          (w0 / 2 ^ 8 % 256) (w0 % 256) (small _) (small _) (small _) (small _) (small _) (small _),
      omega arith,
    )
