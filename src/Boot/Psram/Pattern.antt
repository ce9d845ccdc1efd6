-- ===== src/Boot/Psram/Pattern.antt =====
-- The pattern that `p4_psram_test` of bootloader/p4/p4_psram.c writes: an address with the bits of
-- a constant flipped.
use Prim.Native.Nat.{bit_xor-bitwise, digits, differ}
use esp32_p4_linux.Common.{ℕ, zero, suc, ◌+◌, ◌*◌, ◌/◌, ◌%◌, ◌≤◌, ◌<◌, ◌≡◌, refl, sym, ◌∙◌, arith}
use esp32_p4_linux.Boot.Psram.{pattern, word_at}

-- The digits of an exclusive or, lowest first, with a count of digits to go.
abbrev flip : ℕ → ℕ → ℕ → ℕ
flip n a k = digits (λ b. b) differ n a k

flip-zero : (n k : ℕ) → flip n 0 k ≡ k
flip-zero zero k = refl
flip-zero (suc n) k = refl

-- Each digit is kept or flipped, so the digits of two results tell those of the numbers apart.
differ-digit : (x y d : ℕ) → x < 2 → y < 2 → d < 2 → differ x d ≡ differ y d → x ≡ y
differ-digit zero zero d _ _ _ h = refl
differ-digit (suc zero) (suc zero) d _ _ _ h = refl
differ-digit zero (suc zero) zero _ _ _ h = h
differ-digit zero (suc zero) (suc zero) _ _ _ h = sym h
differ-digit (suc zero) zero zero _ _ _ h = h
differ-digit (suc zero) zero (suc zero) _ _ _ h = sym h
differ-digit zero (suc zero) (suc (suc d)) _ _ lt h = absurd (omega arith)
differ-digit (suc zero) zero (suc (suc d)) _ _ lt h = absurd (omega arith)
differ-digit (suc (suc x)) y d lt _ _ h = absurd (omega arith)
differ-digit zero (suc (suc y)) d _ lt _ h = absurd (omega arith)
differ-digit (suc zero) (suc (suc y)) d _ lt _ h = absurd (omega arith)

differ-small : (x d : ℕ) → x < 2 → d < 2 → differ x d < 2
differ-small zero d p q = q
differ-small (suc zero) zero p q = p
differ-small (suc zero) (suc zero) p q = omega arith
differ-small (suc zero) (suc (suc d)) p q = absurd (omega arith)
differ-small (suc (suc x)) d p q = absurd (omega arith)

flip_step :
    (n a k : ℕ) → a ≤ suc n → flip (suc n) a k ≡ flip n (a / 2) (k / 2) * 2 + differ (a % 2) (k % 2)
flip_step n zero k le = omega (arith, flip-zero n (k / 2))
flip_step n (suc a) k le = refl

flip-injective : (n a b k : ℕ) → a ≤ n → b ≤ n → flip n a k ≡ flip n b k → a ≡ b
flip-injective zero a b k p q h = omega arith
flip-injective (suc n) a b k p q h =
    let da = differ-small (a % 2) (k % 2) (omega arith) (omega arith) in
    let db = differ-small (b % 2) (k % 2) (omega arith) (omega arith) in
    let sa = flip_step n a k p in
    let sb = flip_step n b k q in
    let halves : a / 2 ≡ b / 2 =
      flip-injective n (a / 2) (b / 2) (k / 2) (omega arith) (omega arith)
        (omega (arith, da, db, sa, sb)) in
    let low : a % 2 ≡ b % 2 =
      differ-digit (a % 2) (b % 2) (k % 2) (omega arith) (omega arith) (omega arith)
        (omega (arith, da, db, sa, sb)) in
    omega (arith, halves, low)

flip-fuel : (n m a k : ℕ) → a ≤ n → a ≤ m → flip n a k ≡ flip m a k
flip-fuel zero m zero k p q = sym (flip-zero m k)
flip-fuel zero m (suc a) k p q = absurd (omega arith)
flip-fuel (suc n) zero zero k p q = refl
flip-fuel (suc n) zero (suc a) k p q = absurd (omega arith)
flip-fuel (suc n) (suc m) a k p q = omega (
  arith,
  flip_step n a k p,
  flip_step m a k q,
  flip-fuel n m (a / 2) (k / 2) (omega arith) (omega arith),
)

-- Different addresses get different patterns.
pub pattern-injective : (a b : ℕ) → pattern a ≡ pattern b → a ≡ b
unfolding pattern
pattern-injective a b h = flip-injective (a + b) a b 0xA5A5A5A5 (omega arith) (omega arith) (
    flip-fuel (a + b) a a 0xA5A5A5A5 (omega arith) (omega arith)
    ∙ sym (bit_xor-bitwise a 0xA5A5A5A5)
    ∙ h
    ∙ bit_xor-bitwise b 0xA5A5A5A5
    ∙ flip-fuel b (a + b) b 0xA5A5A5A5 (omega arith) (omega arith))

pub word_at-injective : (i j : ℕ) → word_at i ≡ word_at j → i ≡ j
unfolding word_at
word_at-injective i j h = omega arith
