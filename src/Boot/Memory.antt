-- ===== src/Boot/Memory.antt =====
-- Byte-addressed memory, and the string functions of bootloader/p4/p4_string.c over it.
-- An address range of a C object does not wrap, so addresses are plain numbers.
pub mod Moves
use esp32_p4_linux.Common.{
  ℕ, zero, suc, ◌+◌, ◌%◌, Bool, ◌||◌, ltb, ◌==◌, if◌then◌else◌, Bytes, [], ◌∷◌, ℤ, pos, sub_ℕ,
}

-- The value at each address.
abbrev pub Mem : Type 0
Mem = ℕ → ℕ

abbrev pub store : Mem → ℕ → ℕ → Mem
store m a v = λ x. if x == a then v else m x

-- The `n` bytes from address `a` on.
abbrev pub read_bytes : Mem → ℕ → ℕ → Bytes
read_bytes m a zero = []
read_bytes m a (suc n) = m a ∷ read_bytes m (a + 1) n

abbrev pub write_bytes : Mem → ℕ → Bytes → Mem
write_bytes m a [] = m
write_bytes m a (b ∷ bs) = write_bytes (store m a b) (a + 1) bs

pub memset : Mem → ℕ → ℕ → ℕ → Mem
memset m d c zero = m
memset m d c (suc n) = memset (store m d (c % 256)) (d + 1) c n

pub memcpy : Mem → ℕ → ℕ → ℕ → Mem
memcpy m d s zero = m
memcpy m d s (suc n) = memcpy (store m d (m s)) (d + 1) (s + 1) n

-- The result is the difference of the first two bytes that differ, as an `int`.
pub memcmp : Mem → ℕ → ℕ → ℕ → ℤ
memcmp m x y zero = pos 0
memcmp m x y (suc n) = if m x == m y then memcmp m (x + 1) (y + 1) n else sub_ℕ (m x) (m y)

-- The loop of `memmove` at `d < s`.
move_up : Mem → ℕ → ℕ → ℕ → Mem
move_up m d s zero = m
move_up m d s (suc n) = move_up (store m d (m s)) (d + 1) (s + 1) n

-- The loop of `memmove` that starts behind the ranges and steps down.
move_down : Mem → ℕ → ℕ → ℕ → Mem
move_down m d s zero = m
move_down m d s (suc n) = move_down (store m (d + n) (m (s + n))) d s n

pub memmove : Mem → ℕ → ℕ → ℕ → Mem
memmove m d s n =
    if d == s || n == 0 then m else if ltb d s then move_up m d s n else move_down m d s n
