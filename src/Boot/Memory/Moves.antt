-- ===== src/Boot/Memory/Moves.antt =====
-- What the functions of bootloader/p4/p4_string.c leave at every address.
use esp32_p4_linux.Common.{
  ℕ, zero, suc, ◌+◌, ◌-◌, ◌%◌, ◌≤◌, ◌<◌, ◌≡◌, refl, sym, ◌∙◌, ◌≢◌, ◌⊎◌, inl, inr, Bool, ◌&&◌, arith,
  ltb, leb, ◌==◌, if◌then◌else◌, ℤ, pos, sub_ℕ, Bool-cases, ==_iff,
}
use esp32_p4_linux.Boot.Memory.{Mem, store, memset, memcpy, memcmp, move_up, move_down, memmove}

-- Whether `x` is one of the `n` addresses from `d` on.
abbrev pub in_range : ℕ → ℕ → ℕ → Bool
in_range d n x = leb d x && ltb x (d + n)

-- What a correct move of `n` bytes from `s` to `d` leaves at address `x`.
abbrev pub moved : Mem → ℕ → ℕ → ℕ → ℕ → ℕ
moved m d s n x = if in_range d n x then m (s + (x - d)) else m x

-- `memset` writes the low byte of `c` over the range, and nothing else.
pub memset_lem :
    (m : Mem) (d c n x : ℕ) → memset m d c n x ≡ (if in_range d n x then c % 256 else m x)
unfolding memset
memset_lem m d c zero x = ground arith
memset_lem m d c (suc n) x = ground (arith, memset_lem (store m d (c % 256)) (d + 1) c n x)

addr : (m : Mem) (a b : ℕ) → a ≡ b → m a ≡ m b
addr m a b e = rw e

move_up_lem : (m : Mem) (d s n x : ℕ) → (d ≤ s) ⊎ (s + n ≤ d) → move_up m d s n x ≡ moved m d s n x
unfolding move_up
move_up_lem m d s zero x h = ground arith
move_up_lem m d s (suc n) x h = ground (
  arith,
  move_up_lem (store m d (m s)) (d + 1) (s + 1) n x (ground arith),
  addr m (s + 1 + (x - (d + 1))) (s + (x - d)),
  addr m s (s + (x - d)),
)

move_down_lem : (m : Mem) (d s n x : ℕ) → s ≤ d → move_down m d s n x ≡ moved m d s n x
unfolding move_down
move_down_lem m d s zero x h = ground arith
move_down_lem m d s (suc n) x h =
    ground
      (arith, move_down_lem (store m (d + n) (m (s + n))) d s n x h, addr m (s + n) (s + (x - d)))

-- `memmove` leaves in the target range what the source range held before, however the two
-- ranges overlap, and changes no other address.
pub memmove_lem : (m : Mem) (d s n x : ℕ) → memmove m d s n x ≡ moved m d s n x
unfolding memmove
memmove_lem m d s n x =
    ground (arith, move_up_lem m d s n x, move_down_lem m d s n x, addr m x (s + (x - d)))

memcpy-eq-move_up : (m : Mem) (d s n : ℕ) → memcpy m d s n ≡ move_up m d s n
unfolding memcpy move_up
memcpy-eq-move_up m d s zero = refl
memcpy-eq-move_up m d s (suc n) = memcpy-eq-move_up (store m d (m s)) (d + 1) (s + 1) n

-- Where the ranges do not overlap, or the target starts below the source, `memcpy` does the same
-- as `memmove`.
pub memcpy-eq-memmove :
    (m : Mem) (d s n x : ℕ) → (d ≤ s) ⊎ (s + n ≤ d) → memcpy m d s n x ≡ memmove m d s n x
memcpy-eq-memmove m d s n x h =
    rw (memcpy-eq-move_up m d s n, memmove_lem m d s n x, move_up_lem m d s n x h)

-- The first difference of two ranges, `k` bytes in.
pub record Differs (m : Mem) (x y n k : ℕ) : Type 0 where
  pub inside : k < n
  pub before : (i : ℕ) → i < k → m (x + i) ≡ m (y + i)
  pub here : m (x + k) ≢ m (y + k)

-- What `memcmp` returns: 0 for equal ranges, and else the difference of the first bytes that
-- differ.
abbrev pub Compares : Mem → ℕ → ℕ → ℕ → ℤ → Type 0
Compares m x y n r =
    (((i : ℕ) → i < n → m (x + i) ≡ m (y + i)) × (r ≡ pos 0))
    ⊎ ((k : ℕ) × Differs m x y n k × (r ≡ sub_ℕ (m (x + k)) (m (y + k))))

shift : (m : Mem) (x i : ℕ) → m (x + 1 + i) ≡ m (x + suc i)
shift m x i = addr m (x + 1 + i) (x + suc i) (omega arith)

extend :
    (m : Mem) (x y n : ℕ)
    → m x ≡ m y
    → ((i : ℕ) → i < n → m (x + 1 + i) ≡ m (y + 1 + i))
    → (i : ℕ) → i < suc n
    → m (x + i) ≡ m (y + i)
extend m x y n e h zero lt = ground (arith, addr m (x + 0) x, addr m (y + 0) y)
extend m x y n e h (suc i) lt = ground (arith, h i, shift m x i, shift m y i)

memcmp_cons :
    (m : Mem) (x y n : ℕ) (r : ℤ)
    → m x ≡ m y
    → Compares m (x + 1) (y + 1) n r
    → Compares m x y (suc n) r
memcmp_cons m x y n r e (inl (same, z)) = inl (extend m x y n e same, z)
memcmp_cons m x y n r e (inr (k, d, v)) = inr (
  suc k,
  record {
    inside = omega (arith, d.inside);
    before = extend m x y k e d.before;
    here = λ q. d.here (shift m x k ∙ q ∙ sym (shift m y k));
  },
  rw (← shift m x k, ← shift m y k) v,
)

-- `memcmp` finds the first difference of the two ranges, or that there is none.
pub memcmp-Compares : (m : Mem) (x y n : ℕ) → Compares m x y n (memcmp m x y n)
unfolding memcmp
memcmp-Compares m x y zero = inl (λ i lt. absurd (omega arith), refl)
memcmp-Compares m x y (suc n) = elim (Bool-cases (m x == m y)) [
  | inl e ↦
      rw e (memcmp_cons m x y n _ ((==_iff (m x) (m y)).0 e) (memcmp-Compares m (x + 1) (y + 1) n))
  | inr ne ↦ rw ne (
      inr (
        0,
        record {
          inside = omega arith;
          before = λ i lt. absurd (omega arith);
          here = λ q. ground (arith, addr m (x + 0) x, addr m (y + 0) y);
        },
        ground (arith, addr m (x + 0) x, addr m (y + 0) y),
      ))
]
