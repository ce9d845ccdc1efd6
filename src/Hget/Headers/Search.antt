-- ===== src/Hget/Headers/Search.antt =====
-- The searches of `read_headers` of board/hget/hget.c: `memmem` for the blank line, and `strstr`
-- from line to line.
use esp32_p4_linux.Common.{
  ℕ, ◌+◌, ◌≤◌, ◌<◌, ◌≡◌, refl, ap, inl, inr, true, Option, none, some, [], ◌∷◌, ◌++◌, leb, Bytes,
  length, drop, arith, length-append, Bool-cases, Option-cases, drop-append_le,
}
use esp32_p4_linux.Hget.CString.{starts_with, starts_with-eq}
use esp32_p4_linux.Hget.Headers.{split_at}

starts_with-more : (p s t : Bytes) → starts_with p s ≡ true → starts_with p (s ++ t) ≡ true
unfolding starts_with
starts_with-more [] s t h = refl
starts_with-more (c ∷ p) [] t h = cc
starts_with-more (c ∷ p) (x ∷ s) t h = ground (arith, starts_with-more p s t)

starts_with-less :
    (p s t : Bytes) → length p ≤ length s → starts_with p (s ++ t) ≡ true → starts_with p s ≡ true
unfolding starts_with
starts_with-less [] s t le h = refl
starts_with-less (c ∷ p) [] t le h = absurd (omega arith)
starts_with-less (c ∷ p) (x ∷ s) t le h = ground (arith, starts_with-less p s t)

length-starts_with : (p s : Bytes) → starts_with p s ≡ true → length p ≤ length s
unfolding starts_with
length-starts_with [] s h = omega arith
length-starts_with (c ∷ p) [] h = cc
length-starts_with (c ∷ p) (x ∷ s) h = ground (arith, length-starts_with p s)

-- What a search finds is there.
pub split_at-eq : (p s : Bytes) {a b : Bytes} → split_at p s ≡ some (a, b) → s ≡ a ++ (p ++ b)
unfolding split_at
split_at-eq p [] h = cc
split_at-eq p (x ∷ s) {a} {b} h = elim (Bool-cases (starts_with p (x ∷ s))) [
  | inl here ↦ ground (arith, starts_with-eq p (x ∷ s))
  | inr later ↦ elim (Option-cases (split_at p s)) [
    | inl nothing ↦
        let e : ◌≡◌ {A = Option (Bytes × Bytes)} none (some (a, b)) =
          (rw (later, nothing, split_at) at h) in
        cc
    | inr ((a', b'), found) ↦
        let e : ◌≡◌ {A = Option (Bytes × Bytes)} (some (x ∷ a', b')) (some (a, b)) =
          (rw (later, found, split_at) at h) in
        ground (arith, split_at-eq p s found)
  ]
]

-- A search that has found keeps what it found when more bytes come behind.
pub split_at-more :
    (p s t : Bytes) {a b : Bytes}
    → split_at p s ≡ some (a, b)
    → split_at p (s ++ t) ≡ some (a, b ++ t)
unfolding split_at
split_at-more p [] t h = cc
split_at-more p (x ∷ s) t {a} {b} h = elim (Bool-cases (starts_with p (x ∷ s))) [
  | inl here ↦ ground (
    arith,
    starts_with-more p (x ∷ s) t here,
    drop-append_le (length p) (x ∷ s) t (length-starts_with p (x ∷ s) here),
  )
  | inr later ↦ elim (Option-cases (split_at p s)) [
    | inl nothing ↦
        let e : ◌≡◌ {A = Option (Bytes × Bytes)} none (some (a, b)) =
          (rw (later, nothing, split_at) at h) in
        cc
    | inr ((a', b'), found) ↦
        let e : ◌≡◌ {A = Option (Bytes × Bytes)} (some (x ∷ a', b')) (some (a, b)) =
          (rw (later, found, split_at) at h) in
        elim (Bool-cases (starts_with p (x ∷ (s ++ t)))) [
          | inl here ↦
              let le : length p ≤ length (x ∷ s) = omega (
                arith,
                ap length (split_at-eq p s found),
                length-append {0} a' (p ++ b'),
                length-append {0} p b',
              ) in
              let is : starts_with p (x ∷ s) ≡ true = starts_with-less p (x ∷ s) t le here in cc
          | inr not_here ↦ rw (not_here, split_at-more p s t found, split_at) (ground arith)
        ]
  ]
]

split_at-tail : (p : Bytes) (x : ℕ) (s : Bytes) → split_at p (x ∷ s) ≡ none → split_at p s ≡ none
unfolding split_at
split_at-tail p x s h = elim (Option-cases (split_at p s)) [
  | inl nothing ↦ nothing
  | inr ((a, b), found) ↦ elim (Bool-cases (starts_with p (x ∷ s))) [
    | inl here ↦
        let e : ◌≡◌ {A = Option (Bytes × Bytes)} (some ([], drop (length p) (x ∷ s))) none =
          (rw (here, split_at) at h) in
        cc
    | inr later ↦
        let e : ◌≡◌ {A = Option (Bytes × Bytes)} (some (x ∷ a, b)) none =
          (rw (later, found, split_at) at h) in
        cc
  ]
]

-- A search that has not found has not seen the whole occurrence.
pub split_at-less :
    (p s t : Bytes) {a b : Bytes}
    → 0 < length p
    → split_at p s ≡ none
    → split_at p (s ++ t) ≡ some (a, b)
    → length s < length a + length p
unfolding split_at
split_at-less p [] t hp missed found_it = omega arith
split_at-less p (x ∷ s) t {a} {b} hp missed found_it =
    elim (Bool-cases (starts_with p (x ∷ (s ++ t)))) [
      | inl here ↦ elim (Bool-cases (leb (length p) (length (x ∷ s)))) [
        | inl le ↦
            let is : starts_with p (x ∷ s) ≡ true =
              starts_with-less p (x ∷ s) t (ground arith) here in
            let e : ◌≡◌ {A = Option (Bytes × Bytes)} (some ([], drop (length p) (x ∷ s))) none =
              (rw (is, split_at) at missed) in
            cc
        | inr more ↦ ground arith
      ]
      | inr not_here ↦ elim (Option-cases (split_at p (s ++ t))) [
        | inl nothing ↦
            let e : ◌≡◌ {A = Option (Bytes × Bytes)} none (some (a, b)) =
              (rw (not_here, nothing, split_at) at found_it) in
            cc
        | inr ((a', b'), found) ↦
            let e : ◌≡◌ {A = Option (Bytes × Bytes)} (some (x ∷ a', b')) (some (a, b)) =
              (rw (not_here, found, split_at) at found_it) in
            let missed' : split_at p s ≡ none = split_at-tail p x s missed in
            ground (arith, split_at-less p s t hp missed' found)
      ]
    ]
