-- ===== src/Hget/Connect/Select.antt =====
-- The candidates of `tcp_connect` of board/hget/hget.c: at most eight, and no family shut out.
use esp32_p4_linux.Common.{
  ℕ, zero, suc, ◌+◌, ◌*◌, ◌≤◌, ◌<◌, ◌≡◌, refl, inl, inr, Bool, true, false, none, some, List, [],
  ◌∷◌, ◌++◌, ltb, if◌then◌else◌, length, get_elem?, min, All, All-append, arith, length-append,
  Bool-cases, Option-cases, ltb→lt, not-ltb→le,
}
use esp32_p4_linux.Hget.Connect.{max_addrs, Addr, add, split_families, pick, interleave, candidates}

-- How many addresses are of a family.
abbrev pub is_family : Bool → Addr → ℕ
is_family true a = if a.inet6 then 1 else 0
is_family false a = if a.inet6 then 0 else 1

abbrev pub number : Bool → List Addr → ℕ
number f [] = 0
number f (a ∷ xs) = is_family f a + number f xs

number-append : (f : Bool) (xs ys : List Addr) → number f (xs ++ ys) ≡ number f xs + number f ys
number-append f [] ys = omega arith
number-append f (a ∷ xs) ys = omega (arith, number-append f xs ys)

pub All-get_elem? {κ} :
    (P : Addr → Type κ) (xs : List Addr) (i : ℕ) {a : Addr}
    → All P xs
    → get_elem? xs i ≡ some a
    → P a
All-get_elem? P [] i h e = cc
All-get_elem? P (a ∷ xs) zero {a = b} h e = let same : a ≡ b = cc in rw same at h.0
All-get_elem? P (a ∷ xs) (suc i) h e = All-get_elem? P xs i h.1 e

get_elem?-none : (xs : List Addr) (i : ℕ) → get_elem? xs i ≡ none → length xs ≤ i
get_elem?-none [] i e = omega arith
get_elem?-none (a ∷ xs) zero e = cc
get_elem?-none (a ∷ xs) (suc i) e = omega (arith, get_elem?-none xs i e)

get_elem?-some : (xs : List Addr) (i : ℕ) {a : Addr} → get_elem? xs i ≡ some a → i < length xs
get_elem?-some [] i e = cc
get_elem?-some (a ∷ xs) zero e = omega arith
get_elem?-some (a ∷ xs) (suc i) e = omega (arith, get_elem?-some xs i e)

-- The list of one family, of what was in the results.
record Family (f : Bool) (n : ℕ) (fam : List Addr) : Type 0 where
  all : All (λ a. a.inet6 ≡ f) fam
  many : length fam ≡ min max_addrs n

add-Family :
    (f : Bool) (n : ℕ) (fam : List Addr) (a : Addr)
    → a.inet6 ≡ f
    → Family f n fam
    → Family f (suc n) (add fam a)
unfolding add
add-Family f n fam a e h =
    let m = h.many in
    elim (Bool-cases (ltb (length fam) max_addrs)) [
      | inl room ↦ rw room (record {
        all = All-append (λ b. b.inet6 ≡ f) fam (a ∷ []) h.all (e, tt);
        many = ground (arith, length-append {0} fam (a ∷ []));
      })
      | inr full ↦ rw full (record { all = h.all; many = ground arith })
    ]

Family-cast : (f : Bool) {m n : ℕ} (fam : List Addr) → m ≡ n → Family f m fam → Family f n fam
Family-cast f fam e h = rw e at h

split_families-Family :
    (res six four : List Addr) (m n : ℕ)
    → Family true m six
    → Family false n four
    → Family true (m + number true res) (split_families res six four).0
      × Family false (n + number false res) (split_families res six four).1
unfolding split_families
split_families-Family [] six four m n h k =
    (Family-cast true six (omega arith) h, Family-cast false four (omega arith) k)
split_families-Family (a ∷ res) six four m n h k = elim (Bool-cases a.inet6) [
  | inl e ↦
      let (p, q) =
        split_families-Family res (add six a) four (suc m) n (add-Family true m six a e h) k in
      rw (e, split_families)
        (Family-cast true _ (omega arith) p, Family-cast false _ (omega arith) q)
  | inr e ↦
      let (p, q) =
        split_families-Family res six (add four a) m (suc n) h (add-Family false n four a e k) in
      rw (e, split_families)
        (Family-cast true _ (omega arith) p, Family-cast false _ (omega arith) q)
]

-- What one pick adds: an entry of the family if it has one at the slot, and room is left.
record Picks (f : Bool) (fam : List Addr) (slot : ℕ) (sel sel' : List Addr) : Type 0 where
  room : length sel ≤ max_addrs → length sel' ≤ max_addrs
  grows : length sel' ≤ length sel + 1
  keeps : (g : Bool) → number g sel ≤ number g sel'
  adds : length sel < max_addrs → slot < length fam → number f sel + 1 ≤ number f sel'

one_family : (f : Bool) (a : Addr) → a.inet6 ≡ f → is_family f a ≡ 1
one_family true a e = rw e refl
one_family false a e = rw e refl

pick-Picks :
    (f : Bool) (fam : List Addr) (slot : ℕ) (sel : List Addr)
    → All (λ a. a.inet6 ≡ f) fam
    → Picks f fam slot sel (pick fam slot sel)
unfolding pick
pick-Picks f fam slot sel h = elim (Bool-cases (ltb (length sel) max_addrs)) [
  | inr full ↦
      rw (full, pick)
        (record {
          room = λ r. r;
          grows = omega arith;
          keeps = λ g. omega arith;
          adds = λ r s. absurd (ground arith);
        })
  | inl room ↦ elim (Option-cases (get_elem? fam slot)) [
    | inl over ↦
        rw (room, pick, over, pick)
          (record {
            room = λ r. r;
            grows = omega arith;
            keeps = λ g. omega arith;
            adds = λ r s. absurd (omega (arith, get_elem?-none fam slot over));
          })
    | inr (a, got) ↦
        let lt = ltb→lt (length sel) max_addrs room in
        let len = length-append {0} sel (a ∷ []) in
        rw (room, pick, got, pick)
          (record {
            room = λ r. omega arith;
            grows = omega arith;
            keeps = λ g. omega (arith, number-append g sel (a ∷ []));
            adds = λ r s. omega (
              arith,
              number-append f sel (a ∷ []),
              one_family f a (All-get_elem? (λ b. b.inet6 ≡ f) fam slot h got),
            );
          })
  ]
]

-- The candidates so far, at a slot: no more than two for each slot behind, and up to slot 4 one of
-- each family that has one there.
record Fair (six four : List Addr) (slot : ℕ) (sel : List Addr) : Type 0 where
  at_most : length sel ≤ max_addrs
  slots : length sel ≤ 2 * slot
  some_six : min (min 4 slot) (length six) ≤ number true sel
  some_four : min (min 4 slot) (length four) ≤ number false sel

one_more :
    (slot len had have : ℕ)
    → min (min 4 slot) len ≤ had
    → had ≤ have
    → (slot < 4 → slot < len → had + 1 ≤ have)
    → min (min 4 (suc slot)) len ≤ have
one_more slot len had have h le more = elim (Bool-cases (ltb slot 4)) [
  | inr late ↦ let l = not-ltb→le slot 4 late in omega arith
  | inl early ↦ elim (Bool-cases (ltb slot len)) [
    | inl there ↦ let m = more (ltb→lt slot 4 early) (ltb→lt slot len there) in omega (arith, m)
    | inr over ↦ let o = not-ltb→le slot len over in omega arith
  ]
]

Fair-suc :
    (slot : ℕ) (six four sel : List Addr)
    → All (λ a. a.inet6 ≡ true) six
    → All (λ a. a.inet6 ≡ false) four
    → Fair six four slot sel
    → Fair six four (suc slot) (pick four slot (pick six slot sel))
Fair-suc slot six four sel h k f =
    let p = pick-Picks true six slot sel h in
    let q = pick-Picks false four slot (pick six slot sel) k in
    let s = f.slots in
    let g = p.grows in
    record {
      at_most = q.room (p.room f.at_most);
      slots = omega (arith, q.grows);
      some_six =
          one_more slot (length six) _ _ f.some_six (omega (arith, p.keeps true, q.keeps true))
            (λ early there. omega (arith, p.adds (omega arith) there, q.keeps true));
      some_four =
          one_more slot (length four) _ _ f.some_four (omega (arith, p.keeps false, q.keeps false))
            (λ early there. omega (arith, p.keeps false, q.adds (omega arith) there));
    }

Fair-cast :
    {six four : List Addr} {m n : ℕ} (sel : List Addr)
    → m ≡ n
    → Fair six four m sel
    → Fair six four n sel
Fair-cast sel e f = rw e at f

interleave-Fair :
    (n slot : ℕ) (six four sel : List Addr)
    → All (λ a. a.inet6 ≡ true) six
    → All (λ a. a.inet6 ≡ false) four
    → Fair six four slot sel
    → Fair six four (slot + n) (interleave n slot six four sel)
unfolding interleave
interleave-Fair zero slot six four sel h k f = Fair-cast sel (omega arith) f
interleave-Fair (suc n) slot six four sel h k f = Fair-cast _ (omega arith) (
    interleave-Fair n (suc slot) six four (pick four slot (pick six slot sel)) h k
      (Fair-suc slot six four sel h k f))

-- tcp_connect tries at most eight addresses, and neither family is shut out: of the IPv6 addresses
-- among the results it tries at least four, or all if there are fewer, and so of the others,
-- whatever their order.
pub candidates-Fair :
    (res : List Addr)
    → (length (candidates res) ≤ max_addrs)
      × ((min 4 (number true res) ≤ number true (candidates res))
          × (min 4 (number false res) ≤ number false (candidates res)))
unfolding candidates
candidates-Fair res =
    let (p, q) =
      split_families-Family res [] [] 0 0 (record { all = tt; many = omega arith })
        (record { all = tt; many = omega arith }) in
    let m = p.many in
    let n = q.many in
    let f =
      interleave-Fair max_addrs 0 (split_families res [] []).0 (split_families res [] []).1 [] p.all
        q.all
        (record {
          at_most = omega arith;
          slots = omega arith;
          some_six = omega arith;
          some_four = omega arith;
        }) in
    (f.at_most, (omega (arith, f.some_six), omega (arith, f.some_four)))
